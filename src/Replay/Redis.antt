-- ===== src/Replay/Redis.antt =====
-- `InMemoryRedisLikeClient` of src/redisClient.ts: `SET` with `NX` and `PX`, `GET`, `DEL`, and the
-- pipeline as the sequence of its commands.
pub mod Once
mod Tests
use h3_protocol.Prelude.Int.{ℤ, ◌+ℤ◌, leb_ℤ}
use h3_protocol.Prelude.Map
use h3_protocol.Prelude.Map.{Map}
use h3_protocol.Prelude.Texts.{Text}
use h3_protocol.Prelude.{
  ℕ, Bool, ◌&&◌, true, false, Option, none, some, List, [], ◌∷◌, if◌then◌else◌,
}

pub record RedisSetOptions : Type 0 where
  pub nx : Bool
  pub px_ms : Option ℤ

pub record Entry : Type 0 where
  pub value : Text
  pub expires_at : Option ℤ

pub record InMemoryRedisLikeClient : Type 0 where
  pub entries : Map Entry

-- `entry.expiresAt !== undefined && entry.expiresAt <= this.now()`
unfoldable pub is_over : Entry → ℤ → Bool
is_over entry now = elim entry.expires_at [ none ↦ false | some t ↦ leb_ℤ t now ]

unfoldable pub live : InMemoryRedisLikeClient → Text → ℤ → InMemoryRedisLikeClient × Option Entry
live client key now = elim (Map.get key client.entries) [
  | none ↦ (client, none)
  | some entry ↦
      if is_over entry now
      then (record { entries = Map.delete key client.entries }, none)
      else (client, some entry)
]

unfoldable pub is_found : Option Entry → Bool
is_found none = false
is_found (some entry) = true

unfoldable pub put : InMemoryRedisLikeClient → Text → Text → Option ℤ → ℤ → InMemoryRedisLikeClient
put client key value px_ms now =
    let expires_at : Option ℤ = elim px_ms [ none ↦ none | some px ↦ some (now +ℤ px) ] in
    record {
      entries = Map.set key (record { value = value; expires_at = expires_at }) client.entries;
    }

-- `true` is `'OK'`, `false` is `null`.
unfoldable pub set :
    InMemoryRedisLikeClient → Text → Text → RedisSetOptions → ℤ → InMemoryRedisLikeClient × Bool
set client key value options now =
    let (client', found) = live client key now in
    if options.nx && is_found found
    then (client', false)
    else (put (if options.nx then client' else client) key value options.px_ms now, true)

unfoldable pub get : InMemoryRedisLikeClient → Text → ℤ → InMemoryRedisLikeClient × Option Text
get client key now =
    let (client', found) = live client key now in
    (client', elim found [ none ↦ none | some entry ↦ some entry.value ])

unfoldable pub del : InMemoryRedisLikeClient → Text → ℤ → InMemoryRedisLikeClient × ℕ
del client key now =
    let (client', found) = live client key now in
    (record { entries = Map.delete key client'.entries }, elim found [ none ↦ 0 | some entry ↦ 1 ])

-- A queued `set`, with the time at which it runs.
pub record PipelineCommand : Type 0 where
  pub key : Text
  pub value : Text
  pub options : RedisSetOptions
  pub now : ℤ

-- `pipeline().exec()`: the commands in order, with their results.
unfoldable pub exec :
    InMemoryRedisLikeClient → List PipelineCommand → InMemoryRedisLikeClient × List Bool
exec client [] = (client, [])
exec client (c ∷ commands) =
    let (client', result) = set client c.key c.value c.options c.now in
    let (client'', results) = exec client' commands in (client'', result ∷ results)
