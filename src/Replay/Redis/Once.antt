-- ===== src/Replay/Redis/Once.antt =====
-- `SET NX PX` as a lock: one writer per key and lifetime.
use h3_protocol.Replay.Redis.{
  RedisSetOptions, Entry, InMemoryRedisLikeClient, is_over, live, put, set, get, del, is_found,
}
use h3_protocol.Prelude.Int.{ℤ, ◌+ℤ◌, ◌<ℤ◌}
use h3_protocol.Prelude.Lists.{All}
use h3_protocol.Prelude.Map
use h3_protocol.Prelude.Texts.{Text, text_eq, text_eq_iff, text_eq_ne, text_eq_refl}
use h3_protocol.Prelude.{
  ◌≡◌, ◌≢◌, refl, ap, ◌∙◌, ◌⊎◌, inl, inr, true, false, Option, some, List, [], ◌∷◌, arith,
  Bool-cases,
}

pub data Command : Type 0 where
  setting : Text → Text → RedisSetOptions → ℤ → Command
  getting : Text → ℤ → Command
  deleting : Text → ℤ → Command

unfoldable pub step : InMemoryRedisLikeClient → Command → InMemoryRedisLikeClient
step client (setting key value options now) = (set client key value options now).0
step client (getting key now) = (get client key now).0
step client (deleting key now) = (del client key now).0

unfoldable pub run : InMemoryRedisLikeClient → List Command → InMemoryRedisLikeClient
run client [] = client
run client (c ∷ commands) = run (step client c) commands

-- The command comes before the end of the lifetime, and neither overwrites nor deletes the key.
abbrev pub SparesKey : Text → ℤ → Command → Type 0
SparesKey key until (setting k value options now) =
    (now <ℤ until) × ((options.nx ≡ true) ⊎ (k ≢ key))
SparesKey key until (getting k now) = now <ℤ until
SparesKey key until (deleting k now) = (now <ℤ until) × (k ≢ key)

live-keeps :
    (client : InMemoryRedisLikeClient) (k key : Text) (now until : ℤ) (entry : Entry)
    → entry.expires_at ≡ some until
    → now <ℤ until
    → Map.get key client.entries ≡ some entry
    → Map.get key (live client k now).0.entries ≡ some entry
unfolding live is_over
live-keeps client k key now until entry lasts early held =
    ground (arith, Map.get-delete k key client.entries, text_eq_iff k key)

put-other :
    (client : InMemoryRedisLikeClient) (k key value : Text) (px : Option ℤ) (now : ℤ)
    → k ≢ key
    → Map.get key (put client k value px now).entries ≡ Map.get key client.entries
unfolding put
put-other client k key value px now other =
    Map.get-set k key _ client.entries ∙ rw (text_eq_ne k key other) refl

live_found :
    (client : InMemoryRedisLikeClient) (key : Text) (now until : ℤ) (entry : Entry)
    → entry.expires_at ≡ some until
    → now <ℤ until
    → Map.get key client.entries ≡ some entry
    → live client key now ≡ (client, some entry)
unfolding live is_over
live_found client key now until entry lasts early held = ground arith

set_held :
    (client : InMemoryRedisLikeClient) (key value : Text) (options : RedisSetOptions)
    (now until : ℤ) (entry : Entry)
    → options.nx ≡ true
    → now <ℤ until
    → entry.expires_at ≡ some until
    → Map.get key client.entries ≡ some entry
    → set client key value options now ≡ (client, false)
unfolding set is_found
set_held client key value options now until entry nx early lasts held =
    ground (arith, nx, live_found client key now until entry lasts early held)

set-keeps :
    (client : InMemoryRedisLikeClient) (k key value : Text) (options : RedisSetOptions)
    (now until : ℤ) (entry : Entry)
    → (options.nx ≡ true) ⊎ (k ≢ key)
    → now <ℤ until
    → entry.expires_at ≡ some until
    → Map.get key client.entries ≡ some entry
    → Map.get key (set client k value options now).0.entries ≡ some entry
unfolding set
set-keeps client k key value options now until entry spares early lasts held =
    elim (Bool-cases (text_eq k key)) [
      | inl same ↦
          ground (arith, text_eq_iff k key, set_held client key value options now until entry)
      | inr other ↦ ground (
        arith,
        live-keeps client k key now until entry lasts early held,
        put-other client k key value options.px_ms now,
        put-other (live client k now).0 k key value options.px_ms now,
        text_eq_iff k key,
      )
    ]

step-keeps :
    (client : InMemoryRedisLikeClient) (c : Command) (key : Text) (until : ℤ) (entry : Entry)
    → SparesKey key until c
    → entry.expires_at ≡ some until
    → Map.get key client.entries ≡ some entry
    → Map.get key (step client c).entries ≡ some entry
unfolding step get del
step-keeps client (setting k value options now) key until entry (early, spares) lasts held =
    set-keeps client k key value options now until entry spares early lasts held
step-keeps client (getting k now) key until entry early lasts held =
    live-keeps client k key now until entry lasts early held
step-keeps client (deleting k now) key until entry (early, other) lasts held = ground (
  arith,
  live-keeps client k key now until entry lasts early held,
  Map.get-delete k key (live client k now).0.entries,
  text_eq_iff k key,
)

run-keeps :
    (client : InMemoryRedisLikeClient) (commands : List Command) (key : Text) (until : ℤ)
    (entry : Entry)
    → All (SparesKey key until) commands
    → entry.expires_at ≡ some until
    → Map.get key client.entries ≡ some entry
    → Map.get key (run client commands).entries ≡ some entry
unfolding run
run-keeps client [] key until entry spares lasts held = held
run-keeps client (c ∷ commands) key until entry (own, spares) lasts held =
    run-keeps (step client c) commands key until entry spares lasts
      (step-keeps client c key until entry own lasts held)

put_held :
    (client : InMemoryRedisLikeClient) (key value : Text) (px now : ℤ)
    → Map.get key (put client key value (some px) now).entries
      ≡ some (record { value = value; expires_at = some (now +ℤ px) })
unfolding put
put_held client key value px now = Map.get-set key key _ client.entries ∙ rw (text_eq_refl key) refl

set_ok_held :
    (client : InMemoryRedisLikeClient) (key value : Text) (options : RedisSetOptions) (px now : ℤ)
    → options.px_ms ≡ some px
    → (set client key value options now).1 ≡ true
    → Map.get key (set client key value options now).0.entries
      ≡ some (record { value = value; expires_at = some (now +ℤ px) })
unfolding set
set_ok_held client key value options px now lifetime written = ground (
  arith,
  lifetime,
  put_held client key value px now,
  put_held (live client key now).0 key value px now,
)

-- After set has written a key with a lifetime, every set with NX on that key before the lifetime ends
-- answers null, whatever commands lie between, as long as those come before that end too and do not
-- delete the key or set it without NX.
pub set_nx_once :
    (client : InMemoryRedisLikeClient) (key value again : Text) (options options' : RedisSetOptions)
    (px now later : ℤ) (commands : List Command)
    → options.px_ms ≡ some px
    → (set client key value options now).1 ≡ true
    → All (SparesKey key (now +ℤ px)) commands
    → options'.nx ≡ true
    → later <ℤ now +ℤ px
    → (set (run (set client key value options now).0 commands) key again options' later).1 ≡ false
set_nx_once client key value again options options' px now later commands lifetime written spares nx
      early =
    let entry : Entry = record { value = value; expires_at = some (now +ℤ px) } in
    let client' = (set client key value options now).0 in
    ap (λ p. p.1)
      (set_held (run client' commands) key again options' later (now +ℤ px) entry nx early refl (
        run-keeps client' commands key (now +ℤ px) entry spares refl
          (set_ok_held client key value options px now lifetime written)))
