-- ===== src/Gateway/Path/Clean.antt =====
-- What `normalizeGatewayPath` returns.
use h3_protocol.Gateway.Path.{
  decode_passes, has_control, dot, dot_dot, is_skipped, pop_segment, normalize_segments, join_onto,
  join_path, normalize_decoded, starts_with_slash, normalize_gateway_path,
}
use h3_protocol.Policy.Scope.{split_slash, split_slash_from}
use h3_protocol.Prelude.Lists.{All, All-append}
use h3_protocol.Prelude.Texts.{Text, text_eq, text_eq_iff}
use h3_protocol.Prelude.{
  ℕ, ◌≡◌, ◌≢◌, refl, inl, inr, true, false, Option, some, List, [], ◌∷◌, ◌++◌, ltb, ◌==◌, arith,
  Bool-cases, Option-cases,
}

-- Neither a slash nor a control character.
abbrev pub IsPlainUnit : ℕ → Type 0
IsPlainUnit c = ((c == b'/') ≡ false) × (ltb c 32 ≡ false)

abbrev pub HasNoControl : Text → Type 0
HasNoControl = All (λ c. ltb c 32 ≡ false)

-- A segment that names something: not empty, `.` or `..`, without a slash or a control character.
pub record IsName (seg : Text) : Type 0 where
  pub named : seg ≢ []
  pub no_dot : seg ≢ dot
  pub no_dot_dot : seg ≢ dot_dot
  pub plain : All IsPlainUnit seg

no_control : (s : Text) → has_control s ≡ false → HasNoControl s
unfolding has_control
no_control [] h = tt
no_control (c ∷ s) h = (ground (arith, h), no_control s (ground (arith, h)))

split_from_plain :
    (seg s : Text)
    → All IsPlainUnit seg
    → HasNoControl s
    → All (All IsPlainUnit) (split_slash_from seg s)
unfolding split_slash_from
split_from_plain seg [] own h = (own, tt)
split_from_plain seg (c ∷ s) own (now, h) = elim (Bool-cases (c == b'/')) [
  | inl slash ↦ rw slash (own, split_from_plain [] s tt h)
  | inr other ↦ rw other (
      split_from_plain (seg ++ c ∷ []) s
        (All-append IsPlainUnit seg (c ∷ []) own ((other, now), tt)) h)
]

pop_names :
    (normalized shorter : List Text)
    → pop_segment normalized ≡ some shorter
    → All IsName normalized
    → All IsName shorter
unfolding pop_segment
pop_names [] shorter h own = cc
pop_names (seg ∷ normalized) shorter h (_, own) =
    let same : normalized ≡ shorter = cc in rw (← same) own

kept-IsName :
    (seg : Text)
    → is_skipped seg ≡ false
    → text_eq seg dot_dot ≡ false
    → All IsPlainUnit seg
    → IsName seg
unfolding is_skipped
kept-IsName seg kept up plain = record {
  named = λ e. ground (arith, kept, text_eq_iff seg []);
  no_dot = λ e. ground (arith, kept, text_eq_iff seg dot);
  no_dot_dot = λ e. ground (arith, up, text_eq_iff seg dot_dot);
  plain = plain;
}

segments_names :
    (normalized segments result : List Text)
    → All IsName normalized
    → All (All IsPlainUnit) segments
    → normalize_segments normalized segments ≡ some result
    → All IsName result
unfolding normalize_segments
segments_names normalized [] result own plain h =
    let same : normalized ≡ result = cc in rw (← same) own
segments_names normalized (seg ∷ segments) result own (plain, others) h =
    elim (Bool-cases (is_skipped seg)) [
      | inl skipped ↦
          segments_names normalized segments result own others (ground (arith, h, skipped))
      | inr kept ↦ elim (Bool-cases (text_eq seg dot_dot)) [
        | inl up ↦ elim (Option-cases (pop_segment normalized)) [
          | inl above ↦ ground (arith, h, kept, up, above)
          | inr (shorter, popped) ↦
              segments_names shorter segments result (pop_names normalized shorter popped own)
                others (ground (arith, h, kept, up, popped))
        ]
        | inr named ↦
            segments_names (seg ∷ normalized) segments result
              (kept-IsName seg kept named plain, own) others (ground (arith, h, kept, named))
      ]
    ]

unit_controls : (s : Text) → All IsPlainUnit s → HasNoControl s
unit_controls [] h = tt
unit_controls (c ∷ s) ((_, now), h) = (now, unit_controls s h)

join_onto-HasNoControl :
    (normalized : List Text) (tail : Text)
    → All IsName normalized
    → HasNoControl tail
    → HasNoControl (join_onto normalized tail)
unfolding join_onto
join_onto-HasNoControl [] tail own h = h
join_onto-HasNoControl (seg ∷ normalized) tail (name, own) h =
    join_onto-HasNoControl normalized (b'/' ∷ (seg ++ tail)) own
      (refl, All-append (λ c. ltb c 32 ≡ false) seg tail (unit_controls seg name.plain) h)

join_path-HasNoControl :
    (normalized : List Text) → All IsName normalized → HasNoControl (join_path normalized)
unfolding join_path
join_path-HasNoControl [] own = (refl, tt)
join_path-HasNoControl (seg ∷ normalized) own = join_onto-HasNoControl (seg ∷ normalized) [] own tt

decoded_clean :
    (decoded path : Text)
    → normalize_decoded decoded ≡ some path
    → (names : List Text) × (path ≡ join_path names) × All IsName names
unfolding normalize_decoded split_slash
decoded_clean decoded path h = elim (Option-cases (normalize_segments [] (split_slash decoded))) [
  | inl above ↦ ground (arith, h, above)
  | inr (names, e) ↦ (
    names,
    ground (arith, h, e),
    segments_names [] (split_slash decoded) names tt
        (split_from_plain [] decoded tt (no_control decoded (ground (arith, h)))) e,
  )
]

-- Whatever a path decodes to, a path that normalizeGatewayPath returns is the root or a slash before each of its segments (given
-- from the last to the first), none of which is empty, `.` or `..` or holds a slash or a control character; so the path holds no
-- control character either.
pub normalized_path_is_clean :
    (decode : Text → Option Text) (raw path : Text)
    → normalize_gateway_path decode raw ≡ some path
    → (starts_with_slash raw ≡ true)
      × (names : List Text) × (path ≡ join_path names)
      × All IsName names
      × HasNoControl path
unfolding normalize_gateway_path
normalized_path_is_clean decode raw path h = elim (Option-cases (decode_passes decode 5 raw)) [
  | inl refused ↦ ground (arith, h, refused)
  | inr (decoded, e) ↦
      let (names, joined, own) = decoded_clean decoded path (ground (arith, h, e)) in
      (ground (arith, h), names, joined, own, rw joined (join_path-HasNoControl names own))
]
