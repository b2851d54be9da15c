-- ===== src/IpPool/Prefixes/Cover.antt =====
-- What the networks of `getPrefixes` cover.
use mathlib.Core.List.{map-append, append_assoc, append-nil}
use native.Mathlib.Nat.{add-zero}
use native.Mathlib.Decide.{dec_lt}
use mathlib.Core.Path.{subst₂}
use nsm_sdk.Prelude.{
  ℕ, zero, suc, ◌+◌, ◌-◌, ◌*◌, ◌^◌, ◌≤◌, ◌<◌, ◌≡◌, ◌⊎◌, inl, inr, refl, sym, ap, ◌∙◌, arith, List,
  [], ◌∷◌, ◌++◌, map,
}
use nsm_sdk.IpPool.Address.{num, max_uint64}
use nsm_sdk.IpPool.Range.{Range, IsRange}
use nsm_sdk.IpPool.Prefixes.{
  Prefix, first_loop, cover_loop, low_prefix, high_prefix, rounds, low_prefixes, first_high,
  last_high, get_prefixes,
}
use nsm_sdk.IpPool.Prefixes.Blocks.{
  cover_loop-Blocks, cover_loop-zero, cover_loop_wraps, first_loop-Blocks, first_loop_done,
}
use nsm_sdk.IpPool.Prefixes.Tiles.{
  Tiles, TilesWith, Tiles-append, low_prefix-Tiles, high_prefix-Tiles, low_prefixes-Tiles,
  low_prefixes_wrap, low_prefixes_whole,
}

-- The networks of the first loop, and those of the second.
abbrev firsts : Range → List Prefix
firsts r = map (low_prefix r.start.high) (first_loop rounds r.start.low)

abbrev wholes : Range → List Prefix
wholes r = map high_prefix (cover_loop rounds (first_high r) (last_high r))

first_part-Tiles :
    (h l n : ℕ)
    → l < 2 ^ 64
    → (l ≡ 0 → n ≡ h)
    → (0 < l → n ≡ h + 1)
    → Tiles (h * 2 ^ 64 + l) (n * 2 ^ 64) (map (low_prefix h) (first_loop rounds l))
unfolding rounds
first_part-Tiles h zero n k z s = rw (first_loop_done, z refl) (omega arith)
first_part-Tiles h (suc l) n k z s =
    let e : n * 2 ^ 64 ≡ h * 2 ^ 64 + 2 ^ 64 = omega (arith, s (omega arith)) in
    rw e (
      low_prefix-Tiles h (suc l) (2 ^ 64) _
        (first_loop-Blocks (2 ^ 64 + 1) (suc l) (omega arith) k (omega arith)))

middle_part-Tiles :
    (n e b : ℕ)
    → e < max_uint64
    → n ≤ e + 1
    → b ≡ (e + 1) * 2 ^ 64
    → Tiles (n * 2 ^ 64) b (map high_prefix (cover_loop rounds n e))
unfolding rounds
middle_part-Tiles n e b h k l =
    rw l (high_prefix-Tiles n (e + 1) _ (cover_loop-Blocks (2 ^ 64 + 1) n e h k (omega arith)))

last_part-Tiles :
    (h e : ℕ) → e < max_uint64 → Tiles (h * 2 ^ 64) (h * 2 ^ 64 + e + 1) (low_prefixes h 0 e)
last_part-Tiles h e k = rw add-zero at (low_prefixes-Tiles h 0 e k (omega arith))

module _ (r : Range) (v : IsRange r) (apart : r.start.high < r.end.high) where
  first_high_lem :
      (r.start.low ≡ 0 → first_high r ≡ r.start.high)
      × (0 < r.start.low → first_high r ≡ r.start.high + 1)
      × (first_high r ≤ r.end.high)
  unfolding first_high
  first_high_lem = ground (arith, v.end_word)

  firsts-Tiles : Tiles (num r.start) (first_high r * 2 ^ 64) (firsts r)
  firsts-Tiles =
      first_part-Tiles r.start.high r.start.low (first_high r) v.start_word.low_lt first_high_lem.0
        first_high_lem.1

  -- The last /64 network is not full.
  module _ (short : r.end.low < max_uint64) where
    partial_eq :
        (last_high r ≡ r.end.high - 1)
        × (get_prefixes r ≡ firsts r ++ (wholes r ++ low_prefixes r.end.high 0 r.end.low))
    unfolding get_prefixes last_high
    partial_eq = ground (arith, v.end_word)

    partial-Tiles : Tiles (num r.start) (num r.end + 1) (get_prefixes r)
    partial-Tiles = rw (partial_eq.1) (
        Tiles-append _ _ _ (firsts r) _ firsts-Tiles (
          Tiles-append _ (r.end.high * 2 ^ 64) _ (wholes r) _
            (middle_part-Tiles _ _ _ (omega (arith, partial_eq.0, v.end_word))
              (omega (arith, partial_eq.0, first_high_lem.2)) (omega (arith, partial_eq.0)))
            (last_part-Tiles r.end.high r.end.low short)))

  -- The last /64 network is full.
  module _ (full : r.end.low ≡ max_uint64) where
    full_eq : (last_high r ≡ r.end.high) × (get_prefixes r ≡ firsts r ++ wholes r)
    unfolding get_prefixes last_high
    full_eq = ground (arith, append-nil (wholes r))

    full-Tiles : r.end.high < max_uint64 → Tiles (num r.start) (num r.end + 1) (get_prefixes r)
    full-Tiles h = rw (full_eq.1) (
        Tiles-append _ _ _ (firsts r) (wholes r) firsts-Tiles (
          middle_part-Tiles _ _ _ (omega (arith, full_eq.0))
            (omega (arith, full_eq.0, first_high_lem.2)) (omega (arith, full_eq.0))))

    last-Tiles :
        r.end.high ≡ max_uint64
        → num r.start ≡ 0
        → Tiles (num r.start) (num r.end + 1) (get_prefixes r)
    unfolding rounds high_prefix
    last-Tiles h k =
        let zero : first_high r ≡ 0 = omega (arith, first_high_lem.0) in
        let one : wholes r ≡ high_prefix (0, 64) ∷ [] =
          rw (zero, full_eq.0, h)
            (ap (map high_prefix) (cover_loop-zero (2 ^ 64 + 1) (omega arith))) in
        rw (full_eq.1, one)
          (Tiles-append _ (first_high r * 2 ^ 64) _ (firsts r) _ firsts-Tiles
            (omega arith, (0, omega arith), omega arith))

    last_wraps :
        r.end.high ≡ max_uint64
        → 0 < num r.start
        → TilesWith (high_prefix (0, 64)) (num r.start) (num r.end + 1) (get_prefixes r)
    unfolding rounds
    last_wraps h k =
        let (ps, e, b) =
          cover_loop_wraps (2 ^ 64 + 1) (first_high r)
            (grind (arith, first_high_lem.0, first_high_lem.1))
            (omega (arith, first_high_lem.2, v.end_word.high_lt)) (omega arith) in
        (
          firsts r ++ map high_prefix ps,
          full_eq.1
              ∙ ap (λ t. firsts r ++ map high_prefix (cover_loop (2 ^ 64 + 1) (first_high r) t))
                  (full_eq.0 ∙ h)
              ∙ ap (λ t. firsts r ++ map high_prefix t) e
              ∙ ap (λ t. firsts r ++ t) (map-append high_prefix ps _)
              ∙ sym (append_assoc (firsts r) (map high_prefix ps) _),
          Tiles-append _ _ _ (firsts r) _ firsts-Tiles (
              let e : num r.end + 1 ≡ 2 ^ 64 * 2 ^ 64 = omega arith in
              rw e (high_prefix-Tiles (first_high r) (2 ^ 64) ps b)),
        )

-- The ranges on which a word of `getPrefixes` wraps: they end with a full /64 network but do not
-- begin with one, or they end with the last address, span networks and do not begin with 0.
abbrev pub Wraps : Range → Type 0
Wraps r =
    ((r.start.high ≡ r.end.high) × (r.end.low ≡ max_uint64) × (0 < r.start.low))
    ⊎ ((r.start.high < r.end.high) × (num r.end + 1 ≡ 2 ^ 128) × (0 < num r.start))

high-le : (r : Range) → IsRange r → r.start.high ≤ r.end.high
high-le r v = omega (arith, v.ordered, v.start_word, v.end_word)

same_part-Tiles :
    (h s e : ℕ)
    → s ≤ e
    → (e < max_uint64) ⊎ ((s ≡ 0) × (e ≡ max_uint64))
    → Tiles (h * 2 ^ 64 + s) (h * 2 ^ 64 + e + 1) (low_prefixes h s e)
unfolding low_prefix
same_part-Tiles h s e k (inl inside) = low_prefixes-Tiles h s e inside (omega arith)
same_part-Tiles h s e k (inr (first, full)) = rw (first, full, low_prefixes_whole) (whole h)
  where
    whole :
        (h : ℕ) → Tiles (h * 2 ^ 64 + 0) (h * 2 ^ 64 + max_uint64 + 1) (low_prefix h (0, 64) ∷ [])
    whole h = (omega arith, (h, omega arith), omega arith)

same_eq :
    (r : Range)
    → r.start.high ≡ r.end.high
    → get_prefixes r ≡ low_prefixes r.end.high r.start.low r.end.low
unfolding get_prefixes
same_eq r e = ground arith

same-Tiles :
    (r : Range)
    → IsRange r
    → r.start.high ≡ r.end.high
    → ¬ Wraps r
    → Tiles (num r.start) (num r.end + 1) (get_prefixes r)
same-Tiles r v e w =
    rw (same_eq r e, e)
      (same_part-Tiles r.end.high r.start.low r.end.low (omega (arith, v.ordered))
        (ground (arith, v.end_word)))

apart-Tiles :
    (r : Range)
    → IsRange r
    → r.start.high < r.end.high
    → ¬ Wraps r
    → Tiles (num r.start) (num r.end + 1) (get_prefixes r)
apart-Tiles r v a w = elim (dec_lt r.end.low max_uint64) [
  | yes short ↦ partial-Tiles r v a short
  | no long ↦
      let full : r.end.low ≡ max_uint64 = omega (arith, v.end_word) in
      elim (dec_lt r.end.high max_uint64) [
        | yes inside ↦ full-Tiles r v a full inside
        | no last ↦ last-Tiles r v a full (omega (arith, v.end_word)) (ground (arith, v.end_word))
      ]
]

-- Of a range in order on which no word wraps, `getPrefixes` lists aligned networks that follow one
-- another from the first address of the range to its last.
pub get_prefixes-Tiles :
    (r : Range) → IsRange r → ¬ Wraps r → Tiles (num r.start) (num r.end + 1) (get_prefixes r)
get_prefixes-Tiles r v w = elim (dec_lt r.start.high r.end.high) [
  | yes a ↦ apart-Tiles r v a w
  | no b ↦ same-Tiles r v (omega (arith, high-le r v)) w
]

-- On the ranges where a word wraps, `getPrefixes` lists such networks and behind them one more: the
-- /64 network of the range, where the range stands in one, and else the network of all addresses.
pub get_prefixes-Wraps :
    (r : Range)
    → IsRange r
    → (w : Wraps r)
    → TilesWith
        (elim w [ inl _ ↦ low_prefix r.end.high (0, 64) | inr _ ↦ high_prefix (0, 64) ])
        (num r.start)
        (num r.end + 1)
        (get_prefixes r)
get_prefixes-Wraps r v (inl (e, full, some)) =
    let (qs, l, t) = low_prefixes_wrap r.end.high r.start.low some v.start_word.low_lt in
    (
      qs,
      same_eq r e ∙ ap (low_prefixes r.end.high r.start.low) full ∙ l,
      subst₂ (λ a b. Tiles a b qs) (omega arith) (omega arith) t,
    )
get_prefixes-Wraps r v (inr (apart, last, some)) =
    last_wraps r v apart (omega (arith, v.end_word)) (omega (arith, v.end_word)) some
