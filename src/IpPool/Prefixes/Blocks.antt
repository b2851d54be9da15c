-- ===== src/IpPool/Prefixes/Blocks.antt =====
-- The blocks of one word that the loops of `getPrefixes` list.
use native.Mathlib.Nat.{pow-suc, mul_assoc, add-zero, add-suc}
use native.Mathlib.Decide.{dec_lt}
use nsm_sdk.Prelude.{
  ℕ, zero, suc, ◌+◌, ◌-◌, ◌*◌, ◌%◌, ◌^◌, ◌≤◌, ◌<◌, ◌≡◌, refl, ap, ◌∙◌, arith, List, [], ◌∷◌, ◌++◌,
  ◌⊎◌, inl, inr,
}
use nsm_sdk.IpPool.Address.{max_uint64}
use nsm_sdk.IpPool.Prefixes.{trailing_zeros, first_loop, block_bits, cover_loop}
use nsm_sdk.IpPool.Prefixes.Words.{
  Aligned, pow-pos, trailing_zeros-zero, trailing_zeros_lem, block_bits_lem,
}

-- Aligned blocks that follow one another from `a` up to `b`.
abbrev pub Blocks : ℕ → ℕ → List (ℕ × ℕ) → Type 0
Blocks a b [] = a ≡ b
Blocks a b ((s, z) ∷ ps) = (s ≡ a) × Aligned z a × (z < 64) × Blocks (a + 2 ^ z) b ps

pub pow-add : (w z : ℕ) → 2 ^ (w + z) ≡ 2 ^ w * 2 ^ z
pow-add w zero = rw add-zero (omega arith)
pow-add w (suc z) =
    rw (add-suc, pow-suc 2 (w + z), pow-suc 2 z, pow-add w z) (mul_assoc (2 ^ w) (2 ^ z) 2)

-- An aligned block of a word does not pass the last word.
Aligned-room : (z s : ℕ) → z < 64 → s < 2 ^ 64 → Aligned z s → s + 2 ^ z ≤ 2 ^ 64
Aligned-room z s l lt (m, e) =
    let w = 64 - z in
    let sum : w + z ≡ 64 = omega arith in
    let whole : 2 ^ w * 2 ^ z ≡ 2 ^ 64 = rw (← pow-add w z, sum) in
    let few : m < 2 ^ w = grind (arith, pow-pos z) in grind arith

module _ (f s e : ℕ) where
  cover_loop_done : e < s → cover_loop (suc f) s e ≡ []
  unfolding cover_loop
  cover_loop_done h = ground arith

  cover_loop_round :
      s ≤ e
      → (trailing_zeros s < 64) ⊎ (e < max_uint64)
      → cover_loop (suc f) s e
        ≡ (s, block_bits s e) ∷ cover_loop f ((s + 2 ^ block_bits s e) % 2 ^ 64) e
  unfolding cover_loop
  cover_loop_round h k = ground arith

  cover_loop_whole : s ≡ 0 → e ≡ max_uint64 → cover_loop (suc f) s e ≡ (s, 64) ∷ []
  unfolding cover_loop
  cover_loop_whole h k = ground (arith, trailing_zeros-zero)

-- Below the last word the loop covers the interval and stops behind it.
pub cover_loop-Blocks :
    (f s e : ℕ) → e < max_uint64 → s ≤ e + 1 → e + 2 - s ≤ f → Blocks s (e + 1) (cover_loop f s e)
cover_loop-Blocks zero s e h k l = absurd (omega arith)
cover_loop-Blocks (suc f) s e h k l = elim (dec_lt e s) [
  | yes done ↦ rw (cover_loop_done f s e done) (omega arith)
  | no more ↦
      let (a, room, small) = block_bits_lem s e (omega arith) (omega arith) (λ _. h) in
      let next = s + 2 ^ block_bits s e in
      let positive = pow-pos (block_bits s e) in
      let same : next % 2 ^ 64 ≡ next = omega arith in
      rw (cover_loop_round f s e (omega arith) (inr h), same)
        (refl, a, small, cover_loop-Blocks f next e h (omega arith) (omega arith))
]

pub cover_loop-zero : (f : ℕ) → 0 < f → cover_loop f 0 max_uint64 ≡ (0, 64) ∷ []
cover_loop-zero zero h = absurd (omega arith)
cover_loop-zero (suc f) h = cover_loop_whole f 0 max_uint64 refl refl

-- Up to the last word, from any word but 0, the loop covers the interval, wraps to 0 and lists the
-- whole /64 network once more.
pub cover_loop_wraps :
    (f s : ℕ)
    → 0 < s
    → s < 2 ^ 64
    → 2 ^ 64 + 1 - s ≤ f
    → (ps : List (ℕ × ℕ)) × (cover_loop f s max_uint64 ≡ ps ++ (0, 64) ∷ []) × Blocks s (2 ^ 64) ps
cover_loop_wraps zero s h k l = absurd (omega arith)
cover_loop_wraps (suc zero) s h k l = absurd (omega arith)
cover_loop_wraps (suc (suc f)) s h k l =
    let (a, room, small) =
      block_bits_lem s max_uint64 (omega arith) (omega arith) (λ e. omega arith) in
    let (_, _, _, odd) = trailing_zeros_lem s h k in
    let z = block_bits s max_uint64 in
    let positive = pow-pos z in
    let step = cover_loop_round (suc f) s max_uint64 (omega arith) (inl odd) in
    elim (dec_lt (s + 2 ^ z) (2 ^ 64)) [
      | yes inside ↦
          let same : (s + 2 ^ z) % 2 ^ 64 ≡ s + 2 ^ z = omega arith in
          let (ps, e, b) =
            cover_loop_wraps (suc f) (s + 2 ^ z) (omega arith) inside (omega arith) in
          (
            (s, z) ∷ ps,
            step ∙ ap (λ t. (s, z) ∷ cover_loop (suc f) t max_uint64) same ∙ ap (◌∷◌ (s, z)) e,
            (refl, a, small, b),
          )
      | no outside ↦
          let wraps : (s + 2 ^ z) % 2 ^ 64 ≡ 0 = omega arith in
          (
            (s, z) ∷ [],
            rw (step, wraps, cover_loop_whole f 0 max_uint64 refl refl),
            (refl, a, small, omega arith),
          )
    ]

pub first_loop_done : (f : ℕ) → first_loop f 0 ≡ []
unfolding first_loop
first_loop_done zero = refl
first_loop_done (suc f) = refl

first_loop_round :
    (f s : ℕ)
    → 0 < s
    → first_loop (suc f) s
      ≡ (s, trailing_zeros s) ∷ first_loop f ((s + 2 ^ trailing_zeros s) % 2 ^ 64)
unfolding first_loop
first_loop_round f s h = ground arith

-- The first /64 network is covered from any word but 0 to its end.
pub first_loop-Blocks :
    (f s : ℕ) → 0 < s → s < 2 ^ 64 → 2 ^ 64 + 1 - s ≤ f → Blocks s (2 ^ 64) (first_loop f s)
first_loop-Blocks zero s h k l = absurd (omega arith)
first_loop-Blocks (suc f) s h k l =
    let (m, d, _, small) = trailing_zeros_lem s h k in
    let z = trailing_zeros s in
    let room = Aligned-room z s small k (m, d) in
    let positive = pow-pos z in
    rw (first_loop_round f s h) (
      refl,
      (m, d),
      small,
      elim (dec_lt (s + 2 ^ z) (2 ^ 64)) [
        | yes inside ↦
            let same : (s + 2 ^ z) % 2 ^ 64 ≡ s + 2 ^ z = omega arith in
            rw same (first_loop-Blocks f (s + 2 ^ z) (omega arith) inside (omega arith))
        | no outside ↦
            let wraps : (s + 2 ^ z) % 2 ^ 64 ≡ 0 = omega arith in
            rw (wraps, first_loop_done f) (omega arith)
      ],
    )
