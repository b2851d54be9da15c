-- ===== src/IpPool/Prefixes/Words.antt =====
-- The loops of `getPrefixes` over one word: the blocks are aligned and tile the interval.
use native.Mathlib.Nat.{pow-suc}
use nsm_sdk.Prelude.{
  ℕ, zero, suc, ◌+◌, ◌-◌, ◌*◌, ◌/◌, ◌%◌, ◌^◌, ◌≤◌, ◌<◌, ◌≡◌, refl, ap, arith, ltb, ◌==◌, inl, inr,
  Bool-cases,
}
use nsm_sdk.IpPool.Address.{max_uint64}
use nsm_sdk.IpPool.Prefixes.{trailing_zeros_loop, trailing_zeros, fit, start_bits, block_bits}

abbrev pub Aligned : ℕ → ℕ → Type 0
Aligned z s = (m : ℕ) × (s ≡ m * 2 ^ z)

pub pow-pos : (z : ℕ) → 0 < 2 ^ z
pow-pos zero = omega arith
pow-pos (suc z) = omega (arith, pow-suc 2 z, pow-pos z)

Aligned-suc : (z s : ℕ) → Aligned (suc z) s → Aligned z s
Aligned-suc z s (m, e) = (m * 2, grind (arith, pow-suc 2 z))

trailing_zeros_loop_lem :
    (f n power : ℕ)
    → 0 < n
    → n < 2 ^ f
    → 0 < power
    → (k m : ℕ) × (trailing_zeros_loop f n power ≡ power - 1 + k)
      × (n ≡ m * 2 ^ k)
      × (m % 2 ≡ 1)
      × (k < f)
unfolding trailing_zeros_loop
trailing_zeros_loop_lem zero n power pos lt p = absurd (omega arith)
trailing_zeros_loop_lem (suc f) n power pos lt p = elim (Bool-cases (n % 2 == 0)) [
  | inl even ↦
      let half : n ≡ n / 2 * 2 = ground arith in
      let (k, m, e, d, odd, l) =
        trailing_zeros_loop_lem f (n / 2) (power + 1) (ground arith) (omega (arith, pow-suc 2 f))
          (omega arith) in
      (
        suc k,
        m,
        ground arith,
        omega (arith, pow-suc 2 k, ap (λ (t : ℕ). m * t) (pow-suc 2 k)),
        odd,
        omega arith,
      )
  | inr uneven ↦ (0, n, ground arith, omega arith, ground arith, omega arith)
]

pub trailing_zeros-zero : trailing_zeros 0 ≡ 64
unfolding trailing_zeros
trailing_zeros-zero = refl

-- Of a nonzero word `trailingZeros` counts the factors of two, and there are fewer than 64.
pub trailing_zeros_lem :
    (n : ℕ)
    → 0 < n
    → n < 2 ^ 64
    → (m : ℕ) × (n ≡ m * 2 ^ trailing_zeros n) × (m % 2 ≡ 1) × (trailing_zeros n < 64)
unfolding trailing_zeros
trailing_zeros_lem n pos lt =
    let (k, m, e, d, odd, l) = trailing_zeros_loop_lem 64 n 1 pos lt (omega arith) in
    let same : trailing_zeros n ≡ k = ground arith in (m, rw same d, odd, rw same l)

pub fit_lem :
    (z room s : ℕ)
    → 0 < room
    → Aligned z s
    → Aligned (fit z room) s × (2 ^ fit z room ≤ room) × (fit z room ≤ z)
unfolding fit
fit_lem zero room s h a = (a, omega arith, omega arith)
fit_lem (suc z) room s h a = elim (Bool-cases (ltb room (2 ^ suc z))) [
  | inl small ↦
      let (b, l, k) = fit_lem z room s h (Aligned-suc z s a) in rw small (b, l, omega arith)
  | inr large ↦ rw large (a, ground arith, omega arith)
]

start_bits_lem : (s : ℕ) → s < 2 ^ 64 → Aligned (start_bits s) s × (start_bits s < 64)
unfolding start_bits
start_bits_lem s lt = elim (Bool-cases (s == 0)) [
  | inl none ↦
      let e : s ≡ 0 = ground arith in rw (e, trailing_zeros-zero) ((0, omega arith), omega arith)
  | inr some ↦
      let (m, d, _, l) = trailing_zeros_lem s (ground arith) lt in
      let same : start_bits s ≡ trailing_zeros s = ground arith in rw same ((m, d), l)
]

-- A round below the last chooses an aligned block that does not pass the end.
pub block_bits_lem :
    (s e : ℕ)
    → s ≤ e
    → e < 2 ^ 64
    → (s ≡ 0 → e < max_uint64)
    → Aligned (block_bits s e) s × (s + 2 ^ block_bits s e ≤ e + 1) × (block_bits s e < 64)
unfolding block_bits
block_bits_lem s e h lt low =
    let room : (e + 2 ^ 64 - s + 1) % 2 ^ 64 ≡ e - s + 1 = grind arith in
    let (a, l) = start_bits_lem s (omega arith) in
    let (b, k, m) = fit_lem (start_bits s) (e - s + 1) s (omega arith) a in
    rw room (b, omega arith, omega arith)
