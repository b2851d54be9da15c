-- ===== src/IpPool/Prefixes/Tiles.antt =====
-- The networks of `getPrefixes` tile the range.
use mathlib.Core.List.{map-append}
use nsm_sdk.Prelude.{ℕ, ◌+◌, ◌-◌, ◌*◌, ◌^◌, ◌≤◌, ◌<◌, ◌≡◌, ap, ◌∙◌, arith, List, [], ◌∷◌, ◌++◌, map}
use nsm_sdk.IpPool.Address.{num, max_uint64}
use nsm_sdk.IpPool.Prefixes.{Prefix, low_prefix, high_prefix, rounds, low_prefixes}
use nsm_sdk.IpPool.Prefixes.Words.{Aligned}
use nsm_sdk.IpPool.Prefixes.Blocks.{
  Blocks, pow-add, cover_loop-Blocks, cover_loop-zero, cover_loop_wraps,
}

-- Networks that follow one another from the number `a` up to `b`, each aligned to its size.
abbrev pub Tiles : ℕ → ℕ → List Prefix → Type 0
Tiles a b [] = a ≡ b
Tiles a b (p ∷ ps) = (num p.ip ≡ a) × Aligned p.host_bits a × Tiles (a + 2 ^ p.host_bits) b ps

pub Tiles-append :
    (a b c : ℕ) (ps qs : List Prefix) → Tiles a b ps → Tiles b c qs → Tiles a c (ps ++ qs)
Tiles-append a b c [] qs e t = rw e t
Tiles-append a b c (p ∷ ps) qs (n, l, s) t =
    (n, l, Tiles-append (a + 2 ^ p.host_bits) b c ps qs s t)

-- A block of the low word is aligned in the whole address too.
Aligned-low : (high s z : ℕ) → z < 64 → Aligned z s → Aligned z (high * 2 ^ 64 + s)
Aligned-low high s z l (m, e) =
    let w = 64 - z in
    let sum : w + z ≡ 64 = omega arith in
    let whole : 2 ^ w * 2 ^ z ≡ 2 ^ 64 = rw (← pow-add w z, sum) in (high * 2 ^ w + m, grind arith)

pub low_prefix-Tiles :
    (high a b : ℕ) (ps : List (ℕ × ℕ))
    → Blocks a b ps
    → Tiles (high * 2 ^ 64 + a) (high * 2 ^ 64 + b) (map (low_prefix high) ps)
unfolding low_prefix
low_prefix-Tiles high a b [] e = omega arith
low_prefix-Tiles high a b ((s, z) ∷ ps) (e, l, k, t) = (
  rw e,
  Aligned-low high a z k l,
  let e' : high * 2 ^ 64 + a + 2 ^ z ≡ high * 2 ^ 64 + (a + 2 ^ z) = omega arith in
      rw e' (low_prefix-Tiles high (a + 2 ^ z) b ps t),
)

pub high_prefix-Tiles :
    (a b : ℕ) (ps : List (ℕ × ℕ))
    → Blocks a b ps
    → Tiles (a * 2 ^ 64) (b * 2 ^ 64) (map high_prefix ps)
unfolding high_prefix
high_prefix-Tiles a b [] e = omega arith
high_prefix-Tiles a b ((s, z) ∷ ps) (e, (m, d), k, t) =
    let size : 2 ^ (z + 64) ≡ 2 ^ z * 2 ^ 64 = pow-add z 64 in
    let next : a * 2 ^ 64 + 2 ^ z * 2 ^ 64 ≡ (a + 2 ^ z) * 2 ^ 64 = omega arith in
    rw size (
      omega arith,
      (m, omega (arith, ap (λ (t : ℕ). t * 2 ^ 64) d)),
      rw next (high_prefix-Tiles (a + 2 ^ z) b ps t),
    )

-- The networks of one /64 network, up to an address before its last.
pub low_prefixes-Tiles :
    (high s e : ℕ)
    → e < max_uint64
    → s ≤ e + 1
    → Tiles (high * 2 ^ 64 + s) (high * 2 ^ 64 + e + 1) (low_prefixes high s e)
unfolding low_prefixes rounds
low_prefixes-Tiles high s e h k =
    let sum : high * 2 ^ 64 + e + 1 ≡ high * 2 ^ 64 + (e + 1) = omega arith in
    rw sum (low_prefix-Tiles high s (e + 1) _ (cover_loop-Blocks _ s e h k (omega arith)))

-- A list of networks that tile, behind which one more network stands.
abbrev pub TilesWith : Prefix → ℕ → ℕ → List Prefix → Type 0
TilesWith extra a b ps = (qs : List Prefix) × (ps ≡ qs ++ extra ∷ []) × Tiles a b qs

pub low_prefixes_wrap :
    (high s : ℕ)
    → 0 < s
    → s < 2 ^ 64
    → TilesWith
        (low_prefix high (0, 64))
        (high * 2 ^ 64 + s)
        (high * 2 ^ 64 + 2 ^ 64)
        (low_prefixes high s max_uint64)
unfolding low_prefixes rounds
low_prefixes_wrap high s h k =
    let (ps, e, b) = cover_loop_wraps (2 ^ 64 + 1) s h k (omega arith) in
    (
      map (low_prefix high) ps,
      ap (map (low_prefix high)) e ∙ map-append (low_prefix high) ps _,
      low_prefix-Tiles high s (2 ^ 64) ps b,
    )

pub low_prefixes_whole : (high : ℕ) → low_prefixes high 0 max_uint64 ≡ low_prefix high (0, 64) ∷ []
unfolding low_prefixes rounds
low_prefixes_whole high = ap (map (low_prefix high)) (cover_loop-zero (2 ^ 64 + 1) (omega arith))
