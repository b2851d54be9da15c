-- ===== src/IpPool/Address.antt =====
-- `ipAddress` of pkg/tools/ippool/types.go: a 128-bit address as two `uint64` words.
use nsm_sdk.Prelude.{
  ℕ, ◌+◌, ◌-◌, ◌*◌, ◌%◌, ◌^◌, ◌<◌, ◌≡◌, ◌↔◌, Bool, true, ◌&&◌, arith, ltb, ◌==◌, if◌then◌else◌,
}

-- math.MaxUint64
abbrev pub max_uint64 : ℕ
max_uint64 = 2 ^ 64 - 1

pub record Address : Type 0 where
  pub high : ℕ
  pub low : ℕ

-- The two words are `uint64` values.
pub record IsWord (a : Address) : Type 0 where
  pub high_lt : a.high < 2 ^ 64
  pub low_lt : a.low < 2 ^ 64

-- The address as one number.
abbrev pub num : Address → ℕ
num a = a.high * 2 ^ 64 + a.low

-- The results 1, 0 and -1 of `Compare`: the argument stands after, at or before the receiver.
pub data Place : Type 0 where
  before at after : Place

unfoldable pub compare : Address → Address → Place
compare b ip =
    if ltb b.high ip.high
    then after
    else if ltb ip.high b.high
    then before
    else if ltb b.low ip.low
    then after
    else if ltb ip.low b.low
    then before
    else at

unfoldable pub equal : Address → Address → Bool
equal b ip = b.high == ip.high && b.low == ip.low

unfoldable pub is_first : Address → Bool
is_first b = b.high == 0 && b.low == 0

unfoldable pub is_last : Address → Bool
is_last b = b.high == max_uint64 && b.low == max_uint64

-- `r.high--` and `r.high++` wrap.
unfoldable pub prev : Address → Address
prev b =
    if ltb 0 b.low
    then record b { low = b.low - 1 }
    else record { high = (b.high + 2 ^ 64 - 1) % 2 ^ 64; low = max_uint64 }

unfoldable pub next : Address → Address
next b =
    if ltb b.low max_uint64
    then record b { low = b.low + 1 }
    else record { high = (b.high + 1) % 2 ^ 64; low = 0 }

pub next-IsWord : {b : Address} → IsWord b → IsWord (next b)
unfolding next
next-IsWord w = ground arith

pub prev-IsWord : {b : Address} → IsWord b → IsWord (prev b)
unfolding prev
prev-IsWord w = ground arith

-- On words, `Next` adds one and `Prev` subtracts one, each modulo 2^128.
pub next-prev-num :
    (b : Address)
    → IsWord b
    → (num (next b) ≡ (num b + 1) % 2 ^ 128) × (num (prev b) ≡ (num b + 2 ^ 128 - 1) % 2 ^ 128)
unfolding next prev
next-prev-num b w = ground arith

pub num-next : (b : Address) → IsWord b → num b + 1 < 2 ^ 128 → num (next b) ≡ num b + 1
unfolding next
num-next b w h = ground arith

pub num-prev : (b : Address) → IsWord b → 0 < num b → num (prev b) + 1 ≡ num b
unfolding prev
num-prev b w h = ground arith

-- The comparison of words is that of the numbers.
abbrev pub Places : ℕ → ℕ → Place → Type 0
Places b ip before = ip < b
Places b ip at = ip ≡ b
Places b ip after = b < ip

pub compare-Places :
    (b ip : Address) → IsWord b → IsWord ip → Places (num b) (num ip) (compare b ip)
unfolding compare
compare-Places b ip v w = ground arith

pub is_last_iff : (b : Address) → IsWord b → (is_last b ≡ true) ↔ (num b + 1 ≡ 2 ^ 128)
unfolding is_last
is_last_iff b w = ground arith

pub num-injective : (a b : Address) → IsWord a → IsWord b → num a ≡ num b → a ≡ b
num-injective a b v w h = ground arith
