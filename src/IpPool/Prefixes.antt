-- ===== src/IpPool/Prefixes.antt =====
-- `treeNode.getPrefixes` and `trailingZeros` of pkg/tools/ippool/ippool.go: a range of addresses
-- written as a list of networks.
pub mod Words
pub mod Blocks
pub mod Tiles
pub mod Cover
use nsm_sdk.Prelude.{
  ℕ, zero, suc, ◌+◌, ◌-◌, ◌*◌, ◌/◌, ◌%◌, ◌^◌, List, [], ◌∷◌, ◌++◌, map, ltb, leb, ◌==◌, ◌&&◌, not,
  if◌then◌else◌,
}
use nsm_sdk.IpPool.Address.{Address, max_uint64}
use nsm_sdk.IpPool.Range.{Range}

-- A network: its address, and the number of host bits that its mask leaves, so that the mask is
-- `CIDRMask(ipLength*8 - host_bits, ipLength*8)`.
pub record Prefix : Type 0 where
  pub ip : Address
  pub host_bits : ℕ

-- The loop of `trailingZeros`, on fuel; 64 rounds shift out a `uint64`.
unfoldable pub trailing_zeros_loop : ℕ → ℕ → ℕ → ℕ
trailing_zeros_loop zero n power = power - 1
trailing_zeros_loop (suc f) n power =
    let rest = trailing_zeros_loop f (n / 2) (power + 1) in
    if not (n == 0) && n % 2 == 0 then rest else power - 1

unfoldable pub trailing_zeros : ℕ → ℕ
unfolding trailing_zeros_loop
trailing_zeros n = if n == 0 then 64 else trailing_zeros_loop 64 n 1

-- `for z > 0 && room < uint64(1)<<z { z-- }`
unfoldable pub fit : ℕ → ℕ → ℕ
fit zero room = zero
fit (suc z) room = let rest = fit z room in if ltb room (2 ^ suc z) then rest else suc z

-- The loop `for start.low != 0` over the first /64 network: a block is its first word and the
-- number of its host bits.
unfoldable pub first_loop : ℕ → ℕ → List (ℕ × ℕ)
first_loop zero s = []
first_loop (suc f) s =
    let z = trailing_zeros s in
    let rest = first_loop f ((s + 2 ^ z) % 2 ^ 64) in if s == 0 then [] else (s, z) ∷ rest

-- `if z == prefixBitsSize { z-- }`, and the exponent that a round below the last chooses.
unfoldable pub start_bits : ℕ → ℕ
start_bits s = let z = trailing_zeros s in if z == 64 then z - 1 else z

unfoldable pub block_bits : ℕ → ℕ → ℕ
block_bits s e = fit (start_bits s) ((e + 2 ^ 64 - s + 1) % 2 ^ 64)

-- The loops `for start.high <= end.high` and `for start.low <= end.low`, which are the same loop on
-- the one word or the other; a block of 64 bits ends it.
unfoldable pub cover_loop : ℕ → ℕ → ℕ → List (ℕ × ℕ)
cover_loop zero s e = []
cover_loop (suc f) s e =
    let z = block_bits s e in
    let rest = cover_loop f ((s + 2 ^ z) % 2 ^ 64) e in
    if ltb e s
    then []
    else if trailing_zeros s == 64 && e == max_uint64
    then (s, 64) ∷ []
    else (s, z) ∷ rest

-- Blocks of the low word in the /64 network `high`, and blocks of /64 networks.
unfoldable pub low_prefix : ℕ → ℕ × ℕ → Prefix
low_prefix high (s, z) = record { ip = record { high = high; low = s }; host_bits = z }

unfoldable pub high_prefix : ℕ × ℕ → Prefix
high_prefix (s, z) = record { ip = record { high = s; low = 0 }; host_bits = z + 64 }

-- One round for each word is fuel enough.
unfoldable pub rounds : ℕ
rounds = 2 ^ 64 + 1

unfoldable pub low_prefixes : ℕ → ℕ → ℕ → List Prefix
low_prefixes high s e = map (low_prefix high) (cover_loop rounds s e)

-- The first and the last /64 network that the second loop takes whole.
unfoldable pub first_high : Range → ℕ
first_high r = if r.start.low == 0 then r.start.high else (r.start.high + 1) % 2 ^ 64

unfoldable pub last_high : Range → ℕ
last_high r = if r.end.low == max_uint64 then r.end.high else (r.end.high + 2 ^ 64 - 1) % 2 ^ 64

-- A block of all 128 bits ends the function in the source; of a range in order it is the last one.
unfoldable pub get_prefixes : Range → List Prefix
get_prefixes r =
    if r.start.high == r.end.high
    then low_prefixes r.end.high r.start.low r.end.low
    else map (low_prefix r.start.high) (first_loop rounds r.start.low)
      ++ (map high_prefix (cover_loop rounds (first_high r) (last_high r))
          ++ (if r.end.low == max_uint64 then [] else low_prefixes r.end.high 0 r.end.low))
