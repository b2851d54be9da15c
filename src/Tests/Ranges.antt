-- ===== src/Tests/Ranges.antt =====
-- The theorems on addresses, ranges and networks at sample ranges.
use nsm_sdk.Prelude.{◌+◌, ◌≡◌, ◌↔◌, ◌⊎◌, inl, inr, refl, arith, some}
use nsm_sdk.IpPool.Address.{Address, IsWord, num, next, prev, next-prev-num}
use nsm_sdk.IpPool.Range.{Range, IsRange, compare_range, crossing, unite, intersect, sub}
use nsm_sdk.IpPool.Range.Algebra.{Holds, Holds?, intersect_whole, sub-Holds}
use nsm_sdk.IpPool.Prefixes.{low_prefix, get_prefixes}
use nsm_sdk.IpPool.Prefixes.Tiles.{Tiles, TilesWith}
use nsm_sdk.IpPool.Prefixes.Cover.{Wraps, get_prefixes-Tiles, get_prefixes-Wraps}
use nsm_sdk.Tests.{ip4, between, between-IsRange}

first : IsRange (between 4 9)
first = between-IsRange 4 9 (omega arith) (omega arith)

second : IsRange (between 7 12)
second = between-IsRange 7 12 (omega arith) (omega arith)

sub-Holds_example :
    (Holds? (sub (between 4 9) (between 7 12)).0 281470681743366
      ⊎ Holds? (sub (between 4 9) (between 7 12)).1 281470681743366)
    ↔ (Holds (between 4 9) 281470681743366 × (¬ Holds (between 7 12) 281470681743366))
sub-Holds_example = sub-Holds (between 4 9) (between 7 12) 281470681743366 first second

meeting : compare_range (between 4 9) (between 7 12) ≡ crossing
unfolding compare_range nsm_sdk.IpPool.Range.compare
meeting = refl

left_over : (sub (between 4 9) (between 7 12)).0 ≡ some (between 4 6)
unfolding sub compare_range nsm_sdk.IpPool.Range.left_part nsm_sdk.IpPool.Address.compare prev
left_over = refl

intersect_whole_example : intersect (between 4 9) (between 7 12) ≡ some (between 4 9)
intersect_whole_example = intersect_whole (between 4 9) (between 7 12) first second meeting

unwrapped : ¬ Wraps (between 4 9)
unwrapped = elim [ inl (a, b, c) ↦ omega arith | inr (a, b, c) ↦ omega arith ]

get_prefixes-Tiles_example : Tiles (num (ip4 4)) (num (ip4 9) + 1) (get_prefixes (between 4 9))
get_prefixes-Tiles_example = get_prefixes-Tiles (between 4 9) first unwrapped

-- The last address 2^64 - 1 and the first address 1, in one /64 network.
abbrev wrapped : Range
wrapped = record {
  start = record { high = 0; low = 1 };
  end = record { high = 0; low = 18446744073709551615 };
}

wrapped-IsRange : IsRange wrapped
wrapped-IsRange = record {
  start_word = record { high_lt = omega arith; low_lt = omega arith };
  end_word = record { high_lt = omega arith; low_lt = omega arith };
  ordered = omega arith;
}

get_prefixes-Wraps_example :
    TilesWith (low_prefix 0 (0, 64)) 1 18446744073709551616 (get_prefixes wrapped)
get_prefixes-Wraps_example =
    get_prefixes-Wraps wrapped wrapped-IsRange (inl (refl, refl, omega arith))
