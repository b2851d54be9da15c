-- ===== src/IpPool/Range/Order.antt =====
-- The comparisons of `ipRange` against the order of the numbers.
use nsm_sdk.Prelude.{ℕ, ◌+◌, ◌≤◌, ◌<◌, ◌≡◌, arith}
use nsm_sdk.IpPool.Address.{
  Address, IsWord, num, Place, before, at, after, is_first, is_last, next, prev, num-next, num-prev,
  next-IsWord, prev-IsWord,
}
use nsm_sdk.IpPool.Range.{
  Range, IsRange, compare, compare_range, Relation, far_before, next_before, crossing, next_after,
  far_after,
}

-- An address stands before, in or after a range.
abbrev pub Stands : Range → ℕ → Place → Type 0
Stands b n before = n < num b.start
Stands b n at = (num b.start ≤ n) × (n ≤ num b.end)
Stands b n after = num b.end < n

pub compare-Stands :
    (b : Range) (ip : Address) → IsRange b → IsWord ip → Stands b (num ip) (compare b ip)
unfolding compare
compare-Stands b ip v w = ground (arith, v.start_word, v.end_word)

-- How the second range lies to the first.
abbrev pub Lies : Range → Range → Relation → Type 0
Lies b r far_before = num r.end + 1 < num b.start
Lies b r next_before = num r.end + 1 ≡ num b.start
Lies b r crossing = (num b.start ≤ num r.end) × (num r.start ≤ num b.end)
Lies b r next_after = num b.end + 1 ≡ num r.start
Lies b r far_after = num b.end + 1 < num r.start

-- On ranges in order, `CompareRange` tells exactly the five cases that its comment lists.
pub compare_range-Lies : (b r : Range) → IsRange b → IsRange r → Lies b r (compare_range b r)
unfolding compare_range is_last is_first
compare_range-Lies b r v w = ground (
  arith,
  compare-Stands b r.start v w.start_word,
  compare-Stands b r.end v w.end_word,
  compare-Stands b (next r.end) v (next-IsWord w.end_word),
  compare-Stands b (prev r.start) v (prev-IsWord w.start_word),
  num-next r.end w.end_word,
  num-prev r.start w.start_word,
  v.start_word,
  v.end_word,
  w.start_word,
  w.end_word,
)
