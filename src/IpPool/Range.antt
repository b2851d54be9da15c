-- ===== src/IpPool/Range.antt =====
-- `ipRange` of pkg/tools/ippool/types.go: an interval of addresses, both ends included.
pub mod Order
pub mod Algebra
use nsm_sdk.Prelude.{
  ◌≤◌, Option, none, some, ltb, ◌==◌, if◌then◌else◌, Bool, true, false, ◌&&◌, not,
}
use nsm_sdk.IpPool.Address.{
  Address, IsWord, num, Place, before, at, after, is_first, is_last, next, prev,
}
use nsm_sdk.IpPool.Address

pub record Range : Type 0 where
  pub start : Address
  pub end : Address

-- A range as the pool keeps it: two words in order.
pub record IsRange (b : Range) : Type 0 where
  pub start_word : IsWord b.start
  pub end_word : IsWord b.end
  pub ordered : num b.start ≤ num b.end

unfoldable pub compare : Range → Address → Place
compare b ip =
    if ltb b.end.high ip.high
    then after
    else if ltb ip.high b.start.high
    then before
    else if ip.high == b.end.high && ltb b.end.low ip.low
    then after
    else if ip.high == b.start.high && ltb ip.low b.start.low
    then before
    else at

-- The results -2, -1, 0, 1 and 2 of `CompareRange`.
pub data Relation : Type 0 where
  far_before next_before crossing next_after far_after : Relation

abbrev pub is_before : Place → Bool
is_before before = true
is_before at = false
is_before after = false

abbrev pub is_at : Place → Bool
is_at before = false
is_at at = true
is_at after = false

abbrev pub is_after : Place → Bool
is_after before = false
is_after at = false
is_after after = true

unfoldable pub compare_range : Range → Range → Relation
compare_range b r =
    if is_before (compare b r.start) && is_before (compare b r.end)
    then if not (is_last r.end) && is_at (compare b (next r.end)) then next_before else far_before
    else if is_after (compare b r.start) && is_after (compare b r.end)
    then if not (is_first r.end) && is_at (compare b (prev r.start)) then next_after else far_after
    else crossing

-- The two steps of `Unite`.
unfoldable pub widen_start : Range → Range → Range
unfolding compare
widen_start b r = if is_before (compare b r.start) then record b { start = r.start } else b

unfoldable pub widen_end : Range → Range → Range
unfolding compare
widen_end b r = if is_after (compare b r.end) then record b { end = r.end } else b

-- The second end is compared with the range that the first may have widened.
unfoldable pub unite : Range → Range → Range
unite b r = widen_end (widen_start b r) r

unfoldable pub intersect : Range → Range → Option Range
unfolding compare_range compare
intersect b r =
    let s = if is_after (compare b r.start) then record b { start = r.start } else b in
    elim (compare_range b r) [
      | crossing ↦ some (if is_before (compare s r.end) then record s { end = r.end } else s)
      | _ ↦ none
    ]

unfoldable pub left_part : Range → Range → Option Range
left_part b r =
    if is_after (Address.compare b.start r.start)
    then some (record { start = b.start; end = prev r.start })
    else none

unfoldable pub right_part : Range → Range → Option Range
right_part b r =
    if is_before (Address.compare b.end r.end)
    then some (record { start = next r.end; end = b.end })
    else none

unfoldable pub sub : Range → Range → Option Range × Option Range
unfolding compare_range compare
sub b r = elim (compare_range b r) [
  | crossing ↦ (left_part b r, right_part b r)
  | _ ↦ (some b, none)
]
