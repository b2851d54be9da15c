-- ===== src/IpPool/Range/Algebra.antt =====
-- `Unite`, `Intersect` and `Sub` against the sets of addresses that the ranges stand for.
use Prim.Native.Nat.{min, max}
use nsm_sdk.Prelude.{
  ℕ, ◌+◌, ◌≤◌, ◌<◌, ◌≡◌, refl, subst, ◌∙◌, ◌↔◌, ◌⊎◌, inl, inr, arith, Option, none, some,
}
use nsm_sdk.IpPool.Address.{num, num-next, num-prev, compare-Places, next-IsWord, prev-IsWord}
use nsm_sdk.IpPool.Range.{
  Range, IsRange, compare_range, Relation, far_before, next_before, crossing, next_after, far_after,
  widen_start, widen_end, unite, intersect, left_part, right_part, sub,
}
use nsm_sdk.IpPool.Range.Order.{compare-Stands, Lies, compare_range-Lies}

-- The number lies in the range.
abbrev pub Holds : Range → ℕ → Type 0
Holds b n = (num b.start ≤ n) × (n ≤ num b.end)

abbrev pub Holds? : Option Range → ℕ → Type 0
Holds? none n = ⊥
Holds? (some b) n = Holds b n

widen_start_lem :
    (b r : Range)
    → IsRange b
    → IsRange r
    → IsRange (widen_start b r)
      × (num (widen_start b r).start ≡ min (num b.start) (num r.start))
      × (num (widen_start b r).end ≡ num b.end)
unfolding widen_start
widen_start_lem b r v w =
    ground (arith, compare-Stands b r.start v w.start_word, v.start_word, v.end_word, w.start_word)

widen_end_lem :
    (b r : Range)
    → IsRange b
    → IsRange r
    → IsRange (widen_end b r)
      × (num (widen_end b r).end ≡ max (num b.end) (num r.end))
      × (num (widen_end b r).start ≡ num b.start)
unfolding widen_end
widen_end_lem b r v w =
    ground (arith, compare-Stands b r.end v w.end_word, v.start_word, v.end_word, w.end_word)

-- `Unite` gives a range in order, from the lesser start to the greater end.
pub unite-IsRange :
    (b r : Range)
    → IsRange b
    → IsRange r
    → IsRange (unite b r)
      × (num (unite b r).start ≡ min (num b.start) (num r.start))
      × (num (unite b r).end ≡ max (num b.end) (num r.end))
unfolding unite
unite-IsRange b r v w =
    let (range, starts, ends) = widen_start_lem b r v w in
    let (whole, end, start) = widen_end_lem (widen_start b r) r range w in
    (whole, start ∙ starts, omega arith)

-- The united range of two that meet or adjoin holds exactly the addresses of both.
pub unite-Holds :
    (b r : Range) (n : ℕ)
    → IsRange b
    → IsRange r
    → num r.start ≤ num b.end + 1
    → num b.start ≤ num r.end + 1
    → Holds (unite b r) n ↔ (Holds b n ⊎ Holds r n)
unite-Holds b r n v w h k =
    let (_, start, end) = unite-IsRange b r v w in
    let first = v.ordered in let second = w.ordered in ground (arith)

-- `Intersect` of crossing ranges gives back the first range whole.
pub intersect_whole :
    (b r : Range) → IsRange b → IsRange r → compare_range b r ≡ crossing → intersect b r ≡ some b
unfolding intersect
intersect_whole b r v w h = ground (
  arith,
  compare-Stands b r.start v w.start_word,
  compare-Stands b r.end v w.end_word,
  compare_range-Lies b r v w,
)

left_part_lem :
    (b r : Range) (n : ℕ)
    → IsRange b
    → IsRange r
    → Holds? (left_part b r) n ↔ ((num b.start ≤ n) × (n < num r.start))
unfolding left_part
left_part_lem b r n v w =
    ground (
      arith,
      compare-Places b.start r.start v.start_word w.start_word,
      num-prev r.start w.start_word,
    )

right_part_lem :
    (b r : Range) (n : ℕ)
    → IsRange b
    → IsRange r
    → Holds? (right_part b r) n ↔ ((num r.end < n) × (n ≤ num b.end))
unfolding right_part
right_part_lem b r n v w =
    ground (
      arith,
      compare-Places b.end r.end v.end_word w.end_word,
      num-next r.end w.end_word,
      v.end_word,
    )

abbrev Leaves : Range → Range → ℕ → Option Range × Option Range → Type 0
Leaves b r n (l, m) = (Holds? l n ⊎ Holds? m n) ↔ (Holds b n × (¬ Holds r n))

parts-Leaves :
    (b r : Range) (n : ℕ)
    → IsRange b
    → IsRange r
    → (num b.start ≤ num r.end) × (num r.start ≤ num b.end)
    → Leaves b r n (left_part b r, right_part b r)
parts-Leaves b r n v w h =
    let (l, l') = left_part_lem b r n v w in
    let (m, m') = right_part_lem b r n v w in
    let starts = w.ordered in
    (
      (λ e. elim e [ inl p ↦ ground arith | inr p ↦ ground arith ]),
      λ (inside, outside). ground arith,
    )

whole-Leaves :
    (b r : Range) (n : ℕ)
    → ((num r.end < num b.start) ⊎ (num b.end < num r.start))
    → Leaves b r n (some b, none)
whole-Leaves b r n h = ground arith

sub-Leaves :
    (b r : Range) (n : ℕ) (k : Relation)
    → IsRange b
    → IsRange r
    → compare_range b r ≡ k
    → Lies b r k
    → Leaves b r n (sub b r)
unfolding sub
sub-Leaves b r n crossing v w e h = rw (e, sub) (parts-Leaves b r n v w h)
sub-Leaves b r n far_before v w e h = rw (e, sub) (whole-Leaves b r n (omega arith))
sub-Leaves b r n next_before v w e h = rw (e, sub) (whole-Leaves b r n (omega arith))
sub-Leaves b r n next_after v w e h = rw (e, sub) (whole-Leaves b r n (omega arith))
sub-Leaves b r n far_after v w e h = rw (e, sub) (whole-Leaves b r n (omega arith))

-- What `Sub` leaves holds exactly the addresses of the first range that the second does not hold.
pub sub-Holds :
    (b r : Range) (n : ℕ)
    → IsRange b
    → IsRange r
    → (Holds? (sub b r).0 n ⊎ Holds? (sub b r).1 n) ↔ (Holds b n × (¬ Holds r n))
sub-Holds b r n v w = sub-Leaves b r n (compare_range b r) v w refl (compare_range-Lies b r v w)

part-IsRange :
    (b r x : Range)
    → IsRange b
    → IsRange r
    → (left_part b r ≡ some x) ⊎ (right_part b r ≡ some x)
    → IsRange x
unfolding left_part right_part
part-IsRange b r x v w (inl e) = ground (
  arith,
  compare-Places b.start r.start v.start_word w.start_word,
  num-prev r.start w.start_word,
  prev-IsWord w.start_word,
)
part-IsRange b r x v w (inr e) = ground (
  arith,
  compare-Places b.end r.end v.end_word w.end_word,
  num-next r.end w.end_word,
  next-IsWord w.end_word,
  v.end_word,
)

sub_crossing :
    (b r : Range) → compare_range b r ≡ crossing → sub b r ≡ (left_part b r, right_part b r)
unfolding sub
sub_crossing b r e = rw (e, sub)

-- The parts that `Sub` leaves of ranges that share an address are ranges in order.
pub sub-IsRange :
    (b r x : Range)
    → IsRange b
    → IsRange r
    → compare_range b r ≡ crossing
    → ((sub b r).0 ≡ some x) ⊎ ((sub b r).1 ≡ some x)
    → IsRange x
sub-IsRange b r x v w e h =
    part-IsRange b r x v w (subst (λ t. (t.0 ≡ some x) ⊎ (t.1 ≡ some x)) (sub_crossing b r e) h)
