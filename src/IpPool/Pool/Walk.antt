-- ===== src/IpPool/Pool/Walk.antt =====
-- The walks down the tree: the place where each of them ends.
use mathlib.Core.List.{append_assoc}
use nsm_sdk.Prelude.{ℕ, ◌+◌, ◌≤◌, ◌≡◌, ◌∙◌, refl, sym, subst, ap, arith, List, [], ◌∷◌, ◌++◌}
use nsm_sdk.IpPool.Address.{num}
use nsm_sdk.IpPool.Range.{
  Range, IsRange, compare_range, Relation, far_before, next_before, crossing, next_after, far_after,
}
use nsm_sdk.IpPool.Range.Order.{Lies, compare_range-Lies}
use nsm_sdk.IpPool.Tree.{
  Color, black, Tree, leaf, node, left_of, right_of, Spine, node_color, to_list,
}
use nsm_sdk.IpPool.Tree.Shape.{IsBalanced, Fits, left-Fits, right-Fits, before, behind}
use nsm_sdk.IpPool.Chain.{Chain, Chain-split, Chain-join, limit}
use nsm_sdk.IpPool.Pool.{Found, vacant, reached, add_place, meet_place}

-- A place on the walk through the tree of the ranges `rs`: what stands before it ends two below `a`,
-- and what stands behind it begins at `b`.
pub record Here (a b : ℕ) (rs : List Range) (t : Tree) (up : Spine) : Type 0 where
  pub height : ℕ
  pub balanced : IsBalanced height t
  pub fits : Fits height (node_color t) up
  pub content : before up ++ (to_list t ++ behind up) ≡ rs
  pub ordered : Chain 0 rs limit
  pub below : Chain 0 (before up) a
  pub above : Chain b (behind up) limit

module _ (a b : ℕ) (rs : List Range) (v : Range) (c : Color) (l r : Tree) (up : Spine) where
  middle :
      before up ++ (to_list (node v c l r) ++ behind up)
      ≡ (before up ++ to_list l) ++ v ∷ (to_list r ++ behind up)
  unfolding to_list
  middle = simp append_assoc

  regroup :
      (before up ++ (to_list l ++ v ∷ [])) ++ (to_list r ++ behind up)
      ≡ before up ++ (to_list (node v c l r) ++ behind up)
  unfolding to_list
  regroup = simp append_assoc

  pub split-Here :
      Here a b rs (node v c l r) up
      → Chain 0 (before up ++ to_list l) (num v.start)
        × (0 ≤ num v.start)
        × IsRange v
        × (num v.end + 2 ≤ limit)
        × Chain (num v.end + 2) (to_list r ++ behind up) limit
  split-Here h =
      Chain-split 0 limit (before up ++ to_list l) v (to_list r ++ behind up)
        (subst (λ xs. Chain 0 xs limit) (sym h.content ∙ middle) h.ordered)

  pub left-Here :
      b ≤ num v.start → Here a b rs (node v c l r) up → Here a b rs l (left_of v c r ∷ up)
  unfolding before behind node_color to_list
  left-Here k h =
      let (m, bal, fit) = left-Fits h.height v c l r up h.balanced h.fits in
      let (_, _, w, e, ch) = split-Here h in
      record {
        height = m;
        balanced = bal;
        fits = fit;
        content =
            ap (◌++◌ (before up)) (sym (append_assoc (to_list l) (v ∷ to_list r) (behind up)))
            ∙ h.content;
        ordered = h.ordered;
        below = h.below;
        above = (k, w, e, ch);
      }

  pub right-Here :
      num v.end + 2 ≤ a → Here a b rs (node v c l r) up → Here a b rs r (right_of v c l ∷ up)
  unfolding before behind node_color to_list
  right-Here k h =
      let (m, bal, fit) = right-Fits h.height v c l r up h.balanced h.fits in
      let (ch, z, w, e, _) = split-Here h in
      record {
        height = m;
        balanced = bal;
        fits = fit;
        content = regroup ∙ h.content;
        ordered = h.ordered;
        below =
            subst (λ xs. Chain 0 xs a) (append_assoc (before up) (to_list l) (v ∷ []))
              (Chain-join 0 a (before up ++ to_list l) v [] ch z w k tt);
        above = h.above;
      }

-- Where a walk ends: at a nil child, with all ranges before and behind it, or at a node that `P`.
abbrev pub Lands : ℕ → ℕ → (Range → Type 0) → List Range → Found → Type 0
Lands a b P rs (vacant up) =
    Fits 0 black up
    × (before up ++ behind up ≡ rs)
    × Chain 0 (before up) a
    × Chain b (behind up) limit
Lands a b P rs (reached v c l r up) =
    (m : ℕ) × IsBalanced m (node v c l r)
    × Fits m c up
    × (before up ++ (to_list (node v c l r) ++ behind up) ≡ rs)
    × P v

leaf-Lands :
    (a b : ℕ) (P : Range → Type 0) (rs : List Range) (up : Spine)
    → Here a b rs leaf up
    → Lands a b P rs (vacant up)
unfolding node_color to_list
leaf-Lands a b P rs up h =
    let zero : h.height ≡ 0 = h.balanced in
    (subst (λ n. Fits n black up) zero h.fits, h.content, h.below, h.above)

-- The ranges meet or adjoin.
pub record Touches (v r : Range) : Type 0 where
  pub range : IsRange v
  pub start_le : num r.start ≤ num v.end + 1
  pub end_ge : num v.start ≤ num r.end + 1

-- The ranges share an address.
pub record Meets (v r : Range) : Type 0 where
  pub range : IsRange v
  pub cross : compare_range v r ≡ crossing

module _ (r : Range) (w : IsRange r) (rs : List Range) where
  add_step :
      (v : Range) (c : Color) (l s : Tree) (up : Spine) (k : Relation)
      → compare_range v r ≡ k
      → Lies v r k
      → Here (num r.start) (num r.end + 2) rs (node v c l s) up
      → (Here (num r.start) (num r.end + 2) rs l (left_of v c s ∷ up)
          → Lands
              (num r.start)
              (num r.end + 2)
              (λ x. Touches x r)
              rs
              (add_place r l (left_of v c s ∷ up)))
      → (Here (num r.start) (num r.end + 2) rs s (right_of v c l ∷ up)
          → Lands
              (num r.start)
              (num r.end + 2)
              (λ x. Touches x r)
              rs
              (add_place r s (right_of v c l ∷ up)))
      → Lands (num r.start) (num r.end + 2) (λ x. Touches x r) rs (add_place r (node v c l s) up)
  unfolding add_place node_color
  add_step v c l s up far_before e y h left right =
      rw (e, add_place) (left (left-Here _ _ rs v c l s up (omega arith) h))
  add_step v c l s up far_after e y h left right =
      rw (e, add_place) (right (right-Here _ _ rs v c l s up (omega arith) h))
  add_step v c l s up next_before e y h left right =
      let (_, _, x, _, _) = split-Here _ _ rs v c l s up h in
      rw (e, add_place)
        (
          h.height,
          h.balanced,
          h.fits,
          h.content,
          record {
            range = x;
            start_le = omega (arith, x.ordered, w.ordered);
            end_ge = omega arith;
          },
        )
  add_step v c l s up crossing e y h left right =
      let (_, _, x, _, _) = split-Here _ _ rs v c l s up h in
      rw (e, add_place)
        (
          h.height,
          h.balanced,
          h.fits,
          h.content,
          record { range = x; start_le = omega arith; end_ge = omega arith },
        )
  add_step v c l s up next_after e y h left right =
      let (_, _, x, _, _) = split-Here _ _ rs v c l s up h in
      rw (e, add_place)
        (
          h.height,
          h.balanced,
          h.fits,
          h.content,
          record {
            range = x;
            start_le = omega arith;
            end_ge = omega (arith, x.ordered, w.ordered);
          },
        )

  pub add_place_lem :
      (t : Tree) (up : Spine)
      → Here (num r.start) (num r.end + 2) rs t up
      → Lands (num r.start) (num r.end + 2) (λ x. Touches x r) rs (add_place r t up)
  unfolding add_place
  add_place_lem leaf up h = leaf-Lands _ _ (λ x. Touches x r) rs up h
  add_place_lem (node v c l s) up h =
      let (_, _, x, _, _) = split-Here _ _ rs v c l s up h in
      add_step v c l s up (compare_range v r) refl (compare_range-Lies v r x w) h
        (add_place_lem l (left_of v c s ∷ up)) (add_place_lem s (right_of v c l ∷ up))

  meet_step :
      (v : Range) (c : Color) (l s : Tree) (up : Spine) (k : Relation)
      → compare_range v r ≡ k
      → Lies v r k
      → Here (num r.start + 1) (num r.end + 1) rs (node v c l s) up
      → (Here (num r.start + 1) (num r.end + 1) rs l (left_of v c s ∷ up)
          → Lands
              (num r.start + 1)
              (num r.end + 1)
              (λ x. Meets x r)
              rs
              (meet_place r l (left_of v c s ∷ up)))
      → (Here (num r.start + 1) (num r.end + 1) rs s (right_of v c l ∷ up)
          → Lands
              (num r.start + 1)
              (num r.end + 1)
              (λ x. Meets x r)
              rs
              (meet_place r s (right_of v c l ∷ up)))
      → Lands (num r.start + 1) (num r.end + 1) (λ x. Meets x r) rs (meet_place r (node v c l s) up)
  unfolding meet_place node_color
  meet_step v c l s up far_before e y h left right =
      rw (e, meet_place) (left (left-Here _ _ rs v c l s up (omega arith) h))
  meet_step v c l s up next_before e y h left right =
      rw (e, meet_place) (left (left-Here _ _ rs v c l s up (omega arith) h))
  meet_step v c l s up far_after e y h left right =
      rw (e, meet_place) (right (right-Here _ _ rs v c l s up (omega arith) h))
  meet_step v c l s up next_after e y h left right =
      rw (e, meet_place) (right (right-Here _ _ rs v c l s up (omega arith) h))
  meet_step v c l s up crossing e y h left right =
      let (_, _, x, _, _) = split-Here _ _ rs v c l s up h in
      rw (e, meet_place) (h.height, h.balanced, h.fits, h.content, record { range = x; cross = e })

  pub meet_place_lem :
      (t : Tree) (up : Spine)
      → Here (num r.start + 1) (num r.end + 1) rs t up
      → Lands (num r.start + 1) (num r.end + 1) (λ x. Meets x r) rs (meet_place r t up)
  unfolding meet_place
  meet_place_lem leaf up h = leaf-Lands _ _ (λ x. Meets x r) rs up h
  meet_place_lem (node v c l s) up h =
      let (_, _, x, _, _) = split-Here _ _ rs v c l s up h in
      meet_step v c l s up (compare_range v r) refl (compare_range-Lies v r x w) h
        (meet_place_lem l (left_of v c s ∷ up)) (meet_place_lem s (right_of v c l ∷ up))
