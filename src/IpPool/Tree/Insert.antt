-- ===== src/IpPool/Tree/Insert.antt =====
-- `insertCase1` to `insertCase5` of pkg/tools/ippool/ippool.go, at a place in the tree. `none` is a
-- nil dereference. The result is the whole tree.
pub mod Balance
use nsm_sdk.Prelude.{List, [], ◌∷◌, Option, none, some}
use nsm_sdk.IpPool.Tree.{
  Color, black, red, Tree, leaf, node, Frame, left_of, right_of, Spine, node_color, paint,
  parent_color, paint_parent, sibling, set_sibling, join, plug, rotate_left, rotate_right,
}

-- Parent black, grandparent red, and a rotation of the grandparent where the node is an outer
-- grandchild. The result stands where the grandparent stood.
unfoldable pub insert_case5 : Tree → Frame → Frame → Option Tree
unfolding join paint_parent rotate_left rotate_right
insert_case5 t (left_of p c s) (left_of g d u) =
    rotate_right (join (left_of g red u) (join (left_of p black s) t))
insert_case5 t (right_of p c s) (right_of g d u) =
    rotate_left (join (right_of g red u) (join (right_of p black s) t))
insert_case5 t f g = some (join (paint_parent red g) (join (paint_parent black f) t))

-- Of an inner grandchild the parent is rotated first, and the old parent is the node.
unfoldable pub insert_case4 : Tree → Frame → Frame → Option Tree
unfolding insert_case5
insert_case4 leaf f g = none
insert_case4 (node v c l r) (right_of p d s) (left_of g e u) =
    insert_case5 (node p d s l) (left_of v c r) (left_of g e u)
insert_case4 (node v c l r) (left_of p d s) (right_of g e u) =
    insert_case5 (node p d r s) (right_of v c l) (right_of g e u)
insert_case4 (node v c l r) (left_of p d s) (left_of g e u) =
    insert_case5 (node v c l r) (left_of p d s) (left_of g e u)
insert_case4 (node v c l r) (right_of p d s) (right_of g e u) =
    insert_case5 (node v c l r) (right_of p d s) (right_of g e u)

-- The grandparent of case 3, repainted.
unfoldable pub repaint : Tree → Frame → Frame → Tree
unfolding join paint_parent set_sibling sibling paint
repaint t f g =
    join (paint_parent red (set_sibling (paint black (sibling g)) g))
      (join (paint_parent black f) t)

-- Under a red root there is no grandparent, and case 4 or 5 fails.
unfoldable pub insert_case1 : Tree → Spine → Option Tree
unfolding paint plug insert_case4 repaint sibling node_color
insert_case1 t [] = some (paint black t)
insert_case1 t (f ∷ []) = elim (parent_color f) [ black ↦ some (plug (f ∷ []) t) | red ↦ none ]
insert_case1 t (f ∷ g ∷ up) =
    let above = insert_case1 (repaint t f g) up in
    elim (parent_color f) [
      | black ↦ some (plug (f ∷ g ∷ up) t)
      | red ↦ elim (node_color (sibling g)) [
        | red ↦ above
        | black ↦ elim (insert_case4 t f g) [ none ↦ none | some s ↦ some (plug up s) ]
      ]
    ]
