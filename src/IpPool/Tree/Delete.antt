-- ===== src/IpPool/Tree/Delete.antt =====
-- `deleteCase1` to `deleteCase6` and `removeNode` of pkg/tools/ippool/ippool.go. The delete cases
-- leave the node itself alone, so each maps the frames above the node to the frames after it;
-- `none` is a nil dereference.
pub mod Rotations
pub mod Cases
pub mod Balance
use nsm_sdk.Prelude.{List, [], ◌∷◌, Option, none, some}
use nsm_sdk.IpPool.Range.{Range}
use nsm_sdk.IpPool.Tree.{
  Color, black, red, Tree, leaf, node, Frame, left_of, right_of, Spine, node_color, paint,
  parent_color, paint_parent, sibling, set_sibling, plug,
}

-- The sibling takes the parent's color, the parent turns black and is rotated towards the node. A
-- node on the left with a sibling whose only red child is on the left too would be rotated upwards:
-- case 5 leaves no such sibling, and the model stops there.
unfoldable pub delete_case6 : Frame → Spine → Option Spine
unfolding node_color
delete_case6 (left_of p c leaf) up = none
delete_case6 (right_of p c leaf) up = none
delete_case6 (left_of p c (node s d l (node r red x y))) up =
    some (left_of p black l ∷ left_of s c (node r black x y) ∷ up)
delete_case6 (left_of p c (node s d l r)) up = elim (node_color l) [
  | red ↦ none
  | black ↦ some (left_of p black (node s c l r) ∷ up)
]
delete_case6 (right_of p c (node s d (node l red x y) r)) up =
    some (right_of p black r ∷ right_of s c (node l black x y) ∷ up)
delete_case6 (right_of p c (node s d l r)) up = some (right_of p black (node s c l r) ∷ up)

-- A black sibling whose only red child is the inner one is rotated away from the node.
unfoldable pub delete_case5 : Frame → Spine → Option Spine
unfolding delete_case6 node_color
delete_case5 (left_of p c (node s black (node l red x y) r)) up = elim (node_color r) [
  | black ↦ delete_case6 (left_of p c (node l black x (node s red y r))) up
  | red ↦ delete_case6 (left_of p c (node s black (node l red x y) r)) up
]
delete_case5 (right_of p c (node s black l (node r red x y))) up = elim (node_color l) [
  | black ↦ delete_case6 (right_of p c (node r black (node s red l x) y)) up
  | red ↦ delete_case6 (right_of p c (node s black l (node r red x y))) up
]
delete_case5 f up = delete_case6 f up

-- Black if the sibling and both its children are; `none` where the sibling is nil.
unfoldable pub all_black : Tree → Option Color
unfolding node_color
all_black leaf = none
all_black (node s red l r) = some red
all_black (node s black l r) = elim (node_color l) [ red ↦ some red | black ↦ some (node_color r) ]

-- The frame with its sibling painted.
unfoldable pub paint_sibling : Color → Frame → Frame
unfolding sibling set_sibling paint
paint_sibling c f = set_sibling (paint c (sibling f)) f

-- A red parent of an all-black sibling turns black, and the sibling red.
unfoldable pub delete_case4 : Frame → Spine → Option Spine
unfolding delete_case5 all_black paint_sibling paint_parent
delete_case4 f up = elim (parent_color f) [
  | black ↦ delete_case5 f up
  | red ↦ elim (all_black (sibling f)) [
    | none ↦ none
    | some red ↦ delete_case5 f up
    | some black ↦ some (paint_parent black (paint_sibling red f) ∷ up)
  ]
]

-- Of a black parent the sibling turns red, and the parent is the next node: `above` is what case 1
-- makes of the frames over it.
unfoldable pub delete_case3 : Option Spine → Frame → Spine → Option Spine
unfolding delete_case4 all_black paint_sibling
delete_case3 above f up = elim (parent_color f) [
  | red ↦ delete_case4 f up
  | black ↦ elim (all_black (sibling f)) [
    | none ↦ none
    | some red ↦ delete_case4 f up
    | some black ↦ elim above [ none ↦ none | some up' ↦ some (paint_sibling red f ∷ up') ]
  ]
]

-- A red sibling turns black over a red parent, which is rotated towards the node. The parent is red
-- then, so that case 3 goes on to case 4.
unfoldable pub delete_case2 : Option Spine → Frame → Spine → Option Spine
unfolding delete_case3 delete_case4
delete_case2 above (left_of p c (node s red l r)) up =
    delete_case4 (left_of p red l) (left_of s black r ∷ up)
delete_case2 above (right_of p c (node s red l r)) up =
    delete_case4 (right_of p red r) (right_of s black l ∷ up)
delete_case2 above f up = delete_case3 above f up

unfoldable pub delete_case1 : Spine → Option Spine
unfolding delete_case2
delete_case1 [] = some []
delete_case1 (f ∷ up) = let above = delete_case1 up in delete_case2 above f up

-- The child that replaces a node with a nil child; at the root it turns black.
unfoldable pub replace : Spine → Tree → Tree
unfolding paint plug
replace [] t = paint black t
replace (f ∷ up) t = plug (f ∷ up) t

-- `removeNode` at a node with a nil child.
unfoldable pub remove_single : Tree → Spine → Option Tree
unfolding delete_case1 replace
remove_single leaf up = none
remove_single (node v red l leaf) up = some (replace up l)
remove_single (node v red l r) up = some (replace up r)
remove_single (node v black l leaf) up = elim (delete_case1 up) [
  | none ↦ none
  | some up' ↦ some (replace up' l)
]
remove_single (node v black l r) up = elim (delete_case1 up) [
  | none ↦ none
  | some up' ↦ some (replace up' r)
]

-- `maximumNode` of a subtree: the node and its frames, up to the given ones.
unfoldable pub maximum_node : Tree → Spine → Tree × Spine
maximum_node leaf up = (leaf, up)
maximum_node (node v c l leaf) up = (node v c l leaf, up)
maximum_node (node v c l (node w d a b)) up = maximum_node (node w d a b) (right_of v c l ∷ up)

abbrev pub value_or : Range → Tree → Range
value_or v leaf = v
value_or v (node w c l r) = w

-- A node with two children takes the value of its predecessor, which is removed in its place.
unfoldable pub remove_node : Tree → Spine → Option Tree
unfolding remove_single maximum_node
remove_node leaf up = some (plug up leaf)
remove_node (node v c leaf r) up = remove_single (node v c leaf r) up
remove_node (node v c l leaf) up = remove_single (node v c l leaf) up
remove_node (node v c (node w d a b) (node x e g h)) up =
    let pred = value_or v (maximum_node (node w d a b) []).0 in
    let found = maximum_node (node w d a b) (left_of pred c (node x e g h) ∷ up) in
    remove_single found.0 found.1
