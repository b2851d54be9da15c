-- ===== src/IpPool/Tree.antt =====
-- The red-black tree of pkg/tools/ippool/ippool.go: `treeNode` and the steps up it. A node with its
-- `Parent` is a place in a tree: the subtree, and the frames from it up to the root.
pub mod Shape
pub mod Insert
pub mod Delete
use nsm_sdk.Prelude.{List, [], ◌∷◌, ◌++◌, Option, none, some}
use nsm_sdk.IpPool.Range.{Range}

pub data Color : Type 0 where
  black red : Color

-- The nil node is `leaf`.
pub data Tree : Type 0 where
  leaf : Tree
  node : Range → Color → Tree → Tree → Tree

-- A parent: its value, its color and the sibling of the child that is looked at.
pub data Frame : Type 0 where
  left_of right_of : Range → Color → Tree → Frame

abbrev pub Spine : Type 0
Spine = List Frame

unfoldable pub node_color : Tree → Color
node_color leaf = black
node_color (node v c l r) = c

unfoldable pub paint : Color → Tree → Tree
paint c leaf = leaf
paint c (node v d l r) = node v c l r

abbrev pub parent_color : Frame → Color
parent_color (left_of v c s) = c
parent_color (right_of v c s) = c

unfoldable pub paint_parent : Color → Frame → Frame
paint_parent c (left_of v d s) = left_of v c s
paint_parent c (right_of v d s) = right_of v c s

unfoldable pub sibling : Frame → Tree
sibling (left_of v c s) = s
sibling (right_of v c s) = s

unfoldable pub set_sibling : Tree → Frame → Frame
set_sibling s (left_of v c t) = left_of v c s
set_sibling s (right_of v c t) = right_of v c s

-- The parent with the child below it.
unfoldable pub join : Frame → Tree → Tree
join (left_of v c s) t = node v c t s
join (right_of v c s) t = node v c s t

-- The whole tree.
unfoldable pub plug : Spine → Tree → Tree
unfolding join
plug [] t = t
plug (f ∷ up) t = plug up (join f t)

-- The ranges in order.
unfoldable pub to_list : Tree → List Range
to_list leaf = []
to_list (node v c l r) = to_list l ++ v ∷ to_list r

-- A nil child makes the source's rotations fail.
unfoldable pub rotate_left : Tree → Option Tree
rotate_left (node v c l (node w d a b)) = some (node w d (node v c l a) b)
rotate_left _ = none

unfoldable pub rotate_right : Tree → Option Tree
rotate_right (node v c (node w d a b) r) = some (node w d a (node v c b r))
rotate_right _ = none
