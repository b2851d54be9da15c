-- ===== src/Tests/Trees.antt =====
-- The theorems on the insertion and the removal of a node at sample trees.
use nsm_sdk.Prelude.{refl, [], ◌∷◌, ◌++◌}
use nsm_sdk.IpPool.Tree.{black, red, leaf, node, left_of, right_of, Spine, node_color, to_list}
use nsm_sdk.IpPool.Tree.Shape.{Fits, before, behind}
use nsm_sdk.IpPool.Tree.Insert.{insert_case1}
use nsm_sdk.IpPool.Tree.Insert.Balance.{Stands, insert_case1_lem}
use nsm_sdk.IpPool.Tree.Delete.{remove_node}
use nsm_sdk.IpPool.Tree.Delete.Balance.{Leaves, remove_node_lem}
use nsm_sdk.Tests.{between}

-- A new node on the right of the node of 20.
abbrev place : Spine
place =
    right_of (between 20 20) red leaf
    ∷ right_of (between 10 13) black (node (between 4 7) red leaf leaf)
    ∷ []

place-Fits : Fits 0 black place
unfolding node_color
place-Fits = (refl, refl, ((refl, refl, refl, refl), tt))

insert_case1_lem_example :
    Stands place
      (node (between 30 31) red leaf leaf)
      (insert_case1 (node (between 30 31) red leaf leaf) place)
unfolding node_color
insert_case1_lem_example =
    insert_case1_lem 0 (node (between 30 31) red leaf leaf) place (refl, refl, refl, refl)
      place-Fits

-- The black node on the left of the root, with its brother.
abbrev pair : Spine
pair = left_of (between 10 13) black (node (between 20 20) black leaf leaf) ∷ []

remove_node_lem_example :
    Leaves
      (before pair ++ (([] ++ []) ++ behind pair))
      (remove_node (node (between 4 7) black leaf leaf) pair)
unfolding to_list before behind node_color
remove_node_lem_example =
    remove_node_lem 1 (between 4 7) black leaf leaf pair (refl, refl) ((refl, refl), tt)
