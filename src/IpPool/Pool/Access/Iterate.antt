-- ===== src/IpPool/Pool/Access/Iterate.antt =====
-- The iterator, and `GetPrefixes` over it.
use mathlib.Core.List.{append_assoc, append-nil}
use nsm_sdk.Prelude.{ℕ, zero, suc, ◌<◌, ◌≡◌, ◌∙◌, refl, sym, ap, arith, List, [], ◌∷◌, ◌++◌, length}
use nsm_sdk.IpPool.Range.{Range}
use nsm_sdk.IpPool.Tree.{Color, Tree, leaf, node, left_of, right_of, Spine, join, to_list}
use nsm_sdk.IpPool.Tree.Shape.{behind}
use nsm_sdk.IpPool.Pool.{Pool, node_count}
use nsm_sdk.IpPool.Pool.Valid.{ranges, node_count-length}
use nsm_sdk.IpPool.Pool.Access.Exclude.{clone_lem}
use nsm_sdk.IpPool.Pool.Access.{leftmost, climb, next_node, iterate, prefixes_of, get_prefixes_of}

-- The ranges that stand from a place on: none when the iteration is at its end.
rest_of : Tree × Spine → List Range
rest_of (leaf, up) = []
rest_of (node v c l r, up) = v ∷ to_list r ++ behind up

rest_of-leftmost :
    (v : Range) (c : Color) (l r : Tree) (up : Spine)
    → rest_of (leftmost (node v c l r) up) ≡ to_list (node v c l r) ++ behind up
unfolding rest_of leftmost to_list behind
rest_of-leftmost v c leaf r up = refl
rest_of-leftmost v c (node w d a b) r up =
    rest_of-leftmost w d a b (left_of v c r ∷ up)
    ∙ sym (append_assoc (to_list (node w d a b)) (v ∷ to_list r) (behind up))

rest_of-climb : (t : Tree) (up : Spine) → rest_of (climb t up) ≡ behind up
unfolding rest_of climb join to_list behind
rest_of-climb t [] = refl
rest_of-climb t (left_of v c r ∷ up) = refl
rest_of-climb t (right_of v c l ∷ up) = rest_of-climb (node v c l t) up

rest_of-next_node :
    (v : Range) (c : Color) (l r : Tree) (up : Spine)
    → rest_of (next_node (node v c l r) up) ≡ to_list r ++ behind up
unfolding rest_of next_node to_list behind
rest_of-next_node v c l leaf up = rest_of-climb (node v c l leaf) up
rest_of-next_node v c l (node w d a b) up = rest_of-leftmost w d a b (right_of v c l ∷ up)

iterate_lem :
    (f : ℕ) (place : Tree × Spine) → length (rest_of place) < f → iterate f place ≡ rest_of place
unfolding iterate rest_of
iterate_lem zero place h = absurd (omega arith)
iterate_lem (suc f) (leaf, up) h = refl
iterate_lem (suc f) (node v c l r, up) h = ap (◌∷◌ v) (
    iterate_lem f (next_node (node v c l r) up)
      (omega (arith, ap length (rest_of-next_node v c l r up)))
    ∙ rest_of-next_node v c l r up)

iterate_all : (t : Tree) → iterate (suc (node_count t)) (leftmost t []) ≡ to_list t
unfolding leftmost to_list iterate behind
iterate_all leaf = refl
iterate_all (node v c l r) =
    let same = rest_of-leftmost v c l r [] ∙ append-nil (to_list (node v c l r)) in
    iterate_lem (suc (node_count (node v c l r))) (leftmost (node v c l r) [])
      (omega (arith, ap length same, node_count-length (node v c l r)))
    ∙ same

-- The iterator yields every range of the pool, once and in order, so `GetPrefixes` lists the
-- networks of these ranges.
pub get_prefixes_of_lem : (p : Pool) → get_prefixes_of p ≡ prefixes_of (ranges p)
unfolding get_prefixes_of
get_prefixes_of_lem p =
    ap (λ q. prefixes_of (iterate (suc (node_count q.root)) (leftmost q.root []))) (clone_lem p)
    ∙ ap prefixes_of (iterate_all p.root)
