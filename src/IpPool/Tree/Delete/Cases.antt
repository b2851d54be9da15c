-- ===== src/IpPool/Tree/Delete/Cases.antt =====
-- Cases 1 to 4 of the deletion in pkg/tools/ippool/ippool.go on balanced trees, over the rotations of
-- cases 5 and 6.
use mathlib.Core.List.{append_assoc}
use nsm_sdk.Prelude.{ℕ, suc, ◌≡◌, ◌∙◌, refl, ap, ◌⊎◌, inl, inr, arith, [], ◌∷◌, ◌++◌, Option}
use nsm_sdk.IpPool.Range.{Range}
use nsm_sdk.IpPool.Tree.{
  Color, black, red, Tree, leaf, node, left_of, right_of, Spine, node_color, to_list,
}
use nsm_sdk.IpPool.Tree.Shape.{IsBalanced, Fits, Fits-weaken, before, behind}
use nsm_sdk.IpPool.Tree.Delete.{delete_case4, delete_case3, delete_case2, delete_case1}
use nsm_sdk.IpPool.Tree.Delete.Rotations.{
  Above, Fixes, Accepts-Fits, left_case5_lem, right_case5_lem, all_black-cases,
}

-- Case 4 with a black sibling.
left_case4_lem :
    (n : ℕ) (p s : Range) (c : Color) (l r : Tree) (up : Spine)
    → IsBalanced n l
    → IsBalanced n r
    → ((c ≡ red) ⊎ ((node_color l ≡ red) ⊎ (node_color r ≡ red)))
    → Above (suc n) c up
    → Fixes n
        (left_of p c (node s black l r) ∷ up)
        (delete_case4 (left_of p c (node s black l r)) up)
unfolding delete_case4 before behind to_list
left_case4_lem n p s black l r up bl br (inl e) a = cc
left_case4_lem n p s black l r up bl br (inr h) a = left_case5_lem n p s black l r up bl br h a
left_case4_lem n p s red l r up bl br h a = elim (all_black-cases s l r) [
  | inl (e, k) ↦ rw (e, delete_case4) (left_case5_lem n p s red l r up bl br k a)
  | inr (e, x, y) ↦
      rw (e, delete_case4)
        (
          left_of p black (node s red l r) ∷ up,
          refl,
          ((bl, br, x, y), Fits-weaken (suc n) red up a),
          refl,
          refl,
        )
]

-- Case 3 with a black sibling.
left_case3_lem :
    (n : ℕ) (p s : Range) (c : Color) (l r : Tree) (up : Spine) (above : Option Spine)
    → IsBalanced n l
    → IsBalanced n r
    → Above (suc n) c up
    → (c ≡ black → Fixes (suc n) up above)
    → Fixes n
        (left_of p c (node s black l r) ∷ up)
        (delete_case3 above (left_of p c (node s black l r)) up)
unfolding delete_case3 before behind to_list
left_case3_lem n p s red l r up above bl br a ih =
    left_case4_lem n p s red l r up bl br (inl refl) a
left_case3_lem n p s black l r up above bl br a ih = elim (all_black-cases s l r) [
  | inl (e, k) ↦ rw (e, delete_case3) (left_case4_lem n p s black l r up bl br (inr k) a)
  | inr (e, x, y) ↦
      let (up', k, fit, b, c) = ih refl in
      rw (e, k, delete_case3)
        (
          left_of p black (node s red l r) ∷ up',
          refl,
          ((bl, br, x, y), Accepts-Fits (suc n) up' fit),
          b,
          ap (λ t. p ∷ to_list (node s black l r) ++ t) c,
        )
]

-- Case 4 with a black sibling.
right_case4_lem :
    (n : ℕ) (p s : Range) (c : Color) (l r : Tree) (up : Spine)
    → IsBalanced n l
    → IsBalanced n r
    → ((c ≡ red) ⊎ ((node_color l ≡ red) ⊎ (node_color r ≡ red)))
    → Above (suc n) c up
    → Fixes n
        (right_of p c (node s black l r) ∷ up)
        (delete_case4 (right_of p c (node s black l r)) up)
unfolding delete_case4 before behind to_list
right_case4_lem n p s black l r up bl br (inl e) a = cc
right_case4_lem n p s black l r up bl br (inr h) a = right_case5_lem n p s black l r up bl br h a
right_case4_lem n p s red l r up bl br h a = elim (all_black-cases s l r) [
  | inl (e, k) ↦ rw (e, delete_case4) (right_case5_lem n p s red l r up bl br k a)
  | inr (e, x, y) ↦
      rw (e, delete_case4)
        (
          right_of p black (node s red l r) ∷ up,
          refl,
          ((bl, br, x, y), Fits-weaken (suc n) red up a),
          refl,
          refl,
        )
]

-- Case 3 with a black sibling.
right_case3_lem :
    (n : ℕ) (p s : Range) (c : Color) (l r : Tree) (up : Spine) (above : Option Spine)
    → IsBalanced n l
    → IsBalanced n r
    → Above (suc n) c up
    → (c ≡ black → Fixes (suc n) up above)
    → Fixes n
        (right_of p c (node s black l r) ∷ up)
        (delete_case3 above (right_of p c (node s black l r)) up)
unfolding delete_case3 before behind to_list
right_case3_lem n p s red l r up above bl br a ih =
    right_case4_lem n p s red l r up bl br (inl refl) a
right_case3_lem n p s black l r up above bl br a ih = elim (all_black-cases s l r) [
  | inl (e, k) ↦ rw (e, delete_case3) (right_case4_lem n p s black l r up bl br (inr k) a)
  | inr (e, x, y) ↦
      let (up', k, fit, b, c) = ih refl in
      rw (e, k, delete_case3)
        (
          right_of p black (node s red l r) ∷ up',
          refl,
          ((bl, br, x, y), Accepts-Fits (suc n) up' fit),
          ap (λ t. t ++ (to_list (node s black l r) ++ p ∷ [])) b,
          c,
        )
]

-- Case 2 with a red sibling, whose children are black.
left_case2_lem :
    (n : ℕ) (p s : Range) (l r : Tree) (up : Spine) (above : Option Spine)
    → IsBalanced (suc n) l
    → IsBalanced (suc n) r
    → node_color l ≡ black
    → node_color r ≡ black
    → Fits (suc (suc n)) black up
    → Fixes n
        (left_of p black (node s red l r) ∷ up)
        (delete_case2 above (left_of p black (node s red l r)) up)
unfolding delete_case2 before behind to_list node_color
left_case2_lem n p s leaf r up above bl br cl cr fit = absurd (omega arith)
left_case2_lem n p s (node x red a b) r up above bl br cl cr fit = cc
left_case2_lem n p s (node x black a b) r up above bl br cl cr fit =
    let (new, k, accept, b', c') =
      left_case4_lem n p x red a b (left_of s black r ∷ up) bl.0 bl.1 (inl refl) (br, fit) in
    (new, k, accept, b', c' ∙ simp append_assoc)

-- Case 2 with a red sibling, whose children are black.
right_case2_lem :
    (n : ℕ) (p s : Range) (l r : Tree) (up : Spine) (above : Option Spine)
    → IsBalanced (suc n) l
    → IsBalanced (suc n) r
    → node_color l ≡ black
    → node_color r ≡ black
    → Fits (suc (suc n)) black up
    → Fixes n
        (right_of p black (node s red l r) ∷ up)
        (delete_case2 above (right_of p black (node s red l r)) up)
unfolding delete_case2 before behind to_list node_color
right_case2_lem n p s l leaf up above bl br cl cr fit = absurd (omega arith)
right_case2_lem n p s l (node x red a b) up above bl br cl cr fit = cc
right_case2_lem n p s l (node x black a b) up above bl br cl cr fit =
    let (new, k, accept, b', c') =
      right_case4_lem n p x red a b (right_of s black l ∷ up) br.0 br.1 (inl refl) (bl, fit) in
    (new, k, accept, b' ∙ simp append_assoc, c')

-- Case 1: frames that fit black height `n + 1` become frames that accept `n`, with the same ranges.
pub delete_case1_lem : (n : ℕ) (up : Spine) → Fits (suc n) black up → Fixes n up (delete_case1 up)
unfolding delete_case1 node_color
delete_case1_lem n [] h = ([], refl, tt, refl, refl)
delete_case1_lem n (left_of p red leaf ∷ up) (b, cs, fit) = absurd (omega arith)
delete_case1_lem n (left_of p black leaf ∷ up) (b, fit) = absurd (omega arith)
delete_case1_lem n (left_of p red (node s red l r) ∷ up) (b, cs, fit) = cc
delete_case1_lem n (left_of p red (node s black l r) ∷ up) (b, cs, fit) =
    left_case3_lem n p s red l r up (delete_case1 up) b.0 b.1 fit (λ e. cc)
delete_case1_lem n (left_of p black (node s red l r) ∷ up) ((bl, br, cl, cr), fit) =
    left_case2_lem n p s l r up (delete_case1 up) bl br cl cr fit
delete_case1_lem n (left_of p black (node s black l r) ∷ up) (b, fit) =
    left_case3_lem n p s black l r up (delete_case1 up) b.0 b.1 fit
      (λ _. delete_case1_lem (suc n) up fit)
delete_case1_lem n (right_of p red leaf ∷ up) (b, cs, fit) = absurd (omega arith)
delete_case1_lem n (right_of p black leaf ∷ up) (b, fit) = absurd (omega arith)
delete_case1_lem n (right_of p red (node s red l r) ∷ up) (b, cs, fit) = cc
delete_case1_lem n (right_of p red (node s black l r) ∷ up) (b, cs, fit) =
    right_case3_lem n p s red l r up (delete_case1 up) b.0 b.1 fit (λ e. cc)
delete_case1_lem n (right_of p black (node s red l r) ∷ up) ((bl, br, cl, cr), fit) =
    right_case2_lem n p s l r up (delete_case1 up) bl br cl cr fit
delete_case1_lem n (right_of p black (node s black l r) ∷ up) (b, fit) =
    right_case3_lem n p s black l r up (delete_case1 up) b.0 b.1 fit
      (λ _. delete_case1_lem (suc n) up fit)
