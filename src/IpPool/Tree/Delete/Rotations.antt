-- ===== src/IpPool/Tree/Delete/Rotations.antt =====
-- Cases 5 and 6 of the deletion in pkg/tools/ippool/ippool.go, which rotate, on balanced trees: no nil
-- dereference, and the frames then fit a tree whose black height is one less than they did.
use mathlib.Core.List.{append_assoc}
use nsm_sdk.Prelude.{ℕ, suc, ◌≡◌, refl, ◌⊎◌, inl, inr, [], ◌∷◌, Option, some}
use nsm_sdk.IpPool.Range.{Range}
use nsm_sdk.IpPool.Tree.{
  Color, black, red, Tree, leaf, node, left_of, right_of, Spine, node_color, to_list,
}
use nsm_sdk.IpPool.Tree.Shape.{IsBalanced, Fits, Fits-weaken, before, behind}
use nsm_sdk.IpPool.Tree.Delete.{delete_case5, all_black}

-- The frames fit a balanced tree of black height `n`, red or black; at the root every color is
-- accepted, for `removeNode` paints the root.
abbrev pub Accepts : ℕ → Spine → Type 0
Accepts n [] = Unit {0}
Accepts n (f ∷ up) = Fits n red (f ∷ up)

-- What the frames above a parent of the color have to fit.
abbrev pub Above : ℕ → Color → Spine → Type 0
Above n red up = Fits n red up
Above n black up = Fits (suc n) black up

-- The outcome of a delete case: frames that accept height `n`, with the same ranges on both sides.
abbrev pub Fixes : ℕ → Spine → Option Spine → Type 0
Fixes n up o =
    (new : Spine) × (o ≡ some new)
    × Accepts n new
    × (before new ≡ before up)
    × (behind new ≡ behind up)

module _ (n : ℕ) (v : Range) (s : Tree) (up : Spine) (b : IsBalanced n s)
    (c : node_color s ≡ black) where
  left-Fits : (d : Color) → Above n d up → Fits n black (left_of v d s ∷ up)
  left-Fits red h = (b, c, h)
  left-Fits black h = (b, h)

  right-Fits : (d : Color) → Above n d up → Fits n black (right_of v d s ∷ up)
  right-Fits red h = (b, c, h)
  right-Fits black h = (b, h)

pub Accepts-Fits : (n : ℕ) (up : Spine) → Accepts n up → Fits n black up
Accepts-Fits n [] h = tt
Accepts-Fits n (f ∷ up) h = Fits-weaken n red (f ∷ up) h

Color-cases : (c : Color) → (c ≡ red) ⊎ (c ≡ black)
Color-cases red = inl refl
Color-cases black = inr refl

-- Case 5 and case 6 with a black sibling that has a red child.
pub left_case5_lem :
    (n : ℕ) (p s : Range) (c : Color) (l r : Tree) (up : Spine)
    → IsBalanced n l
    → IsBalanced n r
    → ((node_color l ≡ red) ⊎ (node_color r ≡ red))
    → Above (suc n) c up
    → Fixes n
        (left_of p c (node s black l r) ∷ up)
        (delete_case5 (left_of p c (node s black l r)) up)
unfolding delete_case5 node_color before behind to_list
left_case5_lem n p s c leaf leaf up bl br h a = absurd (elim h [ inl e ↦ cc | inr e ↦ cc ])
left_case5_lem n p s c leaf (node y red yl yr) up bl br h a = (
  left_of p black leaf ∷ left_of s c (node y black yl yr) ∷ up,
  refl,
  (bl, left-Fits (suc n) s (node y black yl yr) up (br.0, br.1) refl c a),
  refl,
  simp append_assoc,
)
left_case5_lem n p s c leaf (node y black yl yr) up bl br h a =
    absurd (elim h [ inl e ↦ cc | inr e ↦ cc ])
left_case5_lem n p s c (node x red xl xr) leaf up bl br h a = (
  left_of p black xl ∷ left_of x c (node s black xr leaf) ∷ up,
  refl,
  (bl.0, left-Fits (suc n) x (node s black xr leaf) up (bl.1, br) refl c a),
  refl,
  simp append_assoc,
)
left_case5_lem n p s c (node x red xl xr) (node y red yl yr) up bl br h a = (
  left_of p black (node x red xl xr) ∷ left_of s c (node y black yl yr) ∷ up,
  refl,
  (bl, left-Fits (suc n) s (node y black yl yr) up (br.0, br.1) refl c a),
  refl,
  simp append_assoc,
)
left_case5_lem n p s c (node x red xl xr) (node y black yl yr) up bl br h a = (
  left_of p black xl ∷ left_of x c (node s black xr (node y black yl yr)) ∷ up,
  refl,
  (bl.0, left-Fits (suc n) x (node s black xr (node y black yl yr)) up (bl.1, br) refl c a),
  refl,
  simp append_assoc,
)
left_case5_lem n p s c (node x black xl xr) leaf up bl br h a =
    absurd (elim h [ inl e ↦ cc | inr e ↦ cc ])
left_case5_lem n p s c (node x black xl xr) (node y red yl yr) up bl br h a = (
  left_of p black (node x black xl xr) ∷ left_of s c (node y black yl yr) ∷ up,
  refl,
  (bl, left-Fits (suc n) s (node y black yl yr) up (br.0, br.1) refl c a),
  refl,
  simp append_assoc,
)
left_case5_lem n p s c (node x black xl xr) (node y black yl yr) up bl br h a =
    absurd (elim h [ inl e ↦ cc | inr e ↦ cc ])

pub right_case5_lem :
    (n : ℕ) (p s : Range) (c : Color) (l r : Tree) (up : Spine)
    → IsBalanced n l
    → IsBalanced n r
    → ((node_color l ≡ red) ⊎ (node_color r ≡ red))
    → Above (suc n) c up
    → Fixes n
        (right_of p c (node s black l r) ∷ up)
        (delete_case5 (right_of p c (node s black l r)) up)
unfolding delete_case5 node_color before behind to_list
right_case5_lem n p s c leaf leaf up bl br h a = absurd (elim h [ inl e ↦ cc | inr e ↦ cc ])
right_case5_lem n p s c leaf (node y red yl yr) up bl br h a = (
  right_of p black yr ∷ right_of y c (node s black leaf yl) ∷ up,
  refl,
  (br.1, right-Fits (suc n) y (node s black leaf yl) up (bl, br.0) refl c a),
  simp append_assoc,
  refl,
)
right_case5_lem n p s c leaf (node y black yl yr) up bl br h a =
    absurd (elim h [ inl e ↦ cc | inr e ↦ cc ])
right_case5_lem n p s c (node x red xl xr) leaf up bl br h a = (
  right_of p black leaf ∷ right_of s c (node x black xl xr) ∷ up,
  refl,
  (br, right-Fits (suc n) s (node x black xl xr) up (bl.0, bl.1) refl c a),
  simp append_assoc,
  refl,
)
right_case5_lem n p s c (node x red xl xr) (node y red yl yr) up bl br h a = (
  right_of p black (node y red yl yr) ∷ right_of s c (node x black xl xr) ∷ up,
  refl,
  (br, right-Fits (suc n) s (node x black xl xr) up (bl.0, bl.1) refl c a),
  simp append_assoc,
  refl,
)
right_case5_lem n p s c (node x red xl xr) (node y black yl yr) up bl br h a = (
  right_of p black (node y black yl yr) ∷ right_of s c (node x black xl xr) ∷ up,
  refl,
  (br, right-Fits (suc n) s (node x black xl xr) up (bl.0, bl.1) refl c a),
  simp append_assoc,
  refl,
)
right_case5_lem n p s c (node x black xl xr) leaf up bl br h a =
    absurd (elim h [ inl e ↦ cc | inr e ↦ cc ])
right_case5_lem n p s c (node x black xl xr) (node y red yl yr) up bl br h a = (
  right_of p black yr ∷ right_of y c (node s black (node x black xl xr) yl) ∷ up,
  refl,
  (br.1, right-Fits (suc n) y (node s black (node x black xl xr) yl) up (bl, br.0) refl c a),
  simp append_assoc,
  refl,
)
right_case5_lem n p s c (node x black xl xr) (node y black yl yr) up bl br h a =
    absurd (elim h [ inl e ↦ cc | inr e ↦ cc ])

module _ (s : Range) (l r : Tree) where
  pub all_black-cases :
      ((all_black (node s black l r) ≡ some red) × ((node_color l ≡ red) ⊎ (node_color r ≡ red)))
      ⊎ ((all_black (node s black l r) ≡ some black)
          × (node_color l ≡ black)
          × (node_color r ≡ black))
  unfolding all_black
  all_black-cases = elim (Color-cases (node_color l)) [
    | inl a ↦ inl (rw (a, all_black), inl a)
    | inr a ↦ elim (Color-cases (node_color r)) [
      | inl b ↦ inl (rw (a, b, all_black), inr b)
      | inr b ↦ inr (rw (a, b, all_black), a, b)
    ]
  ]
