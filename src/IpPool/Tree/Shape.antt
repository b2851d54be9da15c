-- ===== src/IpPool/Tree/Shape.antt =====
-- The red-black invariant of trees and of the frames above a place, and the order of their ranges.
use mathlib.Core.List.{append_assoc, append-nil}
use nsm_sdk.Prelude.{ℕ, zero, suc, ◌≡◌, ◌∙◌, refl, sym, ap, List, [], ◌∷◌, ◌++◌}
use nsm_sdk.IpPool.Range.{Range}
use nsm_sdk.IpPool.Tree.{
  Color, black, red, Tree, leaf, node, left_of, right_of, Spine, node_color, join, plug, to_list,
}

-- Black on every path as often, and no red node below a red one.
abbrev pub IsBalanced : ℕ → Tree → Type 0
IsBalanced n leaf = n ≡ 0
IsBalanced n (node v red l r) =
    IsBalanced n l × IsBalanced n r × (node_color l ≡ black) × (node_color r ≡ black)
IsBalanced zero (node v black l r) = ⊥
IsBalanced (suc n) (node v black l r) = IsBalanced n l × IsBalanced n r

-- The frames make a balanced tree with a black root of any balanced tree of black height `n` that
-- has the color, or is black.
abbrev pub Fits : ℕ → Color → Spine → Type 0
Fits n black [] = Unit {0}
Fits n red [] = ⊥
Fits n red (left_of v red s ∷ up) = ⊥
Fits n red (right_of v red s ∷ up) = ⊥
Fits n black (left_of v red s ∷ up) = IsBalanced n s × (node_color s ≡ black) × Fits n red up
Fits n black (right_of v red s ∷ up) = IsBalanced n s × (node_color s ≡ black) × Fits n red up
Fits n c (left_of v black s ∷ up) = IsBalanced n s × Fits (suc n) black up
Fits n c (right_of v black s ∷ up) = IsBalanced n s × Fits (suc n) black up

pub Fits-weaken : (n : ℕ) (c : Color) (up : Spine) → Fits n c up → Fits n black up
Fits-weaken n black up h = h
Fits-weaken n red [] h = absurd h
Fits-weaken n red (left_of v red s ∷ up) h = absurd h
Fits-weaken n red (right_of v red s ∷ up) h = absurd h
Fits-weaken n red (left_of v black s ∷ up) h = h
Fits-weaken n red (right_of v black s ∷ up) h = h

-- A tree that the pool keeps: balanced, with a black root.
pub record IsRedBlack (t : Tree) : Type 0 where
  pub height : ℕ
  pub balanced : IsBalanced height t
  pub root_black : node_color t ≡ black

pub plug-IsRedBlack :
    (n : ℕ) (c : Color) (up : Spine) (t : Tree)
    → Fits n c up
    → IsBalanced n t
    → node_color t ≡ c
    → IsRedBlack (plug up t)
unfolding plug node_color
plug-IsRedBlack n black [] t h b e = record { height = n; balanced = b; root_black = e }
plug-IsRedBlack n red [] t h b e = absurd h
plug-IsRedBlack n black (left_of v red s ∷ up) t (bs, cs, h) b e =
    plug-IsRedBlack n red up (node v red t s) h (b, bs, e, cs) refl
plug-IsRedBlack n black (right_of v red s ∷ up) t (bs, cs, h) b e =
    plug-IsRedBlack n red up (node v red s t) h (bs, b, cs, e) refl
plug-IsRedBlack n black (left_of v black s ∷ up) t (bs, h) b e =
    plug-IsRedBlack (suc n) black up (node v black t s) h (b, bs) refl
plug-IsRedBlack n black (right_of v black s ∷ up) t (bs, h) b e =
    plug-IsRedBlack (suc n) black up (node v black s t) h (bs, b) refl
plug-IsRedBlack n red (left_of v red s ∷ up) t h b e = absurd h
plug-IsRedBlack n red (right_of v red s ∷ up) t h b e = absurd h
plug-IsRedBlack n red (left_of v black s ∷ up) t (bs, h) b e =
    plug-IsRedBlack (suc n) black up (node v black t s) h (b, bs) refl
plug-IsRedBlack n red (right_of v black s ∷ up) t (bs, h) b e =
    plug-IsRedBlack (suc n) black up (node v black s t) h (bs, b) refl

module _ (n : ℕ) (v : Range) (s : Tree) (up : Spine) (b : IsBalanced n s)
    (h : Fits (suc n) black up) where
  left_black-Fits : (c : Color) → Fits n c (left_of v black s ∷ up)
  left_black-Fits black = (b, h)
  left_black-Fits red = (b, h)

  right_black-Fits : (c : Color) → Fits n c (right_of v black s ∷ up)
  right_black-Fits black = (b, h)
  right_black-Fits red = (b, h)

-- One step down from a place keeps it fitting.
pub left-Fits :
    (n : ℕ) (v : Range) (c : Color) (l r : Tree) (up : Spine)
    → IsBalanced n (node v c l r)
    → Fits n c up
    → (m : ℕ) × IsBalanced m l × Fits m (node_color l) (left_of v c r ∷ up)
left-Fits n v red l r up (bl, br, cl, cr) h = (n, bl, rw cl (br, cr, h))
left-Fits zero v black l r up b h = absurd b
left-Fits (suc n) v black l r up (bl, br) h = (n, bl, left_black-Fits n v r up br h (node_color l))

pub right-Fits :
    (n : ℕ) (v : Range) (c : Color) (l r : Tree) (up : Spine)
    → IsBalanced n (node v c l r)
    → Fits n c up
    → (m : ℕ) × IsBalanced m r × Fits m (node_color r) (right_of v c l ∷ up)
right-Fits n v red l r up (bl, br, cl, cr) h = (n, br, rw cr (bl, cl, h))
right-Fits zero v black l r up b h = absurd b
right-Fits (suc n) v black l r up (bl, br) h =
    (n, br, right_black-Fits n v l up bl h (node_color r))

-- The ranges to the left and to the right of a place.
unfoldable pub before : Spine → List Range
before [] = []
before (left_of v c s ∷ up) = before up
before (right_of v c s ∷ up) = before up ++ (to_list s ++ v ∷ [])

unfoldable pub behind : Spine → List Range
behind [] = []
behind (left_of v c s ∷ up) = v ∷ to_list s ++ behind up
behind (right_of v c s ∷ up) = behind up

pub to_list-plug :
    (up : Spine) (t : Tree) → to_list (plug up t) ≡ before up ++ (to_list t ++ behind up)
unfolding plug before behind join to_list
to_list-plug [] t = sym (append-nil (to_list t))
to_list-plug (left_of v c s ∷ up) t =
    to_list-plug up (node v c t s)
    ∙ ap (◌++◌ (before up)) (append_assoc (to_list t) (v ∷ to_list s) (behind up))
to_list-plug (right_of v c s ∷ up) t = to_list-plug up (node v c s t) ∙ simp append_assoc
