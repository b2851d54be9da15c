-- ===== src/IpPool/Tree/Insert/Balance.antt =====
-- Insertion into a balanced tree: no nil dereference, the tree stays balanced, and the new range
-- stands in order at its place.
use mathlib.Core.List.{append_assoc, append-nil}
use nsm_sdk.Prelude.{
  ℕ, suc, ◌≡◌, ◌∙◌, refl, sym, ap, ◌⊎◌, inl, inr, arith, [], ◌∷◌, ◌++◌, Option, some,
}
use nsm_sdk.IpPool.Tree.{
  Color, black, red, Tree, leaf, node, Frame, left_of, right_of, Spine, node_color, parent_color,
  sibling, join, plug, to_list,
}
use nsm_sdk.IpPool.Tree.Shape.{
  IsBalanced, Fits, IsRedBlack, plug-IsRedBlack, before, behind, to_list-plug,
}
use nsm_sdk.IpPool.Tree.Insert.{insert_case4, repaint, insert_case1}

-- A red node over black subtrees of black height `n`.
abbrev pub IsRedNode : ℕ → Tree → Type 0
IsRedNode n leaf = ⊥
IsRedNode n (node v black l r) = ⊥
IsRedNode n (node v red l r) =
    IsBalanced n l × IsBalanced n r × (node_color l ≡ black) × (node_color r ≡ black)

-- The four rotations give a black node of the grandparent's black height, with the ranges in order.
insert_case4_lem :
    (n : ℕ) (t : Tree) (f g : Frame)
    → IsRedNode n t
    → parent_color f ≡ red
    → IsBalanced n (sibling f)
    → node_color (sibling f) ≡ black
    → IsBalanced n (sibling g)
    → node_color (sibling g) ≡ black
    → (s : Tree) × (insert_case4 t f g ≡ some s)
      × IsBalanced (suc n) s
      × (node_color s ≡ black)
      × (to_list s ≡ to_list (join g (join f t)))
unfolding insert_case4 sibling to_list node_color
insert_case4_lem n leaf f g h e bf cf bg cg = absurd h
insert_case4_lem n (node v black l r) f g h e bf cf bg cg = absurd h
insert_case4_lem n t (left_of p black s) g h e bf cf bg cg = cc
insert_case4_lem n t (right_of p black s) g h e bf cf bg cg = cc
insert_case4_lem n (node v red l r) (left_of p red s) (left_of q d u) (bl, br, cl, cr) e bf cf bg
      cg =
    (_, refl, ((bl, br, cl, cr), (bf, bg, cf, cg)), refl, simp append_assoc)
insert_case4_lem n (node v red l r) (right_of p red s) (right_of q d u) (bl, br, cl, cr) e bf cf bg
      cg =
    (_, refl, ((bg, bf, cg, cf), (bl, br, cl, cr)), refl, simp append_assoc)
insert_case4_lem n (node v red l r) (right_of p red s) (left_of q d u) (bl, br, cl, cr) e bf cf bg
      cg =
    (_, refl, ((bf, bl, cf, cl), (br, bg, cr, cg)), refl, simp append_assoc)
insert_case4_lem n (node v red l r) (left_of p red s) (right_of q d u) (bl, br, cl, cr) e bf cf bg
      cg =
    (_, refl, ((bg, bl, cg, cl), (br, bf, cr, cf)), refl, simp append_assoc)

IsRedNode-IsBalanced : (n : ℕ) (t : Tree) → IsRedNode n t → IsBalanced n t × (node_color t ≡ red)
unfolding node_color
IsRedNode-IsBalanced n leaf h = absurd h
IsRedNode-IsBalanced n (node v black l r) h = absurd h
IsRedNode-IsBalanced n (node v red l r) h = (h, refl)

-- The repainted grandparent is red over black nodes, with the same ranges.
repaint_lem :
    (n : ℕ) (t : Tree) (f g : Frame)
    → IsBalanced n t
    → IsBalanced n (sibling f)
    → IsBalanced n (sibling g)
    → node_color (sibling g) ≡ red
    → IsRedNode (suc n) (repaint t f g) × (to_list (repaint t f g) ≡ to_list (join g (join f t)))
unfolding repaint to_list node_color
repaint_lem n t f (left_of q d leaf) h bf bg cg = cc
repaint_lem n t f (right_of q d leaf) h bf bg cg = cc
repaint_lem n t f (left_of q d (node w black x y)) h bf bg cg = cc
repaint_lem n t f (right_of q d (node w black x y)) h bf bg cg = cc
repaint_lem n t (left_of p c s) (left_of q d (node w red x y)) h bf (bx, by, cx, cy) cg =
    (((h, bf), (bx, by), refl, refl), refl)
repaint_lem n t (right_of p c s) (left_of q d (node w red x y)) h bf (bx, by, cx, cy) cg =
    (((bf, h), (bx, by), refl, refl), refl)
repaint_lem n t (left_of p c s) (right_of q d (node w red x y)) h bf (bx, by, cx, cy) cg =
    (((bx, by), (h, bf), refl, refl), refl)
repaint_lem n t (right_of p c s) (right_of q d (node w red x y)) h bf (bx, by, cx, cy) cg =
    (((bx, by), (bf, h), refl, refl), refl)

-- The tree is balanced, with a black root, and holds the ranges of `t` at the place.
abbrev pub Stands : Spine → Tree → Option Tree → Type 0
Stands up t o =
    (u : Tree) × (o ≡ some u) × IsRedBlack u × (to_list u ≡ before up ++ (to_list t ++ behind up))

plug-Stands :
    (n : ℕ) (up : Spine) (t : Tree) → Fits n red up → IsRedNode n t → Stands up t (some (plug up t))
plug-Stands n up t fit h =
    let (b, c) = IsRedNode-IsBalanced n t h in
    (plug up t, refl, plug-IsRedBlack n red up t fit b c, to_list-plug up t)

to_list-join :
    (t : Tree) (f g : Frame) (up : Spine)
    → before up ++ (to_list (join g (join f t)) ++ behind up)
      ≡ before (f ∷ g ∷ up) ++ (to_list t ++ behind (f ∷ g ∷ up))
unfolding plug
to_list-join t f g up = sym (to_list-plug up (join g (join f t))) ∙ to_list-plug (f ∷ g ∷ up) t

module _ (t : Tree) (f g : Frame) (up : Spine) (parent : parent_color f ≡ red) where
  red_uncle :
      node_color (sibling g) ≡ red → insert_case1 t (f ∷ g ∷ up) ≡ insert_case1 (repaint t f g) up
  unfolding insert_case1
  red_uncle e = ground arith

  black_uncle :
      (s : Tree)
      → node_color (sibling g) ≡ black
      → insert_case4 t f g ≡ some s
      → insert_case1 t (f ∷ g ∷ up) ≡ some (plug up s)
  unfolding insert_case1
  black_uncle s e k = ground arith

Color-cases : (c : Color) → (c ≡ red) ⊎ (c ≡ black)
Color-cases red = inl refl
Color-cases black = inr refl

red_parent_lem :
    (n : ℕ) (t : Tree) (f g : Frame) (up : Spine)
    → IsRedNode n t
    → parent_color f ≡ red
    → IsBalanced n (sibling f)
    → node_color (sibling f) ≡ black
    → IsBalanced n (sibling g)
    → Fits (suc n) black up
    → (IsRedNode (suc n) (repaint t f g)
        → Stands up (repaint t f g) (insert_case1 (repaint t f g) up))
    → Stands (f ∷ g ∷ up) t (insert_case1 t (f ∷ g ∷ up))
red_parent_lem n t f g up h e bf cf bg fit ih = elim (Color-cases (node_color (sibling g))) [
  | inl cg ↦
      let (above, same) = repaint_lem n t f g (IsRedNode-IsBalanced n t h).0 bf bg cg in
      let (u, k, b, l) = ih above in
      (
        u,
        red_uncle t f g up e cg ∙ k,
        b,
        l ∙ ap (λ x. before up ++ (x ++ behind up)) same ∙ to_list-join t f g up,
      )
  | inr cg ↦
      let (s, k, b, c, same) = insert_case4_lem n t f g h e bf cf bg cg in
      (
        plug up s,
        black_uncle t f g up e s cg k,
        plug-IsRedBlack (suc n) black up s fit b c,
        to_list-plug up s ∙ ap (λ x. before up ++ (x ++ behind up)) same ∙ to_list-join t f g up,
      )
]

root_lem : (n : ℕ) (t : Tree) → IsRedNode n t → Stands [] t (insert_case1 t [])
unfolding insert_case1 before behind to_list
root_lem n leaf h = absurd h
root_lem n (node v black l r) h = absurd h
root_lem n (node v red l r) (bl, br, cl, cr) = (
  node v black l r,
  refl,
  record { height = suc n; balanced = (bl, br); root_black = refl },
  sym (append-nil (to_list (node v red l r))),
)

-- From a red node put where a black subtree of its black height stood, case 1 ends in a balanced
-- tree with a black root and the same ranges.
pub insert_case1_lem :
    (n : ℕ) (t : Tree) (up : Spine)
    → IsRedNode n t
    → Fits n black up
    → Stands up t (insert_case1 t up)
unfolding insert_case1
insert_case1_lem n t [] h fit = root_lem n t h
insert_case1_lem n t (left_of p black s ∷ []) h fit = plug-Stands n (left_of p black s ∷ []) t fit h
insert_case1_lem n t (right_of p black s ∷ []) h fit =
    plug-Stands n (right_of p black s ∷ []) t fit h
insert_case1_lem n t (left_of p black s ∷ g ∷ up) h fit =
    plug-Stands n (left_of p black s ∷ g ∷ up) t fit h
insert_case1_lem n t (right_of p black s ∷ g ∷ up) h fit =
    plug-Stands n (right_of p black s ∷ g ∷ up) t fit h
insert_case1_lem n t (left_of p red s ∷ []) h fit = absurd fit.2
insert_case1_lem n t (right_of p red s ∷ []) h fit = absurd fit.2
insert_case1_lem n t (left_of p red s ∷ left_of q red u ∷ up) h fit = absurd fit.2
insert_case1_lem n t (left_of p red s ∷ right_of q red u ∷ up) h fit = absurd fit.2
insert_case1_lem n t (right_of p red s ∷ left_of q red u ∷ up) h fit = absurd fit.2
insert_case1_lem n t (right_of p red s ∷ right_of q red u ∷ up) h fit = absurd fit.2
insert_case1_lem n t (left_of p red s ∷ left_of q black u ∷ up) h (bs, cs, (bu, fit)) =
    let f = left_of p red s in
    let g = left_of q black u in
    red_parent_lem n t f g up h refl bs cs bu fit
      (λ k. insert_case1_lem (suc n) (repaint t f g) up k fit)
insert_case1_lem n t (left_of p red s ∷ right_of q black u ∷ up) h (bs, cs, (bu, fit)) =
    let f = left_of p red s in
    let g = right_of q black u in
    red_parent_lem n t f g up h refl bs cs bu fit
      (λ k. insert_case1_lem (suc n) (repaint t f g) up k fit)
insert_case1_lem n t (right_of p red s ∷ left_of q black u ∷ up) h (bs, cs, (bu, fit)) =
    let f = right_of p red s in
    let g = left_of q black u in
    red_parent_lem n t f g up h refl bs cs bu fit
      (λ k. insert_case1_lem (suc n) (repaint t f g) up k fit)
insert_case1_lem n t (right_of p red s ∷ right_of q black u ∷ up) h (bs, cs, (bu, fit)) =
    let f = right_of p red s in
    let g = right_of q black u in
    red_parent_lem n t f g up h refl bs cs bu fit
      (λ k. insert_case1_lem (suc n) (repaint t f g) up k fit)
