-- ===== src/IpPool/Tree/Delete/Balance.antt =====
-- `removeNode` on balanced trees: no nil dereference, the tree stays balanced, and of the ranges in
-- order just the node's is gone.
use mathlib.Core.List.{append_assoc, append-nil}
use nsm_sdk.Prelude.{
  ℕ, zero, suc, ◌≡◌, ◌∙◌, refl, sym, ap, ◌⊎◌, inl, inr, List, [], ◌∷◌, ◌++◌, Option, none, some,
}
use nsm_sdk.IpPool.Range.{Range}
use nsm_sdk.IpPool.Tree.{
  Color, black, red, Tree, leaf, node, left_of, right_of, Spine, node_color, to_list,
}
use nsm_sdk.IpPool.Tree.Shape.{
  IsBalanced, Fits, Fits-weaken, IsRedBlack, plug-IsRedBlack, left-Fits, right-Fits, before, behind,
  to_list-plug,
}
use nsm_sdk.IpPool.Tree.Delete.{
  delete_case1, replace, remove_single, maximum_node, value_or, remove_node,
}
use nsm_sdk.IpPool.Tree.Delete.Rotations.{Accepts}
use nsm_sdk.IpPool.Tree.Delete.Cases.{delete_case1_lem}

-- The outcome of a removal: a balanced tree with a black root and the given ranges.
abbrev pub Leaves : List Range → Option Tree → Type 0
Leaves rs o = (u : Tree) × (o ≡ some u) × IsRedBlack u × (to_list u ≡ rs)

replace_lem :
    (n : ℕ) (up : Spine) (x : Tree)
    → Accepts n up
    → IsBalanced n x
    → IsRedBlack (replace up x) × (to_list (replace up x) ≡ before up ++ (to_list x ++ behind up))
unfolding replace node_color before behind to_list
replace_lem n [] leaf h b = (record { height = n; balanced = b; root_black = refl }, refl)
replace_lem n [] (node v red l r) h (bl, br, cl, cr) = (
  record { height = suc n; balanced = (bl, br); root_black = refl },
  sym (append-nil (to_list (node v red l r))),
)
replace_lem n [] (node v black l r) h b = (
  record { height = n; balanced = b; root_black = refl },
  sym (append-nil (to_list (node v black l r))),
)
replace_lem n (f ∷ up) leaf h b = (
  plug-IsRedBlack n black (f ∷ up) leaf (Fits-weaken n red (f ∷ up) h) b refl,
  to_list-plug (f ∷ up) leaf,
)
replace_lem n (f ∷ up) (node v black l r) h b = (
  plug-IsRedBlack n black (f ∷ up) (node v black l r) (Fits-weaken n red (f ∷ up) h) b refl,
  to_list-plug (f ∷ up) (node v black l r),
)
replace_lem n (f ∷ up) (node v red l r) h b = (
  plug-IsRedBlack n red (f ∷ up) (node v red l r) h b refl,
  to_list-plug (f ∷ up) (node v red l r),
)

Fits-Accepts : (n : ℕ) (up : Spine) → Fits n red up → Accepts n up
Fits-Accepts n [] h = tt
Fits-Accepts n (f ∷ up) h = h

red-Leaves :
    (n : ℕ) (up : Spine) (x : Tree)
    → IsBalanced n x
    → Fits n red up
    → Leaves (before up ++ (to_list x ++ behind up)) (some (replace up x))
red-Leaves n up x b h =
    let (t, l) = replace_lem n up x (Fits-Accepts n up h) b in (replace up x, refl, t, l)

black-Leaves :
    (n : ℕ) (up : Spine) (x : Tree)
    → IsBalanced n x
    → Fits (suc n) black up
    → Leaves
        (before up ++ (to_list x ++ behind up))
        (elim (delete_case1 up) [ none ↦ none | some up' ↦ some (replace up' x) ])
black-Leaves n up x b h =
    let (up', k, a, e, g) = delete_case1_lem n up h in
    let (t, l) = replace_lem n up' x a b in
    (
      replace up' x,
      rw k,
      t,
      l ∙ ap (λ p. p ++ (to_list x ++ behind up')) e ∙ ap (λ q. before up ++ (to_list x ++ q)) g,
    )

remove_single_lem :
    (n : ℕ) (v : Range) (c : Color) (l r : Tree) (up : Spine)
    → IsBalanced n (node v c l r)
    → Fits n c up
    → (l ≡ leaf) ⊎ (r ≡ leaf)
    → Leaves
        (before up ++ ((to_list l ++ to_list r) ++ behind up))
        (remove_single (node v c l r) up)
unfolding remove_single to_list
remove_single_lem n v red l leaf up (bl, br, _, _) h e = rw append-nil (red-Leaves n up l bl h)
remove_single_lem n v red leaf (node w d a b) up (bl, br, _, _) h e =
    red-Leaves n up (node w d a b) br h
remove_single_lem n v red (node x f g k) (node w d a b) up bal h e =
    absurd (elim e [ inl p ↦ cc | inr p ↦ cc ])
remove_single_lem (suc n) v black l leaf up (bl, br) h e = rw append-nil (black-Leaves n up l bl h)
remove_single_lem (suc n) v black leaf (node w d a b) up (bl, br) h e =
    black-Leaves n up (node w d a b) br h
remove_single_lem (suc n) v black (node x f g k) (node w d a b) up bal h e =
    absurd (elim e [ inl p ↦ cc | inr p ↦ cc ])
remove_single_lem zero v black l r up bal h e = absurd bal

-- `maximumNode` ends at a node with no right child, whose range is the last of the subtree.
maximum_node_lem :
    (n : ℕ) (v : Range) (c : Color) (l r : Tree) (up : Spine)
    → IsBalanced n (node v c l r)
    → Fits n c up
    → (m : ℕ) × (w : Range) × (d : Color) × (a : Tree) × (new : Spine) × (maximum_node
          (node v c l r)
          up
        ≡ (node w d a leaf, new))
      × IsBalanced m (node w d a leaf)
      × Fits m d new
      × (before new ++ (to_list a ++ w ∷ []) ≡ before up ++ to_list (node v c l r))
      × (behind new ≡ behind up)
unfolding maximum_node before behind to_list node_color
maximum_node_lem n v c l leaf up b h = (n, v, c, l, up, refl, b, h, refl, refl)
maximum_node_lem n v c l (node x e f g) up b h =
    let (m, b', h') = right-Fits n v c l (node x e f g) up b h in
    let (k, w, d, a, new, eq, bal, fit, bef, beh) =
      maximum_node_lem m x e f g (right_of v c l ∷ up) b' h' in
    (k, w, d, a, new, eq, bal, fit, bef ∙ simp append_assoc, beh)

maximum_node_same :
    (v : Range) (c : Color) (l r : Tree) (up up' : Spine)
    → (maximum_node (node v c l r) up).0 ≡ (maximum_node (node v c l r) up').0
unfolding maximum_node
maximum_node_same v c l leaf up up' = refl
maximum_node_same v c l (node x e f g) up up' =
    maximum_node_same x e f g (right_of v c l ∷ up) (right_of v c l ∷ up')

pub IsBalanced-value :
    (n : ℕ) (v w : Range) (c : Color) (l r : Tree)
    → IsBalanced n (node v c l r)
    → IsBalanced n (node w c l r)
IsBalanced-value n v w red l r b = b
IsBalanced-value zero v w black l r b = b
IsBalanced-value (suc n) v w black l r b = b

regroup :
    (b q o l r g h : List Range) (y p : Range)
    → b ++ (q ++ y ∷ []) ≡ o ++ l
    → p ≡ y
    → h ≡ p ∷ r ++ g
    → b ++ ((q ++ []) ++ h) ≡ o ++ ((l ++ r) ++ g)
regroup b q o l r g h y p bef same beh =
    ap (λ t. b ++ ((q ++ []) ++ t)) (beh ∙ ap (λ t. t ∷ r ++ g) same)
    ∙ gather
    ∙ ap (λ t. t ++ (r ++ g)) bef
    ∙ simp append_assoc
  where
    gather : b ++ ((q ++ []) ++ (y ∷ r ++ g)) ≡ (b ++ (q ++ y ∷ [])) ++ (r ++ g)
    gather = simp (append-nil, append_assoc)

-- At any node of a balanced tree `removeNode` runs to its end, leaves a balanced tree with a black
-- root, and takes just the range of that node out.
pub remove_node_lem :
    (n : ℕ) (v : Range) (c : Color) (l r : Tree) (up : Spine)
    → IsBalanced n (node v c l r)
    → Fits n c up
    → Leaves (before up ++ ((to_list l ++ to_list r) ++ behind up)) (remove_node (node v c l r) up)
unfolding remove_node before behind to_list
remove_node_lem n v c leaf r up b h = remove_single_lem n v c leaf r up b h (inl refl)
remove_node_lem n v c (node w d a e) leaf up b h =
    remove_single_lem n v c (node w d a e) leaf up b h (inr refl)
remove_node_lem n v c (node w d a e) (node x f g k) up b h =
    let pred = value_or v (maximum_node (node w d a e) []).0 in
    let (m, b', h') =
      left-Fits n pred c (node w d a e) (node x f g k) up (IsBalanced-value n v pred c _ _ b) h in
    let (i, y, z, q, new, eq, bal, fit, bef, beh) =
      maximum_node_lem m w d a e (left_of pred c (node x f g k) ∷ up) b' h' in
    let (u, s, t, l) = remove_single_lem i y z q leaf new bal fit (inr refl) in
    let same : pred ≡ y =
      ap (value_or v)
        (maximum_node_same w d a e [] (left_of pred c (node x f g k) ∷ up) ∙ ap (λ t. t.0) eq) in
    (
      u,
      ap (λ t. remove_single t.0 t.1) eq ∙ s,
      t,
      l
          ∙ regroup (before new) (to_list q) (before up) (to_list (node w d a e))
              (to_list (node x f g k)) (behind up) (behind new) y pred bef same beh,
    )
