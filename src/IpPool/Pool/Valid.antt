-- ===== src/IpPool/Pool/Valid.antt =====
-- The invariant of the pool, and the removal and the insertion of one node under it.
use mathlib.Core.List.{append_assoc, append-nil}
use nsm_sdk.Prelude.{
  ℕ, suc, ◌+◌, ◌%◌, ◌^◌, ◌≡◌, ◌↔◌, ◌∙◌, ◌⊎◌, refl, sym, subst, ap, arith, List, [], ◌∷◌, ◌++◌,
  Option, some, length, length-append,
}
use nsm_sdk.IpPool.Address.{num}
use nsm_sdk.IpPool.Range.{Range, IsRange}
use nsm_sdk.IpPool.Range.Algebra.{Holds}
use nsm_sdk.IpPool.Tree.{Color, black, red, Tree, leaf, node, Spine, node_color, to_list}
use nsm_sdk.IpPool.Tree.Shape.{IsBalanced, Fits, IsRedBlack, before, behind}
use nsm_sdk.IpPool.Tree.Insert.{insert_case1}
use nsm_sdk.IpPool.Tree.Insert.Balance.{insert_case1_lem}
use nsm_sdk.IpPool.Tree.Delete.{remove_node}
use nsm_sdk.IpPool.Tree.Delete.Balance.{remove_node_lem}
use nsm_sdk.IpPool.Chain.{Chain, Member, Chain-join, Chain-drop, Member-middle, Member-apart, limit}
use nsm_sdk.IpPool.Pool.{Pool, shrink, grow, node_count}
use nsm_sdk.IpPool.Pool.Walk.{Here}

-- The addresses that the pool offers.
abbrev pub ranges : Pool → List Range
ranges p = to_list p.root

abbrev pub Has : Pool → ℕ → Type 0
Has p n = Member n (ranges p)

-- A red-black tree of ranges in order that neither meet nor adjoin, and the counter of its nodes.
pub record IsPool (p : Pool) : Type 0 where
  pub red_black : IsRedBlack p.root
  pub ordered : Chain 0 (ranges p) limit
  pub counted : p.size ≡ length (ranges p) % 2 ^ 64

pub node_count-length : (t : Tree) → node_count t ≡ length (to_list t)
unfolding node_count to_list
node_count-length leaf = refl
node_count-length (node v c l r) =
    omega (
      arith,
      node_count-length l,
      node_count-length r,
      length-append {0} (to_list l) (v ∷ to_list r),
    )

pub root-Here : (a b : ℕ) (p : Pool) → IsPool p → Here a b (ranges p) p.root []
unfolding before behind
root-Here a b p v = record {
  height = v.red_black.height;
  balanced = v.red_black.balanced;
  fits = rw (v.red_black.root_black) tt;
  content = append-nil (ranges p);
  ordered = v.ordered;
  below = tt;
  above = tt;
}

-- Of a list with one range taken out of its middle.
length-middle :
    (xs : List Range) (v : Range) (ys : List Range)
    → length (xs ++ v ∷ ys) ≡ suc (length (xs ++ ys))
length-middle xs v ys = omega (arith, length-append {0} xs (v ∷ ys), length-append {0} xs ys)

-- The pool after the removal of a node with the range `v`.
pub record Removed (p : Pool) (v : Range) (o : Option Tree) (u : Tree) : Type 0 where
  pub runs : o ≡ some u
  pub valid : IsPool (shrink p u)
  pub fewer : length (ranges p) ≡ suc (length (to_list u))
  pub members : (m : ℕ) → Member m (ranges p) ↔ (Holds v m ⊎ Member m (to_list u))
  pub apart : (m : ℕ) → Member m (to_list u) → ¬ Holds v m

Removed-list :
    (p : Pool) (xs : List Range) (v : Range) (ys : List Range) (o : Option Tree) (u : Tree)
    → IsPool p
    → ranges p ≡ xs ++ v ∷ ys
    → o ≡ some u
    → IsRedBlack u
    → to_list u ≡ xs ++ ys
    → Removed p v o u
unfolding shrink
Removed-list p xs v ys o u w e k t l =
    let fewer : length (ranges p) ≡ suc (length (to_list u)) =
      ap length e ∙ length-middle xs v ys ∙ ap (λ zs. suc (length zs)) (sym l) in
    record {
      runs = k;
      valid = record {
        red_black = t;
        ordered =
            subst (λ zs. Chain 0 zs limit) (sym l)
              (Chain-drop 0 limit xs v ys (subst (λ zs. Chain 0 zs limit) e w.ordered));
        counted = omega (arith, w.counted);
      };
      fewer = fewer;
      members = λ m.
          subst (λ zs. Member m zs ↔ (Holds v m ⊎ Member m (to_list u))) (sym e)
            (subst (λ zs. Member m (xs ++ v ∷ ys) ↔ (Holds v m ⊎ Member m zs)) (sym l)
              (Member-middle m xs v ys));
      apart = λ m k.
          Member-apart m 0 limit xs v ys (subst (λ zs. Chain 0 zs limit) e w.ordered)
            (subst (Member m) l k);
    }

pub remove_node-Removed :
    (p : Pool) (n : ℕ) (v : Range) (c : Color) (l r : Tree) (up : Spine)
    → IsPool p
    → IsBalanced n (node v c l r)
    → Fits n c up
    → before up ++ (to_list (node v c l r) ++ behind up) ≡ ranges p
    → (u : Tree) × Removed p v (remove_node (node v c l r) up) u
remove_node-Removed p n v c l r up w b f e =
    let (u, k, t, q) = remove_node_lem n v c l r up b f in
    (
      u,
      Removed-list p (before up ++ to_list l) v (to_list r ++ behind up) _ u w (sym e ∙ whole) k t
          (q ∙ simp append_assoc),
    )
  where
    whole :
        before up ++ (to_list (node v c l r) ++ behind up)
        ≡ (before up ++ to_list l) ++ v ∷ (to_list r ++ behind up)
    whole = unfold to_list in simp append_assoc

-- The pool after the insertion of a range at a free place.
pub record Inserted (p : Pool) (r : Range) (o : Option Tree) (u : Tree) : Type 0 where
  pub runs : o ≡ some u
  pub valid : IsPool (grow p u)
  pub members : (m : ℕ) → Member m (to_list u) ↔ (Holds r m ⊎ Member m (ranges p))

pub insert_case1-Inserted :
    (p : Pool) (r : Range) (up : Spine)
    → IsPool p
    → IsRange r
    → Fits 0 black up
    → before up ++ behind up ≡ ranges p
    → Chain 0 (before up) (num r.start)
    → Chain (num r.end + 2) (behind up) limit
    → (u : Tree) × Inserted p r (insert_case1 (node r red leaf leaf) up) u
unfolding grow node_color to_list
insert_case1-Inserted p r up w v f e below above =
    let (u, k, t, q) = insert_case1_lem 0 (node r red leaf leaf) up (refl, refl, refl, refl) f in
    (
      u,
      record {
        runs = k;
        valid = record {
          red_black = t;
          ordered =
              subst (λ zs. Chain 0 zs limit) (sym q)
                (Chain-join 0 limit (before up) r (behind up) below (omega arith) v
                  (omega (arith, v.end_word)) above);
          counted =
              omega (
                arith,
                w.counted,
                ap length q,
                length-middle (before up) r (behind up),
                ap length e,
              );
        };
        members = λ m.
            subst (λ zs. Member m zs ↔ (Holds r m ⊎ Member m (ranges p))) (sym q)
              (subst (λ zs. Member m (before up ++ r ∷ behind up) ↔ (Holds r m ⊎ Member m zs)) e
                (Member-middle m (before up) r (behind up)));
      },
    )
