-- ===== src/IpPool/Pool/Access/Query.antt =====
-- What `Contains` and `ContainsNet` answer on a valid pool.
use native.Mathlib.Decide.{dec_lt}
use nsm_sdk.Prelude.{
  ℕ, ◌+◌, ◌-◌, ◌≤◌, ◌<◌, ◌≡◌, ◌↔◌, ◌⊎◌, inl, inr, refl, arith, List, ◌∷◌, ◌++◌, Option, none, some,
  true, not, ◌&&◌,
}
use nsm_sdk.IpPool.Address.{Address, IsWord, num, Place, before, at, after}
use nsm_sdk.IpPool.Range.{
  Range, IsRange, compare, compare_range, Relation, far_before, next_before, crossing, next_after,
  far_after, sub,
}
use nsm_sdk.IpPool.Range.Order.{Stands, compare-Stands, Lies, compare_range-Lies}
use nsm_sdk.IpPool.Range.Algebra.{Holds, Holds?, sub-Holds, sub-IsRange}
use nsm_sdk.IpPool.Tree.{Color, Tree, leaf, node, to_list}
use nsm_sdk.IpPool.Chain.{
  Chain, Chain-split, Member, Member-middle, Member-append, Member-bounds, limit,
}
use nsm_sdk.IpPool.Pool.{Pool, lookup}
use nsm_sdk.IpPool.Pool.Valid.{Has, IsPool}
use nsm_sdk.IpPool.Pool.Access.{is_some, contains_address, contains_range, contains_net, IpNet}

-- Of an address on one side of the range of a node, the ranges on the other side hold nothing.
module _ (lo hi n : ℕ) (v : Range) (xs ys : List Range) (c : Chain lo (xs ++ v ∷ ys) hi) where
  Member-left : n < num v.start → Member n (xs ++ v ∷ ys) ↔ Member n xs
  Member-left h =
      let (a, _, w, _, b) = Chain-split lo hi xs v ys c in
      let (f, g) = Member-append n xs (v ∷ ys) in
      let o = w.ordered in
      (
        (λ m. elim (f m) [
          | inl k ↦ k
          | inr k ↦ elim k [
            | inl x ↦ absurd (omega arith)
            | inr y ↦ absurd (omega (arith, Member-bounds n (num v.end + 2) hi ys b y))
          ]
        ]),
        λ m. g (inl m),
      )

  Member-right : num v.end < n → Member n (xs ++ v ∷ ys) ↔ Member n ys
  Member-right h =
      let (a, _, w, _, b) = Chain-split lo hi xs v ys c in
      let (f, g) = Member-append n xs (v ∷ ys) in
      let o = w.ordered in
      (
        (λ m. elim (f m) [
          | inl k ↦ absurd (omega (arith, Member-bounds n lo (num v.start) xs a k))
          | inr k ↦ elim k [ inl x ↦ absurd (omega arith) | inr y ↦ y ]
        ]),
        λ m. g (inr (inr m)),
      )

  -- Next to the range stands no address of the list.
  Member-gap : (n + 1 ≡ num v.start) ⊎ (n ≡ num v.end + 1) → ¬ Member n (xs ++ v ∷ ys)
  Member-gap h m =
      let (a, _, w, _, b) = Chain-split lo hi xs v ys c in
      let o = w.ordered in
      elim ((Member-append n xs (v ∷ ys)).0 m) [
        | inl k ↦ omega (arith, Member-bounds n lo (num v.start) xs a k)
        | inr k ↦ elim k [
          | inl x ↦ omega arith
          | inr y ↦ omega (arith, Member-bounds n (num v.end + 2) hi ys b y)
        ]
      ]

lookup_step :
    (lo hi : ℕ) (ip : Address) (v : Range) (c : Color) (l r : Tree) (k : Place)
    → compare v ip ≡ k
    → Stands v (num ip) k
    → Chain lo (to_list l ++ v ∷ to_list r) hi
    → (is_some (lookup ip l) ≡ true) ↔ Member (num ip) (to_list l)
    → (is_some (lookup ip r) ≡ true) ↔ Member (num ip) (to_list r)
    → (is_some (lookup ip (node v c l r)) ≡ true) ↔ Member (num ip) (to_list (node v c l r))
unfolding lookup is_some to_list
lookup_step lo hi ip v c l r at e h ch left right =
    rw (e, lookup) ((λ _. (Member-middle (num ip) (to_list l) v (to_list r)).1 (inl h)), λ _. refl)
lookup_step lo hi ip v c l r before e h ch left right =
    let (f, g) = Member-left lo hi (num ip) v (to_list l) (to_list r) ch h in
    rw (e, lookup) ((λ x. g (left.0 x)), λ m. left.1 (f m))
lookup_step lo hi ip v c l r after e h ch left right =
    let (f, g) = Member-right lo hi (num ip) v (to_list l) (to_list r) ch h in
    rw (e, lookup) ((λ x. g (right.0 x)), λ m. right.1 (f m))

lookup_lem :
    (lo hi : ℕ) (ip : Address) (t : Tree)
    → IsWord ip
    → Chain lo (to_list t) hi
    → (is_some (lookup ip t) ≡ true) ↔ Member (num ip) (to_list t)
unfolding to_list
lookup_lem lo hi ip leaf w c = unfold lookup is_some in ((λ e. cc), λ m. absurd m)
lookup_lem lo hi ip (node v c l r) w ch =
    let (a, _, x, _, b) = Chain-split lo hi (to_list l) v (to_list r) ch in
    lookup_step lo hi ip v c l r (compare v ip) refl (compare-Stands v ip x w) ch
      (lookup_lem lo (num v.start) ip l w a) (lookup_lem (num v.end + 2) hi ip r w b)

-- A valid pool contains an address by `Contains` exactly when one of its ranges holds it.
pub contains_address_lem :
    (ip : Address) (p : Pool)
    → IsWord ip
    → IsPool p
    → (contains_address ip p ≡ true) ↔ Has p (num ip)
unfolding contains_address
contains_address_lem ip p w v = lookup_lem 0 limit ip p.root w v.ordered

-- All addresses of the range lie in the list.
abbrev pub Within : Range → List Range → Type 0
Within r rs = (n : ℕ) → Holds r n → Member n rs

none_of {ℓ} : {A : Type ℓ} (o : Option A) → ((x : A) → o ≡ some x → ⊥) → o ≡ none
none_of none h = refl
none_of (some x) h = absurd (h x refl)

module _ (r v : Range) (w : IsRange r) (x : IsRange v) (cross : compare_range r v ≡ crossing) where
  parts_none :
      num v.start ≤ num r.start
      → num r.end ≤ num v.end
      → ((sub r v).0 ≡ none) × ((sub r v).1 ≡ none)
  parts_none h k =
      (none_of (sub r v).0 (λ y e. empty y (inl e)), none_of (sub r v).1 (λ y e. empty y (inr e)))
    where
      inside : (n : ℕ) → Holds? (sub r v).0 n ⊎ Holds? (sub r v).1 n → ⊥
      inside n m = let ((a, b), out) = (sub-Holds r v n w x).0 m in out (omega arith, omega arith)

      empty : (y : Range) → ((sub r v).0 ≡ some y) ⊎ ((sub r v).1 ≡ some y) → ⊥
      empty y (inl e) =
          let o = (sub-IsRange r v y w x cross (inl e)).ordered in
          inside (num y.start) (inl (rw e (omega arith)))
      empty y (inr e) =
          let o = (sub-IsRange r v y w x cross (inr e)).ordered in
          inside (num y.start) (inr (rw e (omega arith)))

  none_parts : (sub r v).0 ≡ none → (sub r v).1 ≡ none → (n : ℕ) → Holds r n → Holds v n
  none_parts e f n h =
      let out : ¬ (¬ Holds v n) =
        λ o. elim ((sub-Holds r v n w x).1 (h, o)) [ inl m ↦ rw e at m | inr m ↦ rw f at m ] in
      elim (dec_lt n (num v.start)) [
        | yes a ↦ absurd (out (λ o. omega arith))
        | no a ↦ elim (dec_lt (num v.end) n) [
          | yes b ↦ absurd (out (λ o. omega arith))
          | no b ↦ (omega arith, omega arith)
        ]
      ]

cross_lem :
    (r v : Range) (k : Relation)
    → compare_range r v ≡ k
    → Lies r v k
    → IsRange r
    → IsRange v
    → num r.start ≤ num v.end
    → num v.start ≤ num r.end
    → compare_range r v ≡ crossing
cross_lem r v crossing e h x y a b = e
cross_lem r v far_before e h x y a b = absurd (omega arith)
cross_lem r v next_before e h x y a b = absurd (omega arith)
cross_lem r v next_after e h x y a b = absurd (omega arith)
cross_lem r v far_after e h x y a b = absurd (omega arith)

no_parts :
    {A B : Type 0} (l : Option A) (m : Option B)
    → (not (is_some l) && not (is_some m)) ≡ true
    → (l ≡ none) × (m ≡ none)
unfolding is_some
no_parts l m h = ground arith

-- The node meets the range: it alone can hold it, for next to it no address is offered.
crossing_lem :
    (lo hi : ℕ) (r v : Range) (xs ys : List Range)
    → IsRange r
    → Chain lo (xs ++ v ∷ ys) hi
    → Lies v r crossing
    → ((not (is_some (sub r v).0) && not (is_some (sub r v).1)) ≡ true) ↔ Within r (xs ++ v ∷ ys)
unfolding is_some
crossing_lem lo hi r v xs ys w c h =
    let (_, _, x, _, _) = Chain-split lo hi xs v ys c in
    let cross =
      cross_lem r v (compare_range r v) refl (compare_range-Lies r v w x) w x (omega arith)
        (omega arith) in
    (
      (λ e.
          let (a, b) = no_parts (sub r v).0 (sub r v).1 e in
          λ n k. (Member-middle n xs v ys).1 (inl (none_parts r v w x cross a b n k))),
      λ all.
          let o = x.ordered in
          let left : num v.start ≤ num r.start = omega (arith, left_gap all) in
          let right : num r.end ≤ num v.end = omega (arith, right_gap all) in
          let (a, b) = parts_none r v w x cross left right in rw (a, b),
    )
  where
    left_gap : Within r (xs ++ v ∷ ys) → ¬ (num r.start < num v.start)
    left_gap all k =
        Member-gap lo hi (num v.start - 1) v xs ys c (inl (omega arith))
          (all (num v.start - 1) (omega arith))

    right_gap : Within r (xs ++ v ∷ ys) → ¬ (num v.end < num r.end)
    right_gap all k =
        Member-gap lo hi (num v.end + 1) v xs ys c (inr refl) (all (num v.end + 1) (omega arith))

left-Within :
    (lo hi : ℕ) (r v : Range) (l s : Tree)
    → Chain lo (to_list l ++ v ∷ to_list s) hi
    → num r.end < num v.start
    → (contains_range r l ≡ true) ↔ Within r (to_list l)
    → (contains_range r l ≡ true) ↔ Within r (to_list l ++ v ∷ to_list s)
left-Within lo hi r v l s ch h (f, g) = (
  (λ e n k. (Member-left lo hi n v (to_list l) (to_list s) ch (omega arith)).1 (f e n k)),
  λ all. g (λ n k. (Member-left lo hi n v (to_list l) (to_list s) ch (omega arith)).0 (all n k)),
)

right-Within :
    (lo hi : ℕ) (r v : Range) (l s : Tree)
    → Chain lo (to_list l ++ v ∷ to_list s) hi
    → num v.end < num r.start
    → (contains_range r s ≡ true) ↔ Within r (to_list s)
    → (contains_range r s ≡ true) ↔ Within r (to_list l ++ v ∷ to_list s)
right-Within lo hi r v l s ch h (f, g) = (
  (λ e n k. (Member-right lo hi n v (to_list l) (to_list s) ch (omega arith)).1 (f e n k)),
  λ all. g (λ n k. (Member-right lo hi n v (to_list l) (to_list s) ch (omega arith)).0 (all n k)),
)

contains_step :
    (lo hi : ℕ) (r v : Range) (c : Color) (l s : Tree) (k : Relation)
    → compare_range v r ≡ k
    → Lies v r k
    → IsRange r
    → Chain lo (to_list l ++ v ∷ to_list s) hi
    → (contains_range r l ≡ true) ↔ Within r (to_list l)
    → (contains_range r s ≡ true) ↔ Within r (to_list s)
    → (contains_range r (node v c l s) ≡ true) ↔ Within r (to_list (node v c l s))
unfolding contains_range to_list
contains_step lo hi r v c l s crossing e h w ch left right =
    rw (e, contains_range) (crossing_lem lo hi r v (to_list l) (to_list s) w ch h)
contains_step lo hi r v c l s far_before e h w ch left right =
    rw (e, contains_range) (left-Within lo hi r v l s ch (omega arith) left)
contains_step lo hi r v c l s next_before e h w ch left right =
    rw (e, contains_range) (left-Within lo hi r v l s ch (omega arith) left)
contains_step lo hi r v c l s next_after e h w ch left right =
    rw (e, contains_range) (right-Within lo hi r v l s ch (omega arith) right)
contains_step lo hi r v c l s far_after e h w ch left right =
    rw (e, contains_range) (right-Within lo hi r v l s ch (omega arith) right)

contains_range_lem :
    (lo hi : ℕ) (r : Range) (t : Tree)
    → IsRange r
    → Chain lo (to_list t) hi
    → (contains_range r t ≡ true) ↔ Within r (to_list t)
unfolding to_list
contains_range_lem lo hi r leaf w c =
    let o = w.ordered in
    unfold contains_range in ((λ e. cc), λ all. absurd (all (num r.start) (omega arith)))
contains_range_lem lo hi r (node v c l s) w ch =
    let (a, _, x, _, b) = Chain-split lo hi (to_list l) v (to_list s) ch in
    contains_step lo hi r v c l s (compare_range v r) refl (compare_range-Lies v r x w) w ch
      (contains_range_lem lo (num v.start) r l w a) (contains_range_lem (num v.end + 2) hi r s w b)

-- A valid pool contains a network by `ContainsNet` exactly when it offers all its addresses.
pub contains_net_lem :
    (net : IpNet) (p : Pool)
    → IsRange net.range
    → IsPool p
    → (contains_net (some net) p ≡ true) ↔ ((n : ℕ) → Holds net.range n → Has p n)
unfolding contains_net
contains_net_lem net p w v = contains_range_lem 0 limit net.range p.root w v.ordered
