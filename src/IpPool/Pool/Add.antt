-- ===== src/IpPool/Pool/Add.antt =====
-- `addRange` under the invariant of the pool.
use nsm_sdk.Prelude.{
  ℕ, zero, suc, ◌+◌, ◌<◌, ◌≡◌, ◌↔◌, ◌⊎◌, inl, inr, refl, arith, List, [], Option, none, some,
  length,
}
use nsm_sdk.IpPool.Address.{num}
use nsm_sdk.IpPool.Range.{Range, IsRange, unite}
use nsm_sdk.IpPool.Range.Algebra.{Holds, Holds?, unite-IsRange, unite-Holds}
use nsm_sdk.IpPool.Tree.{Color, Tree, Spine, to_list}
use nsm_sdk.IpPool.Chain.{Member}
use nsm_sdk.IpPool.Pool.{
  Pool, Found, vacant, reached, add_place, add_range_loop, add_range, add_range?, shrink, grow,
  node_count,
}
use nsm_sdk.IpPool.Pool.Walk.{Lands, Touches, add_place_lem}
use nsm_sdk.IpPool.Pool.Valid.{
  ranges, Has, IsPool, node_count-length, root-Here, remove_node-Removed, insert_case1-Inserted,
}

-- The call runs to its end, keeps the invariant and the address length, and leaves a pool that
-- offers the addresses which satisfy `P`.
abbrev pub Offers : Pool → (ℕ → Type 0) → Option Pool → Type 0
Offers p P o =
    (q : Pool) × (o ≡ some q) × IsPool q × (q.ip_length ≡ p.ip_length) × ((n : ℕ) → Has q n ↔ P n)

-- The address is one of the range or one of the list.
abbrev pub Joined : Range → List Range → ℕ → Type 0
Joined r rs n = Holds r n ⊎ Member n rs

Joined-through :
    (r v : Range) (rs us : List Range) (n : ℕ) (w : Range)
    → (Holds w n ↔ (Holds v n ⊎ Holds r n))
    → (Member n rs ↔ (Holds v n ⊎ Member n us))
    → (Joined w us n ↔ Joined r rs n)
Joined-through r v rs us n w (f, g) (h, k) = (
  elim [ inl x ↦ elim (f x) [ inl y ↦ inr (k (inl y)) | inr y ↦ inl y ] | inr x ↦ inr (k (inr x)) ],
  elim [ inl x ↦ inl (g (inr x)) | inr x ↦ elim (h x) [ inl y ↦ inl (g (inl y)) | inr y ↦ inr y ] ],
)

pub iff_trans : {A B C : Type 0} → A ↔ B → B ↔ C → A ↔ C
iff_trans (f, g) (h, k) = ((λ a. h (f a)), λ c. g (k c))

module _ (f : ℕ) (r : Range) (p : Pool) (w : IsRange r) (v : IsPool p) where
  add_vacant :
      (up : Spine)
      → add_place r p.root [] ≡ vacant up
      → Lands (num r.start) (num r.end + 2) (λ x. Touches x r) (ranges p) (vacant up)
      → Offers p (Joined r (ranges p)) (add_range_loop (suc f) r p)
  unfolding add_range_loop grow
  add_vacant up e (fit, same, below, above) =
      let (u, i) = insert_case1-Inserted p r up v w fit same below above in
      (grow p u, rw (e, i.runs, add_range_loop), i.valid, refl, i.members)

  add_reached :
      (x : Range) (c : Color) (l s : Tree) (up : Spine)
      → add_place r p.root [] ≡ reached x c l s up
      → Lands (num r.start) (num r.end + 2) (λ x. Touches x r) (ranges p) (reached x c l s up)
      → ((q : Pool)
          → IsPool q
          → length (ranges q) < length (ranges p)
          → Offers q (Joined (unite x r) (ranges q)) (add_range_loop f (unite x r) q))
      → Offers p (Joined r (ranges p)) (add_range_loop (suc f) r p)
  unfolding add_range_loop shrink
  add_reached x c l s up e (m, b, fit, same, t) ih =
      let (u, i) = remove_node-Removed p m x c l s up v b fit same in
      let (q, k, a, g, has) = ih (shrink p u) i.valid (omega (arith, i.fewer)) in
      (
        q,
        rw (e, i.runs, add_range_loop) k,
        a,
        g,
        λ n. iff_trans (has n) (
            Joined-through r x (ranges p) (to_list u) n (unite x r)
              (unite-Holds x r n t.range w t.start_le t.end_ge) (i.members n)),
      )

add_found :
    (f : ℕ) (r : Range) (p : Pool) (found : Found)
    → IsRange r
    → IsPool p
    → add_place r p.root [] ≡ found
    → Lands (num r.start) (num r.end + 2) (λ x. Touches x r) (ranges p) found
    → ((x : Range) (q : Pool)
        → IsRange x
        → IsPool q
        → length (ranges q) < length (ranges p)
        → Offers q (Joined x (ranges q)) (add_range_loop f x q))
    → Offers p (Joined r (ranges p)) (add_range_loop (suc f) r p)
add_found f r p (vacant up) w v e h ih = add_vacant f r p w v up e h
add_found f r p (reached x c l s up) w v e h ih =
    add_reached f r p w v x c l s up e h (λ q. ih (unite x r) q (unite-IsRange x r h.4.range w).0)

add_range_loop_lem :
    (f : ℕ) (r : Range) (p : Pool)
    → IsRange r
    → IsPool p
    → length (ranges p) < f
    → Offers p (Joined r (ranges p)) (add_range_loop f r p)
add_range_loop_lem zero r p w v h = absurd (omega arith)
add_range_loop_lem (suc f) r p w v h =
    add_found f r p (add_place r p.root []) w v refl
      (add_place_lem r w (ranges p) p.root [] (root-Here (num r.start) (num r.end + 2) p v))
      (λ x q y z k. add_range_loop_lem f x q y z (omega arith))

-- To a valid pool `addRange` adds exactly the addresses of the range: the call runs to its end, with
-- no nil dereference, and the pool stays a red-black tree of ranges in order that do not adjoin.
pub add_range_lem :
    (r : Range) (p : Pool)
    → IsRange r
    → IsPool p
    → Offers p (λ n. Holds r n ⊎ Has p n) (add_range r p)
unfolding add_range
add_range_lem r p w v =
    add_range_loop_lem (suc (node_count p.root)) r p w v (omega (arith, node_count-length p.root))

pub add_range?_lem :
    (o : Option Range) (p : Pool)
    → ((r : Range) → o ≡ some r → IsRange r)
    → IsPool p
    → Offers p (λ n. Holds? o n ⊎ Has p n) (add_range? o p)
add_range?_lem none p w v = (p, refl, v, refl, λ n. (inr, elim [ inl h ↦ absurd h | inr m ↦ m ]))
add_range?_lem (some r) p w v = add_range_lem r p (w r refl) v
