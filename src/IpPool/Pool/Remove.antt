-- ===== src/IpPool/Pool/Remove.antt =====
-- `deleteRange` under the invariant of the pool.
use nsm_sdk.Prelude.{
  ℕ, zero, suc, ◌+◌, ◌<◌, ◌≡◌, ◌∙◌, ◌↔◌, ◌⊎◌, inl, inr, refl, sym, subst, arith, List, [], ◌++◌,
  length,
}
use nsm_sdk.IpPool.Address.{num}
use nsm_sdk.IpPool.Range.{Range, IsRange, sub}
use nsm_sdk.IpPool.Range.Algebra.{Holds, sub-Holds, sub-IsRange}
use nsm_sdk.IpPool.Tree.{Color, Tree, Spine}
use nsm_sdk.IpPool.Tree.Shape.{before, behind}
use nsm_sdk.IpPool.Chain.{Chain, Member, Member-bounds, Member-append, limit}
use nsm_sdk.IpPool.Pool.{
  Pool, Found, vacant, reached, meet_place, delete_range_loop, delete_range, shrink, node_count,
}
use nsm_sdk.IpPool.Pool.Walk.{Lands, Meets, meet_place_lem}
use nsm_sdk.IpPool.Pool.Valid.{
  ranges, Has, IsPool, node_count-length, root-Here, remove_node-Removed,
}
use nsm_sdk.IpPool.Pool.Add.{Offers, iff_trans, add_range?_lem}

-- Of the list without the range.
abbrev pub Less : Range → List Range → ℕ → Type 0
Less r rs n = Member n rs × (¬ Holds r n)

-- Nothing before and behind a free place lies in `r`.
apart_lem :
    (r : Range) (xs ys : List Range) (n : ℕ)
    → Chain 0 xs (num r.start + 1)
    → Chain (num r.end + 1) ys limit
    → Member n (xs ++ ys)
    → ¬ Holds r n
apart_lem r xs ys n c d m h = elim ((Member-append n xs ys).0 m) [
  | inl k ↦ omega (arith, Member-bounds n 0 (num r.start + 1) xs c k)
  | inr k ↦ omega (arith, Member-bounds n (num r.end + 1) limit ys d k)
]

or_right : {A B C : Type 0} → B ↔ C → (A ⊎ B) ↔ (A ⊎ C)
or_right (f, g) =
    (elim [ inl a ↦ inl a | inr b ↦ inr (f b) ], elim [ inl a ↦ inl a | inr c ↦ inr (g c) ])

-- A range `x` in the middle, whose rest is put back.
restored :
    {A B X R L M : Type 0}
    → (A ↔ (X ⊎ B))
    → ((L ⊎ M) ↔ (X × (¬ R)))
    → (M ⊎ (L ⊎ (B × (¬ R)))) ↔ (A × (¬ R))
restored (f, g) (h, k) = (
  elim [
    | inl m ↦ let (x, o) = h (inr m) in (g (inl x), o)
    | inr y ↦ elim y [
      | inl l ↦ let (x, o) = h (inl l) in (g (inl x), o)
      | inr (b, o) ↦ (g (inr b), o)
    ]
  ],
  λ (a, o). elim (f a) [
    | inl x ↦ elim (k (x, o)) [ inl l ↦ inr (inl l) | inr m ↦ inl m ]
    | inr b ↦ inr (inr (b, o))
  ],
)

module _ (f : ℕ) (r : Range) (p : Pool) (w : IsRange r) (v : IsPool p) where
  delete_vacant :
      (up : Spine)
      → meet_place r p.root [] ≡ vacant up
      → Lands (num r.start + 1) (num r.end + 1) (λ x. Meets x r) (ranges p) (vacant up)
      → Offers p (Less r (ranges p)) (delete_range_loop (suc f) r p)
  unfolding delete_range_loop
  delete_vacant up e (fit, same, below, above) = (
    p,
    rw (e, delete_range_loop),
    v,
    refl,
    λ n. (
      (λ m. (m, apart_lem r (before up) (behind up) n below above (subst (Member n) (sym same) m))),
      λ m. m.0,
    ),
  )

  delete_reached :
      (x : Range) (c : Color) (l s : Tree) (up : Spine)
      → meet_place r p.root [] ≡ reached x c l s up
      → Lands (num r.start + 1) (num r.end + 1) (λ x. Meets x r) (ranges p) (reached x c l s up)
      → ((q : Pool)
          → IsPool q
          → length (ranges q) < length (ranges p)
          → Offers q (Less r (ranges q)) (delete_range_loop f r q))
      → Offers p (Less r (ranges p)) (delete_range_loop (suc f) r p)
  unfolding delete_range_loop shrink
  delete_reached x c l s up e (m, b, fit, same, t) ih =
      let (u, i) = remove_node-Removed p m x c l s up v b fit same in
      let (q, k, a, g, has) = ih (shrink p u) i.valid (omega (arith, i.fewer)) in
      let (q', k', a', g', has') =
        add_range?_lem (sub x r).0 q (λ y z. sub-IsRange x r y t.range w t.cross (inl z)) a in
      let (z, k'', a'', g'', has'') =
        add_range?_lem (sub x r).1 q' (λ y z. sub-IsRange x r y t.range w t.cross (inr z)) a' in
      (
        z,
        rw (e, i.runs, k, k', delete_range_loop) k'',
        a'',
        g'' ∙ g' ∙ g,
        λ n. iff_trans (has'' n) (
            iff_trans (or_right (iff_trans (has' n) (or_right (has n))))
              (restored (i.members n) (sub-Holds x r n t.range w))),
      )

delete_found :
    (f : ℕ) (r : Range) (p : Pool) (found : Found)
    → IsRange r
    → IsPool p
    → meet_place r p.root [] ≡ found
    → Lands (num r.start + 1) (num r.end + 1) (λ x. Meets x r) (ranges p) found
    → ((q : Pool)
        → IsPool q
        → length (ranges q) < length (ranges p)
        → Offers q (Less r (ranges q)) (delete_range_loop f r q))
    → Offers p (Less r (ranges p)) (delete_range_loop (suc f) r p)
delete_found f r p (vacant up) w v e h ih = delete_vacant f r p w v up e h
delete_found f r p (reached x c l s up) w v e h ih = delete_reached f r p w v x c l s up e h ih

delete_range_loop_lem :
    (f : ℕ) (r : Range) (p : Pool)
    → IsRange r
    → IsPool p
    → length (ranges p) < f
    → Offers p (Less r (ranges p)) (delete_range_loop f r p)
delete_range_loop_lem zero r p w v h = absurd (omega arith)
delete_range_loop_lem (suc f) r p w v h =
    delete_found f r p (meet_place r p.root []) w v refl
      (meet_place_lem r w (ranges p) p.root [] (root-Here (num r.start + 1) (num r.end + 1) p v))
      (λ q y k. delete_range_loop_lem f r q w y (omega arith))

-- From a valid pool `deleteRange` takes exactly the addresses of the range: the call runs to its
-- end, with no nil dereference, and the pool stays a red-black tree of ranges in order that do not
-- adjoin.
pub delete_range_lem :
    (r : Range) (p : Pool)
    → IsRange r
    → IsPool p
    → Offers p (λ n. Has p n × (¬ Holds r n)) (delete_range r p)
unfolding delete_range
delete_range_lem r p w v =
    delete_range_loop_lem (suc (node_count p.root)) r p w v
      (omega (arith, node_count-length p.root))
