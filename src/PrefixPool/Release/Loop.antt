-- ===== src/PrefixPool/Release/Loop.antt =====
-- pkg/tools/prefixpool/prefixpool.go: the passes of `releasePrefixes` end and lose no address.
use nsm_sdk.Prelude.{
  ℕ, zero, suc, ◌+◌, ◌-◌, ◌≤◌, ◌<◌, ◌≡◌, refl, inl, inr, List, [], ◌∷◌, ◌++◌, false, ltb, ◌==◌,
  Bool-cases, arith, length, length-append,
}
use nsm_sdk.PrefixPool.{Ip, Prefix, parted}
use nsm_sdk.PrefixPool.Halves.{covers, covers-append, IsNetwork, network_eq}
use nsm_sdk.PrefixPool.Release.{
  Bases, nets_of, merge_nets, Groups, group_at, put_group, group_all, merge_group, merge_pass,
  all_nets, merge_loop,
}
use nsm_sdk.PrefixPool.Release.Merged.{IsProper}
use nsm_sdk.PrefixPool.Release.Groups.{AllOf, AllOf-append, AllBases-nets}
use nsm_sdk.PrefixPool.Release.Passes.{
  Merges, merge_nets_lem, AllGroups, group_at-AllOf, put_group-AllGroups, put_group-covers,
  put_group-length,
}
use nsm_sdk.PrefixPool.Release.Orders.{
  IsOrder, covers-Permᴰ, length-Permᴰ, all_nets-covers, all_nets-length, ordered-AllOf,
  ordered-AllGroups,
}

-- A pass moves networks from the old groups to the new ones; each change leaves one less.
abbrev pub Passes : List Prefix → Groups × ℕ → Groups × ℕ → Type 0
Passes nets (new, changes) (new', changes') =
    AllGroups new'
    × ((a : Ip) → covers (all_nets new') a ≡ covers (all_nets new) a + covers nets a)
    × (length (all_nets new') + changes' ≡ length (all_nets new) + length nets + changes)

-- Networks whose addresses have no more bits than they say.
abbrev pub AllProper : List Prefix → Type 0
AllProper [] = Unit {0}
AllProper (p ∷ ps) = (IsNetwork p × IsProper p) × AllProper ps

pub AllProper-append : (ps qs : List Prefix) → AllProper ps → AllProper qs → AllProper (ps ++ qs)
AllProper-append [] qs f g = g
AllProper-append (p ∷ ps) qs (h, f) g = (h, AllProper-append ps qs f g)

AllOf-AllProper : (l : ℕ) (ps : List Prefix) → AllOf l ps → AllProper ps
AllOf-AllProper l [] f = tt
AllOf-AllProper l (p ∷ ps) ((n, w, e), f) = ((n, w), AllOf-AllProper l ps f)

AllGroups-AllProper : (gs : Groups) → AllGroups gs → AllProper (all_nets gs)
AllGroups-AllProper [] f = tt
AllGroups-AllProper ((l, ns) ∷ gs) (g, f) =
    AllProper-append ns (all_nets gs) (AllOf-AllProper l ns g) (AllGroups-AllProper gs f)

module _ (order : List Prefix → List Prefix) (o : IsOrder order) where
  merge_group_lem :
      (len : ℕ) (nets : List Prefix) (new : Groups) (changes : ℕ)
      → AllOf len nets
      → AllGroups new
      → ((a : Ip) → covers (all_nets new) a + covers nets a ≤ 1)
      → Passes nets (new, changes) (merge_group order len nets (new, changes))
  unfolding merge_group
  merge_group_lem len nets new changes f g d = elim (Bool-cases (ltb (length all) 2)) [
    | inl e ↦
        rw (merge_group, e)
          (
            put_group-AllGroups len all new all_of g,
            (λ a.
                omega
                  (arith, put_group-covers len all new a, covers-append (group_at len new) nets a)),
            omega (arith, put_group-length len all new, length-append (group_at len new) nets),
          )
    | inr e ↦
        rw (merge_group, e)
          (merged (merge_nets all [] []) (merge_nets_lem len all [] [] all_of tt tt small))
  ]
    where
      all : List Prefix
      all = group_at len new ++ nets

      all_of : AllOf len all
      all_of = AllOf-append len (group_at len new) nets (group_at-AllOf len new g) f

      small : (a : Ip) → covers all a + 0 + 0 ≤ 1
      small a =
          omega (arith, d a, covers-append (group_at len new) nets a, put_group-covers len [] new a)

      merged :
          (x : Bases × List Prefix)
          → Merges len all [] [] x
          → Passes nets
              (new, changes)
              (let (bs, parents) = x in
                let new' = put_group len (order (nets_of bs)) new in
                (
                  put_group (len - 1) (group_at (len - 1) new' ++ parents) new',
                  changes + length parents,
                ))
      merged (bs, parents) (x, y, t, s) = (
        put_group-AllGroups (len - 1) (group_at (len - 1) new' ++ parents) new'
            (AllOf-append (len - 1) (group_at (len - 1) new') parents
              (group_at-AllOf (len - 1) new' groups') y)
            groups',
        (λ a. omega (
          arith,
          t a,
          covers-append (group_at len new) nets a,
          put_group-covers len (order (nets_of bs)) new a,
          covers-Permᴰ (order (nets_of bs)) (nets_of bs) (o (nets_of bs)) a,
          put_group-covers (len - 1) (group_at (len - 1) new' ++ parents) new' a,
          covers-append (group_at (len - 1) new') parents a,
        )),
        omega (
          arith,
          s,
          length-append (group_at len new) nets,
          put_group-length len (order (nets_of bs)) new,
          length-Permᴰ (order (nets_of bs)) (nets_of bs) (o (nets_of bs)),
          put_group-length (len - 1) (group_at (len - 1) new' ++ parents) new',
          length-append (group_at (len - 1) new') parents,
        ),
      )
        where
          new' : Groups
          new' = put_group len (order (nets_of bs)) new

          groups' : AllGroups new'
          groups' =
              put_group-AllGroups len (order (nets_of bs)) new
                (ordered-AllOf order len (nets_of bs) o (AllBases-nets len bs x)) g

  merge_pass_lem :
      (gs : Groups) (s : Groups × ℕ)
      → AllGroups gs
      → AllGroups s.0
      → ((a : Ip) → covers (all_nets s.0) a + covers (all_nets gs) a ≤ 1)
      → Passes (all_nets gs) s (merge_pass order gs s)
  unfolding merge_pass
  merge_pass_lem [] s f g d = (g, (λ a. omega arith), omega arith)
  merge_pass_lem ((len, nets) ∷ gs) s (h, f) g d =
      let (x, t, l) =
        merge_group_lem len nets s.0 s.1 h g
          (λ a. omega (arith, d a, covers-append nets (all_nets gs) a)) in
      let (x', t', l') =
        merge_pass_lem gs (merge_group order len nets s) f x
          (λ a. omega (arith, d a, t a, covers-append nets (all_nets gs) a)) in
      (
        x',
        (λ a. omega (arith, t a, t' a, covers-append nets (all_nets gs) a)),
        omega (arith, l, l', length-append nets (all_nets gs)),
      )

  -- Enough fuel is one more than the number of networks.
  pub merge_loop_lem :
      (order_groups : Groups → Groups) (n : ℕ) (gs : Groups)
      → IsOrder order_groups
      → length (all_nets gs) < n
      → AllGroups gs
      → ((a : Ip) → covers (all_nets gs) a ≤ 1)
      → (ps : List Prefix) × (merge_loop order order_groups n gs ≡ parted ps)
        × AllProper ps
        × ((a : Ip) → covers ps a ≡ covers (all_nets gs) a)
  unfolding merge_loop
  merge_loop_lem order_groups zero gs og lt f d = absurd (omega arith)
  merge_loop_lem order_groups (suc n) gs og lt f d =
      let (x, t, l) =
        merge_pass_lem (order_groups gs) ([], 0) (ordered-AllGroups order_groups gs og f) tt
          (λ a. omega (arith, d a, all_nets-covers (order_groups gs) gs (og gs) a)) in
      elim (Bool-cases ((merge_pass order (order_groups gs) ([], 0)).1 == 0)) [
        | inl e ↦ (
          all_nets (order_groups (merge_pass order (order_groups gs) ([], 0)).0),
          rw (merge_loop, e) refl,
          AllGroups-AllProper _
              (ordered-AllGroups order_groups (merge_pass order (order_groups gs) ([], 0)).0 og x),
          (λ a. omega (
            arith,
            t a,
            all_nets-covers (order_groups gs) gs (og gs) a,
            all_nets-covers _ _ (og (merge_pass order (order_groups gs) ([], 0)).0) a,
          )),
        )
        | inr e ↦
            let (ps, r, w, t') =
              merge_loop_lem order_groups n (merge_pass order (order_groups gs) ([], 0)).0 og
                (less _ _ e l) x
                (λ a. omega (arith, t a, d a, all_nets-covers (order_groups gs) gs (og gs) a)) in
            (
              ps,
              rw (merge_loop, e) r,
              w,
              (λ a. omega (arith, t a, t' a, all_nets-covers (order_groups gs) gs (og gs) a)),
            )
      ]
    where
      less :
          (k c : ℕ) → (c == 0) ≡ false → k + c ≡ 0 + length (all_nets (order_groups gs)) + 0 → k < n
      less k c e l = omega (arith, changed c e, l, all_nets-length (order_groups gs) gs (og gs))
        where
          changed : (c : ℕ) → (c == 0) ≡ false → 0 < c
          changed c e = ground arith

-- The networks are put into the groups of their lengths.
pub group_all_lem :
    (ps : List Prefix) (gs : Groups)
    → AllProper ps
    → AllGroups gs
    → AllGroups (group_all ps gs)
      × ((a : Ip) → covers (all_nets (group_all ps gs)) a ≡ covers (all_nets gs) a + covers ps a)
      × (length (all_nets (group_all ps gs)) ≡ length (all_nets gs) + length ps)
unfolding group_all
group_all_lem [] gs f g = (g, (λ a. omega arith), omega arith)
group_all_lem (p ∷ ps) gs ((n, w), f) g =
    rw (group_all, network_eq p n)
      (let ms = group_at p.len gs ++ p ∷ [] in
        let h =
          AllOf-append p.len (group_at p.len gs) (p ∷ []) (group_at-AllOf p.len gs g)
            ((n, w, refl), tt) in
        let (x, t, l) =
          group_all_lem ps (put_group p.len ms gs) f (put_group-AllGroups p.len ms gs h g) in
        (
          x,
          (λ a. omega (
            arith,
            t a,
            put_group-covers p.len ms gs a,
            covers-append (group_at p.len gs) (p ∷ []) a,
          )),
          omega
              (arith, l, put_group-length p.len ms gs, length-append (group_at p.len gs) (p ∷ [])),
        ))
