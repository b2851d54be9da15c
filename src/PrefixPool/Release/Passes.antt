-- ===== src/PrefixPool/Release/Passes.antt =====
-- pkg/tools/prefixpool/prefixpool.go: the groups of `releasePrefixes` and the loop over one of them.
use nsm_sdk.Prelude.{
  ℕ, ◌+◌, ◌-◌, ◌*◌, ◌≤◌, ◌≡◌, ◌∙◌, sym, ap, subst, inl, inr, List, [], ◌∷◌, ◌++◌, ◌==◌, ==_iff,
  Bool-cases, Option-cases, arith, length, length-append,
}
use nsm_sdk.PrefixPool.{Ip, Prefix}
use nsm_sdk.PrefixPool.Halves.{hits, covers, covers-append}
use nsm_sdk.PrefixPool.Release.{
  base_of, parent_of, Bases, find_base, delete_base, nets_of, merge_nets, Groups, group_at,
  put_group, all_nets,
}
use nsm_sdk.PrefixPool.Release.Merged.{parent_network, parent-IsProper, len-positive, hits-parent}
use nsm_sdk.PrefixPool.Release.Groups.{
  AllOf, AllOf-append, AllBases, AllBases-snoc, AllBases-delete, nets-snoc, find-Found,
}

-- What the loop over a group makes of the networks, the bases and the parents.
abbrev pub Merges : ℕ → List Prefix → Bases → List Prefix → Bases × List Prefix → Type 0
Merges l ps bs parents (bs', parents') =
    AllBases l bs'
    × AllOf (l - 1) parents'
    × ((a : Ip)
        → covers (nets_of bs') a + covers parents' a
          ≡ covers ps a + covers (nets_of bs) a + covers parents a)
    × (length (nets_of bs') + 2 * length parents'
        ≡ length ps + length (nets_of bs) + 2 * length parents)

pub merge_nets_lem :
    (l : ℕ) (ps : List Prefix) (bs : Bases) (parents : List Prefix)
    → AllOf l ps
    → AllBases l bs
    → AllOf (l - 1) parents
    → ((a : Ip) → covers ps a + covers (nets_of bs) a + covers parents a ≤ 1)
    → Merges l ps bs parents (merge_nets ps bs parents)
unfolding merge_nets
merge_nets_lem l [] bs parents f g h d = (g, h, (λ a. omega arith), omega arith)
merge_nets_lem l (p ∷ ps) bs parents ((n, w, e), f) g h d =
    elim (Option-cases (find_base (base_of p) bs)) [
      | inl o ↦
          let (x, y, t, s) =
            merge_nets_lem l ps (bs ++ (base_of p, p) ∷ []) parents f
              (AllBases-snoc l p bs g (n, w, e) o) h (λ a. omega (arith, d a, more a)) in
          rw (merge_nets, o) (x, y, (λ a. omega (arith, t a, more a)), omega (arith, s, longer))
      | inr (q, o) ↦
          let (b, (m, v, k), t, s) = find-Found l (base_of p) q bs g o in
          let apart : (a : Ip) → hits q a + hits p a ≤ 1 = λ a. omega (arith, d a, t a) in
          let pos = len-positive q p m n (k ∙ sym e) b apart v w in
          let par = λ (a : Ip). hits-parent q p m n (k ∙ sym e) b apart a pos in
          let (x, y, t', s') =
            merge_nets_lem l ps (delete_base (base_of p) bs) (parents ++ parent_of p ∷ []) f
              (AllBases-delete l (base_of p) bs g)
              (AllOf-append (l - 1) parents (parent_of p ∷ []) h (
                (
                  parent_network p n (omega (arith, pos, k, e)),
                  parent-IsProper p n w,
                  ap (λ (i : ℕ). i - 1) e,
                ),
                tt,
              ))
              (λ a. omega (arith, d a, t a, covers-append parents (parent_of p ∷ []) a, par a)) in
          rw (merge_nets, o)
            (
              x,
              y,
              (λ a. omega (arith, t' a, t a, covers-append parents (parent_of p ∷ []) a, par a)),
              omega (arith, s', s, length-append parents (parent_of p ∷ [])),
            )
    ]
  where
    more :
        (a : Ip) → covers (nets_of (bs ++ (base_of p, p) ∷ [])) a ≡ covers (nets_of bs) a + hits p a
    more a = omega (
      arith,
      ap (λ qs. covers qs a) (nets-snoc (base_of p) p bs),
      covers-append (nets_of bs) (p ∷ []) a,
    )

    longer : length (nets_of (bs ++ (base_of p, p) ∷ [])) ≡ length (nets_of bs) + 1
    longer =
        omega (arith, ap length (nets-snoc (base_of p) p bs), length-append (nets_of bs) (p ∷ []))

-- The groups hold networks of their lengths.
abbrev pub AllGroups : Groups → Type 0
AllGroups [] = Unit {0}
AllGroups ((l, ns) ∷ gs) = AllOf l ns × AllGroups gs

pub group_at-AllOf : (k : ℕ) (gs : Groups) → AllGroups gs → AllOf k (group_at k gs)
group_at-AllOf k [] f = tt
group_at-AllOf k ((l, ns) ∷ gs) (h, f) = elim (Bool-cases (l == k)) [
  | inl e ↦ rw e (subst (λ (i : ℕ). AllOf i ns) ((==_iff l k).0 e) h)
  | inr e ↦ rw e (group_at-AllOf k gs f)
]

pub put_group-AllGroups :
    (k : ℕ) (ms : List Prefix) (gs : Groups)
    → AllOf k ms
    → AllGroups gs
    → AllGroups (put_group k ms gs)
put_group-AllGroups k ms [] h f = (h, tt)
put_group-AllGroups k ms ((l, ns) ∷ gs) h (g, f) = elim (Bool-cases (l == k)) [
  | inl e ↦ rw e (subst (λ (i : ℕ). AllOf i ms) (sym ((==_iff l k).0 e)) h, f)
  | inr e ↦ rw e (g, put_group-AllGroups k ms gs h f)
]

pub put_group-covers :
    (k : ℕ) (ms : List Prefix) (gs : Groups) (a : Ip)
    → covers (all_nets (put_group k ms gs)) a + covers (group_at k gs) a
      ≡ covers (all_nets gs) a + covers ms a
put_group-covers k ms [] a = omega (arith, covers-append ms [] a)
put_group-covers k ms ((l, ns) ∷ gs) a = elim (Bool-cases (l == k)) [
  | inl e ↦ rw e (omega (arith, covers-append ms (all_nets gs) a, covers-append ns (all_nets gs) a))
  | inr e ↦ rw e (
      omega (
        arith,
        covers-append ns (all_nets (put_group k ms gs)) a,
        covers-append ns (all_nets gs) a,
        put_group-covers k ms gs a,
      ))
]

pub put_group-length :
    (k : ℕ) (ms : List Prefix) (gs : Groups)
    → length (all_nets (put_group k ms gs)) + length (group_at k gs)
      ≡ length (all_nets gs) + length ms
put_group-length k ms [] = omega (arith, length-append ms [])
put_group-length k ms ((l, ns) ∷ gs) = elim (Bool-cases (l == k)) [
  | inl e ↦ rw e (omega (arith, length-append ms (all_nets gs), length-append ns (all_nets gs)))
  | inr e ↦ rw e (
      omega (
        arith,
        length-append ns (all_nets (put_group k ms gs)),
        length-append ns (all_nets gs),
        put_group-length k ms gs,
      ))
]
