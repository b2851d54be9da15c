-- ===== src/PrefixPool/Exclude/Removed.antt =====
-- pkg/tools/prefixpool/prefixpool.go: what one excluded prefix of `ExcludePrefixes` leaves and removes.
use nsm_sdk.Prelude.{
  ℕ, ◌+◌, ◌≤◌, ◌<◌, ◌≡◌, ◌∙◌, refl, sym, ap, inl, inr, ◌⊎◌, List, [], ◌∷◌, ◌++◌, Option, none, some,
  Bool, true, false, ltb, Bool-cases, arith,
}
use nsm_sdk.PrefixPool.{Ip, Prefix, parted, network, contains, intersect}
use nsm_sdk.PrefixPool.Halves.{
  hit, hits, covers, covers-append, IsNetwork, AllNetworks, AllNetworks-append, contains-network,
}
use nsm_sdk.PrefixPool.Subnets.{Meets, extract_subnet_lem}
use nsm_sdk.PrefixPool.Exclude.{first_met, keep_others, Excluded, exclude_one}
use nsm_sdk.PrefixPool.Exclude.Apart.{
  contains_nested, contains_iff, intersect-bigger, intersect-smaller, not_ltb-le,
}
use nsm_sdk.PrefixPool.Exclude.Meeting.{
  IsDisjoint, count, count-covers, keep_others-once, keep_others-AllNetworks, IsMet,
  first_met-IsMet,
}

-- What one excluded prefix `x` has made of the prefixes: the addresses that `x` does not have are left
-- as they were, and those that have gone are those of what is removed. Of the addresses of `x` none is
-- left, unless `x` is bigger than a prefix of the list that lies in it: then that prefix may be all
-- that has gone.
abbrev pub Drops : Prefix → Excluded → Excluded → Type 0
Drops x (ps, removed) (ps', removed') =
    AllNetworks ps'
    × ((a : Ip) → contains x a ≡ false → covers ps' a ≡ covers ps a)
    × ((a : Ip) → covers ps' a ≤ covers ps a)
    × ((a : Ip) → covers ps' a + covers removed' a ≡ covers ps a + covers removed a)
    × (((a : Ip) → contains x a ≡ true → covers ps' a ≡ 0)
        ⊎ ((q : Prefix) × (1 ≤ count q ps)
            × (x.len < q.len)
            × ((a : Ip) → contains q a ≡ true → contains x a ≡ true)
            × ((a : Ip) → covers ps' a + hits q a ≡ covers ps a)))

-- A met prefix that is not smaller than the excluded one is parted.
meets_lem :
    (x q : Prefix)
    → x.len ≤ x.ip.bits
    → IsNetwork q
    → (intersect (network x) q).0 ≡ true
    → (intersect (network x) q).1 ≡ false
    → Meets q (network x)
meets_lem x q f n h k = elim (Bool-cases (ltb x.len q.len)) [
  | inl e ↦
      absurd (differ (sym (ap (λ (r : Bool × Bool). r.1) (intersect-bigger (network x) q e)) ∙ k))
  | inr e ↦
      let m = sym (ap (λ (r : Bool × Bool). r.0) (intersect-smaller (network x) q e)) ∙ h in
      record {
        is_network = n;
        bits_eq = sym ((contains_iff q (network x).ip).0 m).0;
        len_le = not_ltb-le x.len q.len e;
        len_fits = f;
        meets = m;
      }
]
  where
    differ : true ≡ false → ⊥
    differ c = cc

bigger_lem : (x q : Prefix) → (intersect (network x) q).1 ≡ true → x.len < q.len
bigger_lem x q k = elim (Bool-cases (ltb x.len q.len)) [
  | inl e ↦ shorter x.len q.len e
  | inr e ↦
      absurd (differ (sym (ap (λ (r : Bool × Bool). r.1) (intersect-smaller (network x) q e)) ∙ k))
]
  where
    shorter : (m n : ℕ) → ltb m n ≡ true → m < n
    shorter m n e = ground arith

    differ : false ≡ true → ⊥
    differ c = cc

-- A met prefix that is smaller than the excluded one lies in it.
inside_lem :
    (x q : Prefix)
    → IsNetwork q
    → (intersect (network x) q).0 ≡ true
    → (intersect (network x) q).1 ≡ true
    → (a : Ip) → contains q a ≡ true
    → contains x a ≡ true
inside_lem x q n h k a i =
    sym (contains-network x a) ∙ contains_nested (network x) q a (below x.len q.len l) n.len_le m i
  where
    l : x.len < q.len
    l = bigger_lem x q k

    below : (u v : ℕ) → u < v → u ≤ v
    below u v c = omega arith

    shorter : (u v : ℕ) → u < v → ltb u v ≡ true
    shorter u v c = ground arith

    m : contains (network x) q.ip ≡ true
    m =
        sym (ap (λ (r : Bool × Bool). r.0) (intersect-bigger (network x) q (shorter x.len q.len l)))
        ∙ h

outside :
    (x q : Prefix) (a : Ip)
    → (contains q a ≡ true → contains x a ≡ true)
    → contains x a ≡ false
    → hits q a ≡ 0
outside x q a f h = elim (Bool-cases (contains q a)) [
  | inl e ↦ absurd (differ (sym (f e) ∙ h))
  | inr e ↦ ap hit e
]
  where
    differ : true ≡ false → ⊥
    differ c = cc

module _ (x : Prefix) (ps removed : List Prefix) (f : x.len ≤ x.ip.bits) (n : AllNetworks ps)
    (d : IsDisjoint ps) where
  once : (q : Prefix) → 1 ≤ count q ps → count q ps ≡ 1
  once q c = omega (arith, count-covers q ps, d q.ip)

  -- Of networks that do not overlap, one excluded prefix `x` leaves the addresses that it does not have
  -- as they were. What has gone from the prefixes has gone to those that are removed. Either no address
  -- of `x` is left; or `x` is bigger than a prefix of the list that lies in it, and just that prefix
  -- has gone. There is no error. The mask of `x` has to fit.
  pub exclude_one_lem :
      (y : Excluded) × (exclude_one x (ps, removed) ≡ parted y) × Drops x (ps, removed) y
  unfolding exclude_one
  exclude_one_lem = go (first_met (network x) ps) refl (first_met-IsMet (network x) ps f n)
    where
      go :
          (o : Option (Prefix × Bool))
          → first_met (network x) ps ≡ o
          → IsMet (network x) ps o
          → (y : Excluded) × (exclude_one x (ps, removed) ≡ parted y) × Drops x (ps, removed) y
      go none e m = (
        (ps, removed),
        rw (exclude_one, e) refl,
        (
          n,
          (λ a h. refl),
          (λ a. omega arith),
          (λ a. refl),
          inl (λ a h. m a (contains-network x a ∙ h)),
        ),
      )
      go (some (q, true)) e (w, c, h, k) = (
        (keep_others q ps, removed ++ q ∷ []),
        rw (exclude_one, e) refl,
        (
          keep_others-AllNetworks q ps n,
          (λ a i. omega (
            arith,
            keep_others-once q ps a (once q c),
            outside x q a (inside_lem x q w h k a) i,
          )),
          (λ a. omega (arith, keep_others-once q ps a (once q c))),
          (λ a.
              omega (arith, keep_others-once q ps a (once q c), covers-append removed (q ∷ []) a)),
          inr (
            q,
            c,
            bigger_lem x q k,
            inside_lem x q w h k,
            λ a. keep_others-once q ps a (once q c),
          ),
        ),
      )
      go (some (q, false)) e (w, c, h, k) =
          let (pieces, r, t, l, v) = extract_subnet_lem q (network x) (meets_lem x q f w h k) in
          (
            (pieces ++ keep_others q ps, removed ++ network x ∷ []),
            rw (exclude_one, e, r) refl,
            (
              AllNetworks-append pieces (keep_others q ps) v (keep_others-AllNetworks q ps n),
              (λ a i. omega (
                arith,
                t a,
                keep_others-once q ps a (once q c),
                covers-append pieces (keep_others q ps) a,
                ap hit (contains-network x a ∙ i),
              )),
              (λ a. omega (
                arith,
                t a,
                keep_others-once q ps a (once q c),
                covers-append pieces (keep_others q ps) a,
              )),
              (λ a. omega (
                arith,
                t a,
                keep_others-once q ps a (once q c),
                covers-append pieces (keep_others q ps) a,
                covers-append removed (network x ∷ []) a,
              )),
              inl (λ a i. omega (
                arith,
                t a,
                d a,
                keep_others-once q ps a (once q c),
                covers-append pieces (keep_others q ps) a,
                ap hit (contains-network x a ∙ i),
              )),
            ),
          )
