-- ===== src/PrefixPool/Release/Nested.antt =====
-- pkg/tools/prefixpool/prefixpool.go: `removeNestedNetworks` leaves networks that do not overlap alone.
use nsm_sdk.Prelude.{
  ℕ, zero, suc, ◌+◌, ◌≤◌, ◌≡◌, ◌≢◌, ◌∙◌, refl, sym, ap, subst, inl, inr, List, [], ◌∷◌, ◌++◌, some,
  Bool, true, false, ◌==◌, ltb, if◌then◌else◌, Bool-cases, arith, length, length-append, get_elem?,
}
use nsm_sdk.PrefixPool.{Ip, Prefix, network, intersect, same_prefix}
use nsm_sdk.PrefixPool.Halves.{hit, hits, covers, covers-append, AllNetworks, network_eq}
use nsm_sdk.PrefixPool.Exclude.Apart.{contains_self, intersect-bigger, intersect-smaller}
use nsm_sdk.PrefixPool.Exclude.Meeting.{IsDisjoint}
use nsm_sdk.PrefixPool.Release.{holds, nested_in, remove_nested_from, remove_nested_networks}
use nsm_sdk.PrefixPool.Release.Merged.{same_prefix→≡}

inside : {p q : Prefix} → some p ≡ some q → p ≡ q
inside c = cc

one-covers :
    (ps : List Prefix) (i : ℕ) (p : Prefix) (a : Ip)
    → get_elem? ps i ≡ some p
    → hits p a ≤ covers ps a
one-covers [] i p a e = absurd cc
one-covers (q ∷ ps) zero p a e = omega (arith, ap (λ z. hits z a) (inside e))
one-covers (q ∷ ps) (suc i) p a e = omega (arith, one-covers ps i p a e)

two-cover :
    (ps : List Prefix) (i j : ℕ) (p q : Prefix) (a : Ip)
    → i ≢ j
    → get_elem? ps i ≡ some p
    → get_elem? ps j ≡ some q
    → hits p a + hits q a ≤ covers ps a
two-cover [] i j p q a n e f = absurd cc
two-cover (r ∷ ps) zero zero p q a n e f = absurd (n refl)
two-cover (r ∷ ps) zero (suc j) p q a n e f =
    omega (arith, ap (λ z. hits z a) (inside e), one-covers ps j q a f)
two-cover (r ∷ ps) (suc i) zero p q a n e f =
    omega (arith, ap (λ z. hits z a) (inside f), one-covers ps i p a e)
two-cover (r ∷ ps) (suc i) (suc j) p q a n e f =
    omega (arith, two-cover ps i j p q a (λ c. n (ap suc c)) e f)

-- Prefixes that meet have a common address.
intersect-common :
    (p q : Prefix) → (intersect p q).0 ≡ true → (a : Ip) × (hits p a ≡ 1) × (hits q a ≡ 1)
intersect-common p q h = elim (Bool-cases (ltb p.len q.len)) [
  | inl e ↦ (
    q.ip,
    ap hit (sym (ap (λ (x : Bool × Bool). x.0) (intersect-bigger p q e)) ∙ h),
    ap hit (contains_self q),
  )
  | inr e ↦ (
    p.ip,
    ap hit (contains_self p),
    ap hit (sym (ap (λ (x : Bool × Bool). x.0) (intersect-smaller p q e)) ∙ h),
  )
]

not_met :
    (ps : List Prefix) (i j : ℕ) (p q : Prefix)
    → IsDisjoint ps
    → i ≢ j
    → get_elem? ps i ≡ some p
    → get_elem? ps j ≡ some q
    → (intersect p q).0 ≡ false
not_met ps i j p q d n e f = elim (Bool-cases (intersect p q).0) [
  | inr h ↦ h
  | inl h ↦
      let (a, x, y) = intersect-common p q h in
      absurd (omega (arith, x, y, d a, two-cover ps i j p q a n e f))
]

at_network :
    (ps : List Prefix) (i : ℕ) (p : Prefix)
    → AllNetworks ps
    → get_elem? ps i ≡ some p
    → network p ≡ p
at_network [] i p f e = absurd cc
at_network (q ∷ ps) zero p (h, f) e = subst (λ z. network z ≡ z) (inside e) (network_eq q h)
at_network (q ∷ ps) (suc i) p (h, f) e = at_network ps i p f e

nested_in-none :
    (i : ℕ) (p : Prefix) (j : ℕ) (qs : List Prefix) (kept : List Prefix)
    → ((k : ℕ) (q : Prefix)
        → get_elem? qs k ≡ some q
        → (j + k ≢ i → (intersect (network q) (network p)).0 ≡ false))
    → ◌≡◌ {A = Bool × List Prefix} (nested_in i p j qs (false, kept)) (false, kept)
unfolding nested_in
nested_in-none i p j [] kept h = refl
nested_in-none i p j (q ∷ qs) kept h = elim (Bool-cases (j == i)) [
  | inl e ↦ rw (nested_in, e) (nested_in-none i p (suc j) qs kept later)
  | inr e ↦ rw (nested_in, e, h 0 q refl (unlike e)) (nested_in-none i p (suc j) qs kept later)
]
  where
    unlike : (j == i) ≡ false → j + 0 ≢ i
    unlike e c = absurd (ground arith)

    later :
        (k : ℕ) (r : Prefix)
        → get_elem? qs k ≡ some r
        → (suc j + k ≢ i → (intersect (network r) (network p)).0 ≡ false)
    later k r e n = h (suc k) r e (λ c. n (omega arith))

holds-covers : (q : Prefix) (ps : List Prefix) → holds q ps ≡ true → 1 ≤ covers ps q.ip
holds-covers q [] h = absurd cc
holds-covers q (p ∷ ps) h = go (same_prefix p q) refl h (holds-covers q ps)
  where
    go :
        (b : Bool)
        → same_prefix p q ≡ b
        → (if b then true else holds q ps) ≡ true
        → (holds q ps ≡ true → 1 ≤ covers ps q.ip)
        → 1 ≤ covers (p ∷ ps) q.ip
    go true e h r =
        omega (arith, ap (λ z. hits z q.ip) (same_prefix→≡ p q e), ap hit (contains_self q))
    go false e h r = omega (arith, r h)

get-middle : (xs ys : List Prefix) (p : Prefix) → get_elem? (xs ++ p ∷ ys) (length xs) ≡ some p
get-middle [] ys p = refl
get-middle (x ∷ xs) ys p = get-middle xs ys p

snoc-append : (xs ys : List Prefix) (p : Prefix) → (xs ++ p ∷ []) ++ ys ≡ xs ++ p ∷ ys
snoc-append [] ys p = refl
snoc-append (x ∷ xs) ys p = ap (λ zs. x ∷ zs) (snoc-append xs ys p)

remove_nested_from_lem :
    (all : List Prefix) (ps kept : List Prefix)
    → AllNetworks all
    → IsDisjoint all
    → all ≡ kept ++ ps
    → remove_nested_from all (length kept) ps kept ≡ kept ++ ps
unfolding remove_nested_from
remove_nested_from_lem all [] kept n d e = sym (append_nil kept)
  where
    append_nil : (xs : List Prefix) → xs ++ [] ≡ xs
    append_nil [] = refl
    append_nil (x ∷ xs) = ap (λ ys. x ∷ ys) (append_nil xs)
remove_nested_from_lem all (p ∷ ps) kept n d e =
    rw (remove_nested_from, nested_in-none (length kept) p 0 all kept none_met, unheld)
      (next (remove_nested_from_lem all ps (kept ++ p ∷ []) n d (e ∙ sym (snoc-append kept ps p))))
  where
    here : get_elem? all (length kept) ≡ some p
    here = ap (λ xs. get_elem? xs (length kept)) e ∙ get-middle kept ps p

    none_met :
        (k : ℕ) (q : Prefix)
        → get_elem? all k ≡ some q
        → (0 + k ≢ length kept → (intersect (network q) (network p)).0 ≡ false)
    none_met k q f m =
        rw (at_network all k q n f, at_network all (length kept) p n here)
          (not_met all k (length kept) q p d (λ c. m (omega arith)) f here)

    unheld : holds p kept ≡ false
    unheld = elim (Bool-cases (holds p kept)) [
      | inr h ↦ h
      | inl h ↦ absurd (
          omega (
            arith,
            holds-covers p kept h,
            d p.ip,
            ap (λ xs. covers xs p.ip) e,
            covers-append kept (p ∷ ps) p.ip,
            ap hit (contains_self p),
          ))
    ]

    next :
        remove_nested_from all (length (kept ++ p ∷ [])) ps (kept ++ p ∷ [])
          ≡ (kept ++ p ∷ []) ++ ps
        → remove_nested_from all (suc (length kept)) ps (kept ++ p ∷ []) ≡ kept ++ p ∷ ps
    next h =
        ap (λ (i : ℕ). remove_nested_from all i ps (kept ++ p ∷ [])) (longer kept)
        ∙ h
        ∙ snoc-append kept ps p
      where
        longer : (xs : List Prefix) → suc (length xs) ≡ length (xs ++ p ∷ [])
        longer xs = omega (arith, length-append xs (p ∷ []))

pub remove_nested_networks_lem :
    (ps : List Prefix) → AllNetworks ps → IsDisjoint ps → remove_nested_networks ps ≡ ps
unfolding remove_nested_networks
remove_nested_networks_lem ps n d = remove_nested_from_lem ps ps [] n d refl
