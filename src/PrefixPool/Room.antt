-- ===== src/PrefixPool/Room.antt =====
-- pkg/tools/prefixpool/prefixpool.go: `extractPrefix` on every branch.
use native.Mathlib.Decide.{dec_lt}
use nsm_sdk.Prelude.{
  ℕ, zero, suc, ◌+◌, ◌*◌, ◌≤◌, ◌<◌, ◌≡◌, refl, ap, subst, inl, inr, ◌⊎◌, List, [], ◌∷◌, ◌++◌, none,
  some, true, false, ◌==◌, ==_iff, ltb, Bool-cases, arith, get_elem?, take, drop,
}
use nsm_sdk.PrefixPool.{
  Ip, Prefix, Place, exact, root_at, nowhere, no_room, insufficient_space, host, network, halves,
  subnet, parted, failed, split_loop, search_root, reverse, extract_prefix,
}
use nsm_sdk.PrefixPool.Halves.{
  hit, hits, covers, covers-append, IsNetwork, network-IsNetwork, contains-network, half,
  half-IsNetwork, halves_eq, hits-half,
}
use nsm_sdk.PrefixPool.Search.{Finds, search_root_lem}

-- The masks are not longer than the addresses.
abbrev pub AllFit : List Prefix → Type 0
AllFit [] = Unit {0}
AllFit (p ∷ ps) = (p.len ≤ p.ip.bits) × AllFit ps

pub AllFit-append : (ps qs : List Prefix) → AllFit ps → AllFit qs → AllFit (ps ++ qs)
AllFit-append [] qs f g = g
AllFit-append (p ∷ ps) qs (h, f) g = (h, AllFit-append ps qs f g)

AllFit-take : (i : ℕ) (ps : List Prefix) → AllFit ps → AllFit (take i ps)
AllFit-take zero ps f = tt
AllFit-take (suc i) [] f = tt
AllFit-take (suc i) (p ∷ ps) (h, f) = (h, AllFit-take i ps f)

AllFit-drop : (i : ℕ) (ps : List Prefix) → AllFit ps → AllFit (drop i ps)
AllFit-drop zero ps f = f
AllFit-drop (suc i) [] f = tt
AllFit-drop (suc i) (p ∷ ps) (h, f) = AllFit-drop i ps f

AllFit-reverse : (ps : List Prefix) → AllFit ps → AllFit (reverse ps)
AllFit-reverse [] f = tt
AllFit-reverse (p ∷ ps) (h, f) = AllFit-append (reverse ps) (p ∷ []) (AllFit-reverse ps f) (h, tt)

AllFit-at :
    (ps : List Prefix) (i : ℕ) (p : Prefix)
    → AllFit ps
    → get_elem? ps i ≡ some p
    → p.len ≤ p.ip.bits
AllFit-at [] i p f e = absurd cc
AllFit-at (q ∷ ps) zero p (h, f) e = subst (λ z. z.len ≤ z.ip.bits) (inside e) h
  where
    inside : some q ≡ some p → q ≡ p
    inside c = cc
AllFit-at (q ∷ ps) (suc i) p (h, f) e = AllFit-at ps i p f e

covers-reverse : (ps : List Prefix) (a : Ip) → covers (reverse ps) a ≡ covers ps a
covers-reverse [] a = refl
covers-reverse (p ∷ ps) a =
    omega (arith, covers-append (reverse ps) (p ∷ []) a, covers-reverse ps a)

-- Prefixes in place of the one at a place.
covers-replace :
    (ps xs : List Prefix) (i : ℕ) (p : Prefix) (a : Ip)
    → get_elem? ps i ≡ some p
    → covers (take i ps ++ xs ++ drop (suc i) ps) a + hits p a ≡ covers ps a + covers xs a
covers-replace [] xs i p a e = absurd cc
covers-replace (q ∷ ps) xs zero p a e =
    omega (arith, covers-append xs ps a, ap (λ z. hits z a) (inside e))
  where
    inside : some q ≡ some p → q ≡ p
    inside c = cc
covers-replace (q ∷ ps) xs (suc i) p a e = omega (arith, covers-replace ps xs i p a e)

covers-without :
    (ps : List Prefix) (i : ℕ) (p : Prefix) (a : Ip)
    → get_elem? ps i ≡ some p
    → covers (take i ps ++ drop (suc i) ps) a + hits p a ≡ covers ps a
covers-without [] i p a e = absurd cc
covers-without (q ∷ ps) zero p a e = omega (arith, ap (λ z. hits z a) (inside e))
  where
    inside : some q ≡ some p → q ≡ p
    inside c = cc
covers-without (q ∷ ps) (suc i) p a e = omega (arith, covers-without ps i p a e)

-- The loop splits the left half again and again.
split_loop_lem :
    (n : ℕ) (root : Prefix) (len : ℕ) (right : List Prefix)
    → IsNetwork root
    → root.len ≤ len
    → len ≤ root.ip.bits
    → host root < n
    → AllFit right
    → (q : Prefix) × (rs : List Prefix) × (split_loop n root len right ≡ parted (q, rs))
      × (q.len ≡ len)
      × (q.ip.bits ≡ root.ip.bits)
      × AllFit rs
      × ((a : Ip) → hits q a + covers rs a ≡ hits root a + covers right a)
unfolding split_loop
split_loop_lem zero root len right net l b lt f = absurd (omega arith)
split_loop_lem (suc n) root len right net l b lt f = elim (Bool-cases (root.len == len)) [
  | inl e ↦ (root, right, rw (split_loop, e) refl, (==_iff root.len len).0 e, refl, f, λ a. refl)
  | inr e ↦
      let low = half root (2 * net.index) in
      let high = half root (2 * net.index + 1) in
      let s = shorter e in
      let (q, rs, r, g, k, w, t) =
        split_loop_lem n low len (right ++ high ∷ []) (half-IsNetwork root (2 * net.index) s)
          (omega (arith, shorter' e)) b (omega arith)
          (AllFit-append right (high ∷ []) f (omega arith, tt)) in
      (
        q,
        rs,
        rw (split_loop, e, halves_eq root net s) r,
        g,
        k,
        w,
        (λ a. omega (arith, t a, covers-append right (high ∷ []) a, hits-half root net a s)),
      )
]
  where
    shorter' : (root.len == len) ≡ false → root.len < len
    shorter' e = ground arith

    shorter : (root.len == len) ≡ false → root.len < root.ip.bits
    shorter e = omega (arith, shorter' e)

halves-full : (p : Prefix) → p.len ≡ p.ip.bits → halves p ≡ none
unfolding halves subnet
halves-full p h = rw (halves, subnet, full) refl
  where
    full : ltb p.ip.bits (p.len + 1) ≡ true
    full = ground arith

split_loop-failed :
    (n : ℕ) (root : Prefix) (len : ℕ) (right : List Prefix)
    → IsNetwork root
    → root.ip.bits < len
    → host root < n
    → split_loop n root len right ≡ failed insufficient_space
unfolding split_loop
split_loop-failed zero root len right net b lt = absurd (omega arith)
split_loop-failed (suc n) root len right net b lt = elim (dec_lt root.len root.ip.bits) [
  | yes s ↦
      rw (split_loop, unlike, halves_eq root net s)
        (split_loop-failed n (half root (2 * net.index)) len
          (right ++ half root (2 * net.index + 1) ∷ []) (half-IsNetwork root (2 * net.index) s) b
          (omega arith))
  | no s ↦ rw (split_loop, unlike, halves-full root (full s)) refl
]
  where
    unlike : (root.len == len) ≡ false
    unlike = let h : root.len ≤ root.ip.bits = net.len_le in ground arith

    full : ¬ (root.len < root.ip.bits) → root.len ≡ root.ip.bits
    full s = omega (arith, net.len_le)

-- What `extractPrefix` has taken: a prefix of the length, and what is left of the others.
abbrev pub Takes : List Prefix → ℕ → Prefix → List Prefix → Type 0
Takes ps len q rest =
    (q.len ≡ len)
    × (q.len ≤ q.ip.bits)
    × AllFit rest
    × ((a : Ip) → hits q a + covers rest a ≡ covers ps a)

-- Of prefixes whose masks fit, `extractPrefix` takes one of the length that is asked for, and it and
-- the prefixes left have together, counted with multiplicity, exactly the addresses of before. It
-- fails for want of room where every prefix is longer than that, and for want of address space where
-- the longest of the shorter prefixes, which it splits, is of addresses with fewer bits. The loop
-- always ends.
pub extract_prefix_lem :
    (ps : List Prefix) (len : ℕ)
    → AllFit ps
    → ((q : Prefix) × (rest : List Prefix) × (extract_prefix ps len ≡ parted (q, rest))
        × Takes ps len q rest)
      ⊎ (((extract_prefix ps len ≡ failed no_room) × Finds len ps nowhere)
          ⊎ ((extract_prefix ps len ≡ failed insufficient_space)
              × ((i : ℕ) × Finds len ps (root_at i)
                  × ((p : Prefix) × (get_elem? ps i ≡ some p) × (p.ip.bits < len)))))
unfolding extract_prefix
extract_prefix_lem ps len f = go (search_root len ps 0 none) refl (search_root_lem len ps)
  where
    go :
        (o : Place)
        → search_root len ps 0 none ≡ o
        → Finds len ps o
        → ((q : Prefix) × (rest : List Prefix) × (extract_prefix ps len ≡ parted (q, rest))
            × Takes ps len q rest)
          ⊎ (((extract_prefix ps len ≡ failed no_room) × Finds len ps nowhere)
              ⊎ ((extract_prefix ps len ≡ failed insufficient_space)
                  × ((i : ℕ) × Finds len ps (root_at i)
                      × ((p : Prefix) × (get_elem? ps i ≡ some p) × (p.ip.bits < len)))))
    go nowhere o h = inr (inl (rw (extract_prefix, o) refl, h))
    go (exact i) o (p, e, l) = inl (
      p,
      take i ps ++ drop (suc i) ps,
      rw (extract_prefix, o, e) refl,
      (
        l,
        AllFit-at ps i p f e,
        AllFit-append (take i ps) (drop (suc i) ps) (AllFit-take i ps f) (AllFit-drop (suc i) ps f),
        (λ a. omega (arith, covers-without ps i p a e)),
      ),
    )
    go (root_at i) o (p, e, l, b) = elim (dec_lt p.ip.bits len) [
      | yes s ↦ inr (
          inr (
            rw
                (
                  extract_prefix,
                  o,
                  e,
                  split_loop-failed (suc (host p)) (network p) len [] (net p e) s (omega arith),
                )
                refl,
            (i, (p, e, l, b), (p, e, s)),
          ))
      | no s ↦
          let (q, rs, r, g, k, w, t) =
            split_loop_lem (suc (host p)) (network p) len [] (net p e) (omega arith) (omega arith)
              (omega arith) tt in
          inl (
            q,
            take i ps ++ reverse rs ++ drop (suc i) ps,
            rw (extract_prefix, o, e, r) refl,
            (
              g,
              omega arith,
              AllFit-append (take i ps ++ reverse rs) (drop (suc i) ps)
                  (AllFit-append (take i ps) (reverse rs) (AllFit-take i ps f)
                    (AllFit-reverse rs w))
                  (AllFit-drop (suc i) ps f),
              (λ a. omega (
                arith,
                t a,
                ap hit (contains-network p a),
                covers-reverse rs a,
                covers-replace ps (reverse rs) i p a e,
              )),
            ),
          )
    ]
      where
        net : (p : Prefix) → get_elem? ps i ≡ some p → IsNetwork (network p)
        net p e = network-IsNetwork p (AllFit-at ps i p f e)
