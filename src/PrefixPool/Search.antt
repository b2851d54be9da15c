-- ===== src/PrefixPool/Search.antt =====
-- pkg/tools/prefixpool/prefixpool.go: the prefix that `extractPrefix` takes or splits.
use native.Mathlib.Decide.{dec_lt, ℕ_discrete}
use nsm_sdk.Prelude.{
  ℕ, suc, ◌+◌, ◌-◌, ◌≤◌, ◌<◌, ◌≡◌, ◌≢◌, ◌∙◌, refl, sym, ap, subst, inl, inr, List, [], ◌∷◌, Option,
  none, some, true, false, ◌&&◌, ◌==◌, ==_iff, ltb, if◌then◌else◌, Bool-cases, arith, get_elem?,
}
use nsm_sdk.PrefixPool.{Prefix, Place, exact, root_at, nowhere, place_of, is_better, search_root}

module _ (len : ℕ) (all : List Prefix) where
  -- What the prefixes before a place tell of the best root so far.
  abbrev Bounded : Option (ℕ × ℕ) → Prefix → Type 0
  Bounded none q = len < q.len
  Bounded (some (j, l)) q = (q.len ≢ len) × (q.len < len → q.len ≤ l)

  abbrev IsRoot : Option (ℕ × ℕ) → Type 0
  IsRoot none = Unit {0}
  IsRoot (some (j, l)) = (p : Prefix) × (get_elem? all j ≡ some p) × (p.len ≡ l) × (l < len)

  -- An exact place has a prefix of the length; a root is the longest of the shorter prefixes where
  -- none has the length; and nowhere is where all prefixes are longer.
  abbrev pub Finds : Place → Type 0
  Finds (exact j) = (p : Prefix) × (get_elem? all j ≡ some p) × (p.len ≡ len)
  Finds (root_at j) =
      (p : Prefix) × (get_elem? all j ≡ some p)
      × (p.len < len)
      × ((k : ℕ) (q : Prefix)
          → get_elem? all k ≡ some q
          → (q.len ≢ len) × (q.len < len → q.len ≤ p.len))
  Finds nowhere = (k : ℕ) (q : Prefix) → get_elem? all k ≡ some q → len < q.len

  finished :
      (i : ℕ) (max : Option (ℕ × ℕ))
      → ((k : ℕ) → none ≡ get_elem? all (i + k))
      → ((k : ℕ) (q : Prefix) → k < i → get_elem? all k ≡ some q → Bounded max q)
      → IsRoot max
      → Finds (place_of max)
  finished i max e b r = go max (λ k q h. b k q (before k q h) h) r
    where
      before : (k : ℕ) (q : Prefix) → get_elem? all k ≡ some q → k < i
      before k q h = elim (dec_lt k i) [
        | yes l ↦ l
        | no n ↦ absurd (clash (e (k - i) ∙ ap (get_elem? all) (rest k i n) ∙ h))
      ]
        where
          rest : (k i : ℕ) → ¬ (k < i) → i + (k - i) ≡ k
          rest k i n = omega arith

          clash : none ≡ some q → ⊥
          clash c = cc

      go :
          (max : Option (ℕ × ℕ))
          → ((k : ℕ) (q : Prefix) → get_elem? all k ≡ some q → Bounded max q)
          → IsRoot max
          → Finds (place_of max)
      go none b r = b
      go (some (j, l)) b (p, h, e, lt) =
          (p, h, omega arith, (λ k q g. let (n, m) = b k q g in (n, λ s. omega (arith, m s))))

  unlike : (l : ℕ) → (len == l) ≡ false → l ≢ len
  unlike l e c = absurd (differ (sym e ∙ (==_iff len l).1 (sym c)))
    where
      differ : false ≡ true → ⊥
      differ c = cc

  better :
      (l i : ℕ) (max : Option (ℕ × ℕ)) (q : Prefix)
      → is_better l len max ≡ true
      → Bounded max q
      → Bounded (some (i, l)) q
  better l i none q e b = ((λ c. omega arith), (λ c. omega arith))
  better l i (some (j, m)) q e (n, b) = (n, λ c. least (b c) (shorter m l e))
    where
      shorter : (m l : ℕ) → (ltb l len && (if m == 0 then true else ltb m l)) ≡ true → m ≤ l
      shorter m l e = ground arith

      least : q.len ≤ m → m ≤ l → q.len ≤ l
      least h k = omega arith

  better-lt : (l : ℕ) (max : Option (ℕ × ℕ)) → is_better l len max ≡ true → l < len
  better-lt l none e = ground arith
  better-lt l (some (j, m)) e = ground arith

  no_better :
      (p : Prefix) (max : Option (ℕ × ℕ))
      → is_better p.len len max ≡ false
      → p.len ≢ len
      → Bounded max p
  no_better p none e n = ground arith
  no_better p (some (j, m)) e n = (n, λ c. ground arith)

  search_root_from :
      (ps : List Prefix) (i : ℕ) (max : Option (ℕ × ℕ))
      → ((k : ℕ) → get_elem? ps k ≡ get_elem? all (i + k))
      → ((k : ℕ) (q : Prefix) → k < i → get_elem? all k ≡ some q → Bounded max q)
      → IsRoot max
      → Finds (search_root len ps i max)
  unfolding search_root
  search_root_from [] i max e b r = finished i max e b r
  search_root_from (p ∷ ps) i max e b r = elim (Bool-cases (len == p.len)) [
    | inl c ↦ rw (search_root, c) (p, here, sym ((==_iff len p.len).0 c))
    | inr c ↦ elim (Bool-cases (is_better p.len len max)) [
      | inl d ↦
          rw (search_root, c, d)
            (search_root_from ps (suc i) (some (i, p.len)) after
              (λ k q lt h. elim (ℕ_discrete k i) [
                | yes u ↦
                    let v = at_here k q u h in
                    (
                      (λ w. unlike p.len c (ap (λ z. z.len) v ∙ w)),
                      λ w. same_len (ap (λ z. z.len) v),
                    )
                | no n ↦ better p.len i max q d (b k q (omega arith) h)
              ])
              (p, here, refl, better-lt p.len max d))
      | inr d ↦
          rw (search_root, c, d)
            (search_root_from ps (suc i) max after
              (λ k q lt h. elim (ℕ_discrete k i) [
                | yes u ↦ subst (Bounded max) (at_here k q u h) (no_better p max d (unlike p.len c))
                | no n ↦ b k q (omega arith) h
              ])
              r)
    ]
  ]
    where
      here : get_elem? all i ≡ some p
      here = ap (get_elem? all) (plus_zero i) ∙ sym (e 0)
        where
          plus_zero : (i : ℕ) → i ≡ i + 0
          plus_zero i = omega arith

      after : (k : ℕ) → get_elem? ps k ≡ get_elem? all (suc i + k)
      after k = e (suc k) ∙ ap (get_elem? all) (moved i k)
        where
          moved : (i k : ℕ) → i + suc k ≡ suc i + k
          moved i k = omega arith

      at_here : (k : ℕ) (q : Prefix) → k ≡ i → get_elem? all k ≡ some q → p ≡ q
      at_here k q u h = inside (sym here ∙ ap (get_elem? all) (sym u) ∙ h)
        where
          inside : some p ≡ some q → p ≡ q
          inside c = cc

      same_len : {a c : ℕ} → a ≡ c → c ≤ a
      same_len h = omega arith

pub search_root_lem : (len : ℕ) (ps : List Prefix) → Finds len ps (search_root len ps 0 none)
search_root_lem len ps =
    search_root_from len ps ps 0 none (λ k. ap (get_elem? ps) (zero_plus k))
      (λ k q lt h. absurd (omega arith)) tt
  where
    zero_plus : (k : ℕ) → k ≡ 0 + k
    zero_plus k = omega arith
