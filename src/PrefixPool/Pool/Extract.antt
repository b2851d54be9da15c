-- ===== src/PrefixPool/Pool/Extract.antt =====
-- pkg/tools/prefixpool/prefixpool.go: what `ExtractPrefixes` and `Extract` take out of the pool.
use nsm_sdk.Prelude.{
  ℕ, zero, suc, ◌+◌, ◌-◌, ◌%◌, ◌^◌, ◌≤◌, ◌≡◌, ◌∙◌, refl, ap, inl, inr, ◌⊎◌, List, [], ◌∷◌, ◌++◌,
  none, some, Bool, true, false, if◌then◌else◌, Bool-cases, arith, length, length-append,
}
use nsm_sdk.PrefixPool.{
  Ip, Prefix, PoolError, nothing_extracted, not_valid, Split, parted, failed, out_of_fuel, contains,
  extract_prefix,
}
use nsm_sdk.PrefixPool.Halves.{covers, covers-append}
use nsm_sdk.PrefixPool.Room.{AllFit, Takes, extract_prefix_lem}
use nsm_sdk.PrefixPool.Pool.{
  Request, Extracted, extract_required, extract_all_required, extract_requested,
  extract_all_requested, all_valid, nothing, extract_prefixes, increment_ip, IpFamily, family_len,
  whole_request,
}

-- What one call takes, for the loops.
pub one_prefix :
    (ps : List Prefix) (len : ℕ)
    → AllFit ps
    → ((q : Prefix) × (rest : List Prefix) × (extract_prefix ps len ≡ parted (q, rest))
        × Takes ps len q rest)
      ⊎ ((e : PoolError) × (extract_prefix ps len ≡ failed e))
one_prefix ps len f = elim (extract_prefix_lem ps len f) [
  | inl t ↦ inl t
  | inr (inl (e, n)) ↦ inr (_, e)
  | inr (inr (e, n)) ↦ inr (_, e)
]

-- Prefixes move from the list to the result and are cut on the way.
abbrev pub Moves : ℕ → ℕ → Extracted → Extracted → Type 0
Moves least most (res, ps) (res', ps') =
    AllFit ps'
    × ((a : Ip) → covers res' a + covers ps' a ≡ covers res a + covers ps a)
    × (length res + least ≤ length res')
    × (length res' ≤ length res + most)

moved_one :
    (res ps rest : List Prefix) (len : ℕ) (q : Prefix) (a : Ip)
    → Takes ps len q rest
    → covers (res ++ q ∷ []) a + covers rest a ≡ covers res a + covers ps a
moved_one res ps rest len q a (l, n, f, t) = omega (arith, t a, covers-append res (q ∷ []) a)

extract_required_lem :
    (n len : ℕ) (res ps : List Prefix)
    → AllFit ps
    → ((y : Extracted) × (extract_required n len (res, ps) ≡ parted y) × Moves n n (res, ps) y)
      ⊎ ((e : PoolError) × (extract_required n len (res, ps) ≡ failed e))
unfolding extract_required
extract_required_lem zero len res ps f =
    inl ((res, ps), refl, (f, (λ a. refl), omega arith, omega arith))
extract_required_lem (suc n) len res ps f = elim (one_prefix ps len f) [
  | inr (e, h) ↦ inr (e, rw (extract_required, h) refl)
  | inl (q, rest, h, t) ↦ elim (extract_required_lem n len (res ++ q ∷ []) rest t.2) [
    | inr (e, g) ↦ inr (e, rw (extract_required, h) g)
    | inl ((res', ps'), g, (w, m, lo, hi)) ↦ inl (
      (res', ps'),
      rw (extract_required, h) g,
      (
        w,
        (λ a. omega (arith, m a, moved_one res ps rest len q a t)),
        omega (arith, lo, length-append res (q ∷ [])),
        omega (arith, hi, length-append res (q ∷ [])),
      ),
    )
  ]
]

extract_requested_lem :
    (n len : ℕ) (res ps : List Prefix)
    → AllFit ps
    → Moves 0 n (res, ps) (extract_requested n len (res, ps))
unfolding extract_requested
extract_requested_lem zero len res ps f = (f, (λ a. refl), omega arith, omega arith)
extract_requested_lem (suc n) len res ps f = elim (one_prefix ps len f) [
  | inr (e, h) ↦ rw (extract_requested, h) (f, (λ a. refl), omega arith, omega arith)
  | inl (q, rest, h, t) ↦
      let (w, m, lo, hi) = extract_requested_lem n len (res ++ q ∷ []) rest t.2 in
      rw (extract_requested, h)
        (
          w,
          (λ a. m a ∙ moved_one res ps rest len q a t),
          omega (arith, lo, length-append res (q ∷ [])),
          omega (arith, hi, length-append res (q ∷ [])),
        )
]

-- The numbers that all requests require, and what they ask for at most.
abbrev pub all_required : List Request → ℕ
all_required [] = 0
all_required (r ∷ rs) = r.required + all_required rs

abbrev pub all_requested : List Request → ℕ
all_requested [] = 0
all_requested (r ∷ rs) = r.requested - r.required + all_requested rs

extract_all_required_lem :
    (rs : List Request) (res ps : List Prefix)
    → AllFit ps
    → ((y : Extracted) × (extract_all_required rs (res, ps) ≡ parted y)
        × Moves (all_required rs) (all_required rs) (res, ps) y)
      ⊎ ((e : PoolError) × (extract_all_required rs (res, ps) ≡ failed e))
unfolding extract_all_required
extract_all_required_lem [] res ps f =
    inl ((res, ps), refl, (f, (λ a. refl), omega arith, omega arith))
extract_all_required_lem (r ∷ rs) res ps f =
    elim (extract_required_lem r.required r.prefix_len res ps f) [
      | inr (e, h) ↦ inr (e, rw (extract_all_required, h) refl)
      | inl ((res', ps'), h, (w, m, lo, hi)) ↦ elim (extract_all_required_lem rs res' ps' w) [
        | inr (e, g) ↦ inr (e, rw (extract_all_required, h) g)
        | inl ((res'', ps''), g, (w', m', lo', hi')) ↦ inl (
          (res'', ps''),
          rw (extract_all_required, h) g,
          (w', (λ a. m' a ∙ m a), omega arith, omega arith),
        )
      ]
    ]

extract_all_requested_lem :
    (rs : List Request) (res ps : List Prefix)
    → AllFit ps
    → Moves 0 (all_requested rs) (res, ps) (extract_all_requested rs (res, ps))
unfolding extract_all_requested
extract_all_requested_lem [] res ps f = (f, (λ a. refl), omega arith, omega arith)
extract_all_requested_lem (r ∷ rs) res ps f =
    let x = extract_requested (r.requested - r.required) r.prefix_len (res, ps) in
    let (w, m, lo, hi) = extract_requested_lem (r.requested - r.required) r.prefix_len res ps f in
    let (w', m', lo', hi') = extract_all_requested_lem rs x.0 x.1 w in
    (w', (λ a. m' a ∙ m a), omega (arith, lo, lo'), omega (arith, hi, hi'))

-- What `ExtractPrefixes` has made of a list of prefixes.
abbrev pub Fills : List Request → List Prefix → Extracted → Type 0
Fills rs ps (res, rest) =
    AllFit rest
    × ((a : Ip) → covers res a + covers rest a ≡ covers ps a)
    × (all_required rs ≤ length res)
    × (length res ≤ all_required rs + all_requested rs)

-- Of prefixes whose masks fit, `ExtractPrefixes` either gives at least the number that all requests
-- require and at most what they ask for beyond that, where what it gives and what it leaves have
-- together, counted with multiplicity, exactly the addresses of before, or it gives an error. It
-- always ends.
pub extract_prefixes_lem :
    (is_valid : Request → Bool) (ps : List Prefix) (rs : List Request)
    → AllFit ps
    → ((x : Extracted) × (extract_prefixes is_valid ps rs ≡ parted x) × Fills rs ps x)
      ⊎ ((e : PoolError) × (extract_prefixes is_valid ps rs ≡ failed e))
unfolding extract_prefixes
extract_prefixes_lem is_valid ps rs f = elim (Bool-cases (all_valid is_valid rs)) [
  | inr v ↦ inr (not_valid, rw (extract_prefixes, v) refl)
  | inl v ↦ elim (extract_all_required_lem rs [] ps f) [
    | inr (e, h) ↦ inr (e, rw (extract_prefixes, v, h) refl)
    | inl ((res, ps'), h, (w, m, lo, hi)) ↦
        let x = extract_all_requested rs (res, ps') in
        let (w', m', lo', hi') = extract_all_requested_lem rs res ps' w in
        elim (Bool-cases (nothing x.0)) [
          | inl b ↦ inr (nothing_extracted, rw (extract_prefixes, v, h, b) refl)
          | inr b ↦ inl (
            x,
            rw (extract_prefixes, v, h, b) refl,
            (w', (λ a. omega (arith, m' a, m a)), omega (arith, lo, lo'), omega (arith, hi, hi')),
          )
        ]
  ]
]

pub extract_one :
    (is_valid : Request → Bool) (ps : List Prefix) (family : IpFamily)
    → is_valid (whole_request family) ≡ true
    → (o : Split (Prefix × List Prefix)) → extract_prefix ps (family_len family) ≡ o
    → extract_prefixes is_valid ps (whole_request family ∷ []) ≡ elim o [
      | parted (q, rest) ↦ parted (q ∷ [], rest)
      | failed e ↦ failed e
      | out_of_fuel ↦ out_of_fuel
    ]
unfolding extract_prefixes extract_all_required extract_required extract_all_requested
    extract_requested
extract_one is_valid ps family v (parted (q, rest)) h =
    rw (extract_prefixes, v, extract_all_required, extract_required, h) refl
extract_one is_valid ps family v (failed e) h =
    rw (extract_prefixes, v, extract_all_required, extract_required, h) refl
extract_one is_valid ps family v out_of_fuel h =
    rw (extract_prefixes, v, extract_all_required, extract_required, h) refl

pub increment_ip-contains :
    (a b : Ip) (net : Prefix)
    → increment_ip a net ≡ some b
    → (contains net b ≡ true) × (b ≡ record a { value = (a.value + 1) % 2 ^ a.bits })
unfolding increment_ip
increment_ip-contains a b net h =
    go (contains net (record a { value = (a.value + 1) % 2 ^ a.bits })) refl h
  where
    next : Ip
    next = record a { value = (a.value + 1) % 2 ^ a.bits }

    go :
        (c : Bool)
        → contains net next ≡ c
        → (if c then some next else none) ≡ some b
        → (contains net b ≡ true) × (b ≡ next)
    go false e k = absurd cc
    go true e k = (ap (contains net) (inside k) ∙ e, inside k)
      where
        inside : some next ≡ some b → b ≡ next
        inside k = cc
