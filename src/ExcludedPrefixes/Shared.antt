-- ===== src/ExcludedPrefixes/Shared.antt =====
-- What the client of pkg/networkservice/common/excludedprefixes keeps excluded: removeDuplicates,
-- exclude, and a Request followed by a Close.
use nsm_sdk.Prelude.{
  arith, ℕ, ◌≡◌, inl, inr, refl, sym, ◌∙◌, ap, List, [], ◌∷◌, ◌++◌, Option, none, some, Bool, true,
  false, not, ◌&&◌, ◌||◌, String, same, same→≡, ≡→same, Bool-cases,
}
use nsm_sdk.IpPool.Pool.Access.{Ip, IpNet}
use nsm_sdk.ExcludedPrefixes.{
  other_groups, has, remove_encountered, remove_duplicates, exclude, IpContext, Client,
  check_awareness_groups, taken, remember, close, request, request_in, validate_ips, sent_prefixes,
  sent_context, get_route_prefixes, Answer,
}

or_assoc : (a b c : Bool) → (a || (b || c)) ≡ ((a || b) || c)
or_assoc true b c = refl
or_assoc false b c = refl

and_false : (a : Bool) → (a && false) ≡ false
and_false true = refl
and_false false = refl

has-append : (x : String) (xs ys : List String) → has x (xs ++ ys) ≡ (has x xs || has x ys)
unfolding has
has-append x [] ys = refl
has-append x (y ∷ xs) ys =
    ap (λ b. same y x || b) (has-append x xs ys) ∙ or_assoc (same y x) (has x xs) (has x ys)

has-same :
    (x y : String) (xs : List String) (b : Bool) → same y x ≡ true → has y xs ≡ b → has x xs ≡ b
has-same x y xs b e h = ap (λ z. has z xs) (sym (same→≡ y x e)) ∙ h

-- An element stays when it is not one of those to exclude.
pub has-exclude :
    (x : String) (ss es : List String) → has x (exclude ss es) ≡ (has x ss && not (has x es))
unfolding has exclude
has-exclude x [] es = refl
has-exclude x (s ∷ ss) es = elim (Bool-cases (has s es)) [
  | inl e ↦ elim (Bool-cases (same s x)) [
    | inl f ↦
        let g = has-same x s es true f e in
        rw (e, f) (has-exclude x ss es ∙ rw (g) (and_false (has x ss)))
    | inr f ↦ rw (e, f) (has-exclude x ss es)
  ]
  | inr e ↦ elim (Bool-cases (same s x)) [
    | inl f ↦ let g = has-same x s es false f e in rw (e, f, g) refl
    | inr f ↦ rw (e, f) (has-exclude x ss es)
  ]
]

has-remove_encountered :
    (x : String) (ns xs : List String)
    → has x (remove_encountered ns xs) ≡ (has x xs && not (has x ns))
unfolding has remove_encountered
has-remove_encountered x ns [] = refl
has-remove_encountered x ns (y ∷ ys) = elim (Bool-cases (has y ns)) [
  | inl e ↦ elim (Bool-cases (same y x)) [
    | inl f ↦
        let g = has-same x y ns true f e in
        rw (e, f) (has-remove_encountered x ns ys ∙ rw (g) (and_false (has x ys)))
    | inr f ↦ rw (e, f) (has-remove_encountered x ns ys)
  ]
  | inr e ↦ elim (Bool-cases (same y x)) [
    | inl f ↦ let g = has-same x y ns false f e in rw (e, f, g) refl
    | inr f ↦ rw (e, f) (has-remove_encountered x (y ∷ ns) ys ∙ rw (f) refl)
  ]
]

and_true : (a : Bool) → (a && true) ≡ a
and_true true = refl
and_true false = refl

pub has-remove_duplicates :
    (x : String) (xs : List String) → has x (remove_duplicates xs) ≡ has x xs
unfolding has remove_duplicates
has-remove_duplicates x xs = has-remove_encountered x [] xs ∙ and_true (has x xs)

-- No element of what is left is found again behind it.
pub Unique : List String → Type 0
Unique [] = Unit
Unique (x ∷ xs) = (has x xs ≡ false) × Unique xs

Unique-remove_encountered : (ns xs : List String) → Unique (remove_encountered ns xs)
unfolding remove_encountered Unique
Unique-remove_encountered ns [] = tt
Unique-remove_encountered ns (x ∷ xs) = elim (Bool-cases (has x ns)) [
  | inl e ↦ rw (e) (Unique-remove_encountered ns xs)
  | inr e ↦ rw (e) (
    has-remove_encountered x (x ∷ ns) xs ∙ rw (≡→same x x refl) (and_false (has x xs)),
    Unique-remove_encountered (x ∷ ns) xs,
  )
]

and_not : (a b c : Bool) → ((a && not b) && not c) ≡ (a && not (b || c))
and_not a b true = ground arith
and_not a b false = ground arith

or_not : (a b : Bool) → ((a || b) && not b) ≡ (a && not b)
or_not a true = ground arith
or_not a false = ground arith

-- All that `Close` takes out: what the connection took, and the prefixes it excludes.
unfoldable pub released : (String → ℕ × ℕ) → IpContext → List String
unfolding taken
released mask_size r = taken mask_size r ++ r.excluded_prefixes

-- Two lists taken out one after the other, as one.
exclude-exclude :
    (x : String) (l k n m : List String)
    → has x k ≡ (has x l && not (has x n))
    → has x (exclude k m) ≡ (has x l && not (has x (n ++ m)))
exclude-exclude x l k n m h =
    has-exclude x k m
    ∙ ap (λ b. b && not (has x m)) h
    ∙ and_not (has x l) (has x n) (has x m)
    ∙ ap (λ b. has x l && not b) (sym (has-append x n m))

has-close :
    (mask_size : String → ℕ × ℕ) (url x : String) (r : IpContext) (c : Client)
    → has x (close mask_size url r c).excluded_prefixes
      ≡ (has x c.excluded_prefixes && not (has x (released mask_size r)))
unfolding close taken released
has-close mask_size url x r c =
    let d = get_route_prefixes mask_size r.src_routes in
    let e = get_route_prefixes mask_size r.dst_routes in
    let a = has-exclude x c.excluded_prefixes r.src_ip_addrs in
    let b = exclude-exclude x c.excluded_prefixes _ r.src_ip_addrs r.dst_ip_addrs a in
    let f = exclude-exclude x c.excluded_prefixes _ (r.src_ip_addrs ++ r.dst_ip_addrs) d b in
    let g = exclude-exclude x c.excluded_prefixes _ ((r.src_ip_addrs ++ r.dst_ip_addrs) ++ d) e f in
    let h =
      exclude-exclude x c.excluded_prefixes _ (((r.src_ip_addrs ++ r.dst_ip_addrs) ++ d) ++ e)
        r.excluded_prefixes g in
    h

granted :
    (mask_size : String → ℕ × ℕ) (parse : String → Option (Ip × IpNet))
    (next : IpContext → Option IpContext) (c r : IpContext) (s : Client)
    → next (sent_context c s.excluded_prefixes (other_groups 0 none s.awareness_groups)) ≡ some r
    → validate_ips mask_size parse r
        (sent_prefixes c s.excluded_prefixes (other_groups 0 none s.awareness_groups))
      ≡ some true
    → request_in mask_size parse none next c s
      ≡ some (record {
        response = some r;
        ip_context = c;
        client = remember mask_size none r s;
        is_closed = false;
      })
unfolding request_in
granted mask_size parse next c r s n v = rw (request_in, n, v) refl

-- A connection whose URL is in no awareness group: when the chain behind answers a request with
-- addresses that are not excluded, the client excludes afterwards what it did before and what the
-- response takes or excludes itself, each prefix once, and the request's context is left as it was.
-- A `Close` with the response then takes all of that out: what is excluded is what was excluded
-- before, less every prefix that the response has, also one that another connection still takes.
pub request-close_shared :
    (mask_size : String → ℕ × ℕ) (parse : String → Option (Ip × IpNet)) (url : String)
    (next : IpContext → Option IpContext) (c r : IpContext) (s : Client)
    → check_awareness_groups url s.awareness_groups ≡ none
    → next (sent_context c s.excluded_prefixes (other_groups 0 none s.awareness_groups)) ≡ some r
    → validate_ips mask_size parse r
        (sent_prefixes c s.excluded_prefixes (other_groups 0 none s.awareness_groups))
      ≡ some true
    → (a : Answer) × (request mask_size parse url next c s ≡ some a)
      × (a.response ≡ some r)
      × (a.ip_context ≡ c)
      × Unique a.client.excluded_prefixes
      × ((x : String)
          → has x a.client.excluded_prefixes
            ≡ (has x s.excluded_prefixes || has x (released mask_size r)))
      × ((x : String)
          → has x (close mask_size url r a.client).excluded_prefixes
            ≡ (has x s.excluded_prefixes && not (has x (released mask_size r))))
unfolding request remember released remove_duplicates
request-close_shared mask_size parse url next c r s g n v =
    let kept : (x : String)
        → has x (remember mask_size none r s).excluded_prefixes
          ≡ (has x s.excluded_prefixes || has x (released mask_size r)) =
      λ x.
        has-remove_duplicates x (s.excluded_prefixes ++ released mask_size r)
        ∙ has-append x s.excluded_prefixes (released mask_size r) in
    (
      record {
        response = some r;
        ip_context = c;
        client = remember mask_size none r s;
        is_closed = false;
      },
      ap (λ p. request_in mask_size parse p next c s) g ∙ granted mask_size parse next c r s n v,
      refl,
      refl,
      Unique-remove_encountered [] _,
      kept,
      λ x.
          has-close mask_size url x r (remember mask_size none r s)
          ∙ ap (λ b. b && not (has x (released mask_size r))) (kept x)
          ∙ or_not (has x s.excluded_prefixes) (has x (released mask_size r)),
    )
