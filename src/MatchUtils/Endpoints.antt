-- ===== src/MatchUtils/Endpoints.antt =====
-- What the matching of endpoints gives.
use nsm_sdk.Prelude.{
  ◌≡◌, ◌↔◌, ◌⊎◌, ◌∙◌, inl, inr, refl, sym, subst, ap, List, [], ◌∷◌, ◌++◌, Option, Bool, true,
  false, ◌&&◌, if◌then◌else◌, String,
}
use nsm_sdk.MatchUtils.{
  Labels, is_subset, Endpoint, labels_of, Match, Service, select, candidates, is_empty, first_match,
  match_endpoint,
}

abbrev pub Among : {A : Type 0} → A → List A → Type 0
Among x [] = ⊥
Among x (y ∷ ys) = (y ≡ x) ⊎ Among x ys

Among-append :
    {A : Type 0} (x : A) (ys zs : List A) → Among x (ys ++ zs) ↔ (Among x ys ⊎ Among x zs)
Among-append x [] zs = (inr, elim [ inl m ↦ absurd m | inr m ↦ m ])
Among-append x (y ∷ ys) zs =
    let (f, g) = Among-append x ys zs in
    (
      elim [ inl p ↦ inl (inl p) | inr m ↦ elim (f m) [ inl k ↦ inl (inr k) | inr k ↦ inr k ] ],
      elim [ inl m ↦ elim m [ inl p ↦ inl p | inr k ↦ inr (g (inl k)) ] | inr m ↦ inr (g (inr m)) ],
    )

whole :
    {A : Type 0} (a b c : Bool) (x y : A) → (a && b) ≡ false → (if a && b && c then x else y) ≡ y
whole false b c x y h = refl
whole true false c x y h = refl
whole true true c x y h = absurd cc

module _ (template : String → Labels → Option String) (ns_labels : Labels) (service : String) where
  -- The labels of the endpoint for the service have those of the destination.
  abbrev pub Suits : Labels → Endpoint → Type 0
  Suits d e = is_subset template (labels_of service e) d ns_labels ≡ true

  select_step :
      (d : Labels) (x e : Endpoint) (es : List Endpoint) (b : Bool)
      → is_subset template (labels_of service e) d ns_labels ≡ b
      → Among x (select template ns_labels service d es) ↔ (Among x es × Suits d x)
      → Among x (select template ns_labels service d (e ∷ es)) ↔ (Among x (e ∷ es) × Suits d x)
  unfolding select
  select_step d x e es true h (f, g) =
      rw (h, select)
        (
          elim [ inl p ↦ (inl p, subst (Suits d) p h) | inr m ↦ let (n, s) = f m in (inr n, s) ],
          λ (m, s). elim m [ inl p ↦ inl p | inr n ↦ inr (g (n, s)) ],
        )
  select_step d x e es false h (f, g) =
      rw (h, select)
        (
          (λ m. let (n, s) = f m in (inr n, s)),
          λ (m, s). elim m [
            | inl p ↦ absurd (
                false≢true (
                  sym
                    (subst (λ y. is_subset template (labels_of service y) d ns_labels ≡ false) p h)
                  ∙ s))
            | inr n ↦ g (n, s)
          ],
        )
    where
      false≢true : false ≡ true → ⊥
      false≢true q = cc

  select_lem :
      (d : Labels) (x : Endpoint) (es : List Endpoint)
      → Among x (select template ns_labels service d es) ↔ (Among x es × Suits d x)
  select_lem d x [] = unfold select in ((λ m. absurd m), λ m. absurd m.0)
  select_lem d x (e ∷ es) = select_step d x e es _ refl (select_lem d x es)

  candidates_step :
      (c : Labels) (ds : List Labels) (x : Endpoint) (es : List Endpoint)
      → Among x (candidates template ns_labels service ds es)
        ↔ (Among x es × ((d : Labels) × Among d ds × Suits d x))
      → Among x (candidates template ns_labels service (c ∷ ds) es)
        ↔ (Among x es × ((d : Labels) × Among d (c ∷ ds) × Suits d x))
  unfolding candidates
  candidates_step c ds x es (f, g) =
      let (h, k) =
        Among-append x (select template ns_labels service c es)
          (candidates template ns_labels service ds es) in
      let (p, q) = select_lem c x es in
      (
        (λ m. elim (h m) [
          | inl y ↦ let (n, s) = p y in (n, (c, inl refl, s))
          | inr y ↦ let (n, (d, i, s)) = f y in (n, (d, inr i, s))
        ]),
        λ (m, (d, i, s)). elim i [
          | inl e ↦ k (inl (q (m, subst (λ z. Suits z x) (sym e) s)))
          | inr j ↦ k (inr (g (m, (d, j, s))))
        ],
      )

  -- A candidate is an endpoint that suits a destination.
  candidates_lem :
      (ds : List Labels) (x : Endpoint) (es : List Endpoint)
      → Among x (candidates template ns_labels service ds es)
        ↔ (Among x es × ((d : Labels) × Among d ds × Suits d x))
  candidates_lem [] x es = unfold candidates in ((λ m. absurd m), λ (m, (d, k, s)). absurd k)
  candidates_lem (c ∷ ds) x es =
      let (f, g) = candidates_lem ds x es in candidates_step c ds x es (f, g)

  -- The match has labels that the request has, and is not one to fall through.
  abbrev pub Applies : Match → List Endpoint → Type 0
  Applies m es =
      (is_subset template ns_labels m.source_selector ns_labels ≡ true)
      × ((m.is_fallthrough && is_empty (candidates template ns_labels service m.routes es)) ≡ false)

  abbrev pub NoneApplies : List Match → List Endpoint → Type 0
  NoneApplies [] es = Unit {0}
  NoneApplies (m ∷ ms) es = (¬ Applies m es) × NoneApplies ms es

  skip_step :
      (m : Match) (ms : List Match) (es : List Endpoint) (a b : Bool)
      → is_subset template ns_labels m.source_selector ns_labels ≡ a
      → (m.is_fallthrough && is_empty (candidates template ns_labels service m.routes es)) ≡ b
      → ¬ Applies m es
      → first_match template ns_labels service (m ∷ ms) es
        ≡ first_match template ns_labels service ms es
  unfolding first_match
  skip_step m ms es false b h k fails = rw (h, first_match) refl
  skip_step m ms es true true h k fails = rw (h, k, first_match) refl
  skip_step m ms es true false h k fails = absurd (fails (h, k))

  skip_lem :
      (ms ns : List Match) (es : List Endpoint)
      → NoneApplies ms es
      → first_match template ns_labels service (ms ++ ns) es
        ≡ first_match template ns_labels service ns es
  skip_lem [] ns es h = refl
  skip_lem (m ∷ ms) ns es (fails, h) =
      skip_step m (ms ++ ns) es _ _ refl refl fails ∙ skip_lem ms ns es h

  skip_all :
      (ms : List Match) (es : List Endpoint)
      → NoneApplies ms es
      → first_match template ns_labels service ms es ≡ []
  skip_all [] es h = unfold first_match in refl
  skip_all (m ∷ ms) es (fails, h) = skip_step m ms es _ _ refl refl fails ∙ skip_all ms es h

  take_step :
      (m : Match) (ms : List Match) (es : List Endpoint)
      → Applies m es
      → (m.has_metadata && is_empty m.routes) ≡ false
      → first_match template ns_labels service (m ∷ ms) es
        ≡ candidates template ns_labels service m.routes es
  unfolding first_match
  take_step m ms es (h, k) n =
      rw (h, k, first_match) (whole m.has_metadata (is_empty m.routes) _ es _ n)

match_endpoint_some :
    (template : String → Labels → Option String) (ns_labels : Labels) (ns : Service)
    (es : List Endpoint) (m : Match) (ms : List Match)
    → ns.matches ≡ m ∷ ms
    → match_endpoint template ns_labels ns es ≡ first_match template ns_labels ns.name (m ∷ ms) es
unfolding match_endpoint
match_endpoint_some template ns_labels ns es m ms e =
    rw (e, match_endpoint) (ap (λ k. first_match template ns_labels ns.name k es) e)

-- A service that has matches gives, by the first of them that applies, just the endpoints that suit
-- a destination of it. A match applies if the request has its labels, and it is not one to fall
-- through that no endpoint suits. The match is taken not to be one of metadata alone.
pub match_endpoint_lem :
    (template : String → Labels → Option String) (ns_labels : Labels) (ns : Service)
    (es : List Endpoint) (ms : List Match) (m : Match) (rest : List Match) (x : Endpoint)
    → ns.matches ≡ ms ++ m ∷ rest
    → NoneApplies template ns_labels ns.name ms es
    → Applies template ns_labels ns.name m es
    → (m.has_metadata && is_empty m.routes) ≡ false
    → Among x (match_endpoint template ns_labels ns es)
      ↔ (Among x es × ((d : Labels) × Among d m.routes × Suits template ns_labels ns.name d x))
match_endpoint_lem template ns_labels ns es ms m rest x e passed h n =
    subst
      (λ ys.
        Among x ys
        ↔ (Among x es × ((d : Labels) × Among d m.routes × Suits template ns_labels ns.name d x)))
      (sym (start ms e passed ∙ take_step template ns_labels ns.name m rest es h n))
      (candidates_lem template ns_labels ns.name m.routes x es)
  where
    start :
        (ms : List Match)
        → ns.matches ≡ ms ++ m ∷ rest
        → NoneApplies template ns_labels ns.name ms es
        → match_endpoint template ns_labels ns es
          ≡ first_match template ns_labels ns.name (m ∷ rest) es
    start [] e t = match_endpoint_some template ns_labels ns es m rest e
    start (k ∷ ks) e t =
        match_endpoint_some template ns_labels ns es k (ks ++ m ∷ rest) e
        ∙ skip_lem template ns_labels ns.name (k ∷ ks) (m ∷ rest) es t

-- A service of whose matches none applies gives no endpoint, and one without matches gives all.
pub match_endpoint_rest :
    (template : String → Labels → Option String) (ns_labels : Labels) (ns : Service)
    (es : List Endpoint)
    → ((ns.matches ≡ []) → match_endpoint template ns_labels ns es ≡ es)
      × ((m : Match) (ms : List Match)
          → ns.matches ≡ m ∷ ms
          → NoneApplies template ns_labels ns.name (m ∷ ms) es
          → match_endpoint template ns_labels ns es ≡ [])
unfolding match_endpoint first_match
match_endpoint_rest template ns_labels ns es = (
  (λ e. rw (e, match_endpoint) refl),
  λ m ms e t.
      match_endpoint_some template ns_labels ns es m ms e
      ∙ skip_all template ns_labels ns.name (m ∷ ms) es t,
)
