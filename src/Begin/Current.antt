-- ===== src/Begin/Current.antt =====
-- pkg/networkservice/common/begin: the table, the factories and the calls of the server fit together.
use nsm_sdk.Prelude.{
  ℕ, ◌≡◌, ◌≢◌, ◌∙◌, refl, sym, ap, subst, inl, inr, ◌⊎◌, List, [], Option, none, some, Bool, true,
  false, ◌<◌, length, get_elem?, set, get-beyond, get-set, get-set_other, String, same, ≡→same,
  same→≢, same_or_not, same_not, arith, if◌then◌else◌,
}
use native.Mathlib.Decide.{dec_lt, ℕ_discrete}
use nsm_sdk.Begin.{
  Connection, Request, Factory, initial, established, closed, Call, is_established, delete,
}
use nsm_sdk.Begin.Accepts.{Leaves, no_call}

module _ {X M : Type 0} where
  abbrev pub kept : Option (Factory X M) → Option (Connection X M)
  kept none = none
  kept (some x) = elim x.request [
    | none ↦ none
    | some q ↦ if is_established x.state then some q.connection else none
  ]

  abbrev pub open_at : List (Factory X M) → (String → Option ℕ) → String → Option (Connection X M)
  open_at fs m k = elim (m k) [ none ↦ none | some f ↦ kept (get_elem? fs f) ]

  -- The table leads to factories of its keys that are not closed, it leads to every established
  -- factory, which has a request, and the calls leave open what the established factories keep.
  pub record Fits (fs : List (Factory X M)) (m : String → Option ℕ) (cs : List (Call X M))
      : Type 0 where
    pub placed :
        (k : String) (f : ℕ)
        → m k ≡ some f
        → (x : Factory X M) × (get_elem? fs f ≡ some x) × (x.key ≡ k) × (x.state ≢ closed)
    pub held :
        (f : ℕ) (x : Factory X M)
        → get_elem? fs f ≡ some x
        → x.state ≡ established
        → (m x.key ≡ some f) × ((q : Request X M) × (x.request ≡ some q))
    pub untouched :
        (f : ℕ) (x : Factory X M) → get_elem? fs f ≡ some x → x.state ≡ initial → x.request ≡ none
    pub traced : (k : String) → Leaves k cs (open_at fs m k)

  pub empty-Fits : Fits [] (λ k. none) []
  empty-Fits = record {
    placed = λ k f e. absurd cc;
    held = λ f x e. absurd cc;
    untouched = λ f x e. absurd cc;
    traced = λ k. (none, no_call, tt);
  }

  -- One factory changes, which the table leads to.
  module _ (fs : List (Factory X M)) (m : String → Option ℕ) (cs : List (Call X M))
      (t : Fits fs m cs) (f : ℕ) (x x' : Factory X M) (e : get_elem? fs f ≡ some x)
      (h : m x.key ≡ some f) (k' : x'.key ≡ x.key) where
    inside : f < length fs
    inside = elim (dec_lt f (length fs)) [
      | yes l ↦ l
      | no n ↦ absurd (clash (sym (get-beyond fs f (omega arith)) ∙ e))
    ]
      where
        clash : none ≡ some x → ⊥
        clash c = cc

    at_f : get_elem? (set fs f x') f ≡ some x'
    at_f = get-set fs f x' inside

    -- What the table leads to from another key is another factory.
    apart : (j : String) (g : ℕ) → m j ≡ some g → j ≢ x.key → f ≢ g
    apart j g a n c =
        let (y, b, d, u) = t.placed j g a in
        absurd (n (sym d ∙ ap (λ z. z.key) (same_factory y (ap (get_elem? fs) c ∙ b))))
      where
        same_factory : (y : Factory X M) → get_elem? fs f ≡ some y → y ≡ x
        same_factory y b = cc

    open_other : (j : String) → j ≢ x.key → open_at (set fs f x') m j ≡ open_at fs m j
    open_other j n = go (m j) refl
      where
        go : (o : Option ℕ) → m j ≡ o → open_at (set fs f x') m j ≡ open_at fs m j
        go none a = rw (a, open_at) refl
        go (some g) a = rw (a, open_at, get-set_other fs f g x' (apart j g a n)) refl

    placed_after :
        (j : String) (g : ℕ)
        → m j ≡ some g
        → x'.state ≢ closed
        → (y : Factory X M) × (get_elem? (set fs f x') g ≡ some y)
          × (y.key ≡ j)
          × (y.state ≢ closed)
    placed_after j g a u =
        let (y, b, d, v) = t.placed j g a in
        elim (ℕ_discrete f g) [
          | yes c ↦
              (x', subst (λ z. get_elem? (set fs f x') z ≡ some x') c at_f, k' ∙ key_at y c b d, u)
          | no n ↦ (y, get-set_other fs f g x' n ∙ b, d, v)
        ]
      where
        key_at : (y : Factory X M) → f ≡ g → get_elem? fs g ≡ some y → y.key ≡ j → x.key ≡ j
        key_at y c b d = ap (λ z. z.key) (same_as y (ap (get_elem? fs) c ∙ b)) ∙ d
          where
            same_as : (y : Factory X M) → get_elem? fs f ≡ some y → x ≡ y
            same_as y b = cc

    -- What stands at a place after the write.
    at_place :
        (g : ℕ) (y : Factory X M)
        → get_elem? (set fs f x') g ≡ some y
        → ((f ≡ g) × (x' ≡ y)) ⊎ ((f ≢ g) × (get_elem? fs g ≡ some y))
    at_place g y b = elim (ℕ_discrete f g) [
      | yes c ↦ inl (c, hit (subst (λ z. get_elem? (set fs f x') z ≡ some x') c at_f))
      | no n ↦ inr (n, sym (get-set_other fs f g x' n) ∙ b)
    ]
      where
        hit : get_elem? (set fs f x') g ≡ some x' → x' ≡ y
        hit a = cc

    -- The factory keeps a connection: it is established from now on.
    pub Fits-set :
        (cs' : List (Call X M)) (q : Request X M)
        → x'.state ≡ established
        → x'.request ≡ some q
        → Leaves x.key cs' (some q.connection)
        → ((j : String) → j ≢ x.key → Leaves j cs' (open_at fs m j))
        → Fits (set fs f x') m cs'
    Fits-set cs' q s r l o = record {
      placed = λ j g a. placed_after j g a (λ c. differ (sym s ∙ c));
      held = λ g y b u. elim (at_place g y b) [
        | inl (c, d) ↦ (
          ap m (ap (λ z. z.key) (sym d) ∙ k') ∙ h ∙ ap some c,
          (q, ap (λ z. z.request) (sym d) ∙ r),
        )
        | inr (n, d) ↦ t.held g y d u
      ];
      untouched = λ g y b u. elim (at_place g y b) [
        | inl (c, d) ↦ absurd (differ' (sym s ∙ ap (λ z. z.state) d ∙ u))
        | inr (n, d) ↦ t.untouched g y d u
      ];
      traced = λ j. elim (same_or_not j x.key) [
        | inl c ↦
            subst (λ z. Leaves z cs' (open_at (set fs f x') m z)) (sym c)
              (subst (Leaves x.key cs') (sym open_here) l)
        | inr n ↦ subst (Leaves j cs') (sym (open_other j n)) (o j n)
      ];
    }
      where
        differ : established ≡ closed → ⊥
        differ c = cc

        differ' : established ≡ initial → ⊥
        differ' c = cc

        open_here : open_at (set fs f x') m x.key ≡ some q.connection
        open_here = rw (h, open_at, at_f, r, s) refl

    -- The factory is closed and its key deleted.
    pub Fits-delete :
        (cs' : List (Call X M))
        → x'.state ≡ closed
        → Leaves x.key cs' none
        → ((j : String) → j ≢ x.key → Leaves j cs' (open_at fs m j))
        → Fits (set fs f x') (delete x.key m) cs'
    Fits-delete cs' s l o = record {
      placed = λ j g a.
          let (n, b) = left j g (same x.key j) refl a in
          let (y, c, d, u) = t.placed j g b in
          (y, get-set_other fs f g x' (apart j g b n) ∙ c, d, u);
      held = λ g y b u. elim (at_place g y b) [
        | inl (c, d) ↦ absurd (differ (sym s ∙ ap (λ z. z.state) d ∙ u))
        | inr (n, d) ↦ let (a, q) = t.held g y d u in (stays g y n a, q)
      ];
      untouched = λ g y b u. elim (at_place g y b) [
        | inl (c, d) ↦ absurd (differ' (sym s ∙ ap (λ z. z.state) d ∙ u))
        | inr (n, d) ↦ t.untouched g y d u
      ];
      traced = λ j. elim (same_or_not j x.key) [
        | inl c ↦
            subst (λ z. Leaves z cs' (open_at (set fs f x') (delete x.key m) z)) (sym c)
              (subst (Leaves x.key cs') (sym open_here) l)
        | inr n ↦ subst (Leaves j cs') (sym (open_there j n ∙ open_other j n)) (o j n)
      ];
    }
      where
        differ : closed ≡ established → ⊥
        differ c = cc

        differ' : closed ≡ initial → ⊥
        differ' c = cc

        left :
            (j : String) (g : ℕ) (b : Bool)
            → same x.key j ≡ b
            → (if b then none else m j) ≡ some g
            → (j ≢ x.key) × (m j ≡ some g)
        left j g true c a = absurd cc
        left j g false c a = ((λ d. same→≢ x.key j c (sym d)), a)

        stays : (g : ℕ) (y : Factory X M) → f ≢ g → m y.key ≡ some g → delete x.key m y.key ≡ some g
        stays g y n a =
            rw (delete, same_not x.key y.key (λ c. n (two_places (sym h ∙ ap m c ∙ a)))) a
          where
            two_places : some f ≡ some g → f ≡ g
            two_places c = cc

        open_here : open_at (set fs f x') (delete x.key m) x.key ≡ none
        open_here = rw (open_at, delete, ≡→same x.key x.key refl) refl

        open_there :
            (j : String)
            → j ≢ x.key
            → open_at (set fs f x') (delete x.key m) j ≡ open_at (set fs f x') m j
        open_there j n = rw (open_at, delete, same_not x.key j (λ c. n (sym c))) refl
