-- ===== src/Begin/Fresh.antt =====
-- pkg/networkservice/common/begin: a new factory in the table.
use nsm_sdk.Prelude.{
  ℕ, ◌≡◌, ◌≢◌, ◌∙◌, refl, sym, ap, subst, inl, inr, ◌⊎◌, List, [], ◌∷◌, ◌++◌, Option, none, some,
  Bool, true, false, length, get_elem?, length-append, get-beyond, get-snoc, get-snoc_before,
  String, same, same→≡, ≡→same, same_or_not, same_not, arith, if◌then◌else◌,
}
use native.Mathlib.Decide.{dec_lt, ℕ_discrete}
use nsm_sdk.Begin.{Factory, initial, established, closed, Call, store}
use nsm_sdk.Begin.Accepts.{Leaves}
use nsm_sdk.Begin.Current.{Fits, open_at}

module _ {X M : Type 0} where
  -- A new factory for a key that the table does not have.
  module _ (fs : List (Factory X M)) (m : String → Option ℕ) (cs : List (Call X M))
      (t : Fits fs m cs) (x : Factory X M) (s : x.state ≡ initial) (r : x.request ≡ none)
      (h : m x.key ≡ none) where
    new_place :
        (g : ℕ) (y : Factory X M)
        → get_elem? (fs ++ x ∷ []) g ≡ some y
        → ((g ≡ length fs) × (x ≡ y)) ⊎ (get_elem? fs g ≡ some y)
    new_place g y b = elim (dec_lt g (length fs)) [
      | yes l ↦ inr (sym (get-snoc_before fs x g l) ∙ b)
      | no n ↦ elim (ℕ_discrete g (length fs)) [
        | yes c ↦
            inl (c, hit (subst (λ z. get_elem? (fs ++ x ∷ []) z ≡ some x) (sym c) (get-snoc fs x)))
        | no k ↦ absurd (
            beyond
              (sym (get-beyond (fs ++ x ∷ []) g (omega (arith, length-append fs (x ∷ [])))) ∙ b))
      ]
    ]
      where
        hit : get_elem? (fs ++ x ∷ []) g ≡ some x → x ≡ y
        hit a = cc

        beyond : none ≡ some y → ⊥
        beyond c = cc

    old_place :
        (g : ℕ) (y : Factory X M) → get_elem? fs g ≡ some y → get_elem? (fs ++ x ∷ []) g ≡ some y
    old_place g y b = elim (dec_lt g (length fs)) [
      | yes l ↦ get-snoc_before fs x g l ∙ b
      | no n ↦ absurd (beyond (sym (get-beyond fs g (omega arith)) ∙ b))
    ]
      where
        beyond : none ≡ some y → ⊥
        beyond c = cc

    pub Fits-snoc : Fits (fs ++ x ∷ []) (store x.key (length fs) m) cs
    Fits-snoc = record {
      placed = λ j g a. put j g (same x.key j) refl a;
      held = λ g y b u. elim (new_place g y b) [
        | inl (c, d) ↦ absurd (differ (sym s ∙ ap (λ z. z.state) d ∙ u))
        | inr d ↦ let (a, q) = t.held g y d u in (stays g y a, q)
      ];
      untouched = λ g y b u. elim (new_place g y b) [
        | inl (c, d) ↦ ap (λ z. z.request) (sym d) ∙ r
        | inr d ↦ t.untouched g y d u
      ];
      traced = λ j. subst (Leaves j cs) (sym (open_same j)) (t.traced j);
    }
      where
        differ : initial ≡ established → ⊥
        differ c = cc

        unlike : initial ≡ closed → ⊥
        unlike c = cc

        put :
            (j : String) (g : ℕ) (b : Bool)
            → same x.key j ≡ b
            → (if b then some (length fs) else m j) ≡ some g
            → (y : Factory X M) × (get_elem? (fs ++ x ∷ []) g ≡ some y)
              × (y.key ≡ j)
              × (y.state ≢ closed)
        put j g true c a = (
          x,
          subst (λ z. get_elem? (fs ++ x ∷ []) z ≡ some x) (reached a) (get-snoc fs x),
          same→≡ x.key j c,
          λ d. unlike (sym s ∙ d),
        )
          where
            reached : some (length fs) ≡ some g → length fs ≡ g
            reached e = cc
        put j g false c a = let (y, b, d, u) = t.placed j g a in (y, old_place g y b, d, u)

        stays :
            (g : ℕ) (y : Factory X M) → m y.key ≡ some g → store x.key (length fs) m y.key ≡ some g
        stays g y a = rw (store, same_not x.key y.key (λ c. apart (sym h ∙ ap m c ∙ a))) a
          where
            apart : none ≡ some g → ⊥
            apart c = cc

        open_same :
            (j : String) → open_at (fs ++ x ∷ []) (store x.key (length fs) m) j ≡ open_at fs m j
        open_same j = elim (same_or_not x.key j) [
          | inl c ↦
              subst (λ z. open_at (fs ++ x ∷ []) (store x.key (length fs) m) z ≡ open_at fs m z) c
                rw (open_at, store, ≡→same x.key x.key refl, h, get-snoc fs x, r) refl
          | inr n ↦ go (m j) refl n
        ]
          where
            go :
                (o : Option ℕ)
                → m j ≡ o
                → x.key ≢ j
                → open_at (fs ++ x ∷ []) (store x.key (length fs) m) j ≡ open_at fs m j
            go none a n = rw (open_at, store, same_not x.key j n, a) refl
            go (some g) a n =
                let (y, b, d, u) = t.placed j g a in
                rw (open_at, store, same_not x.key j n, a, old_place g y b, b) refl
