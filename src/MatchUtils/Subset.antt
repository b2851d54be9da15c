-- ===== src/MatchUtils/Subset.antt =====
-- What the tests of two label maps and of two lists of names mean.
use native.Mathlib.Decide.{dec_lt}
use nsm_sdk.Prelude.{
  ◌≤◌, ◌≡◌, ◌≢◌, ◌↔◌, ◌⊎◌, ◌∙◌, inl, inr, refl, sym, subst, arith, List, [], ◌∷◌, Option, Bool,
  true, false, ltb, length, String, same, same→≡, same→≢, Bool-cases, lt→ltb,
}
use nsm_sdk.MatchUtils.{
  Labels, value_of, process_labels, all_match, is_subset, delete, delete_all, contains,
}

-- The entry stands in the map; the string stands in the list.
abbrev pub Entry : {A : Type 0} → String → A → List (String × A) → Type 0
Entry k v [] = ⊥
Entry k v ((j, w) ∷ m) = ((j ≡ k) × (w ≡ v)) ⊎ Entry k v m

abbrev pub In : String → List String → Type 0
In s [] = ⊥
In s (t ∷ ts) = (t ≡ s) ⊎ In s ts

-- The value of a label is the wanted one, or what the template makes of it.
abbrev pub Agrees : (String → Labels → Option String) → Labels → Labels → String → String → Type 0
Agrees template a values k v =
    (value_of k a ≡ v) ⊎ (value_of k a ≡ process_labels template v values)

module _ (template : String → Labels → Option String) (a values : Labels) where
  all_match_step :
      (k v : String) (b : Labels) (x y : Bool)
      → same (value_of k a) v ≡ x
      → same (value_of k a) (process_labels template v values) ≡ y
      → (all_match template a b values ≡ true)
        ↔ ((j u : String) → Entry j u b → Agrees template a values j u)
      → (all_match template a ((k, v) ∷ b) values ≡ true)
        ↔ ((j u : String) → Entry j u ((k, v) ∷ b) → Agrees template a values j u)
  unfolding all_match
  all_match_step k v b true y e h (f, g) =
      rw (e, all_match)
        (
          (λ t j u. elim [
            | inl (p, q) ↦
                subst (λ i. Agrees template a values i u) p
                  (subst (Agrees template a values k) q (inl (same→≡ _ _ e)))
            | inr m ↦ f t j u m
          ]),
          λ all. g (λ j u m. all j u (inr m)),
        )
  all_match_step k v b false true e h (f, g) =
      rw (e, h, all_match)
        (
          (λ t j u. elim [
            | inl (p, q) ↦
                subst (λ i. Agrees template a values i u) p
                  (subst (Agrees template a values k) q (inr (same→≡ _ _ h)))
            | inr m ↦ f t j u m
          ]),
          λ all. g (λ j u m. all j u (inr m)),
        )
  all_match_step k v b false false e h (f, g) =
      rw (e, h, all_match)
        (
          (λ t. absurd cc),
          λ all. elim (all k v (inl (refl, refl))) [
            | inl x ↦ absurd (same→≢ _ _ e x)
            | inr x ↦ absurd (same→≢ _ _ h x)
          ],
        )

  all_match_lem :
      (b : Labels)
      → (all_match template a b values ≡ true)
        ↔ ((k v : String) → Entry k v b → Agrees template a values k v)
  all_match_lem [] = unfold all_match in ((λ e k v m. absurd m), λ h. refl)
  all_match_lem ((k, v) ∷ b) = all_match_step k v b _ _ refl refl (all_match_lem b)

-- `IsSubset` is true exactly if the map has no fewer entries, and has under each key of the other
-- the value that stands there or the one that the template makes of it. A missing key has the empty
-- value.
pub is_subset_lem :
    (template : String → Labels → Option String) (a b values : Labels)
    → (is_subset template a b values ≡ true)
      ↔ ((length b ≤ length a) × ((k v : String) → Entry k v b → Agrees template a values k v))
unfolding is_subset
is_subset_lem template a b values = elim (dec_lt (length a) (length b)) [
  | yes h ↦ rw (lt→ltb (length a) (length b) h) ((λ e. absurd cc), λ (k, all). absurd (omega arith))
  | no h ↦
      let (f, g) = all_match_lem template a values b in
      let l : ltb (length a) (length b) ≡ false = ground arith in
      rw l ((λ e. (omega arith, f e)), λ (k, all). g all)
]

In-delete_step :
    (s t u : String) (ts : List String) (x : Bool)
    → same u t ≡ x
    → In s (delete t ts) ↔ (In s ts × (s ≢ t))
    → In s (delete t (u ∷ ts)) ↔ (In s (u ∷ ts) × (s ≢ t))
unfolding delete
In-delete_step s t u ts true e (f, g) =
    rw (e, delete)
      (
        (λ m. let (n, d) = f m in (inr n, d)),
        λ (m, d). elim m [ inl p ↦ absurd (d (sym p ∙ same→≡ u t e)) | inr n ↦ g (n, d) ],
      )
In-delete_step s t u ts false e (f, g) =
    rw (e, delete)
      (
        elim [
          | inl p ↦ (inl p, λ q. same→≢ u t e (p ∙ q))
          | inr m ↦ let (n, d) = f m in (inr n, d)
        ],
        λ (m, d). elim m [ inl p ↦ inl p | inr n ↦ inr (g (n, d)) ],
      )

In-delete : (s t : String) (ts : List String) → In s (delete t ts) ↔ (In s ts × (s ≢ t))
In-delete s t [] = unfold delete in ((λ m. absurd m), λ m. absurd m.0)
In-delete s t (u ∷ ts) = In-delete_step s t u ts _ refl (In-delete s t ts)

In-delete_all :
    (s : String) (whole set : List String)
    → In s (delete_all whole set) ↔ (In s set × (¬ In s whole))
unfolding delete_all
In-delete_all s [] set = ((λ m. (m, λ x. x)), λ m. m.0)
In-delete_all s (t ∷ ts) set =
    let (f, g) = In-delete_all s ts (delete t set) in
    let (f', g') = In-delete s t set in
    (
      (λ m.
          let (n, out) = f m in
          let (k, d) = f' n in (k, elim [ inl p ↦ d (sym p) | inr x ↦ out x ])),
      λ (m, out). g (g' (m, λ p. out (inl (sym p))), λ x. out (inr x)),
    )

In? : (s : String) (ts : List String) → In s ts ⊎ (¬ In s ts)
In? s [] = inr (λ m. m)
In? s (t ∷ ts) = elim (Bool-cases (same t s)) [
  | inl e ↦ inl (inl (same→≡ t s e))
  | inr e ↦ elim (In? s ts) [
    | inl m ↦ inl (inr m)
    | inr out ↦ inr (elim [ inl p ↦ same→≢ t s e p | inr m ↦ out m ])
  ]
]

empty_test :
    (xs : List String)
    → ((elim xs [ [] ↦ true | s ∷ ss ↦ false ]) ≡ true) ↔ ((s : String) → ¬ In s xs)
empty_test [] = ((λ e s m. m), λ h. refl)
empty_test (x ∷ xs) = ((λ e. absurd cc), λ h. absurd (h x (inl refl)))

-- `contains` is true exactly if every string of the list `what` stands in the other list.
pub contains_lem :
    (whole what : List String)
    → (contains whole what ≡ true) ↔ ((s : String) → In s what → In s whole)
unfolding contains
contains_lem whole what =
    let (f, g) = empty_test (delete_all whole what) in
    (
      (λ e s m. elim (In? s whole) [
        | inl k ↦ k
        | inr out ↦ absurd (f e s ((In-delete_all s whole what).1 (m, out)))
      ]),
      λ h. g (λ s m. let (k, out) = (In-delete_all s whole what).0 m in out (h s k)),
    )
