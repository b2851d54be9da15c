-- ===== src/Registry/Store.antt =====
-- The store of the registry, and the application of events to what a client knows.
use nsm_sdk.Prelude.{
  ◌≡◌, ◌∙◌, refl, sym, ap, List, [], ◌∷◌, ◌++◌, Option, none, some, Bool, true, false,
  if◌then◌else◌, String, same, same→≡, same→≢, Bool-cases, inl, inr,
}
use nsm_sdk.Registry.{
  Event, load, remove, put, all_matches, added, received, apply, apply_all, view,
}

module _ {E : Type 0} (name : E → String) where
  load-remove_step :
      (k j : String) (e : E) (es : List E) (a b c : Bool)
      → same (name e) j ≡ a
      → same (name e) k ≡ b
      → same j k ≡ c
      → load E name k (remove E name j es) ≡ (if same j k then none else load E name k es)
      → load E name k (remove E name j (e ∷ es))
        ≡ (if same j k then none else load E name k (e ∷ es))
  unfolding load remove
  load-remove_step k j e es true b true x y z h = rw (x, y, z, remove, load) (h ∙ rw z refl)
  load-remove_step k j e es true false false x y z h = rw (x, y, z, remove, load) (h ∙ rw z refl)
  load-remove_step k j e es true true false x y z h =
      absurd (same→≢ j k z (sym (same→≡ _ _ x) ∙ same→≡ _ _ y))
  load-remove_step k j e es false true true x y z h =
      absurd (same→≢ _ _ x (same→≡ _ _ y ∙ sym (same→≡ _ _ z)))
  load-remove_step k j e es false true false x y z h = rw (x, y, z, remove, load) refl
  load-remove_step k j e es false false c x y z h = rw (x, remove, y, load) h

  pub load-remove :
      (k j : String) (es : List E)
      → load E name k (remove E name j es) ≡ (if same j k then none else load E name k es)
  unfolding load remove
  load-remove k j [] = elim (Bool-cases (same j k)) [ inl x ↦ rw x refl | inr x ↦ rw x refl ]
  load-remove k j (e ∷ es) = load-remove_step k j e es _ _ _ refl refl refl (load-remove k j es)

  pub load-put :
      (k : String) (e : E) (es : List E)
      → load E name k (put E name e es) ≡ (if same (name e) k then some e else load E name k es)
  unfolding load put
  load-put k e es = elim (Bool-cases (same (name e) k)) [
    | inl x ↦ rw x refl
    | inr x ↦ rw x (load-remove k (name e) es ∙ rw x refl)
  ]

  pub apply_all-append :
      (xs ys : List (Event E name)) (m : String → Option E)
      → apply_all E name (xs ++ ys) m ≡ apply_all E name ys (apply_all E name xs m)
  unfolding apply_all
  apply_all-append [] ys m = refl
  apply_all-append (x ∷ xs) ys m = apply_all-append xs ys (apply E name x m)

  -- What is applied at a name depends on what is known of that name alone.
  pub apply_from :
      (ev : Event E name) (m n : String → Option E) (k : String)
      → ((same (name ev.entity) k ≡ false) → m k ≡ n k)
      → apply E name ev m k ≡ apply E name ev n k
  unfolding apply
  apply_from ev m n k h = elim (Bool-cases (same (name ev.entity) k)) [
    | inl x ↦ rw x refl
    | inr x ↦ rw x (h x)
  ]

  pub apply_all_from :
      (evs : List (Event E name)) (m n : String → Option E) (k : String)
      → m k ≡ n k
      → apply_all E name evs m k ≡ apply_all E name evs n k
  unfolding apply_all
  apply_all_from [] m n k h = h
  apply_all_from (ev ∷ evs) m n k h =
      apply_all_from evs (apply E name ev m) (apply E name ev n) k (apply_from ev m n k (λ x. h))

  -- The query matches every entity of the name.
  abbrev pub Covers : (E → Bool) → String → Type 0
  Covers q k = (e : E) → name e ≡ k → q e ≡ true

  uncovered :
      (q : E → Bool) (k : String) (e : E) → Covers q k → q e ≡ false → same (name e) k ≡ false
  uncovered q k e h x = elim (Bool-cases (same (name e) k)) [
    | inl y ↦ absurd (true≢false (sym (h e (same→≡ _ _ y)) ∙ x))
    | inr y ↦ y
  ]
    where
      true≢false : true ≡ false → ⊥
      true≢false z = cc

  -- The events that are not sent on do not concern a name that the query covers.
  pub received_lem :
      (q : E → Bool) (k : String) (evs : List (Event E name)) (m : String → Option E)
      → Covers q k
      → apply_all E name (received E name q evs) m k ≡ apply_all E name evs m k
  unfolding apply_all received
  received_lem q k [] m h = refl
  received_lem q k (ev ∷ evs) m h = elim (Bool-cases (q ev.entity)) [
    | inl x ↦ rw (x, received) (received_lem q k evs (apply E name ev m) h)
    | inr x ↦
        rw (x, received)
          (received_lem q k evs m h
            ∙ apply_all_from evs m (apply E name ev m) k (skip ev m (uncovered q k ev.entity h x)))
  ]
    where
      skip :
          (ev : Event E name) (m : String → Option E)
          → same (name ev.entity) k ≡ false
          → m k ≡ apply E name ev m k
      skip ev m x = unfold apply in rw x refl

  added-append : (xs ys : List E) → added E name (xs ++ ys) ≡ added E name xs ++ added E name ys
  unfolding added
  added-append [] ys = refl
  added-append (x ∷ xs) ys = ap (◌∷◌ (record { entity = x; deleted = false })) (added-append xs ys)

  all_matches_take :
      (q : E → Bool) (e : E) (es : List E)
      → q e ≡ true
      → view E name (added E name (all_matches E name q (e ∷ es)))
        ≡ apply E name
            (record { entity = e; deleted = false })
            (view E name (added E name (all_matches E name q es)))
  unfolding view all_matches
  all_matches_take q e es x = rw x (
      ap (λ evs. apply_all E name evs (λ k. none)) (added-append (all_matches E name q es) (e ∷ []))
      ∙ apply_all-append (added E name (all_matches E name q es)) (added E name (e ∷ []))
          (λ k. none)
      ∙ last (apply_all E name (added E name (all_matches E name q es)) (λ k. none)))
    where
      last :
          (m : String → Option E)
          → apply_all E name (added E name (e ∷ [])) m
            ≡ apply E name (record { entity = e; deleted = false }) m
      last m = unfold added apply_all in refl

  apply-load :
      (k : String) (e : E) (es : List E) (m : String → Option E) (b : Bool)
      → same (name e) k ≡ b
      → m k ≡ load E name k es
      → apply E name (record { entity = e; deleted = false }) m k ≡ load E name k (e ∷ es)
  unfolding apply load
  apply-load k e es m true x h = rw (x, apply, load) refl
  apply-load k e es m false x h = rw (x, apply, load) h

  -- The entities that a new channel is sent are those of the store.
  pub all_matches_lem :
      (q : E → Bool) (k : String) (es : List E)
      → Covers q k
      → view E name (added E name (all_matches E name q es)) k ≡ load E name k es
  all_matches_lem q k [] h = unfold view apply_all added all_matches load in refl
  all_matches_lem q k (e ∷ es) h = elim (Bool-cases (q e)) [
    | inl x ↦
        ap (λ m. m k) (all_matches_take q e es x)
        ∙ apply-load k e es (view E name (added E name (all_matches E name q es))) _ refl
            (all_matches_lem q k es h)
    | inr x ↦
        pass q k e es x (uncovered q k e h x)
        ∙ all_matches_lem q k es h
        ∙ sym (miss k e es (uncovered q k e h x))
  ]
    where
      pass :
          (q : E → Bool) (k : String) (e : E) (es : List E)
          → q e ≡ false
          → same (name e) k ≡ false
          → view E name (added E name (all_matches E name q (e ∷ es))) k
            ≡ view E name (added E name (all_matches E name q es)) k
      pass q k e es x y = unfold all_matches in rw x refl

      miss :
          (k : String) (e : E) (es : List E)
          → same (name e) k ≡ false
          → load E name k (e ∷ es) ≡ load E name k es
      miss k e es x = unfold load in rw x refl
