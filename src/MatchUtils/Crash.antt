-- ===== src/MatchUtils/Crash.antt =====
-- When the comparison of two endpoints in pkg/tools/matchutils/utils.go reads through a nil pointer.
use nsm_sdk.Prelude.{
  ℕ, ◌≡◌, ◌≢◌, ◌↔◌, ◌⊎◌, ◌∙◌, inl, inr, refl, ap, [], ◌∷◌, ◌++◌, Option, none, some, Bool, true,
  false, ◌||◌, if◌then◌else◌, String, same,
}
use nsm_sdk.MatchUtils.{
  Labels, ServiceLabels, Endpoint, find, entries_or_empty, then_test, all_labels, entry_test,
  labels_contains, labels_test, names_test, both, time_test, match_network_service_endpoints,
}

then_crash :
    (o p : Option Bool) → (then_test o p ≡ none) ↔ ((o ≡ none) ⊎ ((o ≡ some true) × (p ≡ none)))
then_crash none p = ((λ e. inl refl), λ e. refl)
then_crash (some false) p = ((λ e. absurd cc), elim [ inl e ↦ absurd cc | inr (e, d) ↦ absurd cc ])
then_crash (some true) p = ((λ e. inr (refl, e)), elim [ inl e ↦ absurd cc | inr (e, d) ↦ d ])

both_crash : (a : Bool) (o : Option Bool) → (both a o ≡ none) ↔ ((a ≡ true) × (o ≡ none))
both_crash true o = ((λ e. (refl, e)), λ (d, e). e)
both_crash false o = ((λ e. absurd cc), λ (d, e). absurd cc)

time_crash : (x y : Option ℕ) → (time_test x y ≡ none) ↔ (((t : ℕ) × (x ≡ some t)) × (y ≡ none))
time_crash none y = ((λ e. absurd cc), λ ((t, e), d). absurd cc)
time_crash (some t) none = ((λ e. ((t, refl), refl)), λ d. refl)
time_crash (some t) (some u) = ((λ e. absurd cc), λ (c, e). absurd cc)

then_true : (o p : Option Bool) → then_test o p ≡ some true → (o ≡ some true) × (p ≡ some true)
then_true none p e = absurd cc
then_true (some false) p e = absurd cc
then_true (some true) p e = (refl, e)

no_cons :
    {e : String × String} {ls : Labels} → ◌≡◌ {A = Option Labels} (some []) (some (e ∷ ls)) → ⊥
no_cons x = cc

all_labels-some : (r l : Labels) → all_labels (some r) l ≢ none
unfolding all_labels
all_labels-some r [] = λ e. cc
all_labels-some r ((k, v) ∷ l) = by_value (find k r) (all_labels (some r) l) (all_labels-some r l)
  where
    chosen : (b : Bool) (o : Option Bool) → o ≢ none → (if b then o else some false) ≢ none
    chosen true o n = n
    chosen false o n = λ e. cc

    by_value :
        (w : Option String) (o : Option Bool)
        → o ≢ none
        → elim w [ none ↦ some false | some u ↦ if same v u then o else some false ] ≢ none
    by_value none o n = λ e. cc
    by_value (some u) o n = chosen (same v u) o n

-- An entry of the query crashes if the endpoint has an entry for the same service, and it is nil, or
-- it has labels where that of the endpoint is nil.
abbrev pub IsNil : ServiceLabels → String → Option Labels → Type 0
IsNil whole s l =
    (r : Option Labels) × (find s whole ≡ some r)
    × ((l ≡ none) ⊎ ((e : String × String) × (ls : Labels) × (l ≡ some (e ∷ ls)) × (r ≡ none)))

entry_crash :
    (whole : ServiceLabels) (s : String) (l : Option Labels)
    → (entry_test whole s l ≡ none) ↔ IsNil whole s l
unfolding entry_test all_labels
entry_crash whole s l = by_entry (find s whole) l
  where
    by_entry :
        (o : Option (Option Labels)) (l : Option Labels)
        → (elim o [
          | none ↦ some false
          | some r ↦ elim l [ none ↦ none | some ls ↦ all_labels r ls ]
        ]
            ≡ none)
          ↔ ((r : Option Labels) × (o ≡ some r)
              × ((l ≡ none)
                  ⊎ ((e : String × String) × (ls : Labels) × (l ≡ some (e ∷ ls)) × (r ≡ none))))
    by_entry none l = ((λ e. absurd cc), λ (r, e, d). absurd cc)
    by_entry (some r) none = ((λ e. (r, refl, inl refl)), λ d. refl)
    by_entry (some none) (some []) = (
      (λ e. absurd cc),
      λ (r, f, d). elim d [ inl x ↦ absurd cc | inr (e, ls, x, y) ↦ absurd (no_cons x) ],
    )
    by_entry (some (some m)) (some []) = (
      (λ e. absurd cc),
      λ (r, f, d). elim d [ inl x ↦ absurd cc | inr (e, ls, x, y) ↦ absurd (no_cons x) ],
    )
    by_entry (some none) (some (e ∷ ls)) = ((λ z. (none, refl, inr (e, ls, refl, refl))), λ d. refl)
    by_entry (some (some m)) (some (e ∷ ls)) = (
      (λ z. absurd (all_labels-some m (e ∷ ls) z)),
      λ (r, f, d). elim d [ inl x ↦ absurd cc | inr (a, bs, x, y) ↦ absurd cc ],
    )

-- An entry of the query crashes, and all those that the loop meets before it pass.
abbrev pub MeetsNil : ServiceLabels → ServiceLabels → Type 0
MeetsNil whole what =
    (before after : ServiceLabels) × (s : String) × (l : Option Labels) × (what
      ≡ before ++ (s, l) ∷ after)
    × (labels_contains whole before ≡ some true)
    × IsNil whole s l

passes :
    (whole before rest : ServiceLabels)
    → labels_contains whole before ≡ some true
    → labels_contains whole (before ++ rest) ≡ labels_contains whole rest
unfolding labels_contains
passes whole [] rest e = refl
passes whole ((s, l) ∷ before) rest e =
    let (a, b) = then_true (entry_test whole s l) (labels_contains whole before) e in
    ap (λ o. then_test o (labels_contains whole (before ++ rest))) a ∙ passes whole before rest b

labels_crash :
    (whole what : ServiceLabels) → (labels_contains whole what ≡ none) ↔ MeetsNil whole what
unfolding labels_contains
labels_crash whole what = (met what, found)
  where
    met : (what : ServiceLabels) → labels_contains whole what ≡ none → MeetsNil whole what
    met [] e = absurd cc
    met ((s, l) ∷ what) e =
        elim ((then_crash (entry_test whole s l) (labels_contains whole what)).0 e) [
          | inl a ↦ ([], what, s, l, refl, refl, (entry_crash whole s l).0 a)
          | inr (a, b) ↦
              let (before, after, s', l', q, c, n) = met what b in
              (
                (s, l) ∷ before,
                after,
                s',
                l',
                ap (λ w. (s, l) ∷ w) q,
                ap (λ o. then_test o (labels_contains whole before)) a ∙ c,
                n,
              )
        ]

    found : MeetsNil whole what → labels_contains whole what ≡ none
    found (before, after, s, l, q, c, n) =
        ap (labels_contains whole) q
        ∙ passes whole before ((s, l) ∷ after) c
        ∙ (then_crash (entry_test whole s l) (labels_contains whole after)).1
            (inl ((entry_crash whole s l).1 n))

-- The labels of the query lead the loop to a nil entry.
abbrev pub LabelsCrash : Option ServiceLabels → Option ServiceLabels → Type 0
LabelsCrash none r = ⊥
LabelsCrash (some l) r = MeetsNil (entries_or_empty r) l

labels_test_crash : (l r : Option ServiceLabels) → (labels_test l r ≡ none) ↔ LabelsCrash l r
labels_test_crash none r = ((λ e. absurd cc), λ d. absurd d)
labels_test_crash (some l) r = labels_crash (entries_or_empty r) l

-- The comparison of two endpoints fails with a nil dereference exactly if the names match, and either
-- the loop over the labels of the query comes to a nil entry: one of the query for a service for which
-- the endpoint has an entry, or one of the endpoint where the query has labels; or the labels match,
-- the query has an expiration time, and the endpoint has none.
pub match_network_service_endpoints_crash :
    (has : String → String → Bool) (l r : Endpoint)
    → (match_network_service_endpoints has l r ≡ none) ↔ (
        ((same l.name "" || same r.name l.name) ≡ true)
        × (LabelsCrash l.labels r.labels
            ⊎ ((labels_test l.labels r.labels ≡ some true)
                × ((t : ℕ) × (l.expiration ≡ some t))
                × (r.expiration ≡ none))))
unfolding match_network_service_endpoints
match_network_service_endpoints_crash has l r =
    let rest =
      both (names_test l.service_names r.service_names) (some (same l.url "" || has r.url l.url)) in
    let timed = then_test (time_test l.expiration r.expiration) rest in
    let (f, g) =
      both_crash (same l.name "" || same r.name l.name)
        (then_test (labels_test l.labels r.labels) timed) in
    let (f', g') = then_crash (labels_test l.labels r.labels) timed in
    let (f'', g'') = then_crash (time_test l.expiration r.expiration) rest in
    let (x, y) = labels_test_crash l.labels r.labels in
    let (u, v) = time_crash l.expiration r.expiration in
    (
      (λ e.
          let (a, d) = f e in
          (
            a,
            elim (f' d) [
              | inl b ↦ inl (x b)
              | inr (b, c) ↦ elim (f'' c) [
                | inl t ↦ let (m, n) = u t in inr (b, m, n)
                | inr (t, z) ↦ absurd (both-some (names_test l.service_names r.service_names) _ z)
              ]
            ],
          )),
      λ (a, d).
          g (a, g' elim d [ inl b ↦ inl (y b) | inr (b, m, n) ↦ inr (b, g'' (inl (v (m, n)))) ]),
    )
  where
    both-some : (a b : Bool) → both a (some b) ≢ none
    both-some true b = λ e. cc
    both-some false b = λ e. cc
