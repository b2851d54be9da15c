-- ===== src/PrefixPool/Release/Groups.antt =====
-- pkg/tools/prefixpool/prefixpool.go: the loop over one group of `releasePrefixes` loses no address.
use nsm_sdk.PrefixPool.Exclude.Meeting.{same_prefix_refl}
use nsm_sdk.Prelude.{
  ℕ, suc, ◌+◌, ◌≡◌, ◌∙◌, refl, sym, ap, subst, inl, inr, List, [], ◌∷◌, ◌++◌, none, some, Bool,
  true, false, if◌then◌else◌, Bool-cases, arith, length,
}
use nsm_sdk.PrefixPool.{Ip, Prefix, same_prefix}
use nsm_sdk.PrefixPool.Halves.{hits, covers, IsNetwork}
use nsm_sdk.PrefixPool.Release.{base_of, Bases, find_base, delete_base, nets_of}
use nsm_sdk.PrefixPool.Release.Merged.{IsProper, same_prefix→≡}

-- The networks of a group.
abbrev pub AllOf : ℕ → List Prefix → Type 0
AllOf l [] = Unit {0}
AllOf l (p ∷ ps) = (IsNetwork p × IsProper p × (p.len ≡ l)) × AllOf l ps

pub AllOf-append : (l : ℕ) (ps qs : List Prefix) → AllOf l ps → AllOf l qs → AllOf l (ps ++ qs)
AllOf-append l [] qs f g = g
AllOf-append l (p ∷ ps) qs (h, f) g = (h, AllOf-append l ps qs f g)

-- The entries are under their bases, and no base stands twice.
abbrev pub AllBases : ℕ → Bases → Type 0
AllBases l [] = Unit {0}
AllBases l ((b, p) ∷ bs) =
    (b ≡ base_of p)
    × (IsNetwork p × IsProper p × (p.len ≡ l))
    × (find_base b bs ≡ none)
    × AllBases l bs

pub AllBases-nets : (l : ℕ) (bs : Bases) → AllBases l bs → AllOf l (nets_of bs)
AllBases-nets l [] f = tt
AllBases-nets l ((b, p) ∷ bs) (e, h, n, f) = (h, AllBases-nets l bs f)

clash : {q : Prefix} → some q ≡ none → ⊥
clash c = cc

-- A base that is not there yet is added.
find-snoc :
    (b c p : Prefix) (bs : Bases)
    → find_base b bs ≡ none
    → same_prefix c b ≡ false
    → find_base b (bs ++ (c, p) ∷ []) ≡ none
find-snoc b c p [] h n = rw n refl
find-snoc b c p ((d, q) ∷ bs) h n = go (same_prefix d b) refl h (λ k. find-snoc b c p bs k n)
  where
    go :
        (e : Bool)
        → same_prefix d b ≡ e
        → (if e then some q else find_base b bs) ≡ none
        → (find_base b bs ≡ none → find_base b (bs ++ (c, p) ∷ []) ≡ none)
        → find_base b (((d, q) ∷ bs) ++ (c, p) ∷ []) ≡ none
    go true e h r = absurd (clash h)
    go false e h r = rw e (r h)

pub AllBases-snoc :
    (l : ℕ) (p : Prefix) (bs : Bases)
    → AllBases l bs
    → IsNetwork p × IsProper p × (p.len ≡ l)
    → find_base (base_of p) bs ≡ none
    → AllBases l (bs ++ (base_of p, p) ∷ [])
AllBases-snoc l p [] f g n = (refl, g, refl, tt)
AllBases-snoc l p ((d, q) ∷ bs) (e, h, m, f) g n =
    go (same_prefix d (base_of p)) refl n (λ k. AllBases-snoc l p bs f g k)
  where
    other : same_prefix d (base_of p) ≡ false → same_prefix (base_of p) d ≡ false
    other i = elim (Bool-cases (same_prefix (base_of p) d)) [
      | inr j ↦ j
      | inl j ↦ absurd (
          differ (
            sym (ap (λ z. same_prefix z (base_of p)) (same_prefix→≡ (base_of p) d j) ∙ i)
            ∙ same_refl))
    ]
      where
        differ : false ≡ true → ⊥
        differ c = cc

        same_refl : same_prefix (base_of p) (base_of p) ≡ true
        same_refl = same_prefix_refl (base_of p)

    go :
        (b : Bool)
        → same_prefix d (base_of p) ≡ b
        → (if b then some q else find_base (base_of p) bs) ≡ none
        → (find_base (base_of p) bs ≡ none → AllBases l (bs ++ (base_of p, p) ∷ []))
        → AllBases l (((d, q) ∷ bs) ++ (base_of p, p) ∷ [])
    go true i n r = absurd (clash n)
    go false i n r = (e, h, find-snoc d (base_of p) p bs m (other i), r n)

pub nets-snoc : (b p : Prefix) (bs : Bases) → nets_of (bs ++ (b, p) ∷ []) ≡ nets_of bs ++ p ∷ []
nets-snoc b p [] = refl
nets-snoc b p ((d, q) ∷ bs) = ap (λ ps. q ∷ ps) (nets-snoc b p bs)

-- A base that is there is taken away, and nothing else.
find-delete :
    (b d : Prefix) (bs : Bases) → find_base b bs ≡ none → find_base b (delete_base d bs) ≡ none
find-delete b d [] h = refl
find-delete b d ((c, p) ∷ bs) h = go (same_prefix c b) refl h (find-delete b d bs)
  where
    go :
        (e : Bool)
        → same_prefix c b ≡ e
        → (if e then some p else find_base b bs) ≡ none
        → (find_base b bs ≡ none → find_base b (delete_base d bs) ≡ none)
        → find_base b (delete_base d ((c, p) ∷ bs)) ≡ none
    go true e h r = absurd (clash h)
    go false e h r = elim (Bool-cases (same_prefix c d)) [
      | inl i ↦ rw i (r h)
      | inr i ↦ rw (i, e) (r h)
    ]

delete-none : (b : Prefix) (bs : Bases) → find_base b bs ≡ none → delete_base b bs ≡ bs
delete-none b [] h = refl
delete-none b ((c, p) ∷ bs) h = go (same_prefix c b) refl h (delete-none b bs)
  where
    go :
        (e : Bool)
        → same_prefix c b ≡ e
        → (if e then some p else find_base b bs) ≡ none
        → (find_base b bs ≡ none → delete_base b bs ≡ bs)
        → delete_base b ((c, p) ∷ bs) ≡ (c, p) ∷ bs
    go true e h r = absurd (clash h)
    go false e h r = rw e (ap (λ cs. (c, p) ∷ cs) (r h))

pub AllBases-delete :
    (l : ℕ) (b : Prefix) (bs : Bases) → AllBases l bs → AllBases l (delete_base b bs)
AllBases-delete l b [] f = tt
AllBases-delete l b ((c, p) ∷ bs) (e, h, n, f) = elim (Bool-cases (same_prefix c b)) [
  | inl i ↦ rw i (AllBases-delete l b bs f)
  | inr i ↦ rw i (e, h, find-delete c b bs n, AllBases-delete l b bs f)
]

-- What is found, and what is left without it.
abbrev pub Found : ℕ → Prefix → Bases → Prefix → Type 0
Found l b bs q =
    (base_of q ≡ b)
    × (IsNetwork q × IsProper q × (q.len ≡ l))
    × ((a : Ip) → covers (nets_of (delete_base b bs)) a + hits q a ≡ covers (nets_of bs) a)
    × (suc (length (nets_of (delete_base b bs))) ≡ length (nets_of bs))

pub find-Found :
    (l : ℕ) (b q : Prefix) (bs : Bases) → AllBases l bs → find_base b bs ≡ some q → Found l b bs q
find-Found l b q [] f h = absurd cc
find-Found l b q ((c, p) ∷ bs) (e, g, n, f) h = go (same_prefix c b) refl h (find-Found l b q bs f)
  where
    go :
        (x : Bool)
        → same_prefix c b ≡ x
        → (if x then some p else find_base b bs) ≡ some q
        → (find_base b bs ≡ some q → Found l b bs q)
        → Found l b ((c, p) ∷ bs) q
    go true x h r =
        subst (Found l b ((c, p) ∷ bs)) (inside h)
          (sym e ∙ same_prefix→≡ c b x, g, (λ a. rw (x, gone) (omega arith)), rw (x, gone) refl)
      where
        inside : some p ≡ some q → p ≡ q
        inside k = cc

        gone : delete_base b bs ≡ bs
        gone = delete-none b bs (subst (λ z. find_base z bs ≡ none) (same_prefix→≡ c b x) n)
    go false x h r =
        let (i, j, t, s) = r h in (i, j, (λ a. rw x (omega (arith, t a))), rw x (ap suc s))
