-- ===== src/PrefixPool/Release/Orders.antt =====
-- pkg/tools/prefixpool/prefixpool.go: networks and groups in any order.
use mathlib.Core.List.{Permᴰ}
use nsm_sdk.Prelude.{
  ℕ, suc, ◌≡◌, ◌∙◌, refl, sym, ap, subst, List, [], ◌∷◌, ◌++◌, arith, length, length-append,
}
use nsm_sdk.PrefixPool.{Ip, Prefix}
use nsm_sdk.PrefixPool.Halves.{hits, covers, covers-append, IsNetwork}
use nsm_sdk.PrefixPool.Release.{Groups, all_nets}
use nsm_sdk.PrefixPool.Release.Merged.{IsProper}
use nsm_sdk.PrefixPool.Release.Groups.{AllOf}
use nsm_sdk.PrefixPool.Release.Passes.{AllGroups}

-- The order of a range: each element once.
abbrev pub IsOrder : {A : Type 0} → (List A → List A) → Type 0
IsOrder f = (xs : List _) → Permᴰ (f xs) xs

pub covers-Permᴰ : (ps qs : List Prefix) → Permᴰ ps qs → (a : Ip) → covers ps a ≡ covers qs a
covers-Permᴰ ps qs Permᴰ.nil a = refl
covers-Permᴰ ps qs (Permᴰ.cons e h) a = omega (arith, ap (λ z. hits z a) e, covers-Permᴰ _ _ h a)
covers-Permᴰ ps qs (Permᴰ.swap e d) a = omega (arith, ap (λ z. hits z a) e, ap (λ z. hits z a) d)
covers-Permᴰ ps qs (Permᴰ.trans h k) a = covers-Permᴰ _ _ h a ∙ covers-Permᴰ _ _ k a

pub length-Permᴰ : {A : Type 0} (ps qs : List A) → Permᴰ ps qs → length ps ≡ length qs
length-Permᴰ ps qs Permᴰ.nil = refl
length-Permᴰ ps qs (Permᴰ.cons e h) = ap suc (length-Permᴰ _ _ h)
length-Permᴰ ps qs (Permᴰ.swap e d) = refl
length-Permᴰ ps qs (Permᴰ.trans h k) = length-Permᴰ _ _ h ∙ length-Permᴰ _ _ k

-- What holds of each element holds in any order.
abbrev pub All : {A : Type 0} → (A → Type 0) → List A → Type 0
All P [] = Unit {0}
All P (x ∷ xs) = P x × All P xs

pub All-Permᴰ : {A : Type 0} (P : A → Type 0) (ps qs : List A) → Permᴰ ps qs → All P qs → All P ps
All-Permᴰ P ps qs Permᴰ.nil f = tt
All-Permᴰ P ps qs (Permᴰ.cons e h) (g, f) = (subst P (sym e) g, All-Permᴰ P _ _ h f)
All-Permᴰ P ps qs (Permᴰ.swap e d) (g, (h, f)) = (subst P (sym e) h, (subst P (sym d) g, f))
All-Permᴰ P ps qs (Permᴰ.trans h k) f = All-Permᴰ P _ _ h (All-Permᴰ P _ _ k f)

-- Both notions of a group are of this form.
abbrev pub OfLen : ℕ → Prefix → Type 0
OfLen l p = IsNetwork p × IsProper p × (p.len ≡ l)

pub AllOf-All : (l : ℕ) (ps : List Prefix) → AllOf l ps → All (OfLen l) ps
AllOf-All l [] f = tt
AllOf-All l (p ∷ ps) (g, f) = (g, AllOf-All l ps f)

pub All-AllOf : (l : ℕ) (ps : List Prefix) → All (OfLen l) ps → AllOf l ps
All-AllOf l [] f = tt
All-AllOf l (p ∷ ps) (g, f) = (g, All-AllOf l ps f)

abbrev pub IsGroup : ℕ × List Prefix → Type 0
IsGroup (l, ns) = AllOf l ns

pub AllGroups-All : (gs : Groups) → AllGroups gs → All IsGroup gs
AllGroups-All [] f = tt
AllGroups-All ((l, ns) ∷ gs) (g, f) = (g, AllGroups-All gs f)

pub All-AllGroups : (gs : Groups) → All IsGroup gs → AllGroups gs
All-AllGroups [] f = tt
All-AllGroups ((l, ns) ∷ gs) (g, f) = (g, All-AllGroups gs f)

pub all_nets-covers :
    (gs hs : Groups) → Permᴰ gs hs → (a : Ip) → covers (all_nets gs) a ≡ covers (all_nets hs) a
all_nets-covers gs hs Permᴰ.nil a = refl
all_nets-covers ((l, ns) ∷ gs) ((k, ms) ∷ hs) (Permᴰ.cons e h) a = omega (
  arith,
  covers-append ns (all_nets gs) a,
  covers-append ms (all_nets hs) a,
  ap (λ (z : ℕ × List Prefix). covers z.1 a) e,
  all_nets-covers gs hs h a,
)
all_nets-covers ((l, ns) ∷ (k, ms) ∷ gs) ((l', ns') ∷ (k', ms') ∷ hs) (Permᴰ.swap e d) a = omega (
  arith,
  covers-append ns (ms ++ all_nets gs) a,
  covers-append ms (all_nets gs) a,
  covers-append ns' (ms' ++ all_nets gs) a,
  covers-append ms' (all_nets gs) a,
  ap (λ (z : ℕ × List Prefix). covers z.1 a) e,
  ap (λ (z : ℕ × List Prefix). covers z.1 a) d,
)
all_nets-covers gs hs (Permᴰ.trans h k) a = all_nets-covers _ _ h a ∙ all_nets-covers _ _ k a

pub all_nets-length : (gs hs : Groups) → Permᴰ gs hs → length (all_nets gs) ≡ length (all_nets hs)
all_nets-length gs hs Permᴰ.nil = refl
all_nets-length ((l, ns) ∷ gs) ((k, ms) ∷ hs) (Permᴰ.cons e h) = omega (
  arith,
  length-append ns (all_nets gs),
  length-append ms (all_nets hs),
  ap (λ (z : ℕ × List Prefix). length z.1) e,
  all_nets-length gs hs h,
)
all_nets-length ((l, ns) ∷ (k, ms) ∷ gs) ((l', ns') ∷ (k', ms') ∷ hs) (Permᴰ.swap e d) = omega (
  arith,
  length-append ns (ms ++ all_nets gs),
  length-append ms (all_nets gs),
  length-append ns' (ms' ++ all_nets gs),
  length-append ms' (all_nets gs),
  ap (λ (z : ℕ × List Prefix). length z.1) e,
  ap (λ (z : ℕ × List Prefix). length z.1) d,
)
all_nets-length gs hs (Permᴰ.trans h k) = all_nets-length _ _ h ∙ all_nets-length _ _ k

pub ordered-AllOf :
    (order : List Prefix → List Prefix) (l : ℕ) (ps : List Prefix)
    → IsOrder order
    → AllOf l ps
    → AllOf l (order ps)
ordered-AllOf order l ps o f =
    All-AllOf l (order ps) (All-Permᴰ (OfLen l) (order ps) ps (o ps) (AllOf-All l ps f))

pub ordered-AllGroups :
    (order_groups : Groups → Groups) (gs : Groups)
    → IsOrder order_groups
    → AllGroups gs
    → AllGroups (order_groups gs)
ordered-AllGroups order_groups gs o f =
    All-AllGroups (order_groups gs)
      (All-Permᴰ IsGroup (order_groups gs) gs (o gs) (AllGroups-All gs f))
