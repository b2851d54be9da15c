-- ===== src/Prelude/Strings.antt =====
-- Go's strings and their equality.
use Prim.Native.String.{String}
use mathlib.Core.Path.{◌≡◌, sym, ◌∙◌}
use mathlib.Core.Logic.{◌≢◌, ◌⊎◌, inl, inr}
use nsm_sdk.Prelude.Tests.{Bool-cases}
use mathlib.Core.Bool.{Bool, true, false}
use text.Mathlib.Text.{◌==◌}
use text.Mathlib.TextEquality.{eq_iff}

abbrev pub same : String → String → Bool
same s t = s == t

pub same→≡ : (s t : String) → same s t ≡ true → s ≡ t
same→≡ s t h = (eq_iff s t).0 h

pub ≡→same : (s t : String) → s ≡ t → same s t ≡ true
≡→same s t h = (eq_iff s t).1 h

pub same→≢ : (s t : String) → same s t ≡ false → s ≢ t
same→≢ s t h e = let k = (eq_iff s t).1 e in absurd (differ (sym k ∙ h))
  where
    differ : true ≡ false → ⊥
    differ k = cc

pub same_or_not : (s t : String) → (s ≡ t) ⊎ (s ≢ t)
same_or_not s t = elim (Bool-cases (same s t)) [
  | inl e ↦ inl (same→≡ s t e)
  | inr e ↦ inr (same→≢ s t e)
]

pub same_not : (s t : String) → s ≢ t → same s t ≡ false
same_not s t n = elim (Bool-cases (same s t)) [ inl e ↦ absurd (n (same→≡ s t e)) | inr e ↦ e ]
