-- ===== src/IpPool/Chain.antt =====
-- Lists of ranges as the pool keeps them: in order, apart from one another, with no two that adjoin.
use nsm_sdk.Prelude.{ℕ, ◌+◌, ◌^◌, ◌≤◌, ◌↔◌, ◌⊎◌, inl, inr, arith, List, [], ◌∷◌, ◌++◌}
use nsm_sdk.IpPool.Address.{num}
use nsm_sdk.IpPool.Range.{Range, IsRange}
use nsm_sdk.IpPool.Range.Algebra.{Holds}

-- Each range begins at `lo` or later and ends two below `hi` or earlier, and between two ranges at
-- least one address is left out.
abbrev pub Chain : ℕ → List Range → ℕ → Type 0
Chain lo [] hi = Unit {0}
Chain lo (r ∷ rs) hi =
    (lo ≤ num r.start) × IsRange r × (num r.end + 2 ≤ hi) × Chain (num r.end + 2) rs hi

-- The number lies in a range of the list.
abbrev pub Member : ℕ → List Range → Type 0
Member n [] = ⊥
Member n (r ∷ rs) = Holds r n ⊎ Member n rs

pub Chain-weaken :
    (lo lo' hi hi' : ℕ) (rs : List Range) → lo' ≤ lo → hi ≤ hi' → Chain lo rs hi → Chain lo' rs hi'
Chain-weaken lo lo' hi hi' [] h k c = tt
Chain-weaken lo lo' hi hi' (r ∷ rs) h k (a, v, b, c) = (
  omega arith,
  v,
  omega arith,
  Chain-weaken (num r.end + 2) (num r.end + 2) hi hi' rs (omega arith) k c,
)

-- A chain with a range in its middle, taken apart and put together.
pub Chain-split :
    (lo hi : ℕ) (xs : List Range) (v : Range) (ys : List Range)
    → Chain lo (xs ++ v ∷ ys) hi
    → Chain lo xs (num v.start)
      × (lo ≤ num v.start)
      × IsRange v
      × (num v.end + 2 ≤ hi)
      × Chain (num v.end + 2) ys hi
Chain-split lo hi [] v ys (a, w, b, c) = (tt, a, w, b, c)
Chain-split lo hi (x ∷ xs) v ys (a, w, b, c) =
    let (d, e, f, g, h) = Chain-split (num x.end + 2) hi xs v ys c in
    let o = w.ordered in ((a, w, e, d), omega arith, f, g, h)

pub Chain-join :
    (lo hi : ℕ) (xs : List Range) (v : Range) (ys : List Range)
    → Chain lo xs (num v.start)
    → lo ≤ num v.start
    → IsRange v
    → num v.end + 2 ≤ hi
    → Chain (num v.end + 2) ys hi
    → Chain lo (xs ++ v ∷ ys) hi
Chain-join lo hi [] v ys c a w b d = (a, w, b, d)
Chain-join lo hi (x ∷ xs) v ys (e, u, f, g) a w b d =
    let o = w.ordered in (e, u, omega arith, Chain-join (num x.end + 2) hi xs v ys g f w b d)

pub Chain-drop :
    (lo hi : ℕ) (xs : List Range) (v : Range) (ys : List Range)
    → Chain lo (xs ++ v ∷ ys) hi
    → Chain lo (xs ++ ys) hi
Chain-drop lo hi [] v ys (a, w, b, c) =
    let o = w.ordered in Chain-weaken _ lo hi hi ys (omega arith) (omega arith) c
Chain-drop lo hi (x ∷ xs) v ys (a, w, b, c) = (a, w, b, Chain-drop (num x.end + 2) hi xs v ys c)

pub Member-middle :
    (n : ℕ) (xs : List Range) (v : Range) (ys : List Range)
    → Member n (xs ++ v ∷ ys) ↔ (Holds v n ⊎ Member n (xs ++ ys))
Member-middle n [] v ys = ((λ m. m), λ m. m)
Member-middle n (x ∷ xs) v ys =
    let (f, g) = Member-middle n xs v ys in
    (
      elim [ inl h ↦ inr (inl h) | inr m ↦ elim (f m) [ inl h ↦ inl h | inr k ↦ inr (inr k) ] ],
      elim [ inl h ↦ inr (g (inl h)) | inr m ↦ elim m [ inl h ↦ inl h | inr k ↦ inr (g (inr k)) ] ],
    )

-- What lies in a chain lies within its bounds.
pub Member-bounds :
    (n lo hi : ℕ) (rs : List Range) → Chain lo rs hi → Member n rs → (lo ≤ n) × (n + 2 ≤ hi)
Member-bounds n lo hi [] c m = absurd m
Member-bounds n lo hi (r ∷ rs) (a, w, b, c) (inl h) = omega arith
Member-bounds n lo hi (r ∷ rs) (a, w, b, c) (inr m) =
    let o = w.ordered in omega (arith, Member-bounds n (num r.end + 2) hi rs c m)

pub Member-append : (n : ℕ) (xs ys : List Range) → Member n (xs ++ ys) ↔ (Member n xs ⊎ Member n ys)
Member-append n [] ys = (inr, elim [ inl m ↦ absurd m | inr m ↦ m ])
Member-append n (x ∷ xs) ys =
    let (f, g) = Member-append n xs ys in
    (
      elim [ inl h ↦ inl (inl h) | inr m ↦ elim (f m) [ inl h ↦ inl (inr h) | inr k ↦ inr k ] ],
      elim [ inl m ↦ elim m [ inl h ↦ inl h | inr k ↦ inr (g (inl k)) ] | inr m ↦ inr (g (inr m)) ],
    )

-- What lies in the other ranges of a chain does not lie in the one.
pub Member-apart :
    (n lo hi : ℕ) (xs : List Range) (v : Range) (ys : List Range)
    → Chain lo (xs ++ v ∷ ys) hi
    → Member n (xs ++ ys)
    → ¬ Holds v n
Member-apart n lo hi xs v ys c m h =
    let (a, _, w, _, b) = Chain-split lo hi xs v ys c in
    elim ((Member-append n xs ys).0 m) [
      | inl k ↦ omega (arith, Member-bounds n lo (num v.start) xs a k)
      | inr k ↦ omega (arith, Member-bounds n (num v.end + 2) hi ys b k)
    ]

-- The end of all addresses, as the upper bound of a chain.
abbrev pub limit : ℕ
limit = 2 ^ 128 + 1
