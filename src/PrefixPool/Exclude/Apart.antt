-- ===== src/PrefixPool/Exclude/Apart.antt =====
-- pkg/tools/prefixpool/prefixpool.go: `intersect` tells whether two prefixes have a common address.
use nsm_sdk.Prelude.{
  ℕ, zero, suc, ◌+◌, ◌-◌, ◌/◌, ◌^◌, ◌≤◌, ◌≡◌, ◌↔◌, ◌∙◌, refl, sym, ap, inl, inr, Bool, true, false,
  ◌&&◌, ◌==◌, ==_iff, ltb, Bool-cases, arith,
}
use nsm_sdk.PrefixPool.{Ip, Prefix, host, contains, intersect}
use nsm_sdk.PrefixPool.Halves.{hit, hits, div-pow}

and_true : (b c : Bool) → (b && c) ≡ true → (b ≡ true) × (c ≡ true)
and_true true c h = (refl, h)
and_true false c h = absurd cc

pub contains_iff :
    (p : Prefix) (a : Ip)
    → (contains p a ≡ true)
      ↔ ((a.bits ≡ p.ip.bits) × (a.value / 2 ^ host p ≡ p.ip.value / 2 ^ host p))
unfolding contains
contains_iff p a = (
  (λ h.
      let (b, c) = and_true (a.bits == p.ip.bits) _ h in
      (
        (==_iff a.bits p.ip.bits).0 b,
        (==_iff (a.value / 2 ^ host p) (p.ip.value / 2 ^ host p)).0 c,
      )),
  (λ (e, d).
      rw
        (
          (==_iff a.bits p.ip.bits).1 e,
          (==_iff (a.value / 2 ^ host p) (p.ip.value / 2 ^ host p)).1 d,
        )
        refl),
)

pub contains_self : (p : Prefix) → contains p p.ip ≡ true
contains_self p = (contains_iff p p.ip).1 (refl, refl)

-- Numbers that agree above some bits agree above more.
coarser : (a b k d : ℕ) → a / 2 ^ k ≡ b / 2 ^ k → a / 2 ^ (k + d) ≡ b / 2 ^ (k + d)
coarser a b k zero e =
    ap (λ (i : ℕ). a / 2 ^ i) (same_bits k) ∙ e ∙ ap (λ (i : ℕ). b / 2 ^ i) (sym (same_bits k))
  where
    same_bits : (k : ℕ) → k + 0 ≡ k
    same_bits k = omega arith
coarser a b k (suc d) e =
    div-pow (k + suc d) (k + d) a (next k d)
    ∙ ap (λ (v : ℕ). v / 2) (coarser a b k d e)
    ∙ sym (div-pow (k + suc d) (k + d) b (next k d))
  where
    next : (k d : ℕ) → k + suc d ≡ suc (k + d)
    next k d = omega arith

-- A prefix that has an address of a longer one has its first address.
pub contains_common :
    (wide narrow : Prefix) (a : Ip)
    → wide.len ≤ narrow.len
    → narrow.len ≤ narrow.ip.bits
    → contains wide a ≡ true
    → contains narrow a ≡ true
    → contains wide narrow.ip ≡ true
contains_common wide narrow a l f h k =
    let (b, c) = (contains_iff wide a).0 h in
    let (b', c') = (contains_iff narrow a).0 k in
    (contains_iff wide narrow.ip).1 (sym b' ∙ b, sym (more (sym b ∙ b') c') ∙ c)
  where
    hosts : wide.ip.bits ≡ narrow.ip.bits → host narrow + (narrow.len - wide.len) ≡ host wide
    hosts e = omega arith

    more :
        wide.ip.bits ≡ narrow.ip.bits
        → a.value / 2 ^ host narrow ≡ narrow.ip.value / 2 ^ host narrow
        → a.value / 2 ^ host wide ≡ narrow.ip.value / 2 ^ host wide
    more e c' =
        rw⁻¹ (hosts e) (coarser a.value narrow.ip.value (host narrow) (narrow.len - wide.len) c')

-- A prefix that has the first address of a longer one has all its addresses.
pub contains_nested :
    (wide narrow : Prefix) (a : Ip)
    → wide.len ≤ narrow.len
    → narrow.len ≤ narrow.ip.bits
    → contains wide narrow.ip ≡ true
    → contains narrow a ≡ true
    → contains wide a ≡ true
contains_nested wide narrow a l f h k =
    let (b, c) = (contains_iff wide narrow.ip).0 h in
    let (b', c') = (contains_iff narrow a).0 k in (contains_iff wide a).1 (b' ∙ b, more b c' ∙ c)
  where
    hosts : narrow.ip.bits ≡ wide.ip.bits → host narrow + (narrow.len - wide.len) ≡ host wide
    hosts e = omega arith

    more :
        narrow.ip.bits ≡ wide.ip.bits
        → a.value / 2 ^ host narrow ≡ narrow.ip.value / 2 ^ host narrow
        → a.value / 2 ^ host wide ≡ narrow.ip.value / 2 ^ host wide
    more e c' =
        rw⁻¹ (hosts e) (coarser a.value narrow.ip.value (host narrow) (narrow.len - wide.len) c')

hits-apart :
    (wide narrow : Prefix) (a : Ip)
    → wide.len ≤ narrow.len
    → narrow.len ≤ narrow.ip.bits
    → contains wide narrow.ip ≡ false
    → hits wide a + hits narrow a ≤ 1
hits-apart wide narrow a l f n =
    go (contains wide a) (contains narrow a) (contains wide narrow.ip) n
      (λ h k. contains_common wide narrow a l f h k)
  where
    go : (b c d : Bool) → d ≡ false → (b ≡ true → c ≡ true → d ≡ true) → hit b + hit c ≤ 1
    go true true d e h = absurd (differ (sym (h refl refl) ∙ e))
      where
        differ : true ≡ false → ⊥
        differ c = cc
    go true false d e h = omega arith
    go false true d e h = omega arith
    go false false d e h = omega arith

pub intersect-bigger :
    (p q : Prefix)
    → ltb p.len q.len ≡ true
    → ◌≡◌ {A = Bool × Bool} (intersect p q) (contains p q.ip, true)
unfolding intersect
intersect-bigger p q e = rw (intersect, e) refl

pub intersect-smaller :
    (p q : Prefix)
    → ltb p.len q.len ≡ false
    → ◌≡◌ {A = Bool × Bool} (intersect p q) (contains q p.ip, false)
unfolding intersect
intersect-smaller p q e = rw (intersect, e) refl

pub ltb-le : (m n : ℕ) → ltb m n ≡ true → m ≤ n
ltb-le m n e = ground arith

pub not_ltb-le : (m n : ℕ) → ltb m n ≡ false → n ≤ m
not_ltb-le m n e = ground arith

-- Prefixes that do not meet have no common address.
pub intersect-apart :
    (p q : Prefix) (a : Ip)
    → p.len ≤ p.ip.bits
    → q.len ≤ q.ip.bits
    → (intersect p q).0 ≡ false
    → hits p a + hits q a ≤ 1
intersect-apart p q a f g h = elim (Bool-cases (ltb p.len q.len)) [
  | inl e ↦
      hits-apart p q a (ltb-le p.len q.len e) g
        (sym (ap (λ (x : Bool × Bool). x.0) (intersect-bigger p q e)) ∙ h)
  | inr e ↦ omega (
    arith,
    hits-apart q p a (not_ltb-le p.len q.len e) f
        (sym (ap (λ (x : Bool × Bool). x.0) (intersect-smaller p q e)) ∙ h),
  )
]
