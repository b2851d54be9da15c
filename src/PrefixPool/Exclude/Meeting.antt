-- ===== src/PrefixPool/Exclude/Meeting.antt =====
-- pkg/tools/prefixpool/prefixpool.go: the prefix that an excluded one meets, and those that are kept.
use nsm_sdk.Prelude.{
  ℕ, ◌+◌, ◌≤◌, ◌≡◌, ◌∙◌, refl, sym, ap, subst, inl, inr, List, [], ◌∷◌, Option, none, some, Bool,
  true, false, ◌&&◌, ◌==◌, ==_iff, Bool-cases, arith,
}
use nsm_sdk.PrefixPool.{Ip, Prefix, network, contains, intersect, same_prefix}
use nsm_sdk.PrefixPool.Halves.{hit, hits, covers, IsNetwork, AllNetworks, network_eq}
use nsm_sdk.PrefixPool.Exclude.{first_met, keep_others}
use nsm_sdk.PrefixPool.Exclude.Apart.{intersect-apart, contains_self}

-- No address stands in two prefixes.
abbrev pub IsDisjoint : List Prefix → Type 0
IsDisjoint ps = (a : Ip) → covers ps a ≤ 1

abbrev pub count : Prefix → List Prefix → ℕ
count q [] = 0
count q (p ∷ ps) = hit (same_prefix p q) + count q ps

hits-same : (p q : Prefix) (a : Ip) → same_prefix p q ≡ true → hits p a ≡ hits q a
hits-same p q a h =
    go (p.ip.bits == q.ip.bits) (p.ip.value == q.ip.value) (p.len == q.len) refl refl refl h
  where
    go :
        (b c d : Bool)
        → (p.ip.bits == q.ip.bits) ≡ b
        → (p.ip.value == q.ip.value) ≡ c
        → (p.len == q.len) ≡ d
        → (b && c && d) ≡ true
        → hits p a ≡ hits q a
    go true true true e f g h =
        same_hits ((==_iff p.ip.bits q.ip.bits).0 e) ((==_iff p.ip.value q.ip.value).0 f)
          ((==_iff p.len q.len).0 g)
      where
        made : ℕ → ℕ → ℕ → Prefix
        made b v l = record { ip = record { bits = b; value = v }; len = l }

        same_hits :
            p.ip.bits ≡ q.ip.bits → p.ip.value ≡ q.ip.value → p.len ≡ q.len → hits p a ≡ hits q a
        same_hits e f g =
            ap (λ (b : ℕ). hits (made b p.ip.value p.len) a) e
            ∙ ap (λ (v : ℕ). hits (made q.ip.bits v p.len) a) f
            ∙ ap (λ (l : ℕ). hits (made q.ip.bits q.ip.value l) a) g
    go false c d e f g h = absurd (clash c d h)
      where
        clash : (c d : Bool) → (false && c && d) ≡ true → ⊥
        clash c d h = ground arith
    go true false d e f g h = absurd (clash d h)
      where
        clash : (d : Bool) → (true && false && d) ≡ true → ⊥
        clash d h = ground arith
    go true true false e f g h = absurd cc

pub same_prefix_refl : (p : Prefix) → same_prefix p p ≡ true
same_prefix_refl p =
    rw
      (
        (==_iff p.ip.bits p.ip.bits).1 refl,
        (==_iff p.ip.value p.ip.value).1 refl,
        (==_iff p.len p.len).1 refl,
      )
      refl

pub count-covers : (q : Prefix) (ps : List Prefix) → count q ps ≤ covers ps q.ip
count-covers q [] = omega arith
count-covers q (p ∷ ps) = elim (Bool-cases (same_prefix p q)) [
  | inl e ↦ rw e (omega (arith, count-covers q ps, hits-same p q q.ip e, ap hit (contains_self q)))
  | inr e ↦ rw e (omega (arith, count-covers q ps))
]

keep_others-none :
    (q : Prefix) (ps : List Prefix) (a : Ip)
    → count q ps ≡ 0
    → covers (keep_others q ps) a ≡ covers ps a
unfolding keep_others
keep_others-none q [] a h = refl
keep_others-none q (p ∷ ps) a h = go (same_prefix p q) refl h (keep_others-none q ps a)
  where
    go :
        (b : Bool)
        → same_prefix p q ≡ b
        → hit b + count q ps ≡ 0
        → (count q ps ≡ 0 → covers (keep_others q ps) a ≡ covers ps a)
        → covers (keep_others q (p ∷ ps)) a ≡ covers (p ∷ ps) a
    go true e h r = absurd (omega arith)
    go false e h r = rw (keep_others, e) (omega (arith, r (omega arith)))

-- Of prefixes that hold the text once, all the others are kept.
pub keep_others-once :
    (q : Prefix) (ps : List Prefix) (a : Ip)
    → count q ps ≡ 1
    → covers (keep_others q ps) a + hits q a ≡ covers ps a
unfolding keep_others
keep_others-once q [] a h = absurd (omega arith)
keep_others-once q (p ∷ ps) a h = go (same_prefix p q) refl h (keep_others-once q ps a)
  where
    go :
        (b : Bool)
        → same_prefix p q ≡ b
        → hit b + count q ps ≡ 1
        → (count q ps ≡ 1 → covers (keep_others q ps) a + hits q a ≡ covers ps a)
        → covers (keep_others q (p ∷ ps)) a + hits q a ≡ covers (p ∷ ps) a
    go true e h r =
        rw (keep_others, e)
          (omega (arith, keep_others-none q ps a (omega arith), hits-same p q a e))
    go false e h r = rw (keep_others, e) (omega (arith, r (omega arith)))

pub keep_others-AllNetworks :
    (q : Prefix) (ps : List Prefix) → AllNetworks ps → AllNetworks (keep_others q ps)
unfolding keep_others
keep_others-AllNetworks q [] n = tt
keep_others-AllNetworks q (p ∷ ps) (m, n) = elim (Bool-cases (same_prefix p q)) [
  | inl e ↦ rw (keep_others, e) (keep_others-AllNetworks q ps n)
  | inr e ↦ rw (keep_others, e) (m, keep_others-AllNetworks q ps n)
]

-- What is met is one of the prefixes.
abbrev pub IsMet : Prefix → List Prefix → Option (Prefix × Bool) → Type 0
IsMet x ps none = (a : Ip) → contains x a ≡ true → covers ps a ≡ 0
IsMet x ps (some (q, b)) =
    IsNetwork q × (1 ≤ count q ps) × ((intersect x q).0 ≡ true) × ((intersect x q).1 ≡ b)

pub first_met-IsMet :
    (x : Prefix) (ps : List Prefix)
    → x.len ≤ x.ip.bits
    → AllNetworks ps
    → IsMet x ps (first_met x ps)
unfolding first_met
first_met-IsMet x [] f n = λ a h. refl
first_met-IsMet x (p ∷ ps) f (m, n) = elim (Bool-cases (intersect x (network p)).0) [
  | inl e ↦
      rw (first_met, e)
        (subst (λ z. IsMet x (p ∷ ps) (some (z, (intersect x z).1))) (sym (network_eq p m))
          (m, omega (arith, once), met e, refl))
  | inr e ↦ rw (first_met, e) (later (first_met x ps) (met' e) (first_met-IsMet x ps f n))
]
  where
    once : hit (same_prefix p p) ≡ 1
    once = rw (same_prefix_refl p) refl

    met : (intersect x (network p)).0 ≡ true → (intersect x p).0 ≡ true
    met e = subst (λ z. (intersect x z).0 ≡ true) (network_eq p m) e

    met' : (intersect x (network p)).0 ≡ false → (intersect x p).0 ≡ false
    met' e = subst (λ z. (intersect x z).0 ≡ false) (network_eq p m) e

    later :
        (o : Option (Prefix × Bool)) → (intersect x p).0 ≡ false → IsMet x ps o → IsMet x (p ∷ ps) o
    later none e h = λ a c. omega (arith, h a c, intersect-apart x p a f m.len_le e, ap hit c)
    later (some (q, b)) e (w, c, i, j) = (w, omega arith, i, j)
