-- ===== src/PrefixPool/Release/Merged.antt =====
-- pkg/tools/prefixpool/prefixpool.go: two networks with one base are the halves of their parent.
use native.Mathlib.Nat.{pow-suc, mul-div_left}
use native.Mathlib.Decide.{ℕ_discrete}
use nsm_sdk.Prelude.{
  ℕ, zero, suc, ◌+◌, ◌-◌, ◌*◌, ◌/◌, ◌%◌, ◌^◌, ◌≤◌, ◌<◌, ◌≡◌, ◌≢◌, ◌∙◌, refl, sym, ap, inl, inr,
  Bool, true, false, ◌&&◌, ◌==◌, ==_iff, if◌then◌else◌, Bool-cases, arith,
}
use nsm_sdk.IpPool.Prefixes.Words.{pow-pos}
use nsm_sdk.PrefixPool.{Ip, Prefix, host, same_prefix}
use nsm_sdk.PrefixPool.Halves.{hit, hits, IsNetwork, half, hits-half}
use nsm_sdk.PrefixPool.Exclude.Apart.{contains_self}
use nsm_sdk.PrefixPool.Release.{base_of, parent_of}

-- The address has no more bits than it says.
abbrev pub IsProper : Prefix → Type 0
IsProper p = p.ip.value < 2 ^ p.ip.bits

abbrev made : ℕ → ℕ → ℕ → Prefix
made b v l = record { ip = record { bits = b; value = v }; len = l }

pub same_prefix→≡ : (p q : Prefix) → same_prefix p q ≡ true → p ≡ q
same_prefix→≡ p q h =
    go (p.ip.bits == q.ip.bits) (p.ip.value == q.ip.value) (p.len == q.len) refl refl refl h
  where
    go :
        (b c d : Bool)
        → (p.ip.bits == q.ip.bits) ≡ b
        → (p.ip.value == q.ip.value) ≡ c
        → (p.len == q.len) ≡ d
        → (b && c && d) ≡ true
        → p ≡ q
    go true true true e f g h =
        ap (λ (b : ℕ). made b p.ip.value p.len) ((==_iff p.ip.bits q.ip.bits).0 e)
        ∙ ap (λ (v : ℕ). made q.ip.bits v p.len) ((==_iff p.ip.value q.ip.value).0 f)
        ∙ ap (λ (l : ℕ). made q.ip.bits q.ip.value l) ((==_iff p.len q.len).0 g)
    go false c d e f g h = absurd (clash c d h)
      where
        clash : (c d : Bool) → (false && c && d) ≡ true → ⊥
        clash c d h = ground arith
    go true false d e f g h = absurd (clash d h)
      where
        clash : (d : Bool) → (true && false && d) ≡ true → ⊥
        clash d h = ground arith
    go true true false e f g h = absurd cc

cleared : (i d v : ℕ) → 0 < d → v ≡ i * d → (if v / d % 2 == 1 then v - d else v) ≡ i / 2 * (d * 2)
cleared i d v pos e = elim (Bool-cases (i % 2 == 1)) [
  | inl o ↦ rw (e, mul-div_left i pos, o) (odd (i / 2) (half_odd i o))
  | inr o ↦ rw (e, mul-div_left i pos, o) (even (i / 2) (half_even i o))
]
  where
    half_odd : (i : ℕ) → (i % 2 == 1) ≡ true → i ≡ i / 2 * 2 + 1
    half_odd i o = ground arith

    half_even : (i : ℕ) → (i % 2 == 1) ≡ false → i ≡ i / 2 * 2
    half_even i o = ground arith

    odd : (m : ℕ) → i ≡ m * 2 + 1 → i * d - d ≡ m * (d * 2)
    odd m f = omega (arith, ap (λ (t : ℕ). t * d) f)

    even : (m : ℕ) → i ≡ m * 2 → i * d ≡ m * (d * 2)
    even m f = omega (arith, ap (λ (t : ℕ). t * d) f)

-- The address of the base of a network.
base-value : (p : Prefix) (n : IsNetwork p) → (base_of p).ip.value ≡ n.index / 2 * (2 ^ host p * 2)
base-value p n =
    value_if (p.ip.value / 2 ^ host p % 2 == 1)
    ∙ cleared n.index (2 ^ host p) p.ip.value (pow-pos (host p)) n.value_eq
  where
    value_if :
        (b : Bool)
        → (if b then record p.ip { value = p.ip.value - 2 ^ host p } else p.ip).value
          ≡ (if b then p.ip.value - 2 ^ host p else p.ip.value)
    value_if true = refl
    value_if false = refl

base-bits : (p : Prefix) → (base_of p).ip.bits ≡ p.ip.bits
base-bits p = go (p.ip.value / 2 ^ host p % 2 == 1)
  where
    go :
        (b : Bool)
        → (if b then record p.ip { value = p.ip.value - 2 ^ host p } else p.ip).bits ≡ p.ip.bits
    go true = refl
    go false = refl

deeper : (b l : ℕ) → 1 ≤ l → l ≤ b → b - (l - 1) ≡ suc (b - l)
deeper b l h k = omega arith

pub parent-value :
    (p : Prefix) (n : IsNetwork p)
    → 1 ≤ p.len
    → (parent_of p).ip.value ≡ n.index / 2 * 2 ^ host (parent_of p)
parent-value p n h =
    base-value p n
    ∙ ap (λ (t : ℕ). n.index / 2 * t) (sym (pow-suc 2 (host p)))
    ∙ ap (λ (k : ℕ). n.index / 2 * 2 ^ k) (sym (same_host (base_of p).ip.bits (base-bits p)))
  where
    same_host : (b : ℕ) → b ≡ p.ip.bits → b - (p.len - 1) ≡ suc (host p)
    same_host b e = ap (λ (c : ℕ). c - (p.len - 1)) e ∙ deeper p.ip.bits p.len h n.len_le

pub parent-fits : (p : Prefix) → IsNetwork p → (parent_of p).len ≤ (parent_of p).ip.bits
parent-fits p n = fits (base_of p).ip.bits (base-bits p)
  where
    fits : (b : ℕ) → b ≡ p.ip.bits → p.len - 1 ≤ b
    fits b e = omega (arith, n.len_le)

abbrev pub parent_network : (p : Prefix) (n : IsNetwork p) → 1 ≤ p.len → IsNetwork (parent_of p)
parent_network p n h = record {
  index = n.index / 2;
  value_eq = parent-value p n h;
  len_le = parent-fits p n;
}

pub parent-IsProper : (p : Prefix) (n : IsNetwork p) → IsProper p → IsProper (parent_of p)
parent-IsProper p n h = less (base_of p).ip.value (base_of p).ip.bits (base-value p n) (base-bits p)
  where
    below : (i d v : ℕ) → v ≡ i * d → i / 2 * (d * 2) ≤ v
    below i d v e = grind arith

    less : (v b : ℕ) → v ≡ n.index / 2 * (2 ^ host p * 2) → b ≡ p.ip.bits → v < 2 ^ b
    less v b e f =
        omega (arith, below n.index (2 ^ host p) p.ip.value n.value_eq, h, ap (λ (c : ℕ). 2 ^ c) f)

-- A network is the half of its parent that its index tells.
is_half : (p : Prefix) (n : IsNetwork p) → 1 ≤ p.len → half (parent_of p) n.index ≡ p
is_half p n h =
    ap (λ (b : ℕ). made b (n.index * 2 ^ (b - (p.len - 1 + 1))) (p.len - 1 + 1)) (base-bits p)
    ∙ ap (λ (l : ℕ). made p.ip.bits (n.index * 2 ^ (p.ip.bits - l)) l) (same_len p.len h)
    ∙ ap (λ (v : ℕ). made p.ip.bits v p.len) (sym n.value_eq)
  where
    same_len : (l : ℕ) → 1 ≤ l → l - 1 + 1 ≡ l
    same_len l h = omega arith

-- Two networks of one group.
module _ (p q : Prefix) (n : IsNetwork p) (m : IsNetwork q) (l : p.len ≡ q.len)
    (b : base_of p ≡ base_of q) (d : (a : Ip) → hits p a + hits q a ≤ 1) where
  bits_eq : p.ip.bits ≡ q.ip.bits
  bits_eq = sym (base-bits p) ∙ ap (λ z. z.ip.bits) b ∙ base-bits q

  host_eq : host p ≡ host q
  host_eq = ap (λ (k : ℕ). k - p.len) bits_eq ∙ ap (λ (k : ℕ). q.ip.bits - k) l

  apart_index : n.index ≢ m.index
  apart_index e = absurd (
      twice (d p.ip) (ap hit (contains_self p))
        (ap (λ z. hits z p.ip) (sym same_net) ∙ ap hit (contains_self p)))
    where
      same_net : p ≡ q
      same_net =
          ap (λ (v : ℕ). made p.ip.bits v p.len)
            (n.value_eq
              ∙ ap (λ (i : ℕ). i * 2 ^ host p) e
              ∙ ap (λ (k : ℕ). m.index * 2 ^ k) host_eq
              ∙ sym m.value_eq)
          ∙ ap (λ (c : ℕ). made c q.ip.value p.len) bits_eq
          ∙ ap (λ (c : ℕ). made q.ip.bits q.ip.value c) l

      twice : {x y : ℕ} → x + y ≤ 1 → x ≡ 1 → y ≡ 1 → ⊥
      twice h i j = absurd (omega arith)

  half_index : n.index / 2 ≡ m.index / 2
  half_index = cancel (n.index / 2) (m.index / 2) (2 ^ host p) (pow-pos (host p)) (
      sym (base-value p n)
      ∙ ap (λ z. z.ip.value) b
      ∙ base-value q m
      ∙ ap (λ (k : ℕ). m.index / 2 * (2 ^ k * 2)) (sym host_eq))
    where
      cancel : (i j t : ℕ) → 0 < t → i * (t * 2) ≡ j * (t * 2) → i ≡ j
      cancel i j t h e =
          sym (mul-div_left i (twice_pos t h))
          ∙ ap (λ (v : ℕ). v / (t * 2)) e
          ∙ mul-div_left j (twice_pos t h)
        where
          twice_pos : (t : ℕ) → 0 < t → 0 < t * 2
          twice_pos t h = omega arith

  pub len-positive : IsProper p → IsProper q → 1 ≤ p.len
  len-positive h k = elim (ℕ_discrete p.len 0) [
    | no z ↦ omega arith
    | yes z ↦ absurd (apart_index (first p n h z ∙ sym (first q m k (sym l ∙ z))))
  ]
    where
      first : (p : Prefix) (n : IsNetwork p) → IsProper p → p.len ≡ 0 → n.index ≡ 0
      first p n h z =
          small n.index (2 ^ p.ip.bits) p.ip.value
            (n.value_eq
              ∙ ap (λ (k : ℕ). n.index * 2 ^ (p.ip.bits - k)) z
              ∙ ap (λ (k : ℕ). n.index * 2 ^ k) (all_bits p.ip.bits))
            h
        where
          all_bits : (b : ℕ) → b - 0 ≡ b
          all_bits b = omega arith

          small : (i t v : ℕ) → v ≡ i * t → v < t → i ≡ 0
          small zero t v e h = refl
          small (suc i) t v e h = absurd (grind arith)

  -- Their addresses are those of the parent.
  pub hits-parent : (a : Ip) → 1 ≤ p.len → hits (parent_of q) a ≡ hits p a + hits q a
  hits-parent a h = hits-half (parent_of q) (parent_network q m h') a shorter ∙ halves_are
    where
      h' : 1 ≤ q.len
      h' = omega arith

      shorter : (parent_of q).len < (parent_of q).ip.bits
      shorter = omega (arith, base-bits q, m.len_le)

      parent_eq : parent_of p ≡ parent_of q
      parent_eq =
          ap (λ z. record { ip = z.ip; len = p.len - 1 }) b
          ∙ ap (λ (k : ℕ). record { ip = (base_of q).ip; len = k - 1 }) l

      half_p : half (parent_of q) n.index ≡ p
      half_p = ap (λ z. half z n.index) (sym parent_eq) ∙ is_half p n h

      half_q : half (parent_of q) m.index ≡ q
      half_q = is_half q m h'

      halves_are :
          hits (half (parent_of q) (2 * (m.index / 2))) a
            + hits (half (parent_of q) (2 * (m.index / 2) + 1)) a
          ≡ hits p a + hits q a
      halves_are = elim (Bool-cases (m.index % 2 == 1)) [
        | inl o ↦
            sum (at (2 * (m.index / 2)) n.index p half_p (even_p o))
              (at (2 * (m.index / 2) + 1) m.index q half_q (odd m.index o))
        | inr o ↦ omega (
          arith,
          at (2 * (m.index / 2)) m.index q half_q (even m.index o),
          at (2 * (m.index / 2) + 1) n.index p half_p (odd_p o),
        )
      ]
        where
          at :
              (i j : ℕ) (z : Prefix)
              → half (parent_of q) j ≡ z
              → i ≡ j
              → hits (half (parent_of q) i) a ≡ hits z a
          at i j z e f = ap (λ (k : ℕ). hits (half (parent_of q) k) a) f ∙ ap (λ y. hits y a) e

          sum : {x y u v : ℕ} → x ≡ u → y ≡ v → x + y ≡ u + v
          sum e f = omega arith

          odd : (j : ℕ) → (j % 2 == 1) ≡ true → 2 * (j / 2) + 1 ≡ j
          odd j o = ground arith

          even : (j : ℕ) → (j % 2 == 1) ≡ false → 2 * (j / 2) ≡ j
          even j o = ground arith

          even_p : (m.index % 2 == 1) ≡ true → 2 * (m.index / 2) ≡ n.index
          even_p o = other n.index m.index half_index apart_index o
            where
              other : (i j : ℕ) → i / 2 ≡ j / 2 → i ≢ j → (j % 2 == 1) ≡ true → 2 * (j / 2) ≡ i
              other i j e n o = ground arith

          odd_p : (m.index % 2 == 1) ≡ false → 2 * (m.index / 2) + 1 ≡ n.index
          odd_p o = other n.index m.index half_index apart_index o
            where
              other : (i j : ℕ) → i / 2 ≡ j / 2 → i ≢ j → (j % 2 == 1) ≡ false → 2 * (j / 2) + 1 ≡ i
              other i j e n o = ground arith
