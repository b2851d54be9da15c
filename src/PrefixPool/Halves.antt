-- ===== src/PrefixPool/Halves.antt =====
-- pkg/tools/prefixpool/prefixpool.go: the addresses of a prefix are those of its halves.
use native.Mathlib.Nat.{pow-suc, div-div-eq-div-mul, mul-div_left}
use nsm_sdk.Prelude.{
  ℕ, suc, ◌+◌, ◌-◌, ◌*◌, ◌/◌, ◌%◌, ◌^◌, ◌≤◌, ◌<◌, ◌≡◌, ◌∙◌, refl, sym, ap, List, [], ◌∷◌, ◌++◌,
  some, Bool, true, false, ◌&&◌, ◌==◌, ltb, arith,
}
use nsm_sdk.IpPool.Prefixes.Words.{pow-pos}
use nsm_sdk.PrefixPool.{Ip, Prefix, host, network, contains, subnet, halves, set_net_index_in_ip}

-- How often an address stands in prefixes.
abbrev pub hit : Bool → ℕ
hit true = 1
hit false = 0

abbrev pub hits : Prefix → Ip → ℕ
hits p a = hit (contains p a)

abbrev pub covers : List Prefix → Ip → ℕ
covers [] a = 0
covers (p ∷ ps) a = hits p a + covers ps a

pub covers-append : (ps qs : List Prefix) (a : Ip) → covers (ps ++ qs) a ≡ covers ps a + covers qs a
covers-append [] qs a = omega arith
covers-append (p ∷ ps) qs a = omega (arith, covers-append ps qs a)

-- The mask is not longer than the address, which is that of a network.
pub record IsNetwork (p : Prefix) : Type 0 where
  pub index : ℕ
  pub value_eq : p.ip.value ≡ index * 2 ^ host p
  pub len_le : p.len ≤ p.ip.bits

-- The prefixes of a list are networks.
abbrev pub AllNetworks : List Prefix → Type 0
AllNetworks [] = Unit {0}
AllNetworks (p ∷ ps) = IsNetwork p × AllNetworks ps

pub AllNetworks-append :
    (ps qs : List Prefix) → AllNetworks ps → AllNetworks qs → AllNetworks (ps ++ qs)
AllNetworks-append [] qs f g = g
AllNetworks-append (p ∷ ps) qs (h, f) g = (h, AllNetworks-append ps qs f g)

pub network-IsNetwork : (p : Prefix) → p.len ≤ p.ip.bits → IsNetwork (network p)
network-IsNetwork p h = record { index = p.ip.value / 2 ^ host p; value_eq = refl; len_le = h }

index_eq : (p : Prefix) (n : IsNetwork p) → p.ip.value / 2 ^ host p ≡ n.index
index_eq p n = ap (λ (v : ℕ). v / 2 ^ host p) n.value_eq ∙ mul-div_left n.index (pow-pos (host p))

pub network_eq : (p : Prefix) → IsNetwork p → network p ≡ p
network_eq p n = ap valued (ap (λ (i : ℕ). i * 2 ^ host p) (index_eq p n) ∙ sym n.value_eq)
  where
    valued : ℕ → Prefix
    valued v = record p { ip = record p.ip { value = v } }

pub contains_eq :
    (p : Prefix) (n : IsNetwork p) (a : Ip)
    → contains p a ≡ ((a.bits == p.ip.bits) && (a.value / 2 ^ host p == n.index))
unfolding contains
contains_eq p n a =
    ap (λ (v : ℕ). (a.bits == p.ip.bits) && (a.value / 2 ^ host p == v)) (index_eq p n)

pub contains-network : (p : Prefix) (a : Ip) → contains (network p) a ≡ contains p a
unfolding contains
contains-network p a =
    ap (λ (v : ℕ). (a.bits == p.ip.bits) && (a.value / 2 ^ host p == v))
      (mul-div_left (p.ip.value / 2 ^ host p) (pow-pos (host p)))

-- The halves of a network, as they are.
abbrev pub half : Prefix → ℕ → Prefix
half p q = record {
  ip = record { bits = p.ip.bits; value = q * 2 ^ (p.ip.bits - (p.len + 1)) };
  len = p.len + 1;
}

pub half-IsNetwork : (p : Prefix) (q : ℕ) → p.len < p.ip.bits → IsNetwork (half p q)
half-IsNetwork p q h = record { index = q; value_eq = refl; len_le = omega arith }

contains-half :
    (p : Prefix) (q : ℕ) (a : Ip)
    → contains (half p q) a
      ≡ ((a.bits == p.ip.bits) && (a.value / 2 ^ (p.ip.bits - (p.len + 1)) == q))
unfolding contains
contains-half p q a =
    ap (λ (v : ℕ). (a.bits == p.ip.bits) && (a.value / 2 ^ (p.ip.bits - (p.len + 1)) == v))
      (mul-div_left q (pow-pos (p.ip.bits - (p.len + 1))))

pub div-pow : (h k v : ℕ) → h ≡ suc k → v / 2 ^ h ≡ v / 2 ^ k / 2
div-pow h k v e =
    ap (λ (i : ℕ). v / 2 ^ i) e
    ∙ ap (λ (i : ℕ). v / i) (pow-suc 2 k)
    ∙ sym (div-div-eq-div-mul v (2 ^ k) 2)

lower_half : (q k : ℕ) → q * 2 ^ suc k ≡ 2 * q * 2 ^ k
lower_half q k = omega (arith, ap (λ (t : ℕ). q * t) (pow-suc 2 k))

pub halves_eq :
    (p : Prefix) (n : IsNetwork p)
    → p.len < p.ip.bits
    → halves p ≡ some (half p (2 * n.index), half p (2 * n.index + 1))
unfolding halves subnet
halves_eq p n h = rw (halves, part false, part true) (ap some (pair left right))
  where
    k : ℕ
    k = p.ip.bits - (p.len + 1)

    fits : ltb p.ip.bits (p.len + 1) ≡ false
    fits = ground arith

    part :
        (b : Bool) → subnet p b ≡ some record { ip = set_net_index_in_ip p.ip b k; len = p.len + 1 }
    part b = rw (subnet, fits) refl

    value_k : p.ip.value ≡ 2 * n.index * 2 ^ k
    value_k =
        n.value_eq
        ∙ ap (λ (i : ℕ). n.index * 2 ^ i) (deeper p.ip.bits p.len h)
        ∙ lower_half n.index k
      where
        deeper : (b l : ℕ) → l < b → b - l ≡ suc (b - (l + 1))
        deeper b l h = omega arith

    even : (p.ip.value / 2 ^ k % 2 == 1) ≡ false
    even = rw (value_k, mul-div_left (2 * n.index) (pow-pos k)) (twice n.index)
      where
        twice : (q : ℕ) → (2 * q % 2 == 1) ≡ false
        twice q = ground arith

    valued : ℕ → Prefix
    valued v = record { ip = record { bits = p.ip.bits; value = v }; len = p.len + 1 }

    left : valued p.ip.value ≡ half p (2 * n.index)
    left = ap valued value_k

    right :
        record { ip = set_net_index_in_ip p.ip true k; len = p.len + 1 } ≡ half p (2 * n.index + 1)
    right = rw even (ap valued (sum (2 ^ k) (2 * n.index) p.ip.value value_k))
      where
        sum : (d q v : ℕ) → v ≡ q * d → v + d ≡ (q + 1) * d
        sum d q v e = grind arith

    pair : {x x' y y' : Prefix} → x ≡ x' → y ≡ y' → ◌≡◌ {A = Prefix × Prefix} (x, y) (x', y')
    pair e d = rw (e, d) refl

-- Each address of a network is in one of its halves.
pub hits-half :
    (p : Prefix) (n : IsNetwork p) (a : Ip)
    → p.len < p.ip.bits
    → hits p a ≡ hits (half p (2 * n.index)) a + hits (half p (2 * n.index + 1)) a
hits-half p n a h =
    rw
      (
        contains_eq p n a,
        contains-half p (2 * n.index) a,
        contains-half p (2 * n.index + 1) a,
        div-pow (host p) (p.ip.bits - (p.len + 1)) a.value (deeper p.ip.bits p.len h),
      )
      (split (a.bits == p.ip.bits) (a.value / 2 ^ (p.ip.bits - (p.len + 1))) n.index)
  where
    deeper : (b l : ℕ) → l < b → b - l ≡ suc (b - (l + 1))
    deeper b l h = omega arith

    split :
        (b : Bool) (w q : ℕ)
        → hit (b && (w / 2 == q)) ≡ hit (b && (w == 2 * q)) + hit (b && (w == 2 * q + 1))
    split true w q = ground arith
    split false w q = omega arith
