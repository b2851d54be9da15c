-- ===== src/PrefixPool/Subnets.antt =====
-- pkg/tools/prefixpool/prefixpool.go: `extractSubnet` parts a prefix into a smaller one and the rest.
use nsm_sdk.Prelude.{
  ℕ, zero, suc, ◌+◌, ◌-◌, ◌*◌, ◌/◌, ◌^◌, ◌≤◌, ◌<◌, ◌≡◌, refl, sym, inl, inr, List, [], ◌∷◌, ◌++◌,
  Bool, true, false, ◌&&◌, ◌==◌, ==_iff, Bool-cases, arith, length, length-append,
}
use nsm_sdk.PrefixPool.{Ip, Prefix, host, contains, parted, extract_subnet_loop, extract_subnet}
use nsm_sdk.PrefixPool.Halves.{
  hit, hits, covers, covers-append, IsNetwork, AllNetworks, AllNetworks-append, half,
  half-IsNetwork, halves_eq, hits-half,
}

-- Of two prefixes of one length that meet, both have the same addresses.
pub same_length :
    (p q : Prefix) (a : Ip)
    → p.ip.bits ≡ q.ip.bits
    → p.len ≡ q.len
    → contains p q.ip ≡ true
    → hits p a ≡ hits q a
unfolding contains
same_length p q a b l c = go (q.ip.bits == p.ip.bits) refl c
  where
    go :
        (e : Bool)
        → (q.ip.bits == p.ip.bits) ≡ e
        → (e && (q.ip.value / 2 ^ host p == p.ip.value / 2 ^ host p)) ≡ true
        → hits p a ≡ hits q a
    go false x h = absurd cc
    go true x h =
        at (host p) (host q) (ground arith)
          ((==_iff (q.ip.value / 2 ^ host p) (p.ip.value / 2 ^ host p)).0 h)
      where
        at :
            (k k' : ℕ)
            → k ≡ k'
            → q.ip.value / 2 ^ k ≡ p.ip.value / 2 ^ k
            → hit ((a.bits == p.ip.bits) && (a.value / 2 ^ k == p.ip.value / 2 ^ k))
              ≡ hit ((a.bits == q.ip.bits) && (a.value / 2 ^ k' == q.ip.value / 2 ^ k'))
        at k k' e d = rw (sym e, d, b) refl

-- What the loop has still to part.
pub record Meets (root smaller : Prefix) : Type 0 where
  pub is_network : IsNetwork root
  pub bits_eq : root.ip.bits ≡ smaller.ip.bits
  pub len_le : root.len ≤ smaller.len
  pub len_fits : smaller.len ≤ smaller.ip.bits
  pub meets : contains root smaller.ip ≡ true

other_half :
    (root smaller : Prefix) (m : Meets root smaller)
    → root.len < root.ip.bits
    → contains (half root (2 * m.is_network.index)) smaller.ip ≡ false
    → contains (half root (2 * m.is_network.index + 1)) smaller.ip ≡ true
other_half root smaller m h e =
    go (contains root smaller.ip) (contains (half root (2 * m.is_network.index)) smaller.ip) _
      m.meets e (hits-half root m.is_network smaller.ip h)
  where
    go : (b c d : Bool) → b ≡ true → c ≡ false → hit b ≡ hit c + hit d → d ≡ true
    go b c d e f g = ground arith

-- The pieces and the smaller prefix have together the addresses that are to be parted.
abbrev pub Parts : Prefix → Prefix → List Prefix → List Prefix → List Prefix → Type 0
Parts root smaller left right ps =
    ((a : Ip) → covers ps a + hits smaller a ≡ covers left a + covers right a + hits root a)
    × (length ps ≡ length left + length right + (smaller.len - root.len))
    × (AllNetworks left → AllNetworks right → AllNetworks ps)

extract_subnet_loop_lem :
    (n : ℕ) (root smaller : Prefix) (left right : List Prefix)
    → Meets root smaller
    → host root < n
    → (ps : List Prefix) × (extract_subnet_loop n root smaller left right ≡ parted ps)
      × Parts root smaller left right ps
unfolding extract_subnet_loop
extract_subnet_loop_lem zero root smaller left right m lt = absurd (omega arith)
extract_subnet_loop_lem (suc n) root smaller left right m lt =
    elim (Bool-cases (root.len == smaller.len)) [
      | inl e ↦ (
        left ++ right,
        rw (extract_subnet_loop, e) refl,
        (
          (λ a.
              omega
                (arith, covers-append left right a, meet a ((==_iff root.len smaller.len).0 e))),
          omega (arith, length-append left right, (==_iff root.len smaller.len).0 e),
          AllNetworks-append left right,
        ),
      )
      | inr e ↦ elim (Bool-cases (contains low smaller.ip)) [
        | inl c ↦
            let (ps, r, (t, l, w)) =
              extract_subnet_loop_lem n low smaller left (right ++ high ∷ [])
                (below c (fits e) (shorter e)) (narrower e) in
            (
              ps,
              rw (extract_subnet_loop, e, halves_eq root m.is_network (fits e), c) r,
              (
                (λ a. omega (
                  arith,
                  t a,
                  covers-append right (high ∷ []) a,
                  hits-half root m.is_network a (fits e),
                )),
                omega (arith, l, length-append right (high ∷ []), shorter e),
                (λ x y. w x (
                    AllNetworks-append right (high ∷ []) y
                      (half_net (2 * m.is_network.index + 1) (fits e), tt))),
              ),
            )
        | inr c ↦
            let (ps, r, (t, l, w)) =
              extract_subnet_loop_lem n high smaller (left ++ low ∷ []) right
                (above c (fits e) (shorter e)) (narrower e) in
            (
              ps,
              rw
                  (
                    extract_subnet_loop,
                    e,
                    halves_eq root m.is_network (fits e),
                    c,
                    other_half root smaller m (fits e) c,
                  )
                  r,
              (
                (λ a. omega (
                  arith,
                  t a,
                  covers-append left (low ∷ []) a,
                  hits-half root m.is_network a (fits e),
                )),
                omega (arith, l, length-append left (low ∷ []), shorter e),
                (λ x y.
                    w
                      (AllNetworks-append left (low ∷ []) x
                        (half_net (2 * m.is_network.index) (fits e), tt))
                      y),
              ),
            )
      ]
    ]
  where
    low : Prefix
    low = half root (2 * m.is_network.index)

    high : Prefix
    high = half root (2 * m.is_network.index + 1)

    meet : (a : Ip) → root.len ≡ smaller.len → hits root a ≡ hits smaller a
    meet a e = same_length root smaller a m.bits_eq e m.meets

    shorter : (root.len == smaller.len) ≡ false → root.len < smaller.len
    shorter e = let h : root.len ≤ smaller.len = m.len_le in ground arith

    fits : (root.len == smaller.len) ≡ false → root.len < root.ip.bits
    fits e = omega (arith, shorter e, m.len_fits, m.bits_eq)

    narrower : (root.len == smaller.len) ≡ false → root.ip.bits - (root.len + 1) < n
    narrower e = omega (arith, fits e)

    half_net : (q : ℕ) → root.len < root.ip.bits → IsNetwork (half root q)
    half_net q f = half-IsNetwork root q f

    below :
        contains low smaller.ip ≡ true
        → root.len < root.ip.bits
        → root.len < smaller.len
        → Meets low smaller
    below c f s = record {
      is_network = half-IsNetwork root (2 * m.is_network.index) f;
      bits_eq = m.bits_eq;
      len_le = omega arith;
      len_fits = m.len_fits;
      meets = c;
    }

    above :
        contains low smaller.ip ≡ false
        → root.len < root.ip.bits
        → root.len < smaller.len
        → Meets high smaller
    above c f s = record {
      is_network = half-IsNetwork root (2 * m.is_network.index + 1) f;
      bits_eq = m.bits_eq;
      len_le = omega arith;
      len_fits = m.len_fits;
      meets = other_half root smaller m f c;
    }

-- A network that contains a smaller prefix is parted, without an error, into as many prefixes as the
-- smaller one is longer. The pieces and the smaller prefix have together, counted with
-- multiplicity, exactly the addresses of the network: the pieces miss nothing, do not overlap, and do
-- not meet the smaller prefix. They are networks.
pub extract_subnet_lem :
    (wider smaller : Prefix)
    → Meets wider smaller
    → (ps : List Prefix) × (extract_subnet wider smaller ≡ parted ps)
      × ((a : Ip) → covers ps a + hits smaller a ≡ hits wider a)
      × (length ps ≡ smaller.len - wider.len)
      × AllNetworks ps
unfolding extract_subnet
extract_subnet_lem wider smaller m =
    let (ps, r, (t, l, w)) =
      extract_subnet_loop_lem (suc (host wider)) wider smaller [] [] m (omega arith) in
    (ps, r, (λ a. omega (arith, t a)), omega (arith, l), w tt tt)
