-- ===== src/ExcludedPrefixes/Valid.antt =====
-- validateIPs of the client of pkg/networkservice/common/excludedprefixes.
use nsm_sdk.Prelude.{
  ℕ, ◌≡◌, ◌≢◌, ◌⊎◌, inl, inr, refl, subst, sym, ◌∙◌, ap, arith, List, [], ◌∷◌, ◌++◌, Option, none,
  some, Bool, true, false, ◌==◌, String, same, same→≡, Bool-cases, Option-cases, ==_iff,
}
use nsm_sdk.IpPool.Address.{IsWord, num}
use nsm_sdk.IpPool.Range.{IsRange}
use nsm_sdk.IpPool.Range.Algebra.{Holds}
use nsm_sdk.IpPool.Pool.{Pool}
use nsm_sdk.IpPool.Pool.Valid.{IsPool, Has}
use nsm_sdk.IpPool.Pool.Access.{Ip, IpNet, new, add_net, contains, contains_address}
use nsm_sdk.IpPool.Pool.Access.Nets.{new-IsPool, add_net_lem}
use nsm_sdk.IpPool.Pool.Access.Query.{contains_address_lem}
use nsm_sdk.ExcludedPrefixes.{has, fill, none_excluded, validate_ips, IpContext}

abbrev pub Parser : Type 0
Parser = String → Option (Ip × IpNet)

-- Package net reads addresses of 16 bytes and ranges in order, of one of the two families.
abbrev pub IsRead : Ip × IpNet → Type 0
IsRead (ip, net) = IsWord ip.value × IsRange net.range × ((net.bytes ≡ 4) ⊎ (net.bytes ≡ 16))

abbrev pub Reads : Parser → Type 0
Reads parse = (p : String) (x : Ip × IpNet) → parse p ≡ some x → IsRead x

-- A pool with the range of a network of its own family added, or as it was.
added :
    (net : IpNet) (p : Pool)
    → IsRange net.range
    → IsPool p
    → (q : Pool) × (add_net (some net) p ≡ some q)
      × IsPool q
      × (q.ip_length ≡ p.ip_length)
      × ((n : ℕ) → Has p n → Has q n)
      × ((p.ip_length ≡ net.bytes) → (n : ℕ) → Holds net.range n → Has q n)
added net p w v =
    let (taken, passed, _) = add_net_lem net p w v in
    elim (Bool-cases (p.ip_length == net.bytes)) [
      | inl e ↦
          let (q, k, u, l, m) = taken ((==_iff p.ip_length net.bytes).0 e) in
          (q, k, u, l, (λ n h. (m n).1 (inr h)), (λ i n h. (m n).1 (inl h)))
      | inr e ↦ (
        p,
        passed (differ p.ip_length net.bytes e),
        v,
        refl,
        (λ n h. h),
        (λ i n h. absurd (differ p.ip_length net.bytes e i)),
      )
    ]
  where
    differ : (a b : ℕ) → (a == b) ≡ false → a ≢ b
    differ a b d = ground arith

differ_tests : true ≡ false → ⊥
differ_tests e = cc

pub read_inj : (x y : Ip × IpNet) → some x ≡ some y → x ≡ y
read_inj x y e = cc

module _ (mask_size : String → ℕ × ℕ) (parse : Parser) (reads : Reads parse) where
  -- The addresses of a prefix for a single address are in one of the pools.
  Covered : String → Pool → Pool → Type 0
  Covered p q4 q6 =
      (ip : Ip) (net : IpNet) (n : ℕ)
      → parse p ≡ some (ip, net)
      → ((mask_size p).0 == (mask_size p).1) ≡ true
      → Holds net.range n
      → Has q4 n ⊎ Has q6 n

  Covers : List String → Pool → Pool → Type 0
  Covers ps q4 q6 = (p : String) → has p ps ≡ true → Covered p q4 q6

  Covers-cons :
      (p : String) (ps : List String) (q4 q6 : Pool)
      → Covered p q4 q6
      → Covers ps q4 q6
      → Covers (p ∷ ps) q4 q6
  unfolding has Covers
  Covers-cons p ps q4 q6 c cs r h = elim (Bool-cases (same p r)) [
    | inl e ↦ subst (λ x. Covered x q4 q6) (same→≡ p r e) c
    | inr e ↦ cs r (sym (rw (e) refl) ∙ h)
  ]

  Covered-here :
      (p : String) (ip : Ip) (net : IpNet) (q4 q6 : Pool)
      → parse p ≡ some (ip, net)
      → (net.bytes ≡ 4) ⊎ (net.bytes ≡ 16)
      → ((net.bytes ≡ 4) → (n : ℕ) → Holds net.range n → Has q4 n)
      → ((net.bytes ≡ 16) → (n : ℕ) → Holds net.range n → Has q6 n)
      → Covered p q4 q6
  unfolding Covered
  Covered-here p ip net q4 q6 e z f g ip' net' n i j h =
      let k =
        subst (λ x. Holds x.range n) (ap (λ t. t.1) (read_inj (ip', net') (ip, net) (sym i ∙ e)))
          h in
      elim z [ inl x ↦ inl (f x n k) | inr x ↦ inr (g x n k) ]

  record Filled (ps : List String) (ip4 ip6 q4 q6 : Pool) : Type 0 where
    valid4 : IsPool q4
    valid6 : IsPool q6
    more4 : (n : ℕ) → Has ip4 n → Has q4 n
    more6 : (n : ℕ) → Has ip6 n → Has q6 n
    covers : Covers ps q4 q6

  fill_lem :
      (ps : List String) (ip4 ip6 : Pool)
      → IsPool ip4
      → IsPool ip6
      → ip4.ip_length ≡ 4
      → ip6.ip_length ≡ 16
      → (fill mask_size parse ps ip4 ip6 ≡ some none)
        ⊎ ((q4 q6 : Pool) × (fill mask_size parse ps ip4 ip6 ≡ some (some (q4, q6)))
            × Filled ps ip4 ip6 q4 q6)
  unfolding fill has Covers Covered
  fill_lem [] ip4 ip6 v w l m = inr (
    ip4,
    ip6,
    refl,
    record {
      valid4 = v;
      valid6 = w;
      more4 = λ n h. h;
      more6 = λ n h. h;
      covers = λ p h. absurd (differ_tests (sym h));
    },
  )
  fill_lem (p ∷ ps) ip4 ip6 v w l m = elim (Option-cases (parse p)) [
    | inl e ↦ inl (rw (fill, e) refl)
    | inr ((ip, net), e) ↦ elim (Bool-cases ((mask_size p).0 == (mask_size p).1)) [
      | inr f ↦ elim (fill_lem ps ip4 ip6 v w l m) [
        | inl k ↦ inl (rw (fill, e, f) k)
        | inr (q4, q6, k, g) ↦ inr (
          q4,
          q6,
          rw (fill, e, f) k,
          record {
            valid4 = g.valid4;
            valid6 = g.valid6;
            more4 = g.more4;
            more6 = g.more6;
            covers =
                Covers-cons p ps q4 q6 (λ a b n i j. absurd (differ_tests (sym j ∙ f))) g.covers;
          },
        )
      ]
      | inl f ↦
          let (x, y, z) = reads p (ip, net) e in
          let (a, ka, va, la, ma, ha) = added net ip4 y v in
          let (b, kb, vb, lb, mb, hb) = added net ip6 y w in
          elim (fill_lem ps a b va vb (la ∙ l) (lb ∙ m)) [
            | inl k ↦ inl (rw (fill, e, f, ka, kb) k)
            | inr (q4, q6, k, g) ↦ inr (
              q4,
              q6,
              rw (fill, e, f, ka, kb) k,
              record {
                valid4 = g.valid4;
                valid6 = g.valid6;
                more4 = λ n h. g.more4 n (ma n h);
                more6 = λ n h. g.more6 n (mb n h);
                covers =
                    Covers-cons p ps q4 q6
                      (Covered-here p ip net q4 q6 e z (λ i n h. g.more4 n (ha (l ∙ sym i) n h))
                        (λ i n h. g.more6 n (hb (m ∙ sym i) n h)))
                      g.covers;
              },
            )
          ]
    ]
  ]

  passed :
      (x : String) (xs : List String) (q4 q6 : Pool)
      → none_excluded mask_size parse (x ∷ xs) q4 q6 ≡ true
      → (ip : Ip) × (net : IpNet) × (parse x ≡ some (ip, net))
        × (contains_address ip.value q4 ≡ false)
        × (contains_address ip.value q6 ≡ false)
        × (none_excluded mask_size parse xs q4 q6 ≡ true)
  unfolding none_excluded contains
  passed x xs q4 q6 h = elim (Option-cases (parse x)) [
    | inl e ↦ absurd (differ_tests (sym h ∙ rw (none_excluded, e) refl))
    | inr ((ip, net), e) ↦ elim (Bool-cases (contains_address ip.value q4)) [
      | inl f ↦ absurd (differ_tests (sym h ∙ rw (none_excluded, e, f) refl))
      | inr f ↦ elim (Bool-cases (contains_address ip.value q6)) [
        | inl g ↦ absurd (differ_tests (sym h ∙ rw (none_excluded, e, f, g) refl))
        | inr g ↦ (ip, net, e, f, g, sym (rw (none_excluded, e, f, g) refl) ∙ h)
      ]
    ]
  ]

  -- The addresses that passed are in neither pool.
  none_excluded_lem :
      (xs : List String) (q4 q6 : Pool) (p : String) (ip : Ip) (net : IpNet)
      → IsPool q4
      → IsPool q6
      → none_excluded mask_size parse xs q4 q6 ≡ true
      → has p xs ≡ true
      → parse p ≡ some (ip, net)
      → (Has q4 (num ip.value) → ⊥) × (Has q6 (num ip.value) → ⊥)
  unfolding has
  none_excluded_lem [] q4 q6 p ip net v w h k e = absurd (differ_tests (sym k))
  none_excluded_lem (x ∷ xs) q4 q6 p ip net v w h k e =
      let (jp, met, i, f, g, t) = passed x xs q4 q6 h in
      elim (Bool-cases (same x p)) [
        | inr d ↦ none_excluded_lem xs q4 q6 p ip net v w t (sym (rw (d) refl) ∙ k) e
        | inl d ↦
            let a = (reads p (ip, net) e).0 in
            let c =
              ap (λ t. t.0) (read_inj (jp, met) (ip, net) (sym i ∙ ap parse (same→≡ x p d) ∙ e)) in
            (
              (λ m. differ_tests (
                  sym ((contains_address_lem ip.value q4 a v).1 m)
                  ∙ subst (λ y. contains_address y.value q4 ≡ false) c f)),
              (λ m. differ_tests (
                  sym ((contains_address_lem ip.value q6 a w).1 m)
                  ∙ subst (λ y. contains_address y.value q6 ≡ false) c g)),
            )
      ]

-- The validation of a response always ends. When it accepts the response, no address of it lies in a
-- prefix for a single address that was sent as excluded.
pub validate_ips_lem :
    (mask_size : String → ℕ × ℕ) (parse : Parser) (r : IpContext) (ps : List String)
    → Reads parse
    → (b : Bool) × (validate_ips mask_size parse r ps ≡ some b)
      × ((b ≡ true)
          → (a p : String) (ip jp : Ip) (net met : IpNet)
          → has a (r.src_ip_addrs ++ r.dst_ip_addrs) ≡ true
          → parse a ≡ some (ip, met)
          → has p ps ≡ true
          → parse p ≡ some (jp, net)
          → ((mask_size p).0 == (mask_size p).1) ≡ true
          → Holds net.range (num ip.value)
          → ⊥)
unfolding validate_ips Covers Covered new
validate_ips_lem mask_size parse r ps reads =
    elim (fill_lem mask_size parse reads ps (new 4) (new 16) (new-IsPool 4) (new-IsPool 16) refl
      refl) [
        | inl k ↦ (false, rw (validate_ips, k) refl, (λ e. absurd (differ_tests (sym e))))
        | inr (q4, q6, k, g) ↦ (
          none_excluded mask_size parse (r.src_ip_addrs ++ r.dst_ip_addrs) q4 q6,
          rw (validate_ips, k) refl,
          (λ t a p ip jp net met h i m n o x.
              let (u, w) =
                none_excluded_lem mask_size parse reads (r.src_ip_addrs ++ r.dst_ip_addrs) q4 q6 a
                  ip met g.valid4 g.valid6 t h i in
              elim (g.covers p m jp net (num ip.value) n o x) [ inl y ↦ u y | inr y ↦ w y ]),
        )
      ]
