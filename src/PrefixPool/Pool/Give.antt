-- ===== src/PrefixPool/Pool/Give.antt =====
-- pkg/tools/prefixpool/prefixpool.go: the addresses that `Extract` gives to a connection.
use nsm_sdk.Prelude.{
  ◌+◌, ◌%◌, ◌^◌, ◌≡◌, refl, inl, inr, ◌⊎◌, List, [], ◌∷◌, some, Bool, true, Option-cases, arith,
  String, ≡→same,
}
use nsm_sdk.PrefixPool.{Ip, Prefix, PoolError, overflowed, parted, failed, network, contains}
use nsm_sdk.PrefixPool.Halves.{hits, covers}
use nsm_sdk.PrefixPool.Room.{AllFit}
use nsm_sdk.PrefixPool.Pool.{
  Request, Extracted, PrefixPool, put_connection, increment_ip, Given, IpFamily, family_len,
  whole_request, extract_more, give, extract,
}
use nsm_sdk.PrefixPool.Pool.Extract.{
  one_prefix, extract_prefixes_lem, extract_one, increment_ip-contains,
}

module _ (is_valid : Request → Bool) where
  extract_more_lem :
      (ps : List Prefix) (rs : List Request)
      → AllFit ps
      → ((x : Extracted) × (extract_more is_valid ps rs ≡ parted x)
          × AllFit x.1
          × ((a : Ip) → covers x.0 a + covers x.1 a ≡ covers ps a))
        ⊎ ((e : PoolError) × (extract_more is_valid ps rs ≡ failed e))
  extract_more_lem ps [] f = inl (([], ps), refl, f, λ a. omega arith)
  extract_more_lem ps (r ∷ rs) f = elim (extract_prefixes_lem is_valid ps (r ∷ rs) f) [
    | inr (e, h) ↦ inr (e, h)
    | inl (x, h, (w, m, lo, hi)) ↦ inl (x, h, w, m)
  ]

  -- The two addresses stand one behind the other in the prefix, and the connection is remembered.
  abbrev pub Gives : String → Prefix → PrefixPool → Given → PrefixPool → Type 0
  Gives id q s g t =
      (contains (network q) g.src.ip ≡ true)
      × (contains (network q) g.dst.ip ≡ true)
      × (g.src.ip ≡ record q.ip { value = (q.ip.value + 1) % 2 ^ q.ip.bits })
      × (g.dst.ip ≡ record g.src.ip { value = (g.src.ip.value + 1) % 2 ^ g.src.ip.bits })
      × (t.connections id ≡ some (record { ip_net = some (network q); prefixes = g.requested }))
      × AllFit t.prefixes
      × ((a : Ip) → hits q a + covers g.requested a + covers t.prefixes a ≡ covers s.prefixes a)

  give_lem :
      (id : String) (rs : List Request) (q : Prefix) (left : List Prefix) (s : PrefixPool)
      → AllFit left
      → ((a : Ip) → hits q a + covers left a ≡ covers s.prefixes a)
      → ((g : Given) × (t : PrefixPool) × (give is_valid id rs q left s ≡ (parted g, t))
          × Gives id q s g t)
        ⊎ ((e : PoolError) × (give is_valid id rs q left s ≡ (failed e, s)))
  unfolding give
  give_lem id rs q left s f m = elim (Option-cases (increment_ip q.ip (network q))) [
    | inl h ↦ inr (overflowed, rw (give, h) refl)
    | inr (src, h) ↦ elim (Option-cases (increment_ip src (network q))) [
      | inl k ↦ inr (overflowed, rw (give, h, k) refl)
      | inr (dst, k) ↦ elim (extract_more_lem left rs f) [
        | inr (e, x) ↦ inr (e, rw (give, h, k, x) refl)
        | inl ((got, rest), x, w, c) ↦
            let (a, b) = increment_ip-contains q.ip src (network q) h in
            let (a', b') = increment_ip-contains src dst (network q) k in
            inl (
              record {
                src = record { ip = src; len = q.len };
                dst = record { ip = dst; len = q.len };
                requested = got;
              },
              put_connection id (record { ip_net = some (network q); prefixes = got })
                  (record s { prefixes = rest }),
              rw (give, h, k, x) refl,
              (a, a', b, b', rw (≡→same id id refl) refl, w, λ i. omega (arith, m i, c i)),
            )
      ]
    ]
  ]

  -- Of a pool whose masks fit, `Extract` either gives the two addresses behind the first one of a
  -- prefix, both of them in the prefix, and remembers it with the further prefixes for the
  -- connection, or it gives an error and leaves the pool as it is. The prefix has the length of the
  -- family (30 or 126); it, the further prefixes and those left in the pool have together,
  -- counted with multiplicity, exactly the addresses of the pool before. The request for one prefix
  -- that it makes has to be valid.
  pub extract_lem :
      (id : String) (family : IpFamily) (rs : List Request) (s : PrefixPool)
      → AllFit s.prefixes
      → is_valid (whole_request family) ≡ true
      → ((q : Prefix) × (g : Given) × (t : PrefixPool) × (extract is_valid id family rs s
            ≡ (parted g, t))
          × (q.len ≡ family_len family)
          × Gives id q s g t)
        ⊎ ((e : PoolError) × (extract is_valid id family rs s ≡ (failed e, s)))
  unfolding extract
  extract_lem id family rs s f v = elim (one_prefix s.prefixes (family_len family) f) [
    | inr (e, h) ↦ inr (e, rw (extract, extract_one is_valid s.prefixes family v (failed e) h) refl)
    | inl (q, rest, h, (l, n, w, m)) ↦ elim (give_lem id rs q rest s w m) [
      | inr (e, k) ↦
          inr (e, rw (extract, extract_one is_valid s.prefixes family v (parted (q, rest)) h) k)
      | inl (g, t, k, p) ↦ inl (
        q,
        g,
        t,
        rw (extract, extract_one is_valid s.prefixes family v (parted (q, rest)) h) k,
        l,
        p,
      )
    ]
  ]
