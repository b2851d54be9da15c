-- ===== src/Ipam/Pairs.antt =====
-- The allocation of a pair of addresses, and requests that allocate one.
use nsm_sdk.Prelude.{
  ℕ, suc, ◌+◌, ◌≡◌, ◌⊎◌, inl, inr, refl, ap, arith, List, [], ◌∷◌, Option, none, some, get_elem?,
  set,
}
use nsm_sdk.IpPool.Address.{Address}
use nsm_sdk.IpPool.Range.{IsRange}
use nsm_sdk.IpPool.Pool.{Pool}
use nsm_sdk.IpPool.Pool.Valid.{IsPool}
use nsm_sdk.IpPool.Pool.Access.{IpNet, new, add_net, pull_p2p}
use nsm_sdk.IpPool.Pool.Access.Exclude.{AllPools, Free, Pair, pull_p2p_lem}
use nsm_sdk.IpPool.Pool.Access.Nets.{new-IsPool, add_net-IsPool}
use nsm_sdk.Ipam.{Info, add_nets, exclude_pools_of, get_p2p_addrs}

abbrev pub Pools : List Pool → Type 0
Pools [] = Unit {0}
Pools (p ∷ ps) = IsPool p × Pools ps

-- No pool of the list has two free addresses.
abbrev pub Exhausted : List (Option Pool) → List Pool → Type 0
Exhausted es [] = Unit {0}
Exhausted es (p ∷ ps) = ((m n : ℕ) → Free p es m → Free p es n → m ≡ n) × Exhausted es ps

-- The pair is of the pool at place `j`, the first that has two free addresses.
pub record Granted (es : List (Option Pool)) (k : ℕ) (ps : List Pool)
    (o : Option (Option Info × List Pool)) : Type 0 where
  pub place : ℕ
  pub pool : Pool
  pub rest : Pool
  pub dst : Address
  pub src : Address
  pub there : get_elem? ps place ≡ some pool
  pub valid : IsPool pool
  pub pair : Pair pool es dst src rest
  pub runs :
      o
      ≡ some
          (some (record { ip_pool = k + place; src_addr = src; dst_addr = dst }), set ps place rest)

p2p_step :
    (es : List (Option Pool)) (k : ℕ) (p : Pool) (ps : List Pool)
    → pull_p2p es p ≡ some (none, p)
    → ((m n : ℕ) → Free p es m → Free p es n → m ≡ n)
    → (Exhausted es ps × (get_p2p_addrs es (suc k) ps ≡ some (none, ps)))
      ⊎ Granted es (suc k) ps (get_p2p_addrs es (suc k) ps)
    → (Exhausted es (p ∷ ps) × (get_p2p_addrs es k (p ∷ ps) ≡ some (none, p ∷ ps)))
      ⊎ Granted es k (p ∷ ps) (get_p2p_addrs es k (p ∷ ps))
unfolding get_p2p_addrs
p2p_step es k p ps e one (inl (x, r)) = inl ((one, x), rw (e, get_p2p_addrs, r) refl)
p2p_step es k p ps e one (inr g) = inr (record {
  place = suc g.place;
  pool = g.pool;
  rest = g.rest;
  dst = g.dst;
  src = g.src;
  there = g.there;
  valid = g.valid;
  pair = g.pair;
  runs =
      rw (e, get_p2p_addrs, g.runs)
        (ap
          (λ i. some (
            some (record { ip_pool = i; src_addr = g.src; dst_addr = g.dst }),
            p ∷ set ps g.place g.rest,
          ))
          (omega arith));
})

-- `getP2PAddrs` takes the pair from the first pool with two free addresses, as `PullP2PAddrs` does,
-- and leaves the others; it fails only if no pool has two, and then leaves all pools.
pub get_p2p_addrs_lem :
    (es : List (Option Pool)) (k : ℕ) (ps : List Pool)
    → AllPools es
    → Pools ps
    → (Exhausted es ps × (get_p2p_addrs es k ps ≡ some (none, ps)))
      ⊎ Granted es k ps (get_p2p_addrs es k ps)
unfolding get_p2p_addrs
get_p2p_addrs_lem es k [] h w = inl (tt, refl)
get_p2p_addrs_lem es k (p ∷ ps) h (v, w) = elim (pull_p2p_lem es p h v) [
  | inl (a, b, q, r) ↦ inr (record {
    place = 0;
    pool = p;
    rest = q;
    dst = a;
    src = b;
    there = refl;
    valid = v;
    pair = r;
    runs =
        rw (r.runs, get_p2p_addrs)
          (ap (λ i. some (some (record { ip_pool = i; src_addr = b; dst_addr = a }), q ∷ ps))
            (omega arith));
  })
  | inr (e, one) ↦ p2p_step es k p ps e one (get_p2p_addrs_lem es (suc k) ps h w)
]

-- The networks to exclude have start and end in order.
abbrev pub Nets : List (Option IpNet) → Type 0
Nets [] = Unit {0}
Nets (none ∷ ns) = Nets ns
Nets (some n ∷ ns) = IsRange n.range × Nets ns

add_nets_lem :
    (ns : List (Option IpNet)) (p : Pool)
    → Nets ns
    → IsPool p
    → (q : Pool) × (add_nets ns p ≡ some q) × IsPool q
unfolding add_nets add_net
add_nets_lem [] p h v = (p, refl, v)
add_nets_lem (none ∷ ns) p h v = add_nets_lem ns p h v
add_nets_lem (some n ∷ ns) p (w, h) v =
    let (q, e, u) = add_net-IsPool n p w v in
    let (q', e', u') = add_nets_lem ns q h u in (q', rw (e, add_nets, e') refl, u')

pub excludes_lem :
    (ns : List (Option IpNet))
    → Nets ns
    → (a : Pool) × (b : Pool) × (exclude_pools_of ns ≡ some (a, b)) × IsPool a × IsPool b
unfolding exclude_pools_of
excludes_lem ns h =
    let (a, e, v) = add_nets_lem ns (new 4) h (new-IsPool 4) in
    let (b, k, w) = add_nets_lem ns (new 16) h (new-IsPool 16) in
    (a, b, rw (e, exclude_pools_of, k) refl, v, w)
