-- ===== src/IpPool/Pool/Access/Nets.antt =====
-- A new pool, and what `AddNet` and `Exclude` do to a pool.
use nsm_sdk.Prelude.{ℕ, ◌≡◌, ◌≢◌, ◌⊎◌, inl, inr, refl, arith, some, false, ◌==◌, ==_iff, Bool-cases}
use nsm_sdk.IpPool.Range.{IsRange}
use nsm_sdk.IpPool.Range.Algebra.{Holds}
use nsm_sdk.IpPool.Tree.{node_color, to_list}
use nsm_sdk.IpPool.Pool.{Pool}
use nsm_sdk.IpPool.Pool.Valid.{Has, IsPool}
use nsm_sdk.IpPool.Pool.Add.{Offers, add_range_lem}
use nsm_sdk.IpPool.Pool.Remove.{delete_range_lem}
use nsm_sdk.IpPool.Pool.Access.{IpNet, new, add_net, exclude}

pub new-IsPool : (n : ℕ) → IsPool (new n)
unfolding new to_list node_color
new-IsPool n = record {
  red_black = record { height = 0; balanced = refl; root_black = refl };
  ordered = tt;
  counted = refl;
}

-- `AddNet` adds the addresses of a network of the pool's own length, and passes over another one;
-- `Exclude` takes the addresses of any network.
pub add_net_lem :
    (net : IpNet) (p : Pool)
    → IsRange net.range
    → IsPool p
    → ((p.ip_length ≡ net.bytes)
        → Offers p (λ n. Holds net.range n ⊎ Has p n) (add_net (some net) p))
      × ((p.ip_length ≢ net.bytes) → add_net (some net) p ≡ some p)
      × Offers p (λ n. Has p n × (¬ Holds net.range n)) (exclude (some net) p)
unfolding add_net exclude
add_net_lem net p w v = (
  (λ e. rw ((==_iff p.ip_length net.bytes).1 e) (add_range_lem net.range p w v)),
  (λ d. rw (differ p.ip_length net.bytes d) refl),
  delete_range_lem net.range p w v,
)
  where
    differ : (a b : ℕ) → a ≢ b → (a == b) ≡ false
    differ a b d = ground arith

pub add_net-IsPool :
    (net : IpNet) (p : Pool)
    → IsRange net.range
    → IsPool p
    → (q : Pool) × (add_net (some net) p ≡ some q) × IsPool q
add_net-IsPool net p w v =
    let (same, other, _) = add_net_lem net p w v in
    elim (Bool-cases (p.ip_length == net.bytes)) [
      | inl e ↦ let (q, k, u, _, _) = same ((==_iff p.ip_length net.bytes).0 e) in (q, k, u)
      | inr e ↦ (p, other (differ p.ip_length net.bytes e), v)
    ]
  where
    differ : (a b : ℕ) → (a == b) ≡ false → a ≢ b
    differ a b d = ground arith
