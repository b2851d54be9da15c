-- ===== src/Tests/Pools.antt =====
-- The theorems on the operations of a pool at a sample pool.
use nsm_sdk.Prelude.{ℕ, ◌≡◌, ◌≢◌, ◌↔◌, ◌⊎◌, arith, [], ◌∷◌, none, some, true}
use nsm_sdk.IpPool.Address.{Address, num}
use nsm_sdk.IpPool.Range.Algebra.{Holds}
use nsm_sdk.IpPool.Pool.{Pool, add_range, delete_range}
use nsm_sdk.IpPool.Pool.Valid.{ranges, Has, IsPool}
use nsm_sdk.IpPool.Pool.Add.{Offers, add_range_lem}
use nsm_sdk.IpPool.Pool.Remove.{delete_range_lem}
use nsm_sdk.IpPool.Pool.Access.{
  Ip, IpNet, contains_net, pull, pull_ip, pull_p2p, prefixes_of, get_prefixes_of,
}
use nsm_sdk.IpPool.Pool.Access.Pull.{Pulls, pull_lem}
use nsm_sdk.IpPool.Pool.Access.Query.{contains_net_lem}
use nsm_sdk.IpPool.Pool.Access.Exclude.{Free, Pair, pull_ip_lem, pull_p2p_lem}
use nsm_sdk.IpPool.Pool.Access.Iterate.{get_prefixes_of_lem}
use nsm_sdk.Tests.{ip4, between, ip4-IsWord, between-IsRange, three, three-IsPool}

add_range_lem_example :
    Offers three (λ n. Holds (between 8 9) n ⊎ Has three n) (add_range (between 8 9) three)
add_range_lem_example =
    add_range_lem (between 8 9) three (between-IsRange 8 9 (omega arith) (omega arith)) three-IsPool

delete_range_lem_example :
    Offers three (λ n. Has three n × (¬ Holds (between 6 11) n)) (delete_range (between 6 11) three)
delete_range_lem_example =
    delete_range_lem (between 6 11) three (between-IsRange 6 11 (omega arith) (omega arith))
      three-IsPool

abbrev net : IpNet
net = record { bytes = 4; range = between 10 11 }

contains_net_lem_example :
    (contains_net (some net) three ≡ true) ↔ ((n : ℕ) → Holds net.range n → Has three n)
contains_net_lem_example =
    contains_net_lem net three (between-IsRange 10 11 (omega arith) (omega arith)) three-IsPool

pull_lem_example :
    ((ranges three ≡ []) × (pull three ≡ some (none, three)))
    ⊎ ((a : Address) × (q : Pool) × Pulls three (pull three) a q)
pull_lem_example = pull_lem three three-IsPool

abbrev twelve : Ip
twelve = record { bytes = 16; value = ip4 12 }

pull_ip_lem_example :
    (Free three (none ∷ some three ∷ []) (num (ip4 12))
      × ((q : Pool) × (pull_ip (some twelve) (none ∷ some three ∷ []) three ≡ some (some twelve, q))
          × IsPool q
          × ((n : ℕ) → Has q n ↔ (Has three n × (n ≢ num (ip4 12))))))
    ⊎ ((¬ Free three (none ∷ some three ∷ []) (num (ip4 12)))
        × (pull_ip (some twelve) (none ∷ some three ∷ []) three ≡ some (none, three)))
pull_ip_lem_example =
    pull_ip_lem twelve (none ∷ some three ∷ []) three (ip4-IsWord 12 (omega arith))
      (three-IsPool, tt) three-IsPool

pull_p2p_lem_example :
    ((a : Address) × (b : Address) × (q : Pool) × Pair three (none ∷ []) a b q)
    ⊎ ((pull_p2p (none ∷ []) three ≡ some (none, three))
        × ((m n : ℕ) → Free three (none ∷ []) m → Free three (none ∷ []) n → m ≡ n))
pull_p2p_lem_example = pull_p2p_lem (none ∷ []) three tt three-IsPool

get_prefixes_of_lem_example : get_prefixes_of three ≡ prefixes_of (ranges three)
get_prefixes_of_lem_example = get_prefixes_of_lem three
