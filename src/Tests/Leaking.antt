-- ===== src/Tests/Leaking.antt =====
-- The theorems on the single-address IPAM at samples.
use nsm_sdk.Prelude.{◌≡◌, refl, arith, [], ◌∷◌, Option, some, true}
use nsm_sdk.IpPool.Address.{Address, num}
use nsm_sdk.IpPool.Tree.{to_list}
use nsm_sdk.IpPool.Pool.{Pool}
use nsm_sdk.IpPool.Pool.Valid.{Has}
use nsm_sdk.IpPool.Pool.Access.{new}
use nsm_sdk.Ipam.{bytes_of}
use nsm_sdk.SinglePointIpam.{Info, Server, src_loop, fuel, with_pool, close}
use nsm_sdk.SinglePointIpam.Leaks.{Frees, Searched, src_loop_lem, close_again}
use nsm_sdk.Tests.{ip4, ip4-IsWord, three, three-IsPool}

src_loop_lem_example :
    (o : Option Address) × (q : Pool) × (src_loop fuel true (new 4) (new 16) three ≡ some (o, q))
    × Searched true (new 4) (new 16) three o q
src_loop_lem_example = src_loop_lem true (new 4) (new 16) three three-IsPool

abbrev nine : Info
nine = record { ip_pool = 0; src_addr = ip4 9; dst_addr = ip4 8 }

abbrev server : Server
server = record {
  ip_pools = three ∷ [];
  masks = 24 ∷ [];
  my_ips = ip4 8 ∷ [];
  infos = λ k. some nine;
}

nine_bytes : three.ip_length ≡ bytes_of (ip4 9)
unfolding bytes_of
nine_bytes = refl

nine_taken : ¬ Has three (num (ip4 9))
unfolding to_list
nine_taken m = omega arith

close_again_example :
    (q q' : Pool) × (close "1" server ≡ some (with_pool 0 q server))
    × Frees nine three q
    × (close "1" (with_pool 0 three (with_pool 0 q server))
        ≡ some (with_pool 0 q' (with_pool 0 three (with_pool 0 q server))))
    × Frees nine three q'
    × Has q' (num (ip4 9))
close_again_example =
    close_again "1" server nine three three refl refl three-IsPool (ip4-IsWord 9 (omega arith))
      nine_bytes three-IsPool refl nine_taken
