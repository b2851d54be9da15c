-- ===== src/Tests/Granting.antt =====
-- The theorems on the grants of prefixes at a sample pool.
use nsm_sdk.Prelude.{◌≡◌, refl, arith, none, some}
use nsm_sdk.IpPool.Pool.Access.{IpNet}
use nsm_sdk.Vl3Ipam.{Prefix, given, net_of, grant}
use nsm_sdk.Vl3Ipam.Grants.{Grants, grant_lem}
use nsm_sdk.Tests.{between, between-IsRange, three, three-IsPool}

abbrev quad : IpNet
quad = record { bytes = 4; range = between 4 7 }

abbrev wanted : Prefix
wanted = given "0.0.0.4/30" (some quad)

reads : net_of wanted ≡ some quad
unfolding net_of
reads = refl

grant_lem_example : Grants three (grant wanted three) wanted quad
grant_lem_example =
    grant_lem wanted quad three reads (between-IsRange 4 7 (omega arith) (omega arith)) refl
      three-IsPool

abbrev anything : Prefix
anything = given "" none
