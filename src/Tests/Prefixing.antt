-- ===== src/Tests/Prefixing.antt =====
-- The theorems on the prefix pool at samples.
use nsm_sdk.Prelude.{
  ℕ, ◌+◌, ◌^◌, ◌≤◌, ◌<◌, ◌≡◌, ◌⊎◌, refl, List, [], ◌∷◌, none, some, Bool, true, false, arith,
  get_elem?,
}
use nsm_sdk.PrefixPool.{
  Ip, Prefix, PoolError, no_room, insufficient_space, pool_empty, parted, failed, contains,
  extract_subnet, extract_subnet_loop, halves, subnet, extract_prefix, search_root, split_loop,
  nowhere, root_at, intersect,
}
use nsm_sdk.PrefixPool.Halves.{hit, covers, IsNetwork}
use nsm_sdk.PrefixPool.Subnets.{Meets}
use nsm_sdk.PrefixPool.Search.{Finds}
use nsm_sdk.PrefixPool.Room.{Takes, extract_prefix_lem}
use nsm_sdk.PrefixPool.Pool.{
  Request, PrefixPool, Given, ipv4, family_len, Extracted, extract_prefixes, extract,
}
use nsm_sdk.PrefixPool.Pool.Extract.{Fills, extract_prefixes_lem}
use nsm_sdk.PrefixPool.Pool.Give.{Gives, extract_lem}
use nsm_sdk.PrefixPool.Exclude.{Excluded, exclude_one, exclude_prefixes, first_met, keep_others}
use nsm_sdk.PrefixPool.Exclude.Meeting.{IsDisjoint}
use nsm_sdk.PrefixPool.Exclude.Removed.{Drops, exclude_one_lem}
use nsm_sdk.PrefixPool.Exclude.Whole.{DropsAll, Excludes, Outside, exclude_prefixes_lem}

-- The prefix of 10.0.0.k.
abbrev pub ten : ℕ → ℕ → Prefix
ten k len = record { ip = record { bits = 32; value = 167772160 + k }; len = len }

ten-IsNetwork : IsNetwork (ten 0 24)
ten-IsNetwork = record { index = 655360; value_eq = refl; len_le = omega arith }

ten-Meets : Meets (ten 0 24) (ten 64 26)
unfolding contains
ten-Meets = record {
  is_network = ten-IsNetwork;
  bits_eq = refl;
  len_le = omega arith;
  len_fits = omega arith;
  meets = refl;
}

pieces : extract_subnet (ten 0 24) (ten 64 26) ≡ parted (ten 0 26 ∷ ten 128 25 ∷ [])
unfolding extract_subnet extract_subnet_loop halves subnet contains
pieces = refl

abbrev one_ten : List Prefix
one_ten = ten 0 24 ∷ []

extract_prefix_lem_example :
    ((q : Prefix) × (rest : List Prefix) × (extract_prefix one_ten 26 ≡ parted (q, rest))
      × Takes one_ten 26 q rest)
    ⊎ (((extract_prefix one_ten 26 ≡ failed no_room) × Finds 26 one_ten nowhere)
        ⊎ ((extract_prefix one_ten 26 ≡ failed insufficient_space)
            × ((i : ℕ) × Finds 26 one_ten (root_at i)
                × ((p : Prefix) × (get_elem? one_ten i ≡ some p) × (p.ip.bits < 26)))))
extract_prefix_lem_example = extract_prefix_lem one_ten 26 (omega arith, tt)

taken : extract_prefix one_ten 26 ≡ parted (ten 0 26, ten 64 26 ∷ ten 128 25 ∷ [])
unfolding extract_prefix search_root split_loop halves subnet
taken = refl

-- A prefix of 128 bits is split for a request of one with 32 bits.
abbrev wide : Prefix
wide = record { ip = record { bits = 128; value = 0 }; len = 28 }

of_other_family :
    extract_prefix (wide ∷ []) (family_len ipv4)
    ≡ parted (
      record wide { len = 30 },
      record { ip = record { bits = 128; value = 2 ^ 98 }; len = 30 }
          ∷ record { ip = record { bits = 128; value = 2 ^ 99 }; len = 29 }
          ∷ [],
    )
unfolding extract_prefix search_root split_loop halves subnet
of_other_family = refl

abbrev accepts : Request → Bool
accepts r = true

abbrev two_requests : List Request
two_requests =
    record { required = 1; requested = 2; prefix_len = 26 }
    ∷ record { required = 1; requested = 1; prefix_len = 25 }
    ∷ []

extract_prefixes_lem_example :
    ((x : Extracted) × (extract_prefixes accepts one_ten two_requests ≡ parted x)
      × Fills two_requests one_ten x)
    ⊎ ((e : PoolError) × (extract_prefixes accepts one_ten two_requests ≡ failed e))
extract_prefixes_lem_example = extract_prefixes_lem accepts one_ten two_requests (omega arith, tt)

abbrev pool : PrefixPool
pool = record { prefixes = one_ten; connections = λ k. none }

extract_lem_example :
    ((q : Prefix) × (g : Given) × (t : PrefixPool) × (extract accepts "1" ipv4 [] pool
        ≡ (parted g, t))
      × (q.len ≡ family_len ipv4)
      × Gives accepts "1" q pool g t)
    ⊎ ((e : PoolError) × (extract accepts "1" ipv4 [] pool ≡ (failed e, pool)))
extract_lem_example = extract_lem accepts "1" ipv4 [] pool (omega arith, tt) refl

hit_le : (b : Bool) → hit b + 0 ≤ 1
hit_le true = omega arith
hit_le false = omega arith

one_ten-IsDisjoint : IsDisjoint one_ten
one_ten-IsDisjoint a = hit_le (contains (ten 0 24) a)

exclude_one_lem_example :
    (y : Excluded) × (exclude_one (ten 64 26) (one_ten, []) ≡ parted y)
    × Drops (ten 64 26) (one_ten, []) y
exclude_one_lem_example =
    exclude_one_lem (ten 64 26) one_ten [] (omega arith) (ten-IsNetwork, tt) one_ten-IsDisjoint

exclude_prefixes_lem_example :
    ((removed : List Prefix) × (t : PrefixPool) × (exclude_prefixes (ten 64 26 ∷ []) pool
        ≡ (parted removed, t))
      × Excludes (ten 64 26 ∷ []) pool removed t)
    ⊎ ((exclude_prefixes (ten 64 26 ∷ []) pool ≡ (failed pool_empty, pool))
        × ((removed : List Prefix) × DropsAll (ten 64 26 ∷ []) (one_ten, []) ([], removed))
        × ((a : Ip) → Outside (ten 64 26 ∷ []) a → covers one_ten a ≡ 0))
exclude_prefixes_lem_example =
    exclude_prefixes_lem (ten 64 26 ∷ []) pool (omega arith, tt) (ten-IsNetwork, tt)
      one_ten-IsDisjoint

-- An excluded prefix that is bigger than two of the pool removes the first one only.
one_left :
    exclude_one (ten 0 24) (ten 0 26 ∷ ten 64 26 ∷ [], []) ≡ parted (ten 64 26 ∷ [], ten 0 26 ∷ [])
unfolding exclude_one first_met keep_others intersect contains
one_left = refl
