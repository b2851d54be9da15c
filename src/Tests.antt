-- ===== src/Tests.antt =====
-- Sample addresses, ranges, pools and connections, and the theorems of the other modules at them.
mod Ranges
mod Trees
mod Pools
mod Addressing
mod Paths
mod Matching
mod Watching
mod Granting
mod Bypassing
mod Beginning
mod Prefixing
mod Releasing
mod Leaking
mod Drawing
mod Excluding
use nsm_sdk.Prelude.{ℕ, ◌+◌, ◌≤◌, ◌<◌, ◌≡◌, refl, arith, List, [], ◌∷◌, Option, none, some, String}
use nsm_sdk.IpPool.Address.{Address, IsWord, num}
use nsm_sdk.IpPool.Range.{Range, IsRange}
use nsm_sdk.IpPool.Tree.{black, red, Tree, leaf, node, node_color, to_list}
use nsm_sdk.IpPool.Pool.{Pool}
use nsm_sdk.IpPool.Pool.Valid.{IsPool}

-- The address number `k` after 0.0.0.0.
abbrev pub ip4 : ℕ → Address
ip4 k = record { high = 0; low = 281470681743360 + k }

abbrev pub between : ℕ → ℕ → Range
between a b = record { start = ip4 a; end = ip4 b }

pub ip4-IsWord : (k : ℕ) → k < 4294967296 → IsWord (ip4 k)
ip4-IsWord k h = record { high_lt = omega arith; low_lt = omega arith }

pub between-IsRange : (a b : ℕ) → a ≤ b → b < 4294967296 → IsRange (between a b)
between-IsRange a b h k = record {
  start_word = ip4-IsWord a (omega arith);
  end_word = ip4-IsWord b k;
  ordered = omega arith;
}

-- The addresses 4 to 7, 10 to 13 and 20.
abbrev pub three_nodes : Tree
three_nodes =
    node (between 10 13) black (node (between 4 7) red leaf leaf)
      (node (between 20 20) red leaf leaf)

abbrev pub three : Pool
three = record { root = three_nodes; size = 3; ip_length = 4 }

pub three-IsPool : IsPool three
unfolding node_color to_list
three-IsPool = record {
  red_black = record {
    height = 1;
    balanced = ((refl, refl, refl, refl), (refl, refl, refl, refl));
    root_black = refl;
  };
  ordered = (
    omega arith,
    between-IsRange 4 7 (omega arith) (omega arith),
    omega arith,
    (
      omega arith,
      between-IsRange 10 13 (omega arith) (omega arith),
      omega arith,
      (omega arith, between-IsRange 20 20 (omega arith) (omega arith), omega arith, tt),
    ),
  );
  counted = refl;
}
