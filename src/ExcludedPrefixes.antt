-- ===== src/ExcludedPrefixes.antt =====
-- pkg/networkservice/common/excludedprefixes: utils.go and client.go, the client that keeps the
-- addresses of a connection out of the later ones. What package net reads from a prefix is the
-- argument `parse`, its mask's length and the width of the mask `mask_size`; it
-- reads every route, for `getRoutePrefixes` crashes on others. The URL of a request is one text, and the response of the chain behind is another object than the request. `none` is a
-- crash of the pools.
pub mod Shared
pub mod Valid
use nsm_sdk.Prelude.{
  ℕ, zero, suc, ◌+◌, ◌-◌, ◌%◌, ◌^◌, List, [], ◌∷◌, ◌++◌, Option, none, some, Bool, true, false, not,
  ◌==◌, ◌&&◌, ◌||◌, if◌then◌else◌, get_elem?, set, String, same,
}
use nsm_sdk.IpPool.Pool.{Pool}
use nsm_sdk.IpPool.Pool.Access.{◌>>=◌, Ip, IpNet, new, add_net, contains}

unfoldable pub has : String → List String → Bool
has x [] = false
has x (y ∷ ys) = same y x || has x ys

-- `removeDuplicates` behind the elements encountered.
unfoldable pub remove_encountered : List String → List String → List String
unfolding has
remove_encountered encountered [] = []
remove_encountered encountered (x ∷ xs) =
    let rest = remove_encountered encountered xs in
    let behind = remove_encountered (x ∷ encountered) xs in
    if has x encountered then rest else x ∷ behind

unfoldable pub remove_duplicates : List String → List String
unfolding remove_encountered
remove_duplicates xs = remove_encountered [] xs

unfoldable pub exclude : List String → List String → List String
unfolding has
exclude [] es = []
exclude (s ∷ ss) es = let rest = exclude ss es in if has s es then rest else s ∷ rest

pub record IpContext : Type 0 where
  pub src_ip_addrs : List String
  pub dst_ip_addrs : List String
  pub src_routes : List String
  pub dst_routes : List String
  pub excluded_prefixes : List String

-- The connection counter is a word of 32 bits.
pub record AwarenessGroup : Type 0 where
  pub ns_url_set : String → Bool
  pub excluded_prefixes : List String
  pub connection_counter : ℕ

pub record Client : Type 0 where
  pub excluded_prefixes : List String
  pub awareness_groups : List AwarenessGroup

-- `Request` of the server of server.go, up to the call of the rest of the chain: the prefixes of its
-- pool are added.
unfoldable pub serve : List String → IpContext → IpContext
unfolding remove_duplicates
serve prefixes c = record c {
  excluded_prefixes = remove_duplicates (c.excluded_prefixes ++ prefixes);
}

-- The place of the first group with the URL, from a place on.
unfoldable pub check_from : ℕ → String → List AwarenessGroup → Option ℕ
check_from i url [] = none
check_from i url (g ∷ gs) = if g.ns_url_set url then some i else check_from (suc i) url gs

unfoldable pub check_awareness_groups : String → List AwarenessGroup → Option ℕ
unfolding check_from
check_awareness_groups url gs = check_from 0 url gs

abbrev pub is_place : ℕ → Option ℕ → Bool
is_place i none = false
is_place i (some j) = i == j

-- The prefixes of the groups other than the one of the request.
unfoldable pub other_groups : ℕ → Option ℕ → List AwarenessGroup → List String
other_groups i place [] = []
other_groups i place (g ∷ gs) =
    let rest = other_groups (suc i) place gs in
    if is_place i place then rest else g.excluded_prefixes ++ rest

-- The prefixes that `Request` sends on, when there are any to add.
unfoldable pub new_excluded_prefixes : IpContext → List String → List String → List String
unfolding remove_duplicates exclude
new_excluded_prefixes c own groups =
    exclude (remove_duplicates (c.excluded_prefixes ++ own ++ groups))
      (c.src_ip_addrs ++ c.dst_ip_addrs)

abbrev pub is_empty : List String → Bool
is_empty [] = true
is_empty (x ∷ xs) = false

unfoldable pub sent_prefixes : IpContext → List String → List String → List String
unfolding new_excluded_prefixes
sent_prefixes c own groups =
    if is_empty own && is_empty groups then [] else new_excluded_prefixes c own groups

unfoldable pub sent_context : IpContext → List String → List String → IpContext
unfolding new_excluded_prefixes
sent_context c own groups =
    if is_empty own && is_empty groups
    then c
    else record c { excluded_prefixes = new_excluded_prefixes c own groups }

-- The response, the context of the request as `Request` leaves it, and whether it has closed the
-- connection behind it.
pub record Answer : Type 0 where
  pub response : Option IpContext
  pub ip_context : IpContext
  pub client : Client
  pub is_closed : Bool

unfoldable pub leave_group : Option ℕ → List AwarenessGroup → List AwarenessGroup
leave_group none gs = gs
leave_group (some i) gs = elim (get_elem? gs i) [
  | none ↦ gs
  | some g ↦
      let n = (g.connection_counter + (2 ^ 32 - 1)) % 2 ^ 32 in
      set gs i (record g {
        excluded_prefixes = if n == 0 then [] else g.excluded_prefixes;
        connection_counter = n;
      })
]

module _ (mask_size : String → ℕ × ℕ) where
  unfoldable pub get_route_prefixes : List String → List String
  get_route_prefixes [] = []
  get_route_prefixes (r ∷ rs) =
      let rest = get_route_prefixes rs in
      if (mask_size r).0 == (mask_size r).1 then r ∷ rest else rest

  -- What a connection takes: its addresses and the routes to single addresses.
  unfoldable pub taken : IpContext → List String
  unfolding get_route_prefixes
  taken c =
      c.src_ip_addrs
      ++ c.dst_ip_addrs
      ++ get_route_prefixes c.src_routes
      ++ get_route_prefixes c.dst_routes

  -- What the client keeps of a response.
  unfoldable pub remember : Option ℕ → IpContext → Client → Client
  unfolding taken remove_duplicates
  remember none r c = record c {
    excluded_prefixes = remove_duplicates (c.excluded_prefixes ++ (taken r ++ r.excluded_prefixes));
  }
  remember (some i) r c = elim (get_elem? c.awareness_groups i) [
    | none ↦ c
    | some g ↦ record c {
      awareness_groups = set c.awareness_groups i (record g {
        excluded_prefixes = remove_duplicates (g.excluded_prefixes ++ taken r);
        connection_counter = (g.connection_counter + 1) % 2 ^ 32;
      });
    }
  ]

  -- `Close`, up to the call of the rest of the chain.
  unfoldable pub close : String → IpContext → Client → Client
  unfolding exclude get_route_prefixes check_awareness_groups leave_group
  close url r c = record {
    excluded_prefixes =
        exclude
          (exclude
            (exclude (exclude (exclude c.excluded_prefixes r.src_ip_addrs) r.dst_ip_addrs)
              (get_route_prefixes r.src_routes))
            (get_route_prefixes r.dst_routes))
          r.excluded_prefixes;
    awareness_groups =
        leave_group (check_awareness_groups url c.awareness_groups) c.awareness_groups;
  }

module _ (mask_size : String → ℕ × ℕ) (parse : String → Option (Ip × IpNet)) where
  -- The single addresses of the prefixes, in two pools; an inner `none` is a prefix that does not
  -- parse.
  unfoldable pub fill : List String → Pool → Pool → Option (Option (Pool × Pool))
  fill [] ip4 ip6 = some (some (ip4, ip6))
  fill (p ∷ ps) ip4 ip6 = elim (parse p) [
    | none ↦ some none
    | some (ip, net) ↦ elim ((mask_size p).0 == (mask_size p).1) [
      | false ↦ fill ps ip4 ip6
      | true ↦ add_net (some net) ip4 >>= λ q4. add_net (some net) ip6 >>= λ q6. fill ps q4 q6
    ]
  ]

  unfoldable pub none_excluded : List String → Pool → Pool → Bool
  none_excluded [] ip4 ip6 = true
  none_excluded (p ∷ ps) ip4 ip6 = elim (parse p) [
    | none ↦ false
    | some (ip, net) ↦
        if contains (some ip) ip4 || contains (some ip) ip6 then false else none_excluded ps ip4 ip6
  ]

  -- `validateIPs`.
  unfoldable pub validate_ips : IpContext → List String → Option Bool
  unfolding fill none_excluded
  validate_ips r excluded = fill excluded (new 4) (new 16) >>= λ pools?. elim pools? [
    | none ↦ some false
    | some (ip4, ip6) ↦ some (none_excluded (r.src_ip_addrs ++ r.dst_ip_addrs) ip4 ip6)
  ]

  -- `Request` in the group at the place: what the rest of the chain answers is the argument `next`.
  unfoldable pub request_in :
      Option ℕ → (IpContext → Option IpContext) → IpContext → Client → Option Answer
  unfolding other_groups sent_prefixes sent_context validate_ips remember
  request_in place next c s =
      let groups = other_groups 0 place s.awareness_groups in
      let sent = sent_prefixes c s.excluded_prefixes groups in
      let d = sent_context c s.excluded_prefixes groups in
      elim (next d) [
        | none ↦ some (record { response = none; ip_context = c; client = s; is_closed = false })
        | some r ↦ validate_ips r sent >>= λ ok. elim ok [
          | false ↦ some (record { response = none; ip_context = d; client = s; is_closed = true })
          | true ↦ some (record {
            response = some r;
            ip_context = c;
            client = remember mask_size place r s;
            is_closed = false;
          })
        ]
      ]

  unfoldable pub request :
      String → (IpContext → Option IpContext) → IpContext → Client → Option Answer
  unfolding check_awareness_groups request_in
  request url next c s = request_in (check_awareness_groups url s.awareness_groups) next c s
