-- ===== src/Ipam/Requests.antt =====
-- Requests that allocate a pair of addresses.
use native.Mathlib.Decide.{ℕ_discrete}
use nsm_sdk.Prelude.{
  ℕ, zero, suc, ◌+◌, ◌≡◌, ◌≢◌, ◌∙◌, ◌↔◌, ◌⊎◌, inl, inr, refl, sym, subst, ap, arith, List, [], ◌∷◌,
  Option, none, some, Bool, true, false, get_elem?, set, String, same, ≡→same,
}
use nsm_sdk.IpPool.Address.{Address, IsWord, num}
use nsm_sdk.IpPool.Pool.{Pool}
use nsm_sdk.IpPool.Pool.Valid.{Has}
use nsm_sdk.IpPool.Pool.Add.{iff_trans}
use nsm_sdk.IpPool.Pool.Access.{◌>>=◌}
use nsm_sdk.IpPool.Pool.Access.Exclude.{Pair}
use nsm_sdk.Ipam.{
  bytes_of, IpContext, forget, Info, Server, exclude_pools_of, recover_addrs, get_p2p_addrs, free,
  store, close, add_info, finish, allocate, request,
}
use nsm_sdk.Ipam.Release.{Fits, free_lem}
use nsm_sdk.Ipam.Pairs.{Pools, get_p2p_addrs_lem, Nets, excludes_lem}

-- The pools offer the same addresses.
abbrev pub Same : List Pool → List Pool → Type 0
Same [] [] = Unit {0}
Same [] (q ∷ qs) = ⊥
Same (p ∷ ps) [] = ⊥
Same (p ∷ ps) (q ∷ qs) = ((n : ℕ) → Has q n ↔ Has p n) × Same ps qs

-- Each pool offers only addresses of its own family.
abbrev pub Families : List Pool → Type 0
Families [] = Unit {0}
Families (p ∷ ps) =
    ((a : Address) → IsWord a → Has p (num a) → bytes_of a ≡ p.ip_length) × Families ps

family_at :
    (ps : List Pool) (j : ℕ) (p : Pool)
    → Families ps
    → get_elem? ps j ≡ some p
    → (a : Address) → IsWord a
    → Has p (num a)
    → bytes_of a ≡ p.ip_length
family_at [] j p f e = absurd (miss e)
  where
    miss : none ≡ some p → ⊥
    miss e = cc
family_at (q ∷ qs) zero p (f, fs) e =
    subst (λ o. (a : Address) → IsWord a → Has o (num a) → bytes_of a ≡ o.ip_length) (inj e) f
  where
    inj : some q ≡ some p → q ≡ p
    inj e = cc
family_at (q ∷ qs) (suc j) p (f, fs) e = family_at qs j p fs e

Same-refl : (ps : List Pool) → Same ps ps
Same-refl [] = tt
Same-refl (p ∷ ps) = ((λ n. ((λ m. m), λ m. m)), Same-refl ps)

Same-set :
    (ps : List Pool) (j : ℕ) (p q : Pool)
    → get_elem? ps j ≡ some p
    → ((n : ℕ) → Has q n ↔ Has p n)
    → Same ps (set ps j q)
Same-set [] j p q e h = tt
Same-set (r ∷ rs) zero p q e h =
    (subst (λ o. (n : ℕ) → Has q n ↔ Has o n) (inj (sym e)) h, Same-refl rs)
  where
    inj : some p ≡ some r → p ≡ r
    inj e = cc
Same-set (r ∷ rs) (suc j) p q e h = ((λ n. ((λ m. m), λ m. m)), Same-set rs j p q e h)

set-set : (ps : List Pool) (j : ℕ) (q r : Pool) → set (set ps j q) j r ≡ set ps j r
set-set [] j q r = refl
set-set (p ∷ ps) zero q r = refl
set-set (p ∷ ps) (suc j) q r = ap (◌∷◌ p) (set-set ps j q r)

get-set-some :
    (ps : List Pool) (j : ℕ) (p q : Pool)
    → get_elem? ps j ≡ some p
    → get_elem? (set ps j q) j ≡ some q
get-set-some [] j p q e = absurd (miss e)
  where
    miss : none ≡ some p → ⊥
    miss e = cc
get-set-some (r ∷ rs) zero p q e = refl
get-set-some (r ∷ rs) (suc j) p q e = get-set-some rs j p q e

-- A pair that is taken from the pool at `j` and freed again: the pool offers what it did.
record Returned (ps : List Pool) (j : ℕ) (p q : Pool) (i : Info) : Type 0 where
  back : Pool
  freed : free i (set ps j q) ≡ some (set ps j back)
  holds : get_elem? (set ps j back) i.ip_pool ≡ some back
  same_members : (n : ℕ) → Has back n ↔ Has p n

returned_members :
    {P Q : Type 0} (n a b : ℕ)
    → Q ↔ (P × (n ≢ a) × (n ≢ b))
    → ((n ≡ a) → P)
    → ((n ≡ b) → P)
    → ((n ≡ b) ⊎ (n ≡ a) ⊎ Q) ↔ P
returned_members n a b (f, g) x y = (
  elim [ inl e ↦ y e | inr k ↦ elim k [ inl e ↦ x e | inr m ↦ (f m).0 ] ],
  λ m. elim (ℕ_discrete n a) [
    | yes e ↦ inr (inl e)
    | no d ↦ elim (ℕ_discrete n b) [ yes e ↦ inl e | no d' ↦ inr (inr (g (m, d, d'))) ]
  ],
)

returned_lem :
    (es : List (Option Pool)) (ps : List Pool) (j k : ℕ) (p q : Pool) (a b : Address)
    → k ≡ j
    → get_elem? ps j ≡ some p
    → ((c : Address) → IsWord c → Has p (num c) → bytes_of c ≡ p.ip_length)
    → Pair p es a b q
    → Returned ps j p q (record { ip_pool = k; src_addr = b; dst_addr = a })
returned_lem es ps j k p q a b same e f y =
    subst (λ k. Returned ps j p q (record { ip_pool = k; src_addr = b; dst_addr = a })) (sym same)
      (let i : Info = record { ip_pool = j; src_addr = b; dst_addr = a } in
        let fits : Fits i q = record {
          src_word = y.destination_word;
          dst_word = y.source_word;
          src_bytes = f b y.destination_word y.destination.0 ∙ sym y.same_length;
          dst_bytes = f a y.source_word y.source.0 ∙ sym y.same_length;
        } in
        let (r, t, _, m) = free_lem i (set ps j q) q (get-set-some ps j p q e) fits y.valid in
        record {
          back = r;
          freed = t ∙ ap some (set-set ps j q r);
          holds = get-set-some ps j p r e;
          same_members = λ n. iff_trans (m n) (
              returned_members n (num a) (num b) (y.members n)
                (λ d. subst (Has p) (sym d) y.source.0)
                (λ d. subst (Has p) (sym d) y.destination.0));
        })

recover_none :
    (es : List (Option Pool)) (c : IpContext) (ps : List Pool)
    → c.src_addrs ≡ []
    → recover_addrs es c.src_addrs c.dst_addrs ps ≡ some (none, ps)
unfolding recover_addrs
recover_none es c ps e = rw (e, recover_addrs) refl

module _ (next_ok : Bool) (id : String) (c : IpContext) (s : Server) (x y : Pool)
    (fresh : s.infos id ≡ none) (bare : c.src_addrs ≡ [])
    (ex : exclude_pools_of c.excluded ≡ some (x, y)) where
  request_granted :
      (i : Info) (ps : List Pool)
      → get_p2p_addrs (some x ∷ some y ∷ []) 0 s.ip_pools ≡ some (some i, ps)
      → request next_ok id c s
        ≡ finish next_ok false i c (record { ip_pools = ps; infos = store id i s.infos })
  unfolding request allocate
  request_granted i ps e =
      rw (ex, request, fresh, recover_none (some x ∷ some y ∷ []) c s.ip_pools bare, allocate, e)
        refl

  request_refused :
      get_p2p_addrs (some x ∷ some y ∷ []) 0 s.ip_pools ≡ some (none, s.ip_pools)
      → request next_ok id c s ≡ some (none, s)
  unfolding request allocate
  request_refused e =
      rw (ex, request, fresh, recover_none (some x ∷ some y ∷ []) c s.ip_pools bare, allocate, e)
        refl

-- What holds of a server before a request of a new connection that brings no addresses.
pub record New (id : String) (c : IpContext) (s : Server) : Type 0 where
  pub unknown : s.infos id ≡ none
  pub no_addrs : c.src_addrs ≡ []
  pub excluded : Nets c.excluded
  pub valid : Pools s.ip_pools
  pub families : Families s.ip_pools

-- A request of a new connection that brings no source address, with valid pools that offer addresses
-- of their own family: it is granted a pair of addresses, and its `Close` brings the pools back to
-- what they offered and forgets the connection; or it is refused, and nothing is changed.
pub request-close :
    (id : String) (c : IpContext) (s : Server)
    → New id c s
    → (request true id c s ≡ some (none, s))
      ⊎ ((i : Info) × (t : Server) × (request true id c s ≡ some (some (add_info i c), t))
          × (t.infos id ≡ some i)
          × ((u : Server) × (close id t ≡ some u)
              × (u.infos id ≡ none)
              × Same s.ip_pools u.ip_pools))
unfolding finish close
request-close id c s w =
    let (x, y, ex, v, v') = excludes_lem c.excluded w.excluded in
    elim (get_p2p_addrs_lem (some x ∷ some y ∷ []) 0 s.ip_pools (v, (v', tt)) w.valid) [
      | inl (_, e) ↦ inl (request_refused true id c s x y w.unknown w.no_addrs ex e)
      | inr g ↦
          let i : Info = record { ip_pool = 0 + g.place; src_addr = g.src; dst_addr = g.dst } in
          let r =
            returned_lem (some x ∷ some y ∷ []) s.ip_pools g.place (0 + g.place) g.pool g.rest g.dst
              g.src (omega arith) g.there (family_at s.ip_pools g.place g.pool w.families g.there)
              g.pair in
          inr (
            i,
            record { ip_pools = set s.ip_pools g.place g.rest; infos = store id i s.infos },
            request_granted true id c s x y w.unknown w.no_addrs ex i
                (set s.ip_pools g.place g.rest) g.runs,
            rw (≡→same id id refl) refl,
            (
              record {
                ip_pools = set s.ip_pools g.place r.back;
                infos = forget id (store id i s.infos);
              },
              rw (≡→same id id refl, close, r.freed) refl,
              rw (≡→same id id refl) refl,
              Same-set s.ip_pools g.place g.pool r.back g.there r.same_members,
            ),
          )
    ]

-- When the rest of the chain fails a request of a new connection that brings no source address, the
-- pools, valid and each of one family, offer what they did. But a connection that was granted a pair stays in the map with this pair, which its pool offers again.
pub request_failed :
    (id : String) (c : IpContext) (s : Server)
    → New id c s
    → (t : Server) × (request false id c s ≡ some (none, t))
      × Same s.ip_pools t.ip_pools
      × ((t ≡ s)
          ⊎ ((i : Info) × (p : Pool) × (t.infos id ≡ some i)
              × (get_elem? t.ip_pools i.ip_pool ≡ some p)
              × Has p (num i.src_addr)
              × Has p (num i.dst_addr)))
unfolding finish
request_failed id c s w =
    let (x, y, ex, v, v') = excludes_lem c.excluded w.excluded in
    elim (get_p2p_addrs_lem (some x ∷ some y ∷ []) 0 s.ip_pools (v, (v', tt)) w.valid) [
      | inl (_, e) ↦ (
        s,
        request_refused false id c s x y w.unknown w.no_addrs ex e,
        Same-refl s.ip_pools,
        inl refl,
      )
      | inr g ↦
          let i : Info = record { ip_pool = 0 + g.place; src_addr = g.src; dst_addr = g.dst } in
          let r =
            returned_lem (some x ∷ some y ∷ []) s.ip_pools g.place (0 + g.place) g.pool g.rest g.dst
              g.src (omega arith) g.there (family_at s.ip_pools g.place g.pool w.families g.there)
              g.pair in
          (
            record { ip_pools = set s.ip_pools g.place r.back; infos = store id i s.infos },
            request_granted false id c s x y w.unknown w.no_addrs ex i
                  (set s.ip_pools g.place g.rest) g.runs
                ∙ ap
                    (λ o.
                      o
                      >>= (λ ps. some (none, record { ip_pools = ps; infos = store id i s.infos })))
                    r.freed,
            Same-set s.ip_pools g.place g.pool r.back g.there r.same_members,
            inr (
              i,
              r.back,
              rw (≡→same id id refl) refl,
              r.holds,
              (r.same_members (num g.src)).1 g.pair.destination.0,
              (r.same_members (num g.dst)).1 g.pair.source.0,
            ),
          )
    ]
