-- ===== src/SinglePointIpam/Leaks.antt =====
-- pkg/networkservice/ipam/singlepointipam/server.go: what the search for an address takes out of a pool
-- and what `Close` puts back.
use nsm_sdk.Prelude.{
  ℕ, zero, suc, ◌+◌, ◌^◌, ◌≤◌, ◌<◌, ◌≡◌, ◌≢◌, ◌↔◌, ◌⊎◌, ◌∙◌, refl, ap, subst, inl, inr, [], Option,
  none, some, Bool, true, false, not, ◌&&◌, Bool-cases, arith, get_elem?, String, List, ◌∷◌, length,
  length-set, get-set,
}
use nsm_sdk.IpPool.Address.{Address, IsWord, num, num-injective}
use nsm_sdk.IpPool.Pool.{Pool}
use nsm_sdk.IpPool.Pool.Valid.{IsPool, Has, ranges}
use nsm_sdk.IpPool.Pool.Access.{IpNet, single, pull}
use nsm_sdk.IpPool.Pool.Access.Pull.{Pulls, pull_lem}
use nsm_sdk.IpPool.Pool.Access.Nets.{add_net_lem}
use nsm_sdk.IpPool.Chain.{Member}
use nsm_sdk.Ipam.{bytes_of}
use nsm_sdk.SinglePointIpam.{Info, Server, is_excluded, src_loop, fuel, with_pool, free, close}

-- The addresses of the pool before a bound are excluded.
abbrev pub Passes : Pool → Pool → Pool → ℕ → Type 0
Passes ip4 ip6 p n =
    (b : Address) → IsWord b → Has p (num b) → num b < n → is_excluded ip4 ip6 b ≡ true

-- The pool after the search: empty if there is no result, and else without the result and every
-- address before it. With an address for the endpoint, all the addresses that were passed over are
-- excluded: those before the result, or all that the pool had.
abbrev pub Searched : Bool → Pool → Pool → Pool → Option Address → Pool → Type 0
Searched dst_set ip4 ip6 p none q =
    IsPool q × ((k : ℕ) → ¬ Has q k) × (dst_set ≡ true → Passes ip4 ip6 p (2 ^ 128))
Searched dst_set ip4 ip6 p (some a) q =
    IsPool q
    × Has p (num a)
    × (is_excluded ip4 ip6 a ≡ false)
    × (dst_set ≡ true)
    × Passes ip4 ip6 p (num a)
    × ((k : ℕ) → Has q k ↔ (Has p k × (num a < k)))

taken : (dst_set e : Bool) → (not e && dst_set) ≡ true → (e ≡ false) × (dst_set ≡ true)
taken dst_set true h = absurd cc
taken dst_set false h = (refl, h)

excluded : (x dst_set : Bool) → (not x && dst_set) ≡ false → dst_set ≡ true → x ≡ true
excluded true dst_set h e = refl
excluded false dst_set h e = cc

word_lt : (a : Address) → IsWord a → num a < 2 ^ 128
word_lt a w = omega (arith, w.low_lt, w.high_lt)

step :
    (n : ℕ) (dst_set : Bool) (ip4 ip6 p q : Pool) (a : Address) (b : Bool)
    → pull p ≡ some (some a, q)
    → (not (is_excluded ip4 ip6 a) && dst_set) ≡ b
    → src_loop (suc n) dst_set ip4 ip6 p
      ≡ elim b [ true ↦ some (some a, q) | false ↦ src_loop n dst_set ip4 ip6 q ]
unfolding src_loop
step n dst_set ip4 ip6 p q a b r e =
    rw r (ap (λ c. elim c [ true ↦ some (some a, q) | false ↦ src_loop n dst_set ip4 ip6 q ]) e)

src_loop_from :
    (n lo : ℕ) (dst_set : Bool) (ip4 ip6 p : Pool)
    → IsPool p
    → ((k : ℕ) → Has p k → lo ≤ k)
    → lo ≤ 2 ^ 128
    → 2 ^ 128 < lo + n
    → (o : Option Address) × (q : Pool) × (src_loop n dst_set ip4 ip6 p ≡ some (o, q))
      × Searched dst_set ip4 ip6 p o q
unfolding src_loop
src_loop_from zero lo dst_set ip4 ip6 p w h l lt = absurd (omega arith)
src_loop_from (suc n) lo dst_set ip4 ip6 p w h l lt = elim (pull_lem p w) [
  | inl (e, r) ↦ (
    none,
    p,
    rw (src_loop, r) refl,
    (w, λ k m. nothing e k m, λ t b i m l. absurd (nothing e (num b) m)),
  )
  | inr (a, q, r) ↦ elim (Bool-cases (not (is_excluded ip4 ip6 a) && dst_set)) [
    | inl e ↦
        let (x, y) = taken dst_set (is_excluded ip4 ip6 a) e in
        (
          some a,
          q,
          step n dst_set ip4 ip6 p q a true r.runs e,
          (
            r.valid,
            r.offered,
            x,
            y,
            λ b i m l. absurd (none_below (r.least (num b) m) l),
            above a q r,
          ),
        )
    | inr e ↦
        let lower = h (num a) r.offered in
        let (o, q', t, u) =
          src_loop_from n (num a + 1) dst_set ip4 ip6 q r.valid
            (λ k m. omega (arith, ((above a q r k).0 m).1)) (omega (arith, word_lt a r.word))
            (omega arith) in
        (o, q', step n dst_set ip4 ip6 p q a false r.runs e ∙ t, later a q r e o q' u)
  ]
]
  where
    nothing : ranges p ≡ [] → (k : ℕ) → ¬ Has p k
    nothing e k m = subst (Member k) e m

    above :
        (a : Address) (q : Pool)
        → Pulls p (pull p) a q
        → (k : ℕ) → Has q k ↔ (Has p k × (num a < k))
    above a q r k = (
      (λ m. let (x, y) = (r.members k).0 m in (x, more (r.least k x) y)),
      (λ (x, y). (r.members k).1 (x, λ c. omega arith)),
    )
      where
        more : num a ≤ k → k ≢ num a → num a < k
        more x y = omega arith

    none_below : {m n : ℕ} → m ≤ n → n < m → ⊥
    none_below x y = omega arith

    -- What was passed over here, and what is passed over later.
    passed :
        (a : Address) (q : Pool) (r : Pulls p (pull p) a q) (n : ℕ)
        → is_excluded ip4 ip6 a ≡ true
        → Passes ip4 ip6 q n
        → Passes ip4 ip6 p n
    passed a q r n x f b i m l = elim (apart (r.least (num b) m)) [
      | inl y ↦ subst (λ c. is_excluded ip4 ip6 c ≡ true) (num-injective a b r.word i y) x
      | inr y ↦ f b i ((above a q r (num b)).1 (m, y)) l
    ]
      where
        apart : num a ≤ num b → (num a ≡ num b) ⊎ (num a < num b)
        apart h = ground arith

    later :
        (a : Address) (q : Pool) (r : Pulls p (pull p) a q)
        → (not (is_excluded ip4 ip6 a) && dst_set) ≡ false
        → (o : Option Address) (q' : Pool) → Searched dst_set ip4 ip6 q o q'
        → Searched dst_set ip4 ip6 p o q'
    later a q r e none q' (v, n, f) =
        (v, n, λ t. passed a q r (2 ^ 128) (excluded (is_excluded ip4 ip6 a) dst_set e t) (f t))
    later a q r e (some b) q' (v, x, y, z, f, m) =
        let (i, j) = (above a q r (num b)).0 x in
        (
          v,
          i,
          y,
          z,
          passed a q r (num b) (excluded (is_excluded ip4 ip6 a) dst_set e z) f,
          λ k. (
            (λ c. let (d, e) = (m k).0 c in (((above a q r k).0 d).0, e)),
            (λ (d, e). (m k).1 ((above a q r k).1 (d, omega arith), e)),
          ),
        )

-- On a pool in order, the search for the address of a connection always ends. With an address for the
-- endpoint at hand it gives the least address of the pool that is not excluded, and there is no result
-- only if all addresses of the pool are excluded; without one there is no result. It takes every
-- address before the result out of the pool as well, although none of them is given to a connection,
-- and without a result all addresses of the pool.
pub src_loop_lem :
    (dst_set : Bool) (ip4 ip6 p : Pool)
    → IsPool p
    → (o : Option Address) × (q : Pool) × (src_loop fuel dst_set ip4 ip6 p ≡ some (o, q))
      × Searched dst_set ip4 ip6 p o q
src_loop_lem dst_set ip4 ip6 p w =
    src_loop_from fuel 0 dst_set ip4 ip6 p w (λ k h. omega arith) (omega arith) (omega arith)

-- The pool with the address of the connection put back.
abbrev pub Frees : Info → Pool → Pool → Type 0
Frees i p q =
    IsPool q × (q.ip_length ≡ p.ip_length) × ((k : ℕ) → Has q k ↔ ((k ≡ num i.src_addr) ⊎ Has p k))

close_lem :
    (id : String) (s : Server) (i : Info) (p : Pool)
    → s.infos id ≡ some i
    → get_elem? s.ip_pools i.ip_pool ≡ some p
    → IsPool p
    → IsWord i.src_addr
    → p.ip_length ≡ bytes_of i.src_addr
    → (q : Pool) × (close id s ≡ some (with_pool i.ip_pool q s)) × Frees i p q
unfolding close free
close_lem id s i p h e w a l =
    let net : IpNet = record { bytes = bytes_of i.src_addr; range = single i.src_addr } in
    let (q, r, v, t, m) =
      (add_net_lem net p (record { start_word = a; end_word = a; ordered = omega arith }) w).0 l in
    (
      q,
      rw (close, h, free, e, r) refl,
      (
        v,
        t,
        λ k. (
          (λ c. elim ((m k).0 c) [ inl (x, y) ↦ inl (omega arith) | inr x ↦ inr x ]),
          (λ c. (m k).1 elim c [ inl x ↦ inl (omega arith, omega arith) | inr x ↦ inr x ]),
        ),
      ),
    )

get-some_lt : {A : Type 0} (xs : List A) (i : ℕ) (x : A) → get_elem? xs i ≡ some x → i < length xs
get-some_lt [] i x e = absurd cc
get-some_lt (y ∷ ys) zero x e = omega arith
get-some_lt (y ∷ ys) (suc i) x e = omega (arith, get-some_lt ys i x e)

-- `Close` of a connection that has an entry puts its source address back into its pool. Let the pool
-- then become `p'`, in which the address is not free, as when another connection has been given it: a
-- second `Close` of the same connection puts the address into the pool once more.
pub close_again :
    (id : String) (s : Server) (i : Info) (p p' : Pool)
    → s.infos id ≡ some i
    → get_elem? s.ip_pools i.ip_pool ≡ some p
    → IsPool p
    → IsWord i.src_addr
    → p.ip_length ≡ bytes_of i.src_addr
    → IsPool p'
    → p'.ip_length ≡ p.ip_length
    → ¬ Has p' (num i.src_addr)
    → (q q' : Pool) × (close id s ≡ some (with_pool i.ip_pool q s))
      × Frees i p q
      × (close id (with_pool i.ip_pool p' (with_pool i.ip_pool q s))
          ≡ some (with_pool i.ip_pool q' (with_pool i.ip_pool p' (with_pool i.ip_pool q s))))
      × Frees i p' q'
      × Has q' (num i.src_addr)
close_again id s i p p' h e w a l w' l' n =
    let (q, r, f) = close_lem id s i p h e w a l in
    let t = with_pool i.ip_pool q s in
    let inside = get-some_lt s.ip_pools i.ip_pool p e in
    let there =
      get-set t.ip_pools i.ip_pool p' (omega (arith, inside, length-set s.ip_pools i.ip_pool q)) in
    let (q', r', f') = close_lem id (with_pool i.ip_pool p' t) i p' h there w' a (l' ∙ l) in
    (q, q', r, f, r', f', (f'.2 (num i.src_addr)).1 (inl refl))
