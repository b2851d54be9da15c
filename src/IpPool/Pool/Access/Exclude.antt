-- ===== src/IpPool/Pool/Access/Exclude.antt =====
-- The exclusion of pools, `PullIP` and `PullP2PAddrs` on valid pools.
use native.Mathlib.Decide.{dec_lt}
use nsm_sdk.Prelude.{
  ℕ, ◌+◌, ◌≤◌, ◌<◌, ◌≡◌, ◌≢◌, ◌∙◌, ◌↔◌, ◌⊎◌, inl, inr, refl, sym, subst, ap, arith, List, [], ◌∷◌,
  ◌++◌, Option, none, some, true, false, Bool-cases,
}
use nsm_sdk.IpPool.Address.{Address, IsWord, num}
use nsm_sdk.IpPool.Range.{Range}
use nsm_sdk.IpPool.Range.Algebra.{Holds}
use nsm_sdk.IpPool.Tree.{Tree, leaf, node, to_list}
use nsm_sdk.IpPool.Chain.{Chain, Chain-split, Member, Member-append, limit}
use nsm_sdk.IpPool.Pool.{Pool, delete_range}
use nsm_sdk.IpPool.Pool.Valid.{ranges, Has, IsPool}
use nsm_sdk.IpPool.Pool.Add.{Offers, iff_trans}
use nsm_sdk.IpPool.Pool.Remove.{delete_range_lem}
use nsm_sdk.IpPool.Pool.Access.{
  ◌>>=◌, Ip, single, clone_tree, clone, contains_address, contains, exclude_node, exclude_pools,
  pull, pull_ip, pull_p2p,
}
use nsm_sdk.IpPool.Pool.Access.Query.{contains_address_lem}
use nsm_sdk.IpPool.Pool.Access.Pull.{Pulls, pull_lem}

-- A copy has the tree that it is taken from.
pub clone_lem : (p : Pool) → clone p ≡ p
unfolding clone
clone_lem p = ap (λ t. record p { root = t }) (copy p.root)
  where
    copy : (t : Tree) → clone_tree t ≡ t
    copy leaf = unfold clone_tree in refl
    copy (node v c l r) =
        unfold clone_tree in
        ap (λ x. node v c x (clone_tree r)) (copy l) ∙ ap (λ x. node v c l x) (copy r)

-- One operation after another.
Offers-bind :
    (p : Pool) (P R : ℕ → Type 0) (o : Option Pool) (k : Pool → Option Pool)
    → Offers p P o
    → ((q : Pool) → IsPool q → ((n : ℕ) → Has q n ↔ P n) → Offers q R (k q))
    → Offers p R (o >>= k)
Offers-bind p P R o k (q, e, v, l, m) h =
    let (q', e', v', l', m') = h q v m in (q', rw e e', v', l' ∙ l, m')

pub Offers-both :
    (p : Pool) (P R : ℕ → Type 0) (o : Option Pool)
    → Offers p P o
    → ((n : ℕ) → P n ↔ R n)
    → Offers p R o
Offers-both p P R o (q, e, v, l, m) h = (q, e, v, l, λ n. iff_trans (m n) (h n))

minus_three :
    {P Q Q' : Type 0} (n : ℕ) (v : Range) (xs ys : List Range)
    → Q ↔ (P × (¬ Member n xs))
    → Q' ↔ (Q × (¬ Holds v n))
    → (Q' × (¬ Member n ys)) ↔ (P × (¬ Member n (xs ++ v ∷ ys)))
minus_three n v xs ys (f, g) (f', g') =
    let (h, k) = Member-append n xs (v ∷ ys) in
    (
      (λ (z, out).
          let (y, a) = f' z in
          let (x, b) = f y in
          (x, λ m. elim (h m) [ inl i ↦ b i | inr i ↦ elim i [ inl j ↦ a j | inr j ↦ out j ] ])),
      λ (x, out). (
        g' (g (x, λ i. out (k (inl i))), λ j. out (k (inr (inl j)))),
        λ i. out (k (inr (inr i))),
      ),
    )

-- `excludeNode` takes the addresses of the tree.
exclude_node_lem :
    (lo hi : ℕ) (t : Tree) (p : Pool)
    → Chain lo (to_list t) hi
    → IsPool p
    → Offers p (λ n. Has p n × (¬ Member n (to_list t))) (exclude_node t p)
unfolding exclude_node to_list
exclude_node_lem lo hi leaf p c w = (p, refl, w, refl, λ n. ((λ m. (m, λ x. x)), λ m. m.0))
exclude_node_lem lo hi (node v c l r) p ch w =
    let (a, _, x, _, b) = Chain-split lo hi (to_list l) v (to_list r) ch in
    let R : ℕ → Type 0 = λ n. Has p n × (¬ Member n (to_list l ++ v ∷ to_list r)) in
    Offers-bind p (λ n. Has p n × (¬ Member n (to_list l))) R (exclude_node l p)
      (λ q. delete_range v q >>= λ q'. exclude_node r q')
      (exclude_node_lem lo (num v.start) l p a w)
      (λ q y m.
        Offers-bind q (λ n. Has q n × (¬ Holds v n)) R (delete_range v q) (exclude_node r)
          (delete_range_lem v q x y)
          (λ q' y' m'.
            Offers-both q' (λ n. Has q' n × (¬ Member n (to_list r))) R (exclude_node r q')
              (exclude_node_lem (num v.end + 2) hi r q' b y')
              (λ n. minus_three n v (to_list l) (to_list r) (m n) (m' n))))

-- The pools to exclude: each is nil or valid.
abbrev pub AllPools : List (Option Pool) → Type 0
AllPools [] = Unit {0}
AllPools (none ∷ es) = AllPools es
AllPools (some e ∷ es) = IsPool e × AllPools es

abbrev pub Excluded : List (Option Pool) → ℕ → Type 0
Excluded [] n = ⊥
Excluded (none ∷ es) n = Excluded es n
Excluded (some e ∷ es) n = Has e n ⊎ Excluded es n

-- The address is offered, and no excluded pool has it.
abbrev pub Free : Pool → List (Option Pool) → ℕ → Type 0
Free p es n = Has p n × (¬ Excluded es n)

exclude_pools_lem :
    (es : List (Option Pool)) (p : Pool)
    → AllPools es
    → IsPool p
    → Offers p (Free p es) (exclude_pools es p)
unfolding exclude_pools
exclude_pools_lem [] p h w = (p, refl, w, refl, λ n. ((λ m. (m, λ x. x)), λ m. m.0))
exclude_pools_lem (none ∷ es) p h w = exclude_pools_lem es p h w
exclude_pools_lem (some e ∷ es) p (x, h) w =
    Offers-bind p (λ n. Has p n × (¬ Has e n)) (Free p (some e ∷ es)) (exclude_node e.root p)
      (exclude_pools es) (exclude_node_lem 0 limit e.root p x.ordered w)
      (λ q v m.
        Offers-both q (Free q es) (Free p (some e ∷ es)) (exclude_pools es q)
          (exclude_pools_lem es q h v)
          (λ n.
            let (f, g) = m n in
            (
              (λ (y, out). let (z, a) = f y in (z, elim [ inl i ↦ a i | inr i ↦ out i ])),
              λ (z, out). (g (z, λ i. out (inl i)), λ i. out (inr i)),
            )))

-- `Clone` and the exclusions, as `PullIP` and `PullP2PAddrs` begin.
excluded_lem :
    (es : List (Option Pool)) (p : Pool)
    → AllPools es
    → IsPool p
    → Offers p (Free p es) (exclude_pools es (clone p))
excluded_lem es p h w = rw (clone_lem p) (exclude_pools_lem es p h w)

single_lem :
    (a : Address)
    → IsWord a
    → (p : Pool) → IsPool p
    → Offers p (λ n. Has p n × (n ≢ num a)) (delete_range (single a) p)
single_lem a w p v =
    Offers-both p (λ n. Has p n × (¬ Holds (single a) n)) (λ n. Has p n × (n ≢ num a))
      (delete_range (single a) p)
      (delete_range_lem (single a) p
        (record { start_word = w; end_word = w; ordered = omega arith }) v)
      (λ n.
        ((λ (m, d). (m, λ e. d (omega arith, omega arith))), λ (m, d). (m, λ e. d (omega arith))))

true≢false : ¬ (true ≡ false)
true≢false = λ e. cc

-- `PullIP` on valid pools gives an address exactly when the pool offers it and no excluded pool has
-- it. The pool then keeps all its other addresses, and it is as it was when the address is refused.
pub pull_ip_lem :
    (ip : Ip) (es : List (Option Pool)) (p : Pool)
    → IsWord ip.value
    → AllPools es
    → IsPool p
    → (Free p es (num ip.value)
        × ((q : Pool) × (pull_ip (some ip) es p ≡ some (some ip, q))
            × IsPool q
            × ((n : ℕ) → Has q n ↔ (Has p n × (n ≢ num ip.value)))))
      ⊎ ((¬ Free p es (num ip.value)) × (pull_ip (some ip) es p ≡ some (none, p)))
unfolding pull_ip contains
pull_ip_lem ip es p w h v =
    let (q, e, x, _, m) = excluded_lem es p h v in
    let (f, g) = contains_address_lem ip.value q w x in
    elim (Bool-cases (contains_address ip.value q)) [
      | inl t ↦
          let (q', e', y, _, m') = single_lem ip.value w p v in
          inl ((m (num ip.value)).0 (f t), (q', rw (e, t, e') refl, y, m'))
      | inr t ↦
          inr ((λ k. let z = g ((m (num ip.value)).1 k) in true≢false (sym z ∙ t)), rw (e, t) refl)
    ]

-- What `PullP2PAddrs` gives: the two least free addresses, taken from the pool.
pub record Pair (p : Pool) (es : List (Option Pool)) (a b : Address) (q : Pool) : Type 0 where
  pub runs : pull_p2p es p ≡ some (some (a, b), q)
  pub valid : IsPool q
  pub same_length : q.ip_length ≡ p.ip_length
  pub source_word : IsWord a
  pub destination_word : IsWord b
  pub source : Free p es (num a)
  pub destination : Free p es (num b)
  pub apart : num a < num b
  pub least : (n : ℕ) → Free p es n → (n ≡ num a) ⊎ (num b ≤ n)
  pub members : (n : ℕ) → Has q n ↔ (Has p n × (n ≢ num a) × (n ≢ num b))

-- Two pulls in a row, of a pool that offers the free addresses.
module _ (p : Pool) (es : List (Option Pool)) (v : IsPool p) (q : Pool)
    (e : exclude_pools es (clone p) ≡ some q) (m : (n : ℕ) → Has q n ↔ Free p es n) where
  two_pulls :
      (a : Address) (q' : Pool) (b : Address) (q'' : Pool)
      → Pulls q (pull q) a q'
      → Pulls q' (pull q') b q''
      → (r : Pool) × Pair p es a b r
  unfolding pull_p2p
  two_pulls a q' b q'' k j =
      let (r, f, y, l, n) = single_lem a k.word p v in
      let (r', f', y', l', n') = single_lem b j.word r y in
      let (z, d) = (k.members (num b)).0 j.offered in
      (
        r',
        record {
          runs = rw (e, k.runs, j.runs, f, f') refl;
          valid = y';
          same_length = l' ∙ l;
          source_word = k.word;
          destination_word = j.word;
          source = (m (num a)).0 k.offered;
          destination = (m (num b)).0 z;
          apart = omega (arith, k.least (num b) z, d);
          least = λ i free.
              let held = (m i).1 free in
              elim (dec_lt (num a) i) [
                | yes o ↦ inr (j.least i ((k.members i).1 (held, λ x. omega arith)))
                | no o ↦ inl (omega (arith, k.least i held))
              ];
          members = λ i. (
            (λ x. let (s, t) = (n' i).0 x in let (s', t') = (n i).0 s in (s', t', t)),
            λ (x, s, t). (n' i).1 ((n i).1 (x, s), t),
          );
        },
      )

  one_pull :
      (a : Address) (q' : Pool)
      → Pulls q (pull q) a q'
      → ranges q' ≡ []
      → pull q' ≡ some (none, q')
      → (pull_p2p es p ≡ some (none, p)) × ((i n : ℕ) → Free p es i → Free p es n → i ≡ n)
  unfolding pull_p2p
  one_pull a q' k f j = (rw (e, k.runs, j) refl, λ i n x y. same i x ∙ sym (same n y))
    where
      same : (i : ℕ) → Free p es i → i ≡ num a
      same i x =
          let held = (m i).1 x in
          elim (dec_lt (num a) i) [
            | yes o ↦ absurd (subst (Member i) f ((k.members i).1 (held, λ z. omega arith)))
            | no o ↦ omega (arith, k.least i held)
          ]

  no_pull :
      ranges q ≡ []
      → pull q ≡ some (none, q)
      → (pull_p2p es p ≡ some (none, p)) × ((i n : ℕ) → Free p es i → Free p es n → i ≡ n)
  unfolding pull_p2p
  no_pull f j = (rw (e, j) refl, λ i n x y. absurd (subst (Member i) f ((m i).1 x)))

-- `PullP2PAddrs` on valid pools gives the two least free addresses and takes just these from the
-- pool, or there is no second free address and the pool is as it was.
pub pull_p2p_lem :
    (es : List (Option Pool)) (p : Pool)
    → AllPools es
    → IsPool p
    → ((a : Address) × (b : Address) × (q : Pool) × Pair p es a b q)
      ⊎ ((pull_p2p es p ≡ some (none, p)) × ((m n : ℕ) → Free p es m → Free p es n → m ≡ n))
pull_p2p_lem es p h v =
    let (q, e, x, _, m) = excluded_lem es p h v in
    elim (pull_lem q x) [
      | inl (f, j) ↦ inr (no_pull p es v q e m f j)
      | inr (a, q', k) ↦ elim (pull_lem q' k.valid) [
        | inl (f, j) ↦ inr (one_pull p es v q e m a q' k f j)
        | inr (b, q'', j) ↦ let (r, z) = two_pulls p es v q e m a q' b q'' k j in inl (a, b, r, z)
      ]
    ]
