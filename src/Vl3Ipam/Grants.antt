-- ===== src/Vl3Ipam/Grants.antt =====
-- What a grant takes from the pool, and what comes back.
use nsm_sdk.Prelude.{
  ℕ, ◌≤◌, ◌≡◌, ◌∙◌, ◌↔◌, ◌⊎◌, inl, inr, refl, sym, subst, List, [], ◌∷◌, Option, none, some, true,
  false, Bool-cases,
}
use nsm_sdk.IpPool.Address.{Address, num}
use nsm_sdk.IpPool.Range.{IsRange}
use nsm_sdk.IpPool.Range.Algebra.{Holds}
use nsm_sdk.IpPool.Chain.{Member}
use nsm_sdk.IpPool.Pool.{Pool}
use nsm_sdk.IpPool.Pool.Valid.{Has, IsPool}
use nsm_sdk.IpPool.Pool.Add.{Offers, iff_trans}
use nsm_sdk.IpPool.Pool.Access.{IpNet, exclude, contains_net}
use nsm_sdk.IpPool.Pool.Access.Pull.{pull_lem}
use nsm_sdk.IpPool.Pool.Access.Exclude.{clone_lem}
use nsm_sdk.IpPool.Pool.Access.Nets.{add_net_lem}
use nsm_sdk.Vl3Ipam.{Prefix, written, net_of, exclude_all, grant, allocate, delete}

-- A grant of the prefix: the pool loses the addresses of its network. When the client gives it
-- back, the pool offers all addresses of the network, and the others as before.
pub record Grants (p : Pool) (o : Option (Option Prefix × Pool)) (x : Prefix) (net : IpNet)
    : Type 0 where
  pub after : Pool
  pub back : Pool
  pub runs : o ≡ some (some x, after)
  pub valid : IsPool after
  pub taken : (n : ℕ) → Has after n ↔ (Has p n × (¬ Holds net.range n))
  pub returns : delete x after ≡ some back
  pub returned : (n : ℕ) → Has back n ↔ (Holds net.range n ⊎ (Has p n × (¬ Holds net.range n)))

-- A prefix that is granted comes out of the pool, which loses exactly the addresses of its network;
-- given back, it brings all of them into the pool again. The network has the length of the pool.
pub grant_lem :
    (x : Prefix) (net : IpNet) (p : Pool)
    → net_of x ≡ some net
    → IsRange net.range
    → p.ip_length ≡ net.bytes
    → IsPool p
    → Grants p (grant x p) x net
unfolding grant delete
grant_lem x net p e w l v =
    let (q, r, u, k, m) = (add_net_lem net p w v).2 in
    let (q', r', u', k', m') = (add_net_lem net q w u).0 (k ∙ l) in
    record {
      after = q;
      back = q';
      runs = rw (e, r) refl;
      valid = u;
      taken = m;
      returns = rw (e, r') refl;
      returned = λ n.
          let (f, g) = m n in
          iff_trans (m' n) (
            elim [ inl h ↦ inl h | inr y ↦ inr (f y) ],
            elim [ inl h ↦ inl h | inr y ↦ inr (g y) ],
          );
    }

-- The address is one of a network to exclude.
abbrev pub Barred : List (Option IpNet) → ℕ → Type 0
Barred [] n = ⊥
Barred (none ∷ ns) n = Barred ns n
Barred (some net ∷ ns) n = Holds net.range n ⊎ Barred ns n

abbrev pub Nets : List (Option IpNet) → Type 0
Nets [] = Unit {0}
Nets (none ∷ ns) = Nets ns
Nets (some net ∷ ns) = IsRange net.range × Nets ns

exclude_all_lem :
    (ns : List (Option IpNet)) (p : Pool)
    → Nets ns
    → IsPool p
    → Offers p (λ n. Has p n × (¬ Barred ns n)) (exclude_all ns p)
unfolding exclude_all exclude
exclude_all_lem [] p h v = (p, refl, v, refl, λ n. ((λ m. (m, λ x. x)), λ m. m.0))
exclude_all_lem (none ∷ ns) p h v = exclude_all_lem ns p h v
exclude_all_lem (some net ∷ ns) p (w, h) v =
    let (q, e, u, l, m) = (add_net_lem net p w v).2 in
    let (q', e', u', l', m') = exclude_all_lem ns q h u in
    (
      q',
      rw (e, exclude_all) e',
      u',
      l' ∙ l,
      λ n.
          let (f, g) = m n in
          let (f', g') = m' n in
          (
            (λ x. let (y, a) = f' x in let (z, b) = f y in (z, elim [ inl i ↦ b i | inr i ↦ a i ])),
            λ (z, out). g' (g (z, λ i. out (inl i)), λ i. out (inr i)),
          ),
    )

-- `allocate` grants the wanted prefix if the pool contains it, whatever is to be excluded. Else it
-- grants the prefix around the least address that the pool offers and no network excludes, and
-- fails only if there is no such address; the pool is then as it was.
pub allocate_lem :
    (size : ℕ) (wanted : Prefix) (ns : List (Option IpNet)) (p : Pool)
    → Nets ns
    → IsPool p
    → ((contains_net (net_of wanted) p ≡ true) × (allocate size wanted ns p ≡ grant wanted p))
      ⊎ ((contains_net (net_of wanted) p ≡ false)
          × ((n : ℕ) → Has p n → ¬ (¬ Barred ns n))
          × (allocate size wanted ns p ≡ some (none, p)))
      ⊎ ((contains_net (net_of wanted) p ≡ false)
          × ((a : Address) × Has p (num a)
              × (¬ Barred ns (num a))
              × ((n : ℕ) → Has p n → ¬ Barred ns n → num a ≤ n)
              × (allocate size wanted ns p ≡ grant (written a size p.ip_length) p)))
unfolding allocate
allocate_lem size wanted ns p h v =
    let (q, e, u, _, m) =
      subst (λ o. Offers p (λ n. Has p n × (¬ Barred ns n)) (exclude_all ns o)) (sym (clone_lem p))
        (exclude_all_lem ns p h v) in
    elim (Bool-cases (contains_net (net_of wanted) p)) [
      | inl c ↦ inl (c, rw (e, c) refl)
      | inr c ↦ elim (pull_lem q u) [
        | inl (f, j) ↦
            inr (inl (c, (λ n x y. subst (Member n) f ((m n).1 (x, y))), rw (e, c, j) refl))
        | inr (a, q', k) ↦
            let (x, y) = (m (num a)).0 k.offered in
            inr (inr (c, (a, x, y, (λ n z o. k.least n ((m n).1 (z, o))), rw (e, c, k.runs) refl)))
      ]
    ]
