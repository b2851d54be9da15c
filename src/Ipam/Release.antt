-- ===== src/Ipam/Release.antt =====
-- What `free` and `Close` do to the pools.
use nsm_sdk.Prelude.{
  ℕ, ◌≡◌, ◌∙◌, ◌↔◌, ◌⊎◌, inl, inr, refl, sym, arith, List, none, some, ==_iff, get_elem?, set,
  String, ≡→same,
}
use nsm_sdk.IpPool.Address.{Address, IsWord, num}
use nsm_sdk.IpPool.Range.Algebra.{Holds}
use nsm_sdk.IpPool.Pool.{Pool, add_range}
use nsm_sdk.IpPool.Pool.Valid.{Has, IsPool}
use nsm_sdk.IpPool.Pool.Add.{Offers, add_range_lem}
use nsm_sdk.IpPool.Pool.Access.{single, add_net}
use nsm_sdk.IpPool.Pool.Access.Exclude.{Offers-both}
use nsm_sdk.Ipam.{bytes_of, Info, Server, free_in, free, forget, close}

add_single :
    (a : Address) (p : Pool)
    → IsWord a
    → bytes_of a ≡ p.ip_length
    → IsPool p
    → Offers p
        (λ n. (n ≡ num a) ⊎ Has p n)
        (add_net (some (record { bytes = bytes_of a; range = single a })) p)
unfolding add_net
add_single a p w e v = rw ((==_iff p.ip_length (bytes_of a)).1 (sym e)) (
    Offers-both p (λ n. Holds (single a) n ⊎ Has p n) (λ n. (n ≡ num a) ⊎ Has p n)
      (add_range (single a) p)
      (add_range_lem (single a) p (record { start_word = w; end_word = w; ordered = omega arith })
        v)
      (λ n. (
        elim [ inl h ↦ inl (omega arith) | inr m ↦ inr m ],
        elim [ inl h ↦ inl (omega arith, omega arith) | inr m ↦ inr m ],
      )))

-- The addresses of an info are words, and of the family of the pool.
pub record Fits (i : Info) (p : Pool) : Type 0 where
  pub src_word : IsWord i.src_addr
  pub dst_word : IsWord i.dst_addr
  pub src_bytes : bytes_of i.src_addr ≡ p.ip_length
  pub dst_bytes : bytes_of i.dst_addr ≡ p.ip_length

pub free_in_lem :
    (i : Info) (p : Pool)
    → Fits i p
    → IsPool p
    → Offers p (λ n. (n ≡ num i.src_addr) ⊎ (n ≡ num i.dst_addr) ⊎ Has p n) (free_in i p)
unfolding free_in
free_in_lem i p f v =
    let (q, e, w, l, m) = add_single i.src_addr p f.src_word f.src_bytes v in
    let (q', e', w', l', m') = add_single i.dst_addr q f.dst_word (f.dst_bytes ∙ sym l) w in
    (
      q',
      rw (e, free_in, e') refl,
      w',
      l' ∙ l,
      λ n.
          let (g, h) = m n in
          let (g', h') = m' n in
          (
            (λ x. elim (g' x) [
              | inl d ↦ inr (inl d)
              | inr y ↦ elim (g y) [ inl d ↦ inl d | inr z ↦ inr (inr z) ]
            ]),
            elim [
              | inl d ↦ h' (inr (h (inl d)))
              | inr x ↦ elim x [ inl d ↦ h' (inl d) | inr z ↦ h' (inr (h (inr z))) ]
            ],
          ),
    )

pub free_lem :
    (i : Info) (ps : List Pool) (p : Pool)
    → get_elem? ps i.ip_pool ≡ some p
    → Fits i p
    → IsPool p
    → (q : Pool) × (free i ps ≡ some (set ps i.ip_pool q))
      × IsPool q
      × ((n : ℕ) → Has q n ↔ ((n ≡ num i.src_addr) ⊎ (n ≡ num i.dst_addr) ⊎ Has p n))
unfolding free
free_lem i ps p e f v = let (q, k, w, _, m) = free_in_lem i p f v in (q, rw (e, free, k) refl, w, m)

-- `Close` gives the addresses of the connection back to its pool, which stays valid, and a second
-- `Close` of it changes nothing.
pub close_lem :
    (id : String) (s : Server) (i : Info) (p : Pool)
    → s.infos id ≡ some i
    → get_elem? s.ip_pools i.ip_pool ≡ some p
    → Fits i p
    → IsPool p
    → (q : Pool) × (t : Server) × (close id s ≡ some t)
      × (t.ip_pools ≡ set s.ip_pools i.ip_pool q)
      × (t.infos id ≡ none)
      × IsPool q
      × ((n : ℕ) → Has q n ↔ ((n ≡ num i.src_addr) ⊎ (n ≡ num i.dst_addr) ⊎ Has p n))
      × (close id t ≡ some t)
unfolding close
close_lem id s i p e k f v =
    let (q, r, w, m) = free_lem i s.ip_pools p k f v in
    (
      q,
      record { ip_pools = set s.ip_pools i.ip_pool q; infos = forget id s.infos },
      rw (e, close, r) refl,
      refl,
      rw (≡→same id id refl) refl,
      w,
      m,
      rw (≡→same id id refl, close) refl,
    )
