-- ===== src/PrefixPool/Exclude/Whole.antt =====
-- pkg/tools/prefixpool/prefixpool.go: what `ExcludePrefixes` leaves and what it removes.
use nsm_sdk.Prelude.{
  ◌+◌, ◌≤◌, ◌≡◌, ◌∙◌, refl, sym, inl, inr, ◌⊎◌, List, [], ◌∷◌, false, arith, length,
}
use nsm_sdk.PrefixPool.{Ip, Prefix, pool_empty, parted, failed, contains}
use nsm_sdk.PrefixPool.Halves.{covers, AllNetworks}
use nsm_sdk.PrefixPool.Room.{AllFit}
use nsm_sdk.PrefixPool.Pool.{PrefixPool}
use nsm_sdk.PrefixPool.Exclude.{Excluded, exclude_all, exclude_prefixes}
use nsm_sdk.PrefixPool.Exclude.Meeting.{IsDisjoint}
use nsm_sdk.PrefixPool.Exclude.Removed.{Drops, exclude_one_lem}

-- The address is in none of the prefixes.
abbrev pub Outside : List Prefix → Ip → Type 0
Outside [] a = Unit {0}
Outside (x ∷ xs) a = (contains x a ≡ false) × Outside xs a

-- The excluded prefixes do what `Drops` says one after the other.
abbrev pub DropsAll : List Prefix → Excluded → Excluded → Type 0
DropsAll [] y z = y ≡ z
DropsAll (x ∷ xs) y z = (w : Excluded) × Drops x y w × DropsAll xs w z

exclude_all_lem :
    (xs ps removed : List Prefix)
    → AllFit xs
    → AllNetworks ps
    → IsDisjoint ps
    → (y : Excluded) × (exclude_all xs (ps, removed) ≡ parted y)
      × AllNetworks y.0
      × IsDisjoint y.0
      × ((a : Ip) → covers y.0 a + covers y.1 a ≡ covers ps a + covers removed a)
      × ((a : Ip) → Outside xs a → covers y.0 a ≡ covers ps a)
      × DropsAll xs (ps, removed) y
unfolding exclude_all
exclude_all_lem [] ps removed f n d = ((ps, removed), refl, n, d, (λ a. refl), (λ a h. refl), refl)
exclude_all_lem (x ∷ xs) ps removed (f, fs) n d =
    let ((ps', removed'), r, e) = exclude_one_lem x ps removed f n d in
    let (n', o, lo, m, w) = e in
    let (y, r', n'', d', m', o', t) =
      exclude_all_lem xs ps' removed' fs n' (λ a. omega (arith, lo a, d a)) in
    (
      y,
      rw (exclude_all, r) r',
      n'',
      d',
      (λ a. m' a ∙ m a),
      (λ a (h, hs). o' a hs ∙ o a h),
      ((ps', removed'), e, t),
    )

-- What `ExcludePrefixes` has made of a pool.
pub record Excludes (xs : List Prefix) (s : PrefixPool) (removed : List Prefix) (t : PrefixPool)
    : Type 0 where
  pub networks : AllNetworks t.prefixes
  pub disjoint : IsDisjoint t.prefixes
  pub some_left : 1 ≤ length t.prefixes
  pub conserves : (a : Ip) → covers t.prefixes a + covers removed a ≡ covers s.prefixes a
  pub keeps : (a : Ip) → Outside xs a → covers t.prefixes a ≡ covers s.prefixes a
  pub drops : DropsAll xs (s.prefixes, []) (t.prefixes, removed)

-- Of a pool of networks that do not overlap, `ExcludePrefixes` makes another one. The addresses that
-- no excluded prefix has are all left; what goes is, with multiplicity, what it returns as removed;
-- and prefix by prefix, it takes away what `Drops` says: all addresses of the excluded prefix, or one
-- smaller prefix that lies in it. If that would leave no prefix, which is so only when the excluded
-- prefixes have all addresses of the pool, it gives an error and leaves the pool as it is. It fails in
-- no other way. The masks of the excluded prefixes have to fit.
pub exclude_prefixes_lem :
    (xs : List Prefix) (s : PrefixPool)
    → AllFit xs
    → AllNetworks s.prefixes
    → IsDisjoint s.prefixes
    → ((removed : List Prefix) × (t : PrefixPool) × (exclude_prefixes xs s ≡ (parted removed, t))
        × Excludes xs s removed t)
      ⊎ ((exclude_prefixes xs s ≡ (failed pool_empty, s))
          × ((removed : List Prefix) × DropsAll xs (s.prefixes, []) ([], removed))
          × ((a : Ip) → Outside xs a → covers s.prefixes a ≡ 0))
unfolding exclude_prefixes
exclude_prefixes_lem xs s f n d =
    let (y, r, n', d', m, o, t) = exclude_all_lem xs s.prefixes [] f n d in go y r n' d' m o t
  where
    go :
        (y : Excluded)
        → exclude_all xs (s.prefixes, []) ≡ parted y
        → AllNetworks y.0
        → IsDisjoint y.0
        → ((a : Ip) → covers y.0 a + covers y.1 a ≡ covers s.prefixes a + 0)
        → ((a : Ip) → Outside xs a → covers y.0 a ≡ covers s.prefixes a)
        → DropsAll xs (s.prefixes, []) y
        → ((removed : List Prefix) × (t : PrefixPool) × (exclude_prefixes xs s
              ≡ (parted removed, t))
            × Excludes xs s removed t)
          ⊎ ((exclude_prefixes xs s ≡ (failed pool_empty, s))
              × ((removed : List Prefix) × DropsAll xs (s.prefixes, []) ([], removed))
              × ((a : Ip) → Outside xs a → covers s.prefixes a ≡ 0))
    go ([], removed) r n d m o t =
        inr (rw (exclude_prefixes, r) refl, (removed, t), λ a h. sym (o a h))
    go (p ∷ ps, removed) r n d m o t = inl (
      removed,
      record s { prefixes = p ∷ ps },
      rw (exclude_prefixes, r) refl,
      record {
        networks = n;
        disjoint = d;
        some_left = omega arith;
        conserves = λ a. omega (arith, m a);
        keeps = o;
        drops = t;
      },
    )
