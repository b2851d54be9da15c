-- ===== src/PrefixPool/Release/Returned.antt =====
-- pkg/tools/prefixpool/prefixpool.go: what `Release` and `ReleaseExcludedPrefixes` give back.
use nsm_sdk.Prelude.{
  suc, ◌+◌, ◌≤◌, ◌≡◌, ◌∙◌, refl, ap, List, [], ◌∷◌, ◌++◌, none, some, arith, length, String, ≡→same,
}
use nsm_sdk.PrefixPool.{Ip, Prefix, parted, failed, not_parsed}
use nsm_sdk.PrefixPool.Halves.{hits, covers, covers-append, IsNetwork, AllNetworks}
use nsm_sdk.PrefixPool.Pool.{ConnectionRecord, PrefixPool}
use nsm_sdk.PrefixPool.Exclude.Meeting.{IsDisjoint}
use nsm_sdk.PrefixPool.Release.{
  Groups, group_all, merge_loop, release_prefixes, release_excluded_prefixes, forget,
  release_record, release,
}
use nsm_sdk.PrefixPool.Release.Merged.{IsProper}
use nsm_sdk.PrefixPool.Release.Orders.{IsOrder, All, All-Permᴰ, covers-Permᴰ, length-Permᴰ}
use nsm_sdk.PrefixPool.Release.Loop.{AllProper, AllProper-append, merge_loop_lem, group_all_lem}
use nsm_sdk.PrefixPool.Release.Nested.{remove_nested_networks_lem}

AllProper-AllNetworks : (ps : List Prefix) → AllProper ps → AllNetworks ps
AllProper-AllNetworks [] f = tt
AllProper-AllNetworks (p ∷ ps) ((n, w), f) = (n, AllProper-AllNetworks ps f)

abbrev Proper : Prefix → Type 0
Proper p = IsNetwork p × IsProper p

AllProper-All : (ps : List Prefix) → AllProper ps → All Proper ps
AllProper-All [] f = tt
AllProper-All (p ∷ ps) (g, f) = (g, AllProper-All ps f)

All-AllProper : (ps : List Prefix) → All Proper ps → AllProper ps
All-AllProper [] f = tt
All-AllProper (p ∷ ps) (g, f) = (g, All-AllProper ps f)

module _ (order : List Prefix → List Prefix) (order_groups : Groups → Groups) (o : IsOrder order)
    (og : IsOrder order_groups) where
  ordered-AllProper : (ps : List Prefix) → AllProper ps → AllProper (order ps)
  ordered-AllProper ps f =
      All-AllProper (order ps) (All-Permᴰ Proper (order ps) ps (o ps) (AllProper-All ps f))

  -- Networks that do not overlap are released: whatever the order in which Go ranges over its maps,
  -- the passes end, and the prefixes of the result have together, counted with multiplicity, exactly
  -- the addresses of the prefixes of the pool and of those that are released.
  pub release_prefixes_lem :
      (ps rs : List Prefix)
      → AllProper ps
      → AllProper rs
      → IsDisjoint (ps ++ rs)
      → (qs : List Prefix) × (release_prefixes order order_groups ps rs ≡ parted qs)
        × AllProper qs
        × ((a : Ip) → covers qs a ≡ covers ps a + covers rs a)
  unfolding release_prefixes
  release_prefixes_lem ps [] f g d = (ps, refl, f, λ a. omega arith)
  release_prefixes_lem ps (r ∷ rs) f g d =
      let all = ps ++ r ∷ rs in
      let w : AllProper all = AllProper-append ps (r ∷ rs) f g in
      let (x, t, l) = group_all_lem (order all) [] (ordered-AllProper all w) tt in
      let (qs, e, p, t') =
        merge_loop_lem order o order_groups (suc (length all)) (group_all (order all) []) og
          (omega (arith, l, length-Permᴰ (order all) all (o all))) x
          (λ a. omega (arith, t a, d a, covers-Permᴰ (order all) all (o all) a)) in
      (
        qs,
        ap (λ xs. merge_loop order order_groups (suc (length all)) (group_all (order xs) []))
              (remove_nested_networks_lem all (AllProper-AllNetworks all w) d)
            ∙ e,
        p,
        (λ a. omega (
          arith,
          t' a,
          t a,
          covers-Permᴰ (order all) all (o all) a,
          covers-append ps (r ∷ rs) a,
        )),
      )

  -- What has been excluded and does not overlap with the pool is put back, in any order.
  pub release_excluded_prefixes_lem :
      (rs : List Prefix) (s : PrefixPool)
      → AllProper s.prefixes
      → AllProper rs
      → IsDisjoint (s.prefixes ++ rs)
      → (qs : List Prefix) × (release_excluded_prefixes order order_groups rs s
          ≡ (parted tt, record s { prefixes = qs }))
        × ((a : Ip) → covers qs a ≡ covers s.prefixes a + covers rs a)
  unfolding release_excluded_prefixes
  release_excluded_prefixes_lem rs s f g d =
      let (qs, e, w, t) = release_prefixes_lem s.prefixes rs f g d in
      (
        order qs,
        rw (release_excluded_prefixes, e) refl,
        λ a. omega (arith, t a, covers-Permᴰ (order qs) qs (o qs) a),
      )

  -- The connection is forgotten, and the pool has in addition exactly the addresses of its prefixes
  -- and of its network, where these and the prefixes of the pool are networks that do not overlap.
  pub release_lem :
      (id : String) (s : PrefixPool) (c : ConnectionRecord) (n : Prefix)
      → s.connections id ≡ some c
      → c.ip_net ≡ some n
      → AllProper s.prefixes
      → AllProper c.prefixes
      → IsNetwork n × IsProper n
      → ((a : Ip) → covers s.prefixes a + covers c.prefixes a + hits n a ≤ 1)
      → (t : PrefixPool) × (release order order_groups id s ≡ (parted tt, t))
        × (t.connections id ≡ none)
        × ((a : Ip) → covers t.prefixes a ≡ covers s.prefixes a + covers c.prefixes a + hits n a)
  unfolding release release_record
  release_lem id s c n h k f g w d =
      let (qs, e, p, t) =
        release_prefixes_lem s.prefixes c.prefixes f g
          (λ a. omega (arith, d a, covers-append s.prefixes c.prefixes a)) in
      let (rs, e', p', t') =
        release_prefixes_lem qs (n ∷ []) p (w, tt)
          (λ a. omega (arith, d a, t a, covers-append qs (n ∷ []) a)) in
      (
        record (forget id s) { prefixes = rs },
        rw (release, h, release_record, e, k, e') refl,
        rw (≡→same id id refl) refl,
        λ a. omega (arith, t a, t' a),
      )

  -- A connection that has got prefixes only cannot be released, when the prefixes of the pool and its
  -- own are proper networks that do not overlap: `Release` gives an error, and has forgotten the
  -- connection without giving its prefixes back to the pool.
  pub release-lost :
      (id : String) (s : PrefixPool) (c : ConnectionRecord)
      → s.connections id ≡ some c
      → c.ip_net ≡ none
      → AllProper s.prefixes
      → AllProper c.prefixes
      → IsDisjoint (s.prefixes ++ c.prefixes)
      → release order order_groups id s ≡ (failed not_parsed, forget id s)
  unfolding release release_record
  release-lost id s c h k f g d =
      let (qs, e, p, t) = release_prefixes_lem s.prefixes c.prefixes f g d in
      rw (release, h, release_record, e, k) refl
