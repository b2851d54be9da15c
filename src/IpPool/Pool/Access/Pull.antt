-- ===== src/IpPool/Pool/Access/Pull.antt =====
-- `Pull` on a valid pool.
use mathlib.Core.List.{append_assoc, append-nil}
use nsm_sdk.Prelude.{
  ℕ, ◌+◌, ◌%◌, ◌^◌, ◌≤◌, ◌<◌, ◌≡◌, ◌≢◌, ◌∙◌, ◌↔◌, ◌⊎◌, inl, inr, refl, sym, subst, ap, arith, List,
  [], ◌∷◌, ◌++◌, Option, none, some, true, false, length, Bool-cases,
}
use nsm_sdk.IpPool.Address.{Address, IsWord, num, equal, next, num-next, next-IsWord}
use nsm_sdk.IpPool.Range.{Range, IsRange}
use nsm_sdk.IpPool.Tree.{Color, Tree, leaf, node, left_of, Spine, node_color, plug, to_list}
use nsm_sdk.IpPool.Tree.Shape.{
  IsBalanced, Fits, left-Fits, plug-IsRedBlack, before, behind, to_list-plug,
}
use nsm_sdk.IpPool.Tree.Delete.Balance.{IsBalanced-value}
use nsm_sdk.IpPool.Chain.{Chain, Member, Member-bounds, limit}
use nsm_sdk.IpPool.Pool.{Pool, shrink}
use nsm_sdk.IpPool.Pool.Valid.{ranges, Has, IsPool, remove_node-Removed}
use nsm_sdk.IpPool.Pool.Access.{leftmost, pull_node, pull}

-- The first node of a tree, with its frames: nothing stands before it.
pub record First (rs : List Range) (t : Tree) (up : Spine) : Type 0 where
  pub value : Range
  pub color : Color
  pub rest : Tree
  pub above : Spine
  pub height : ℕ
  pub found : leftmost t up ≡ (node value color leaf rest, above)
  pub balanced : IsBalanced height (node value color leaf rest)
  pub fits : Fits height color above
  pub nothing_before : before above ≡ []
  pub content : value ∷ to_list rest ++ behind above ≡ rs

leftmost_lem :
    (rs : List Range) (n : ℕ) (v : Range) (c : Color) (l r : Tree) (up : Spine)
    → IsBalanced n (node v c l r)
    → Fits n c up
    → before up ≡ []
    → to_list (node v c l r) ++ behind up ≡ rs
    → First rs (node v c l r) up
unfolding leftmost to_list before behind node_color
leftmost_lem rs n v c leaf r up b h e k = record {
  value = v;
  color = c;
  rest = r;
  above = up;
  height = n;
  found = refl;
  balanced = b;
  fits = h;
  nothing_before = e;
  content = k;
}
leftmost_lem rs n v c (node w d x y) r up b h e k =
    let (m, b', h') = left-Fits n v c (node w d x y) r up b h in
    let f =
      leftmost_lem rs m w d x y (left_of v c r ∷ up) b' h' e
        (sym (append_assoc (to_list (node w d x y)) (v ∷ to_list r) (behind up)) ∙ k) in
    record {
      value = f.value;
      color = f.color;
      rest = f.rest;
      above = f.above;
      height = f.height;
      found = f.found;
      balanced = f.balanced;
      fits = f.fits;
      nothing_before = f.nothing_before;
      content = f.content;
    }

-- The call gives the least address that the pool offers, and takes just that one.
pub record Pulls (p : Pool) (o : Option (Option Address × Pool)) (a : Address) (q : Pool)
    : Type 0 where
  pub runs : o ≡ some (some a, q)
  pub valid : IsPool q
  pub same_length : q.ip_length ≡ p.ip_length
  pub word : IsWord a
  pub offered : Has p (num a)
  pub least : (n : ℕ) → Has p n → num a ≤ n
  pub members : (n : ℕ) → Has q n ↔ (Has p n × (n ≢ num a))

-- The first range with its first address cut off.
cut_first :
    (v : Range) (a : Address) (us : List Range) (n : ℕ)
    → num a ≡ num v.start + 1
    → num v.start < num v.end
    → Chain (num v.end + 2) us limit
    → Member n (record v { start = a } ∷ us) ↔ (Member n (v ∷ us) × (n ≢ num v.start))
cut_first v a us n e h c = (
  elim [
    | inl (x, y) ↦ (inl (omega arith, y), λ k. omega arith)
    | inr m ↦ (inr m, λ k. omega (arith, Member-bounds n (num v.end + 2) limit us c m))
  ],
  λ (m, k). elim m [ inl (x, y) ↦ inl (omega arith, y) | inr x ↦ inr x ],
)

equal-num :
    (a b : Address)
    → IsWord a
    → IsWord b
    → ((equal a b ≡ true) → num a ≡ num b) × ((equal a b ≡ false) → num a ≢ num b)
unfolding equal
equal-num a b v w = ground arith

empty_tree : (t : Tree) → to_list t ≡ [] → t ≡ leaf
unfolding to_list
empty_tree leaf e = refl
empty_tree (node v c l r) e = absurd (nonempty (to_list l) v (to_list r) e)
  where
    nonempty : (xs : List Range) (y : Range) (ys : List Range) → xs ++ y ∷ ys ≡ [] → ⊥
    nonempty [] y ys h = cc
    nonempty (x ∷ xs) y ys h = cc

module _ (p : Pool) (w : IsPool p) (f : First (ranges p) p.root []) where
  first-Chain :
      (0 ≤ num f.value.start)
      × IsRange f.value
      × (num f.value.end + 2 ≤ limit)
      × Chain (num f.value.end + 2) (to_list f.rest ++ behind f.above) limit
  first-Chain = subst (λ zs. Chain 0 zs limit) (sym f.content) w.ordered

  first_least : (n : ℕ) → Has p n → num f.value.start ≤ n
  first_least n m =
      let (_, x, _, c) = first-Chain in
      let o = x.ordered in
      elim (subst (Member n) (sym f.content) m) [
        | inl h ↦ omega arith
        | inr k ↦ omega (arith, Member-bounds n (num f.value.end + 2) limit _ c k)
      ]

  first_offered : Has p (num f.value.start)
  first_offered =
      let o = first-Chain.1.ordered in
      subst (Member (num f.value.start)) f.content (inl (omega arith))

  pull_last :
      equal f.value.start f.value.end ≡ true → (a : Address) × (q : Pool) × Pulls p (pull p) a q
  unfolding pull pull_node shrink to_list
  pull_last e =
      let v = f.value in
      let (_, x, _, c) = first-Chain in
      let same : num v.start ≡ num v.end = (equal-num v.start v.end x.start_word x.end_word).0 e in
      let (u, k) =
        remove_node-Removed p f.height v f.color leaf f.rest f.above w f.balanced f.fits
          (ap (λ zs. zs ++ (v ∷ to_list f.rest ++ behind f.above)) f.nothing_before ∙ f.content) in
      (
        v.start,
        shrink p u,
        record {
          runs = rw (f.found, e, k.runs) refl;
          valid = k.valid;
          same_length = refl;
          word = x.start_word;
          offered = first_offered;
          least = first_least;
          members = λ n.
              let (g, h) = k.members n in
              (
                (λ z. (h (inr z), λ d. k.apart n z (omega arith, omega arith))),
                λ (z, d). elim (g z) [ inl y ↦ absurd (d (omega arith)) | inr y ↦ y ],
              );
        },
      )

  pull_cut :
      equal f.value.start f.value.end ≡ false → (a : Address) × (q : Pool) × Pulls p (pull p) a q
  unfolding pull pull_node to_list node_color
  pull_cut e =
      let v = f.value in
      let (_, x, b, c) = first-Chain in
      let o = x.ordered in
      let less : num v.start < num v.end =
        omega (arith, (equal-num v.start v.end x.start_word x.end_word).1 e) in
      let a = next v.start in
      let num_a : num a ≡ num v.start + 1 =
        num-next v.start x.start_word (omega (arith, x.end_word)) in
      let rest = node (record v { start = a }) f.color leaf f.rest in
      let t =
        plug-IsRedBlack f.height f.color f.above rest f.fits
          (IsBalanced-value f.height v (record v { start = a }) f.color leaf f.rest f.balanced)
          refl in
      let content : to_list (plug f.above rest)
          ≡ record v { start = a } ∷ to_list f.rest ++ behind f.above =
        to_list-plug f.above rest
        ∙ ap (λ zs. zs ++ (record v { start = a } ∷ to_list f.rest ++ behind f.above))
            f.nothing_before in
      (
        v.start,
        record p { root = plug f.above rest },
        record {
          runs = rw (f.found, e) refl;
          valid = record {
            red_black = t;
            ordered =
                subst (λ zs. Chain 0 zs limit) (sym content)
                  (
                    omega arith,
                    record {
                      start_word = next-IsWord x.start_word;
                      end_word = x.end_word;
                      ordered = omega arith;
                    },
                    b,
                    c,
                  );
            counted =
                w.counted
                ∙ ap (λ zs. length zs % 2 ^ 64) (sym f.content)
                ∙ ap (λ zs. length zs % 2 ^ 64) (sym content);
          };
          same_length = refl;
          word = x.start_word;
          offered = first_offered;
          least = first_least;
          members = λ n.
              subst (λ zs. Member n zs ↔ (Member n (ranges p) × (n ≢ num v.start))) (sym content)
                (subst
                  (λ zs.
                    Member n (record v { start = a } ∷ to_list f.rest ++ behind f.above)
                    ↔ (Member n zs × (n ≢ num v.start)))
                  f.content (cut_first v a (to_list f.rest ++ behind f.above) n num_a less c));
        },
      )

root-First : (p : Pool) → IsPool p → (ranges p ≡ []) ⊎ First (ranges p) p.root []
unfolding to_list before behind node_color
root-First p w = cases p.root refl
  where
    cases : (t : Tree) → p.root ≡ t → (ranges p ≡ []) ⊎ First (ranges p) p.root []
    cases leaf e = inl (ap to_list e)
    cases (node v c l r) e =
        let b = w.red_black in
        inr (
          subst (λ t. First (ranges p) t []) (sym e)
            (leftmost_lem (ranges p) b.height v c l r [] (subst (IsBalanced b.height) e b.balanced)
              (subst (λ d. Fits b.height d []) (sym b.root_black ∙ ap node_color e) tt) refl
              (append-nil (to_list (node v c l r)) ∙ ap to_list (sym e))))

-- `Pull` on a valid pool: an empty one reports that, and any other gives its least address and
-- keeps the rest, again as a valid pool.
pub pull_lem :
    (p : Pool)
    → IsPool p
    → ((ranges p ≡ []) × (pull p ≡ some (none, p)))
      ⊎ ((a : Address) × (q : Pool) × Pulls p (pull p) a q)
unfolding pull pull_node leftmost
pull_lem p w = elim (root-First p w) [
  | inl e ↦ inl (e, rw (empty_tree p.root e) refl)
  | inr f ↦ inr (elim (Bool-cases (equal f.value.start f.value.end)) [
    | inl x ↦ pull_last p w f x
    | inr x ↦ pull_cut p w f x
  ])
]
