-- ===== src/Begin/Merge/Entries.antt =====
-- pkg/networkservice/common/begin/merge.go: what the merged map holds under each key, and the merge of
-- connections that have not been changed.
use nsm_sdk.Prelude.{
  ◌≡◌, ◌≢◌, ◌∙◌, refl, sym, ap, subst, inl, inr, [], ◌∷◌, Option, none, some, Bool, true,
  if◌then◌else◌, String, same, same→≡, ≡→same, same_or_not, same_not, Bool-cases, Option-cases,
}
use nsm_sdk.Begin.{Connection}
use nsm_sdk.Begin.Merge.{
  Entries, entry, put_entry, delete_entry, merge_entry, merge_map, ConnectionContext,
  merge_connection_context, merge_connection,
}

-- No key stands twice.
abbrev pub IsMap : Entries → Type 0
IsMap [] = Unit {0}
IsMap ((j, v) ∷ xs) = (entry xs j ≡ none) × IsMap xs

entry-put : (k w : String) (xs : Entries) → entry (put_entry k w xs) k ≡ some w
entry-put k w [] = rw (≡→same k k refl) refl
entry-put k w ((j, v) ∷ xs) = elim (Bool-cases (same j k)) [
  | inl e ↦ rw (e, e) refl
  | inr e ↦ rw (e, e) (entry-put k w xs)
]

entry-put_other : (k w i : String) (xs : Entries) → k ≢ i → entry (put_entry k w xs) i ≡ entry xs i
entry-put_other k w i [] n = rw (same_not k i n) refl
entry-put_other k w i ((j, v) ∷ xs) n = elim (Bool-cases (same j k)) [
  | inl e ↦ rw (e, same_not j i (λ c. n (sym (same→≡ j k e) ∙ c))) refl
  | inr e ↦ rw (e, entry-put_other k w i xs n) refl
]

entry-delete : (k : String) (xs : Entries) → entry (delete_entry k xs) k ≡ none
entry-delete k [] = refl
entry-delete k ((j, v) ∷ xs) = elim (Bool-cases (same j k)) [
  | inl e ↦ rw e (entry-delete k xs)
  | inr e ↦ rw (e, e) (entry-delete k xs)
]

entry-delete_other :
    (k i : String) (xs : Entries) → k ≢ i → entry (delete_entry k xs) i ≡ entry xs i
entry-delete_other k i [] n = refl
entry-delete_other k i ((j, v) ∷ xs) n = elim (Bool-cases (same j k)) [
  | inl e ↦ rw (e, same_not j i (λ c. n (sym (same→≡ j k e) ∙ c))) (entry-delete_other k i xs n)
  | inr e ↦ rw (e, entry-delete_other k i xs n) refl
]

-- What the merge is to make of a key: the entries returned, requested and current.
unfoldable pub merged : Option String → Option String → Option String → Option String
merged none requested current = current
merged (some v) none current = none
merged (some v) (some w) current = if same w v then current else some w

entry-merge_other :
    (requested : Entries) (j v k : String) (rv : Entries)
    → j ≢ k
    → entry (merge_entry requested j v rv) k ≡ entry rv k
unfolding merge_entry
entry-merge_other requested j v k rv n = elim (Option-cases (entry requested j)) [
  | inl e ↦ rw (e, merge_entry) (entry-delete_other j k rv n)
  | inr (w, e) ↦ elim (Bool-cases (same w v)) [
    | inl d ↦ rw (e, merge_entry, d) refl
    | inr d ↦ rw (e, merge_entry, d) (entry-put_other j w k rv n)
  ]
]

entry-merge_here :
    (requested : Entries) (k v : String) (rv : Entries)
    → entry (merge_entry requested k v rv) k ≡ merged (some v) (entry requested k) (entry rv k)
unfolding merge_entry merged
entry-merge_here requested k v rv = elim (Option-cases (entry requested k)) [
  | inl e ↦ rw (e, merge_entry) (entry-delete k rv)
  | inr (w, e) ↦ elim (Bool-cases (same w v)) [
    | inl d ↦ rw (e, merge_entry, d) refl
    | inr d ↦ rw (e, merge_entry, d) (entry-put k w rv)
  ]
]

-- Where no key of the returned map stands twice, the merged map holds under every key what the three
-- maps have there decides: a key that has been returned is deleted if it is not requested, follows
-- the request if its value differs and keeps its current value otherwise; any other key keeps its
-- current value. The order in which the code ranges over the returned map does not matter.
pub entry-merge_map :
    (returned requested current : Entries) (k : String)
    → IsMap returned
    → entry (merge_map returned requested current) k
      ≡ merged (entry returned k) (entry requested k) (entry current k)
unfolding merge_map merged
entry-merge_map [] requested current k h = refl
entry-merge_map ((j, v) ∷ xs) requested current k (n, h) =
    let rest = entry-merge_map xs requested (merge_entry requested j v current) k h in
    elim (same_or_not j k) [
      | inl e ↦ rw (≡→same j k e) (rest ∙ here e)
      | inr e ↦ rw (same_not j k e) (
          rest
          ∙ ap (merged (entry xs k) (entry requested k))
              (entry-merge_other requested j v k current e))
    ]
  where
    here :
        j ≡ k
        → merged (entry xs k) (entry requested k) (entry (merge_entry requested j v current) k)
          ≡ merged (some v) (entry requested k) (entry current k)
    here e =
        subst
          (λ i.
            merged (entry xs i) (entry requested i) (entry (merge_entry requested j v current) i)
            ≡ merged (some v) (entry requested i) (entry current i))
          e
          (ap (λ o. merged o (entry requested j) (entry (merge_entry requested j v current) j)) n
            ∙ entry-merge_here requested j v current)

module _ {I N D M : Type 0} where
  -- A client that asks for the endpoint and the context that it has got last time keeps what the
  -- factory has made of the connection since, where `proto.Equal` holds of a context and itself.
  pub merge_connection-unchanged :
      (equal : Option (ConnectionContext I N D) → Option (ConnectionContext I N D) → Bool)
      (returned requested current : Connection (ConnectionContext I N D) M)
      (x : ConnectionContext I N D)
      → ((o : Option (ConnectionContext I N D)) → equal o o ≡ true)
      → requested.endpoint_name ≡ returned.endpoint_name
      → requested.context ≡ returned.context
      → current.context ≡ some x
      → merge_connection equal (some returned) requested (some current) ≡ current
  unfolding merge_connection merge_connection_context
  merge_connection-unchanged equal returned requested current x same_context e c h =
      rw
        (
          ≡→same returned.endpoint_name requested.endpoint_name (sym e),
          c,
          h,
          same_context returned.context,
        )
        refl
