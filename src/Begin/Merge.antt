-- ===== src/Begin/Merge.antt =====
-- pkg/networkservice/common/begin/merge.go: the three way merge of what a client has got, what it asks
-- for now and what the factory keeps. `proto.Equal` on contexts is the argument `equal`. A Go map is
-- a list of entries with no key twice.
pub mod Entries
use nsm_sdk.Prelude.{
  ℕ, ◌≡◌, ◌≢◌, ◌∙◌, refl, sym, ap, inl, inr, List, [], ◌∷◌, Option, none, some, Bool, true, false,
  if◌then◌else◌, String, same, same→≡, ≡→same, same_or_not, same_not, Bool-cases, Option-cases,
}
use nsm_sdk.Begin.{Connection}

abbrev pub Entries : Type 0
Entries = List (String × String)

abbrev pub entry : Entries → String → Option String
entry [] k = none
entry ((j, v) ∷ xs) k = if same j k then some v else entry xs k

abbrev pub put_entry : String → String → Entries → Entries
put_entry k w [] = (k, w) ∷ []
put_entry k w ((j, v) ∷ xs) =
    let rest = put_entry k w xs in if same j k then (j, w) ∷ xs else (j, v) ∷ rest

abbrev pub delete_entry : String → Entries → Entries
delete_entry k [] = []
delete_entry k ((j, v) ∷ xs) =
    let rest = delete_entry k xs in if same j k then rest else (j, v) ∷ rest

pub record ConnectionContext (I N D : Type 0) : Type 0 where
  pub ip : Option I
  pub ethernet : Option N
  pub dns : Option D
  pub mtu : ℕ
  pub extra : Entries

-- The loop of `mergeMapStringString`, one entry of the returned map.
unfoldable pub merge_entry : Entries → String → String → Entries → Entries
merge_entry requested j v rv = elim (entry requested j) [
  | none ↦ delete_entry j rv
  | some w ↦ if same w v then rv else put_entry j w rv
]

unfoldable pub merge_map : Entries → Entries → Entries → Entries
unfolding merge_entry
merge_map [] requested rv = rv
merge_map ((j, v) ∷ xs) requested rv = merge_map xs requested (merge_entry requested j v rv)

module _ {I N D : Type 0} where
  abbrev pub extra_of : Option (ConnectionContext I N D) → Entries
  extra_of none = []
  extra_of (some x) = x.extra

  -- The getters of a context that may be nil, around the extra context.
  abbrev pub fields_of : Option (ConnectionContext I N D) → Entries → ConnectionContext I N D
  fields_of none extra = record { ip = none; ethernet = none; dns = none; mtu = 0; extra = extra }
  fields_of (some x) extra = record x { extra = extra }

  unfoldable pub merge_connection_context :
      (Option (ConnectionContext I N D) → Option (ConnectionContext I N D) → Bool)
      → Option (ConnectionContext I N D)
      → Option (ConnectionContext I N D)
      → Option (ConnectionContext I N D)
      → Option (ConnectionContext I N D)
  merge_connection_context equal returned requested none = requested
  merge_connection_context equal returned requested (some x) =
      if equal returned requested
      then some x
      else some (fields_of requested (merge_map (extra_of returned) (extra_of requested) x.extra))

  unfoldable pub merge_connection :
      {M : Type 0}
      → (Option (ConnectionContext I N D) → Option (ConnectionContext I N D) → Bool)
      → Option (Connection (ConnectionContext I N D) M)
      → Connection (ConnectionContext I N D) M
      → Option (Connection (ConnectionContext I N D) M)
      → Connection (ConnectionContext I N D) M
  unfolding merge_connection_context
  merge_connection equal none requested current = requested
  merge_connection equal (some r) requested none = requested
  merge_connection equal (some r) requested (some c) = record c {
    endpoint_name =
        if same r.endpoint_name requested.endpoint_name
        then c.endpoint_name
        else requested.endpoint_name;
    context = merge_connection_context equal r.context requested.context c.context;
  }
