-- ===== src/MatchUtils.antt =====
-- pkg/tools/matchutils/utils.go: which endpoints and services match a query. Go maps are lists of
-- entries with distinct keys, in the order in which a loop meets them: most loops only ask for a condition
-- of every entry, and where a nil entry crashes, the order tells whether it is met. What `text/template`
-- makes of a label is an argument, and so is the containment test of strings.
pub mod Subset
pub mod Endpoints
pub mod Crash
use nsm_sdk.Prelude.{
  ℕ, List, [], ◌∷◌, ◌++◌, Option, none, some, Bool, true, false, not, ◌&&◌, ◌||◌, ltb, ◌==◌,
  if◌then◌else◌, length, String, same,
}

abbrev pub Labels : Type 0
Labels = List (String × String)

unfoldable pub find {ℓ} : {A : Type ℓ} → String → List (String × A) → Option A
find k [] = none
find k ((j, v) ∷ m) = if same j k then some v else find k m

-- Reading a missing key of a `map[string]string` gives the empty string.
abbrev pub text_or_empty : Option String → String
text_or_empty none = ""
text_or_empty (some s) = s

unfoldable pub value_of : String → Labels → String
unfolding find
value_of k m = text_or_empty (find k m)

-- The result of the template, with the string itself where it fails.
abbrev pub process_labels : (String → Labels → Option String) → String → Labels → String
process_labels template s vars = elim (template s vars) [ none ↦ s | some r ↦ r ]

unfoldable pub all_match : (String → Labels → Option String) → Labels → Labels → Labels → Bool
unfolding value_of
all_match template a [] values = true
all_match template a ((k, v) ∷ b) values =
    let rest = all_match template a b values in
    if same (value_of k a) v
    then rest
    else if same (value_of k a) (process_labels template v values)
    then rest
    else false

unfoldable pub is_subset : (String → Labels → Option String) → Labels → Labels → Labels → Bool
unfolding all_match
is_subset template a b values =
    if ltb (length a) (length b) then false else all_match template a b values

-- The labels for each service. An entry is a pointer, `none` if it is nil.
abbrev pub ServiceLabels : Type 0
ServiceLabels = List (String × Option Labels)

pub record Endpoint : Type 0 where
  pub name : String
  pub labels : Option ServiceLabels
  pub expiration : Option ℕ
  pub service_names : Option (List String)
  pub url : String

-- The labels that an endpoint has for a service: a missing entry, or a nil one, has none.
unfoldable pub entries_or_empty {ℓ} : {A : Type ℓ} → Option (List A) → List A
entries_or_empty none = []
entries_or_empty (some xs) = xs

unfoldable pub labels_of : String → Endpoint → Labels
unfolding find entries_or_empty
labels_of service e = elim (find service (entries_or_empty e.labels)) [
  | none ↦ []
  | some l ↦ entries_or_empty l
]

pub record Match : Type 0 where
  pub source_selector : Labels
  pub routes : List Labels
  pub is_fallthrough : Bool
  pub has_metadata : Bool

pub record Service : Type 0 where
  pub name : String
  pub payload : String
  pub matches : List Match

abbrev pub is_empty {ℓ} : {A : Type ℓ} → List A → Bool
is_empty [] = true
is_empty (x ∷ xs) = false

module _ (template : String → Labels → Option String) (ns_labels : Labels) (service : String) where
  unfoldable pub select : Labels → List Endpoint → List Endpoint
  unfolding is_subset labels_of
  select destination [] = []
  select destination (e ∷ es) =
      let rest = select destination es in
      if is_subset template (labels_of service e) destination ns_labels then e ∷ rest else rest

  unfoldable pub candidates : List Labels → List Endpoint → List Endpoint
  unfolding select
  candidates [] es = []
  candidates (d ∷ ds) es = select d es ++ candidates ds es

  -- The loop over the matches.
  unfoldable pub first_match : List Match → List Endpoint → List Endpoint
  unfolding is_subset candidates
  first_match [] es = []
  first_match (m ∷ ms) es =
      let rest = first_match ms es in
      let found = candidates m.routes es in
      if not (is_subset template ns_labels m.source_selector ns_labels)
      then rest
      else if m.is_fallthrough && is_empty found
      then rest
      else if m.has_metadata && is_empty m.routes && is_empty found
      then es
      else found

unfoldable pub match_endpoint :
    (String → Labels → Option String) → Labels → Service → List Endpoint → List Endpoint
unfolding first_match
match_endpoint template ns_labels ns es = elim ns.matches [
  | [] ↦ es
  | m ∷ ms ↦ first_match template ns_labels ns.name ns.matches es
]

-- `contains`: the set of the one list, with the strings of the other taken out.
unfoldable pub delete : String → List String → List String
delete s [] = []
delete s (t ∷ ts) = let rest = delete s ts in if same t s then rest else t ∷ rest

unfoldable pub delete_all : List String → List String → List String
unfolding delete
delete_all [] set = set
delete_all (s ∷ ss) set = delete_all ss (delete s set)

unfoldable pub contains : List String → List String → Bool
unfolding delete_all
contains whole what = elim (delete_all whole what) [ [] ↦ true | s ∷ ss ↦ false ]

-- A test after another one; `none` is a nil dereference.
abbrev pub then_test : Option Bool → Option Bool → Option Bool
then_test none o = none
then_test (some false) o = some false
then_test (some true) o = o

-- The inner loop of `labelsContains`: the labels of a nil entry cannot be read.
unfoldable pub all_labels : Option Labels → Labels → Option Bool
unfolding find
all_labels r [] = some true
all_labels none (e ∷ l) = none
all_labels (some r) ((k, v) ∷ l) =
    let rest = all_labels (some r) l in
    elim (find k r) [ none ↦ some false | some w ↦ if same v w then rest else some false ]

unfoldable pub entry_test : ServiceLabels → String → Option Labels → Option Bool
unfolding find all_labels
entry_test whole s l = elim (find s whole) [
  | none ↦ some false
  | some r ↦ elim l [ none ↦ none | some ls ↦ all_labels r ls ]
]

unfoldable pub labels_contains : ServiceLabels → ServiceLabels → Option Bool
unfolding entry_test
labels_contains whole [] = some true
labels_contains whole ((s, l) ∷ what) =
    let rest = labels_contains whole what in then_test (entry_test whole s l) rest

abbrev pub both : Bool → Option Bool → Option Bool
both false o = some false
both true o = o

-- The seconds of a missing expiration time cannot be read.
abbrev pub time_test : Option ℕ → Option ℕ → Option Bool
time_test none r = some true
time_test (some t) none = none
time_test (some t) (some u) = some (t == u)

abbrev pub labels_test : Option ServiceLabels → Option ServiceLabels → Option Bool
labels_test none r = some true
labels_test (some l) r = labels_contains (entries_or_empty r) l

abbrev pub names_test : Option (List String) → Option (List String) → Bool
names_test none r = true
names_test (some l) r = contains (entries_or_empty r) l

unfoldable pub match_network_service_endpoints :
    (String → String → Bool) → Endpoint → Endpoint → Option Bool
unfolding labels_contains contains entries_or_empty
match_network_service_endpoints has l r = both (same l.name "" || same r.name l.name) (
    then_test (labels_test l.labels r.labels) (
      then_test (time_test l.expiration r.expiration) (
        both (names_test l.service_names r.service_names)
          (some (same l.url "" || has r.url l.url)))))
