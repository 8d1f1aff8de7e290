-- ===== src/Flow/State/Merge.antt =====
-- What the reducers of packages/harness-core/src/flow-graph.ts keep.
use agentx_platform.Prelude.{
  if◌then◌else◌, All, Text, same, same_iff, lookup, insert, lookup-insert, Distinct, keys,
  insert-Distinct, ◌≡◌, refl, ◌∙◌, Option, none, some, List, [], ◌∷◌, ◌++◌, map, arith,
}
use agentx_platform.Changes.{ChangedFile}
use agentx_platform.Flow.State.{set_changes, merge_changes}

-- The ids of a list of changes, and the last change with a given id.
abbrev pub change_ids : List ChangedFile → List Text
change_ids = map λ c. c.id

unfoldable pub latest : Text → List ChangedFile → Option ChangedFile
latest k [] = none
latest k (c ∷ cs) = elim (latest k cs) [
  | some d ↦ some d
  | none ↦ if same c.id k then some c else none
]

unfoldable pub find_change : Text → List ChangedFile → Option ChangedFile
find_change k [] = none
find_change k (c ∷ cs) = if same c.id k then some c else find_change k cs

-- Every entry of the map stands under the id of its change.
abbrev Keyed : List (Text × ChangedFile) → Type 0
Keyed = All λ e. e.0 ≡ e.1.id

insert-Keyed :
    (k : Text) (c : ChangedFile) (m : List (Text × ChangedFile))
    → k ≡ c.id
    → Keyed m
    → Keyed (insert k c m)
unfolding insert
insert-Keyed k c [] e h = (e, tt)
insert-Keyed k c ((j, d) ∷ m) e h = ground (arith, same_iff j k, insert-Keyed k c m e h.1)

set_changes-Keyed :
    (m : List (Text × ChangedFile)) (cs : List ChangedFile) → Keyed m → Keyed (set_changes m cs)
unfolding set_changes
set_changes-Keyed m [] h = h
set_changes-Keyed m (c ∷ cs) h =
    set_changes-Keyed (insert c.id c m) cs (insert-Keyed c.id c m refl h)

find_change-lookup :
    (k : Text) (m : List (Text × ChangedFile))
    → Keyed m
    → find_change k (map (λ e. e.1) m) ≡ lookup k m
unfolding find_change lookup
find_change-lookup k [] h = refl
find_change-lookup k ((j, c) ∷ m) h = ground (arith, h.0, find_change-lookup k m h.1)

lookup-set_changes :
    (k : Text) (m : List (Text × ChangedFile)) (cs : List ChangedFile)
    → lookup k (set_changes m cs) ≡ elim (latest k cs) [ some c ↦ some c | none ↦ lookup k m ]
unfolding set_changes latest
lookup-set_changes k m [] = refl
lookup-set_changes k m (c ∷ cs) =
    ground (arith, lookup-set_changes k (insert c.id c m) cs, lookup-insert c.id k c m)

latest-append :
    (k : Text) (cs ds : List ChangedFile)
    → latest k (cs ++ ds) ≡ elim (latest k ds) [ some d ↦ some d | none ↦ latest k cs ]
unfolding latest
latest-append k [] ds = ground arith
latest-append k (c ∷ cs) ds = ground (arith, latest-append k cs ds)

set_changes-Distinct :
    (m : List (Text × ChangedFile)) (cs : List ChangedFile)
    → Distinct (keys m)
    → Distinct (keys (set_changes m cs))
unfolding set_changes
set_changes-Distinct m [] d = d
set_changes-Distinct m (c ∷ cs) d =
    set_changes-Distinct (insert c.id c m) cs (insert-Distinct c.id c m d)

change_ids-keys : (m : List (Text × ChangedFile)) → Keyed m → change_ids (map (λ e. e.1) m) ≡ keys m
change_ids-keys [] h = refl
change_ids-keys ((k, c) ∷ m) h = ground (arith, h.0, change_ids-keys m h.1)

-- The reviewer's view of the changes is cumulative: no two entries share an id, and under every id
-- stands the change that was reported last, by the new report or, failing that, by an earlier one.
pub merge_changes-latest :
    (existing incoming : List ChangedFile)
    → Distinct (change_ids (merge_changes existing incoming))
      × ((k : Text)
          → find_change k (merge_changes existing incoming) ≡ latest k (existing ++ incoming))
unfolding merge_changes lookup
merge_changes-latest existing incoming = (
  rw (change_ids-keys _ keyed) (
      set_changes-Distinct (set_changes [] existing) incoming
        (set_changes-Distinct [] existing tt)),
  λ k.
      find_change-lookup k _ keyed
      ∙ lookup-set_changes k (set_changes [] existing) incoming
      ∙ ground (arith, lookup-set_changes k [] existing, latest-append k existing incoming),
)
  where
    keyed : Keyed (set_changes (set_changes [] existing) incoming)
    keyed = set_changes-Keyed (set_changes [] existing) incoming (set_changes-Keyed [] existing tt)
