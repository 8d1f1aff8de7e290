-- ===== src/Tokens/Once.antt =====
-- The accumulator of packages/harness-core/src/token-accumulator.ts hears each event once, and
-- leaves the bus of packages/harness-core/src/job-bus.ts as it found it.
use agentx_platform.Prelude.{
  ◌==◌, if◌then◌else◌, Bool-cases, or_default, length, All, Text, same, same_refl, lookup, insert,
  remove, lookup-insert, has, add, delete, add-fresh, keys, ◌≡◌, refl, subst, ◌∙◌, inl, inr, false,
  Option, none, some, List, [], ◌∷◌, ◌++◌, arith,
}
use agentx_platform.Tokens.Bus.{Bus, subscribe, unsubscribe}

insert-insert :
    {V : Type 0} (k : Text) (v w : V) (m : List (Text × V))
    → insert k v (insert k w m) ≡ insert k v m
unfolding insert
insert-insert k v w [] = rw (same_refl k) refl
insert-insert k v w ((i, u) ∷ m) = ground (arith, insert-insert k v w m)

insert-lookup :
    {V : Type 0} (k : Text) (v : V) (m : List (Text × V)) → lookup k m ≡ some v → insert k v m ≡ m
unfolding insert lookup
insert-lookup k v [] h = cc
insert-lookup k v ((i, u) ∷ m) h = ground (arith, insert-lookup k v m)

lookup-absent :
    {V : Type 0} (k : Text) (m : List (Text × V)) → lookup k m ≡ none → has k (keys m) ≡ false
unfolding has lookup
lookup-absent k [] h = refl
lookup-absent k ((i, u) ∷ m) h = ground (arith, lookup-absent k m)

delete-snoc : (h : Text) (s : List Text) → has h s ≡ false → delete h (s ++ h ∷ []) ≡ s
unfolding has delete
delete-snoc h [] p = rw (same_refl h) refl
delete-snoc h (i ∷ s) p = ground (arith, delete-snoc h s)

remove-insert :
    {V : Type 0} (k : Text) (v : V) (m : List (Text × V))
    → lookup k m ≡ none
    → remove k (insert k v m) ≡ m
unfolding insert remove lookup
remove-insert k v [] h = rw (same_refl k) refl
remove-insert k v ((i, u) ∷ m) h = ground (arith, remove-insert k v m)

lookup-kept :
    (k : Text) (hs : List Text) (b : Bus)
    → All (λ e. (length e.1 == 0) ≡ false) b
    → lookup k b ≡ some hs
    → (length hs == 0) ≡ false
unfolding lookup
lookup-kept k hs [] v e = cc
lookup-kept k hs ((i, u) ∷ b) v e = elim (Bool-cases (same i k)) [
  | inl hit ↦ subst (λ o. (length (or_default o u) == 0) ≡ false) (rw hit at e) v.0
  | inr miss ↦ lookup-kept k hs b v.1 (rw miss at e)
]

abbrev pub listeners : Text → Bus → List Text
listeners job bus = or_default (lookup job bus) []

-- A handler that was not there before leaves no trace on the bus once its subscription is undone:
-- not even the place of a job.
pub unsubscribe-subscribe :
    (job h : Text) (bus : Bus)
    → All (λ e. (length e.1 == 0) ≡ false) bus
    → has h (listeners job bus) ≡ false
    → unsubscribe job h (subscribe job h bus) ≡ bus
unsubscribe-subscribe job h bus v f = unfold subscribe unsubscribe in pass (lookup job bus) refl f
  where
    undo : Option (List Text) → Bus → Bus
    undo o b = elim o [
      | none ↦ b
      | some hs ↦
          let rest = delete h hs in if length rest == 0 then remove job b else insert job rest b
    ]

    back :
        (hs : List Text)
        → (length hs == 0) ≡ false
        → lookup job bus ≡ some hs
        → insert job hs (insert job (hs ++ h ∷ []) bus) ≡ bus
    back hs n e = insert-insert job hs (hs ++ h ∷ []) bus ∙ insert-lookup job hs bus e

    pass :
        (o : Option (List Text))
        → lookup job bus ≡ o
        → has h (or_default o []) ≡ false
        → undo
            (lookup job (insert job (add h (or_default o [])) bus))
            (insert job (add h (or_default o [])) bus)
          ≡ bus
    pass none e f =
        rw (add-fresh h [] f, lookup-insert job job (h ∷ []) bus, same_refl job, delete-snoc h [] f)
          (remove-insert job (h ∷ []) bus e)
    pass (some hs) e f =
        rw
          (
            add-fresh h hs f,
            lookup-insert job job (hs ++ h ∷ []) bus,
            same_refl job,
            delete-snoc h hs f,
            lookup-kept job hs bus v e,
          )
          (back hs (lookup-kept job hs bus v e) e)
