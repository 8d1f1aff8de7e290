-- ===== src/Memory.antt =====
-- packages/edge-memory-server/src/store.ts: the store of memory entries in memory. Times are ISO
-- texts, given by the caller of each operation; values are opaque.
pub mod Ids
pub mod Forget
pub mod Tag
pub mod Queries
pub mod Consolidate
mod Tests
use agentx_platform.Prelude.{
  ltb, if◌then◌else◌, or_default, is_some, length, take, keep, Text, codes, same, text_lt, decimal,
  lookup, insert, remove, has, Result, ok, throws, ℕ, ◌+◌, Bool, true, false, not, ◌&&◌, ◌||◌,
  Option, none, some, List, [], ◌∷◌, ◌++◌, map,
}

pub record MemoryScope : Type 0 where
  pub job_id : Option Text
  pub product_id : Option Text
  pub user_id : Option Text
  pub session_id : Option Text
  pub organization_id : Option Text
  pub topic : Option Text

pub data Feedback : Type 0 where
  positive negative unconfirmed : Feedback

pub data ConsolidatedBy : Type 0 where
  rule summary manual : ConsolidatedBy

pub record MemoryProvenance : Type 0 where
  pub originating_job_id : Option Text
  pub originating_product_id : Option Text
  pub consolidated_from : Option (MemoryScope × List Text)
  pub consolidated_by : Option ConsolidatedBy
  pub consolidated_at : Option Text
  pub feedback : Feedback
  pub feedback_source : Option Text
  pub feedback_at : Option Text

pub record MemoryEntry (V : Type 0) : Type 0 where
  pub id : Text
  pub created_at : Text
  pub key : Text
  pub value : V
  pub scope : MemoryScope
  pub provenance : MemoryProvenance

pub record MemoryPutInput (V : Type 0) : Type 0 where
  pub put_key : Text
  pub put_value : V
  pub put_scope : Option MemoryScope
  pub put_provenance : Option MemoryProvenance

pub record MemoryStore (V : Type 0) : Type 0 where
  pub entries : List (Text × MemoryEntry V)
  pub next_id : ℕ

abbrev pub empty_scope : MemoryScope
empty_scope = record {
  job_id = none;
  product_id = none;
  user_id = none;
  session_id = none;
  organization_id = none;
  topic = none;
}

abbrev pub empty_store : {V : Type 0} → MemoryStore V
empty_store = record { entries = []; next_id = 1 }

unfoldable pub default_provenance : Option MemoryScope → MemoryProvenance
default_provenance s = record {
  originating_job_id = elim s [ none ↦ none | some t ↦ t.job_id ];
  originating_product_id = elim s [ none ↦ none | some t ↦ t.product_id ];
  consolidated_from = none;
  consolidated_by = none;
  consolidated_at = none;
  feedback = unconfirmed;
  feedback_source = none;
  feedback_at = none;
}

-- One step of the loop of `scopeMatches`: a field that the filter leaves open matches.
unfoldable pub field_matches : Option Text → Option Text → Bool
field_matches e none = true
field_matches none (some f) = false
field_matches (some e) (some f) = same e f

unfoldable pub scope_matches : MemoryScope → Option MemoryScope → Bool
unfolding field_matches
scope_matches e none = true
scope_matches e (some f) =
    field_matches e.job_id f.job_id
    && (field_matches e.product_id f.product_id
        && (field_matches e.user_id f.user_id
            && (field_matches e.session_id f.session_id
                && (field_matches e.organization_id f.organization_id
                    && field_matches e.topic f.topic))))

-- `Object.values(s).some((v) => v !== undefined)`.
unfoldable pub has_field : MemoryScope → Bool
has_field s =
    is_some s.job_id
    || (is_some s.product_id
        || (is_some s.user_id
            || (is_some s.session_id || (is_some s.organization_id || is_some s.topic))))

abbrev pub scope_has_field : Option MemoryScope → Bool
scope_has_field none = false
scope_has_field (some s) = has_field s

unfoldable pub same_feedback : Feedback → Feedback → Bool
same_feedback positive positive = true
same_feedback negative negative = true
same_feedback unconfirmed unconfirmed = true
same_feedback _ _ = false

pub record ForgetPredicate : Type 0 where
  pub in_scope : Option MemoryScope
  pub with_key : Option Text
  pub older_than : Option Text
  pub with_id : Option Text
  pub with_feedback : Option Feedback

pub record ForgetResult : Type 0 where
  pub deleted : ℕ
  pub deleted_ids : List Text

-- An optional test: an absent bound holds.
abbrev pub given {ℓ} : {A : Type ℓ} → Option A → (A → Bool) → Bool
given none p = true
given (some a) p = p a

unfoldable pub forget_matches : {V : Type 0} → MemoryEntry V → ForgetPredicate → Bool
unfolding scope_matches same_feedback
forget_matches e p =
    scope_matches e.scope p.in_scope
    && (given p.with_key (same e.key)
        && (given p.older_than (text_lt e.created_at)
            && (given p.with_id (same e.id)
                && given p.with_feedback (same_feedback e.provenance.feedback))))

abbrev pub empty_predicate : Text
empty_predicate =
    codes
      "forget predicate must set at least one of: key, olderThan, id, feedback, or scope (with at least one scope key)"

unfoldable pub is_empty_predicate : ForgetPredicate → Bool
unfolding has_field
is_empty_predicate p =
    not (scope_has_field p.in_scope)
    && (not (is_some p.with_key)
        && (not (is_some p.older_than)
            && (not (is_some p.with_id) && not (is_some p.with_feedback))))

abbrev pub sample_size : ℕ
sample_size = 100

abbrev pub sampled : List Text → Text → List Text
sampled ids id = if ltb (length ids) sample_size then ids ++ (id ∷ []) else ids

pub record TagInput : Type 0 where
  pub entry_ids : Option (List Text)
  pub tag_scope : Option MemoryScope
  pub tag_key : Option Text
  pub tag_older_than : Option Text
  pub label : Feedback
  pub label_source : Option Text
  pub overwrite : Bool

pub record TagResult : Type 0 where
  pub tagged : ℕ
  pub already_tagged : ℕ
  pub tagged_ids : List Text

abbrev pub empty_tag_input : Text
empty_tag_input =
    codes
      "tag input must set at least one of: entryIds, key, olderThan, or scope (with at least one scope key)"

unfoldable pub is_empty_tag_input : TagInput → Bool
unfolding has_field
is_empty_tag_input t =
    not (given t.entry_ids (λ ids. ltb 0 (length ids)) && is_some t.entry_ids)
    && (not (scope_has_field t.tag_scope)
        && (not (is_some t.tag_key) && not (is_some t.tag_older_than)))

pub data MemoryQuery : Type 0 where
  structured : Option Text → Option MemoryScope → MemoryQuery
  recent : Option MemoryScope → Option ℕ → MemoryQuery
  similarity graph : MemoryQuery

pub data MemoryQueryResult (V : Type 0) : Type 0 where
  found : List (MemoryEntry V) → MemoryQueryResult V
  unsupported : Text → MemoryQueryResult V

unfoldable pub memory_id : ℕ → Text
memory_id n = codes "mem_" ++ decimal n

abbrev pub default_limit : ℕ
default_limit = 20

module _ {V : Type 0} where
  unfoldable pub put : Text → MemoryPutInput V → MemoryStore V → MemoryStore V × MemoryEntry V
  unfolding insert memory_id default_provenance
  put now input s =
      let entry : MemoryEntry V = record {
        id = memory_id s.next_id;
        created_at = now;
        key = input.put_key;
        value = input.put_value;
        scope = or_default input.put_scope empty_scope;
        provenance = or_default input.put_provenance (default_provenance input.put_scope);
      } in
      (record { entries = insert entry.id entry s.entries; next_id = s.next_id + 1 }, entry)

  -- `_setProvenance`, and whether there was such an entry.
  unfoldable pub set_provenance : Text → MemoryProvenance → MemoryStore V → MemoryStore V × Bool
  unfolding lookup insert
  set_provenance id p s = elim (lookup id s.entries) [
    | none ↦ (s, false)
    | some e ↦ (record s { entries = insert id (record e { provenance = p }) s.entries }, true)
  ]

  unfoldable pub size : MemoryStore V → ℕ
  size s = length s.entries

  -- The loop of `forget` over the entries; the map loses entries while it runs.
  unfoldable pub forget_loop :
      ForgetPredicate
      → List (Text × MemoryEntry V)
      → List (Text × MemoryEntry V)
      → ForgetResult
      → List (Text × MemoryEntry V) × ForgetResult
  unfolding remove forget_matches
  forget_loop p [] m r = (m, r)
  forget_loop p ((id, e) ∷ todo) m r = elim (forget_matches e p) [
    | true ↦
        forget_loop p todo (remove id m)
          (record { deleted = r.deleted + 1; deleted_ids = sampled r.deleted_ids id })
    | false ↦ forget_loop p todo m r
  ]

  unfoldable pub forget : ForgetPredicate → MemoryStore V → Result (MemoryStore V × ForgetResult)
  unfolding forget_loop is_empty_predicate
  forget p s =
      if is_empty_predicate p
      then throws empty_predicate
      else let (m, r) =
          forget_loop p s.entries s.entries (record { deleted = 0; deleted_ids = [] }) in
        ok (record s { entries = m }, r)

  unfoldable pub tag_matches : TagInput → Text → MemoryEntry V → Bool
  unfolding scope_matches has
  tag_matches t id e =
      given t.entry_ids (has id)
      && (given t.tag_key (same e.key)
          && (given t.tag_older_than (text_lt e.created_at) && scope_matches e.scope t.tag_scope))

  unfoldable pub retag : Text → TagInput → MemoryEntry V → MemoryEntry V
  retag now t e = record e {
    provenance = record e.provenance {
      feedback = t.label;
      feedback_source = elim t.label_source [
        | none ↦ e.provenance.feedback_source
        | some source ↦ some source
      ];
      feedback_at = some now;
    };
  }

  -- An entry with a label is left alone unless the caller asks to overwrite.
  unfoldable pub skips : TagInput → MemoryEntry V → Bool
  unfolding same_feedback
  skips t e = not t.overwrite && not (same_feedback e.provenance.feedback unconfirmed)

  unfoldable pub tag_loop :
      Text
      → TagInput
      → List (Text × MemoryEntry V)
      → List (Text × MemoryEntry V)
      → TagResult
      → List (Text × MemoryEntry V) × TagResult
  unfolding insert tag_matches retag skips
  tag_loop now t [] m r = (m, r)
  tag_loop now t ((id, e) ∷ todo) m r = elim (tag_matches t id e) [
    | false ↦ tag_loop now t todo m r
    | true ↦ elim (skips t e) [
      | true ↦ tag_loop now t todo m (record r { already_tagged = r.already_tagged + 1 })
      | false ↦
          tag_loop now t todo (insert id (retag now t e) m)
            (record r { tagged = r.tagged + 1; tagged_ids = sampled r.tagged_ids id })
    ]
  ]

  unfoldable pub tag : Text → TagInput → MemoryStore V → Result (MemoryStore V × TagResult)
  unfolding tag_loop is_empty_tag_input
  tag now t s =
      if is_empty_tag_input t
      then throws empty_tag_input
      else let (m, r) =
          tag_loop now t s.entries s.entries
            (record { tagged = 0; already_tagged = 0; tagged_ids = [] }) in
        ok (record s { entries = m }, r)

  -- `arrange` is the engine's sort by the comparison of creation times, newest first.
  unfoldable pub query :
      (List (MemoryEntry V) → List (MemoryEntry V))
      → MemoryQuery
      → MemoryStore V
      → MemoryQueryResult V
  unfolding scope_matches
  query arrange (structured key scope) s = found (
      arrange (
        keep (λ e. given key (same e.key) && scope_matches e.scope scope)
          (map (λ e. e.1) s.entries)))
  query arrange (recent scope limit) s = found (
      take (or_default limit default_limit)
        (arrange (keep (λ e. scope_matches e.scope scope) (map (λ e. e.1) s.entries))))
  query arrange similarity s =
      unsupported
        (codes "similarity queries require a vector-capable backend (sqlite-vec); not in v1-lite")
  query arrange graph s =
      unsupported (codes "graph queries require a graph-capable backend (Neo4j); not in v1-lite")
