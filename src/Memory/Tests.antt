-- ===== src/Memory/Tests.antt =====
-- A small store of packages/edge-memory-server/src/store.ts, and its consolidation.
use agentx_platform.Prelude.{
  if◌then◌else◌, length, take, keep, Text, codes, same, decimal, has, keys, Result, ok, throws, ℕ,
  ◌≡◌, refl, false, none, some, List, [], ◌∷◌, ◌++◌, map, arith,
}
use agentx_platform.Memory.{
  MemoryScope, Feedback, positive, unconfirmed, MemoryEntry, MemoryPutInput, MemoryStore,
  empty_scope, empty_store, default_provenance, scope_matches, has_field, ForgetPredicate,
  empty_predicate, is_empty_predicate, sample_size, TagInput, empty_tag_input, is_empty_tag_input,
  recent, found, memory_id, forget, tag, query,
}
use agentx_platform.Memory.Ids.{IsValid, puts, forgets, history, history-IsValid}
use agentx_platform.Memory.Forget.{hits, leaves, forget-exact}
use agentx_platform.Memory.Tag.{to_label, passed_over, relabel, tag-exact}
use agentx_platform.Memory.Queries.{OnlyGiven}
use agentx_platform.Memory.Consolidate.{
  include_all, ConsolidateInput, ConsolidateResult, AuditEntry, source_limit, labelled,
  validate_input, default_filter, scope_predicate, consolidate,
}
use agentx_platform.Memory.Consolidate.Promote.{copies}
use agentx_platform.Memory.Consolidate.IncludeAll.{consolidate-loses}
use agentx_platform.Memory.Consolidate.Moves.{ids_of, others, consolidate-moves}

abbrev job_scope : MemoryScope
job_scope = record empty_scope { job_id = some (codes "j1") }

abbrev wide_scope : MemoryScope
wide_scope = record empty_scope { product_id = some (codes "p1") }

-- The source scope with a product added to it.
abbrev both_scope : MemoryScope
both_scope = record job_scope { product_id = some (codes "p1") }

abbrev noted : Text → Text → Feedback → MemoryEntry Text
noted id key f = record {
  id = id;
  created_at = codes "2026-01-01T00:00:00.000Z";
  key = key;
  value = codes "note";
  scope = job_scope;
  provenance = record (default_provenance (some job_scope)) { feedback = f };
}

abbrev two_notes : MemoryStore Text
two_notes = record {
  entries =
      (codes "mem_1", noted (codes "mem_1") (codes "plan") positive)
      ∷ (codes "mem_2", noted (codes "mem_2") (codes "draft") unconfirmed)
      ∷ [];
  next_id = 3;
}

two_notes-IsValid : IsValid two_notes
unfolding has same memory_id decimal
two_notes-IsValid =
    ((refl, (refl, tt)), ((refl, (1, omega arith, refl)), ((refl, (2, omega arith, refl)), tt)))

abbrev a_put : MemoryPutInput Text
a_put = record {
  put_key = codes "plan";
  put_value = codes "note";
  put_scope = some job_scope;
  put_provenance = none;
}

history-IsValid_example :
    IsValid
      (history (puts (codes "2026") a_put ∷ forgets (scope_predicate job_scope) ∷ []) empty_store)
history-IsValid_example =
    history-IsValid (puts (codes "2026") a_put ∷ forgets (scope_predicate job_scope) ∷ [])

abbrev unlabelled : ForgetPredicate
unlabelled = record (scope_predicate job_scope) { with_feedback = some unconfirmed }

forget-exact_example : forget unlabelled two_notes ≡ (
    if is_empty_predicate unlabelled
    then throws empty_predicate
    else ok (
      record two_notes { entries = leaves unlabelled two_notes.entries },
      record {
        deleted = length (hits unlabelled two_notes.entries);
        deleted_ids = take sample_size (keys (hits unlabelled two_notes.entries));
      },
    ))
forget-exact_example = forget-exact unlabelled two_notes two_notes-IsValid

abbrev praise : TagInput
praise = record {
  entry_ids = none;
  tag_scope = some job_scope;
  tag_key = none;
  tag_older_than = none;
  label = positive;
  label_source = some (codes "manual");
  overwrite = false;
}

tag-exact_example : tag (codes "2026") praise two_notes ≡ (
    if is_empty_tag_input praise
    then throws empty_tag_input
    else ok (
      record two_notes { entries = map (relabel (codes "2026") praise) two_notes.entries },
      record {
        tagged = length (to_label praise two_notes.entries);
        already_tagged = length (passed_over praise two_notes.entries);
        tagged_ids = take sample_size (keys (to_label praise two_notes.entries));
      },
    ))
tag-exact_example = tag-exact (codes "2026") praise two_notes two_notes-IsValid

abbrev as_put : List (MemoryEntry Text) → List (MemoryEntry Text)
as_put es = es

as_put-OnlyGiven : OnlyGiven as_put
as_put-OnlyGiven P l h = h

abbrev one_note : MemoryStore Text
one_note = record two_notes {
  entries = (codes "mem_1", noted (codes "mem_1") (codes "plan") positive) ∷ [];
}

forget-unlabelled :
    forget unlabelled two_notes
    ≡ ok (one_note, record { deleted = 1; deleted_ids = codes "mem_2" ∷ [] })
unfolding forget same
forget-unlabelled = refl

abbrev no_summary : Feedback → List (MemoryEntry Text) → Result (Text × Text)
no_summary f es = throws (codes "no summarizer")

abbrev same_time : ℕ → Text
same_time n = codes "2026"

abbrev lossy : ConsolidateInput
lossy = record {
  from_scope = job_scope;
  to_scope = both_scope;
  strategy = some include_all;
  feedback_filter = none;
  only_topic = none;
  keep_source = false;
}

abbrev usual : ConsolidateInput
usual = record lossy { to_scope = wide_scope; strategy = none }

two_notes-found :
    query as_put (recent (some job_scope) (some source_limit)) two_notes
    ≡ found (map (λ e. e.1) two_notes.entries)
unfolding query same
two_notes-found = refl

consolidate-loses_example :
    (t : MemoryStore Text) × (after : List AuditEntry) × (r : ConsolidateResult) × (consolidate
        as_put no_summary same_time
        (codes "2026")
        lossy
        (two_notes, [])
      ≡ ok (t, after, r))
    × (r.promoted ≡ 2)
    × (t.entries ≡ leaves (scope_predicate job_scope) two_notes.entries)
unfolding validate_input has_field scope_matches same
consolidate-loses_example =
    consolidate-loses as_put no_summary same_time (codes "2026") lossy two_notes []
      (noted (codes "mem_1") (codes "plan") positive)
      (noted (codes "mem_2") (codes "draft") unconfirmed ∷ []) two_notes-IsValid refl refl refl refl
      two_notes-found refl

consolidate-moves_example :
    let moved =
      keep
        (λ e. labelled default_filter e.provenance.feedback)
        (map (λ e. e.1) two_notes.entries) in
    (t : MemoryStore Text) × (after : List AuditEntry) × (r : ConsolidateResult) × (consolidate
        as_put no_summary same_time
        (codes "2026")
        usual
        (two_notes, [])
      ≡ ok (t, after, r))
    × (r.promoted ≡ length moved)
    × (t.entries
        ≡ others (ids_of moved) two_notes.entries
          ++ copies same_time usual (codes "2026") two_notes.next_id moved)
unfolding validate_input has_field
consolidate-moves_example =
    consolidate-moves as_put no_summary same_time (codes "2026") usual two_notes []
      (map (λ e. e.1) two_notes.entries) as_put-OnlyGiven two_notes-IsValid refl refl refl
      two_notes-found
