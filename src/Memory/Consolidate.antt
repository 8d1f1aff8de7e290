-- ===== src/Memory/Consolidate.antt =====
-- packages/edge-memory-server/src/consolidate.ts: entries of a narrow scope are promoted to a wider
-- one. The summarizer, the sort of the queries and the clock are arguments.
pub mod Promote
pub mod IncludeAll
pub mod Moves
use agentx_platform.Prelude.{
  ltb, if◌then◌else◌, or_default, length, keep, Text, codes, same, Result, ok, throws, ◌>>=◌, ◌>>◌,
  ℕ, ◌+◌, Bool, true, false, not, ◌||◌, Option, none, some, List, [], ◌∷◌, ◌++◌, map,
}
use agentx_platform.Memory.{
  MemoryScope, Feedback, positive, negative, unconfirmed, ConsolidatedBy, rule, summary,
  MemoryEntry, MemoryPutInput, MemoryStore, has_field, same_feedback, ForgetPredicate, sampled,
  recent, MemoryQueryResult, found, unsupported, put, forget, query,
}

pub data ConsolidateStrategy : Type 0 where
  feedback_required feedback_by_topic feedback_summarize include_all : ConsolidateStrategy

pub record ConsolidateInput : Type 0 where
  pub from_scope : MemoryScope
  pub to_scope : MemoryScope
  pub strategy : Option ConsolidateStrategy
  pub feedback_filter : Option (List Feedback)
  pub only_topic : Option Text
  pub keep_source : Bool

pub record ConsolidateResult : Type 0 where
  pub promoted : ℕ
  pub skipped : ℕ
  pub summarized_from : Option ℕ
  pub lineage_ids : List Text
  pub positives : ℕ
  pub negatives : ℕ

-- What is appended to the audit log; the actor is left out.
pub record AuditEntry : Type 0 where
  pub count : ℕ
  pub audited_ids : List Text
  pub audited_scope : MemoryScope

abbrev pub source_limit : ℕ
source_limit = 100000

unfoldable pub filter_has : List Feedback → Feedback → Bool
unfolding same_feedback
filter_has [] f = false
filter_has (g ∷ gs) f = same_feedback g f || filter_has gs f

unfoldable pub labelled : List Feedback → Feedback → Bool
unfolding filter_has
labelled filter unconfirmed = false
labelled filter f = filter_has filter f

-- The checks of `validateInput`.
unfoldable pub validate_input : ConsolidateInput → Result (Unit {0})
unfolding has_field
validate_input input =
    if not (has_field input.from_scope)
    then throws (codes "consolidate requires `from.scope` with at least one set scope key")
    else if not (has_field input.to_scope)
    then throws (codes "consolidate requires `to.scope` with at least one set scope key")
    else elim input.feedback_filter [
      | some [] ↦ throws (
          codes
            "feedbackFilter cannot be empty — set [\"positive\",\"negative\"] (default) or omit")
      | _ ↦ ok tt
    ]

abbrev pub default_filter : List Feedback
default_filter = positive ∷ negative ∷ []

unfoldable pub is_by_topic : ConsolidateStrategy → Bool
is_by_topic feedback_by_topic = true
is_by_topic _ = false

unfoldable pub is_include_all : ConsolidateStrategy → Bool
is_include_all include_all = true
is_include_all _ = false

abbrev pub id_predicate : Text → ForgetPredicate
id_predicate id = record {
  in_scope = none;
  with_key = none;
  older_than = none;
  with_id = some id;
  with_feedback = none;
}

abbrev pub scope_predicate : MemoryScope → ForgetPredicate
scope_predicate scope = record {
  in_scope = some scope;
  with_key = none;
  older_than = none;
  with_id = none;
  with_feedback = none;
}

unfoldable pub count_promoted : Feedback → Text → ConsolidateResult → ConsolidateResult
unfolding same_feedback
count_promoted f id r = record r {
  promoted = r.promoted + 1;
  lineage_ids = sampled r.lineage_ids id;
  positives = r.positives + (if same_feedback f positive then 1 else 0);
  negatives = r.negatives + (if same_feedback f negative then 1 else 0);
}

module _ {V : Type 0} where
  -- Whether one source entry is eligible.
  unfoldable pub is_eligible :
      ConsolidateStrategy → List Feedback → Option Text → MemoryEntry V → Result Bool
  unfolding labelled is_by_topic is_include_all
  is_eligible strategy filter only_topic e =
      if is_include_all strategy
      then ok true
      else if not (labelled filter e.provenance.feedback)
      then ok false
      else if not (is_by_topic strategy)
      then ok true
      else elim only_topic [
        | none ↦ throws (codes "strategy=feedback-by-topic requires `topic` field")
        | some t ↦ ok (elim e.scope.topic [ none ↦ false | some u ↦ same u t ])
      ]

  -- The loop that sorts the source entries into eligible and skipped ones.
  unfoldable pub select :
      ConsolidateStrategy
      → List Feedback
      → Option Text
      → List (MemoryEntry V)
      → Result (List (MemoryEntry V) × ℕ)
  unfolding is_eligible
  select strategy filter only_topic [] = ok ([], 0)
  select strategy filter only_topic (e ∷ es) = do
    yes' ← is_eligible strategy filter only_topic e
    rest ← select strategy filter only_topic es
    ok (if yes' then (e ∷ rest.0, rest.1) else (rest.0, rest.1 + 1))

  unfoldable pub promote_input :
      ConsolidateInput → ConsolidatedBy → Text → MemoryEntry V → MemoryPutInput V
  promote_input input by' at' src = record {
    put_key = src.key;
    put_value = src.value;
    put_scope = some input.to_scope;
    put_provenance = some (record {
      originating_job_id = none;
      originating_product_id = none;
      consolidated_from = some (input.from_scope, src.id ∷ []);
      consolidated_by = some by';
      consolidated_at = some at';
      feedback = src.provenance.feedback;
      feedback_source = src.provenance.feedback_source;
      feedback_at = src.provenance.feedback_at;
    });
  }

  -- The loop of verbatim promotion; the clock gives the time at which an entry of that number is put.
  unfoldable pub promote :
      (ℕ → Text)
      → ConsolidateInput
      → Text
      → List (MemoryEntry V)
      → MemoryStore V
      → ConsolidateResult
      → MemoryStore V × ConsolidateResult
  unfolding put promote_input count_promoted
  promote clock input at' [] s r = (s, r)
  promote clock input at' (e ∷ es) s r =
      let (t, entry) = put (clock s.next_id) (promote_input input rule at' e) s in
      promote clock input at' es t (count_promoted e.provenance.feedback entry.id r)

  unfoldable pub summary_input :
      ConsolidateInput → Text → Feedback → Text × V → List (MemoryEntry V) → MemoryPutInput V
  summary_input input at' f (key, value) group = record {
    put_key = key;
    put_value = value;
    put_scope = some input.to_scope;
    put_provenance = some (record {
      originating_job_id = none;
      originating_product_id = none;
      consolidated_from = some (input.from_scope, map (λ e. e.id) group);
      consolidated_by = some summary;
      consolidated_at = some at';
      feedback = f;
      feedback_source = none;
      feedback_at = none;
    });
  }

  -- One group of `feedback-summarize`.
  unfoldable pub summarize_group :
      (Feedback → List (MemoryEntry V) → Result (Text × V))
      → (ℕ → Text)
      → ConsolidateInput
      → Text
      → Feedback
      → List (MemoryEntry V)
      → MemoryStore V × ConsolidateResult
      → Result (MemoryStore V × ConsolidateResult)
  unfolding put summary_input count_promoted
  summarize_group summarize clock input at' f [] x = ok x
  summarize_group summarize clock input at' f (e ∷ es) (s, r) = do
    kv ← summarize f (e ∷ es)
    let (t, entry) = put (clock s.next_id) (summary_input input at' f kv (e ∷ es)) s
    ok (t, count_promoted f entry.id r)

  -- `forget({ id })` for each source entry.
  unfoldable pub forget_each : List (MemoryEntry V) → MemoryStore V → Result (MemoryStore V)
  forget_each [] s = ok s
  forget_each (e ∷ es) s = do x ← forget (id_predicate e.id) s; forget_each es x.0

  -- The source entries go, unless they are to be kept.
  unfoldable pub clean_up :
      ConsolidateInput
      → ConsolidateStrategy
      → List (MemoryEntry V)
      → MemoryStore V
      → Result (MemoryStore V)
  clean_up input strategy [] s = ok s
  clean_up input strategy (e ∷ es) s =
      if input.keep_source then ok s else elim (is_include_all strategy) [
        | true ↦ do x ← forget (scope_predicate input.from_scope) s; ok x.0
        | false ↦ forget_each (e ∷ es) s
      ]

  unfoldable pub write_promoted :
      (Feedback → List (MemoryEntry V) → Result (Text × V))
      → (ℕ → Text)
      → ConsolidateInput
      → Text
      → ConsolidateStrategy
      → List (MemoryEntry V)
      → MemoryStore V
      → ConsolidateResult
      → Result (MemoryStore V × ConsolidateResult)
  unfolding promote summarize_group same_feedback
  write_promoted summarize clock input at' feedback_summarize es s r = do
    let group = λ (f : Feedback). keep (λ e. same_feedback e.provenance.feedback f) es
    let r' = record r { summarized_from = some (length (group positive) + length (group negative)) }
    x ← summarize_group summarize clock input at' positive (group positive) (s, r')
    summarize_group summarize clock input at' negative (group negative) x
  write_promoted summarize clock input at' _ es s r = ok (promote clock input at' es s r)

  unfoldable pub found_entries : MemoryQueryResult V → Result (List (MemoryEntry V))
  found_entries (found es) = ok es
  found_entries (unsupported reason) = throws (codes "source scope query unsupported: " ++ reason)

  unfoldable pub consolidate :
      (List (MemoryEntry V) → List (MemoryEntry V))
      → (Feedback → List (MemoryEntry V) → Result (Text × V))
      → (ℕ → Text)
      → Text
      → ConsolidateInput
      → MemoryStore V × List AuditEntry
      → Result (MemoryStore V × List AuditEntry × ConsolidateResult)
  consolidate arrange summarize clock at' input (s, log) = do
    checked ← validate_input input
    let strategy = or_default input.strategy feedback_required
    let filter = or_default input.feedback_filter default_filter
    source ← found_entries (query arrange (recent (some input.from_scope) (some source_limit)) s)
    chosen ← select strategy filter input.only_topic source
    x ← write_promoted summarize clock input at' strategy chosen.0 s (record {
      promoted = 0;
      skipped = chosen.1;
      summarized_from = none;
      lineage_ids = [];
      positives = 0;
      negatives = 0;
    })
    t ← clean_up input strategy chosen.0 x.0
    ok (
      t,
      if ltb 0 x.1.promoted
          then log
            ++ (record {
              count = x.1.promoted;
              audited_ids = x.1.lineage_ids;
              audited_scope = input.to_scope;
            }
                ∷ [])
          else log,
      x.1,
    )
