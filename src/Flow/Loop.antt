-- ===== src/Flow/Loop.antt =====
-- The loop tag in packages/harness-core/src/flow-graph.ts: one inner executor run on every item of a
-- collection, or of a directory, one after the other or in chunks.
pub mod Modes
use agentx_platform.Prelude.{
  if◌then◌else◌, or_default, length, take, drop, Text, codes, text_lt, join, Result, ok, throws,
  ◌>>=◌, ℕ, zero, suc, max, ◌⊎◌, inl, inr, Bool, true, false, Option, none, some, List, [], ◌∷◌,
  ◌++◌, map,
}
use agentx_platform.Flow.Values.{
  Value, undefined, null, bool, num, text, func, arr, obj, Items, nil, cons, Host,
}
use agentx_platform.Flow.Expressions.{resolve_value}
use agentx_platform.Flow.State.{
  success, error, rejected, NodeExit, success_exit, error_exit, FlowState, Delta, no_delta,
}
use agentx_platform.Flow.Edges.{collection, directory, LoopMode, sequential, parallel, LoopTag}
use agentx_platform.Flow.Gate.{output_text}

-- The iteration stops with a delta, or goes on with the outputs so far and the last delta.
pub data Progress (N : Type 0) : Type 0 where
  halted : Delta N → Progress N
  going : List Text → Delta N → Progress N

abbrev pub separator : Text
separator = codes "\n---\n"

unfoldable pub is_failure : Option NodeExit → Bool
is_failure none = false
is_failure (some e) = elim e.kind [ success ↦ false | error ↦ true | rejected ↦ true ]

module _ {N : Type 0} where
  -- What one delta does to the loop: the body after the call of the inner executor.
  unfoldable pub absorb : List Text → Delta N → Progress N
  unfolding is_failure
  absorb outputs d =
      if is_failure d.exit_to
      then halted d
      else going (elim d.output_to [ none ↦ outputs | some t ↦ outputs ++ (t ∷ []) ]) d

  unfoldable pub absorb_all : List Text → Delta N → List (Delta N) → Progress N
  unfolding absorb
  absorb_all outputs last [] = going outputs last
  absorb_all outputs last (d ∷ ds) = elim (absorb outputs d) [
    | halted e ↦ halted e
    | going more e ↦ absorb_all more e ds
  ]

  unfoldable pub loop_result : Text → List Text → Delta N → Delta N
  loop_result node_id outputs last = record last {
    output_to = some (join separator outputs);
    exit_to = some (success_exit node_id);
  }

  -- `Promise.all`: the list of answers, or the rejection that comes first, which `first` picks.
  unfoldable pub promise_all :
      (List Text → Text) → List (Result (Delta N)) → Result (List (Delta N))
  promise_all first [] = ok []
  promise_all first (ok d ∷ rs) = do ds ← promise_all first rs; ok (d ∷ ds)
  promise_all first (throws m ∷ rs) = throws (first (m ∷ messages rs))
    where
      messages : List (Result (Delta N)) → List Text
      messages [] = []
      messages (ok d ∷ rs) = messages rs
      messages (throws m ∷ rs) = m ∷ messages rs

-- The inner executor gets the state and the text put in the place of its output; an item that has
-- no JSON text leaves it undefined.
module _ (H : Host) (first : List Text → Text)
    (inner : FlowState H.Num → Option Text → Result (Delta H.Num)) (s : FlowState H.Num)
    (node_id : Text) where
  open H use {Num}

  unfoldable pub run_item : Value Num → Result (Delta Num)
  unfolding output_text
  run_item item = inner s (output_text H item)

  unfoldable pub run_loop_sequential : List Text → Delta Num → List (Value Num) → Result (Delta Num)
  unfolding run_item absorb loop_result
  run_loop_sequential outputs last [] = ok (loop_result node_id outputs last)
  run_loop_sequential outputs last (x ∷ xs) = do
    d ← run_item x
    elim (absorb outputs d) [ halted e ↦ ok e | going more e ↦ run_loop_sequential more e xs ]

  -- Fuel bounds the number of chunks.
  unfoldable pub run_loop_parallel :
      ℕ → ℕ → List Text → Delta Num → List (Value Num) → Result (Delta Num)
  unfolding run_item absorb_all loop_result promise_all
  run_loop_parallel fuel chunk outputs last [] = ok (loop_result node_id outputs last)
  run_loop_parallel zero chunk outputs last (x ∷ xs) = ok (loop_result node_id outputs last)
  run_loop_parallel (suc fuel) chunk outputs last (x ∷ xs) = do
    ds ← promise_all first (map run_item (take chunk (x ∷ xs)))
    elim (absorb_all outputs last ds) [
      | halted e ↦ ok e
      | going more e ↦ run_loop_parallel fuel chunk more e (drop chunk (x ∷ xs))
    ]

  -- The two modes, once the items are known.
  unfoldable pub run_loop : LoopMode → Option ℕ → List (Value Num) → Result (Delta Num)
  unfolding run_loop_sequential run_loop_parallel
  run_loop sequential concurrency items = run_loop_sequential [] no_delta items
  run_loop parallel concurrency items =
      run_loop_parallel (length items) (max 1 (or_default concurrency 4)) [] no_delta items

unfoldable pub insert_text : Text → List Text → List Text
insert_text t [] = t ∷ []
insert_text t (u ∷ us) = if text_lt u t then u ∷ insert_text t us else t ∷ u ∷ us

-- `Array.prototype.sort` on texts.
unfoldable pub sort_texts : List Text → List Text
unfolding insert_text
sort_texts [] = []
sort_texts (t ∷ ts) = insert_text t (sort_texts ts)

unfoldable pub type_of : {N : Type 0} → Value N → Text
type_of undefined = codes "undefined"
type_of null = codes "object"
type_of (bool b) = codes "boolean"
type_of (num n) = codes "number"
type_of (text t) = codes "string"
type_of (func f) = codes "function"
type_of (arr r xs) = codes "object"
type_of (obj r fs) = codes "object"

unfoldable pub items_of : {N : Type 0} → Items N → List (Value N)
items_of nil = []
items_of (cons x xs) = x ∷ items_of xs

module _ (H : Host) where
  open H use {Num}

  unfoldable pub collection_items : Text → Value Num → List (Value Num) ⊎ NodeExit
  unfolding items_of type_of
  collection_items node_id (arr r xs) = inl (items_of xs)
  collection_items node_id v = inr (
      error_exit node_id (codes "LoopPathError")
        (codes "Loop path did not resolve to an array (got " ++ (type_of v ++ codes ")")))

  -- `readdir` and `join` of Node are arguments.
  unfoldable pub directory_items :
      (Text → Result (List Text))
      → (Text → Text → Text)
      → Text
      → Value Num
      → List (Value Num) ⊎ NodeExit
  unfolding sort_texts type_of
  directory_items read_dir path_join node_id (text (c ∷ dir)) = elim (read_dir (c ∷ dir)) [
    | ok entries ↦ inl (map text (sort_texts (map (path_join (c ∷ dir)) entries)))
    | throws m ↦ inr (
        error_exit node_id (codes "LoopDirectoryError")
          (codes "failed to read directory \"" ++ (c ∷ dir) ++ codes "\": " ++ m))
  ]
  directory_items read_dir path_join node_id v = inr (
      error_exit node_id (codes "LoopPathError") (
        codes "Loop directory path did not resolve to a non-empty string (got "
        ++ (type_of v ++ codes ")")))

  unfoldable pub resolve_loop_items :
      (FlowState Num → Value Num)
      → (Text → Result (List Text))
      → (Text → Text → Text)
      → LoopTag Num
      → FlowState Num
      → Text
      → Result (List (Value Num) ⊎ NodeExit)
  unfolding collection_items directory_items
  resolve_loop_items view read_dir path_join tag s node_id = do
    raw ← resolve_value H (view s) tag.path
    elim tag.source [
      | collection ↦ ok (collection_items node_id raw)
      | directory ↦ ok (directory_items read_dir path_join node_id raw)
    ]

  unfoldable pub loop_wrapper :
      (FlowState Num → Value Num)
      → (Text → Result (List Text))
      → (Text → Text → Text)
      → (List Text → Text)
      → Text
      → LoopTag Num
      → (FlowState Num → Option Text → Result (Delta Num))
      → FlowState Num
      → Result (Delta Num)
  unfolding resolve_loop_items run_loop
  loop_wrapper view read_dir path_join first node_id tag inner s = do
    r ← resolve_loop_items view read_dir path_join tag s node_id
    elim r [
      | inr e ↦ ok (record no_delta { exit_to = some e })
      | inl items ↦ run_loop H first inner s node_id tag.mode tag.concurrency items
    ]
