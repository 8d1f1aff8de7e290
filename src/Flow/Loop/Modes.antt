-- ===== src/Flow/Loop/Modes.antt =====
-- What the two modes of the loop in packages/harness-core/src/flow-graph.ts give.
use mathlib.Core.List.{append_assoc, append-nil}
use agentx_platform.Prelude.{
  or_default, length, take, drop, All, length-drop, take-append-drop, Text, join, Result, ok,
  Returns, ℕ, zero, suc, ◌≤◌, max, ◌≡◌, refl, sym, ap, ◌∙◌, true, false, Option, none, some, List,
  [], ◌∷◌, ◌++◌, map, arith,
}
use agentx_platform.Flow.Values.{Value, Host}
use agentx_platform.Flow.State.{success_exit, FlowState, Delta, no_delta}
use agentx_platform.Flow.Edges.{sequential, parallel}
use agentx_platform.Flow.Loop.{
  Progress, halted, going, separator, is_failure, absorb, absorb_all, loop_result, promise_all,
  run_item, run_loop_sequential, run_loop_parallel, run_loop,
}

-- The texts that deltas write, and the last delta.
abbrev pub texts_of : {N : Type 0} → List (Delta N) → List Text
texts_of [] = []
texts_of (d ∷ ds) = elim d.output_to [ none ↦ texts_of ds | some t ↦ t ∷ texts_of ds ]

abbrev pub last_of : {N : Type 0} → Delta N → List (Delta N) → Delta N
last_of d [] = d
last_of d (e ∷ ds) = last_of e ds

abbrev with_output : {N : Type 0} → List Text → Delta N → List Text
with_output outputs d = elim d.output_to [ none ↦ outputs | some t ↦ outputs ++ (t ∷ []) ]

with_output-append :
    {N : Type 0} (outputs : List Text) (d : Delta N) (ts : List Text)
    → with_output outputs d ++ ts ≡ outputs ++ elim d.output_to [ none ↦ ts | some t ↦ t ∷ ts ]
with_output-append outputs d ts = step d.output_to
  where
    step :
        (o : Option Text)
        → (elim o [ none ↦ outputs | some t ↦ outputs ++ (t ∷ []) ]) ++ ts
          ≡ outputs ++ elim o [ none ↦ ts | some t ↦ t ∷ ts ]
    step none = refl
    step (some t) = append_assoc outputs (t ∷ []) ts

module _ (H : Host) (first : List Text → Text)
    (inner : FlowState H.Num → Option Text → Result (Delta H.Num)) (s : FlowState H.Num)
    (node_id : Text) where
  open H use {Num}

  -- The inner executor answers on every item.
  abbrev pub Answers : List (Value Num) → Type 0
  Answers = All λ x. Returns (run_item H first inner s node_id x)

  abbrev sequence_from : List (Value Num) → Progress Num → Result (Delta Num)
  sequence_from rest (halted e) = ok e
  sequence_from rest (going outputs e) = run_loop_sequential H first inner s node_id outputs e rest

  abbrev ChunkOf : List (Value Num) → List (Delta Num) → Type 0
  ChunkOf xs ds =
      (promise_all first (map (run_item H first inner s node_id) xs) ≡ ok ds)
      × ((outputs : List Text) (last : Delta Num) (rest : List (Value Num))
          → run_loop_sequential H first inner s node_id outputs last (xs ++ rest)
            ≡ sequence_from rest (absorb_all outputs last ds))

  absorb-step :
      (xs rest : List (Value Num)) (ds : List (Delta Num)) (outputs : List Text) (d : Delta Num)
      → ((more : List Text) (e : Delta Num)
          → run_loop_sequential H first inner s node_id more e (xs ++ rest)
            ≡ sequence_from rest (absorb_all more e ds))
      → sequence_from (xs ++ rest) (absorb outputs d)
        ≡ sequence_from rest (absorb_all outputs d (d ∷ ds))
  unfolding absorb_all
  absorb-step xs rest ds outputs d q = step (absorb outputs d)
    where
      step :
          (p : Progress Num)
          → sequence_from (xs ++ rest) p
            ≡ sequence_from rest
                (elim p [ halted e ↦ halted e | going more e ↦ absorb_all more e ds ])
      step (halted e) = refl
      step (going more e) = q more e

  run-step :
      (x : Value Num) (xs : List (Value Num)) (d last : Delta Num) (outputs : List Text)
      → run_item H first inner s node_id x ≡ ok d
      → run_loop_sequential H first inner s node_id outputs last (x ∷ xs)
        ≡ sequence_from xs (absorb outputs d)
  unfolding run_loop_sequential
  run-step x xs d last outputs e = rw (e, run_loop_sequential) (step (absorb outputs d))
    where
      step :
          (p : Progress Num)
          → elim p [
            | halted e ↦ ok e
            | going more e ↦ run_loop_sequential H first inner s node_id more e xs
          ]
            ≡ sequence_from xs p
      step (halted e) = refl
      step (going more e) = refl

  chunk_run : (xs : List (Value Num)) → Answers xs → (ds : List (Delta Num)) × ChunkOf xs ds
  unfolding promise_all absorb_all
  chunk_run [] h = ([], (refl, λ outputs last rest. refl))
  chunk_run (x ∷ xs) ((d, e), h) =
      let (ds, (p, q)) = chunk_run xs h in
      (
        d ∷ ds,
        (
          rw (e, p) refl,
          λ outputs last rest.
              run-step x (xs ++ rest) d last outputs e
              ∙ absorb-step xs rest ds outputs d (λ more e'. q more e' rest),
        ),
      )

  Answers-drop : (n : ℕ) (xs : List (Value Num)) → Answers xs → Answers (drop n xs)
  Answers-drop zero xs h = h
  Answers-drop (suc n) [] h = tt
  Answers-drop (suc n) (x ∷ xs) h = Answers-drop n xs h.1

  Answers-take : (n : ℕ) (xs : List (Value Num)) → Answers xs → Answers (take n xs)
  Answers-take zero xs h = tt
  Answers-take (suc n) [] h = tt
  Answers-take (suc n) (x ∷ xs) h = (h.0, Answers-take n xs h.1)

  parallel-step :
      (fuel chunk : ℕ) (xs : List (Value Num)) (p : Progress Num)
      → ((more : List Text) (e : Delta Num)
          → run_loop_parallel H first inner s node_id fuel chunk more e xs
            ≡ run_loop_sequential H first inner s node_id more e xs)
      → elim p [
        | halted e ↦ ok e
        | going more e ↦ run_loop_parallel H first inner s node_id fuel chunk more e xs
      ]
        ≡ sequence_from xs p
  parallel-step fuel chunk xs (halted e) h = refl
  parallel-step fuel chunk xs (going more e) h = h more e

  parallel-sequential :
      (fuel chunk : ℕ) (outputs : List Text) (last : Delta Num) (items : List (Value Num))
      → 1 ≤ chunk
      → length items ≤ fuel
      → Answers items
      → run_loop_parallel H first inner s node_id fuel chunk outputs last items
        ≡ run_loop_sequential H first inner s node_id outputs last items
  unfolding run_loop_parallel
  parallel-sequential fuel chunk outputs last [] c l h = unfold run_loop_sequential in refl
  parallel-sequential zero chunk outputs last (x ∷ xs) c l h = absurd (omega (arith, l))
  parallel-sequential (suc fuel) chunk outputs last (x ∷ xs) c l h =
      let (ds, (p, q)) = chunk_run (take chunk (x ∷ xs)) (Answers-take chunk (x ∷ xs) h) in
      rw (p, run_loop_parallel)
        (parallel-step fuel chunk (drop chunk (x ∷ xs)) (absorb_all outputs last ds) (λ more e.
            parallel-sequential fuel chunk more e (drop chunk (x ∷ xs)) c
              (omega (arith, l, c, length-drop chunk (x ∷ xs))) (Answers-drop chunk (x ∷ xs) h))
          ∙ sym (q outputs last (drop chunk (x ∷ xs)))
          ∙ ap (run_loop_sequential H first inner s node_id outputs last)
              (take-append-drop chunk (x ∷ xs)))

  -- Where the inner executor does not throw on any item, the parallel mode gives what the
  -- sequential mode gives, for every limit of concurrency.
  pub run_loop-modes :
      (concurrency : Option ℕ) (items : List (Value Num))
      → Answers items
      → run_loop H first inner s node_id parallel concurrency items
        ≡ run_loop H first inner s node_id sequential concurrency items
  unfolding run_loop
  run_loop-modes concurrency items h =
      parallel-sequential (length items) (max 1 (or_default concurrency 4)) [] no_delta items
        (omega arith) (omega arith) h

  -- The inner executor passes on every item of the list, and these are its deltas.
  abbrev pub Passes : List (Value Num) → List (Delta Num) → Type 0
  Passes [] [] = Unit
  Passes (x ∷ xs) (d ∷ ds) =
      (run_item H first inner s node_id x ≡ ok d) × (is_failure d.exit_to ≡ false) × Passes xs ds
  Passes _ _ = ⊥

  run-Passes :
      (xs rest : List (Value Num)) (ds : List (Delta Num)) (outputs : List Text) (last : Delta Num)
      → Passes xs ds
      → run_loop_sequential H first inner s node_id outputs last (xs ++ rest)
        ≡ run_loop_sequential H first inner s node_id
            (outputs ++ texts_of ds)
            (last_of last ds)
            rest
  unfolding absorb
  run-Passes [] rest [] outputs last h =
      ap (λ o. run_loop_sequential H first inner s node_id o last rest) (sym (append-nil outputs))
  run-Passes [] rest (d ∷ ds) outputs last h = absurd h
  run-Passes (x ∷ xs) rest [] outputs last h = absurd h
  run-Passes (x ∷ xs) rest (d ∷ ds) outputs last (e, pass, h) =
      run-step x (xs ++ rest) d last outputs e
      ∙ rw pass (
          run-Passes xs rest ds (with_output outputs d) d h
          ∙ ap (λ o. run_loop_sequential H first inner s node_id o (last_of d ds) rest)
              (with_output-append outputs d (texts_of ds)))

  -- In sequential mode the loop ends at the first item on which the inner executor fails: where the
  -- inner executor passes on the items before it, its delta is what the loop gives, as it is, whatever
  -- items follow.
  pub run_loop-first_failure :
      (concurrency : Option ℕ) (xs ys : List (Value Num)) (x : Value Num)
      → (ds : List (Delta Num)) (d : Delta Num) → Passes xs ds
      → run_item H first inner s node_id x ≡ ok d
      → is_failure d.exit_to ≡ true
      → run_loop H first inner s node_id sequential concurrency (xs ++ (x ∷ ys)) ≡ ok d
  unfolding run_loop absorb
  run_loop-first_failure concurrency xs ys x ds d h e bad =
      run-Passes xs (x ∷ ys) ds [] no_delta h
      ∙ run-step x ys d (last_of no_delta ds) (texts_of ds) e
      ∙ rw bad refl

  -- When the inner executor passes on every item, the loop writes the outputs in the order of the
  -- items, joined by its separator, a success exit of its own node, and otherwise the channels of
  -- the last delta only.
  pub run_loop-outputs :
      (concurrency : Option ℕ) (xs : List (Value Num)) (ds : List (Delta Num))
      → Passes xs ds
      → run_loop H first inner s node_id sequential concurrency xs
        ≡ ok (record (last_of no_delta ds) {
          output_to = some (join separator (texts_of ds));
          exit_to = some (success_exit node_id);
        })
  unfolding run_loop run_loop_sequential loop_result
  run_loop-outputs concurrency xs ds h =
      ap (run_loop_sequential H first inner s node_id [] no_delta) (sym (append-nil xs))
      ∙ run-Passes xs [] ds [] no_delta h
