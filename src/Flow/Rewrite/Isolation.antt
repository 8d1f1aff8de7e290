-- ===== src/Flow/Rewrite/Isolation.antt =====
-- What the rewriting of packages/harness-core/src/flow-graph.ts does to a tagged node.
use mathlib.Core.Bool.{false≢true}
use agentx_platform.Prelude.{
  Bool-cases, Option-cases, is_some, keep, find, any, Text, same, same_refl, same→eq, has, Distinct,
  ◌≡◌, refl, sym, ap, subst, ◌∙◌, ◌⊎◌, inl, inr, Bool, true, false, none, some, List, [], ◌∷◌, ◌++◌,
  map, arith,
}
use agentx_platform.Flow.Edges.{Edge, LoopTag, TaskStep, FlowDef}
use agentx_platform.Flow.Rewrite.{
  synthetic_of, new_nodes, renames, interrupt_edges, redirect, rewrite_flow, wrap_with_tags,
}

module _ {N : Type 0} where
  abbrev pub ids : List (TaskStep N) → List Text
  ids = map λ n. n.id

  abbrev pub Occurs : TaskStep N → List (TaskStep N) → Type 0
  Occurs n [] = ⊥
  Occurs n (m ∷ ms) = (m ≡ n) ⊎ Occurs n ms

  -- The edges that leave a node.
  unfoldable pub outgoing : Text → List (Edge N) → List (Edge N)
  outgoing k es = keep (λ e. same e.source k) es

  pub new_nodes-some :
      (n i : TaskStep N) (ns : List (TaskStep N))
      → synthetic_of n ≡ some i
      → new_nodes (n ∷ ns) ≡ record n { tags = none } ∷ i ∷ new_nodes ns
  unfolding new_nodes
  new_nodes-some n i ns h = rw (h, new_nodes) refl

  pub new_nodes-none :
      (n : TaskStep N) (ns : List (TaskStep N))
      → synthetic_of n ≡ none
      → new_nodes (n ∷ ns) ≡ n ∷ new_nodes ns
  unfolding new_nodes
  new_nodes-none n ns h = rw (h, new_nodes) refl

  pub Occurs-new_nodes :
      (n i : TaskStep N) (ns : List (TaskStep N))
      → Occurs n ns
      → synthetic_of n ≡ some i
      → Occurs (record n { tags = none }) (new_nodes ns) × Occurs i (new_nodes ns)
  Occurs-new_nodes n i [] o h = absurd o
  Occurs-new_nodes n i (m ∷ ms) (inl e) h =
      rw (new_nodes-some m i ms (ap synthetic_of e ∙ h))
        (inl (ap (λ (t : TaskStep N). record t { tags = none }) e), inr (inl refl))
  Occurs-new_nodes n i (m ∷ ms) (inr o) h =
      let (a, b) = Occurs-new_nodes n i ms o h in
      elim (Option-cases (synthetic_of m)) [
        | inl e ↦ rw (new_nodes-none m ms e) (inr a, inr b)
        | inr (j, e) ↦ rw (new_nodes-some m j ms e) (inr (inr a), inr (inr b))
      ]

  pub has-Occurs :
      (n : TaskStep N) (ns : List (TaskStep N)) → Occurs n ns → has n.id (ids ns) ≡ true
  unfolding has
  has-Occurs n [] o = absurd o
  has-Occurs n (m ∷ ms) (inl e) =
      rw (ap (λ (t : TaskStep N). same t.id n.id) e, same_refl n.id) refl
  has-Occurs n (m ∷ ms) (inr o) = ground (arith, has-Occurs n ms o)

  -- Among nodes of different ids a node is found by its id.
  pub find-Occurs :
      (n : TaskStep N) (ns : List (TaskStep N))
      → Distinct (ids ns)
      → Occurs n ns
      → find (λ m. same m.id n.id) ns ≡ some n
  find-Occurs n [] d o = absurd o
  find-Occurs n (m ∷ ms) d (inl e) =
      rw (ap (λ (t : TaskStep N). same t.id n.id) e, same_refl n.id) (ap some e)
  find-Occurs n (m ∷ ms) d (inr o) =
      rw (different (Bool-cases (same m.id n.id))) (find-Occurs n ms d.1 o)
    where
      different : (same m.id n.id ≡ true) ⊎ (same m.id n.id ≡ false) → same m.id n.id ≡ false
      different (inr no') = no'
      different (inl eq) = absurd (
          false≢true
            (sym d.0 ∙ ap (λ k. has k (ids ms)) (same→eq m.id n.id eq) ∙ has-Occurs n ms o))

  any-Occurs :
      (p : TaskStep N → Bool) (n : TaskStep N) (ns : List (TaskStep N))
      → Occurs n ns
      → p n ≡ true
      → any p ns ≡ true
  any-Occurs p n [] o h = absurd o
  any-Occurs p n (m ∷ ms) (inl e) h = rw (ap p e ∙ h) refl
  any-Occurs p n (m ∷ ms) (inr o) h = ground (arith, any-Occurs p n ms o h)

  pub rewrite_flow-tagged :
      (f : FlowDef N) (n i : TaskStep N)
      → Occurs n f.nodes
      → synthetic_of n ≡ some i
      → rewrite_flow f ≡ record f {
        nodes = new_nodes f.nodes;
        edges =
            interrupt_edges (renames [] f.nodes) f.nodes
            ++ map (redirect (renames [] f.nodes)) f.edges;
      }
  unfolding rewrite_flow
  rewrite_flow-tagged f n i o h =
      rw (any-Occurs (λ m. is_some (synthetic_of m)) n f.nodes o (ap is_some h)) refl

  -- In the rewritten flow, whose node ids are different, a node with an approval or suspend tag
  -- stands with no tags at all; so it runs once, by its bare executor, whatever its loop tag says.
  pub rewrite_flow-drops_loop {ℓ} :
      {Executor : Type ℓ}
      → (loop_wrapper : Text → LoopTag N → Executor → Executor) → (exec : Executor)
      → (f : FlowDef N) (n i : TaskStep N) → Occurs n f.nodes
      → synthetic_of n ≡ some i
      → Distinct (ids (rewrite_flow f).nodes)
      → (find (λ m. same m.id n.id) (rewrite_flow f).nodes ≡ some (record n { tags = none }))
        × (wrap_with_tags loop_wrapper (record n { tags = none }) exec ≡ exec)
  rewrite_flow-drops_loop loop_wrapper exec f n i o h d =
      let e = rewrite_flow-tagged f n i o h in
      (
        rw e (
            find-Occurs (record n { tags = none }) (new_nodes f.nodes)
              (subst (λ (g : FlowDef N). Distinct (ids g.nodes)) e d)
              (Occurs-new_nodes n i f.nodes o h).0),
        unfold wrap_with_tags in refl,
      )
