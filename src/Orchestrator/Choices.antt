-- ===== src/Orchestrator/Choices.antt =====
-- The list that buildCandidates of packages/harness-core/src/orchestrator.ts makes.
use agentx_platform.Prelude.{
  ltb, Option-cases, or_default, length, All, length-map, Text, lookup, Result, ok, throws, ◌<◌,
  ◌≡◌, refl, sym, subst, inl, inr, Bool, Option, none, some, List, [], ◌∷◌, map, arith,
}
use agentx_platform.Candidates.{Failure, Attempt, answers, AgentCandidate, run_candidates}
use agentx_platform.Orchestrator.{
  Agent, Binding, Resolver, Deps, binding_label, one_shot, of_bindings, of_resolved,
  resolver_candidates, from_accepts, build_candidates,
}

-- There is a candidate, and one may fall back to another exactly if there are several.
abbrev pub IsUsable : List AgentCandidate → Type 0
IsUsable cs =
    (0 < length cs) × All (λ (c : AgentCandidate). c.fallback_eligible ≡ ltb 1 (length cs)) cs

abbrev Usable : Result (List AgentCandidate) → Type 0
Usable (throws m) = Unit
Usable (ok cs) = IsUsable cs

of_bindings-eligible :
    (deps : Deps) (system : Option Text) (input : Text) (b : Bool) (bs : List Binding)
    → All
        (λ (c : AgentCandidate). c.fallback_eligible ≡ b)
        (map
          (λ b'. record {
            label = binding_label b';
            fallback_eligible = b;
            attempt = deps.binding_to_adapter b' system input;
          })
          bs)
of_bindings-eligible deps system input b [] = tt
of_bindings-eligible deps system input b (x ∷ bs) =
    (refl, of_bindings-eligible deps system input b bs)

of_bindings-IsUsable :
    (deps : Deps) (system : Option Text) (input : Text) (b : Binding) (bs : List Binding)
    → IsUsable (of_bindings deps system input (b ∷ bs))
of_bindings-IsUsable deps system input b bs = (
  omega arith,
  subst
      (λ n.
        All (λ (c : AgentCandidate). c.fallback_eligible ≡ ltb 1 n)
          (of_bindings deps system input (b ∷ bs)))
      (sym (
        length-map
          (λ (x : Binding). record {
            label = binding_label x;
            fallback_eligible = ltb 1 (length (b ∷ bs));
            attempt = deps.binding_to_adapter x system input;
          })
          (b ∷ bs)))
      (of_bindings-eligible deps system input (ltb 1 (length (b ∷ bs))) (b ∷ bs)),
)

of_resolved-Usable :
    (deps : Deps) (accepts : List Text) (system : Option Text) (input : Text)
    (r : Result (List Binding))
    → Usable (of_resolved deps accepts system input r)
unfolding of_resolved
of_resolved-Usable deps accepts system input (throws m) = tt
of_resolved-Usable deps accepts system input (ok []) = tt
of_resolved-Usable deps accepts system input (ok (b ∷ bs)) =
    of_bindings-IsUsable deps system input b bs

one_shot-IsUsable : (label : Text) (attempt : Attempt) → IsUsable (one_shot label attempt)
one_shot-IsUsable label attempt = (omega arith, (refl, tt))

from_accepts-Usable :
    (deps : Deps) (agent : Agent) (system : Option Text) (input : Text) (o : Option Resolver)
    (accepts : List Text)
    → Usable (from_accepts deps agent system input o accepts)
unfolding from_accepts resolver_candidates
from_accepts-Usable deps agent system input none accepts = one_shot-IsUsable [] (answers [] [])
from_accepts-Usable deps agent system input (some r) [] = one_shot-IsUsable [] (answers [] [])
from_accepts-Usable deps agent system input (some r) (a ∷ as') = elim (Option-cases r.resolve_all) [
  | inl e ↦ rw (resolver_candidates, e) (one_shot-IsUsable [] (answers [] []))
  | inr (resolve, e) ↦
      rw (resolver_candidates, e)
        (of_resolved-Usable deps (a ∷ as') system input (resolve (a ∷ as')))
]

build_candidates-Usable :
    (deps : Deps) (agent : Agent) (system : Option Text) (input : Text)
    → Usable (build_candidates deps agent system input)
unfolding build_candidates
build_candidates-Usable deps agent system input =
    elim (Option-cases (lookup agent.id deps.prebuilt)) [
      | inl e ↦
          rw (build_candidates, e)
            (from_accepts-Usable deps agent system input deps.resolver
              (or_default agent.accepts []))
      | inr (adapter, e) ↦ rw (build_candidates, e) (one_shot-IsUsable [] (answers [] []))
    ]

no_start :
    (fallback_on : Option (List Text)) (cs : List AgentCandidate) (err err' : Failure) (b b' : Bool)
    → 0 < length cs
    → run_candidates fallback_on cs err b ≡ run_candidates fallback_on cs err' b'
unfolding run_candidates
no_start fallback_on [] err err' b b' h = absurd (omega arith)
no_start fallback_on (c ∷ cs) err err' b b' h = refl

-- When the list of candidates for an agent is made, it is not empty, so that the walk over it never
-- ends in the error that it starts with; and a candidate of it may give way to the next exactly if
-- there are several.
pub build_candidates-IsUsable :
    (deps : Deps) (agent : Agent) (system : Option Text) (input : Text) (cs : List AgentCandidate)
    → build_candidates deps agent system input ≡ ok cs
    → IsUsable cs
      × ((err err' : Failure) (b b' : Bool)
          → run_candidates agent.fallback_on cs err b ≡ run_candidates agent.fallback_on cs err' b')
build_candidates-IsUsable deps agent system input cs h =
    let usable : IsUsable cs = subst Usable h (build_candidates-Usable deps agent system input) in
    (usable, λ err err' b b'. no_start agent.fallback_on cs err err' b b' usable.0)
