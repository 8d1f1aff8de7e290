-- ===== src/Bindings/Resolve.antt =====
-- How the two resolvers of packages/agent-auth-lib/src/binding-resolver.ts fit together.
use mathlib.Core.List.{append_assoc, append-nil}
use agentx_platform.Prelude.{
  length, Text, Result, ok, throws, Result-cases, ◌+◌, ◌≡◌, refl, sym, ap, ap₂, ◌∙◌, ◌⊎◌, inl, inr,
  List, [], ◌∷◌, ◌++◌, arith,
}
use agentx_platform.Bindings.{
  LlmProvider, ResolvedBinding, try_entry, resolve_loop, resolve_binding_for,
  resolve_all_bindings_for,
}

module _ {C : Type 0} (providers : List LlmProvider) (get_credential : Text → Result C) where
  -- The reasons of the entries that cannot be used.
  abbrev pub reasons : List Text → List Text
  reasons [] = []
  reasons (spec ∷ specs) = elim (try_entry providers get_credential spec) [
    | ok b ↦ reasons specs
    | throws m ↦ m ∷ reasons specs
  ]

  abbrev pub first_or : List Text → List (ResolvedBinding C) → ResolvedBinding C ⊎ List Text
  first_or failures [] = inr failures
  first_or failures (b ∷ bs) = inl b

  step-throws :
      (spec m : Text) (specs : List Text)
      → try_entry providers get_credential spec ≡ throws m
      → (reasons (spec ∷ specs) ≡ m ∷ reasons specs)
        × (resolve_all_bindings_for providers get_credential (spec ∷ specs)
            ≡ resolve_all_bindings_for providers get_credential specs)
  unfolding resolve_all_bindings_for
  step-throws spec m specs e = (rw (e, reasons) refl, rw (e, resolve_all_bindings_for) refl)

  step-ok :
      (spec : Text) (b : ResolvedBinding C) (specs : List Text)
      → try_entry providers get_credential spec ≡ ok b
      → (reasons (spec ∷ specs) ≡ reasons specs)
        × (resolve_all_bindings_for providers get_credential (spec ∷ specs)
            ≡ b ∷ resolve_all_bindings_for providers get_credential specs)
  unfolding resolve_all_bindings_for
  step-ok spec b specs e = (rw (e, reasons) refl, rw (e, resolve_all_bindings_for) refl)

  resolve_loop-first :
      (failures specs : List Text)
      → resolve_loop providers get_credential failures specs
        ≡ first_or
            (failures ++ reasons specs)
            (resolve_all_bindings_for providers get_credential specs)
  unfolding resolve_loop
  resolve_loop-first failures [] =
      unfold resolve_all_bindings_for in ap inr (sym (append-nil failures))
  resolve_loop-first failures (spec ∷ specs) =
      elim (Result-cases (try_entry providers get_credential spec)) [
        | inl (m, e) ↦
            rw (e, resolve_loop)
              (resolve_loop-first (failures ++ m ∷ []) specs
                ∙ ap₂ first_or
                    (append_assoc failures (m ∷ []) (reasons specs)
                      ∙ ap (λ l. failures ++ l) (sym (step-throws spec m specs e).0))
                    (sym (step-throws spec m specs e).1))
        | inr (b, e) ↦
            rw (e, resolve_loop)
              (ap (first_or (failures ++ reasons (spec ∷ specs))) (sym (step-ok spec b specs e).1))
      ]

  counts :
      (specs : List Text)
      → length (reasons specs) + length (resolve_all_bindings_for providers get_credential specs)
        ≡ length specs
  unfolding resolve_all_bindings_for
  counts [] = omega arith
  counts (spec ∷ specs) = elim (Result-cases (try_entry providers get_credential spec)) [
    | inl (m, e) ↦ omega (
      arith,
      counts specs,
      ap length (step-throws spec m specs e).0,
      ap length (step-throws spec m specs e).1,
    )
    | inr (b, e) ↦ omega (
      arith,
      counts specs,
      ap length (step-ok spec b specs e).0,
      ap length (step-ok spec b specs e).1,
    )
  ]

  -- The binding for a list is the first of all its bindings; when there is none, there is an error
  -- with one reason for each entry of the list, in order.
  pub resolve_binding_for-first :
      (accepts : List Text)
      → (resolve_binding_for providers get_credential accepts
          ≡ first_or (reasons accepts) (resolve_all_bindings_for providers get_credential accepts))
        × (length (reasons accepts)
              + length (resolve_all_bindings_for providers get_credential accepts)
            ≡ length accepts)
  unfolding resolve_binding_for
  resolve_binding_for-first accepts = (resolve_loop-first [] accepts, counts accepts)
