-- ===== src/Bindings.antt =====
-- packages/agent-auth-lib/src/provider-registry.ts and binding-resolver.ts: from a list of accepted
-- models to the bindings that can be used. The registry's entries and the credentials are arguments.
pub mod Specs
pub mod Resolve
mod Tests
use agentx_platform.Prelude.{
  ◌==◌, if◌then◌else◌, find, Text, codes, same, has, Result, ok, throws, ℕ, ◌⊎◌, inl, inr, Bool,
  true, false, not, ◌||◌, Option, none, some, List, [], ◌∷◌, ◌++◌,
}

-- Of a model and a provider what the lookup reads.
pub record ModelDescriptor : Type 0 where
  pub model_id : Text
  pub vendor_model_id : Option Text

pub record LlmProvider : Type 0 where
  pub provider_id : Text
  pub auth_methods : List Text
  pub models : List ModelDescriptor

pub record RegistryEntry : Type 0 where
  pub tool : Option Text
  pub provider : LlmProvider
  pub model : ModelDescriptor

-- A binding to a cloud provider carries its credential, a local one has none.
pub record ResolvedBinding (C : Type 0) : Type 0 where
  pub entry : RegistryEntry
  pub credential : Option C

abbrev pub known_tools : List Text
known_tools =
    codes "claude-sdk" ∷ codes "openai-api" ∷ codes "opencode-cli" ∷ codes "copilot-api" ∷ []

-- The text before the first `c` and the text behind it: `indexOf` and `slice`.
unfoldable pub cut : ℕ → Text → Option (Text × Text)
cut c [] = none
cut c (x ∷ s) =
    if x == c then some ([], s) else elim (cut c s) [ none ↦ none | some p ↦ some (x ∷ p.0, p.1) ]

abbrev pub is_empty : Text → Bool
is_empty [] = true
is_empty (c ∷ s) = false

unfoldable pub find_provider : List LlmProvider → Text → Option LlmProvider
find_provider providers id = find (λ p. same p.provider_id id) providers

unfoldable pub find_entry : List LlmProvider → Option Text → Text → Text → Option RegistryEntry
find_entry providers tool provider_id model_id = elim (find_provider providers provider_id) [
  | none ↦ none
  | some p ↦ elim (find (λ m. same m.model_id model_id) p.models) [
    | none ↦ none
    | some m ↦ some (record { tool = tool; provider = p; model = m })
  ]
]

unfoldable pub find_binding : List LlmProvider → Text → Option RegistryEntry
find_binding providers spec = elim (cut b':' spec) [
  | none ↦ none
  | some (first, rest) ↦
      if is_empty first || is_empty rest
      then none
      else if has first known_tools
      then elim (cut b':' rest) [
        | none ↦ none
        | some (provider_id, model_id) ↦
            if is_empty provider_id || is_empty model_id
            then none
            else find_entry providers (some first) provider_id model_id
      ]
      else find_entry providers none first rest
]

module _ {C : Type 0} (providers : List LlmProvider) (get_credential : Text → Result C) where
  -- One entry of the list: a binding, or why there is none. The source has this body twice, in
  -- `resolveBindingFor` and in `resolveAllBindingsFor`, where the reason is not kept.
  unfoldable pub try_entry : Text → Result (ResolvedBinding C)
  try_entry spec = elim (find_binding providers spec) [
    | none ↦ throws (spec ++ codes ": not in registry")
    | some e ↦ elim e.provider.auth_methods [
      | [] ↦ ok (record { entry = e; credential = none })
      | a ∷ as' ↦ elim (get_credential e.provider.provider_id) [
        | ok c ↦ ok (record { entry = e; credential = some c })
        | throws m ↦ throws (spec ++ (codes ": " ++ m))
      ]
    ]
  ]

  -- The loop of `resolveBindingFor`; the error carries one reason for each entry.
  unfoldable pub resolve_loop : List Text → List Text → ResolvedBinding C ⊎ List Text
  resolve_loop failures [] = inr failures
  resolve_loop failures (spec ∷ specs) = elim (try_entry spec) [
    | ok b ↦ inl b
    | throws m ↦ resolve_loop (failures ++ (m ∷ [])) specs
  ]

  unfoldable pub resolve_binding_for : List Text → ResolvedBinding C ⊎ List Text
  resolve_binding_for accepts = resolve_loop [] accepts

  unfoldable pub resolve_all_bindings_for : List Text → List (ResolvedBinding C)
  resolve_all_bindings_for [] = []
  resolve_all_bindings_for (spec ∷ specs) =
      let rest = resolve_all_bindings_for specs in
      elim (try_entry spec) [ ok b ↦ b ∷ rest | throws m ↦ rest ]
