-- ===== src/Bindings/Tests.antt =====
-- A small registry of models, and the bindings found in it.
use agentx_platform.Prelude.{
  length, Text, codes, same, has, Result, throws, ◌+◌, ◌≡◌, refl, none, some, List, [], ◌∷◌,
}
use agentx_platform.Bindings.{
  ModelDescriptor, LlmProvider, find_entry, find_binding, resolve_binding_for,
  resolve_all_bindings_for,
}
use agentx_platform.Bindings.Specs.{find_binding-cut}
use agentx_platform.Bindings.Resolve.{reasons, first_or, resolve_binding_for-first}

abbrev chat : ModelDescriptor
chat = record { model_id = codes "qwen3"; vendor_model_id = none }

abbrev gpt : ModelDescriptor
gpt = record { model_id = codes "gpt-4o"; vendor_model_id = none }

abbrev registry : List LlmProvider
registry =
    record { provider_id = codes "openai"; auth_methods = codes "api-key" ∷ []; models = gpt ∷ [] }
    ∷ record { provider_id = codes "local-qwen"; auth_methods = []; models = chat ∷ [] }
    ∷ []

abbrev no_credential : Text → Result Text
no_credential id = throws (codes "no credential")

abbrev wishes : List Text
wishes = codes "openai:gpt-4o" ∷ codes "opencode-cli:local-qwen:qwen3" ∷ []

resolve_binding_for-first_example :
    (resolve_binding_for registry no_credential wishes
      ≡ first_or registry no_credential
          (reasons registry no_credential wishes)
          (resolve_all_bindings_for registry no_credential wishes))
    × (length (reasons registry no_credential wishes)
          + length (resolve_all_bindings_for registry no_credential wishes)
        ≡ 2)
resolve_binding_for-first_example = resolve_binding_for-first registry no_credential wishes

find_binding-cut_example :
    let spec = codes "openai:gpt-4o" in
    (find_binding registry spec ≡ find_entry registry none (codes "openai") (codes "gpt-4o"))
    × (find_binding registry (codes "openai-api:openai:gpt-4o")
        ≡ find_entry registry (some (codes "openai-api")) (codes "openai") (codes "gpt-4o"))
unfolding has same
find_binding-cut_example =
    find_binding-cut registry (codes "openai-api") (codes "openai") (codes "gpt-4o") refl refl
      (refl, (refl, (refl, (refl, (refl, (refl, (refl, tt))))))) refl
