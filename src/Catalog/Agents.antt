-- ===== src/Catalog/Agents.antt =====
-- The checks of agents in packages/harness-core/src/catalog.ts (validateAgentDef and what it calls),
-- and resolveAccepts.
pub mod Accepts
use agentx_platform.Prelude.{
  ◌==◌, if◌then◌else◌, Text, codes, join, has, add, Result, ok, throws, ◌>>◌, ℕ, Bool, true, false,
  not, ◌||◌, List, [], ◌∷◌, ◌++◌,
}
use agentx_platform.Flow.Values.{
  Value, undefined, null, bool, num, text, func, arr, obj, Items, Fields, end, field, Host, truthy,
  object_get,
}
use agentx_platform.Catalog.Shapes.{
  reject_if, only_if, fields_of, member, is_object, is_array, items_of, is_absent,
  is_non_empty_text, is_text, text_of, is_word, each_item, at_index,
}

abbrev pub valid_fallback_error_names : List Text
valid_fallback_error_names =
    codes "AdapterError"
    ∷ codes "AuthError"
    ∷ codes "BillingError"
    ∷ codes "RateLimitError"
    ∷ codes "ConfigError"
    ∷ codes "NetworkError"
    ∷ codes "ProviderError"
    ∷ []

abbrev pub skillz_keys : List Text
skillz_keys =
    codes "routers" ∷ codes "tools" ∷ codes "integrations" ∷ codes "tasks" ∷ codes "workflows" ∷ []

-- `typeof value`.
abbrev pub type_of : {N : Type 0} → Value N → Text
type_of undefined = codes "undefined"
type_of null = codes "object"
type_of (bool b) = codes "boolean"
type_of (num n) = codes "number"
type_of (text s) = codes "string"
type_of (func f) = codes "function"
type_of (arr r xs) = codes "object"
type_of (obj r fs) = codes "object"

abbrev pub is_blank : Text → Bool
is_blank [] = true
is_blank (c ∷ s) = false

-- From a text that begins after the first code unit: no colon, or one at the very end.
unfoldable pub lacks_model : Text → Bool
lacks_model [] = true
lacks_model (d ∷ r) = if d == b':' then is_blank r else lacks_model r

-- `colon <= 0 || colon === entry.length - 1` for the index of the first colon.
unfoldable pub lacks_half : Text → Bool
unfolding lacks_model
lacks_half [] = true
lacks_half (c ∷ s) = (c == b':') || lacks_model s

module _ {N : Type 0} where
  abbrev pub accepts_entry : Text → ℕ → Value N → Result (Unit {0})
  accepts_entry place k entry =
      reject_if (not (is_non_empty_text entry))
        (at_index place k ++ codes " must be a non-empty string")
      >> reject_if (lacks_half (text_of entry)) (
          at_index place k
          ++ codes
              " must be of the form \"<provider>:<model>\" or \"<tool>:<provider>:<model>\" (got \""
          ++ text_of entry
          ++ codes "\")")

  unfoldable pub validate_accepts_list : Items N → Text → Result (Unit {0})
  validate_accepts_list xs place = each_item (accepts_entry place) 0 xs

  -- The loop over the named sets.
  unfoldable pub accepts_sets : Fields N → Text → Result (Unit {0})
  accepts_sets end place = ok tt
  accepts_sets (field name list rest) place =
      reject_if (is_blank name) (place ++ codes " has an empty set name")
      >> reject_if (not (is_array list)) (
          place
          ++ codes "[\""
          ++ name
          ++ codes "\"] must be an array of \"<provider>:<model>\" strings")
      >> validate_accepts_list (items_of list) (place ++ codes "[\"" ++ name ++ codes "\"]")
      >> accepts_sets rest place

  unfoldable pub validate_accepts_field : Value N → Text → Result (Unit {0})
  validate_accepts_field (arr r xs) place = validate_accepts_list xs place
  validate_accepts_field (obj r end) place =
      throws (place ++ codes " must declare at least one set (got an empty object)")
  validate_accepts_field (obj r (field name list rest)) place =
      accepts_sets (field name list rest) place
  validate_accepts_field _ place = throws (
      place
      ++ codes
          " must be an array of \"<provider>:<model>\" strings OR an object mapping set name → array of those strings")

  abbrev pub fallback_entry : Text → ℕ → Value N → Result (Unit {0})
  fallback_entry place k entry =
      reject_if (not (is_non_empty_text entry))
        (at_index place k ++ codes " must be a non-empty string")
      >> reject_if (not (has (text_of entry) valid_fallback_error_names)) (
          at_index place k
          ++ codes " = \""
          ++ text_of entry
          ++ codes
              "\" is not a known AdapterError subclass. Valid: AdapterError, AuthError, BillingError, ConfigError, NetworkError, ProviderError, RateLimitError")

  unfoldable pub validate_fallback_on_field : Value N → Text → Result (Unit {0})
  validate_fallback_on_field value place =
      reject_if (not (is_array value)) (
        place
        ++ codes
            " must be an array of AdapterError subclass names (e.g., [\"BillingError\", \"RateLimitError\"]) — got "
        ++ type_of value)
      >> each_item (fallback_entry place) 0 (items_of value)

  abbrev pub slug : Text → Text → ℕ → Value N → Result (Unit {0})
  slug place key k v =
      reject_if (not (is_non_empty_text v))
        (at_index (place ++ codes "." ++ key) k ++ codes " must be a non-empty string")

  -- The loop over the keys.
  unfoldable pub skillz_lists : Fields N → Text → Result (Unit {0})
  skillz_lists end place = ok tt
  skillz_lists (field key list rest) place =
      reject_if (not (has key skillz_keys)) (
        place
        ++ codes " has unknown key \""
        ++ key
        ++ codes "\"; allowed: routers, tools, integrations, tasks, workflows")
      >> only_if (not (is_absent list)) (
          reject_if (not (is_array list))
            (place ++ codes "." ++ key ++ codes " must be an array of strings")
          >> each_item (slug place key) 0 (items_of list))
      >> skillz_lists rest place

  abbrev pub is_plain_object : Value N → Bool
  is_plain_object (obj r fs) = true
  is_plain_object _ = false

  unfoldable pub validate_skillz_field : Value N → Text → Result (Unit {0})
  validate_skillz_field value place =
      reject_if (not (is_plain_object value)) (place ++ codes " must be an object")
      >> skillz_lists (fields_of value) place

  -- The ids seen before are given, and those seen after returned.
  unfoldable pub validate_agent_def : Value N → Text → List Text → Result (List Text)
  validate_agent_def value place agent_ids =
      let agent = λ (key : Text). member key value in
      reject_if (not (is_object value)) (place ++ codes " must be an object")
      >> reject_if (not (is_non_empty_text (agent (codes "id"))))
          (place ++ codes ".id must be a non-empty string")
      >> reject_if (has (text_of (agent (codes "id"))) agent_ids) (
          place ++ codes " has duplicate agent id \"" ++ text_of (agent (codes "id")) ++ codes "\"")
      >> reject_if (not (is_non_empty_text (agent (codes "role"))))
          (place ++ codes ".role must be a non-empty string")
      >> reject_if
          (not (
            is_word (codes "claude-sdk") (agent (codes "adapter"))
            || is_word (codes "opencode-cli") (agent (codes "adapter"))))
          (place ++ codes ".adapter must be \"claude-sdk\" or \"opencode-cli\"")
      >> reject_if
          (not (is_absent (agent (codes "systemPrompt")) || is_text (agent (codes "systemPrompt"))))
          (place ++ codes ".systemPrompt must be a string")
      >> only_if (not (is_absent (agent (codes "accepts"))))
          (validate_accepts_field (agent (codes "accepts")) (place ++ codes ".accepts"))
      >> only_if (not (is_absent (agent (codes "fallbackOn"))))
          (validate_fallback_on_field (agent (codes "fallbackOn")) (place ++ codes ".fallbackOn"))
      >> only_if (not (is_absent (agent (codes "skillz"))))
          (validate_skillz_field (agent (codes "skillz")) (place ++ codes ".skillz"))
      >> ok (add (text_of (agent (codes "id"))) agent_ids)

module _ (H : Host) where
  open H use {Num}

  -- `value ?? other`.
  abbrev pub or_else : Value Num → Value Num → Value Num
  or_else undefined w = w
  or_else null w = w
  or_else v w = v

  unfoldable pub set_names : Fields Num → List Text
  set_names end = []
  set_names (field name list rest) = name ∷ set_names rest

  -- The member of that name may be inherited.
  unfoldable pub resolve_accepts : Text → Value Num → Text → Result (Value Num)
  resolve_accepts agent_id undefined set_name = ok undefined
  resolve_accepts agent_id (arr r xs) set_name = ok (arr r xs)
  resolve_accepts agent_id accepts set_name =
      let sets = fields_of accepts in
      let picked = or_else (object_get H set_name sets) (object_get H (codes "default") sets) in
      if truthy H picked
      then ok picked
      else throws (
          codes "agent \""
          ++ agent_id
          ++ codes "\" has no \""
          ++ set_name
          ++ codes "\" set and no \"default\" set (declared sets: "
          ++ join (codes ", ") (set_names sets)
          ++ codes ")")
