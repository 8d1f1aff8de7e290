-- ===== src/Catalog/Products.antt =====
-- The checks of a catalog with its products in packages/harness-core/src/catalog.ts
-- (validateUnifiedCatalog), and the lookups in a catalog that was accepted.
pub mod Sound
use agentx_platform.Prelude.{
  if◌then◌else◌, Text, codes, has, add, Result, ok, ◌>>◌, ℕ, ◌+◌, not, Option, none, some, List, [],
  ◌++◌,
}
use agentx_platform.Flow.Values.{Value, obj, Items, nil, cons, end, field, Host}
use agentx_platform.Catalog.Shapes.{
  reject_if, only_if, member, is_object, is_array, items_of, is_absent, is_non_empty_text, text_of,
  is_word, each_item, at_index,
}
use agentx_platform.Catalog.Steps.{present_but_not, need_text}
use agentx_platform.Catalog.Flows.{id_of, validate_flow_catalog}

module _ (H : Host) where
  open H use {Num}

  abbrev pub context_source : Text → ℕ → Value Num → Result (Unit {0})
  context_source place j s =
      let spot = at_index (place ++ codes ".contextSources") j in
      reject_if (not (is_object s)) (spot ++ codes " must be an object")
      >> need_text H s spot (codes "type")
      >> need_text H s spot (codes "target")

  abbrev pub text_when_present : Value Num → Text → Text → Result (Unit {0})
  text_when_present value place key =
      reject_if (present_but_not is_non_empty_text (member key value))
        (place ++ codes "." ++ key ++ codes " must be a non-empty string when present")

  abbrev pub name_of : Value Num → Text
  name_of r = text_of (member (codes "name") r)

  -- `place` is that of the product, `names` are the names seen before.
  unfoldable pub repos_loop : Items Num → ℕ → Text → List Text → Result (Unit {0})
  repos_loop nil j place names = ok tt
  repos_loop (cons r rs) j place names =
      let spot = at_index (place ++ codes ".repos") j in
      reject_if (not (is_object r)) (spot ++ codes " must be an object")
      >> need_text H r spot (codes "name")
      >> reject_if (has (name_of r) names)
          (place ++ codes ".repos has duplicate name \"" ++ name_of r ++ codes "\"")
      >> need_text H r spot (codes "cloneUrl")
      >> text_when_present r spot (codes "baseRef")
      >> text_when_present r spot (codes "path")
      >> repos_loop rs (j + 1) place (add (name_of r) names)

  unfoldable pub products_loop : Items Num → ℕ → Text → List Text → Result (Unit {0})
  products_loop nil i path ids = ok tt
  products_loop (cons p ps) i path ids =
      let spot = at_index (path ++ codes ": products") i in
      let sources = member (codes "contextSources") p in
      let repos = member (codes "repos") p in
      reject_if (not (is_object p)) (spot ++ codes " must be an object")
      >> need_text H p spot (codes "id")
      >> reject_if (has (id_of p) ids)
          (path ++ codes ": duplicate product id \"" ++ id_of p ++ codes "\"")
      >> only_if (not (is_absent sources)) (
          reject_if (not (is_array sources))
            (spot ++ codes ".contextSources must be an array if present")
          >> each_item (context_source spot) 0 (items_of sources))
      >> only_if (not (is_absent repos)) (
          reject_if (not (is_array repos)) (spot ++ codes ".repos must be an array if present")
          >> repos_loop (items_of repos) 0 spot [])
      >> products_loop ps (i + 1) path (add (id_of p) ids)

  unfoldable pub validate_unified_catalog : Value Num → Text → Result (Unit {0})
  validate_unified_catalog value path =
      let flows = member (codes "flows") value in
      let products = member (codes "products") value in
      reject_if (not (is_object value)) (path ++ codes ": top-level must be an object")
      >> reject_if (not (is_array flows))
          (path ++ codes ": missing \"flows\" array (use [] for none)")
      >> validate_flow_catalog H (obj 0 (field (codes "flows") flows end)) path
      >> only_if (not (is_absent products)) (
          reject_if (not (is_array products))
            (path ++ codes ": \"products\" must be an array if present")
          >> products_loop (items_of products) 0 path [])

module _ {N : Type 0} where
  -- `findFlow` and `findProduct`: the first item of that id.
  unfoldable pub find_item : Text → Items N → Option (Value N)
  find_item id nil = none
  find_item id (cons x xs) = if is_word id (member (codes "id") x) then some x else find_item id xs
