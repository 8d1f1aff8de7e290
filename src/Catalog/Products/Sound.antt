-- ===== src/Catalog/Products/Sound.antt =====
-- A catalog that validateUnifiedCatalog of packages/harness-core/src/catalog.ts accepts.
use mathlib.Core.List.{append-nil}
use agentx_platform.Prelude.{
  Text, codes, same, has, add, Distinct, add-fresh, ok, ℕ, ◌+◌, ◌≡◌, refl, sym, ap, subst, ◌∙◌,
  false, List, [], ◌∷◌, ◌++◌, arith,
}
use agentx_platform.Flow.Values.{Value, undefined, obj, Items, nil, cons, end, field, Host}
use agentx_platform.Catalog.Shapes.{own_field, member, items_of, is_absent, at_index}
use agentx_platform.Catalog.Flows.{id_of, validate_flow, flows_loop, validate_flow_catalog}
use agentx_platform.Catalog.Flows.Nodes.{ids_of, append_one, add-Distinct}
use agentx_platform.Catalog.Flows.Links.{AllItems}
use agentx_platform.Catalog.Flows.Sound.{IsSound, validate_flow-IsSound}
use agentx_platform.Catalog.Products.{name_of, repos_loop, products_loop, validate_unified_catalog}

module _ (H : Host) where
  open H use {Num}

  unfoldable pub names_of : Items Num → List Text
  names_of nil = []
  names_of (cons r rs) = name_of H r ∷ names_of rs

  abbrev pub IsSoundFlow : Value Num → Type 0
  IsSoundFlow f =
      IsSound H (items_of (member (codes "nodes") f)) (items_of (member (codes "edges") f))

  -- Its flows can be run, and no id of a flow or product and no name of a repository of one product
  -- is used twice.
  pub record IsSoundCatalog (value : Value Num) : Type 0 where
    pub flows : AllItems IsSoundFlow (items_of (member (codes "flows") value))
    pub flow_ids : Distinct (ids_of (items_of (member (codes "flows") value)))
    pub product_ids : Distinct (ids_of (items_of (member (codes "products") value)))
    pub repo_names :
        AllItems
          (λ p. Distinct (names_of (items_of (member (codes "repos") p))))
          (items_of (member (codes "products") value))

  flows_loop-passed :
      (f : Value Num) (fs : Items Num) (i : ℕ) (path : Text) (ids : List Text)
      → flows_loop H (cons f fs) i path ids ≡ ok tt
      → (validate_flow H f (at_index (path ++ codes ": flows") i) ≡ ok tt)
        × (has (id_of f) ids ≡ false)
        × (flows_loop H fs (i + 1) path (add (id_of f) ids) ≡ ok tt)
  unfolding flows_loop
  flows_loop-passed f fs i path ids h = ground arith

  -- New ids, put behind those before.
  grow :
      (x : Text) (xs ids : List Text)
      → has x ids ≡ false
      → Distinct (add x ids ++ xs)
      → Distinct (ids ++ x ∷ xs)
  grow x xs ids h d = subst Distinct (ap (λ l. l ++ xs) (add-fresh x ids h) ∙ append_one ids xs x) d

  flows_loop-Sound :
      (fs : Items Num) (i : ℕ) (path : Text) (ids : List Text)
      → Distinct ids
      → flows_loop H fs i path ids ≡ ok tt
      → AllItems IsSoundFlow fs × Distinct (ids ++ ids_of fs)
  unfolding ids_of
  flows_loop-Sound nil i path ids d h = (tt, subst Distinct (sym (append-nil ids)) d)
  flows_loop-Sound (cons f fs) i path ids d h =
      let (valid, fresh, rest) = flows_loop-passed f fs i path ids h in
      let (sound, distinct) =
        flows_loop-Sound fs (i + 1) path (add (id_of f) ids) (add-Distinct (id_of f) ids d fresh)
          rest in
      (
        (validate_flow-IsSound H f (at_index (path ++ codes ": flows") i) valid, sound),
        grow (id_of f) (ids_of fs) ids fresh distinct,
      )

  repos_loop-passed :
      (r : Value Num) (rs : Items Num) (j : ℕ) (place : Text) (names : List Text)
      → repos_loop H (cons r rs) j place names ≡ ok tt
      → (has (name_of H r) names ≡ false)
        × (repos_loop H rs (j + 1) place (add (name_of H r) names) ≡ ok tt)
  unfolding repos_loop
  repos_loop-passed r rs j place names h = ground arith

  repos_loop-Distinct :
      (rs : Items Num) (j : ℕ) (place : Text) (names : List Text)
      → Distinct names
      → repos_loop H rs j place names ≡ ok tt
      → Distinct (names ++ names_of rs)
  unfolding names_of
  repos_loop-Distinct nil j place names d h = subst Distinct (sym (append-nil names)) d
  repos_loop-Distinct (cons r rs) j place names d h =
      let (fresh, rest) = repos_loop-passed r rs j place names h in
      grow (name_of H r) (names_of rs) names fresh (
        repos_loop-Distinct rs (j + 1) place (add (name_of H r) names)
          (add-Distinct (name_of H r) names d fresh) rest)

  products_loop-passed :
      (p : Value Num) (ps : Items Num) (i : ℕ) (path : Text) (ids : List Text)
      → products_loop H (cons p ps) i path ids ≡ ok tt
      → (has (id_of p) ids ≡ false)
        × (products_loop H ps (i + 1) path (add (id_of p) ids) ≡ ok tt)
        × (is_absent (member (codes "repos") p) ≡ false
            → repos_loop H
                (items_of (member (codes "repos") p))
                0
                (at_index (path ++ codes ": products") i)
                []
              ≡ ok tt)
  unfolding products_loop
  products_loop-passed p ps i path ids h = (ground arith, ground arith, λ r. ground arith)

  repos-Distinct :
      (v : Value Num) (place : Text)
      → (is_absent v ≡ false → repos_loop H (items_of v) 0 place [] ≡ ok tt)
      → Distinct (names_of (items_of v))
  repos-Distinct undefined place h = unfold names_of in tt
  repos-Distinct v place h = repos_loop-Distinct (items_of v) 0 place [] tt (h refl)

  products_loop-Distinct :
      (ps : Items Num) (i : ℕ) (path : Text) (ids : List Text)
      → Distinct ids
      → products_loop H ps i path ids ≡ ok tt
      → Distinct (ids ++ ids_of ps)
        × AllItems (λ p. Distinct (names_of (items_of (member (codes "repos") p)))) ps
  unfolding ids_of
  products_loop-Distinct nil i path ids d h = (subst Distinct (sym (append-nil ids)) d, tt)
  products_loop-Distinct (cons p ps) i path ids d h =
      let (fresh, rest, repos) = products_loop-passed p ps i path ids h in
      let (distinct, names) =
        products_loop-Distinct ps (i + 1) path (add (id_of p) ids)
          (add-Distinct (id_of p) ids d fresh) rest in
      (
        grow (id_of p) (ids_of ps) ids fresh distinct,
        (
          repos-Distinct (member (codes "repos") p) (at_index (path ++ codes ": products") i) repos,
          names,
        ),
      )

  unified-passed :
      (value : Value Num) (path : Text)
      → validate_unified_catalog H value path ≡ ok tt
      → (validate_flow_catalog H
            (obj 0 (field (codes "flows") (member (codes "flows") value) end))
            path
          ≡ ok tt)
        × (is_absent (member (codes "products") value) ≡ false
            → products_loop H (items_of (member (codes "products") value)) 0 path [] ≡ ok tt)
  unfolding validate_unified_catalog
  unified-passed value path h = (ground arith, λ p. ground arith)

  flow_catalog-passed :
      (v : Value Num) (path : Text)
      → validate_flow_catalog H (obj 0 (field (codes "flows") v end)) path ≡ ok tt
      → flows_loop H (items_of v) 0 path [] ≡ ok tt
  unfolding validate_flow_catalog own_field same
  flow_catalog-passed v path h = ground arith

  products-Distinct :
      (v : Value Num) (path : Text)
      → (is_absent v ≡ false → products_loop H (items_of v) 0 path [] ≡ ok tt)
      → Distinct (ids_of (items_of v))
        × AllItems (λ p. Distinct (names_of (items_of (member (codes "repos") p)))) (items_of v)
  products-Distinct undefined path h = unfold ids_of in (tt, tt)
  products-Distinct v path h = products_loop-Distinct (items_of v) 0 path [] tt (h refl)

  -- In a catalog that is accepted every flow is a graph that can be run, no two flows and no two
  -- products share an id, and no two repositories of one product share a name.
  pub validate_unified_catalog-IsSoundCatalog :
      (value : Value Num) (path : Text)
      → validate_unified_catalog H value path ≡ ok tt
      → IsSoundCatalog value
  validate_unified_catalog-IsSoundCatalog value path h =
      let (catalog, listed) = unified-passed value path h in
      let (sound, ids) =
        flows_loop-Sound (items_of (member (codes "flows") value)) 0 path [] tt
          (flow_catalog-passed (member (codes "flows") value) path catalog) in
      let (products, names) = products-Distinct (member (codes "products") value) path listed in
      record { flows = sound; flow_ids = ids; product_ids = products; repo_names = names }
