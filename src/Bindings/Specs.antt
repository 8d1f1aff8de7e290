-- ===== src/Bindings/Specs.antt =====
-- The specifications of bindings that packages/agent-auth-lib/src/provider-registry.ts reads.
use mathlib.Core.Bool.{false≢true}
use agentx_platform.Prelude.{
  ◌==◌, Bool-cases, All, Text, same, same→eq, Without, has, ℕ, ◌≡◌, refl, sym, subst, inl, inr,
  true, false, none, some, List, [], ◌∷◌, ◌++◌, arith,
}
use agentx_platform.Bindings.{LlmProvider, known_tools, cut, is_empty, find_entry, find_binding}

cut-append : (c : ℕ) (s t : Text) → Without c s → cut c (s ++ (c ∷ t)) ≡ some (s, t)
unfolding cut
cut-append c [] t h = rw (own c) refl
  where
    own : (c : ℕ) → (c == c) ≡ true
    own c = ground arith
cut-append c (x ∷ s) t h = rw (h.0, cut-append c s t h.1) refl

-- A name that can stand in front of a colon.
abbrev pub IsName : Text → Type 0
IsName s = (is_empty s ≡ false) × Without b':' s

has-All : (P : Text → Type 0) (k : Text) (l : List Text) → All P l → has k l ≡ true → P k
unfolding has
has-All P k [] a h = absurd (false≢true h)
has-All P k (x ∷ l) a h = elim (Bool-cases (same x k)) [
  | inl e ↦ subst P (same→eq x k e) a.0
  | inr e ↦ has-All P k l a.1 (rw e at h)
]

known_tools-IsName : All IsName known_tools
known_tools-IsName = (
  (refl, (refl, (refl, (refl, (refl, (refl, (refl, (refl, (refl, (refl, (refl, tt))))))))))),
  (
    (refl, (refl, (refl, (refl, (refl, (refl, (refl, (refl, (refl, (refl, (refl, tt))))))))))),
    (
      (
        refl,
        (
          refl,
          (
            refl,
            (refl, (refl, (refl, (refl, (refl, (refl, (refl, (refl, (refl, (refl, tt)))))))))),
          ),
        ),
      ),
      (
        (
          refl,
          (
            refl,
            (refl, (refl, (refl, (refl, (refl, (refl, (refl, (refl, (refl, (refl, tt)))))))))),
          ),
        ),
        tt,
      ),
    ),
  ),
)

-- A provider and a model, written with a colon between them, and with the name of a known tool in
-- front or not, are looked up as they were written: the model may hold colons, the provider's name
-- holds none and is not that of a tool.
pub find_binding-cut :
    (providers : List LlmProvider) (tool provider_id model_id : Text)
    → has tool known_tools ≡ true
    → has provider_id known_tools ≡ false
    → IsName provider_id
    → is_empty model_id ≡ false
    → let spec = provider_id ++ (b':' ∷ model_id) in
      (find_binding providers spec ≡ find_entry providers none provider_id model_id)
      × (find_binding providers (tool ++ (b':' ∷ spec))
          ≡ find_entry providers (some tool) provider_id model_id)
unfolding find_binding
find_binding-cut providers tool provider_id model_id known other name model =
    let is_tool = has-All IsName tool known_tools known_tools-IsName known in
    (
      rw (cut-append b':' provider_id model_id name.1, find_binding, name.0, model, other) refl,
      rw
          (
            cut-append b':' tool (provider_id ++ (b':' ∷ model_id)) is_tool.1,
            find_binding,
            is_tool.0,
            not_empty provider_id (b':' ∷ model_id) name.0,
            known,
            cut-append b':' provider_id model_id name.1,
            name.0,
            model,
          )
          refl,
    )
  where
    not_empty : (s t : Text) → is_empty s ≡ false → is_empty (s ++ t) ≡ false
    not_empty [] t h = absurd (false≢true (sym h))
    not_empty (c ∷ s) t h = refl
