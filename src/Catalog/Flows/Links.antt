-- ===== src/Catalog/Flows/Links.antt =====
-- What the loop of validateFlow over the edges counts and checks
-- (packages/harness-core/src/catalog.ts).
use agentx_platform.Prelude.{
  if◌then◌else◌, Bool-cases, or_default, Text, same, same→eq, lookup, insert, lookup-insert, ℕ, ◌+◌,
  ◌≡◌, refl, sym, inl, inr, Bool, ◌&&◌, List, [], ◌∷◌, arith,
}
use agentx_platform.Flow.Values.{Value, Items, nil, cons}
use agentx_platform.Catalog.Flows.{
  EdgeCounts, count_at, outgoing, sum_values, source_of, target_of, type_of_edge, count_edge,
}

module _ {N : Type 0} where
  -- How many items pass the test.
  unfoldable pub tally : (Value N → Bool) → Items N → ℕ
  tally p nil = 0
  tally p (cons x xs) = (if p x then 1 else 0) + tally p xs

  abbrev pub AllItems : (Value N → Type 0) → Items N → Type 0
  AllItems P nil = Unit {0}
  AllItems P (cons x xs) = P x × AllItems P xs

  abbrev pub goes_out : Text → Text → Value N → Bool
  goes_out id kind e = same (source_of e) id && same (type_of_edge e) kind

  abbrev pub leaves : Text → Value N → Bool
  leaves id e = same (source_of e) id

  abbrev pub enters : Text → Value N → Bool
  enters id e = same (target_of e) id

abbrev pub leaving : Text → EdgeCounts → ℕ
leaving id s = sum_values (or_default (lookup id s.outgoing_by_type) [])

count_at-insert :
    (k j : Text) (m : List (Text × ℕ))
    → count_at j (insert k (count_at k m + 1) m) ≡ count_at j m + (if same k j then 1 else 0)
count_at-insert k j m = elim (Bool-cases (same k j)) [
  | inl t ↦ rw (lookup-insert k j (count_at k m + 1) m, t, same→eq k j t) refl
  | inr t ↦ rw (lookup-insert k j (count_at k m + 1) m, t) (omega arith)
]

sum_values-insert :
    (k : Text) (m : List (Text × ℕ)) → sum_values (insert k (count_at k m + 1) m) ≡ sum_values m + 1
unfolding insert lookup
sum_values-insert k [] = omega arith
sum_values-insert k ((j, w) ∷ m) = ground (arith, sum_values-insert k m)

module _ {N : Type 0} where
  -- What one more edge changes.
  pub count_edge-outgoing :
      (id kind : Text) (e : Value N) (s : EdgeCounts)
      → outgoing id kind (count_edge e s)
        ≡ outgoing id kind s + (if goes_out id kind e then 1 else 0)
  unfolding count_edge
  count_edge-outgoing id kind e s =
      let m = or_default (lookup (source_of e) s.outgoing_by_type) [] in
      let m' = insert (type_of_edge e) (count_at (type_of_edge e) m + 1) m in
      elim (Bool-cases (same (source_of e) id)) [
        | inl t ↦
            rw
              (
                lookup-insert (source_of e) id m' s.outgoing_by_type,
                t,
                sym (same→eq (source_of e) id t),
              )
              (count_at-insert (type_of_edge e) kind m)
        | inr t ↦ rw (lookup-insert (source_of e) id m' s.outgoing_by_type, t) (omega arith)
      ]

  pub count_edge-leaving :
      (id : Text) (e : Value N) (s : EdgeCounts)
      → leaving id (count_edge e s) ≡ leaving id s + (if leaves id e then 1 else 0)
  unfolding count_edge
  count_edge-leaving id e s =
      let m = or_default (lookup (source_of e) s.outgoing_by_type) [] in
      let m' = insert (type_of_edge e) (count_at (type_of_edge e) m + 1) m in
      elim (Bool-cases (same (source_of e) id)) [
        | inl t ↦
            rw
              (
                lookup-insert (source_of e) id m' s.outgoing_by_type,
                t,
                sym (same→eq (source_of e) id t),
              )
              (sum_values-insert (type_of_edge e) m)
        | inr t ↦ rw (lookup-insert (source_of e) id m' s.outgoing_by_type, t) (omega arith)
      ]

  pub count_edge-incoming :
      (id : Text) (e : Value N) (s : EdgeCounts)
      → count_at id (count_edge e s).incoming_count
        ≡ count_at id s.incoming_count + (if enters id e then 1 else 0)
  unfolding count_edge
  count_edge-incoming id e s = count_at-insert (target_of e) id s.incoming_count
