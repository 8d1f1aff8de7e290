-- ===== src/Cron/Fields.antt =====
-- Which numbers the fields of a cron expression hold (parseField of
-- packages/edge-context-server/src/cron.ts).
use agentx_platform.Prelude.{
  Text, split, ok, ℕ, suc, ◌-◌, ◌≡◌, sym, ap, subst, ◌↔◌, ◌⊎◌, inl, inr, true, List, [], ◌∷◌,
}
use agentx_platform.Catalog.Shapes.{value_or, >>=-passed}
use agentx_platform.Cron.{has_number, part_range, add_steps, parse_parts, parse_field}
use agentx_platform.Cron.Steps.{
  Covers, AnyPart, add_steps-keeps, Reached, add_steps-only, Covers-added,
}

one_more :
    (lo hi : ℕ) (p : Text) (ps : List Text) (out s : List ℕ) (x : ℕ) (r : ℕ × ℕ × ℕ)
    → part_range lo hi p ≡ ok r
    → (has_number x s ≡ true) ↔ (
        (has_number x (add_steps (suc (r.1 - r.0)) r.0 r.1 r.2 out) ≡ true)
        ⊎ AnyPart (Covers lo hi x) ps)
    → (has_number x s ≡ true) ↔ ((has_number x out ≡ true) ⊎ AnyPart (Covers lo hi x) (p ∷ ps))
one_more lo hi p ps out s x r ranged ih = (λ g. forward (ih.0 g), λ c. ih.1 (backward c))
  where
    added : List ℕ
    added = add_steps (suc (r.1 - r.0)) r.0 r.1 r.2 out

    fresh :
        (has_number x out ≡ true) ⊎ Reached r.0 r.1 r.2 x
        → (has_number x out ≡ true) ⊎ AnyPart (Covers lo hi x) (p ∷ ps)
    fresh (inl o) = inl o
    fresh (inr (k, e, up)) = inr (
        inl (record {
          from = r.0;
          to = r.1;
          step = r.2;
          steps = k;
          range = ranged;
          value = e;
          up_to = up;
        }))

    forward :
        (has_number x added ≡ true) ⊎ AnyPart (Covers lo hi x) ps
        → (has_number x out ≡ true) ⊎ AnyPart (Covers lo hi x) (p ∷ ps)
    forward (inl g) = fresh (add_steps-only (suc (r.1 - r.0)) r.0 r.1 r.2 out x g)
    forward (inr a) = inr (inr a)

    backward :
        (has_number x out ≡ true) ⊎ AnyPart (Covers lo hi x) (p ∷ ps)
        → (has_number x added ≡ true) ⊎ AnyPart (Covers lo hi x) ps
    backward (inl o) = inl (add_steps-keeps (suc (r.1 - r.0)) r.0 r.1 r.2 out x o)
    backward (inr (inl c)) = inl (Covers-added lo hi p r out x ranged c)
    backward (inr (inr a)) = inr a

parse_parts-exact :
    (lo hi : ℕ) (ps : List Text) (out s : List ℕ) (x : ℕ)
    → parse_parts lo hi ps out ≡ ok s
    → (has_number x s ≡ true) ↔ ((has_number x out ≡ true) ⊎ AnyPart (Covers lo hi x) ps)
unfolding parse_parts
parse_parts-exact lo hi [] out s x h =
    let same_set : out ≡ s = ap (value_or []) h in
    (
      λ g. inl (subst (λ l. has_number x l ≡ true) (sym same_set) g),
      λ c. elim c [ inl g ↦ subst (λ l. has_number x l ≡ true) same_set g | inr f ↦ absurd f ],
    )
parse_parts-exact lo hi (p ∷ ps) out s x h =
    let (r, ranged, rest) = >>=-passed (part_range lo hi p) _ h in
    one_more lo hi p ps out s x r ranged
      (parse_parts-exact lo hi ps (add_steps (suc (r.1 - r.0)) r.0 r.1 r.2 out) s x rest)

-- When a field can be read, it holds exactly the numbers that one of its parts, between the commas,
-- stands for.
pub parse_field-exact :
    (field : Text) (lo hi : ℕ) (s : List ℕ) (x : ℕ)
    → parse_field field lo hi ≡ ok s
    → (has_number x s ≡ true) ↔ AnyPart (Covers lo hi x) (split b',' field)
unfolding parse_field
parse_field-exact field lo hi s x h =
    let both = parse_parts-exact lo hi (split b',' field) [] s x h in
    (λ g. elim (both.0 g) [ inl f ↦ cc | inr a ↦ a ], λ a. both.1 (inr a))
