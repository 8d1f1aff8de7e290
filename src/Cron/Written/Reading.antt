-- ===== src/Cron/Written/Reading.antt =====
-- What parseField of packages/edge-context-server/src/cron.ts reads from a written field.
use mathlib.Core.List.{append-nil}
use agentx_platform.Prelude.{
  ◌==◌, or_default, All, Text, codes, same, decimal, Without, split-join, Without-append, ok,
  Returns, ℕ, zero, suc, ◌+◌, ◌-◌, ◌*◌, ◌≤◌, ◌<◌, ◌≡◌, refl, sym, ap, subst, ◌∙◌, ◌↔◌, inl, inr,
  true, false, Option, none, some, List, [], ◌∷◌, ◌++◌, map, arith,
}
use agentx_platform.Cron.{
  has_number, parse_int, cut, step_of, up_to_minus, range_of, ends_of, check_ends, part_range,
  add_steps, parse_parts, parse_field,
}
use agentx_platform.Cron.Numbers.{
  parse_int-decimal, decimal-Without, number-not_all, cut-none, cut-append,
}
use agentx_platform.Cron.Steps.{Covers, AnyPart}
use agentx_platform.Cron.Fields.{parse_field-exact}
use agentx_platform.Cron.Written.{
  Values, every, single, span, Part, print_values, print_step, print_part, print_field, first_of,
  final_of, IsGoodPart, Denotes,
}
use agentx_platform.Catalog.Shapes.{value_or}

print_values-Without :
    (sep : ℕ) (v : Values)
    → sep < 48
    → (sep == b'-') ≡ false
    → (sep == b'*') ≡ false
    → Without sep (print_values v)
print_values-Without sep every h m s = (ground arith, tt)
print_values-Without sep (single n) h m s = decimal-Without sep n h
print_values-Without sep (span a b) h m s =
    Without-append sep (decimal a) (b'-' ∷ decimal b) (decimal-Without sep a h)
      (ground arith, decimal-Without sep b h)

print_part-Without : (p : Part) → Without b',' (print_part p)
print_part-Without p =
    Without-append b',' (print_values p.values) (print_step p.every_nth)
      (print_values-Without b',' p.values (omega arith) refl refl) (step p.every_nth)
  where
    step : (o : Option ℕ) → Without b',' (print_step o)
    step none = tt
    step (some n) = (refl, decimal-Without b',' n (omega arith))

print_parts-Without : (ps : List Part) → All (Without b',') (map print_part ps)
print_parts-Without [] = tt
print_parts-Without (p ∷ ps) = (print_part-Without p, print_parts-Without ps)

step_of-plain : (part : Text) → cut b'/' part ≡ none → step_of part ≡ ok (part, 1)
unfolding step_of
step_of-plain part e = rw (e, step_of) refl

step_of-stepped :
    (part body s : Text) (n : ℕ)
    → cut b'/' part ≡ some (body, s)
    → parse_int s ≡ some (suc n)
    → step_of part ≡ ok (body, suc n)
unfolding step_of
step_of-stepped part body s n e number = rw (e, number, step_of) refl

-- The step is read, and the values before it are left.
step_of-print_part :
    (v : Values) (step : Option ℕ)
    → 0 < or_default step 1
    → step_of (print_values v ++ print_step step) ≡ ok (print_values v, or_default step 1)
step_of-print_part v none h =
    ap step_of (append-nil (print_values v))
    ∙ step_of-plain (print_values v)
        (cut-none b'/' (print_values v) (print_values-Without b'/' v (omega arith) refl refl))
step_of-print_part v (some zero) h = absurd (omega arith)
step_of-print_part v (some (suc n)) h =
    step_of-stepped (print_values v ++ (b'/' ∷ decimal (suc n))) (print_values v) (decimal (suc n))
      n
      (cut-append b'/' (print_values v) (decimal (suc n))
        (print_values-Without b'/' v (omega arith) refl refl))
      (parse_int-decimal (suc n))

up_to_minus-decimal : (n : ℕ) → up_to_minus (decimal n) ≡ decimal n
up_to_minus-decimal n =
    rw (cut-none b'-' (decimal n) (decimal-Without b'-' n (omega arith)), up_to_minus) refl

-- The first and the last value are read.
ends_of-print_values :
    (lo hi : ℕ) (part : Text) (v : Values)
    → ends_of lo hi part (print_values v) ≡ ok (first_of lo v, final_of hi v)
unfolding ends_of same range_of
ends_of-print_values lo hi part every = refl
ends_of-print_values lo hi part (single n) =
    let (star, empty) = number-not_all n [] in
    rw
      (
        ap (λ t. same t (codes "*")) (sym (append-nil (decimal n))) ∙ star,
        ap (λ t. same t []) (sym (append-nil (decimal n))) ∙ empty,
        cut-none b'-' (decimal n) (decimal-Without b'-' n (omega arith)),
        parse_int-decimal n,
      )
      refl
ends_of-print_values lo hi part (span a b) =
    let (star, empty) = number-not_all a (b'-' ∷ decimal b) in
    rw
      (
        star,
        empty,
        cut-append b'-' (decimal a) (decimal b) (decimal-Without b'-' a (omega arith)),
        up_to_minus-decimal b,
        parse_int-decimal a,
        parse_int-decimal b,
      )
      refl

part_range-print_part :
    (lo hi : ℕ) (p : Part)
    → IsGoodPart lo hi p
    → part_range lo hi (print_part p)
      ≡ ok (first_of lo p.values, final_of hi p.values, or_default p.every_nth 1)
unfolding part_range check_ends
part_range-print_part lo hi p good =
    rw
      (
        step_of-print_part p.values p.every_nth good.positive,
        ends_of-print_values lo hi (print_part p) p.values,
      )
      (ground (arith, good.low, good.ordered, good.high))

-- A printed part covers what the part stands for.
Covers-print_part :
    (lo hi x : ℕ) (p : Part)
    → IsGoodPart lo hi p
    → Covers lo hi x (print_part p) ↔ Denotes lo hi x p
Covers-print_part lo hi x p good =
    let read = part_range-print_part lo hi p good in
    (
      λ c.
          let same_range = ap (value_or (0, 0, 0)) (sym c.range ∙ read) in
          (
            c.steps,
            c.value ∙ ap (λ r. r.0 + c.steps * r.2) same_range,
            subst (λ r. x ≤ r.1) same_range c.up_to,
          ),
      λ d. record {
        from = first_of lo p.values;
        to = final_of hi p.values;
        step = or_default p.every_nth 1;
        steps = d.0;
        range = read;
        value = d.1;
        up_to = d.2;
      },
    )

AnyPart-print_part :
    (lo hi x : ℕ) (ps : List Part)
    → All (IsGoodPart lo hi) ps
    → AnyPart (Covers lo hi x) (map print_part ps) ↔ AnyPart (Denotes lo hi x) ps
AnyPart-print_part lo hi x [] good = (λ a. a, λ a. a)
AnyPart-print_part lo hi x (p ∷ ps) good =
    let one = Covers-print_part lo hi x p good.0 in
    let more = AnyPart-print_part lo hi x ps good.1 in
    (
      λ a. elim a [ inl c ↦ inl (one.0 c) | inr b ↦ inr (more.0 b) ],
      λ a. elim a [ inl c ↦ inl (one.1 c) | inr b ↦ inr (more.1 b) ],
    )

parse_parts-read :
    (lo hi : ℕ) (ps : List Part) (out : List ℕ)
    → All (IsGoodPart lo hi) ps
    → Returns (parse_parts lo hi (map print_part ps) out)
unfolding parse_parts
parse_parts-read lo hi [] out good = (out, refl)
parse_parts-read lo hi (p ∷ ps) out good = rw (part_range-print_part lo hi p good.0) (
    parse_parts-read lo hi ps
      (add_steps (suc (final_of hi p.values - first_of lo p.values)) (first_of lo p.values)
        (final_of hi p.values) (or_default p.every_nth 1) out)
      good.1)

-- A field is written as parts with commas between them, one at least, and a part as *, as a number,
-- or as two numbers with - between them, all in decimal, then / and a step if it has one. Where the
-- values of each part lie between the bounds, none ends before it begins, and no step is 0, what is
-- written is read, and gives exactly the numbers that one of the parts stands for: those a number of
-- steps (of 1 if it has none) behind its first value and not beyond its last, which for * are the
-- bounds.
pub parse_field-print_field :
    (lo hi : ℕ) (p : Part) (ps : List Part)
    → All (IsGoodPart lo hi) (p ∷ ps)
    → (s : List ℕ) × (parse_field (print_field (p ∷ ps)) lo hi ≡ ok s)
      × ((x : ℕ) → (has_number x s ≡ true) ↔ AnyPart (Denotes lo hi x) (p ∷ ps))
unfolding parse_field
parse_field-print_field lo hi p ps good =
    let parts = split-join b',' (print_part p) (map print_part ps) (print_parts-Without (p ∷ ps)) in
    let (s, read) = parse_parts-read lo hi (p ∷ ps) [] good in
    let found : parse_field (print_field (p ∷ ps)) lo hi ≡ ok s =
      ap (λ ts. parse_parts lo hi ts []) parts ∙ read in
    (
      s,
      found,
      λ x.
          let numbers = parse_field-exact (print_field (p ∷ ps)) lo hi s x found in
          let meant = AnyPart-print_part lo hi x (p ∷ ps) good in
          (
            λ h. meant.0 (subst (AnyPart (Covers lo hi x)) parts (numbers.0 h)),
            λ d. numbers.1 (subst (AnyPart (Covers lo hi x)) (sym parts) (meant.1 d)),
          ),
    )
