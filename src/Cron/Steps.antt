-- ===== src/Cron/Steps.antt =====
-- Which numbers one part of a field of a cron expression adds (parseField of
-- packages/edge-context-server/src/cron.ts).
use agentx_platform.Prelude.{
  leb, ◌==◌, leb→le, ==_iff, Bool-cases, or_default, Text, codes, Result, ok, throws, ℕ, zero, suc,
  ◌+◌, ◌-◌, ◌*◌, ◌≤◌, ◌<◌, ◌≡◌, refl, sym, ap, subst, ◌∙◌, ◌⊎◌, inl, inr, Bool, true, false, ◌||◌,
  Option, none, some, List, [], ◌∷◌, ◌++◌, arith,
}
use agentx_platform.Catalog.Shapes.{value_or, >>=-passed}
use agentx_platform.Cron.{
  has_number, include, parse_int, cut, step_of, ends_of, check_ends, part_range, add_steps,
}

-- The value is one that a part of a field stands for: a number of steps from its first value on,
-- and not beyond its last.
pub record Covers (lo hi x : ℕ) (part : Text) : Type 0 where
  pub from : ℕ
  pub to : ℕ
  pub step : ℕ
  pub steps : ℕ
  pub range : part_range lo hi part ≡ ok (from, to, step)
  pub value : x ≡ from + steps * step
  pub up_to : x ≤ to

abbrev pub AnyPart : {A : Type 0} → (A → Type 0) → List A → Type 0
AnyPart P [] = ⊥
AnyPart P (p ∷ ps) = P p ⊎ AnyPart P ps

has_number-append : (x n : ℕ) (s : List ℕ) → has_number x (s ++ n ∷ []) ≡ (has_number x s || n == x)
unfolding has_number
has_number-append x n [] = ground arith
has_number-append x n (m ∷ s) = ground (arith, has_number-append x n s)

has_number-include :
    (x n : ℕ) (s : List ℕ) → has_number x (include n s) ≡ (n == x || has_number x s)
unfolding include
has_number-include x n s = ground (arith, has_number-append x n s, ==_iff n x)

pub add_steps-keeps :
    (fuel v to step : ℕ) (out : List ℕ) (x : ℕ)
    → has_number x out ≡ true
    → has_number x (add_steps fuel v to step out) ≡ true
unfolding add_steps
add_steps-keeps zero v to step out x h = h
add_steps-keeps (suc fuel) v to step out x h = elim (Bool-cases (leb v to)) [
  | inl e ↦
      rw (add_steps, e)
        (add_steps-keeps fuel (v + step) to step (include v out) x
          (ground (arith, has_number-include x v out)))
  | inr e ↦ rw (add_steps, e) h
]

-- The numbers of the loop that are not there before it.
abbrev pub Reached : ℕ → ℕ → ℕ → ℕ → Type 0
Reached v to step x = (k : ℕ) × (x ≡ v + k * step) × (x ≤ to)

suc-times : (k step : ℕ) → suc k * step ≡ step + k * step
suc-times k step = omega arith

add_steps-reached :
    (fuel v to step : ℕ) (out : List ℕ) (x k : ℕ)
    → 0 < step
    → to < v + fuel
    → x ≡ v + k * step
    → x ≤ to
    → has_number x (add_steps fuel v to step out) ≡ true
unfolding add_steps
add_steps-reached zero v to step out x k p f e le = absurd (omega arith)
add_steps-reached (suc fuel) v to step out x zero p f e le = elim (Bool-cases (leb v to)) [
  | inl m ↦
      rw (add_steps, m)
        (add_steps-keeps fuel (v + step) to step (include v out) x
          (ground (arith, has_number-include x v out, ==_iff v x)))
  | inr m ↦ ground arith
]
add_steps-reached (suc fuel) v to step out x (suc k) p f e le =
    let next : x ≡ v + step + k * step = e ∙ omega (arith, suc-times k step) in
    elim (Bool-cases (leb v to)) [
      | inl m ↦
          rw (add_steps, m)
            (add_steps-reached fuel (v + step) to step (include v out) x k p (omega arith) next le)
      | inr m ↦ ground arith
    ]

pub add_steps-only :
    (fuel v to step : ℕ) (out : List ℕ) (x : ℕ)
    → has_number x (add_steps fuel v to step out) ≡ true
    → (has_number x out ≡ true) ⊎ Reached v to step x
unfolding add_steps
add_steps-only zero v to step out x h = inl h
add_steps-only (suc fuel) v to step out x h = elim (Bool-cases (leb v to)) [
  | inr m ↦ inl (rw (add_steps, m) at h)
  | inl m ↦
      later (leb→le v to m)
        (add_steps-only fuel (v + step) to step (include v out) x (rw (add_steps, m) at h))
]
  where
    here :
        v ≤ to
        → (n : Bool) → (v == x) ≡ n
        → (n || has_number x out) ≡ true
        → (has_number x out ≡ true) ⊎ Reached v to step x
    here le true e h = inr (0, ground (arith, ==_iff v x), ground (arith, ==_iff v x))
    here le false e h = inl h

    later :
        v ≤ to
        → (has_number x (include v out) ≡ true) ⊎ Reached (v + step) to step x
        → (has_number x out ≡ true) ⊎ Reached v to step x
    later le (inl g) = here le (v == x) refl (sym (has_number-include x v out) ∙ g)
    later le (inr (k, e, up)) = inr (suc k, e ∙ omega (arith, suc-times k step), up)

step_of-positive : (part : Text) (r : Text × ℕ) → step_of part ≡ ok r → 0 < r.1
unfolding step_of
step_of-positive part r h = pass (cut b'/' part) h
  where
    stepped :
        (body : Text) (n : ℕ)
        → (elim n as (λ _. Result (Text × ℕ)) [
          | zero ↦ throws (codes "invalid step in cron field: " ++ part)
          | suc m ↦ ok (body, suc m)
        ])
          ≡ ok r
        → 0 < r.1
    stepped body zero e = cc
    stepped body (suc m) e = ground arith

    pass :
        (o : Option (Text × Text))
        → (elim o as (λ _. Result (Text × ℕ)) [
          | none ↦ ok (part, 1)
          | some (body, s) ↦ elim (or_default (parse_int s) 0) [
            | zero ↦ throws (codes "invalid step in cron field: " ++ part)
            | suc n ↦ ok (body, suc n)
          ]
        ])
          ≡ ok r
        → 0 < r.1
    pass none e = ground arith
    pass (some (body, s)) e = stepped body (or_default (parse_int s) 0) e

check_ends-checks :
    (lo hi : ℕ) (part : Text) (step : ℕ) (e : ℕ × ℕ) (r : ℕ × ℕ × ℕ)
    → check_ends lo hi part step e ≡ ok r
    → (lo ≤ r.0) × (r.0 ≤ r.1) × (r.1 ≤ hi) × (step ≡ r.2)
unfolding check_ends
check_ends-checks lo hi part step (from, to) r h = ground arith

pub part_range-checks :
    (lo hi : ℕ) (part : Text) (r : ℕ × ℕ × ℕ)
    → part_range lo hi part ≡ ok r
    → (lo ≤ r.0) × (r.0 ≤ r.1) × (r.1 ≤ hi) × (0 < r.2)
unfolding part_range
part_range-checks lo hi part r h =
    let (p, stepped, rest) = >>=-passed (step_of part) _ h in
    let (e, ended, checked) = >>=-passed (ends_of lo hi part p.0) _ rest in
    let (low, ordered, high, same_step) = check_ends-checks lo hi part p.1 e r checked in
    (low, ordered, high, subst (λ s. 0 < s) same_step (step_of-positive part p stepped))

pub Covers-added :
    (lo hi : ℕ) (p : Text) (r : ℕ × ℕ × ℕ) (out : List ℕ) (x : ℕ)
    → part_range lo hi p ≡ ok r
    → Covers lo hi x p
    → has_number x (add_steps (suc (r.1 - r.0)) r.0 r.1 r.2 out) ≡ true
Covers-added lo hi p r out x h c =
    let checks = part_range-checks lo hi p (c.from, c.to, c.step) c.range in
    subst (λ q. has_number x (add_steps (suc (q.1 - q.0)) q.0 q.1 q.2 out) ≡ true)
      (ap (value_or (0, 0, 0)) (sym c.range ∙ h))
      (add_steps-reached (suc (c.to - c.from)) c.from c.to c.step out x c.steps (checks.3)
        (omega (arith, checks.1)) c.value c.up_to)
