-- ===== src/Cron/Ranges.antt =====
-- The ranges of the numbers of a cron expression (parseCron of
-- packages/edge-context-server/src/cron.ts).
use agentx_platform.Prelude.{
  ==_iff, All, Text, split, ok, ℕ, ◌≤◌, ◌≡◌, ap, subst, inl, inr, true, List, [], ◌∷◌, arith,
}
use agentx_platform.Catalog.Shapes.{value_or, >>=-passed}
use agentx_platform.Cron.{
  ParsedCron, has_number, parts_of, parse_field, parse_five, parse_words, parse_cron,
}
use agentx_platform.Cron.Steps.{Covers, AnyPart, part_range-checks}
use agentx_platform.Cron.Fields.{parse_field-exact}

Covers-bounds : (lo hi x : ℕ) (p : Text) → Covers lo hi x p → (lo ≤ x) × (x ≤ hi)
Covers-bounds lo hi x p c =
    let (low, ordered, high, positive) = part_range-checks lo hi p (c.from, c.to, c.step) c.range in
    (omega (arith, c.value), omega (arith, c.up_to))

parts-bounds : (lo hi x : ℕ) (ps : List Text) → AnyPart (Covers lo hi x) ps → (lo ≤ x) × (x ≤ hi)
parts-bounds lo hi x [] a = absurd a
parts-bounds lo hi x (p ∷ ps) (inl c) = Covers-bounds lo hi x p c
parts-bounds lo hi x (p ∷ ps) (inr a) = parts-bounds lo hi x ps a

abbrev pub Within : ℕ → ℕ → List ℕ → Type 0
Within lo hi s = All (λ x. (lo ≤ x) × (x ≤ hi)) s

has_number-head : (x : ℕ) (s : List ℕ) → has_number x (x ∷ s) ≡ true
unfolding has_number
has_number-head x s = ground (arith, ==_iff x x)

has_number-tail : (x y : ℕ) (s : List ℕ) → has_number y s ≡ true → has_number y (x ∷ s) ≡ true
unfolding has_number
has_number-tail x y s h = ground arith

within :
    (lo hi : ℕ) (s : List ℕ)
    → ((x : ℕ) → has_number x s ≡ true → (lo ≤ x) × (x ≤ hi))
    → Within lo hi s
within lo hi [] h = tt
within lo hi (x ∷ s) h =
    (h x (has_number-head x s), within lo hi s (λ y g. h y (has_number-tail x y s g)))

parse_field-Within :
    (field : Text) (lo hi : ℕ) (s : List ℕ) → parse_field field lo hi ≡ ok s → Within lo hi s
parse_field-Within field lo hi s h =
    within lo hi s
      (λ x g. parts-bounds lo hi x (split b',' field) ((parse_field-exact field lo hi s x h).0 g))

pub record IsInRange (p : ParsedCron) : Type 0 where
  pub minute : Within 0 59 p.minute
  pub hour : Within 0 23 p.hour
  pub dom : Within 1 31 p.dom
  pub month : Within 1 12 p.month
  pub dow : Within 0 6 p.dow

parse_five-IsInRange :
    (a b c d e : Text) (p : ParsedCron) → parse_five a b c d e ≡ ok p → IsInRange p
unfolding parse_five
parse_five-IsInRange a b c d e p h =
    let (minute, h1, r1) = >>=-passed (parse_field a 0 59) _ h in
    let (hour, h2, r2) = >>=-passed (parse_field b 0 23) _ r1 in
    let (dom, h3, r3) = >>=-passed (parse_field c 1 31) _ r2 in
    let (month, h4, r4) = >>=-passed (parse_field d 1 12) _ r3 in
    let (dow, h5, r5) = >>=-passed (parse_field e 0 6) _ r4 in
    subst IsInRange (ap (value_or p) r5) (record {
      minute = parse_field-Within a 0 59 minute h1;
      hour = parse_field-Within b 0 23 hour h2;
      dom = parse_field-Within c 1 31 dom h3;
      month = parse_field-Within d 1 12 month h4;
      dow = parse_field-Within e 0 6 dow h5;
    })

parse_words-IsInRange :
    (expr : Text) (ws : List Text) (p : ParsedCron) → parse_words expr ws ≡ ok p → IsInRange p
unfolding parse_words
parse_words-IsInRange expr (a ∷ b ∷ c ∷ d ∷ e ∷ []) p g = parse_five-IsInRange a b c d e p g
parse_words-IsInRange expr [] p g = cc
parse_words-IsInRange expr (a ∷ []) p g = cc
parse_words-IsInRange expr (a ∷ b ∷ []) p g = cc
parse_words-IsInRange expr (a ∷ b ∷ c ∷ []) p g = cc
parse_words-IsInRange expr (a ∷ b ∷ c ∷ d ∷ []) p g = cc
parse_words-IsInRange expr (a ∷ b ∷ c ∷ d ∷ e ∷ f ∷ ws) p g = cc

-- When an expression can be read, its minutes lie between 0 and 59, its hours between 0 and 23, its
-- days of the month between 1 and 31, its months between 1 and 12 and its days of the week between
-- 0 and 6, whatever ranges, lists and steps it is written with.
pub parse_cron-IsInRange : (expr : Text) (p : ParsedCron) → parse_cron expr ≡ ok p → IsInRange p
unfolding parse_cron
parse_cron-IsInRange expr p h = parse_words-IsInRange expr (parts_of expr) p h
