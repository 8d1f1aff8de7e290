-- ===== src/Cron.antt =====
-- packages/edge-context-server/src/cron.ts: the parser of cron expressions, and the next time at
-- which one fires. A Set of numbers is the list of its elements. Numbers are exact, where
-- JavaScript's lose digits from 2^53 on, and where a run of digits so long that it reads as Infinity
-- (over 300) is refused, since Infinity is no integer.
pub mod Fields
pub mod Fires
pub mod Ranges
pub mod Numbers
pub mod Steps
pub mod Written
mod Tests
use agentx_platform.Prelude.{
  ltb, leb, ◌==◌, if◌then◌else◌, ltb→lt, lt→ltb, leb→le, le→not_ltb, ==_iff, tests, Bool-cases,
  Option-cases, &&-eq_true, or_default, is_some, length, get_elem?, take, drop, keep, find, any,
  all, All, length-append, length-take, length-drop, take-append-drop, length-keep-le, keep-append,
  All-append, length-map, Text, codes, same, same_refl, same→eq, eq→same, same_iff, same_comm,
  text_lt, decimal, decimal-injective, join, split, Without, split-append, lookup, insert, remove,
  lookup-insert, lookup-remove, has, add, delete, Distinct, has-append, add-fresh,
  has-delete_absent, delete-Distinct, has-delete_self, length-delete, delete-append_left,
  Distinct-append_left, Distinct-drop_middle, has-middle, has-append_left, has-append_intro, keys,
  has-keys, has-insert, insert-Distinct, insert-absent, insert-middle, has-remove, remove-Distinct,
  remove-absent, remove-middle, Distinct-middle, insert-All, remove-All, Result, ok, throws, ◌>>=◌,
  ◌>>◌, Returns, Result-cases, ℕ, zero, suc, ◌+◌, ◌-◌, ◌*◌, ◌/◌, ◌%◌, ◌≤◌, ◌<◌, min, max, ◌≡◌, refl,
  sym, ap, ap₂, subst, ◌∙◌, fun_ext, ◌≡⟨◌⟩◌, ◌∎, ◌≢◌, ◌↔◌, ◌⊎◌, inl, inr, Bool, true, false, not,
  ◌&&◌, ◌||◌, Option, none, some, List, [], ◌∷◌, ◌++◌, map, arith,
}

pub record ParsedCron : Type 0 where
  pub minute : List ℕ
  pub hour : List ℕ
  pub dom : List ℕ
  pub month : List ℕ
  pub dow : List ℕ

unfoldable pub has_number : ℕ → List ℕ → Bool
has_number n [] = false
has_number n (m ∷ ms) = m == n || has_number n ms

unfoldable pub include : ℕ → List ℕ → List ℕ
unfolding has_number
include n s = if has_number n s then s else s ++ n ∷ []

-- The code units that `\s` matches and `trim` and `parseInt` skip.
abbrev pub is_space : ℕ → Bool
is_space c =
    (leb 9 c && leb c 13)
    || (any (λ d. c == d) (32 ∷ 160 ∷ 5760 ∷ 8232 ∷ 8233 ∷ 8239 ∷ 8287 ∷ 12288 ∷ 65279 ∷ [])
        || (leb 8192 c && leb c 8202))

abbrev pub flush : Text → List Text
flush [] = []
flush (c ∷ w) = (c ∷ w) ∷ []

-- The words of a text, after the word `w` that has begun.
unfoldable pub words_onto : Text → Text → List Text
words_onto w [] = flush w
words_onto w (c ∷ s) = elim (is_space c) [
  | true ↦ flush w ++ words_onto [] s
  | false ↦ words_onto (w ++ c ∷ []) s
]

-- `expr.trim().split(/\s+/)`, which has one part at least.
unfoldable pub parts_of : Text → List Text
unfolding words_onto
parts_of expr = elim (words_onto [] expr) [ [] ↦ [] ∷ [] | w ∷ ws ↦ w ∷ ws ]

unfoldable pub digit_value : ℕ → Option ℕ
digit_value c = if leb b'0' c && leb c b'9' then some (c - b'0') else none

-- The number that the digits in front read to, after `n`.
unfoldable pub read_digits : ℕ → Text → ℕ
unfolding digit_value
read_digits n [] = n
read_digits n (c ∷ s) = elim (digit_value c) [ none ↦ n | some d ↦ read_digits (n * 10 + d) s ]

unfoldable pub first_digits : Text → Option ℕ
unfolding read_digits
first_digits [] = none
first_digits (c ∷ s) = elim (digit_value c) [ none ↦ none | some d ↦ some (read_digits d s) ]

unfoldable pub skip_space : Text → Text
skip_space [] = []
skip_space (c ∷ s) = elim (is_space c) [ true ↦ skip_space s | false ↦ c ∷ s ]

unfoldable pub after_plus : Text → Text
after_plus [] = []
after_plus (c ∷ s) = if c == b'+' then s else c ∷ s

-- `Number.parseInt(t, 10)`, none for NaN. A minus only stands in a step, where a number that is
-- not positive is refused like NaN, so it is none too.
unfoldable pub parse_int : Text → Option ℕ
unfolding first_digits skip_space after_plus
parse_int t = first_digits (after_plus (skip_space t))

-- What stands before the first `sep` and what after it, if there is one.
unfoldable pub cut : ℕ → Text → Option (Text × Text)
cut sep [] = none
cut sep (c ∷ s) = elim (c == sep) [
  | true ↦ some ([], s)
  | false ↦ elim (cut sep s) [ none ↦ none | some (a, b) ↦ some (c ∷ a, b) ]
]

unfoldable pub step_of : Text → Result (Text × ℕ)
unfolding cut parse_int
step_of part = elim (cut b'/' part) [
  | none ↦ ok (part, 1)
  | some (body, s) ↦ elim (or_default (parse_int s) 0) [
    | zero ↦ throws (codes "invalid step in cron field: " ++ part)
    | suc n ↦ ok (body, suc n)
  ]
]

-- The second of the parts between minuses.
abbrev pub up_to_minus : Text → Text
up_to_minus s = elim (cut b'-' s) [ none ↦ s | some (b, _) ↦ b ]

unfoldable pub range_of : Text → Option ℕ → Option ℕ → Result (ℕ × ℕ)
range_of part (some from) (some to) = ok (from, to)
range_of part (some from) none = throws (codes "invalid range in cron field: " ++ part)
range_of part none to = throws (codes "invalid range in cron field: " ++ part)

unfoldable pub ends_of : ℕ → ℕ → Text → Text → Result (ℕ × ℕ)
unfolding cut parse_int range_of
ends_of lo hi part body =
    if same body (codes "*") || same body [] then ok (lo, hi) else elim (cut b'-' body) [
      | some (a, rest) ↦ range_of part (parse_int a) (parse_int (up_to_minus rest))
      | none ↦ elim (parse_int body) [
        | none ↦ throws (codes "invalid value in cron field: " ++ part)
        | some from ↦ ok (from, from)
      ]
    ]

abbrev pub out_of_range : ℕ → ℕ → Text → Text
out_of_range lo hi part =
    codes "cron field out of range ["
    ++ decimal lo
    ++ codes ", "
    ++ decimal hi
    ++ codes "]: "
    ++ part

unfoldable pub check_ends : ℕ → ℕ → Text → ℕ → ℕ × ℕ → Result (ℕ × ℕ × ℕ)
check_ends lo hi part step (from, to) =
    if ltb from lo || (ltb hi to || ltb to from)
    then throws (out_of_range lo hi part)
    else ok (from, to, step)

-- The first and the last value of a part, and the step.
unfoldable pub part_range : ℕ → ℕ → Text → Result (ℕ × ℕ × ℕ)
unfolding step_of ends_of check_ends
part_range lo hi part = step_of part >>= λ p. ends_of lo hi part p.0 >>= check_ends lo hi part p.1

-- The loop from `v` to `to`. There are as many rounds as numbers between them, at most.
unfoldable pub add_steps : ℕ → ℕ → ℕ → ℕ → List ℕ → List ℕ
unfolding include
add_steps zero v to step out = out
add_steps (suc fuel) v to step out = elim (leb v to) [
  | true ↦ add_steps fuel (v + step) to step (include v out)
  | false ↦ out
]

unfoldable pub parse_parts : ℕ → ℕ → List Text → List ℕ → Result (List ℕ)
unfolding part_range add_steps
parse_parts lo hi [] out = ok out
parse_parts lo hi (p ∷ ps) out =
    part_range lo hi p >>= λ r. parse_parts lo hi ps (add_steps (suc (r.1 - r.0)) r.0 r.1 r.2 out)

unfoldable pub parse_field : Text → ℕ → ℕ → Result (List ℕ)
unfolding parse_parts
parse_field field lo hi = parse_parts lo hi (split b',' field) []

unfoldable pub parse_five : Text → Text → Text → Text → Text → Result ParsedCron
unfolding parse_field
parse_five a b c d e = do
  minute ← parse_field a 0 59
  hour ← parse_field b 0 23
  dom ← parse_field c 1 31
  month ← parse_field d 1 12
  dow ← parse_field e 0 6
  ok (record { minute = minute; hour = hour; dom = dom; month = month; dow = dow })

unfoldable pub parse_words : Text → List Text → Result ParsedCron
unfolding parse_five
parse_words expr (a ∷ b ∷ c ∷ d ∷ e ∷ []) = parse_five a b c d e
parse_words expr other = throws (
    codes "cron expression must have 5 fields, got "
    ++ decimal (length other)
    ++ codes ": '"
    ++ expr
    ++ codes "'")

unfoldable pub parse_cron : Text → Result ParsedCron
unfolding parts_of parse_words
parse_cron expr = parse_words expr (parts_of expr)

-- A Date in local time: what its accessors give for a time in milliseconds, the next full minute
-- (setSeconds(0, 0) and setMinutes(getMinutes() + 1)), and setMinutes(getMinutes() + 1) alone.
pub record LocalTime : Type 0 where
  pub minutes : ℕ → ℕ
  pub hours : ℕ → ℕ
  pub date : ℕ → ℕ
  pub month0 : ℕ → ℕ
  pub day : ℕ → ℕ
  pub round_up : ℕ → ℕ
  pub next_minute : ℕ → ℕ

-- `4 * 365 * 24 * 60 * 60 * 1000`.
abbrev pub horizon_ms : ℕ
horizon_ms = 126144000000

module _ (L : LocalTime) where
  unfoldable pub is_due : ParsedCron → ℕ → Bool
  unfolding has_number
  is_due p t =
      has_number (L.minutes t) p.minute
      && (has_number (L.hours t) p.hour
          && (has_number (L.date t) p.dom
              && (has_number (L.month0 t + 1) p.month && has_number (L.day t) p.dow)))

  abbrev pub no_fire_time : Text
  no_fire_time = codes "cron expression has no fire time within 4-year horizon"

  -- None where the fuel ends.
  unfoldable pub search_minutes : ℕ → ParsedCron → ℕ → ℕ → Option (Result ℕ)
  unfolding is_due
  search_minutes zero p horizon t = none
  search_minutes (suc fuel) p horizon t = elim (ltb t horizon) [
    | false ↦ some (throws no_fire_time)
    | true ↦ elim (is_due p t) [
      | true ↦ some (ok t)
      | false ↦ search_minutes fuel p horizon (L.next_minute t)
    ]
  ]

  unfoldable pub next_fire_time : ℕ → ParsedCron → ℕ → Option (Result ℕ)
  unfolding search_minutes
  next_fire_time fuel p now = search_minutes fuel p (now + horizon_ms) (L.round_up now)
