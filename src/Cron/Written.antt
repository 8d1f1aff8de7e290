-- ===== src/Cron/Written.antt =====
-- Fields of cron expressions as they are written for parseField of
-- packages/edge-context-server/src/cron.ts, and what they stand for.
pub mod Reading
use agentx_platform.Prelude.{
  ltb, leb, ◌==◌, if◌then◌else◌, ltb→lt, lt→ltb, leb→le, le→not_ltb, ==_iff, tests, Bool-cases,
  Option-cases, &&-eq_true, or_default, is_some, length, get_elem?, take, drop, keep, find, any,
  all, All, length-append, length-take, length-drop, take-append-drop, length-keep-le, keep-append,
  All-append, length-map, Text, codes, same, same_refl, same→eq, eq→same, same_iff, same_comm,
  text_lt, decimal, number_from, number_from-decimal, IsDigits, IsNumber, decimal-IsNumber,
  decimal-injective, join, split, Without, split-append, split-alone, split-join, Without-append,
  lookup, insert, remove, lookup-insert, lookup-remove, has, add, delete, Distinct, has-append,
  add-fresh, has-delete_absent, delete-Distinct, has-delete_self, length-delete, delete-append_left,
  Distinct-append_left, Distinct-drop_middle, has-middle, has-append_left, has-append_intro, keys,
  has-keys, has-insert, insert-Distinct, insert-absent, insert-middle, has-remove, remove-Distinct,
  remove-absent, remove-middle, Distinct-middle, insert-All, remove-All, Result, ok, throws, ◌>>=◌,
  ◌>>◌, Returns, Result-cases, ℕ, zero, suc, ◌+◌, ◌-◌, ◌*◌, ◌/◌, ◌%◌, ◌≤◌, ◌<◌, min, max, ◌≡◌, refl,
  sym, ap, ap₂, subst, ◌∙◌, fun_ext, ◌≡⟨◌⟩◌, ◌∎, ◌≢◌, ◌↔◌, ◌⊎◌, inl, inr, Bool, true, false, not,
  ◌&&◌, ◌||◌, Option, none, some, List, [], ◌∷◌, ◌++◌, map, arith,
}

-- The values of a part: all, one, or a range with its first and last.
pub data Values : Type 0 where
  every : Values
  single : ℕ → Values
  span : ℕ → ℕ → Values

-- A part of a field: its values, and every how many of them it takes, if it says so.
pub record Part : Type 0 where
  pub values : Values
  pub every_nth : Option ℕ

abbrev pub print_values : Values → Text
print_values every = codes "*"
print_values (single n) = decimal n
print_values (span a b) = decimal a ++ (b'-' ∷ decimal b)

abbrev pub print_step : Option ℕ → Text
print_step none = []
print_step (some n) = b'/' ∷ decimal n

abbrev pub print_part : Part → Text
print_part p = print_values p.values ++ print_step p.every_nth

abbrev pub print_field : List Part → Text
print_field ps = join (codes ",") (map print_part ps)

abbrev pub first_of : ℕ → Values → ℕ
first_of lo every = lo
first_of lo (single n) = n
first_of lo (span a b) = a

abbrev pub final_of : ℕ → Values → ℕ
final_of hi every = hi
final_of hi (single n) = n
final_of hi (span a b) = b

-- The values lie between the bounds, the first is not beyond the last, and the step is not 0.
pub record IsGoodPart (lo hi : ℕ) (p : Part) : Type 0 where
  pub low : lo ≤ first_of lo p.values
  pub ordered : first_of lo p.values ≤ final_of hi p.values
  pub high : final_of hi p.values ≤ hi
  pub positive : 0 < or_default p.every_nth 1

-- The part stands for the number: it is a number of steps behind the first value, and not beyond
-- the last.
abbrev pub Denotes : ℕ → ℕ → ℕ → Part → Type 0
Denotes lo hi x p =
    (k : ℕ) × (x ≡ first_of lo p.values + k * or_default p.every_nth 1) × (x ≤ final_of hi p.values)
