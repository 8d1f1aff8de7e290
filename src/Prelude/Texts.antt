-- ===== src/Prelude/Texts.antt =====
-- A JavaScript string is its list of code units. `===` is `same`, `<` is `text_lt`, and a number
-- is printed in decimal.
use Prim.Native.Nat.{ℕ, zero, suc, ◌+◌, ◌-◌, ◌*◌, ◌/◌, ◌%◌, ◌<◌, ◌≤◌}
use Prim.Native.Char.{code}
use Prim.Native.String.{String}
use mathlib.Core.Path.{◌≡◌, refl, sym, ap, ◌∙◌}
use mathlib.Core.List.{append-nil, append_assoc}
use mathlib.Core.Logic.{◌↔◌, inl, inr}
use mathlib.Core.Bool.{Bool, true, false, ◌&&◌, ◌||◌}
use mathlib.Core.List.{List, [], ◌∷◌, ◌++◌}
use native.Mathlib.Omega.{arith}
use agentx_platform.Prelude.Lists.{All}
use agentx_platform.Prelude.Tests.{ltb, ltb→lt, ◌==◌, if◌then◌else◌, &&-eq_true, Bool-cases}

abbrev pub Text : Type 0
Text = List ℕ

abbrev pub codes : String → Text
codes String.[] = []
codes (String.◌∷◌ c s) = code c ∷ codes s

unfoldable pub same : Text → Text → Bool
same [] [] = true
same [] (y ∷ ys) = false
same (x ∷ xs) [] = false
same (x ∷ xs) (y ∷ ys) = (x == y) && same xs ys

pub same_refl : (s : Text) → same s s ≡ true
unfolding same
same_refl [] = refl
same_refl (x ∷ xs) = ground (arith, same_refl xs)

pub same→eq : (s t : Text) → same s t ≡ true → s ≡ t
unfolding same
same→eq [] [] h = refl
same→eq [] (y ∷ ys) h = cc
same→eq (x ∷ xs) [] h = cc
same→eq (x ∷ xs) (y ∷ ys) h = ground (arith, same→eq xs ys (&&-eq_true (x == y) (same xs ys) h).1)

pub eq→same : (s t : Text) → s ≡ t → same s t ≡ true
eq→same s t e = rw e (same_refl t)

pub same_iff : (s t : Text) → (same s t ≡ true) ↔ (s ≡ t)
same_iff s t = (same→eq s t, eq→same s t)

pub same_comm : (s t : Text) → same s t ≡ same t s
same_comm s t = ground (arith, same_iff s t, same_iff t s)

-- Code unit by code unit, a proper prefix first.
unfoldable pub text_lt : Text → Text → Bool
text_lt [] [] = false
text_lt [] (y ∷ ys) = true
text_lt (x ∷ xs) [] = false
text_lt (x ∷ xs) (y ∷ ys) = ltb x y || ((x == y) && text_lt xs ys)

-- The decimal digits of `n`, put before `rest`; the fuel `n + 1` is always enough.
digits_onto : ℕ → ℕ → Text → Text
digits_onto zero n rest = rest
digits_onto (suc f) n rest =
    let more = digits_onto f (n / 10) ((n % 10 + 48) ∷ rest) in
    if ltb n 10 then (n + 48) ∷ rest else more

unfoldable pub decimal : ℕ → Text
unfolding digits_onto
decimal n = digits_onto (n + 1) n []

-- The number that a text of digits stands for, after the digits read so far.
unfoldable pub number_from : ℕ → Text → ℕ
number_from acc [] = acc
number_from acc (c ∷ s) = number_from (acc * 10 + (c - 48)) s

number_from-digits_onto :
    (f n : ℕ) (rest : Text) → n < f → number_from 0 (digits_onto f n rest) ≡ number_from n rest
unfolding digits_onto number_from
number_from-digits_onto zero n rest h = absurd (omega (arith, h))
number_from-digits_onto (suc f) n rest h = elim (Bool-cases (ltb n 10)) [
  | inl e ↦ rw e (ap (λ m. number_from m rest) (omega arith))
  | inr e ↦ rw e (
      number_from-digits_onto f (n / 10) ((n % 10 + 48) ∷ rest) (ground arith)
      ∙ ap (λ m. number_from m rest) (omega arith))
]

pub number_from-decimal : (n : ℕ) → number_from 0 (decimal n) ≡ n
unfolding decimal number_from
number_from-decimal n = number_from-digits_onto (n + 1) n [] (omega arith)

-- The text consists of the code units of digits.
abbrev pub IsDigits : Text → Type 0
IsDigits [] = Unit {0}
IsDigits (c ∷ s) = (48 ≤ c) × (c ≤ 57) × IsDigits s

-- The text has a digit, and nothing else.
abbrev pub IsNumber : Text → Type 0
IsNumber t = (c : ℕ) × (s : Text) × (t ≡ c ∷ s) × IsDigits (c ∷ s)

digits_onto-IsNumber :
    (f n : ℕ) (rest : Text) → n < f → IsDigits rest → IsNumber (digits_onto f n rest)
unfolding digits_onto
digits_onto-IsNumber zero n rest h d = absurd (omega (arith, h))
digits_onto-IsNumber (suc f) n rest h d = elim (Bool-cases (ltb n 10)) [
  | inl e ↦ (n + 48, rest, rw e refl, (omega arith, ground (arith, ltb→lt n 10 e), d))
  | inr e ↦
      let more =
        digits_onto-IsNumber f (n / 10) ((n % 10 + 48) ∷ rest) (ground arith)
          (omega arith, omega arith, d) in
      (more.0, more.1, rw e more.2, more.3)
]

pub decimal-IsNumber : (n : ℕ) → IsNumber (decimal n)
unfolding decimal
decimal-IsNumber n = digits_onto-IsNumber (n + 1) n [] (omega arith) tt

-- Different numbers are printed differently.
pub decimal-injective : (m n : ℕ) → decimal m ≡ decimal n → m ≡ n
decimal-injective m n h = sym (number_from-decimal m) ∙ ap (number_from 0) h ∙ number_from-decimal n

decimal_example : decimal 1023 ≡ codes "1023"
unfolding decimal
decimal_example = refl

-- `Array.prototype.join`.
unfoldable pub join : Text → List Text → Text
join sep [] = []
join sep (x ∷ []) = x
join sep (x ∷ y ∷ ys) = x ++ (sep ++ join sep (y ∷ ys))

-- `s.split(sep)` at one code unit: the parts between the separators, at least one.
split_onto : ℕ → Text → Text → List Text
split_onto sep part [] = part ∷ []
split_onto sep part (c ∷ s) =
    if c == sep then part ∷ split_onto sep [] s else split_onto sep (part ++ c ∷ []) s

unfoldable pub split : ℕ → Text → List Text
unfolding split_onto
split sep s = split_onto sep [] s

-- The text has no code unit `c`.
abbrev pub Without : ℕ → Text → Type 0
Without c [] = Unit {0}
Without c (x ∷ s) = ((x == c) ≡ false) × Without c s

split_onto-append :
    (sep : ℕ) (part s rest : Text)
    → Without sep s
    → split_onto sep part (s ++ sep ∷ rest) ≡ (part ++ s) ∷ split_onto sep [] rest
unfolding split_onto
split_onto-append sep part [] rest w = ground (arith, append-nil part)
split_onto-append sep part (c ∷ s) rest w = rw w.0 (
    split_onto-append sep (part ++ c ∷ []) s rest w.1
    ∙ ap (λ p. p ∷ split_onto sep [] rest) (append_assoc part (c ∷ []) s))

-- A field that ends in the separator is split off.
pub split-append :
    (sep : ℕ) (s rest : Text) → Without sep s → split sep (s ++ sep ∷ rest) ≡ s ∷ split sep rest
unfolding split
split-append sep s rest w = split_onto-append sep [] s rest w

split_onto-alone :
    (sep : ℕ) (part s : Text) → Without sep s → split_onto sep part s ≡ (part ++ s) ∷ []
unfolding split_onto
split_onto-alone sep part [] w = ground (arith, append-nil part)
split_onto-alone sep part (c ∷ s) w =
    rw w.0 (
      split_onto-alone sep (part ++ c ∷ []) s w.1 ∙ ap (λ p. p ∷ []) (append_assoc part (c ∷ []) s))

pub split-alone : (sep : ℕ) (s : Text) → Without sep s → split sep s ≡ s ∷ []
unfolding split
split-alone sep s w = split_onto-alone sep [] s w

-- Splitting undoes joining, of texts without the separator.
pub split-join :
    (sep : ℕ) (s : Text) (ss : List Text)
    → All (Without sep) (s ∷ ss)
    → split sep (join (sep ∷ []) (s ∷ ss)) ≡ s ∷ ss
unfolding join
split-join sep s [] w = split-alone sep s w.0
split-join sep s (t ∷ ss) w =
    split-append sep s (join (sep ∷ []) (t ∷ ss)) w.0 ∙ ap (◌∷◌ s) (split-join sep t ss w.1)

pub Without-append : (c : ℕ) (s t : Text) → Without c s → Without c t → Without c (s ++ t)
Without-append c [] t v w = w
Without-append c (x ∷ s) t v w = (v.0, Without-append c s t (v.1) w)
