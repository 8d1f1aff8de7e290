-- ===== src/Cron/Numbers.antt =====
-- How numbers in decimal are read, and texts cut, by the parser of cron expressions (parseField of
-- packages/edge-context-server/src/cron.ts).
use agentx_platform.Prelude.{
  ◌==◌, ==_iff, Text, codes, same, decimal, number_from, number_from-decimal, IsDigits,
  decimal-IsNumber, Without, ℕ, ◌+◌, ◌-◌, ◌*◌, ◌≤◌, ◌<◌, ◌≡◌, refl, sym, ap, subst, ◌∙◌, false,
  none, some, [], ◌∷◌, ◌++◌, arith,
}
use agentx_platform.Cron.{
  is_space, digit_value, read_digits, first_digits, skip_space, after_plus, parse_int, cut,
}

digit_value-digit : (c : ℕ) → 48 ≤ c → c ≤ 57 → digit_value c ≡ some (c - 48)
unfolding digit_value
digit_value-digit c low high = ground arith

read_digits-IsDigits : (n : ℕ) (s : Text) → IsDigits s → read_digits n s ≡ number_from n s
unfolding read_digits number_from
read_digits-IsDigits n [] d = refl
read_digits-IsDigits n (c ∷ s) (low, high, d) =
    rw (digit_value-digit c low high, read_digits) (read_digits-IsDigits (n * 10 + (c - 48)) s d)

digit-not_space : (c : ℕ) → 48 ≤ c → c ≤ 57 → is_space c ≡ false
digit-not_space c low high = ground arith

parse_int-IsDigits :
    (c : ℕ) (s : Text) → IsDigits (c ∷ s) → parse_int (c ∷ s) ≡ some (number_from 0 (c ∷ s))
unfolding parse_int number_from
parse_int-IsDigits c s (low, high, d) =
    let no_plus : (c == b'+') ≡ false = ground arith in
    rw
      (
        digit-not_space c low high,
        no_plus,
        digit_value-digit c low high,
        skip_space,
        after_plus,
        first_digits,
      )
      (ap some (read_digits-IsDigits (c - 48) s d ∙ ap (λ n. number_from n s) (omega arith)))

-- `parseInt` undoes the printing of numbers.
pub parse_int-decimal : (n : ℕ) → parse_int (decimal n) ≡ some n
parse_int-decimal n =
    let (c, s, e, d) = decimal-IsNumber n in
    ap parse_int e
    ∙ parse_int-IsDigits c s d
    ∙ ap (λ t. some (number_from 0 t)) (sym e)
    ∙ ap some (number_from-decimal n)

IsDigits-Without : (sep : ℕ) (s : Text) → sep < 48 → IsDigits s → Without sep s
IsDigits-Without sep [] h d = tt
IsDigits-Without sep (c ∷ s) h (low, high, d) = (ground arith, IsDigits-Without sep s h d)

-- No separator stands in a number.
pub decimal-Without : (sep n : ℕ) → sep < 48 → Without sep (decimal n)
decimal-Without sep n h =
    let (c, s, e, d) = decimal-IsNumber n in
    subst (Without sep) (sym e) (IsDigits-Without sep (c ∷ s) h d)

-- What begins with a number is neither a star nor empty.
pub number-not_all :
    (n : ℕ) (rest : Text)
    → (same (decimal n ++ rest) (codes "*") ≡ false) × (same (decimal n ++ rest) [] ≡ false)
unfolding same
number-not_all n rest =
    let (c, s, e, (low, high, d)) = decimal-IsNumber n in
    let no_star : (c == b'*') ≡ false = ground arith in rw e (rw no_star refl, refl)

pub cut-none : (sep : ℕ) (s : Text) → Without sep s → cut sep s ≡ none
unfolding cut
cut-none sep [] w = refl
cut-none sep (c ∷ s) (w, ws) = rw (w, cut-none sep s ws, cut) refl

pub cut-append : (sep : ℕ) (s t : Text) → Without sep s → cut sep (s ++ sep ∷ t) ≡ some (s, t)
unfolding cut
cut-append sep [] t w = ground (arith, ==_iff sep sep)
cut-append sep (c ∷ s) t (w, ws) = rw (w, cut-append sep s t ws, cut) refl
