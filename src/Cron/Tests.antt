-- ===== src/Cron/Tests.antt =====
-- Cron expressions of packages/edge-context-server/src/cron.ts.
use agentx_platform.Prelude.{
  All, codes, same, decimal, join, split, ok, throws, ℕ, ◌+◌, ◌*◌, ◌/◌, ◌%◌, ◌≡◌, refl, ◌↔◌, true,
  none, some, List, [], ◌∷◌, arith,
}
use agentx_platform.Cron.{
  ParsedCron, has_number, out_of_range, parse_field, parse_cron, LocalTime, next_fire_time,
}
use agentx_platform.Cron.Ranges.{IsInRange, parse_cron-IsInRange}
use agentx_platform.Cron.Steps.{AnyPart}
use agentx_platform.Cron.Written.{every, single, span, Part, print_field, IsGoodPart, Denotes}
use agentx_platform.Cron.Written.Reading.{parse_field-print_field}

quarters : parse_field (codes "*/15,7") 0 59 ≡ ok (0 ∷ 15 ∷ 30 ∷ 45 ∷ 7 ∷ [])
unfolding parse_field split same
quarters = refl

-- A part with two minuses is read up to the second.
two_minuses : parse_field (codes "1-3-9") 0 6 ≡ ok (1 ∷ 2 ∷ 3 ∷ [])
unfolding parse_field split same
two_minuses = refl

too_late : parse_field (codes "20-24") 0 23 ≡ throws (out_of_range 0 23 (codes "20-24"))
unfolding parse_field split same
too_late = refl

abbrev weekly : ParsedCron
weekly = record {
  minute = 30 ∷ [];
  hour = 9 ∷ [];
  dom = 1 ∷ 2 ∷ [];
  month = 1 ∷ [];
  dow = 1 ∷ 5 ∷ [];
}

weekly_test : parse_cron (codes " 30  9 1-2 1 1,5 ") ≡ ok weekly
unfolding parse_cron split same
weekly_test = refl

-- A calendar that begins on a Thursday, the first of its first month, whose months have 28 days.
abbrev utc : LocalTime
utc = record {
  minutes = λ t. t / 60000 % 60;
  hours = λ t. t / 3600000 % 24;
  date = λ t. t / 86400000 % 28 + 1;
  month0 = λ t. t / 86400000 / 28 % 12;
  day = λ t. (t / 86400000 + 4) % 7;
  round_up = λ t. (t / 60000 + 1) * 60000;
  next_minute = λ t. t + 60000;
}

-- 9:30 on Friday, the second.
fires_test : next_fire_time utc 9 weekly 120300000 ≡ some (ok 120600000)
unfolding next_fire_time
fires_test = refl

parse_cron-IsInRange_example : IsInRange weekly
parse_cron-IsInRange_example = parse_cron-IsInRange (codes " 30  9 1-2 1 1,5 ") weekly weekly_test

-- `*/15,7,20-24`.
abbrev mixed : List Part
mixed =
    record { values = every; every_nth = some 15 }
    ∷ record { values = single 7; every_nth = none }
    ∷ record { values = span 20 24; every_nth = none }
    ∷ []

mixed-IsGoodPart : All (IsGoodPart 0 59) mixed
mixed-IsGoodPart = (
  record { low = omega arith; ordered = omega arith; high = omega arith; positive = omega arith },
  (
    record { low = omega arith; ordered = omega arith; high = omega arith; positive = omega arith },
    (
      record {
        low = omega arith;
        ordered = omega arith;
        high = omega arith;
        positive = omega arith;
      },
      tt,
    ),
  ),
)

mixed_text : print_field mixed ≡ codes "*/15,7,20-24"
unfolding join decimal
mixed_text = refl

parse_field-print_field_example :
    (s : List ℕ) × (parse_field (print_field mixed) 0 59 ≡ ok s)
    × ((x : ℕ) → (has_number x s ≡ true) ↔ AnyPart (Denotes 0 59 x) mixed)
parse_field-print_field_example =
    parse_field-print_field 0 59 (record { values = every; every_nth = some 15 })
      (record { values = single 7; every_nth = none }
        ∷ record { values = span 20 24; every_nth = none }
        ∷ [])
      mixed-IsGoodPart
