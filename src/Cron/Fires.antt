-- ===== src/Cron/Fires.antt =====
-- When a cron expression fires next (nextFireTime of packages/edge-context-server/src/cron.ts).
use agentx_platform.Prelude.{
  Result, ok, throws, ℕ, zero, suc, ◌≤◌, ◌<◌, ◌≡◌, true, false, Option, some,
}
use agentx_platform.Cron.{ParsedCron, LocalTime, is_due, no_fire_time}

module _ (L : LocalTime) (p : ParsedCron) where
  -- The minute that the search looks at after n others.
  abbrev pub minute_at : ℕ → ℕ → ℕ
  minute_at zero t = t
  minute_at (suc n) t = minute_at n (L.next_minute t)

  -- Before the horizon the search passes over minutes that are not due.
  abbrev pub Passed : ℕ → ℕ → ℕ → Type 0
  Passed horizon zero t = Unit
  Passed horizon (suc n) t =
      (t < horizon) × (is_due L p t ≡ false) × Passed horizon n (L.next_minute t)

  -- It fires at the first minute that is due, or there is none before the horizon.
  pub data Answers (horizon t : ℕ) (r : Option (Result ℕ)) : Type 0 where
    fires_at :
        (n : ℕ)
        → r ≡ some (ok (minute_at n t))
        → minute_at n t < horizon
        → is_due L p (minute_at n t) ≡ true
        → Passed horizon n t
        → Answers horizon t r
    gives_up :
        (n : ℕ)
        → r ≡ some (throws (no_fire_time L))
        → horizon ≤ minute_at n t
        → Passed horizon n t
        → Answers horizon t r

  -- The minutes of four years.
  abbrev pub all_minutes : ℕ
  all_minutes = 2102400
