-- ===== src/Tokens/Calls.antt =====
-- The calls of the accumulator and of others on the bus, and what they keep: each job has the one
-- closure that packages/harness-core/src/token-accumulator.ts keeps for it.
use agentx_platform.Prelude.{
  if◌then◌else◌, Bool-cases, keep, All, Text, same, same→eq, lookup, insert, remove, lookup-insert,
  lookup-remove, add, delete, ◌≡◌, refl, ap, subst, ◌∙◌, inl, inr, Bool, true, false, Option, none,
  some, List, [], ◌∷◌,
}
use agentx_platform.Tokens.Bus.{subscribe, unsubscribe, Attached, attach, detach}
use agentx_platform.Tokens.Once.{listeners}
use agentx_platform.Tokens.Listeners.{
  listeners-subscribe, listeners-unsubscribe, keep-add, keep-add_other, keep-delete_other,
  keep-delete,
}

-- What happens to the bus: the accumulator is attached, with a closure named by the second text, or
-- detached; or another handler comes or goes.
pub data Call : Type 0 where
  attaching : Text → Text → Call
  detaching : Text → Call
  coming : Text → Text → Call
  leaving : Text → Text → Call

unfoldable pub call : Call → Attached → Attached
call (attaching job h) s = attach job h s
call (detaching job) s = detach job s
call (coming job h) s = record s { bus = subscribe job h s.bus }
call (leaving job h) s = record s { bus = unsubscribe job h s.bus }

unfoldable pub history : List Call → Attached → Attached
history [] s = s
history (c ∷ cs) s = history cs (call c s)

abbrev pub nothing_attached : Attached
nothing_attached = record { bus = []; unsubs = [] }

abbrev pub to_list : Option Text → List Text
to_list none = []
to_list (some h) = h ∷ []

module _ (ours : Text → Bool) where
  -- The closures of the accumulator are told apart from other handlers by their names.
  abbrev pub Separate : Call → Type 0
  Separate (attaching job h) = ours h ≡ true
  Separate (detaching job) = Unit {0}
  Separate (coming job h) = ours h ≡ false
  Separate (leaving job h) = ours h ≡ false

  -- Of the accumulator, each job has the one closure that is kept for it, or none.
  abbrev pub IsAttached : Attached → Type 0
  IsAttached s =
      (job : Text)
      → (keep ours (listeners job s.bus) ≡ to_list (lookup job s.unsubs))
        × (All (λ h. ours h ≡ true) (to_list (lookup job s.unsubs)))

  -- What a job has after a change to it or to another job.
  abbrev pub Hears : List Text → Option Text → Type 0
  Hears hs o = (keep ours hs ≡ to_list o) × All (λ h. ours h ≡ true) (to_list o)

  pub split-Hears :
      (b : Bool) (hs hs' : List Text) (o o' : Option Text)
      → Hears hs o
      → Hears hs' o'
      → Hears (if b then hs else hs') (if b then o else o')
  split-Hears true hs hs' o o' x y = x
  split-Hears false hs hs' o o' x y = y

  abbrev pub HearsIn : Text → Attached → Type 0
  HearsIn j s = Hears (listeners j s.bus) (lookup j s.unsubs)

  pub attach-IsAttached :
      (job h : Text) (s : Attached) → ours h ≡ true → IsAttached s → IsAttached (attach job h s)
  attach-IsAttached job h s o inv j = unfold attach in pass (lookup job s.unsubs) refl
    where
      pass :
          (u : Option Text)
          → lookup job s.unsubs ≡ u
          → HearsIn j (elim u [
            | some _ ↦ s
            | none ↦ record { bus = subscribe job h s.bus; unsubs = insert job h s.unsubs }
          ])
      pass (some _) e = inv j
      pass none e =
          rw (listeners-subscribe job j h s.bus, lookup-insert job j h s.unsubs)
            (split-Hears (same job j) (add h (listeners job s.bus)) (listeners j s.bus) (some h)
              (lookup j s.unsubs)
              (keep-add ours h (listeners job s.bus) o ((inv job).0 ∙ ap to_list e), (o, tt))
              (inv j))

  pub detach-IsAttached : (job : Text) (s : Attached) → IsAttached s → IsAttached (detach job s)
  detach-IsAttached job s inv j = unfold detach in pass (lookup job s.unsubs) refl
    where
      pass :
          (u : Option Text)
          → lookup job s.unsubs ≡ u
          → HearsIn j (elim u [
            | none ↦ s
            | some h ↦ record { bus = unsubscribe job h s.bus; unsubs = remove job s.unsubs }
          ])
      pass none e = inv j
      pass (some h) e =
          rw (listeners-unsubscribe job j h s.bus, lookup-remove job j s.unsubs)
            (split-Hears (same job j) (delete h (listeners job s.bus)) (listeners j s.bus) none
              (lookup j s.unsubs)
              (
                keep-delete ours h (listeners job s.bus)
                    (subst (λ o. All (λ h. ours h ≡ true) (to_list o)) e (inv job).1).0
                    ((inv job).0 ∙ ap to_list e),
                tt,
              )
              (inv j))

  pub other-Hears :
      (job j : Text) (hs : List Text) (s : Attached)
      → keep ours hs ≡ keep ours (listeners job s.bus)
      → IsAttached s
      → Hears (if same job j then hs else listeners j s.bus) (lookup j s.unsubs)
  other-Hears job j hs s e inv = elim (Bool-cases (same job j)) [
    | inl t ↦
        rw t (e ∙ (inv job).0 ∙ ap (λ k. to_list (lookup k s.unsubs)) (same→eq job j t), (inv j).1)
    | inr t ↦ rw t (inv j)
  ]

  pub call-IsAttached :
      (c : Call) (s : Attached) → Separate c → IsAttached s → IsAttached (call c s)
  unfolding call
  call-IsAttached (attaching job h) s o inv = attach-IsAttached job h s o inv
  call-IsAttached (detaching job) s o inv = detach-IsAttached job s inv
  call-IsAttached (coming job h) s o inv = λ j.
      rw (listeners-subscribe job j h s.bus)
        (other-Hears job j (add h (listeners job s.bus)) s (keep-add_other ours h _ o) inv)
  call-IsAttached (leaving job h) s o inv = λ j.
      rw (listeners-unsubscribe job j h s.bus)
        (other-Hears job j (delete h (listeners job s.bus)) s (keep-delete_other ours h _ o) inv)

  pub history-IsAttached :
      (cs : List Call) (s : Attached) → All Separate cs → IsAttached s → IsAttached (history cs s)
  unfolding history
  history-IsAttached [] s o inv = inv
  history-IsAttached (c ∷ cs) s (o, os) inv =
      history-IsAttached cs (call c s) os (call-IsAttached c s o inv)
