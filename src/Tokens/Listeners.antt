-- ===== src/Tokens/Listeners.antt =====
-- Who listens to a job on the bus of packages/harness-core/src/job-bus.ts after a subscription or its
-- end, and which of the listeners are of one kind.
use mathlib.Core.List.{append-nil}
use agentx_platform.Prelude.{
  ◌==◌, if◌then◌else◌, ==_iff, Bool-cases, or_default, length, keep, keep-append, Text, same,
  same→eq, same_iff, lookup, insert, remove, lookup-insert, lookup-remove, has, add, delete,
  add-fresh, ◌+◌, ◌≡◌, refl, sym, inl, inr, Bool, true, false, Option, none, some, List, [], ◌∷◌,
  arith,
}
use agentx_platform.Tokens.Bus.{Bus, subscribe, unsubscribe}
use agentx_platform.Tokens.Once.{listeners}

pub listeners-subscribe :
    (job j h : Text) (bus : Bus)
    → listeners j (subscribe job h bus)
      ≡ (if same job j then add h (listeners job bus) else listeners j bus)
unfolding subscribe
listeners-subscribe job j h bus =
    rw (lookup-insert job j (add h (listeners job bus)) bus)
      (elim (Bool-cases (same job j)) [ inl e ↦ rw e refl | inr e ↦ rw e refl ])

pub empty : (s : List Text) → (length s == 0) ≡ true → s ≡ []
empty [] e = refl
empty (x ∷ s) e = ground (arith, ==_iff (length s + 1) 0)

pub listeners-unsubscribe :
    (job j h : Text) (bus : Bus)
    → listeners j (unsubscribe job h bus)
      ≡ (if same job j then delete h (listeners job bus) else listeners j bus)
unfolding unsubscribe
listeners-unsubscribe job j h bus = pass (lookup job bus) refl
  where
    shrink :
        (rest : List Text)
        → listeners j (if length rest == 0 then remove job bus else insert job rest bus)
          ≡ (if same job j then rest else listeners j bus)
    shrink rest = elim (Bool-cases (length rest == 0)) [
      | inl z ↦
          rw (z, empty rest z, lookup-remove job j bus)
            (elim (Bool-cases (same job j)) [ inl e ↦ rw e refl | inr e ↦ rw e refl ])
      | inr z ↦
          rw (z, lookup-insert job j rest bus)
            (elim (Bool-cases (same job j)) [ inl e ↦ rw e refl | inr e ↦ rw e refl ])
    ]

    pass :
        (o : Option (List Text))
        → lookup job bus ≡ o
        → listeners j (elim o [
          | none ↦ bus
          | some hs ↦
              let rest = delete h hs in
              if length rest == 0 then remove job bus else insert job rest bus
        ])
          ≡ (if same job j then delete h (or_default o []) else listeners j bus)
    pass none e =
        unfold delete in
        elim (Bool-cases (same job j)) [
          | inl t ↦ rw (t, sym (same→eq job j t), e) refl
          | inr t ↦ rw t refl
        ]
    pass (some hs) e = shrink (delete h hs)

module _ (ours : Text → Bool) where
  pub fresh : (h : Text) (s : List Text) → ours h ≡ true → keep ours s ≡ [] → has h s ≡ false
  unfolding has
  fresh h [] o e = refl
  fresh h (i ∷ s) o e = ground (arith, same_iff i h, fresh h s o)

  pub keep-add :
      (h : Text) (s : List Text) → ours h ≡ true → keep ours s ≡ [] → keep ours (add h s) ≡ h ∷ []
  keep-add h s o e = rw (add-fresh h s (fresh h s o e), keep-append ours s (h ∷ []), e, o) refl

  pub keep-add_other :
      (h : Text) (s : List Text) → ours h ≡ false → keep ours (add h s) ≡ keep ours s
  unfolding add
  keep-add_other h s o = elim (Bool-cases (has h s)) [
    | inl e ↦ rw e refl
    | inr e ↦ rw (e, keep-append ours s (h ∷ []), o) (append-nil (keep ours s))
  ]

  pub keep-delete_other :
      (h : Text) (s : List Text) → ours h ≡ false → keep ours (delete h s) ≡ keep ours s
  unfolding delete
  keep-delete_other h [] o = refl
  keep-delete_other h (i ∷ s) o = ground (arith, same_iff i h, keep-delete_other h s)

  pub keep-delete :
      (h : Text) (s : List Text)
      → ours h ≡ true
      → keep ours s ≡ h ∷ []
      → keep ours (delete h s) ≡ []
  unfolding delete
  keep-delete h [] o e = cc
  keep-delete h (i ∷ s) o e = ground (arith, same_iff i h, keep-delete h s o)
