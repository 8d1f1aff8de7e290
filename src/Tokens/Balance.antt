-- ===== src/Tokens/Balance.antt =====
-- The books of packages/harness-core/src/token-accumulator.ts balance.
use mathlib.Core.Bool.{false≢true}
use agentx_platform.Prelude.{
  ◌==◌, if◌then◌else◌, Bool-cases, or_default, is_some, All, Text, same, lookup, insert, insert-All,
  ◌+◌, ◌≡◌, refl, sym, ap, ap₂, subst, ◌∙◌, inl, inr, ◌&&◌, Option, none, some, List, [], ◌∷◌, ◌++◌,
  arith,
}
use agentx_platform.Tokens.{
  AgentTokens, RegisteredAgent, JobRecord, TokenUsage, AdapterEvent, response, other_event,
  Envelope, sum, entry_of, charge_agent, charge_agents, charge_job, handle,
}

-- What a running total is worth.
abbrev pub worth : Option AgentTokens → AgentTokens
worth none = record { input = 0; output = 0 }
worth (some t) = t

abbrev pub plus : AgentTokens → AgentTokens → AgentTokens
plus a b = record { input = a.input + b.input; output = a.output + b.output }

unfoldable pub total : List AgentTokens → AgentTokens
total [] = record { input = 0; output = 0 }
total (t ∷ ts) = plus t (total ts)

-- The total of what the agents have used.
unfoldable pub total_of : List RegisteredAgent → AgentTokens
total_of [] = record { input = 0; output = 0 }
total_of (a ∷ as') = plus (worth a.tokens) (total_of as')

-- The running total of each agent is the total of its history, and that of the job is the total of
-- its agents.
abbrev pub IsBalanced : JobRecord → Type 0
IsBalanced j =
    All (λ a. worth a.tokens ≡ total (or_default a.token_history [])) j.agents
    × (worth j.job_tokens ≡ total_of j.agents)

tokens_ext : (a b : AgentTokens) → a.input ≡ b.input → a.output ≡ b.output → a ≡ b
tokens_ext a b p q = ap₂ (λ m n. record { input = m; output = n }) p q

sum-worth : (o : Option AgentTokens) (e : AgentTokens) → sum o e ≡ plus (worth o) e
unfolding sum
sum-worth none e = tokens_ext e (plus (worth none) e) (omega arith) (omega arith)
sum-worth (some t) e = refl

total-snoc : (ts : List AgentTokens) (e : AgentTokens) → total (ts ++ (e ∷ [])) ≡ plus (total ts) e
unfolding total
total-snoc [] e = tokens_ext _ _ (omega arith) (omega arith)
total-snoc (t ∷ ts) e =
    let h = total-snoc ts e in
    tokens_ext _ _ (omega (arith, ap (λ (x : AgentTokens). x.input) h))
      (omega (arith, ap (λ (x : AgentTokens). x.output) h))

abbrev AgentBalanced : RegisteredAgent → Type 0
AgentBalanced a = worth a.tokens ≡ total (or_default a.token_history [])

charge_agent-AgentBalanced :
    (e : AgentTokens) (a : RegisteredAgent) → AgentBalanced a → AgentBalanced (charge_agent e a)
unfolding charge_agent
charge_agent-AgentBalanced e a h =
    sum-worth a.tokens e ∙ ap (λ x. plus x e) h ∙ sym (total-snoc (or_default a.token_history []) e)

-- The agents after a charge, if there are any: balanced, and worth the charge more.
abbrev Charged : AgentTokens → List RegisteredAgent → Option (List RegisteredAgent) → Type 0
Charged e as' none = Unit {0}
Charged e as' (some bs) = All AgentBalanced bs × (total_of bs ≡ plus (total_of as') e)

total-step :
    (t : Option AgentTokens) (e rest : AgentTokens)
    → plus (worth (some (sum t e))) rest ≡ plus (plus (worth t) rest) e
total-step t e rest =
    ap (λ x. plus x rest) (sum-worth t e) ∙ tokens_ext _ _ (omega arith) (omega arith)

charge_agents-Charged :
    (id : Text) (e : AgentTokens) (as' : List RegisteredAgent)
    → All AgentBalanced as'
    → Charged e as' (charge_agents id e as')
unfolding charge_agents
charge_agents-Charged id e [] b = tt
charge_agents-Charged id e (a ∷ as') (b, bs) = elim (Bool-cases (same a.id id)) [
  | inl hit ↦
      rw (hit, charge_agents)
        (
          (charge_agent-AgentBalanced e a b, bs),
          unfold total_of charge_agent in total-step a.tokens e (total_of as'),
        )
  | inr miss ↦
      rw (miss, charge_agents)
        (pass a as' b (charge_agents id e as') (charge_agents-Charged id e as' bs))
]
  where
    pass :
        (a : RegisteredAgent) (as' : List RegisteredAgent)
        → AgentBalanced a
        → (o : Option (List RegisteredAgent)) → Charged e as' o
        → Charged e (a ∷ as') (elim o [ none ↦ none | some bs ↦ some (a ∷ bs) ])
    pass a as' b none h = tt
    pass a as' b (some bs) (h, t) = (
      (b, h),
      unfold total_of in ap (plus (worth a.tokens)) t ∙ tokens_ext _ _ (omega arith) (omega arith),
    )

charge_job-IsBalanced :
    (id : Text) (e : AgentTokens) (j : JobRecord) → IsBalanced j → IsBalanced (charge_job id e j)
charge_job-IsBalanced id e j (b, t) =
    unfold charge_job in pass (charge_agents id e j.agents) (charge_agents-Charged id e j.agents b)
  where
    charged : List RegisteredAgent → JobRecord
    charged bs =
        if (e.input == 0) && (e.output == 0)
        then j
        else record { agents = bs; job_tokens = some (sum j.job_tokens e) }

    pass :
        (o : Option (List RegisteredAgent))
        → Charged e j.agents o
        → IsBalanced (elim o [ none ↦ j | some bs ↦ charged bs ])
    pass none h = (b, t)
    pass (some bs) (h, u) = elim (Bool-cases ((e.input == 0) && (e.output == 0))) [
      | inl z ↦ rw z (b, t)
      | inr z ↦ rw z (h, sum-worth j.job_tokens e ∙ ap (λ x. plus x e) t ∙ sym u)
    ]

unfoldable pub handle_all : List Envelope → List (Text × JobRecord) → List (Text × JobRecord)
handle_all [] jobs = jobs
handle_all (env ∷ envs) jobs = handle_all envs (handle env jobs)

lookup-All :
    (P : JobRecord → Type 0) (k : Text) (j : JobRecord) (jobs : List (Text × JobRecord))
    → All (λ e. P e.1) jobs
    → lookup k jobs ≡ some j
    → P j
unfolding lookup
lookup-All P k j [] h e = absurd (false≢true (ap is_some e))
lookup-All P k j (x ∷ jobs) h e = elim (Bool-cases (same x.0 k)) [
  | inl hit ↦ subst P (ap (λ o. or_default o j) (rw hit at e)) h.0
  | inr miss ↦ lookup-All P k j jobs h.1 (rw miss at e)
]

handle-IsBalanced :
    (env : Envelope) (jobs : List (Text × JobRecord))
    → All (λ e. IsBalanced e.1) jobs
    → All (λ e. IsBalanced e.1) (handle env jobs)
handle-IsBalanced env jobs h = unfold handle in pass env.event
  where
    known : TokenUsage → Option JobRecord → List (Text × JobRecord)
    known usage o = elim o [
      | none ↦ jobs
      | some j ↦ insert env.job_id (charge_job env.agent_id (entry_of usage) j) jobs
    ]

    charge :
        (usage : TokenUsage) (o : Option JobRecord)
        → lookup env.job_id jobs ≡ o
        → All (λ e. IsBalanced e.1) (known usage o)
    charge usage none q = h
    charge usage (some j) q =
        insert-All (λ e. IsBalanced e.1) env.job_id _ jobs
          (charge_job-IsBalanced env.agent_id (entry_of usage) j
            (lookup-All IsBalanced env.job_id j jobs h q))
          h

    pass :
        (v : AdapterEvent)
        → All
            (λ e. IsBalanced e.1)
            (elim v [
              | other_event ↦ jobs
              | response none ↦ jobs
              | response (some usage) ↦ known usage (lookup env.job_id jobs)
            ])
    pass other_event = h
    pass (response none) = h
    pass (response (some usage)) = charge usage (lookup env.job_id jobs) refl

-- Whatever events arrive, for known or unknown jobs and agents, on every job the running total of
-- each agent stays the total of its history, and the job's total that of its agents.
pub handle_all-IsBalanced :
    (envs : List Envelope) (jobs : List (Text × JobRecord))
    → All (λ e. IsBalanced e.1) jobs
    → All (λ e. IsBalanced e.1) (handle_all envs jobs)
unfolding handle_all
handle_all-IsBalanced [] jobs h = h
handle_all-IsBalanced (env ∷ envs) jobs h =
    handle_all-IsBalanced envs (handle env jobs) (handle-IsBalanced env jobs h)
