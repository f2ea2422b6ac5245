-- ===== src/Broker/Connect/Retry.antt =====
-- How often `connectWithRetry` tries, how long it waits, and how it ends.
use mqtt_tunnel.Base.{
  ℕ, zero, suc, ◌≤◌, ◌≡◌, refl, sym, ap, subst, ◌∙◌, ◌≢◌, ◌⊎◌, inl, inr, true, false, Option, none,
  some, List, [], ◌∷◌, arith, Bool-cases, length, All,
}
use mqtt_tunnel.World.Effects.{Env, Reply, accepted, refused, timed_out, Reply-cases}
use mqtt_tunnel.World.Monad.{Error, retries_exhausted, context_ended}
use mqtt_tunnel.Broker.Connect.{
  Attempts, max_retries, max_delay, next_delay, and_then, outcome, retry, connect_with_retry,
}

-- What `retry` keeps to: the attempts left, and the longest wait.
abbrev pub Bounded : ℕ → Attempts → Type 0
Bounded left a = (a.made ≤ left) × (length a.waits ≤ left) × All (λ d. d ≤ max_delay) a.waits

next_delay_le : (d : ℕ) → d ≤ max_delay → next_delay d ≤ max_delay
next_delay_le d h = ground arith

and_then-Bounded :
    (left d : ℕ) (a : Attempts) → d ≤ max_delay → Bounded left a → Bounded (suc left) (and_then d a)
and_then-Bounded left d a h (made, waits, all) = (omega arith, omega arith, (h, all))

outcome-Bounded : (left : ℕ) (e : Option Error) → Bounded (suc left) (outcome e)
outcome-Bounded left e = (omega arith, omega arith, tt)

-- The step behind an attempt that was not accepted.
abbrev next : Env → ℕ → ℕ → ℕ → Attempts
next env left n delay = elim (env.context_ends n) [
  | true ↦ outcome (some context_ended)
  | false ↦ and_then delay (retry env left (suc n) (next_delay delay))
]

retry-not_accepted :
    (env : Env) (left n delay : ℕ)
    → env.connect_reply n ≢ accepted
    → retry env (suc left) n delay ≡ next env left n delay
unfolding retry
retry-not_accepted env left n delay h = elim (Reply-cases (env.connect_reply n)) [
  | inl e ↦ absurd (h e)
  | inr (inl e) ↦ rw (e, retry) refl
  | inr (inr e) ↦ rw (e, retry) refl
]

retry-accepted :
    (env : Env) (left n delay : ℕ)
    → env.connect_reply n ≡ accepted
    → retry env (suc left) n delay ≡ outcome none
unfolding retry
retry-accepted env left n delay e = rw (e, retry) refl

accepted? : (r : Reply) → (r ≡ accepted) ⊎ (r ≢ accepted)
accepted? accepted = inl refl
accepted? refused = inr (λ e. ground arith)
accepted? timed_out = inr (λ e. ground arith)

retry-Bounded :
    (env : Env) (left n delay : ℕ) → delay ≤ max_delay → Bounded left (retry env left n delay)
unfolding retry
retry-Bounded env zero n delay h = (omega arith, omega arith, tt)
retry-Bounded env (suc left) n delay h = elim (accepted? (env.connect_reply n)) [
  | inl e ↦
      subst (Bounded (suc left)) (sym (retry-accepted env left n delay e))
        (outcome-Bounded left none)
  | inr ne ↦
      let ih = retry-Bounded env left (suc n) (next_delay delay) (next_delay_le delay h) in
      subst (Bounded (suc left)) (sym (retry-not_accepted env left n delay ne))
        (elim (Bool-cases (env.context_ends n)) [
          | inl c ↦ rw (c, next) (outcome-Bounded left (some context_ended))
          | inr c ↦
              rw (c, next)
                (and_then-Bounded left delay (retry env left (suc n) (next_delay delay)) h ih)
        ])
]

-- Whatever the broker answers, `connectWithRetry` makes ten attempts at most, waits ten times at
-- most, and never waits more than sixty seconds at a time.
pub connect_with_retry-Bounded : (env : Env) → Bounded max_retries (connect_with_retry env)
unfolding connect_with_retry
connect_with_retry-Bounded env = retry-Bounded env 10 1 10 (omega arith)

-- The waits of `left` failed attempts from a first delay on.
abbrev pub delays : ℕ → ℕ → List ℕ
delays zero delay = []
delays (suc left) delay = delay ∷ delays left (next_delay delay)

retry_hopeless :
    (env : Env) (left n delay : ℕ)
    → ((i : ℕ) → env.connect_reply i ≢ accepted)
    → ((i : ℕ) → env.context_ends i ≡ false)
    → retry env left n delay
      ≡ record { failure = some retries_exhausted; waits = delays left delay; made = left }
unfolding retry
retry_hopeless env zero n delay declined on = refl
retry_hopeless env (suc left) n delay declined on =
    retry-not_accepted env left n delay (declined n)
    ∙ (rw (on n, next)
        (ap (and_then delay) (retry_hopeless env left (suc n) (next_delay delay) declined on)))

-- If no attempt is accepted and the context never ends, `connectWithRetry` gives up behind the tenth
-- attempt, having waited 10, 20, 40 and then seven times 60 seconds, once behind the last attempt.
pub connect_with_retry_hopeless :
    (env : Env)
    → ((i : ℕ) → env.connect_reply i ≢ accepted)
    → ((i : ℕ) → env.context_ends i ≡ false)
    → connect_with_retry env ≡ record {
      failure = some retries_exhausted;
      waits = 10 ∷ 20 ∷ 40 ∷ 60 ∷ 60 ∷ 60 ∷ 60 ∷ 60 ∷ 60 ∷ 60 ∷ [];
      made = 10;
    }
unfolding connect_with_retry
connect_with_retry_hopeless env declined on = retry_hopeless env 10 1 10 declined on
