-- ===== src/Proxy/Laws.antt =====
-- How often and how long internal/proxy/proxy.go tries, and which path the backend is asked for.
use api_gateway_go.Base.{
  ℕ, zero, suc, ◌+◌, ◌*◌, ◌-◌, ◌^◌, ◌≤◌, ◌<◌, ◌≡◌, refl, ap, ◌∙◌, ◌⊎◌, inl, inr, true, false, List,
  [], ◌∷◌, bytes_eq, arith, Bool-cases,
}
use native.Mathlib.Nat.{two-pow-succ}
use mathlib.Core.Path.{subst}
use api_gateway_go.Proxy.{
  Error, is_retryable, Reply, response, failed, Outcome, forwarded, refused, exceeded, Run, backoff,
  attempts, forward_with_retry,
}

abbrev pub sum : List ℕ → ℕ
sum [] = 0
sum (x ∷ xs) = x + sum xs

module _ {R : Type 0} (reply : ℕ → Reply R) where
  abbrev pub Retried : ℕ → Type 0
  Retried n = (e : Error) × (reply n ≡ failed e) × (is_retryable e ≡ true)

  -- The outcome agrees with the last exchange, and how many retries were left tells whether a
  -- retryable error ends the run.
  abbrev pub Ends : ℕ → ℕ → Outcome R → Type 0
  Ends left last (forwarded r) = reply last ≡ response r
  Ends left last (refused e) = (reply last ≡ failed e) × (is_retryable e ≡ false)
  Ends left last (exceeded e) = (reply last ≡ failed e) × (is_retryable e ≡ true) × (left ≡ 0)

  Reply-cases : (n : ℕ) → ((r : R) × (reply n ≡ response r)) ⊎ ((e : Error) × (reply n ≡ failed e))
  Reply-cases n = go (reply n)
    where
      go : (x : Reply R) → ((r : R) × (x ≡ response r)) ⊎ ((e : Error) × (x ≡ failed e))
      go (response r) = inl (r, refl)
      go (failed e) = inr (e, refl)

  -- Facts about a run that starts at `attempt` with `left` retries.
  pub record IsRun (retry_delay attempt left : ℕ) (run : Run R) : Type 0 where
    pub sent_some : 1 ≤ run.sent
    pub sent_most : run.sent ≤ left + 1
    pub retried : (n : ℕ) → attempt ≤ n → n + 1 < attempt + run.sent → Retried n
    pub ends : Ends (left + 1 - run.sent) (attempt + run.sent - 1) run.outcome
    pub waited :
        sum run.delays + retry_delay * 2 ^ attempt ≡ retry_delay * 2 ^ (attempt + run.sent - 1)

  -- A run that ends at its first exchange.
  single-IsRun :
      (retry_delay attempt left : ℕ) (outcome : Outcome R)
      → Ends left attempt outcome
      → IsRun retry_delay attempt left (record { outcome = outcome; delays = []; sent = 1 })
  single-IsRun retry_delay attempt left outcome h =
      let same_left : left + 1 - 1 ≡ left = omega arith in
      let same_attempt : attempt + 1 - 1 ≡ attempt = omega arith in
      record {
        sent_some = omega arith;
        sent_most = omega arith;
        retried = λ n from to. absurd (omega arith);
        ends = (rw same_left (rw same_attempt h));
        waited = (rw same_attempt (omega arith));
      }

  double : (d a : ℕ) → d * 2 ^ a + d * 2 ^ a ≡ d * 2 ^ (a + 1)
  double d a = rw (next_power a) (grind arith)
    where
      next : (n : ℕ) → n + 1 ≡ suc n
      next n = omega arith

      next_power : (n : ℕ) → 2 ^ (n + 1) ≡ 2 ^ n + 2 ^ n
      next_power n = ap (λ k. 2 ^ k) (next n) ∙ two-pow-succ n

  -- A run that goes on after a retryable error.
  more-IsRun :
      (retry_delay attempt left : ℕ) (later : Run R)
      → Retried attempt
      → IsRun retry_delay (attempt + 1) left later
      → IsRun retry_delay attempt (suc left) (record {
        outcome = later.outcome;
        delays = backoff retry_delay (attempt + 1) ∷ later.delays;
        sent = suc later.sent;
      })
  unfolding backoff
  more-IsRun retry_delay attempt left later again run =
      let some_sent = run.sent_some in
      let most_sent = run.sent_most in
      let same_left : suc left + 1 - suc later.sent ≡ left + 1 - later.sent = omega arith in
      let same_last : attempt + suc later.sent - 1 ≡ attempt + 1 + later.sent - 1 = omega arith in
      let same_attempt : attempt + 1 - 1 ≡ attempt = omega arith in
      record {
        sent_some = omega arith;
        sent_most = omega arith;
        retried = λ n from to. retried n from to (omega_cases n from);
        ends = (rw same_left (rw same_last run.ends));
        waited =
            (rw same_last
              (rw same_attempt (omega (arith, double retry_delay attempt, run.waited))));
      }
    where
      omega_cases : (n : ℕ) → attempt ≤ n → (n ≡ attempt) ⊎ (attempt + 1 ≤ n)
      omega_cases n from = ground arith

      retried :
          (n : ℕ)
          → attempt ≤ n
          → n + 1 < attempt + suc later.sent
          → (n ≡ attempt) ⊎ (attempt + 1 ≤ n)
          → Retried n
      retried n from to (inl e) = rw e again
      retried n from to (inr past) = run.retried n past (omega arith)

  attempts-IsRun :
      (retry_delay left attempt : ℕ)
      → IsRun retry_delay attempt left (attempts reply retry_delay attempt left)
  unfolding attempts
  attempts-IsRun retry_delay zero attempt = elim (Reply-cases attempt) [
    | inl (r, e) ↦ rw (attempts, e) (single-IsRun retry_delay attempt 0 (forwarded r) e)
    | inr (x, e) ↦ elim (Bool-cases (is_retryable x)) [
      | inl again ↦
          rw (attempts, e, again) (single-IsRun retry_delay attempt 0 (exceeded x) (e, again, refl))
      | inr final ↦
          rw (attempts, e, final) (single-IsRun retry_delay attempt 0 (refused x) (e, final))
    ]
  ]
  attempts-IsRun retry_delay (suc left) attempt = elim (Reply-cases attempt) [
    | inl (r, e) ↦ rw (attempts, e) (single-IsRun retry_delay attempt (suc left) (forwarded r) e)
    | inr (x, e) ↦ elim (Bool-cases (is_retryable x)) [
      | inl again ↦
          rw (attempts, e, again)
            (more-IsRun retry_delay attempt left (attempts reply retry_delay (attempt + 1) left)
              (x, e, again) (attempts-IsRun retry_delay left (attempt + 1)))
      | inr final ↦
          rw (attempts, e, final)
            (single-IsRun retry_delay attempt (suc left) (refused x) (e, final))
    ]
  ]

  -- With `MaxRetries` retries the request is sent at least once and at most `MaxRetries + 1` times;
  -- each exchange but the last was a retryable error, and the result is that of the last: an error
  -- counts as exceeded only when it is retryable and no retry is left. The delays add up to the
  -- retry delay times 2^(sent - 1) - 1.
  pub forward_with_retry_lem :
      (retry_delay max_retries : ℕ)
      → let run = forward_with_retry reply retry_delay max_retries in
        (1 ≤ run.sent)
        × (run.sent ≤ max_retries + 1)
        × ((n : ℕ) → n + 1 < run.sent → Retried n)
        × Ends (max_retries + 1 - run.sent) (run.sent - 1) run.outcome
        × (sum run.delays ≡ retry_delay * 2 ^ (run.sent - 1) - retry_delay)
  unfolding forward_with_retry
  forward_with_retry_lem retry_delay max_retries =
      let facts = attempts-IsRun retry_delay max_retries 0 in
      let run = attempts reply retry_delay 0 max_retries in
      let same : 0 + run.sent ≡ run.sent = omega arith in
      let last : Ends (max_retries + 1 - run.sent) (run.sent - 1) run.outcome =
        subst (λ k. Ends (max_retries + 1 - run.sent) (k - 1) run.outcome) same facts.ends in
      let total : sum run.delays + retry_delay * 1 ≡ retry_delay * 2 ^ (run.sent - 1) =
        subst (λ k. sum run.delays + retry_delay * 1 ≡ retry_delay * 2 ^ (k - 1)) same
          facts.waited in
      (
        facts.sent_some,
        facts.sent_most,
        (λ n before. facts.retried n (omega arith) (omega arith)),
        last,
        omega (arith, total),
      )
