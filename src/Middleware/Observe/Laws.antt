-- ===== src/Middleware/Observe/Laws.antt =====
-- The metrics record the answer that is seen.
use api_gateway_go.Base.{ℕ, All, ◌≤◌, ◌≡◌, ◌≢◌, refl, codes, ◌==◌, bytes_eq, Bool-cases, inl, inr}
use api_gateway_go.Http.{
  Request, Action, set_header, add_header, write_header, write, Chunk, Handler, returned, seen,
}
use api_gateway_go.Middleware.Writer.Sized.Laws.{total, pass_all-sized}
use api_gateway_go.Middleware.Observe.{metrics}

-- A call that sends no informational status, such as 103.
abbrev pub IsFinal : Action → Type 0
IsFinal (set_header name v) = Unit
IsFinal (add_header name v) = Unit
IsFinal (write_header status) = 200 ≤ status
IsFinal (write chunk) = Unit

-- As the model has it, where the first `WriteHeader` fixes the status.
pub metrics-seen :
    {W : Type 0} (accepted : Chunk → ℕ) (count : ℕ → ℕ → W → W) (next : Handler W) (r : Request)
    (w : W)
    → let run = next r w in
      let counted = metrics accepted count next r w in
      let answer = seen run.actions in
      (seen counted.actions ≡ answer)
      × (counted.ending ≡ run.ending)
      × (r.path ≢ codes "/metrics"
          → run.ending ≡ returned
          → counted.world ≡ count answer.status (total accepted answer.body) run.world)
unfolding metrics
metrics-seen accepted count next r w =
    let (same, status, size) = pass_all-sized accepted (next r w).actions in
    elim (Bool-cases (r.path == codes "/metrics")) [
      | inl own ↦
          (rw own refl, rw own refl, λ other done. absurd (other ((bytes_eq.agrees _ _).0 own)))
      | inr other_path ↦ (
        rw other_path same,
        rw other_path refl,
        λ other done. rw (other_path, done, status, size) refl,
      )
    ]

-- The metrics leave the status, the headers and the body that a client sees as they are, and hand a
-- panic on. For a handler that returns, outside "/metrics", they record the status that the client
-- sees and the size of the body that was accepted. The handler sends no informational status.
pub metrics_lem :
    {W : Type 0} (accepted : Chunk → ℕ) (count : ℕ → ℕ → W → W) (next : Handler W) (r : Request)
    (w : W)
    → All IsFinal (next r w).actions
    → let run = next r w in
      let counted = metrics accepted count next r w in
      let answer = seen run.actions in
      (seen counted.actions ≡ answer)
      × (counted.ending ≡ run.ending)
      × (r.path ≢ codes "/metrics"
          → run.ending ≡ returned
          → counted.world ≡ count answer.status (total accepted answer.body) run.world)
metrics_lem accepted count next r w final = metrics-seen accepted count next r w
