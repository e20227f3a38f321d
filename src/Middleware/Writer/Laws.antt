-- ===== src/Middleware/Writer/Laws.antt =====
-- The wrappers change nothing that the client sees, and record the status that it sees.
use api_gateway_go.Base.{
  ℕ, ◌≡◌, refl, ap, ◌∙◌, true, false, Option, none, some, List, [], ◌∷◌, arith,
}
use api_gateway_go.Http.{
  Action, set_header, add_header, Headers, write_header, write, Reply, no_reply, act, answer,
  seen_of, seen,
}
use api_gateway_go.Http.Laws.{answer-append}
use api_gateway_go.Middleware.Writer.{
  ErrorWriter, new_error_writer, pass_header, pass_write, pass, pass_all,
}

-- The wrapper and the response below it agree on whether it has started, and with which status.
abbrev pub Records : ErrorWriter → Option (ℕ × Headers) → Type 0
Records w none = (w.written ≡ false) × (w.status_code ≡ 200)
Records w (some (status, headers)) = (w.written ≡ true) × (w.status_code ≡ status)

pass_lem :
    (a : Action) (w : ErrorWriter) (reply : Reply)
    → Records w reply.sent
    → let (passed, w') = pass a w in
      (answer passed reply ≡ act a reply) × Records w' (act a reply).sent
unfolding answer act pass pass_header pass_write
pass_lem (set_header name v) w reply h = (refl, h)
pass_lem (add_header name v) w reply h = (refl, h)
pass_lem (write_header status) w reply h = ground arith
pass_lem (write chunk) w reply h = ground arith

pub pass_all_lem :
    (actions : List Action) (w : ErrorWriter) (reply : Reply)
    → Records w reply.sent
    → let (passed, w') = pass_all actions w in
      (answer passed reply ≡ answer actions reply) × Records w' (answer actions reply).sent
unfolding answer pass_all
pass_all_lem [] w reply h = (refl, h)
pass_all_lem (a ∷ actions) w reply h =
    let (p, w') = pass a w in
    let (same, h') = pass_lem a w reply h in
    let (same', h'') = pass_all_lem actions w' (act a reply) h' in
    (
      answer-append p (pass_all actions w').0 reply
          ∙ ap (answer (pass_all actions w').0) same
          ∙ same',
      h'',
    )

-- A handler that writes through the wrapper gives the client the same answer as without it.
pub pass_all-seen :
    (actions : List Action)
    → let (passed, w) = pass_all actions new_error_writer in
      (seen passed ≡ seen actions) × (w.status_code ≡ (seen actions).status)
unfolding seen
pass_all-seen actions =
    let (same, h) = pass_all_lem actions new_error_writer no_reply (refl, refl) in
    (ap (λ (r : Reply). seen_of r r.sent) same, ground arith)
