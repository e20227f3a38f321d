-- ===== src/Middleware/Writer/Sized/Laws.antt =====
-- The wrapper of internal/middleware/util.go changes nothing that the client sees, and records the
-- status and the size of what it sees.
use api_gateway_go.Base.{
  ℕ, ◌+◌, ◌≡◌, refl, ap, ◌∙◌, true, false, Option, none, some, List, [], ◌∷◌, ◌++◌, arith,
}
use api_gateway_go.Http.{
  Action, set_header, add_header, Headers, write_header, write, Chunk, Reply, no_reply, act, answer,
  seen_of, seen,
}
use api_gateway_go.Http.Laws.{answer-append}
use api_gateway_go.Middleware.Writer.Sized.{
  ResponseWriter, new_response_writer, pass_header, pass_write, pass, pass_all,
}

abbrev pub total : (Chunk → ℕ) → List Chunk → ℕ
total accepted [] = 0
total accepted (c ∷ cs) = accepted c + total accepted cs

total-append :
    (accepted : Chunk → ℕ) (cs : List Chunk) (c : Chunk)
    → total accepted (cs ++ (c ∷ [])) ≡ total accepted cs + accepted c
total-append accepted [] c = omega arith
total-append accepted (x ∷ cs) c = omega (arith, total-append accepted cs c)

abbrev Records : ResponseWriter → Option (ℕ × Headers) → Type 0
Records w none = (w.wrote_header ≡ false) × (w.status ≡ 200)
Records w (some (status, headers)) = (w.wrote_header ≡ true) × (w.status ≡ status)

module _ (accepted : Chunk → ℕ) where
  pass_lem :
      (a : Action) (w : ResponseWriter) (reply : Reply)
      → Records w reply.sent
      → w.size ≡ total accepted reply.body
      → let (passed, w') = pass accepted a w in
        (answer passed reply ≡ act a reply)
        × Records w' (act a reply).sent
        × (w'.size ≡ total accepted (act a reply).body)
  unfolding answer act pass pass_header pass_write
  pass_lem (set_header name v) w reply h size = (refl, h, size)
  pass_lem (add_header name v) w reply h size = (refl, h, size)
  pass_lem (write_header status) w reply h size = ground arith
  pass_lem (write chunk) w reply h size = ground (arith, total-append accepted reply.body chunk)

  pass_all_lem :
      (actions : List Action) (w : ResponseWriter) (reply : Reply)
      → Records w reply.sent
      → w.size ≡ total accepted reply.body
      → let (passed, w') = pass_all accepted actions w in
        (answer passed reply ≡ answer actions reply)
        × Records w' (answer actions reply).sent
        × (w'.size ≡ total accepted (answer actions reply).body)
  unfolding answer pass_all
  pass_all_lem [] w reply h size = (refl, h, size)
  pass_all_lem (a ∷ actions) w reply h size =
      let (p, w') = pass accepted a w in
      let (same, h', size') = pass_lem a w reply h size in
      let (same', h'', size'') = pass_all_lem actions w' (act a reply) h' size' in
      (
        answer-append p (pass_all accepted actions w').0 reply
            ∙ ap (answer (pass_all accepted actions w').0) same
            ∙ same',
        h'',
        size'',
      )

  -- A handler that writes through the wrapper gives the client the same answer as without it, and
  -- the wrapper's status and size are those of that answer.
  pub pass_all-sized :
      (actions : List Action)
      → let (passed, w) = pass_all accepted actions new_response_writer in
        (seen passed ≡ seen actions)
        × (w.status ≡ (seen actions).status)
        × (w.size ≡ total accepted (seen actions).body)
  unfolding seen new_response_writer
  pass_all-sized actions =
      let (same, h, size) = pass_all_lem actions new_response_writer no_reply (refl, refl) refl in
      (ap (λ (r : Reply). seen_of r r.sent) same, ground arith, ground arith)
