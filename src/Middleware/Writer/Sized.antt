-- ===== src/Middleware/Writer/Sized.antt =====
-- `ResponseWriter` of internal/middleware/util.go: the calls that it passes on to the writer that it
-- wraps, and what it records. `Flush` and `Hijack` only pass a call on.
pub mod Laws
use api_gateway_go.Base.{ℕ, ◌+◌, Bool, true, false, List, [], ◌∷◌, ◌++◌, if◌then◌else◌}
use api_gateway_go.Http.{Action, set_header, add_header, write_header, write, Chunk}

-- `ResponseWriter`
pub record ResponseWriter : Type 0 where
  pub status : ℕ
  pub size : ℕ
  pub wrote_header : Bool

unfoldable pub new_response_writer : ResponseWriter
new_response_writer = record { status = 200; size = 0; wrote_header = false }

unfoldable pub pass_header : ℕ → ResponseWriter → List Action × ResponseWriter
pass_header status w =
    if w.wrote_header
    then ([], w)
    else (write_header status ∷ [], record w { status = status; wrote_header = true })

-- `accepted` is the number of bytes of a chunk that the writer below reports as written.
module _ (accepted : Chunk → ℕ) where
  unfoldable pub pass_write : Chunk → ResponseWriter → List Action × ResponseWriter
  unfolding pass_header
  pass_write chunk w =
      let (first, w') = if w.wrote_header then ([], w) else pass_header 200 w in
      (first ++ (write chunk ∷ []), record w' { size = w'.size + accepted chunk })

  unfoldable pub pass : Action → ResponseWriter → List Action × ResponseWriter
  unfolding pass_header pass_write
  pass (set_header name v) w = (set_header name v ∷ [], w)
  pass (add_header name v) w = (add_header name v ∷ [], w)
  pass (write_header status) w = pass_header status w
  pass (write chunk) w = pass_write chunk w

  unfoldable pub pass_all : List Action → ResponseWriter → List Action × ResponseWriter
  unfolding pass
  pass_all [] w = ([], w)
  pass_all (a ∷ actions) w =
      let (passed, w') = pass a w in let (rest, w'') = pass_all actions w' in (passed ++ rest, w'')
