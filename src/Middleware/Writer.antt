-- ===== src/Middleware/Writer.antt =====
-- `errorResponseWriter` of internal/middleware/error_handling.go: the calls that it passes on to the
-- writer that it wraps, and what it records.
pub mod Laws
pub mod Sized
use api_gateway_go.Base.{ℕ, Bool, true, false, String, List, [], ◌∷◌, ◌++◌, if◌then◌else◌}
use api_gateway_go.Http.{Action, set_header, add_header, write_header, write, Chunk}

-- `errorResponseWriter`
pub record ErrorWriter : Type 0 where
  pub status_code : ℕ
  pub written : Bool

abbrev pub new_error_writer : ErrorWriter
new_error_writer = record { status_code = 200; written = false }

unfoldable pub pass_header : ℕ → ErrorWriter → List Action × ErrorWriter
pass_header status w =
    if w.written
    then ([], w)
    else (write_header status ∷ [], record { status_code = status; written = true })

unfoldable pub pass_write : Chunk → ErrorWriter → List Action × ErrorWriter
unfolding pass_header
pass_write chunk w =
    let (first, w') = pass_header 200 w in
    if w.written then (write chunk ∷ [], w) else (first ++ (write chunk ∷ []), w')

unfoldable pub pass : Action → ErrorWriter → List Action × ErrorWriter
unfolding pass_header pass_write
pass (set_header name v) w = (set_header name v ∷ [], w)
pass (add_header name v) w = (add_header name v ∷ [], w)
pass (write_header status) w = pass_header status w
pass (write chunk) w = pass_write chunk w

-- The calls of a handler, made on the wrapper.
unfoldable pub pass_all : List Action → ErrorWriter → List Action × ErrorWriter
unfolding pass
pass_all [] w = ([], w)
pass_all (a ∷ actions) w =
    let (passed, w') = pass a w in let (rest, w'') = pass_all actions w' in (passed ++ rest, w'')
