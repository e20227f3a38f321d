-- ===== src/Http.antt =====
-- `net/http` as the gateway's middleware uses it: a handler answers a request by a list of calls of
-- its `http.ResponseWriter` and ends by returning or by a panic. `W` is the state that the
-- handlers share. The first `WriteHeader` or `Write` fixes the status and the headers; `Write`
-- before `WriteHeader` means status 200, and so does an answer without either. No handler sends an
-- informational status. The names of headers are written in their canonical form, under which
-- net/http keeps them: `X-Correlation-ID` is X-Correlation-Id. `set_header` is `Header().Set`, and
-- `add_header` is `Header().Add`; no handler removes a header.
pub mod Laws
pub mod Samples
use api_gateway_go.Base.{
  ℕ, Bool, Option, none, some, String, List, [], ◌∷◌, ◌++◌, Bytes, Dict, lookup, insert, string_eq,
}
use api_gateway_go.Context.{Context}

pub record Request : Type 0 where
  pub method : Bytes
  pub path : Bytes
  pub host : String
  pub request_uri : String
  -- `r.TLS != nil`
  pub tls : Bool
  pub headers : Dict String String
  pub user_agent : Bytes
  pub cookies : List (String × String)
  pub remote_addr : Bytes
  pub body_limit : Option ℕ
  pub context : Context

-- A value in a JSON object that the gateway writes.
pub data Value : Type 0 where
  text : String → Value
  bytes : Bytes → Value
  number : ℕ → Value
  object : List (String × String) → Value
  objects : List (String × List (String × String)) → Value

-- What one `Write` sends: an encoded object, or bytes that a backend or a library made.
pub data Chunk : Type 0 where
  json : List (String × Value) → Chunk
  raw : Bytes → Chunk

pub data Action : Type 0 where
  set_header add_header : String → String → Action
  write_header : ℕ → Action
  write : Chunk → Action

-- The text is what `fmt.Sprintf("%v", err)` makes of the value of the panic.
pub data Ending : Type 0 where
  returned : Ending
  panicked : String → Ending

pub record Run (W : Type 0) : Type 0 where
  pub actions : List Action
  pub ending : Ending
  pub world : W

abbrev pub Handler : Type 0 → Type 0
Handler W = Request → W → Run W

abbrev pub Middleware : Type 0 → Type 0
Middleware W = Handler W → Handler W

-- `r.Header.Get`
abbrev or_empty : Option String → String
or_empty none = ""
or_empty (some s) = s

unfoldable pub header : String → Request → String
header name r = or_empty (lookup name r.headers)

abbrev pub before : {W : Type 0} → List Action → Run W → Run W
before actions run = record run { actions = actions ++ run.actions }

abbrev pub done : {W : Type 0} → List Action → W → Run W
done actions w = record { actions = actions; ending = returned; world = w }

-- The values that a response has under a name.
abbrev pub Headers : Type 0
Headers = Dict String (List String)

abbrev pub values_of : Option (List String) → List String
values_of none = []
values_of (some values) = values

-- The response as it stands: the headers set so far, and the status and headers once they are sent.
pub record Reply : Type 0 where
  pub headers : Headers
  pub sent : Option (ℕ × Headers)
  pub body : List Chunk

abbrev pub no_reply : Reply
no_reply = record { headers = []; sent = none; body = [] }

abbrev pub send : ℕ → Reply → Option (ℕ × Headers) → Reply
send status reply none = record reply { sent = some (status, reply.headers) }
send status reply (some s) = reply

unfoldable pub act : Action → Reply → Reply
act (set_header name v) reply = record reply { headers = insert name (v ∷ []) reply.headers }
act (add_header name v) reply = record reply {
  headers = insert name (values_of (lookup name reply.headers) ++ (v ∷ [])) reply.headers;
}
act (write_header status) reply = send status reply reply.sent
act (write chunk) reply =
    let begun = send 200 reply reply.sent in record begun { body = begun.body ++ (chunk ∷ []) }

unfoldable pub answer : List Action → Reply → Reply
unfolding act
answer [] reply = reply
answer (a ∷ actions) reply = answer actions (act a reply)

-- What the client gets when the handler has ended.
pub record Seen : Type 0 where
  pub status : ℕ
  pub headers : Headers
  pub body : List Chunk

abbrev pub seen_of : Reply → Option (ℕ × Headers) → Seen
seen_of reply none = record { status = 200; headers = reply.headers; body = reply.body }
seen_of reply (some (status, headers)) = record {
  status = status;
  headers = headers;
  body = reply.body;
}

unfoldable pub seen : List Action → Seen
unfolding answer
seen actions = let reply = answer actions no_reply in seen_of reply reply.sent
