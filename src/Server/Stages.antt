-- ===== src/Server/Stages.antt =====
-- How the authorization middleware and the rate-limiting middleware answer on a response writer.
-- `encode` of a body is `encoding/json`'s, a parameter; the text of a number is `strconv.Itoa`'s.
-- The names of headers are canonical: `X-RateLimit-Limit` is X-Ratelimit-Limit.
use Prim.Native.String.{◌++◌ as text_append}
use api_gateway_go.Base.{
  suc, ℤ, pos, negsuc, Option, none, some, String, List, [], ◌∷◌, ◌++◌, codes, itoa,
}
use api_gateway_go.Config.{LimitDefinition}
use api_gateway_go.Context.{get_user_context}
use api_gateway_go.Auth.Context.{UserContext}
use api_gateway_go.Auth.Handler
use api_gateway_go.RateLimit.Limiter.{Result}
use api_gateway_go.RateLimit.Middleware.{Headers}
use api_gateway_go.RateLimit.Middleware
use api_gateway_go.Http.{Request, Action, set_header, write_header, write, Chunk, header}

-- What the authorization middleware reads of a request.
abbrev pub auth_request : Request → Handler.Request
auth_request r = record { path = r.path; cookies = r.cookies; context = r.context }

abbrev set_all : List (String × String) → List Action
set_all [] = []
set_all ((name, v) ∷ hs) = set_header name v ∷ set_all hs

-- The calls of `writeError`.
unfoldable pub write_auth_error : (Handler.Response → Chunk) → Handler.Response → List Action
write_auth_error encode answer =
    set_all answer.headers ++ (write_header answer.status ∷ write (encode answer) ∷ [])

abbrev user_id_of : Option UserContext → String
user_id_of none = ""
user_id_of (some u) = u.user_id

-- What the rate-limiting middleware reads of a request.
abbrev pub limit_request : Request → Middleware.Request
unfolding header get_user_context
limit_request r = record {
  method = r.method;
  keyed = record {
    forwarded_for = codes (header "X-Forwarded-For" r);
    real_ip = codes (header "X-Real-Ip" r);
    remote_addr = r.remote_addr;
    user_id = codes (user_id_of (get_user_context r.context));
    path = r.path;
  };
}

abbrev itoa_ℤ : ℤ → String
unfolding itoa
itoa_ℤ (pos n) = itoa n
itoa_ℤ (negsuc n) = text_append "-" (itoa (suc n))

abbrev set_if_some : {A : Type 0} → String → (A → String) → Option A → List Action
set_if_some name show none = []
set_if_some name show (some a) = set_header name (show a) ∷ []

-- The headers that the middleware has set when it has checked its limits.
unfoldable pub limit_headers : Headers → List Action
unfolding itoa
limit_headers h =
    set_if_some "X-Ratelimit-Limit" itoa h.limit
    ++ (set_if_some "X-Ratelimit-Remaining" itoa_ℤ h.remaining
        ++ (set_if_some "X-Ratelimit-Reset" itoa h.reset
            ++ (set_if_some "Retry-After" itoa h.retry_after
                ++ set_if_some "Content-Type" (λ s. s) h.content_type)))

-- The calls of `writeRateLimitError`.
unfoldable pub write_limit_error :
    (LimitDefinition → Option Result → Chunk)
    → Headers
    → LimitDefinition
    → Option Result
    → List Action
unfolding limit_headers
write_limit_error encode h limit_def result =
    limit_headers h ++ (write_header 429 ∷ write (encode limit_def result) ∷ [])
