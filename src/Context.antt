-- ===== src/Context.antt =====
-- `context.Context` as the gateway uses it: values under keys, the innermost first. Two keys are
-- equal if their Go types and their texts are, so a plain string never equals a key of a named type.
-- The keys are those of internal/auth/context.go, internal/middleware/chain.go and
-- internal/logger/logger.go; `foreign_key` is one of a type of another package.
use api_gateway_go.Base.{
  ℕ, Bool, false, ◌&&◌, ◌≡◌, refl, Option, none, some, String, List, [], ◌∷◌, ◌==◌, string_eq,
  if◌then◌else◌,
}
use api_gateway_go.Auth.Context.{UserContext}
use api_gateway_go.Router.{Match, Route}

pub data ContextKey : Type 0 where
  bare : String → ContextKey
  auth_key : String → ContextKey
  middleware_key : String → ContextKey
  logger_key : String → ContextKey
  foreign_key : String → String → ContextKey

pub data ContextValue : Type 0 where
  route_match : Match → ContextValue
  user : UserContext → ContextValue
  duration : ℕ → ContextValue
  text : String → ContextValue

abbrev pub Context : Type 0
Context = List (ContextKey × ContextValue)

unfoldable pub same_key : ContextKey → ContextKey → Bool
same_key (bare s) (bare t) = s == t
same_key (auth_key s) (auth_key t) = s == t
same_key (middleware_key s) (middleware_key t) = s == t
same_key (logger_key s) (logger_key t) = s == t
same_key (foreign_key a s) (foreign_key b t) = a == b && s == t
same_key _ _ = false

-- `ctx.Value(key)`
unfoldable pub value : ContextKey → Context → Option ContextValue
value key [] = none
value key ((k, v) ∷ ctx) = if same_key k key then some v else value key ctx

-- `auth.SetUserContext`
abbrev pub set_user_context : UserContext → Context → Context
set_user_context u ctx = (auth_key "auth_user", user u) ∷ ctx

abbrev as_user : Option ContextValue → Option UserContext
as_user (some (user u)) = some u
as_user _ = none

-- `auth.GetUserContext`
unfoldable pub get_user_context : Context → Option UserContext
unfolding value same_key
get_user_context ctx = as_user (value (auth_key "auth_user") ctx)

-- `logger.WithCorrelationID`
abbrev pub with_correlation_id : String → Context → Context
with_correlation_id id ctx = (logger_key "correlation_id", text id) ∷ ctx

abbrev as_text : Option ContextValue → String
as_text (some (text s)) = s
as_text _ = ""

-- `logger.GetCorrelationID`
unfoldable pub get_correlation_id : Context → String
unfolding value same_key
get_correlation_id ctx = as_text (value (logger_key "correlation_id") ctx)

-- What `middleware.Timing` stores.
abbrev pub with_duration : ℕ → Context → Context
with_duration d ctx = (middleware_key "duration", duration d) ∷ ctx

abbrev as_route : Option ContextValue → Option Route
as_route (some (route_match m)) = some m.route
as_route _ = none

-- `getRouteFromContext` of internal/auth/middleware.go: the key is a plain string.
unfoldable pub get_route_from_context : Context → Option Route
get_route_from_context ctx = as_route (value (bare "route_match") ctx)

-- `middleware.RouteMatchFromContext`: the key is a `middleware.ContextKey`.
unfoldable pub route_match_from_context : Context → Option ContextValue
route_match_from_context ctx = value (middleware_key "route_match") ctx

-- The contexts that a request can have here: the gateway's own code stores values by these three
-- functions only, and `net/http` and the tracing library under keys of types of their own.
pub data IsBuilt : Context → Type 0 where
  background : IsBuilt []
  with_user : {ctx : Context} (u : UserContext) → IsBuilt ctx → IsBuilt (set_user_context u ctx)
  with_id : {ctx : Context} (id : String) → IsBuilt ctx → IsBuilt (with_correlation_id id ctx)
  with_foreign :
      {ctx : Context} (type name : String) (v : ContextValue)
      → IsBuilt ctx
      → IsBuilt ((foreign_key type name, v) ∷ ctx)
  with_time : {ctx : Context} (d : ℕ) → IsBuilt ctx → IsBuilt (with_duration d ctx)

pub get_route-IsBuilt : {ctx : Context} → IsBuilt ctx → get_route_from_context ctx ≡ none
unfolding get_route_from_context value same_key
get_route-IsBuilt background = refl
get_route-IsBuilt (with_user u b) = get_route-IsBuilt b
get_route-IsBuilt (with_id id b) = get_route-IsBuilt b
get_route-IsBuilt (with_foreign type name v b) = get_route-IsBuilt b
get_route-IsBuilt (with_time d b) = get_route-IsBuilt b

pub get_user-set_user :
    (u : UserContext) (ctx : Context) → get_user_context (set_user_context u ctx) ≡ some u
unfolding get_user_context
get_user-set_user u ctx = refl
