-- ===== src/Proxy/Headers/Laws.antt =====
-- Which headers reach the backend.
use api_gateway_go.Base.{
  ◌≡◌, Bool, true, false, String, List, [], ◌∷◌, Bytes, lookup, string_eq, Elem,
}
use api_gateway_go.Proxy.Headers.{Headers}

-- The values that are copied under a name.
abbrev copied : Bool → List Bytes → List Bytes
copied true values = []
copied false values = values

-- The headers that the proxy itself sets.
abbrev pub own_headers : List String
own_headers =
    "X-Forwarded-For" ∷ "X-Forwarded-Proto" ∷ "X-Forwarded-Host" ∷ "X-Real-Ip" ∷ "X-Correlation-Id"
    ∷ "Via" ∷ []

-- Of a tracing library: its injection changes the headers of these names only.
abbrev pub InjectsOnly : List String → (Headers → Headers) → Type 0
InjectsOnly names inject =
    (name : String) (hs : Headers) → ¬ Elem name names → lookup name (inject hs) ≡ lookup name hs
