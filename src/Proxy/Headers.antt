-- ===== src/Proxy/Headers.antt =====
-- internal/proxy/proxy.go: the headers of the backend request and of the answer to the client.
-- A header has a list of values; a key stands in the map once, in its canonical form:
-- `X-Correlation-ID` and `X-Real-IP` are X-Correlation-Id and X-Real-Ip there. White space is
-- that of ASCII. `net.SplitHostPort` is a parameter: the host, or `none` for an error.
pub mod Laws
mod Tests
use api_gateway_go.Base.{
  Bool, true, false, Option, none, some, String, List, [], ◌∷◌, ◌++◌, Bytes, codes, Dict, lookup,
  insert, string_eq, bytes_eq, ◌==◌, ◌||◌, if◌then◌else◌,
}
use api_gateway_go.RateLimit.Key.{split, trim_space}

abbrev pub Headers : Type 0
Headers = Dict String (List Bytes)

-- What the proxy reads of the client's request.
pub record Request : Type 0 where
  pub headers : Headers
  pub remote_addr : Bytes
  pub host : Bytes
  -- `TLS != nil`
  pub tls : Bool
  -- `logger.GetCorrelationID` of its context
  pub correlation_id : Bytes

abbrev pub values_of : Option (List Bytes) → List Bytes
values_of none = []
values_of (some values) = values

abbrev first_of : List Bytes → Bytes
first_of [] = []
first_of (v ∷ vs) = v

-- `Header.Get`, `Header.Add` and `Header.Set`
unfoldable pub header : String → Headers → Bytes
header name hs = first_of (values_of (lookup name hs))

unfoldable pub add : String → Bytes → Headers → Headers
add name v hs = insert name (values_of (lookup name hs) ++ (v ∷ [])) hs

unfoldable pub set : String → Bytes → Headers → Headers
set name v hs = insert name (v ∷ []) hs

abbrev pub hop_headers : List String
hop_headers =
    "Connection" ∷ "Keep-Alive" ∷ "Proxy-Authenticate" ∷ "Proxy-Authorization" ∷ "Te" ∷ "Trailer"
    ∷ "Transfer-Encoding" ∷ "Upgrade" ∷ []

unfoldable pub one_of : String → List String → Bool
one_of name [] = false
one_of name (n ∷ names) = n == name || one_of name names

-- `hopHeaders[key]`
unfoldable pub is_hop : String → Bool
unfolding one_of
is_hop name = one_of name hop_headers

unfoldable pub add_all : String → List Bytes → Headers → Headers
unfolding add
add_all name [] dst = dst
add_all name (v ∷ vs) dst = add_all name vs (add name v dst)

-- The loop over the headers, in `copyRequestHeaders` and in `copyResponseHeaders`.
unfoldable pub copy_headers : Headers → Headers → Headers
unfolding add_all is_hop
copy_headers [] dst = dst
copy_headers ((name, values) ∷ src) dst =
    copy_headers src (if is_hop name then dst else add_all name values dst)

-- `copyResponseHeaders`
unfoldable pub copy_response_headers : Headers → Headers → Headers
unfolding copy_headers set
copy_response_headers src dst = set "X-Gateway-Version" (codes "1.0.0") (copy_headers src dst)

abbrev host_or : Bytes → Option Bytes → Bytes
host_or addr none = addr
host_or addr (some ip) = ip

module _ (split_host_port : Bytes → Option Bytes) where
  -- `getClientIP`
  unfoldable pub get_client_ip : Request → Bytes
  unfolding header
  get_client_ip r =
      let forwarded = header "X-Forwarded-For" r.headers in
      let real_ip = header "X-Real-Ip" r.headers in
      let peer = host_or r.remote_addr (split_host_port r.remote_addr) in
      if forwarded == []
      then if real_ip == [] then peer else real_ip
      else trim_space (split b',' forwarded).0

  -- `addForwardedHeaders`
  unfoldable pub add_forwarded_headers : Request → Headers → Headers
  unfolding header set get_client_ip
  add_forwarded_headers r dst =
      let prior = header "X-Forwarded-For" r.headers in
      let ip = get_client_ip r in
      let client_ip = if prior == [] then ip else prior ++ (codes ", " ++ ip) in
      let dst1 = set "X-Forwarded-For" client_ip dst in
      let dst2 = set "X-Forwarded-Proto" (if r.tls then codes "https" else codes "http") dst1 in
      let dst3 = set "X-Forwarded-Host" r.host dst2 in
      if header "X-Real-Ip" r.headers == [] then set "X-Real-Ip" ip dst3 else dst3

  -- The headers that `createBackendRequest` gives its request.
  unfoldable pub backend_headers : Request → Headers
  unfolding copy_headers add_forwarded_headers set add
  backend_headers r =
      let dst = add_forwarded_headers r (copy_headers r.headers []) in
      let dst' =
        if r.correlation_id == [] then dst else set "X-Correlation-Id" r.correlation_id dst in
      add "Via" (codes "1.1 gateway") dst'
