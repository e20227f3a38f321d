-- ===== src/Proxy/Headers/Tests.antt =====
-- The headers of a concrete request.
use api_gateway_go.Base.{
  ◌≡◌, refl, false, Option, some, [], ◌∷◌, Bytes, codes, lookup, insert, string_eq, bytes_beq,
}
use api_gateway_go.RateLimit.Key.{split, trim_space, trim_left, trim_right}
use api_gateway_go.Proxy.Headers.{
  Headers, Request, header, backend_headers, copy_headers, add_all, add, set, is_hop, one_of,
  add_forwarded_headers, get_client_ip,
}

abbrev local_host : Bytes → Option Bytes
local_host addr = some (codes "10.0.0.7")

-- The sender claims to have been forwarded, and asks for an upgrade.
abbrev spoofing : Request
spoofing = record {
  headers =
      ("X-Forwarded-For", codes "1.2.3.4" ∷ [])
      ∷ ("Upgrade", codes "h2c" ∷ [])
      ∷ ("Accept", codes "a" ∷ codes "b" ∷ [])
      ∷ [];
  remote_addr = codes "10.0.0.7:80";
  host = codes "gateway";
  tls = false;
  correlation_id = [];
}

-- The address of the peer, 10.0.0.7, does not appear.
peer_lost :
    lookup "X-Forwarded-For" (backend_headers local_host spoofing)
    ≡ some (codes "1.2.3.4, 1.2.3.4" ∷ [])
unfolding backend_headers copy_headers add_all add set is_hop one_of add_forwarded_headers
    get_client_ip header lookup insert split trim_space trim_left trim_right bytes_beq
peer_lost = refl

-- A trace context in one header.
abbrev inject : Headers → Headers
inject hs = set "Traceparent" (codes "00-1-1-00") hs
