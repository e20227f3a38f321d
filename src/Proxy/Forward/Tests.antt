-- ===== src/Proxy/Forward/Tests.antt =====
-- A request that is forwarded at the third attempt, to a backend that answers with an error status.
use api_gateway_go.Base.{
  ltb, if◌then◌else◌, ℕ, ◌≡◌, ◌≢◌, refl, Bool, true, false, Option, none, some, String, [], ◌∷◌,
  Bytes, codes, lookup, string_eq,
}
use api_gateway_go.Breaker.{default_config, new}
use api_gateway_go.Manager.{Manager, get}
use api_gateway_go.Proxy.{Url, Error, Reply, response, failed, forward_with_retry}
use api_gateway_go.Proxy.Headers.{Headers, set}
use api_gateway_go.Proxy.Forward.{Inbound, Outbound, Response, outbound, forward}
use api_gateway_go.Proxy.Forward.Laws.{Told, forward_lem}

abbrev parse_all : String → Option Url
parse_all s =
    some (record { scheme = codes "http"; host = codes "users"; path = []; raw_query = [] })

abbrev create_all : String → Url → Bool
create_all method url = true

abbrev traced : Headers → Headers
traced hs = set "Traceparent" (codes "00-1-1-00") hs

abbrev no_port : Bytes → Option Bytes
no_port addr = none

abbrev not_listening : Error
not_listening = record {
  is_net_error = true;
  is_deadline = false;
  text = codes "dial: connection refused";
}

abbrev unavailable : Response
unavailable = record { status = 503; headers = []; body = codes "busy" }

abbrev starting : Outbound → ℕ → Reply Response
starting out n = if ltb n 2 then failed not_listening else response unavailable

abbrev inbound : Inbound
inbound = record {
  method = "GET";
  path = codes "/7";
  raw_query = [];
  body = [];
  request = record {
    headers = [];
    remote_addr = codes "10.0.0.7";
    host = codes "gateway";
    tls = false;
    correlation_id = [];
  };
  backend_url = "http://users";
  strip_prefix = [];
}

abbrev orders_only : Manager
orders_only = record { breakers = ("http://orders", new "http://orders" none 2) ∷ [] }

abbrev orders_url : String
orders_url = "http://orders"

orders_not_inbound : orders_url ≢ inbound.backend_url
orders_not_inbound e = cc e

forward_lem_example :
    let out =
      outbound traced no_port inbound
        (record { scheme = codes "http"; host = codes "users"; path = []; raw_query = [] }) in
    let (m', result) =
      forward starting 3 100 parse_all create_all traced no_port inbound [] 5 6 7 orders_only in
    let cb = (get inbound.backend_url (some default_config) 5 orders_only).0 in
    let run = forward_with_retry (starting out) 100 3 in
    (lookup orders_url m'.breakers ≡ lookup orders_url orders_only.breakers)
    × Told [] 6 7 cb run.outcome (lookup inbound.backend_url m'.breakers) result
forward_lem_example =
    forward_lem starting 3 100 parse_all create_all traced no_port inbound [] 5 6 7 orders_only
      (record { scheme = codes "http"; host = codes "users"; path = []; raw_query = [] }) orders_url
      refl refl orders_not_inbound
