-- ===== src/RateLimit/Key/Tests.antt =====
-- The theorems on rate-limit keys at a concrete request.
use api_gateway_go.Base.{◌≡◌, refl, some, [], codes, bytes_beq}
use api_gateway_go.RateLimit.Key.{
  Request, generate_key, key_parts, key_part, trim_space, trim_left, trim_right, split,
  get_client_ip, before_last_colon, join_colon,
}

abbrev from_users : Request
from_users = record {
  forwarded_for = [];
  real_ip = [];
  remote_addr = codes "10.0.0.7:5123";
  user_id = codes "ann";
  path = codes "/users";
}

key_by_ip :
    generate_key (codes "ip:route") from_users ≡ some (codes "ratelimit:ip:10.0.0.7:route:/users")
unfolding generate_key key_parts key_part bytes_beq trim_space trim_left trim_right split
    get_client_ip before_last_colon join_colon
key_by_ip = refl
