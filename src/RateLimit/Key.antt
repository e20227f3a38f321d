-- ===== src/RateLimit/Key.antt =====
-- internal/ratelimit/keygen.go: the key under which a request is counted.
-- `strings.TrimSpace` is modelled on ASCII white space. A user without an identifier counts as no
-- user, as in the source.
pub mod Laws
mod Tests
use api_gateway_go.Base.{
  ℕ, Bool, true, false, ◌&&◌, ◌||◌, Option, none, some, List, [], ◌∷◌, ◌++◌, Bytes, codes, eqb, leb,
  ◌==◌, bytes_eq, if◌then◌else◌,
}

-- What the generator reads of a request.
pub record Request : Type 0 where
  pub forwarded_for : Bytes
  pub real_ip : Bytes
  pub remote_addr : Bytes
  pub user_id : Bytes
  pub path : Bytes

-- `strings.Split(s, sep)` for a separator of one byte; there is always a first part.
unfoldable pub split : ℕ → Bytes → Bytes × List Bytes
split sep [] = ([], [])
split sep (b ∷ s) =
    let (part, parts) = split sep s in if eqb b sep then ([], part ∷ parts) else (b ∷ part, parts)

is_space : ℕ → Bool
is_space b = eqb b b' ' || (leb 9 b && leb b 13)

-- Drops white space in front.
unfoldable pub trim_left : Bytes → Bytes
unfolding is_space
trim_left [] = []
trim_left (b ∷ s) = let rest = trim_left s in if is_space b then rest else b ∷ s

all_space : Bytes → Bool
unfolding is_space
all_space [] = true
all_space (b ∷ s) = is_space b && all_space s

-- Drops white space behind.
unfoldable pub trim_right : Bytes → Bytes
unfolding all_space
trim_right [] = []
trim_right (b ∷ s) = let rest = trim_right s in if all_space (b ∷ s) then [] else b ∷ rest

-- `strings.TrimSpace`
unfoldable pub trim_space : Bytes → Bytes
trim_space s = trim_left (trim_right s)

-- `addr[:strings.LastIndex(addr, ":")]`, or all of it where there is no colon.
unfoldable pub before_last_colon : Bytes → Option Bytes
before_last_colon [] = none
before_last_colon (b ∷ s) = elim (before_last_colon s) [
  | some rest ↦ some (b ∷ rest)
  | none ↦ if eqb b b':' then some [] else none
]

-- The header values are "" where a header is missing.
unfoldable pub get_client_ip : Request → Bytes
get_client_ip r =
    if r.forwarded_for == []
    then if r.real_ip == []
      then elim (before_last_colon r.remote_addr) [ some ip ↦ ip | none ↦ r.remote_addr ]
      else trim_space r.real_ip
    else trim_space (split b',' r.forwarded_for).0

-- The text of one part of the template: `none` ends the generation, `some none` skips the part.
unfoldable pub key_part : Request → Bytes → Option (Option Bytes)
key_part r part =
    if part == codes "ip"
    then if get_client_ip r == [] then none else some (some (codes "ip:" ++ get_client_ip r))
    else if part == codes "user"
    then if r.user_id == [] then none else some (some (codes "user:" ++ r.user_id))
    else if part == codes "route"
    then some (some (codes "route:" ++ r.path))
    else some none

-- The loop over the parts, with the later parts appended behind.
unfoldable pub key_parts : Request → List Bytes → Option (List Bytes)
key_parts r [] = some []
key_parts r (part ∷ parts) =
    let rest = key_parts r parts in
    elim (key_part r (trim_space part)) [
      | none ↦ none
      | some none ↦ rest
      | some (some text) ↦ elim rest [ none ↦ none | some texts ↦ some (text ∷ texts) ]
    ]

-- `strings.Join(parts, ":")`
unfoldable pub join_colon : List Bytes → Bytes
join_colon [] = []
join_colon (s ∷ []) = s
join_colon (s ∷ t ∷ ss) = s ++ b':' ∷ join_colon (t ∷ ss)

-- `GenerateKey`; `none` is its false.
unfoldable pub generate_key : Bytes → Request → Option Bytes
generate_key template r =
    let (first, others) = split b':' template in
    elim (key_parts r (first ∷ others)) [
      | none ↦ none
      | some [] ↦ none
      | some (t ∷ ts) ↦ some (codes "ratelimit:" ++ join_colon (t ∷ ts))
    ]
