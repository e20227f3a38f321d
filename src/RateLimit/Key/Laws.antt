-- ===== src/RateLimit/Key/Laws.antt =====
-- When a key can be generated, and who chooses it.
use api_gateway_go.Base.{
  ◌≡◌, ◌≢◌, ◌↔◌, ◌⊎◌, ap, ◌∙◌, Bool, true, false, not, ◌||◌, map, none, some, List, [], ◌∷◌, ◌++◌,
  Bytes, codes, ◌==◌, bytes_eq, bytes_beq, bytes_beq_iff, sym, arith, All, Any, if◌then◌else◌,
}
use api_gateway_go.RateLimit.Key.{
  Request, split, trim_space, get_client_ip, key_part, key_parts, generate_key, join_colon,
  trim_left, trim_right,
}

-- Whether the request has what one part of the template asks for.
abbrev pub available : Request → Bytes → Bool
available r part =
    if part == codes "ip"
    then not (get_client_ip r == [])
    else if part == codes "user"
    then not (r.user_id == [])
    else true

abbrev pub known : Bytes → Bool
known part = part == codes "ip" || (part == codes "user" || part == codes "route")

module _ (r : Request) where
  key_part-available :
      (part : Bytes)
      → ((key_part r part ≡ none) ↔ (available r part ≡ false))
        × ((key_part r part ≡ some none) ↔ ((available r part ≡ true) × (known part ≡ false)))
  unfolding key_part
  key_part-available part = ground arith

  -- Over the parts as they are trimmed: generation stops at one that is not available, and finds
  -- no text if all are available and none is known.
  key_parts-available :
      (parts : List Bytes)
      → ((key_parts r parts ≡ none) ↔ Any (λ p. available r p ≡ false) (map trim_space parts))
        × ((key_parts r parts ≡ some []) → All (λ p. known p ≡ false) (map trim_space parts))
        × (All (λ p. known p ≡ false) (map trim_space parts)
            → (key_parts r parts ≡ none) ⊎ (key_parts r parts ≡ some []))
  unfolding key_parts
  key_parts-available [] = ground arith
  key_parts-available (part ∷ parts) =
      ground (arith, key_part-available (trim_space part), key_parts-available parts)

-- The parts of a template, trimmed.
abbrev pub parts_of : Bytes → List Bytes
parts_of template = let (first, others) = split b':' template in map trim_space (first ∷ others)

-- No key is generated exactly when a part "ip" meets a request without a client address, or a part
-- "user" one without an identified user, or when no part is "ip", "user" or "route".
pub generate_key-none_iff :
    (template : Bytes) (r : Request)
    → (generate_key template r ≡ none) ↔ (
        Any (λ p. available r p ≡ false) (parts_of template)
        ⊎ All (λ p. known p ≡ false) (parts_of template))
unfolding generate_key
generate_key-none_iff template r =
    let (first, others) = split b':' template in
    ground (arith, key_parts-available r (first ∷ others))

get_client_ip-forwarded :
    (r : Request) (ip : Bytes)
    → ip ≢ []
    → trim_space ip ≡ ip
    → (split b',' ip).0 ≡ ip
    → get_client_ip (record r { forwarded_for = ip }) ≡ ip
unfolding get_client_ip
get_client_ip-forwarded r ip filled trimmed single = ground (arith, bytes_beq_iff ip [])

key_part-ip :
    (r : Request)
    → get_client_ip r ≢ []
    → key_part r (codes "ip") ≡ some (some (codes "ip:" ++ get_client_ip r))
unfolding key_part bytes_beq
key_part-ip r filled = ground (arith, bytes_beq_iff (get_client_ip r) [])

key_parts-ip :
    (r : Request)
    → get_client_ip r ≢ []
    → key_parts r (codes "ip" ∷ []) ≡ some ((codes "ip:" ++ get_client_ip r) ∷ [])
unfolding key_parts trim_space trim_left trim_right
key_parts-ip r filled = rw (key_part-ip r filled, key_parts)

generate_key-ip :
    (r : Request)
    → get_client_ip r ≢ []
    → generate_key (codes "ip") r ≡ some (codes "ratelimit:ip:" ++ get_client_ip r)
unfolding generate_key split join_colon
generate_key-ip r filled = rw (key_parts-ip r filled, generate_key)

-- Whoever sends the request chooses the counter of a limit by "ip": any text without commas and
-- without white space around it becomes the key, whatever address the request comes from.
pub generate_key-forwarded :
    (r : Request) (ip : Bytes)
    → ip ≢ []
    → trim_space ip ≡ ip
    → (split b',' ip).0 ≡ ip
    → generate_key (codes "ip") (record r { forwarded_for = ip })
      ≡ some (codes "ratelimit:ip:" ++ ip)
generate_key-forwarded r ip filled trimmed single =
    let sent = record r { forwarded_for = ip } in
    let address = get_client_ip-forwarded r ip filled trimmed single in
    generate_key-ip sent (λ e. filled (sym address ∙ e))
    ∙ ap (λ a. some (codes "ratelimit:ip:" ++ a)) address
