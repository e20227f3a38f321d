-- ===== src/Auth/Jwt/Laws.antt =====
-- What an accepted session token guarantees.
use api_gateway_go.Base.{
  ℕ, ◌+◌, ◌≤◌, ◌≡◌, sym, ap, ◌↔◌, refl, true, false, Option, none, some, String, List, [], ◌∷◌,
  string_eq, arith, All,
}
use mathlib.Core.Path.{subst}
use api_gateway_go.Auth.Context.{Claims}
use api_gateway_go.Auth.Errors.{Result, ok, err, ◌>>=◌, ◌>>◌}
use api_gateway_go.Auth.Jwt.{
  JwtLibrary, Parsed, parse_error, parsed, TokenValidator, key_func, validate_expiration,
  is_missing, validate_required, validate_required_claims, checked_claims, validate_token,
  check_expiry, check_not_before,
}

-- An absent `exp` or `nbf` restricts nothing.
abbrev StartsBy : ℕ → Option ℕ → Type 0
StartsBy now none = Unit
StartsBy now (some at) = at ≤ now

abbrev EndsWith : ℕ → ℕ → Option ℕ → Type 0
EndsWith now tolerance none = Unit
EndsWith now tolerance (some at) = now ≤ at + tolerance

-- The claims' times, widened by the tolerance on both sides, contain `now`.
abbrev pub InWindow : ℕ → ℕ → Claims → Type 0
InWindow now tolerance claims =
    EndsWith now tolerance claims.expires_at × StartsBy (now + tolerance) claims.not_before

check_expiry_iff :
    (now tolerance : ℕ) (o : Option ℕ)
    → (check_expiry now tolerance o ≡ ok tt) ↔ EndsWith now tolerance o
unfolding check_expiry
check_expiry_iff now tolerance none = ground arith
check_expiry_iff now tolerance (some at) = ground arith

check_not_before_iff :
    (now tolerance : ℕ) (o : Option ℕ)
    → (check_not_before now tolerance o ≡ ok tt) ↔ StartsBy (now + tolerance) o
unfolding check_not_before
check_not_before_iff now tolerance none = ground arith
check_not_before_iff now tolerance (some at) = ground arith

-- A sequence of two checks passes exactly when both do.
both_ok :
    {A : Type 0} (m : Result (Unit {0})) (k : Result A) (a : A)
    → ((m >> k) ≡ ok a) ↔ ((m ≡ ok tt) × (k ≡ ok a))
both_ok (ok _) k a = ((λ h. (refl, h)), λ h. h.1)
both_ok (err e) k a = ground arith

validate_expiration_iff :
    (now : ℕ) (tv : TokenValidator) (claims : Claims)
    → (validate_expiration now tv claims ≡ ok tt)
      ↔ InWindow now tv.config.clock_skew_tolerance claims
unfolding validate_expiration
validate_expiration_iff now tv claims =
    grind (arith, both_ok, check_expiry_iff, check_not_before_iff)

validate_required_iff :
    (names : List String) (claims : Claims)
    → (validate_required names claims ≡ ok tt) ↔ All (λ name. is_missing claims name ≡ false) names
unfolding validate_required
validate_required_iff [] claims = ground arith
validate_required_iff (name ∷ names) claims = ground (arith, validate_required_iff names claims)

-- What the package checks of the claims that the library read.
abbrev pub Checks : ℕ → TokenValidator → Claims → Type 0
Checks later tv claims =
    InWindow later tv.config.clock_skew_tolerance claims
    × All (λ name. is_missing claims name ≡ false) tv.config.required_claims

validate_claims : ℕ → TokenValidator → Claims → Result Claims
validate_claims later tv c = do validate_expiration later tv c; validate_required_claims tv c; ok c

ok-injective : {A : Type 0} (a b : A) → ok a ≡ ok b → a ≡ b
ok-injective a b h = cc

read-injective : (a b : Claims) → parsed true (some a) ≡ parsed true (some b) → a ≡ b
read-injective a b h = cc

validate_claims_passes :
    (later : ℕ) (tv : TokenValidator) (c claims : Claims)
    → (validate_claims later tv c ≡ ok claims) ↔ ((c ≡ claims) × Checks later tv c)
unfolding validate_claims validate_required_claims
validate_claims_passes later tv c claims =
    let window = validate_expiration_iff later tv c in
    let present = validate_required_iff tv.config.required_claims c in
    let rest = both_ok (validate_required tv.config.required_claims c) (ok c) claims in
    let all =
      both_ok (validate_expiration later tv c)
        (validate_required tv.config.required_claims c >> ok c) claims in
    (
      (λ h.
          let (timely, h') = all.0 h in
          let (given, same) = rest.0 h' in
          (ok-injective c claims same, (window.0 timely, present.0 given))),
      λ h. all.1 (window.1 h.1.0, rest.1 (present.1 h.1.1, ap ok h.0)),
    )

checked_claims_iff :
    (later : ℕ) (tv : TokenValidator) (claims : Claims) (p : Parsed)
    → ((checked_claims p >>= validate_claims later tv) ≡ ok claims)
      ↔ ((p ≡ parsed true (some claims)) × Checks later tv claims)
unfolding checked_claims
checked_claims_iff later tv claims (parse_error true) = ground arith
checked_claims_iff later tv claims (parse_error false) = ground arith
checked_claims_iff later tv claims (parsed false got) = ground arith
checked_claims_iff later tv claims (parsed true none) = ground arith
checked_claims_iff later tv claims (parsed true (some c)) =
    let passes = validate_claims_passes later tv c claims in
    (
      (λ h.
          let (same, checks) = passes.0 h in
          (ap (λ x. parsed true (some x)) same, subst (Checks later tv) same checks)),
      λ h.
          let same = read-injective c claims h.0 in
          passes.1 (same, subst (Checks later tv) (sym same) h.1),
    )

-- A token is accepted, with the claims that the library read from it, exactly when the library
-- parses it as valid, its times widened by the tolerance contain the second clock reading, and no
-- required claim is missing.
pub validate_token_iff :
    (lib : JwtLibrary) (now later : ℕ) (tv : TokenValidator) (token : String) (claims : Claims)
    → (validate_token lib now later tv token ≡ ok claims) ↔ (
        (lib.parse_with_claims now (key_func tv) token ≡ parsed true (some claims))
        × Checks later tv claims)
unfolding validate_token validate_claims
validate_token_iff lib now later tv token claims =
    checked_claims_iff later tv claims (lib.parse_with_claims now (key_func tv) token)
