-- ===== src/Middleware/Security/Laws.antt =====
-- The headers that a client sees behind the security middleware.
use api_gateway_go.Base.{
  ◌≡◌, refl, ◌∙◌, Bool, true, false, not, ◌&&◌, Option, none, some, String, List, [], ◌∷◌, ◌++◌,
  lookup, ◌==◌, string_eq, if◌then◌else◌,
}
use api_gateway_go.Http.{Request, Action, Handler, no_reply, seen}
use api_gateway_go.Http.Laws.{header_at_start, seen_headers, seen_from}
use api_gateway_go.Middleware.Security.{
  SecurityConfig, build_hsts_header, set_if, security_headers, security,
}

-- The values that the configuration gives the header `name`.
abbrev over : String → String → String → Bool → Option (List String) → Option (List String)
over name key value on old = if on && key == name then some (value ∷ []) else old

abbrev pub configured : SecurityConfig → String → Option (List String)
configured cfg name =
    over name "Permissions-Policy" cfg.permissions_policy (not (cfg.permissions_policy == "")) (
      over name "Referrer-Policy" cfg.referrer_policy (not (cfg.referrer_policy == "")) (
        over name "X-Xss-Protection" (if cfg.xss_block_mode then "1; mode=block" else "1")
          cfg.xss_protection
          (over name "X-Content-Type-Options" "nosniff" cfg.content_type_nosniff (
            over name "X-Frame-Options" cfg.frame_options (not (cfg.frame_options == "")) (
              over name "Content-Security-Policy" cfg.content_security_policy
                (not (cfg.content_security_policy == ""))
                (over name "Strict-Transport-Security" (build_hsts_header cfg) cfg.enable_hsts
                  none))))))

set_if-more :
    (test : Bool) (key value name : String) (more actions : List Action)
    (old : Option (List String))
    → header_at_start name ((set_if test key value ++ more) ++ actions) old
      ≡ header_at_start name (more ++ actions) (over name key value test old)
unfolding set_if
set_if-more true key value name more actions old = refl
set_if-more false key value name more actions old = refl

set_if-last :
    (test : Bool) (key value name : String) (actions : List Action) (old : Option (List String))
    → header_at_start name (set_if test key value ++ actions) old
      ≡ header_at_start name actions (over name key value test old)
unfolding set_if
set_if-last true key value name actions old = refl
set_if-last false key value name actions old = refl

-- Behind the middleware a client sees, under every canonical name, what the configuration says as the
-- handler's calls before the start of its answer leave it: `Set` replaces the value, `Add` puts one
-- more behind it, and without a call of that name it stays.
pub security_lem :
    {W : Type 0} (cfg : SecurityConfig) (next : Handler W) (r : Request) (w : W) (name : String)
    → lookup name (seen (security cfg next r w).actions).headers
      ≡ header_at_start name (next r w).actions (configured cfg name)
unfolding security security_headers seen seen_from lookup
security_lem cfg next r w name =
    seen_headers name (security cfg next r w).actions no_reply refl
    ∙ set_if-more cfg.enable_hsts _ _ name _ _ _
    ∙ set_if-more (not (cfg.content_security_policy == "")) _ _ name _ _ _
    ∙ set_if-more (not (cfg.frame_options == "")) _ _ name _ _ _
    ∙ set_if-more cfg.content_type_nosniff _ _ name _ _ _
    ∙ set_if-more cfg.xss_protection _ _ name _ _ _
    ∙ set_if-more (not (cfg.referrer_policy == "")) _ _ name _ _ _
    ∙ set_if-last (not (cfg.permissions_policy == "")) _ _ name _ _
