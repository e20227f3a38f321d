-- ===== src/Middleware/Input/Laws.antt =====
-- Which requests the input validation lets through.
use api_gateway_go.Base.{
  ℕ, ◌≤◌, ◌≡◌, ◌↔◌, ◌⊎◌, inl, inr, refl, true, false, not, ◌&&◌, Bool-cases, String, List, [], ◌∷◌,
  ◌++◌, Bytes, eqb_iff, ltb, length, bytes_eq, arith, Any, to_lower, ap,
}
use api_gateway_go.Config.{SecurityConfig}
use api_gateway_go.Context.{get_correlation_id}
use api_gateway_go.Router.Text.{infix?, prefix?, to_upper}
use api_gateway_go.Http.{Request, Handler, Run, done}
use api_gateway_go.Middleware.Input.{
  lists_method, is_method_allowed, blocks_agent, is_user_agent_blocked, write_error_response,
  limit_body, input_validation, is_nil,
}

-- `p` stands somewhere in `s`.
abbrev pub Contains : Bytes → Bytes → Type 0
Contains s p = (xs : Bytes) × (ys : Bytes) × (s ≡ xs ++ (p ++ ys))

-- The method is in the list, up to the case of its letters; an empty list allows every method.
abbrev pub IsMethodAllowed : SecurityConfig → Request → Type 0
IsMethodAllowed cfg r =
    (cfg.allowed_methods ≡ [])
    ⊎ Any (λ (m : Bytes). to_upper m ≡ to_upper r.method) cfg.allowed_methods

abbrev pub IsPathShort : SecurityConfig → Request → Type 0
IsPathShort cfg r = (cfg.max_url_path_length ≡ 0) ⊎ (length r.path ≤ cfg.max_url_path_length)

-- A blocked text stands in the user agent, up to the case of its letters.
abbrev pub IsAgentBlocked : SecurityConfig → Request → Type 0
IsAgentBlocked cfg r =
    Any (λ (b : Bytes). Contains (to_lower r.user_agent) (to_lower b)) cfg.blocked_user_agents

eqb_first : (a b : ℕ) (p s : Bytes) → prefix? (a ∷ p) (b ∷ s) ≡ true → a ≡ b
unfolding prefix?
eqb_first a b p s h = ground (arith, eqb_iff a b)

prefix?_iff : (p s : Bytes) → (prefix? p s ≡ true) ↔ ((ys : Bytes) × (s ≡ p ++ ys))
unfolding prefix?
prefix?_iff [] s = (λ h. (s, refl), λ h. refl)
prefix?_iff (a ∷ p) [] = (λ h. cc h, λ (ys, h). cc h)
prefix?_iff (a ∷ p) (b ∷ s) = (
  (λ h. let (ys, e) = (prefix?_iff p s).0 (ground arith) in (ys, cc (e, eqb_first a b p s h))),
  λ (ys, e). ground (arith, (prefix?_iff p s).1 (ys, cc e), e, eqb_iff a b),
)

infix?-from : (p s : Bytes) → Contains s p → infix? p s ≡ true
unfolding infix?
infix?-from p [] ([], ys, e) = (prefix?_iff p []).1 (ys, e)
infix?-from p [] (x ∷ xs, ys, e) = cc e
infix?-from p (b ∷ s) ([], ys, e) = ground (arith, (prefix?_iff p (b ∷ s)).1 (ys, e))
infix?-from p (b ∷ s) (x ∷ xs, ys, e) = ground (arith, infix?-from p s (xs, ys, cc e))

infix?-into : (p s : Bytes) → infix? p s ≡ true → Contains s p
unfolding infix?
infix?-into p [] h = let (ys, e) = (prefix?_iff p []).0 h in ([], ys, e)
infix?-into p (b ∷ s) h = elim (Bool-cases (prefix? p (b ∷ s))) [
  | inl first ↦ let (ys, e) = (prefix?_iff p (b ∷ s)).0 first in ([], ys, e)
  | inr later ↦
      let (xs, ys, e) = infix?-into p s (ground (arith, h, later)) in (b ∷ xs, ys, ap (◌∷◌ b) e)
]

infix?_iff : (p s : Bytes) → (infix? p s ≡ true) ↔ Contains s p
infix?_iff p s = (infix?-into p s, infix?-from p s)

lists_method_iff :
    (method : Bytes) (ms : List Bytes)
    → (lists_method method ms ≡ true) ↔ Any (λ (m : Bytes). to_upper m ≡ method) ms
unfolding lists_method
lists_method_iff method [] = ground arith
lists_method_iff method (m ∷ ms) =
    ground (arith, lists_method_iff method ms, bytes_eq.agrees (to_upper m) method)

blocks_agent_iff :
    (agent : Bytes) (bs : List Bytes)
    → (blocks_agent agent bs ≡ true) ↔ Any (λ (b : Bytes). Contains agent (to_lower b)) bs
unfolding blocks_agent
blocks_agent_iff agent [] = ground arith
blocks_agent_iff agent (b ∷ bs) =
    ground (arith, blocks_agent_iff agent bs, infix?_iff (to_lower b) agent)

pub method_refused_iff :
    (cfg : SecurityConfig) (r : Request)
    → (not (is_nil cfg.allowed_methods) && not (is_method_allowed r.method cfg.allowed_methods)
        ≡ false)
      ↔ IsMethodAllowed cfg r
unfolding is_method_allowed
method_refused_iff cfg r = by_list cfg.allowed_methods
  where
    by_list :
        (ms : List Bytes)
        → (not (is_nil ms) && not (is_method_allowed r.method ms) ≡ false)
          ↔ ((ms ≡ []) ⊎ Any (λ (m : Bytes). to_upper m ≡ to_upper r.method) ms)
    by_list [] = ground arith
    by_list (m ∷ ms) = ground (arith, lists_method_iff (to_upper r.method) (m ∷ ms))

pub path_refused_iff :
    (cfg : SecurityConfig) (r : Request)
    → (ltb 0 cfg.max_url_path_length && ltb cfg.max_url_path_length (length r.path) ≡ false)
      ↔ IsPathShort cfg r
path_refused_iff cfg r = ground arith

pub agent_refused_iff :
    (cfg : SecurityConfig) (r : Request)
    → (not (is_nil cfg.blocked_user_agents)
          && is_user_agent_blocked r.user_agent cfg.blocked_user_agents
        ≡ true)
      ↔ IsAgentBlocked cfg r
unfolding is_user_agent_blocked
agent_refused_iff cfg r = by_list cfg.blocked_user_agents
  where
    by_list :
        (bs : List Bytes)
        → (not (is_nil bs) && is_user_agent_blocked r.user_agent bs ≡ true)
          ↔ Any (λ (b : Bytes). Contains (to_lower r.user_agent) (to_lower b)) bs
    by_list [] = ground arith
    by_list (b ∷ bs) = ground (arith, blocks_agent_iff (to_lower r.user_agent) (b ∷ bs))

abbrev pub refusal : {W : Type 0} → Request → W → ℕ → String → String → Run W
refusal r w status code message =
    done (write_error_response status code message (get_correlation_id r.context)) w

-- A request goes on to the next handler, with its body limited, if its method is allowed, its path is
-- short enough and its user agent is not blocked. Else the next handler is not called and the state
-- stays: the first test that fails, in this order, decides between status 405, 414 and 403.
pub input_validation_lem :
    {W : Type 0} (cfg : SecurityConfig) (next : Handler W) (r : Request) (w : W)
    → let result = input_validation cfg next r w in
      (IsMethodAllowed cfg r
        → IsPathShort cfg r
        → ¬ IsAgentBlocked cfg r
        → result ≡ next (limit_body cfg.max_request_body_size r) w)
      × (¬ IsMethodAllowed cfg r
          → result ≡ refusal r w 405 "method_not_allowed" "HTTP method not allowed")
      × (IsMethodAllowed cfg r
          → ¬ IsPathShort cfg r
          → result ≡ refusal r w 414 "uri_too_long" "Request URI exceeds maximum length")
      × (IsMethodAllowed cfg r
          → IsPathShort cfg r
          → IsAgentBlocked cfg r
          → result ≡ refusal r w 403 "forbidden" "Access denied")
unfolding input_validation
input_validation_lem cfg next r w =
    ground (arith, method_refused_iff cfg r, path_refused_iff cfg r, agent_refused_iff cfg r)
