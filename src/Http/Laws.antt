-- ===== src/Http/Laws.antt =====
-- How a response grows with the calls of its writer.
use api_gateway_go.Base.{
  ℕ, ◌≡◌, refl, ap, ◌∙◌, Option, none, some, String, List, [], ◌∷◌, ◌++◌, lookup, insert,
  Bool-cases, inl, inr, eq_iff, lookup-insert, string_eq, ◌==◌, arith, if◌then◌else◌,
}
use api_gateway_go.Http.{
  Action, set_header, add_header, Headers, values_of, write_header, write, Reply, no_reply, act,
  answer, Seen, seen_of, seen,
}

pub answer-append :
    (xs ys : List Action) (reply : Reply) → answer (xs ++ ys) reply ≡ answer ys (answer xs reply)
unfolding answer
answer-append [] ys reply = refl
answer-append (x ∷ xs) ys reply = answer-append xs ys (act x reply)

-- The values that the calls give a header before the response starts, or those it had.
abbrev pub header_at_start : String → List Action → Option (List String) → Option (List String)
header_at_start name [] old = old
header_at_start name (set_header n v ∷ actions) old =
    header_at_start name actions (if n == name then some (v ∷ []) else old)
header_at_start name (add_header n v ∷ actions) old =
    header_at_start name actions (if n == name then some (values_of old ++ (v ∷ [])) else old)
header_at_start name (write_header status ∷ actions) old = old
header_at_start name (write chunk ∷ actions) old = old

sent_stays :
    (actions : List Action) (reply : Reply) (s : ℕ × Headers)
    → reply.sent ≡ some s
    → (answer actions reply).sent ≡ some s
unfolding answer act
sent_stays [] reply s h = h
sent_stays (set_header n v ∷ actions) reply s h = sent_stays actions _ s h
sent_stays (add_header n v ∷ actions) reply s h = sent_stays actions _ s h
sent_stays (write_header status ∷ actions) reply s h = sent_stays actions _ s (ground (arith, h))
sent_stays (write chunk ∷ actions) reply s h = sent_stays actions _ s (ground (arith, h))

unfoldable pub seen_from : List Action → Reply → Seen
seen_from actions reply = let reply' = answer actions reply in seen_of reply' reply'.sent

seen_sent :
    (actions : List Action) (reply : Reply) (status : ℕ) (headers : Headers)
    → reply.sent ≡ some (status, headers)
    → let s = seen_from actions reply in (s.status ≡ status) × (s.headers ≡ headers)
unfolding seen_from
seen_sent actions reply status headers h =
    rw (sent_stays actions reply (status, headers) h) (refl, refl)

added :
    (n name v : String) (hs : Headers)
    → lookup name (insert n (values_of (lookup n hs) ++ (v ∷ [])) hs)
      ≡ (if n == name then some (values_of (lookup name hs) ++ (v ∷ [])) else lookup name hs)
added n name v hs = elim (Bool-cases (n == name)) [
  | inl same ↦
      rw (lookup-insert n name (values_of (lookup n hs) ++ (v ∷ [])) hs, same)
        (ap (λ k. some (values_of (lookup k hs) ++ (v ∷ []))) ((eq_iff n name).0 same))
  | inr other ↦ rw (lookup-insert n name (values_of (lookup n hs) ++ (v ∷ [])) hs, other) refl
]

-- Once a response has started, its status and its headers stay.
pub seen_headers :
    (name : String) (actions : List Action) (reply : Reply)
    → reply.sent ≡ none
    → lookup name (seen_from actions reply).headers
      ≡ header_at_start name actions (lookup name reply.headers)
unfolding seen_from answer act
seen_headers name [] reply h = rw h refl
seen_headers name (set_header n v ∷ actions) reply h =
    seen_headers name actions (act (set_header n v) reply) h
    ∙ ap (header_at_start name actions) (lookup-insert n name (v ∷ []) reply.headers)
seen_headers name (add_header n v ∷ actions) reply h =
    seen_headers name actions (act (add_header n v) reply) h
    ∙ ap (header_at_start name actions) (added n name v reply.headers)
seen_headers name (write_header status ∷ actions) reply h =
    ap (lookup name)
      (seen_sent actions (act (write_header status) reply) status reply.headers
        (ground (arith, h))).1
seen_headers name (write chunk ∷ actions) reply h =
    ap (lookup name)
      (seen_sent actions (act (write chunk) reply) 200 reply.headers (ground (arith, h))).1

-- The status of the first `WriteHeader`, or 200 if a `Write` or nothing comes first.
abbrev pub first_status : List Action → ℕ
first_status [] = 200
first_status (set_header n v ∷ actions) = first_status actions
first_status (add_header n v ∷ actions) = first_status actions
first_status (write_header status ∷ actions) = status
first_status (write chunk ∷ actions) = 200

seen_status :
    (actions : List Action) (reply : Reply)
    → reply.sent ≡ none
    → (seen_from actions reply).status ≡ first_status actions
unfolding seen_from answer act
seen_status [] reply h = rw h refl
seen_status (set_header n v ∷ actions) reply h = seen_status actions (act (set_header n v) reply) h
seen_status (add_header n v ∷ actions) reply h = seen_status actions (act (add_header n v) reply) h
seen_status (write_header status ∷ actions) reply h =
    (seen_sent actions (act (write_header status) reply) status reply.headers (ground (arith, h))).0
seen_status (write chunk ∷ actions) reply h =
    (seen_sent actions (act (write chunk) reply) 200 reply.headers (ground (arith, h))).0

pub seen-status : (actions : List Action) → (seen actions).status ≡ first_status actions
unfolding seen seen_from
seen-status actions = seen_status actions no_reply refl

pub seen-header :
    (name : String) (actions : List Action)
    → lookup name (seen actions).headers ≡ header_at_start name actions none
unfolding seen seen_from lookup
seen-header name actions = seen_headers name actions no_reply refl
