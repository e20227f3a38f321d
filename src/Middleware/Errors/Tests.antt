-- ===== src/Middleware/Errors/Tests.antt =====
-- The error handling around concrete handlers.
use api_gateway_go.Base.{◌≡◌, refl, inr, none, some, String, [], ◌∷◌}
use api_gateway_go.Config.Samples.{sample_security}
use api_gateway_go.Context.{get_correlation_id}
use api_gateway_go.Http.{seen, answer, act, returned, panicked, no_reply}
use api_gateway_go.Http.Samples.{get_admin, counting, broken, broken_otherwise}
use api_gateway_go.Middleware.Writer.{pass_all, pass, pass_header, pass_write}
use api_gateway_go.Middleware.Errors.{error_handling, recover, sanitize_error, write_json_error}
use api_gateway_go.Middleware.Errors.Laws.{after_panic, error_handling_lem, hidden_lem}

second_status_dropped :
    (seen (error_handling sample_security counting get_admin 0).actions).status ≡ 201
unfolding seen answer act error_handling recover pass_all pass pass_header pass_write
second_status_dropped = refl

error_handling_lem_example :
    let run = broken get_admin 0 in
    let guarded = error_handling sample_security broken get_admin 0 in
    (guarded.ending ≡ returned)
    × (guarded.world ≡ 1)
    × (run.ending ≡ returned → seen guarded.actions ≡ seen run.actions)
    × ((panic : String)
        → run.ending ≡ panicked panic
        → seen guarded.actions ≡ (
            let reply = answer run.actions no_reply in
            after_panic sample_security
              (get_correlation_id get_admin.context)
              panic
              reply
              reply.sent))
error_handling_lem_example = error_handling_lem sample_security broken get_admin 0

hidden_lem_example :
    ((error_handling sample_security broken get_admin 0).actions
      ≡ (error_handling sample_security broken_otherwise get_admin 0).actions)
    × (sanitize_error (some "disk full") sample_security ≡ sanitize_error none sample_security)
    × (write_json_error get_admin 400 "bad" "Bad" none sample_security
        ≡ write_json_error get_admin 400 "bad" "Bad"
            (some (("cause", "disk") ∷ []))
            sample_security)
hidden_lem_example =
    hidden_lem sample_security broken broken_otherwise get_admin 0 "index out of range" "nil map"
      (some "disk full") none 400 "bad" "Bad" none (some (("cause", "disk") ∷ [])) (inr refl) refl
      refl refl
