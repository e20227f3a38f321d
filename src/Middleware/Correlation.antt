-- ===== src/Middleware/Correlation.antt =====
-- internal/middleware/correlation.go: the correlation id of a request.
-- `logger.GenerateCorrelationID`, which makes a random UUID, is a parameter: the id it would make
-- for this request. The header's canonical name is X-Correlation-Id.
use api_gateway_go.Base.{String, [], ◌∷◌, ◌==◌, string_eq, if◌then◌else◌}
use api_gateway_go.Context.{with_correlation_id}
use api_gateway_go.Http.{Request, set_header, Middleware, before, header}

unfoldable pub id_of : String → Request → String
unfolding header
id_of generated r = let id = header "X-Correlation-Id" r in if id == "" then generated else id

-- `CorrelationID`
unfoldable pub correlation_id : {W : Type 0} → String → Middleware W
unfolding id_of
correlation_id generated next r w =
    let id = id_of generated r in
    before (set_header "X-Correlation-Id" id ∷ [])
      (next (record r { context = with_correlation_id id r.context }) w)
