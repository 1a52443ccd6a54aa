-- ===== src/Api/Logged.antt =====
-- internal/api/server.go and internal/logging/logging.go: the logger that a handler takes from the
-- context of its request.
use distributed_service_mesh.Api.Counting.{serve-counted}
use distributed_service_mesh.Logging.{
  background, from_context-with, correlation_id_key, from_context, Logger,
}
use distributed_service_mesh.Api.Server.{
  serve, Server, Circumstance, request_context, correlation_of,
}
use distributed_service_mesh.Api.Request.{Request}
use distributed_service_mesh.Base.Text.{text_eq_iff, text_eq, Text}
use distributed_service_mesh.Api.Mux.{Target}
use distributed_service_mesh.Api.Correlation.{length-encode_hex, IsDraw, new_correlation_id}
use distributed_service_mesh.Api.Debug.{SnapshotReader}
use distributed_service_mesh.Base.{
  none, refl, ◌∙◌, ◌∷◌, ◌++◌, length, ap, some, false, arith, [], ◌≢◌, ℕ, Option, ◌≡◌,
}

new_correlation_id-ne : (draw : Option Text) → IsDraw draw → new_correlation_id draw ≢ []
unfolding new_correlation_id
new_correlation_id-ne none h e = absurd (ground (arith, e))
new_correlation_id-ne (some buf) h e =
    absurd (omega (arith, ap length e, length-encode_hex buf, h.0))

module _ {Snapshot : Type 0} (reader : SnapshotReader Snapshot) (page : Target → Request → ℕ) where
  correlation_of-ne :
      (req : Request) (env : Circumstance Snapshot)
      → IsDraw env.random
      → text_eq (correlation_of reader page req env) [] ≡ false
  unfolding correlation_of
  correlation_of-ne req env d =
      ground
        (arith, new_correlation_id-ne env.random d, text_eq_iff (new_correlation_id env.random) [])

  -- If the random source gives eight bytes or fails, the logger that a handler takes from its
  -- context has the attributes of the base and, last, the correlation ID that the response has.
  pub serve-logged :
      (env : Circumstance Snapshot) (req : Request) (s : Server Snapshot) (base : Logger)
      → IsDraw env.random
      → let id = (serve reader page env req s).0.head.correlation_id in
        from_context (request_context reader page req env) base
        ≡ record base { attrs = base.attrs ++ (correlation_id_key, id) ∷ [] }
  unfolding request_context correlation_of
  serve-logged env req s base d =
      let (_, _, _, sent) = serve-counted reader page env req s in
      let given = correlation_of-ne req env d in
      from_context-with background (correlation_of reader page req env) base ∙ rw (given, sent) refl
