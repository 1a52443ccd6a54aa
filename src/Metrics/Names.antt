-- ===== src/Metrics/Names.antt =====
-- internal/metrics/metrics.go: `New` registers no name twice.
use distributed_service_mesh.Reconciliation.Rounds.{is_some}
use distributed_service_mesh.Base.Text.{text_eq, contains}
use distributed_service_mesh.Metrics.Collectors.{collectors, register_all}
use distributed_service_mesh.Base.{refl, true, [], ◌≡◌}

-- `New` does not panic.
register_all-collectors : is_some (register_all collectors []) ≡ true
unfolding register_all contains text_eq
register_all-collectors = refl
