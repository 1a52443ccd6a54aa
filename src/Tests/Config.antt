-- ===== src/Tests/Config.antt =====
-- Config: an environment that sets one duration and one address.
use mathlib.Core.Option
use distributed_service_mesh.Config.Validation.{IsRunnable}
use distributed_service_mesh.Base.Int.{negsuc}
use distributed_service_mesh.Config.Loading.{load_iff, IsLoaded}
use distributed_service_mesh.Registry.Types.{Duration}
use distributed_service_mesh.Base.Outcome.{err, ok, Outcome}
use distributed_service_mesh.Config.Address.{
  digits_value, magnitude, port_from, colon, atoi, port_of,
}
use distributed_service_mesh.Base.Text.{contains, text_eq, codes, Text, Free}
use distributed_service_mesh.Config.Settings.{
  has_no_port, parse_failed, first_problem, log_level_unknown, text_setting, seconds,
  default_config, duration_setting, validate_config, Config, Environment, load,
}
use distributed_service_mesh.Base.{refl, [], arith, ◌↔◌, some, none, if◌then◌else◌, ◌≡◌}

tests : Unit {0}
unfolding load duration_setting text_setting validate_config first_problem has_no_port port_of
    port_from atoi magnitude digits_value text_eq contains Option.bind
tests = tt

-- Knows one duration alone.
abbrev parse_demo : Text → Outcome Text Duration
parse_demo t = if text_eq t (codes "30s") then ok (seconds 30) else err (codes "no duration")

abbrev env_demo : Environment
env_demo name =
    if text_eq name (codes "CP_STALE_AFTER")
    then codes "30s"
    else if text_eq name (codes "CP_HTTP_ADDR")
    then codes "10.0.0.1:9090"
    else []

abbrev demo_config : Config
demo_config = record default_config { http_addr = codes "10.0.0.1:9090"; stale_after = seconds 30 }

load_demo : load parse_demo env_demo ≡ ok demo_config
unfolding tests
load_demo = refl

load_bad :
    load parse_demo (λ _. codes "x")
    ≡ err (parse_failed (codes "CP_RECONCILE_INTERVAL") (codes "no duration"))
unfolding tests
load_bad = refl

unknown_level :
    validate_config (record default_config { log_level = codes "trace" })
    ≡ err (log_level_unknown (codes "trace"))
unfolding tests
unknown_level = refl

atoi_signed : atoi (codes "-12") ≡ some (negsuc 11)
unfolding tests
atoi_signed = refl

atoi_letters : atoi (codes "80a") ≡ none
unfolding tests
atoi_letters = refl

load_iff_example :
    (load parse_demo env_demo ≡ ok demo_config)
    ↔ (IsLoaded parse_demo env_demo demo_config × IsRunnable demo_config)
load_iff_example = load_iff parse_demo env_demo demo_config

eighty-Free : Free colon (codes "80")
eighty-Free = (λ e. absurd (omega (arith, e)), (λ e. absurd (omega (arith, e)), tt))
