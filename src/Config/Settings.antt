-- ===== src/Config/Settings.antt =====
-- internal/config/config.go: `Config`, its defaults, `Validate` and `Load`. The environment is a
-- function, which returns the empty text for a variable that is not set, as `os.Getenv` does.
use distributed_service_mesh.Config.Address.{port_of, atoi}
use distributed_service_mesh.Base.Int.{ltb_ℤ, pos}
use distributed_service_mesh.Registry.Types.{Duration}
use distributed_service_mesh.Base.Text.{contains, text_eq, Text, codes}
use distributed_service_mesh.Base.Outcome.{err, ◌>>=◌, ok, Outcome}
use distributed_service_mesh.Base.{
  false, some, true, none, not, [], ◌*◌, if◌then◌else◌, Bool, ◌∷◌, ℕ, List,
}

pub record Config : Type 0 where
  pub http_addr : Text
  pub xds_addr : Text
  pub reconcile_interval : Duration
  pub stale_after : Duration
  pub shutdown_timeout : Duration
  pub read_timeout : Duration
  pub write_timeout : Duration
  pub idle_timeout : Duration
  pub log_level : Text

abbrev pub seconds : ℕ → Duration
seconds n = pos (n * 1_000_000_000)

-- `Default`
abbrev pub default_config : Config
default_config = record {
  http_addr = codes ":8080";
  xds_addr = codes ":18000";
  reconcile_interval = seconds 2;
  stale_after = seconds 15;
  shutdown_timeout = seconds 10;
  read_timeout = seconds 5;
  write_timeout = seconds 10;
  idle_timeout = seconds 60;
  log_level = codes "info";
}

-- The errors of `Validate`, with what each of them prints.
pub data Problem : Type 0 where
  http_addr_empty : Problem
  http_addr_port : Text → Problem
  xds_addr_empty : Problem
  xds_addr_port : Text → Problem
  interval_not_positive : Duration → Problem
  stale_after_not_positive : Duration → Problem
  shutdown_not_positive : Duration → Problem
  read_not_positive : Duration → Problem
  write_not_positive : Duration → Problem
  idle_not_positive : Duration → Problem
  log_level_unknown : Text → Problem

-- The tests of a function that returns at the first that fails, in their order.
unfoldable pub first_problem {ℓ} : {E : Type ℓ} → List (Bool × E) → Outcome E (Unit {0})
first_problem [] = ok tt
first_problem ((bad, e) ∷ rest) = let later = first_problem rest in if bad then err e else later

-- `strconv.Atoi(portOf(addr))` returns an error.
unfoldable pub has_no_port : Text → Bool
has_no_port addr = elim (atoi (port_of addr)) [ none ↦ true | some n ↦ false ]

-- d <= 0
abbrev pub not_positive : Duration → Bool
not_positive d = not (ltb_ℤ (pos 0) d)

abbrev pub log_levels : List Text
log_levels = codes "debug" ∷ codes "info" ∷ codes "warn" ∷ codes "error" ∷ []

-- The tests of `Validate`, in their order, with the error of each.
abbrev pub tests_of : Config → List (Bool × Problem)
tests_of c =
    (text_eq c.http_addr [], http_addr_empty)
    ∷ (has_no_port c.http_addr, http_addr_port c.http_addr)
    ∷ (text_eq c.xds_addr [], xds_addr_empty)
    ∷ (has_no_port c.xds_addr, xds_addr_port c.xds_addr)
    ∷ (not_positive c.reconcile_interval, interval_not_positive c.reconcile_interval)
    ∷ (not_positive c.stale_after, stale_after_not_positive c.stale_after)
    ∷ (not_positive c.shutdown_timeout, shutdown_not_positive c.shutdown_timeout)
    ∷ (not_positive c.read_timeout, read_not_positive c.read_timeout)
    ∷ (not_positive c.write_timeout, write_not_positive c.write_timeout)
    ∷ (not_positive c.idle_timeout, idle_not_positive c.idle_timeout)
    ∷ (not (contains c.log_level log_levels), log_level_unknown c.log_level)
    ∷ []

unfoldable pub validate_config : Config → Outcome Problem (Unit {0})
unfolding first_problem has_no_port
validate_config c = first_problem (tests_of c)

pub data LoadError (F : Type 0) : Type 0 where
  -- "parse NAME: %w"
  parse_failed : Text → F → LoadError F
  invalid : Problem → LoadError F

abbrev pub Environment : Type 0
Environment = Text → Text

-- A variable that is set replaces the text that is there.
unfoldable pub text_setting : Environment → Text → Text → Text
text_setting env name default = if not (text_eq (env name) []) then env name else default

module _ {F : Type 0} (parse_duration : Text → Outcome F Duration) where
  unfoldable pub duration_setting : Environment → Text → Duration → Outcome (LoadError F) Duration
  duration_setting env name default =
      if not (text_eq (env name) [])
      then elim (parse_duration (env name)) [ ok d ↦ ok d | err e ↦ err (parse_failed name e) ]
      else ok default

  abbrev pub checked : Config → Outcome (LoadError F) Config
  checked cfg = elim (validate_config cfg) [ ok _ ↦ ok cfg | err e ↦ err (invalid e) ]

  -- `Load`
  unfoldable pub load : Environment → Outcome (LoadError F) Config
  unfolding text_setting duration_setting validate_config
  load env = do
    interval ←
        duration_setting env (codes "CP_RECONCILE_INTERVAL") default_config.reconcile_interval
    stale ← duration_setting env (codes "CP_STALE_AFTER") default_config.stale_after
    shutdown ← duration_setting env (codes "CP_SHUTDOWN_TIMEOUT") default_config.shutdown_timeout
    read ← duration_setting env (codes "CP_READ_TIMEOUT") default_config.read_timeout
    write ← duration_setting env (codes "CP_WRITE_TIMEOUT") default_config.write_timeout
    idle ← duration_setting env (codes "CP_IDLE_TIMEOUT") default_config.idle_timeout
    checked (record {
      http_addr = text_setting env (codes "CP_HTTP_ADDR") default_config.http_addr;
      xds_addr = text_setting env (codes "CP_XDS_ADDR") default_config.xds_addr;
      reconcile_interval = interval;
      stale_after = stale;
      shutdown_timeout = shutdown;
      read_timeout = read;
      write_timeout = write;
      idle_timeout = idle;
      log_level = text_setting env (codes "CP_LOG_LEVEL") default_config.log_level;
    })
