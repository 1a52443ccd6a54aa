-- ===== src/Config/Levels.antt =====
-- internal/config/config.go and internal/logging/logging.go: the log levels that Validate accepts are
-- the ones that a logger has.
use mathlib.Core.Path.{subst}
use distributed_service_mesh.Config.Validation.{IsLevel, validate_config_iff}
use distributed_service_mesh.Base.Outcome.{ok}
use distributed_service_mesh.Config.Settings.{validate_config, Config}
use distributed_service_mesh.Base.Text.{Text, text_eq}
use distributed_service_mesh.Logging.{level_name, new_logger}
use distributed_service_mesh.Base.{refl, inr, sym, inl, ◌≡◌}

level_round : (l : Text) → IsLevel l → level_name (new_logger l).level ≡ l
unfolding new_logger level_name text_eq
level_round l (inl e) = subst (λ t. level_name (new_logger t).level ≡ t) (sym e) refl
level_round l (inr (inl e)) = subst (λ t. level_name (new_logger t).level ≡ t) (sym e) refl
level_round l (inr (inr (inl e))) = subst (λ t. level_name (new_logger t).level ≡ t) (sym e) refl
level_round l (inr (inr (inr e))) = subst (λ t. level_name (new_logger t).level ≡ t) (sym e) refl

-- The logger of an accepted configuration has the level that the configuration names.
level_name-new_logger :
    (c : Config)
    → validate_config c ≡ ok tt
    → level_name (new_logger c.log_level).level ≡ c.log_level
level_name-new_logger c good = level_round c.log_level ((validate_config_iff c).0 good).level
