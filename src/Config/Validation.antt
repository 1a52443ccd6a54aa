-- ===== src/Config/Validation.antt =====
-- internal/config/config.go: what `Validate` accepts.
use distributed_service_mesh.Config.Address.{port_of, atoi}
use distributed_service_mesh.Base.Outcome.{ok}
use distributed_service_mesh.Base.Int.{negsuc, pos, ℤ}
use distributed_service_mesh.Base.Text.{text_eq_iff, text_eq, codes, Text, contains}
use distributed_service_mesh.Registry.Types.{Duration}
use distributed_service_mesh.Config.Settings.{
  tests_of, log_levels, not_positive, Config, first_problem, validate_config, has_no_port,
}
use distributed_service_mesh.Base.{
  true, inr, zero, refl, ◌∷◌, inl, some, All, arith, Option-cases, suc, Bool, ◌⊎◌, ◌↔◌, [], false,
  not, ℕ, ◌≢◌, List, ◌≡◌,
}

first_problem_iff {ℓ} :
    {E : Type ℓ} (tests : List (Bool × E))
    → (first_problem tests ≡ ok tt) ↔ All (λ t. t.0 ≡ false) tests
unfolding first_problem
first_problem_iff [] = (λ _. tt, λ _. refl)
first_problem_iff ((true, e) ∷ rest) = ground arith
first_problem_iff ((false, e) ∷ rest) =
    let later = first_problem_iff rest in (λ h. (refl, later.0 h), λ h. later.1 h.1)

-- What follows the last colon is a number.
abbrev pub HasPort : Text → Type 0
HasPort addr = (n : ℤ) × (atoi (port_of addr) ≡ some n)

abbrev pub IsPositive : Duration → Type 0
IsPositive d = (n : ℕ) × (d ≡ pos (suc n))

abbrev pub IsLevel : Text → Type 0
IsLevel l = (l ≡ codes "debug") ⊎ (l ≡ codes "info") ⊎ (l ≡ codes "warn") ⊎ (l ≡ codes "error")

pub record IsRunnable (c : Config) : Type 0 where
  pub http_given : c.http_addr ≢ []
  pub http_port : HasPort c.http_addr
  pub xds_given : c.xds_addr ≢ []
  pub xds_port : HasPort c.xds_addr
  pub interval : IsPositive c.reconcile_interval
  pub stale : IsPositive c.stale_after
  pub shutdown : IsPositive c.shutdown_timeout
  pub read : IsPositive c.read_timeout
  pub write : IsPositive c.write_timeout
  pub idle : IsPositive c.idle_timeout
  pub level : IsLevel c.log_level

given_iff : (t : Text) → (text_eq t [] ≡ false) ↔ (t ≢ [])
given_iff t = ground (arith, text_eq_iff t [])

has_no_port_iff : (addr : Text) → (has_no_port addr ≡ false) ↔ HasPort addr
unfolding has_no_port
has_no_port_iff addr = elim (Option-cases (atoi (port_of addr))) [
  | inl absent ↦
      rw (absent, has_no_port)
        (λ h. absurd (ground (arith, h)), λ (n, e). absurd (ground (arith, e)))
  | inr (n, found) ↦ rw (found, has_no_port) (λ h. (n, refl), λ h. refl)
]

not_positive_iff : (d : Duration) → (not_positive d ≡ false) ↔ IsPositive d
not_positive_iff (pos zero) = (λ h. absurd (ground (arith, h)), λ (n, e). absurd (cc))
not_positive_iff (pos (suc n)) = (λ h. (n, refl), λ h. ground arith)
not_positive_iff (negsuc n) = (λ h. absurd (ground (arith, h)), λ (m, e). absurd (cc))

IsLevel-iff : (l : Text) → (not (contains l log_levels) ≡ false) ↔ IsLevel l
unfolding contains
IsLevel-iff l = ground (
  arith,
  text_eq_iff (codes "debug") l,
  text_eq_iff (codes "info") l,
  text_eq_iff (codes "warn") l,
  text_eq_iff (codes "error") l,
)

-- Validate accepts a configuration exactly when both addresses are given and what follows the last
-- colon in them is a number, every duration is positive, and the log level is one of the four.
pub validate_config_iff : (c : Config) → (validate_config c ≡ ok tt) ↔ IsRunnable c
unfolding validate_config
validate_config_iff c = (
  λ h.
      let (a, (b, (x, (y, (i, (s, (d, (r, (w, (l, (v, _))))))))))) =
        (first_problem_iff (tests_of c)).0 h in
      record {
        http_given = (given_iff _).0 a;
        http_port = (has_no_port_iff _).0 b;
        xds_given = (given_iff _).0 x;
        xds_port = (has_no_port_iff _).0 y;
        interval = (not_positive_iff _).0 i;
        stale = (not_positive_iff _).0 s;
        shutdown = (not_positive_iff _).0 d;
        read = (not_positive_iff _).0 r;
        write = (not_positive_iff _).0 w;
        idle = (not_positive_iff _).0 l;
        level = (IsLevel-iff _).0 v;
      },
  λ h. (first_problem_iff (tests_of c)).1 (
    (given_iff _).1 h.http_given,
    (
      (has_no_port_iff _).1 h.http_port,
      (
        (given_iff _).1 h.xds_given,
        (
          (has_no_port_iff _).1 h.xds_port,
          (
            (not_positive_iff _).1 h.interval,
            (
              (not_positive_iff _).1 h.stale,
              (
                (not_positive_iff _).1 h.shutdown,
                (
                  (not_positive_iff _).1 h.read,
                  (
                    (not_positive_iff _).1 h.write,
                    ((not_positive_iff _).1 h.idle, ((IsLevel-iff _).1 h.level, tt)),
                  ),
                ),
              ),
            ),
          ),
        ),
      ),
    ),
  ),
)
