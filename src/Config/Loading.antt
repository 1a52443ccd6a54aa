-- ===== src/Config/Loading.antt =====
-- internal/config/config.go: what `Load` returns.
use mathlib.Core.Path.{subst}
use distributed_service_mesh.Config.Validation.{validate_config_iff, IsRunnable}
use distributed_service_mesh.Config.Settings.{
  load, validate_config, seconds, checked, text_setting, duration_setting, Config, Environment,
}
use distributed_service_mesh.Registry.Types.{Duration}
use distributed_service_mesh.Base.Outcome.{>>=-succeeds, ok-injective, Outcome-cases, ok, Outcome}
use distributed_service_mesh.Base.Text.{text_eq_iff, text_eq, codes, Text}
use distributed_service_mesh.Base.{
  refl, ◌∙◌, arith, inr, ap, sym, inl, Bool-cases, ◌≢◌, ◌⊎◌, ◌↔◌, [], ◌≡◌,
}

module _ {F : Type 0} (parse_duration : Text → Outcome F Duration) (env : Environment) where
  -- A text is the variable's where that is set, and the default otherwise.
  abbrev pub IsText : Text → Text → Text → Type 0
  IsText name default t = ((env name ≡ []) × (t ≡ default)) ⊎ ((env name ≢ []) × (t ≡ env name))

  -- A duration is what the variable is parsed to where that is set, and the default otherwise.
  abbrev pub IsDuration : Text → Duration → Duration → Type 0
  IsDuration name default d =
      ((env name ≡ []) × (d ≡ default)) ⊎ ((env name ≢ []) × (parse_duration (env name) ≡ ok d))

  pub record IsLoaded (c : Config) : Type 0 where
    pub http : IsText (codes "CP_HTTP_ADDR") (codes ":8080") c.http_addr
    pub xds : IsText (codes "CP_XDS_ADDR") (codes ":18000") c.xds_addr
    pub interval : IsDuration (codes "CP_RECONCILE_INTERVAL") (seconds 2) c.reconcile_interval
    pub stale : IsDuration (codes "CP_STALE_AFTER") (seconds 15) c.stale_after
    pub shutdown : IsDuration (codes "CP_SHUTDOWN_TIMEOUT") (seconds 10) c.shutdown_timeout
    pub read : IsDuration (codes "CP_READ_TIMEOUT") (seconds 5) c.read_timeout
    pub write : IsDuration (codes "CP_WRITE_TIMEOUT") (seconds 10) c.write_timeout
    pub idle : IsDuration (codes "CP_IDLE_TIMEOUT") (seconds 60) c.idle_timeout
    pub level : IsText (codes "CP_LOG_LEVEL") (codes "info") c.log_level

  text_setting_iff :
      (name default t : Text) → (text_setting env name default ≡ t) ↔ IsText name default t
  unfolding text_setting
  text_setting_iff name default t = elim (Bool-cases (text_eq (env name) [])) [
    | inl unset ↦
        let none_there : env name ≡ [] = (text_eq_iff (env name) []).0 unset in
        rw (unset, text_setting)
          (
            λ h. inl (none_there, sym h),
            λ x. elim x [ inl (_, e) ↦ sym e | inr (n, _) ↦ absurd (n none_there) ],
          )
    | inr given ↦
        let there : env name ≢ [] = ground (arith, text_eq_iff (env name) [], given) in
        rw (given, text_setting)
          (
            λ h. inr (there, sym h),
            λ x. elim x [ inl (n, _) ↦ absurd (there n) | inr (_, e) ↦ sym e ],
          )
  ]

  duration_setting_iff :
      (name : Text) (default d : Duration)
      → (duration_setting parse_duration env name default ≡ ok d) ↔ IsDuration name default d
  unfolding duration_setting
  duration_setting_iff name default d = elim (Bool-cases (text_eq (env name) [])) [
    | inl unset ↦
        let none_there : env name ≡ [] = (text_eq_iff (env name) []).0 unset in
        rw (unset, duration_setting)
          (
            λ h. inl (none_there, sym (ok-injective h)),
            λ x. elim x [ inl (_, e) ↦ ap ok (sym e) | inr (n, _) ↦ absurd (n none_there) ],
          )
    | inr given ↦
        let there : env name ≢ [] = ground (arith, text_eq_iff (env name) [], given) in
        elim (Outcome-cases (parse_duration (env name))) [
          | inl (a, parsed) ↦
              rw (given, parsed, duration_setting)
                (
                  λ h. inr (there, ap ok (ok-injective h)),
                  λ x. elim x [
                    | inl (n, _) ↦ absurd (there n)
                    | inr (_, e) ↦ ap ok (ok-injective e)
                  ],
                )
          | inr (x, bad) ↦
              rw (given, bad, duration_setting)
                (
                  λ h. absurd (ground (arith, h)),
                  λ x. elim x [
                    | inl (n, _) ↦ absurd (there n)
                    | inr (_, e) ↦ absurd (ground (arith, e))
                  ],
                )
        ]
  ]

  checked_iff : (c d : Config) → (checked parse_duration c ≡ ok d) ↔ ((c ≡ d) × IsRunnable d)
  checked_iff c d = elim (Outcome-cases (validate_config c)) [
    | inl (_, good) ↦
        rw (good, checked)
          (
            λ h. (
              ok-injective h,
              subst IsRunnable (ok-injective h) ((validate_config_iff c).0 good),
            ),
            λ (e, _). ap ok e,
          )
    | inr (x, bad) ↦
        rw (bad, checked)
          (
            λ h. absurd (ground (arith, h)),
            λ (e, run).
                absurd
                  (ground (arith, bad, (validate_config_iff c).1 (subst IsRunnable (sym e) run))),
          )
  ]

  -- Load returns a configuration exactly if each of its settings is the default where the variable
  -- is not set, and otherwise the variable's text or the duration that it is parsed to, and if it
  -- can be run with, which is what Validate tests.
  pub load_iff : (c : Config) → (load parse_duration env ≡ ok c) ↔ (IsLoaded c × IsRunnable c)
  unfolding load
  load_iff c = (
    λ h.
        let (i, hi, h1) = >>=-succeeds _ _ h in
        let (s, hs, h2) = >>=-succeeds _ _ h1 in
        let (d, hd, h3) = >>=-succeeds _ _ h2 in
        let (r, hr, h4) = >>=-succeeds _ _ h3 in
        let (w, hw, h5) = >>=-succeeds _ _ h4 in
        let (l, hl, h6) = >>=-succeeds _ _ h5 in
        let (same, run) = (checked_iff _ c).0 h6 in
        (
          record {
            http = (text_setting_iff _ _ _).0 (ap (λ x. x.http_addr) same);
            xds = (text_setting_iff _ _ _).0 (ap (λ x. x.xds_addr) same);
            interval = (duration_setting_iff _ _ _).0 (hi ∙ ap (λ x. ok x.reconcile_interval) same);
            stale = (duration_setting_iff _ _ _).0 (hs ∙ ap (λ x. ok x.stale_after) same);
            shutdown = (duration_setting_iff _ _ _).0 (hd ∙ ap (λ x. ok x.shutdown_timeout) same);
            read = (duration_setting_iff _ _ _).0 (hr ∙ ap (λ x. ok x.read_timeout) same);
            write = (duration_setting_iff _ _ _).0 (hw ∙ ap (λ x. ok x.write_timeout) same);
            idle = (duration_setting_iff _ _ _).0 (hl ∙ ap (λ x. ok x.idle_timeout) same);
            level = (text_setting_iff _ _ _).0 (ap (λ x. x.log_level) same);
          },
          run,
        ),
    λ (loaded, run).
        rw
          (
            (duration_setting_iff _ _ _).1 loaded.interval,
            (duration_setting_iff _ _ _).1 loaded.stale,
            (duration_setting_iff _ _ _).1 loaded.shutdown,
            (duration_setting_iff _ _ _).1 loaded.read,
            (duration_setting_iff _ _ _).1 loaded.write,
            (duration_setting_iff _ _ _).1 loaded.idle,
            (text_setting_iff _ _ _).1 loaded.http,
            (text_setting_iff _ _ _).1 loaded.xds,
            (text_setting_iff _ _ _).1 loaded.level,
          )
          ((checked_iff c c).1 (refl, run)),
  )
