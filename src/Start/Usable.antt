-- ===== src/Start/Usable.antt =====
-- The settings that the webhook's process (cmd/kritis/admission/main.go) runs with.
use kritis.Base.{
  String, ◌≡◌, ◌≢◌, refl, sym, ◌∙◌, subst, ap, inl, inr, Bool, true, false, not, some, List, [],
  ◌∷◌, str_eq, str_eq_iff, Bool-cases, if◌then◌else◌,
}
use kritis.Base.Result.{ok, ok-injective}
use kritis.Base.Exec.{lift}
use kritis.Base.Returned.{bound-ok, some-injective}
use kritis.Crd.{KritisConfig}
use kritis.Backend.Grafeas.{validate_config}
use kritis.Start.{
  grafeas_metadata, container_analysis_metadata, default_cron_interval, default_server_addr,
  ServerConfig, Settings, ServerFlags, StartCalls, or_default, default_settings, with_certs,
  backend_config, settings_of, load_config,
}

-- A backend is named, the interval and the address are given, and Grafeas has an address.
abbrev pub Usable : Settings → Type 0
Usable s =
    (s.config.metadata ≢ "")
    × (s.cron_interval ≢ "")
    × (s.server_addr ≢ "")
    × (s.config.metadata ≡ grafeas_metadata → s.config.grafeas_addr ≢ "")

chosen-nonempty :
    (value given : String) (empty : Bool)
    → str_eq given "" ≡ empty
    → value ≢ ""
    → (if not empty then given else value) ≢ ""
chosen-nonempty value given true e nonempty h = nonempty h
chosen-nonempty value given false e nonempty h = absurd (cc ((str_eq_iff given "").1 h, e))

or_default-nonempty : (value given : String) → value ≢ "" → or_default value given ≢ ""
or_default-nonempty value given nonempty =
    chosen-nonempty value given (str_eq given "") refl nonempty

validate_config-nonempty : (addr : String) → validate_config addr ≡ ok tt → addr ≢ ""
unfolding validate_config
validate_config-nonempty addr h e = absurd (cc (rw ((str_eq_iff addr "").1 e) at h))

-- A text that compares as different is different.
differs : (value : String) → str_eq value "" ≡ false → value ≢ ""
differs value e h = absurd (cc ((str_eq_iff value "").1 h, e))

default_settings-Usable : Usable default_settings
default_settings-Usable = (
  differs container_analysis_metadata refl,
  differs default_cron_interval refl,
  differs default_server_addr refl,
  λ h. absurd (cc ((str_eq_iff container_analysis_metadata grafeas_metadata).1 h)),
)

module _ {W K : Type 0} (calls : StartCalls W K) (flags : ServerFlags) where
  with_certs-Usable :
      (conf : KritisConfig) (metadata : String) (config : ServerConfig) (w w' : W)
      → with_certs calls flags conf metadata w ≡ (ok config, w')
      → (config.metadata ≡ metadata) × (config.grafeas_addr ≢ "")
  with_certs-Usable conf metadata config w w' h =
      let (valid, v, k) = bound-ok _ config w' (lift (validate_config conf.grafeas_addr)) w h in
      let (certs, c, q) =
        bound-ok _ config w' (load_config calls.read_file calls.unmarshal flags.grafeas_certs) w
          k in
      let made = ok-injective (ap (λ x. x.0) q) in
      (
        sym (ap (λ c. c.metadata) made),
        λ z. validate_config-nonempty conf.grafeas_addr (cc v) (ap (λ c. c.grafeas_addr) made ∙ z),
      )

  backend_config-Usable :
      (conf : KritisConfig) (metadata : String) (config : ServerConfig) (w w' : W)
      → backend_config calls flags conf metadata w ≡ (ok config, w')
      → (config.metadata ≡ metadata) × (metadata ≡ grafeas_metadata → config.grafeas_addr ≢ "")
  backend_config-Usable conf metadata config w w' h =
      elim (Bool-cases (str_eq metadata grafeas_metadata)) [
        | inl e ↦
            let (m, a) = with_certs-Usable conf metadata config w w' (rw e at h) in (m, λ g. a)
        | inr e ↦ (
          sym (ap (λ c. c.metadata) (ok-injective (ap (λ x. x.0) (rw e at h)))),
          λ g. absurd (cc ((str_eq_iff metadata grafeas_metadata).1 g, e)),
        )
      ]

  -- The settings that the process takes from the configurations of the cluster name a backend, an
  -- interval and an address of the server; where the backend is Grafeas, its address is given too.
  pub settings_of-Usable :
      (confs : List KritisConfig) (s : Settings) (w w' : W)
      → settings_of calls flags confs w ≡ (ok (some s), w')
      → Usable s
  unfolding settings_of
  settings_of-Usable [] s w w' h =
      subst Usable (some-injective (ok-injective (ap (λ x. x.0) h))) default_settings-Usable
  settings_of-Usable (conf ∷ []) s w w' h =
      let chosen = or_default container_analysis_metadata conf.metadata_backend in
      let (config, b, k) = bound-ok _ (some s) w' (backend_config calls flags conf chosen) w h in
      let (m, g) =
        backend_config-Usable conf chosen config w (backend_config calls flags conf chosen w).1
          (ap (λ r. (r, (backend_config calls flags conf chosen w).1)) b) in
      subst Usable (some-injective (ok-injective (ap (λ x. x.0) k))) (
        λ e.
            or_default-nonempty container_analysis_metadata conf.metadata_backend
              (differs container_analysis_metadata refl) (sym m ∙ e),
        or_default-nonempty default_cron_interval conf.cron_interval
            (differs default_cron_interval refl),
        or_default-nonempty default_server_addr conf.server_addr (differs default_server_addr refl),
        λ e. g (sym m ∙ e),
      )
  settings_of-Usable (conf ∷ other ∷ confs) s w w' h = absurd (cc h)
