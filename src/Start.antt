-- ===== src/Start.antt =====
-- cmd/kritis/admission/main.go: the start of the webhook's process, the metadata clients of
-- pkg/kritis/admission/admission.go, and pkg/kritis/metadata/grafeas/config.go. A fatal log entry is an
-- error; files, YAML, the clientsets, the clients and the HTTPS server are parameters.
pub mod Usable
use kritis.Base.{
  ℕ, String, Bool, true, false, Option, none, some, List, [], ◌∷◌, not, str_eq, if◌then◌else◌,
}
use kritis.Base.Result.{Error, Result, ok, err, errorf, wrap, Done}
use kritis.Base.Exec.{Exec, ◌>>=◌, ◌>>◌, pure, raise, lift, attempt, wrapping}
use kritis.Metadata.{Bytes, Client}
use kritis.Crd.{KritisConfig, Clientset, kritis_configs}
use kritis.Cron.{ℤ, CronConfig, run_in_foreground}
use kritis.Backend.Grafeas.{validate_config}

-- The names of the backends, and the defaults
abbrev pub container_analysis_metadata : String
container_analysis_metadata = "containerAnalysis"

abbrev pub grafeas_metadata : String
grafeas_metadata = "grafeas"

abbrev pub default_cron_interval : String
default_cron_interval = "1h"

abbrev pub default_server_addr : String
default_server_addr = ":443"

-- `CertConfig`
pub record CertConfig : Type 0 where
  pub cert_file : String
  pub key_file : String
  pub ca_file : String

-- `admission.Config`, with the address of Grafeas
pub record ServerConfig : Type 0 where
  pub metadata : String
  pub grafeas_addr : String
  pub certs : Option CertConfig

-- The variables of `main`
pub record Settings : Type 0 where
  pub config : ServerConfig
  pub cron_interval : String
  pub server_addr : String

-- The flags that the code branches on
pub record ServerFlags : Type 0 where
  pub grafeas_certs : String
  pub show_version : Bool
  pub run_cron : Bool

-- How `main` returns without a fatal error
pub data Ended : Type 0 where
  version_shown several_configs pods_checked : Ended
  no_configs : Error → Ended

-- `LoadConfig`; the decoded file has its certificates or nil.
unfoldable pub load_config :
    {W : Type 0}
    → (String → Exec W Bytes)
    → (Bytes → Result (Option CertConfig))
    → String
    → Exec W (Option CertConfig)
load_config read_file unmarshal file_name =
    if str_eq file_name ""
    then pure (some (record { cert_file = ""; key_file = ""; ca_file = "" }))
    else read_file file_name >>= λ contents. lift (unmarshal contents)

-- What `main` calls: `flag.Set`, files, YAML, the two constructors of clients, the clientset, durations,
-- `NewCronConfig` with its clientset, the start of a goroutine of `cron.Start`, and `ListenAndServeTLS` with
-- `ReviewHandler` for an address and a configuration.
pub record StartCalls (W K : Type 0) : Type 0 where
  pub set_logtostderr : Exec W Done
  pub read_file : String → Exec W Bytes
  pub unmarshal : Bytes → Result (Option CertConfig)
  pub new_grafeas : String → Option CertConfig → Exec W (Client W K)
  pub new_cache : Exec W (Client W K)
  pub get_clientset : Exec W Done
  pub parse_duration : String → Result ℤ
  pub new_cron_config : Client W K → CronConfig W
  pub start_cron : CronConfig W → ℤ → Exec W Done
  pub listen_and_serve : String → ServerConfig → Exec W Error

-- A setting of the configuration, which an empty text leaves at its default.
abbrev pub or_default : String → String → String
or_default value given = if not (str_eq given "") then given else value

abbrev pub default_settings : Settings
default_settings = record {
  config = record { metadata = container_analysis_metadata; grafeas_addr = ""; certs = none };
  cron_interval = default_cron_interval;
  server_addr = default_server_addr;
}

module _ {W K : Type 0} (calls : StartCalls W K) where
  -- `MetadataClient` and `MetadataReadOnlyClient`
  unfoldable pub metadata_client : ServerConfig → Exec W (Client W K)
  metadata_client config =
      if str_eq config.metadata grafeas_metadata
      then calls.new_grafeas config.grafeas_addr config.certs
      else if str_eq config.metadata container_analysis_metadata
      then calls.new_cache
      else raise (errorf "unsupported backend %v" (config.metadata ∷ []))

  unfoldable pub get_cron_config : ServerConfig → Exec W (CronConfig W)
  get_cron_config config =
      calls.get_clientset
      >> (metadata_client config >>= λ client. pure (calls.new_cron_config client))

  unfoldable pub start_cron_job : ServerConfig → String → Exec W Done
  start_cron_job config cron_interval = do
    d ← lift (calls.parse_duration cron_interval)
    cron_config ← get_cron_config config
    calls.start_cron cron_config d

module _ {W K : Type 0} (calls : StartCalls W K) (flags : ServerFlags) where
  abbrev pub with_certs : KritisConfig → String → Exec W ServerConfig
  with_certs conf metadata = do
    lift (validate_config conf.grafeas_addr)
    certs ← load_config calls.read_file calls.unmarshal flags.grafeas_certs
    pure (record { metadata = metadata; grafeas_addr = conf.grafeas_addr; certs = certs })

  abbrev pub backend_config : KritisConfig → String → Exec W ServerConfig
  backend_config conf metadata =
      if str_eq metadata grafeas_metadata
      then with_certs conf metadata
      else pure (record { metadata = metadata; grafeas_addr = ""; certs = none })

  -- The settings by the configurations of the cluster, `none` where there are several.
  unfoldable pub settings_of : List KritisConfig → Exec W (Option Settings)
  settings_of [] = pure (some default_settings)
  settings_of (conf ∷ []) =
      backend_config conf (or_default container_analysis_metadata conf.metadata_backend)
      >>= λ config. pure (
          some (record {
            config = config;
            cron_interval = or_default default_cron_interval conf.cron_interval;
            server_addr = or_default default_server_addr conf.server_addr;
          }))
  settings_of (conf ∷ other ∷ confs) = pure none

  abbrev pub serve : Settings → Exec W Ended
  serve settings =
      wrapping (wrap "starting background job" [])
        (start_cron_job calls settings.config settings.cron_interval)
      >> (calls.listen_and_serve settings.server_addr settings.config >>= λ e. raise e)

  abbrev pub check_in_foreground : Settings → Exec W Ended
  check_in_foreground settings = do
    cron_config ←
        wrapping (wrap "Could not run cron job in foreground: %s" [])
          (get_cron_config calls settings.config)
    wrapping (wrap "Error Checking pods: %s" []) (run_in_foreground cron_config)
    pure pods_checked

  abbrev pub run_with : Option Settings → Exec W Ended
  run_with none = pure several_configs
  run_with (some settings) = if flags.run_cron then check_in_foreground settings else serve settings

  abbrev pub after_configs : Result (List KritisConfig) → Exec W Ended
  after_configs (ok confs) = settings_of confs >>= run_with
  after_configs (err e) = pure (no_configs e)

  unfoldable pub main : Clientset W → Exec W Ended
  main clientset =
      wrapping (wrap "unable to set logtostderr" []) calls.set_logtostderr
      >> (if flags.show_version
          then pure version_shown
          else attempt (kritis_configs clientset) >>= after_configs)
