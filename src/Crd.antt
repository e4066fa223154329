-- ===== src/Crd.antt =====
-- pkg/kritis/crd: the lists of custom resources in the cluster. The client of the cluster is a parameter.
use kritis.Base.{String, List, []}
use kritis.Base.Result.{Done, wrap}
use kritis.Base.Exec.{Exec, ◌>>◌, wrapping}
use kritis.Resources.{
  ImageSecurityPolicy, GenericAttestationPolicy, AttestationAuthority, BuildPolicy,
}

-- `GrafeasConfigSpec`, its address, and `KritisConfig` with its spec
pub record KritisConfig : Type 0 where
  pub metadata_backend : String
  pub cron_interval : String
  pub server_addr : String
  pub grafeas_addr : String

-- The calls of the cluster's configuration and of the generated clientset, by namespace
pub record Clientset (W : Type 0) : Type 0 where
  pub in_cluster_config : Exec W Done
  pub new_for_config : Exec W Done
  pub list_authorities : String → Exec W (List AttestationAuthority)
  pub get_authority : String → String → Exec W AttestationAuthority
  pub list_isps : String → Exec W (List ImageSecurityPolicy)
  pub list_gaps : String → Exec W (List GenericAttestationPolicy)
  pub list_build_policies : String → Exec W (List BuildPolicy)
  pub list_configs : Exec W (List KritisConfig)

module _ {W : Type 0} (clientset : Clientset W) where
  -- A client of the custom resources.
  abbrev pub with_clientset : {A : Type 0} → Exec W A → Exec W A
  with_clientset m =
      wrapping (wrap "error building config: %v" []) clientset.in_cluster_config
      >> (wrapping (wrap "error building clientset: %v" []) clientset.new_for_config >> m)

  unfoldable pub authorities : String → Exec W (List AttestationAuthority)
  authorities namespace = with_clientset (
      wrapping (wrap "error listing all attestation authorities: %v" [])
        (clientset.list_authorities namespace))

  unfoldable pub authority : String → String → Exec W AttestationAuthority
  authority namespace name = with_clientset (clientset.get_authority namespace name)

  unfoldable pub image_security_policies : String → Exec W (List ImageSecurityPolicy)
  image_security_policies namespace = with_clientset (
      wrapping (wrap "error listing all image policy requirements: %v" [])
        (clientset.list_isps namespace))

  unfoldable pub policies : String → Exec W (List GenericAttestationPolicy)
  policies namespace = with_clientset (
      wrapping (wrap "error listing all generic attestation policy requirements: %v" [])
        (clientset.list_gaps namespace))

  unfoldable pub build_policies : String → Exec W (List BuildPolicy)
  build_policies namespace = with_clientset (
      wrapping (wrap "error listing all image policy requirements: %v" [])
        (clientset.list_build_policies namespace))

  unfoldable pub kritis_configs : Exec W (List KritisConfig)
  kritis_configs =
      with_clientset
        (wrapping (wrap "error listing all kritis configs: %v" []) clientset.list_configs)
