-- ===== src/Resources.antt =====
-- pkg/kritis/apis/kritis/v1beta1 and the Kubernetes objects that it refers to: the fields that the
-- code reads.
use kritis.Base.{String, Option, List}

-- `metav1.OwnerReference`
pub record OwnerReference : Type 0 where
  pub kind : String
  pub name : String

-- `metav1.ObjectMeta`. Labels, annotations and owners distinguish a nil map or slice, `none`, from
-- an empty one.
pub record ObjectMeta : Type 0 where
  pub name : String
  pub namespace : String
  pub labels : Option (List (String × String))
  pub annotations : Option (List (String × String))
  pub owner_references : Option (List OwnerReference)

-- `v1.Container`
pub record Container : Type 0 where
  pub image : String

-- `v1.PodSpec`
pub record PodSpec : Type 0 where
  pub init_containers : List Container
  pub containers : List Container

-- `v1.Pod`; `appsv1.Deployment` and `appsv1.ReplicaSet`, whose pod template is `spec` here.
pub record Workload : Type 0 where
  pub meta : ObjectMeta
  pub spec : PodSpec

-- `PackageVulnerabilityRequirements`
pub record PackageVulnerabilityRequirements : Type 0 where
  pub maximum_severity : String
  pub maximum_fix_unavailable_severity : String
  pub allowlist_cves : List String

-- `ImageSecurityPolicy`, with its spec
pub record ImageSecurityPolicy : Type 0 where
  pub name : String
  pub namespace : String
  pub image_allowlist : List String
  pub package_vulnerability_requirements : PackageVulnerabilityRequirements
  pub attestation_authority_name : String
  pub private_key_secret_name : String

-- `ImageVulnerabilityRequirements`
pub record ImageVulnerabilityRequirements : Type 0 where
  pub maximum_fixable_severity : String
  pub maximum_unfixable_severity : String
  pub allowlist_cves : List String

-- `VulnzSigningPolicy`, with its spec
pub record VulnzSigningPolicy : Type 0 where
  pub name : String
  pub image_vulnerability_requirements : ImageVulnerabilityRequirements

-- `GenericAttestationPolicy`, with its spec
pub record GenericAttestationPolicy : Type 0 where
  pub name : String
  pub namespace : String
  -- the `NamePattern` of each admission allowlist pattern
  pub admission_allowlist_patterns : List String
  pub attestation_authority_names : List String

-- `PkixPublicKey`
pub record PkixPublicKey : Type 0 where
  pub public_key_pem : String
  pub signature_algorithm : String

-- `PublicKey`
pub record PublicKey : Type 0 where
  pub key_id : String
  pub key_type : String
  pub ascii_armored_pgp_public_key : String
  pub pkix_public_key : PkixPublicKey

-- `AttestationAuthority`, with its spec
pub record AttestationAuthority : Type 0 where
  pub name : String
  pub namespace : String
  pub note_reference : String
  pub public_keys : List PublicKey

-- `BuildPolicy`, with its spec
pub record BuildPolicy : Type 0 where
  pub name : String
  pub namespace : String
  pub attestation_authority_name : String
  pub private_key_secret_name : String
  pub built_from : String
