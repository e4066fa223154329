-- ===== src/Payload.antt =====
-- pkg/kritis/container/container.go and pkg/kritis/attestation/payload.go: the payload that an
-- attestation of an image signs.
pub mod Checked
use kritis.Base.{String, Bool, ◌&&◌, Option, none, some, List, [], str_eq}
use kritis.Base.Result.{Result, ok, err, Done, ◌>>=◌}
use kritis.Names.{Names, Digest}
use kritis.Metadata.{Bytes}

-- `constants.AtomicContainerSigType`
abbrev pub atomic_container_sig_type : String
atomic_container_sig_type = "atomic container signature"

-- `identity` and `image`
pub record Identity : Type 0 where
  pub docker_ref : String

pub record Image : Type 0 where
  pub digest : String

-- `critical`; its pointers are never nil where it is made.
pub record Critical : Type 0 where
  pub identity : Identity
  pub image : Image
  pub critical_type : String

-- `AtomicContainerSig`, with an optional map that may be nil
pub record ContainerSig : Type 0 where
  pub critical : Critical
  pub optional : Option (List (String × String))

abbrev pub new_identity : String → Identity
new_identity image = record { docker_ref = image }

abbrev pub new_image : String → Image
new_image digest = record { digest = digest }

-- `Equals` of two signatures, and of what is critical in them
unfoldable pub critical_equals : Critical → Critical → Bool
critical_equals c1 c2 =
    str_eq c1.identity.docker_ref c2.identity.docker_ref && str_eq c1.image.digest c2.image.digest

unfoldable pub equals : ContainerSig → ContainerSig → Bool
unfolding critical_equals
equals acs acs_other = critical_equals acs.critical acs_other.critical

module _ {R : Type 0} (names : Names R) where
  unfoldable pub new_critical : String → Result Critical
  new_critical image = do
    digest ← names.new_digest_strict image
    ok (record {
      identity = new_identity digest.repository_name;
      image = new_image digest.digest_str;
      critical_type = atomic_container_sig_type;
    })

  unfoldable pub new_atomic_container_sig :
      String → Option (List (String × String)) → Result ContainerSig
  new_atomic_container_sig image optional = do
    critical ← new_critical image
    ok (record { critical = critical; optional = optional })

  -- `AtomicContainerPayload`, with `json.Marshal` of a signature
  unfoldable pub atomic_container_payload : (ContainerSig → Result Bytes) → String → Result Bytes
  atomic_container_payload marshal image_uri = do
    acs ← new_atomic_container_sig image_uri none
    marshal acs
