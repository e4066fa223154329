-- ===== src/Cache/Failures.antt =====
-- What the cache holds, and what it makes of a failed read.
use kritis.Base.{
  ℕ, String, ◌≡◌, ◌≢◌, refl, ◌⊎◌, inl, inr, true, false, Bool-cases, Option, none, some, List, [],
  str_eq, str_eq_iff,
}
use kritis.Base.Maps.{lookup, insert, lookup-nil, lookup-insert}
use kritis.Base.Result.{
  Error, Result, ok, err, external, errorf, wrap, errorf_count, panicked, rejected,
}
use kritis.Names.{Names}
use kritis.Resources.{ImageSecurityPolicy, AttestationAuthority}
use kritis.Metadata.{Vulnerability, Attestation, Client}
use kritis.Policy.{collect}
use kritis.Policy.Isp.{image_in_allowlist, fully_qualified_image, validate_image_security_policy}
use kritis.Cache.{
  Cache, new_cache, store_failed, vulnerabilities_or, cached_vulnerabilities, attestations_or,
  cached_attestations,
}

-- Every entry of a map is empty.
abbrev pub HoldsNil : {B : Type 0} → List (String × List B) → Type 0
HoldsNil m = (image : String) → (lookup image m ≡ none) ⊎ (lookup image m ≡ some [])

-- All that the cache has stored is empty.
abbrev pub IsNil : Cache → Type 0
IsNil c = HoldsNil c.vuln × HoldsNil c.atts

insert_nil-HoldsNil :
    {B : Type 0} (image : String) (m : List (String × List B))
    → HoldsNil m
    → HoldsNil (insert image [] m)
insert_nil-HoldsNil {B} image m h other = elim (Bool-cases (str_eq image other)) [
  | inl e ↦ inr (rw (lookup-insert {A = List B}, e) refl)
  | inr ne ↦ rw (lookup-insert {A = List B}, ne) (h other)
]

store_failed-HoldsNil :
    {A B : Type 0} (image : String) (r : Result A) (m : List (String × List B))
    → HoldsNil m
    → HoldsNil (store_failed image r m)
unfolding store_failed
store_failed-HoldsNil image (ok v) m h = h
store_failed-HoldsNil image (err panicked) m h = h
store_failed-HoldsNil image (err (external s)) m h = insert_nil-HoldsNil image m h
store_failed-HoldsNil image (err (errorf s a)) m h = insert_nil-HoldsNil image m h
store_failed-HoldsNil image (err (wrap s a e)) m h = insert_nil-HoldsNil image m h
store_failed-HoldsNil image (err (errorf_count s n)) m h = insert_nil-HoldsNil image m h
store_failed-HoldsNil image (err (rejected b t)) m h = insert_nil-HoldsNil image m h

module _ {W K : Type 0} (client : Client W K) where
  vulnerabilities_or-IsNil :
      (o : Option (List Vulnerability)) (image : String) (c : Cache) (w : W)
      → IsNil c
      → IsNil (vulnerabilities_or client o image (c, w)).1.0
  vulnerabilities_or-IsNil (some v) image c w h = h
  vulnerabilities_or-IsNil none image c w (v, a) =
      (store_failed-HoldsNil image (client.vulnerabilities image w).0 c.vuln v, a)

  attestations_or-IsNil :
      (o : Option (List Attestation)) (image : String) (auth : AttestationAuthority) (c : Cache)
      (w : W)
      → IsNil c
      → IsNil (attestations_or client o image auth (c, w)).1.0
  attestations_or-IsNil (some a) image auth c w h = h
  attestations_or-IsNil none image auth c w (v, a) =
      (v, store_failed-HoldsNil image (client.attestations image auth w).0 c.atts a)

  -- A new cache holds nothing, and neither read stores anything but an empty list, so the cache never
  -- returns a vulnerability or an attestation that it has stored.
  pub cached_reads-IsNil :
      IsNil new_cache
      × ((image : String) (c : Cache) (w : W)
          → IsNil c
          → IsNil (cached_vulnerabilities client image (c, w)).1.0)
      × ((image : String) (auth : AttestationAuthority) (c : Cache) (w : W)
          → IsNil c
          → IsNil (cached_attestations client image auth (c, w)).1.0)
  unfolding new_cache cached_vulnerabilities cached_attestations
  cached_reads-IsNil = (
    (
      λ image. inl (lookup-nil {A = List Vulnerability} image),
      λ image. inl (lookup-nil {A = List Attestation} image),
    ),
    λ image c w h. vulnerabilities_or-IsNil (lookup image c.vuln) image c w h,
    λ image auth c w h. attestations_or-IsNil (lookup image c.atts) image auth c w h,
  )

store_failed_lem :
    (A : Type 0) {B : Type 0} (image : String) (e : Error) (m : List (String × List B))
    → e ≢ panicked
    → store_failed {A = A} image (err e) m ≡ insert image [] m
unfolding store_failed
store_failed_lem A image panicked m h = absurd (h refl)
store_failed_lem A image (external s) m h = refl
store_failed_lem A image (errorf s a) m h = refl
store_failed_lem A image (wrap s a e) m h = refl
store_failed_lem A image (errorf_count s n) m h = refl
store_failed_lem A image (rejected b t) m h = refl

lookup-insert_same :
    {B : Type 0} (image : String) (v : B) (m : List (String × B))
    → lookup image (insert image v m) ≡ some v
lookup-insert_same {B} image v m = rw (lookup-insert {A = B}, (str_eq_iff image image).1 refl) refl

module _ {W K : Type 0} (client : Client W K) (image : String) (c : Cache) (w : W) (e : Error)
    (uncached : lookup image c.vuln ≡ none) (failed : (client.vulnerabilities image w).0 ≡ err e)
    (no_panic : e ≢ panicked) where
  failing_read : cached_vulnerabilities client image (c, w) ≡ (
    err e,
    (record { vuln = insert image [] c.vuln; atts = c.atts }, (client.vulnerabilities image w).1),
  )
  unfolding cached_vulnerabilities
  failing_read =
      rw (uncached, failed, store_failed_lem (List Vulnerability) image e c.vuln no_panic) refl

  second_read :
      (v : W)
      → cached_vulnerabilities client image
          (record { vuln = insert image [] c.vuln; atts = c.atts }, v)
        ≡ (ok [], (record { vuln = insert image [] c.vuln; atts = c.atts }, v))
  unfolding cached_vulnerabilities
  second_read v = rw (lookup-insert_same {B = List Vulnerability}) refl

  module _ {R : Type 0} (severity_value : String → Option ℕ) (names : Names R)
      (outer : Client (Cache × W) K)
      (reads : (cw : Cache × W)
        → outer.vulnerabilities image cw ≡ cached_vulnerabilities client image cw)
      (isp : ImageSecurityPolicy) (unlisted : image_in_allowlist isp image ≡ false)
      (qualified : fully_qualified_image names image ≡ true) where
    -- Through the cache, the validation of an image whose vulnerabilities cannot be read is an error,
    -- and the same validation in the world that it leaves finds no violation and has no error,
    -- whatever the policy demands. The image is qualified, is not in the policy's list, and is not yet
    -- cached, and the failing read does not panic.
    pub validate_after_failure :
        ((validate_image_security_policy severity_value names isp image outer (c, w)).0
          ≡ ([], some e))
        × ((validate_image_security_policy severity_value names isp image outer
              (validate_image_security_policy severity_value names isp image outer (c, w)).1).0
            ≡ ([], none))
    unfolding validate_image_security_policy collect
    validate_after_failure =
        rw (unlisted, qualified, reads, failing_read) (refl, rw (reads, second_read) refl)
