-- ===== src/Cache.antt =====
-- pkg/kritis/metadata/containeranalysis/cache.go: the reads of vulnerabilities and attestations
-- through the cache. The client of containeranalysis.go returns nil beside an error.
pub mod Failures
pub mod Notes
use kritis.Base.{String, Option, none, some, List, [], ◌∷◌}
use kritis.Base.Maps.{lookup, insert}
use kritis.Base.Result.{Result, ok, err, panicked}
use kritis.Base.Exec.{Exec}
use kritis.Resources.{AttestationAuthority}
use kritis.Metadata.{Vulnerability, Attestation, Client}

-- `Cache`, without the notes, which Cache/Notes has
pub record Cache : Type 0 where
  pub vuln : List (String × List Vulnerability)
  pub atts : List (String × List Attestation)

-- `NewCache`
unfoldable pub new_cache : Cache
new_cache = record { vuln = []; atts = [] }

-- `if err != nil { m[image] = v }`, where `v` is nil; a panic passes
unfoldable pub store_failed :
    {A B : Type 0} → String → Result A → List (String × List B) → List (String × List B)
store_failed image (ok v) m = m
store_failed image (err panicked) m = m
store_failed image (err e) m = insert image [] m

module _ {W K : Type 0} (client : Client W K) where
  abbrev pub vulnerabilities_or :
      Option (List Vulnerability) → String → Exec (Cache × W) (List Vulnerability)
  vulnerabilities_or (some v) image (c, w) = (ok v, (c, w))
  vulnerabilities_or none image (c, w) =
      let (r, w') = client.vulnerabilities image w in
      (r, (record { vuln = store_failed image r c.vuln; atts = c.atts }, w'))

  unfoldable pub cached_vulnerabilities : String → Exec (Cache × W) (List Vulnerability)
  cached_vulnerabilities image (c, w) = vulnerabilities_or (lookup image c.vuln) image (c, w)

  abbrev pub attestations_or :
      Option (List Attestation)
      → String
      → AttestationAuthority
      → Exec (Cache × W) (List Attestation)
  attestations_or (some a) image auth (c, w) = (ok a, (c, w))
  attestations_or none image auth (c, w) =
      let (r, w') = client.attestations image auth w in
      (r, (record { vuln = c.vuln; atts = store_failed image r c.atts }, w'))

  unfoldable pub cached_attestations :
      String → AttestationAuthority → Exec (Cache × W) (List Attestation)
  cached_attestations image auth (c, w) = attestations_or (lookup image c.atts) image auth (c, w)
