-- ===== src/Backend/Grafeas.antt =====
-- pkg/kritis/metadata/grafeas/grafeas.go: the client of a Grafeas server. Its calls of the server are
-- parameters; the loops over the pages and the wait have a bound on their rounds.
use kritis.Base.{
  ℕ, zero, suc, String, ◌+++◌, ◌||◌, Option, none, some, List, [], ◌∷◌, ◌++◌, str_eq, is_empty,
  if◌then◌else◌,
}
use kritis.Base.Result.{Result, ok, err, errorf, wrap, map_err, Done}
use kritis.Base.Exec
use kritis.Base.Exec.{Exec, pure, lift}
use kritis.Base.Run.{Run, ◌>>=◌, call, unfinished}
use kritis.Resources.{AttestationAuthority}
use kritis.Metadata.{Note, Vulnerability, Attestation, SignatureType, pgp_signature_type}
use kritis.Occurrences.{Occurrence, create_occurrence_from_attestation}
use kritis.Backend.{
  parse_note_reference, get_project_from_container_image, get_resource_url, Filter, ListRequest,
  Page, page_size, pkg_vulnerability, attestation_authority, Service, create_note_request,
  collect_vulnerabilities, collect_attestations, delete_only,
}
use kritis.Backend.Wait.{Timer, wait_with}

-- `DefaultProject`
abbrev pub default_project : String
default_project = "kritis"

-- `ValidateConfig`, on the address
unfoldable pub validate_config : String → Result Done
validate_config addr = if str_eq addr "" then err (errorf "missing Grafeas address" []) else ok tt

abbrev pub list_filter : String → String → Filter
list_filter container_image kind = record {
  format = "resource_url=%q AND kind=%q";
  arguments = get_resource_url container_image ∷ kind ∷ [];
}

abbrev pub discovery_request : String → ListRequest
discovery_request container_image = record {
  parent = "projects/" +++ get_project_from_container_image container_image;
  filter = record {
    format = "resourceUrl=%q AND noteProjectId=%q AND noteId=\"PACKAGE_VULNERABILITY\"";
    arguments = get_resource_url container_image ∷ default_project ∷ [];
  };
  page_size = 0;
}

-- The first of the listed occurrences.
abbrev pub first_listed : List Occurrence → Option Occurrence
first_listed [] = none
first_listed (occ ∷ occs) = some occ

module _ {W : Type 0} where
  -- The end of a round, with the page that it got.
  abbrev pub after_page :
      (List Occurrence → String → Run W (List Occurrence))
      → List Occurrence
      → Page
      → Run W (List Occurrence)
  after_page rest occs resp =
      if is_empty (occs ++ resp.occurrences) || str_eq resp.next_page_token ""
      then call (pure (occs ++ resp.occurrences))
      else rest (occs ++ resp.occurrences) resp.next_page_token

  -- The loop over the pages of a listing, with what it has and the next token.
  unfoldable pub fetch_pages :
      (String → Exec W Page) → ℕ → List Occurrence → String → Run W (List Occurrence)
  fetch_pages list zero occs next_page_token = unfinished
  fetch_pages list (suc fuel) occs next_page_token =
      call (list next_page_token) >>= after_page (fetch_pages list fuel) occs

-- The client: the server, its two listings with a page token, the severity names, and
-- `util.CreateAttestation` for a secret.
module _ {W : Type 0} (service : Service W) (list_occurrences : ListRequest → String → Exec W Page)
    (list_note_occurrences : ListRequest → String → Exec W Page) where
  unfoldable pub fetch_vulnerability_occurrence : ℕ → String → String → Run W (List Occurrence)
  fetch_vulnerability_occurrence fuel container_image kind =
      fetch_pages
        (list_occurrences (record {
          filter = list_filter container_image kind;
          page_size = page_size;
          parent = "projects/" +++ default_project;
        }))
        fuel [] ""

  unfoldable pub fetch_attestation_occurrence :
      ℕ → String → String → AttestationAuthority → Run W (List Occurrence)
  fetch_attestation_occurrence fuel container_image kind aa =
      fetch_pages
        (list_note_occurrences (record {
          parent = aa.note_reference;
          filter = list_filter container_image kind;
          page_size = page_size;
        }))
        fuel [] ""

  unfoldable pub vulnerabilities : (ℕ → String) → ℕ → String → Run W (List Vulnerability)
  vulnerabilities severity_name fuel container_image =
      fetch_vulnerability_occurrence fuel container_image pkg_vulnerability >>= λ occs.
      call (lift (collect_vulnerabilities severity_name occs))

  unfoldable pub attestations : ℕ → String → AttestationAuthority → Run W (List Attestation)
  attestations fuel container_image aa =
      fetch_attestation_occurrence fuel container_image attestation_authority aa >>= λ occs.
      call (lift (collect_attestations occs))

  unfoldable pub create_attestation_note : AttestationAuthority → Exec W (Option Note)
  create_attestation_note aa =
      Exec.◌>>=◌ (lift (parse_note_reference aa.note_reference))
        (λ reference. service.create_note (create_note_request aa reference))

  unfoldable pub attestation_note : AttestationAuthority → Exec W (Option Note)
  attestation_note aa = service.get_note aa.note_reference

  unfoldable pub upload_attestation_occurrence :
      String → String → Attestation → String → SignatureType → Exec W Done
  upload_attestation_occurrence note_name container_image att proj s_type =
      Exec.◌>>=◌
        (lift (
          map_err (wrap "creating occurrence failed: %v" [])
            (create_occurrence_from_attestation att container_image note_name s_type)))
        (λ occ. service.create_occurrence occ ("projects/" +++ proj))

  unfoldable pub create_attestation_occurrence :
      {K : Type 0} → (String → K → Exec W Attestation) → String → String → K → String → Exec W Done
  create_attestation_occurrence create_attestation note_name container_image pgp_signing_key proj =
      Exec.◌>>=◌ (create_attestation container_image pgp_signing_key)
        (λ att. upload_attestation_occurrence note_name container_image att proj pgp_signature_type)

  unfoldable pub delete_attestation_occurrence : ℕ → String → AttestationAuthority → Run W Done
  delete_attestation_occurrence fuel container_image aa =
      fetch_attestation_occurrence fuel container_image attestation_authority aa >>= λ occs.
      call (delete_only service.delete_occurrence container_image aa occs)

  -- The listing of discovery occurrences.
  abbrev pub find_discovery : String → Exec W (Option Occurrence)
  find_discovery container_image =
      Exec.◌>>=◌ (list_occurrences (discovery_request container_image) "")
        (λ resp. pure (first_listed resp.occurrences))

  unfoldable pub wait_for_vulnz_analysis : Timer W → ℕ → String → ℕ → Run W Done
  wait_for_vulnz_analysis timer fuel container_image timeout =
      wait_with timer service.get_occurrence (find_discovery container_image) timeout fuel
