-- ===== src/Backend/Analysis.antt =====
-- pkg/kritis/metadata/containeranalysis/containeranalysis.go: the client of Container Analysis. Its
-- calls of the service and its iterators are parameters; the loops over the iterators and the
-- wait have a bound on their rounds.
use kritis.Base.{
  ℕ, zero, suc, String, ◌+++◌, Bool, false, Option, none, some, List, [], ◌∷◌, ◌++◌, if◌then◌else◌,
}
use kritis.Base.Result.{Result, ok, err, errorf, wrap, map_err, Done}
use kritis.Base.Exec
use kritis.Base.Exec.{Exec, pure, raise, lift, wrapping}
use kritis.Base.Run.{Run, ◌>>=◌, call, unfinished}
use kritis.Names.{Names}
use kritis.Resources.{AttestationAuthority}
use kritis.Metadata.{Note, Vulnerability, Attestation, SignatureType, pgp_signature_type}
use kritis.Occurrences.{Occurrence, create_occurrence_from_attestation}
use kritis.Backend.{
  parse_note_reference, project_of_image, get_project_from_container_image, get_resource_url,
  is_registry_gcr, ListRequest, page_size, pkg_vulnerability, attestation_authority, Service,
  create_note_request, collect_vulnerabilities, collect_attestations, delete_only,
}
use kritis.Backend.Wait.{Timer, wait_with}

-- `DEFAULT_DISCOVERY_NOTE_PROJECT`
abbrev pub default_discovery_note_project : String
default_discovery_note_project = "goog-analysis"

-- `defaultListOccurrencesRequest`
abbrev pub list_occurrences_request : String → String → ListRequest
list_occurrences_request container_image kind = record {
  filter = record {
    format = "resourceUrl=%q AND kind=%q";
    arguments = get_resource_url container_image ∷ kind ∷ [];
  };
  parent = "projects/" +++ project_of_image container_image;
  page_size = page_size;
}

abbrev pub list_note_request : String → AttestationAuthority → ListRequest
list_note_request container_image auth = record {
  parent = auth.note_reference;
  filter = record { format = "resourceUrl=%q"; arguments = get_resource_url container_image ∷ [] };
  page_size = page_size;
}

abbrev pub discovery_request : String → ListRequest
discovery_request container_image = record {
  parent = "projects/" +++ get_project_from_container_image container_image;
  filter = record {
    format = "resourceUrl=%q AND noteProjectId=%q AND noteId=\"PACKAGE_VULNERABILITY\"";
    arguments = get_resource_url container_image ∷ default_discovery_note_project ∷ [];
  };
  page_size = 0;
}

-- The service's listings, which make an iterator, and `Next` of an iterator, where `none` is
-- `iterator.Done`; how far an iterator is stands in the world.
pub record Listings (W I : Type 0) : Type 0 where
  pub list_occurrences : ListRequest → W → I × W
  pub list_note_occurrences : ListRequest → W → I × W
  pub next : I → Exec W (Option Occurrence)

module _ {W : Type 0} where
  abbrev pub after_next :
      (List Occurrence → Run W (List Occurrence))
      → List Occurrence
      → Option Occurrence
      → Run W (List Occurrence)
  after_next rest occs none = call (pure occs)
  after_next rest occs (some occ) = rest (occs ++ (occ ∷ []))

  -- The loop over an iterator, with the occurrences that it has.
  unfoldable pub fetch_all :
      Exec W (Option Occurrence) → ℕ → List Occurrence → Run W (List Occurrence)
  fetch_all next zero occs = unfinished
  fetch_all next (suc fuel) occs = call next >>= after_next (fetch_all next fuel) occs

  -- The rest of a call, with the iterator of a listing.
  abbrev pub with_iterator : {I B : Type 0} → (W → I × W) → (I → W → B) → W → B
  with_iterator list f w = let (it, w') = list w in f it w'

module _ {R : Type 0} (names : Names R) where
  abbrev pub registry_of : Result R → Bool
  registry_of (ok ref) = is_registry_gcr (names.registry_str ref)
  registry_of (err e) = false

  unfoldable pub is_valid_image_on_gcr : String → Bool
  is_valid_image_on_gcr container_image = registry_of (names.parse_reference container_image)

  abbrev pub not_in_gcr : String → {W A : Type 0} → Exec W A
  not_in_gcr container_image =
      raise (errorf "%s is not a valid image hosted in GCR" (container_image ∷ []))

-- The client, with the service and its iterators.
module _ {R W I : Type 0} (names : Names R) (service : Service W) (listings : Listings W I) where
  unfoldable pub fetch_vulnerability_occurrence : ℕ → String → String → Run W (List Occurrence)
  fetch_vulnerability_occurrence fuel container_image kind =
      if is_valid_image_on_gcr names container_image
      then with_iterator (listings.list_occurrences (list_occurrences_request container_image kind))
          (λ it. fetch_all (listings.next it) fuel [])
      else call (not_in_gcr names container_image)

  -- The kind is not used.
  unfoldable pub fetch_attestation_occurrence :
      ℕ → String → String → AttestationAuthority → Run W (List Occurrence)
  fetch_attestation_occurrence fuel container_image kind auth =
      if is_valid_image_on_gcr names container_image
      then with_iterator (listings.list_note_occurrences (list_note_request container_image auth))
          (λ it. fetch_all (listings.next it) fuel [])
      else call (not_in_gcr names container_image)

  unfoldable pub vulnerabilities : (ℕ → String) → ℕ → String → Run W (List Vulnerability)
  vulnerabilities severity_name fuel container_image =
      fetch_vulnerability_occurrence fuel container_image pkg_vulnerability >>= λ occs.
      call (lift (collect_vulnerabilities severity_name occs))

  unfoldable pub attestations : ℕ → String → AttestationAuthority → Run W (List Attestation)
  attestations fuel container_image aa =
      fetch_attestation_occurrence fuel container_image attestation_authority aa >>= λ occs.
      call (lift (collect_attestations occs))

  unfoldable pub upload_attestation_occurrence :
      String → String → Attestation → String → SignatureType → Exec W Done
  upload_attestation_occurrence note_name container_image att proj s_type =
      if is_valid_image_on_gcr names container_image
      then Exec.◌>>=◌
          (lift (
            map_err (wrap "creating occurrence failed: %v" [])
              (create_occurrence_from_attestation att container_image note_name s_type)))
          (λ occ. service.create_occurrence occ ("projects/" +++ proj))
      else not_in_gcr names container_image

  unfoldable pub create_attestation_occurrence :
      {K : Type 0} → (String → K → Exec W Attestation) → String → String → K → String → Exec W Done
  create_attestation_occurrence create_attestation note_name container_image pgp_signing_key proj =
      Exec.◌>>=◌ (create_attestation container_image pgp_signing_key)
        (λ att. upload_attestation_occurrence note_name container_image att proj pgp_signature_type)

  unfoldable pub delete_attestation_occurrence : ℕ → String → AttestationAuthority → Run W Done
  delete_attestation_occurrence fuel container_image aa =
      fetch_attestation_occurrence fuel container_image attestation_authority aa >>= λ occs.
      call (delete_only service.delete_occurrence container_image aa occs)

  -- The listing of discovery occurrences, of which the first is taken.
  abbrev pub find_discovery : String → Exec W (Option Occurrence)
  find_discovery container_image =
      with_iterator (listings.list_occurrences (discovery_request container_image))
        (λ it. wrapping (wrap "it.Next: %v" []) (listings.next it))

  unfoldable pub wait_for_vulnz_analysis : Timer W → ℕ → String → ℕ → Run W Done
  wait_for_vulnz_analysis timer fuel container_image timeout =
      wait_with timer service.get_occurrence (find_discovery container_image) timeout fuel

module _ {W : Type 0} (service : Service W) where
  unfoldable pub create_attestation_note : AttestationAuthority → Exec W (Option Note)
  create_attestation_note aa =
      Exec.◌>>=◌ (lift (parse_note_reference aa.note_reference))
        (λ reference. service.create_note (create_note_request aa reference))

  unfoldable pub attestation_note : AttestationAuthority → Exec W (Option Note)
  attestation_note aa = service.get_note aa.note_reference

  unfoldable pub delete_attestation_note : AttestationAuthority → Exec W Done
  delete_attestation_note aa = service.delete_note aa.note_reference

  unfoldable pub delete_occurrence : String → Exec W Done
  delete_occurrence id = service.delete_occurrence id
