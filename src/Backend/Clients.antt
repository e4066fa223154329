-- ===== src/Backend/Clients.antt =====
-- What the operations of the two clients (pkg/kritis/metadata/grafeas/grafeas.go and
-- pkg/kritis/metadata/containeranalysis/containeranalysis.go) return, from their listings on.
use kritis.Base.{
  ℕ, ◌<◌, ◌≤◌, String, ◌≡◌, refl, subst, arith, ◌≢◌, ◌⊎◌, inl, inr, true, Option, none, some, List,
  [], ◌∷◌, map, length,
}
use kritis.Base.Result
use kritis.Base.Result.{Error, Result, ok, err, errorf, Done}
use kritis.Base.Exec.{Exec}
use kritis.Base.Run.{then_run, call, Returns, Returns-then}
use kritis.Resources.{AttestationAuthority}
use kritis.Metadata.{Attestation, SignatureType}
use kritis.Occurrences.{Occurrence, create_occurrence_from_attestation}
use kritis.Occurrences.Roundtrip.{kept_of, create_occurrence_roundtrip}
use kritis.Names.{Names}
use kritis.Backend.{
  Page, Service, ListRequest, page_size, collect_attestations, delete_only, attestation_authority,
}
use kritis.Backend.Wait.{Timer, wait_with}
use kritis.Backend.Wait.Rounds.{wait_rounds-none_listed}
use kritis.Backend.Fetch.{Serves, seen_of, fetch_pages-Serves, Iterates, returned, fetch_from}
use kritis.Backend.Grafeas
use kritis.Backend.Analysis
use kritis.Backend.Analysis.{Listings, is_valid_image_on_gcr}

-- The occurrences were made of these attestations, for any images and notes.
abbrev pub Made : SignatureType → List Attestation → List Occurrence → Type 0
Made s_type [] [] = Unit
Made s_type [] (occ ∷ occs) = ⊥
Made s_type (att ∷ atts) [] = ⊥
Made s_type (att ∷ atts) (occ ∷ occs) =
    ((image : String) × (note_name : String) × (create_occurrence_from_attestation att image
          note_name s_type
        ≡ ok occ))
    × Made s_type atts occs

-- Occurrences that were made of attestations are collected into those attestations, in order.
pub collect_attestations-Made :
    (s_type : SignatureType) (atts : List Attestation) (occs : List Occurrence)
    → Made s_type atts occs
    → collect_attestations occs ≡ ok (map (kept_of s_type) atts)
unfolding collect_attestations
collect_attestations-Made s_type [] [] m = refl
collect_attestations-Made s_type [] (occ ∷ occs) m = absurd m
collect_attestations-Made s_type (att ∷ atts) [] m = absurd m
collect_attestations-Made s_type (att ∷ atts) (occ ∷ occs) ((image, note_name, e), m) =
    rw
      (
        (create_occurrence_roundtrip att image note_name s_type occ e).0,
        collect_attestations-Made s_type atts occs m,
      )
      refl

module _ {W : Type 0} (service : Service W) (list_occurrences : ListRequest → String → Exec W Page)
    (list_note_occurrences : ListRequest → String → Exec W Page) where
  -- The listing of the note of an authority for an image, on a Grafeas server.
  abbrev pub note_request : String → AttestationAuthority → ListRequest
  note_request image aa = record {
    parent = aa.note_reference;
    filter = Grafeas.list_filter image attestation_authority;
    page_size = page_size;
  }

  -- Where a Grafeas server has finitely many pages for the note of the authority and the image, and
  -- they hold occurrences that were made of attestations, the attestations of the image are those
  -- attestations, in order, when the first page is not empty.
  pub grafeas_attestations-Serves :
      (fuel : ℕ) (image : String) (aa : AttestationAuthority) (pages : List Page)
      (s_type : SignatureType) (atts : List Attestation) (w : W)
      → Serves (list_note_occurrences (note_request image aa)) "" pages
      → length pages ≤ fuel
      → Made s_type atts (seen_of pages)
      → Returns
          (ok (map (kept_of s_type) atts))
          (Grafeas.attestations service list_occurrences list_note_occurrences fuel image aa w)
  unfolding Grafeas.attestations Grafeas.fetch_attestation_occurrence
  grafeas_attestations-Serves fuel image aa pages s_type atts w s h m =
      subst
        (λ r.
          Returns r
            (Grafeas.attestations service list_occurrences list_note_occurrences fuel image aa w))
        (collect_attestations-Made s_type atts (seen_of pages) m)
        (Returns-then collect_attestations (ok (seen_of pages)) _
          (fetch_pages-Serves (list_note_occurrences (note_request image aa)) fuel "" pages w s h))

-- Where a Container Analysis iterator over the note of the authority and the image ends after finitely
-- many occurrences, the attestations of an image in GCR are those of all the occurrences, or the
-- error of the iterator.
module _ {R W I : Type 0} (names : Names R) (service : Service W) (listings : Listings W I)
    (fuel : ℕ) (image : String) (aa : AttestationAuthority) (w : W) where
  abbrev note_listing : I × W
  note_listing = listings.list_note_occurrences (Analysis.list_note_request image aa) w

  pub analysis_attestations-Iterates :
      (occs : List Occurrence) (end : Result Done)
      → is_valid_image_on_gcr names image ≡ true
      → Iterates (listings.next note_listing.0) end note_listing.1 occs
      → length occs < fuel
      → Returns
          (Result.◌>>=◌ (returned end occs) collect_attestations)
          (Analysis.attestations names service listings fuel image aa w)
  unfolding Analysis.attestations Analysis.fetch_attestation_occurrence
  analysis_attestations-Iterates occs end valid s h = rw valid (
      Returns-then collect_attestations (returned end occs) _
        (fetch_from (listings.next note_listing.0) fuel [] occs end note_listing.1 s h))

-- Whether the deletion deleted: the world is the one after the fetch, or the only occurrence that
-- was fetched was deleted in it, and a success means the second.
module _ {W : Type 0} (delete : String → Exec W Done) (image : String)
    (aa : AttestationAuthority) where
  abbrev pub DeletesOnly : List Occurrence → W → Result Done × W → Type 0
  DeletesOnly occs v (r, w) =
      ((occ : Occurrence) × (occs ≡ occ ∷ []) × ((r, w) ≡ delete occ.name v))
      ⊎ ((w ≡ v) × (r ≢ ok tt) × (length occs ≢ 1))

  delete_only-DeletesOnly :
      (occs : List Occurrence) (v : W) → DeletesOnly occs v (delete_only delete image aa occs v)
  delete_only-DeletesOnly [] v = inr (refl, λ h. cc h, λ h. omega (arith, h))
  delete_only-DeletesOnly (occ ∷ []) v = inl (occ, refl, refl)
  delete_only-DeletesOnly (occ ∷ next ∷ occs) v = inr (refl, λ h. cc h, λ h. omega (arith, h))

  -- What a deletion did, by the fetch that it began with.
  abbrev pub Deletion : Option (Result (List Occurrence) × W) → Option (Result Done × W) → Type 0
  Deletion none d = d ≡ none
  Deletion (some (err e, v)) d = d ≡ some (err e, v)
  Deletion (some (ok occs, v)) d = (e : Result Done × W) × (d ≡ some e) × DeletesOnly occs v e

  pub then_delete :
      (o : Option (Result (List Occurrence) × W))
      → Deletion o (then_run (λ occs. call (delete_only delete image aa occs)) o)
  then_delete none = refl
  then_delete (some (err e, v)) = refl
  then_delete (some (ok occs, v)) =
      (delete_only delete image aa occs v, refl, delete_only-DeletesOnly occs v)

module _ {W : Type 0} (service : Service W) (list_occurrences : ListRequest → String → Exec W Page)
    (list_note_occurrences : ListRequest → String → Exec W Page) (fuel : ℕ) where
  -- A deletion on a Grafeas server deletes the one occurrence that it fetched, or nothing; it deletes
  -- where it returns no error.
  pub grafeas_delete-Deletion :
      (image : String) (aa : AttestationAuthority) (w : W)
      → Deletion service.delete_occurrence image aa
          (Grafeas.fetch_attestation_occurrence service list_occurrences list_note_occurrences fuel
            image attestation_authority aa w)
          (Grafeas.delete_attestation_occurrence service list_occurrences list_note_occurrences fuel
            image aa w)
  unfolding Grafeas.delete_attestation_occurrence
  grafeas_delete-Deletion image aa w = then_delete service.delete_occurrence image aa (
      Grafeas.fetch_attestation_occurrence service list_occurrences list_note_occurrences fuel image
        attestation_authority aa w)

module _ {R W I : Type 0} (names : Names R) (service : Service W) (listings : Listings W I)
    (fuel : ℕ) (image : String) where
  -- A deletion in Container Analysis deletes the one occurrence that it fetched, or nothing; it deletes
  -- where it returns no error.
  pub analysis_delete-Deletion :
      (aa : AttestationAuthority) (w : W)
      → Deletion service.delete_occurrence image aa
          (Analysis.fetch_attestation_occurrence names service listings fuel image
            attestation_authority aa w)
          (Analysis.delete_attestation_occurrence names service listings fuel image aa w)
  unfolding Analysis.delete_attestation_occurrence
  analysis_delete-Deletion aa w = then_delete service.delete_occurrence image aa (
      Analysis.fetch_attestation_occurrence names service listings fuel image attestation_authority
        aa w)

  -- Where every iterator over the discovery occurrences of the image is at its end, the wait for the
  -- analysis does not end within any number of rounds, whatever the timeout and the timer are.
  pub wait_for_vulnz_analysis-unfinished :
      (timer : Timer W) (timeout : ℕ) (w : W)
      → ((v : W) → (Analysis.find_discovery names service listings image v).0 ≡ ok none)
      → Analysis.wait_for_vulnz_analysis names service listings timer fuel image timeout w ≡ none
  unfolding Analysis.wait_for_vulnz_analysis wait_with
  wait_for_vulnz_analysis-unfinished timer timeout w h =
      rw
        (wait_rounds-none_listed service.get_occurrence
          (Analysis.find_discovery names service listings image) timer.select_tick h fuel 1
          (timer.start timeout w))
        refl
