-- ===== src/Tests/Backends.antt =====
-- The two metadata backends at concrete inputs.
use kritis.Base.{
  ℕ, zero, suc, ◌<◌, String, ◌≡◌, ◌≢◌, refl, ◌↔◌, Bool, true, false, Option, none, some, List, [],
  ◌∷◌, ◌++◌, if◌then◌else◌, str_eq, All, arith, map,
}
use kritis.Base.Split.{split, join, Lacks}
use kritis.Base.Result
use kritis.Base.Result.{Result, ok, err, external, errorf, Done}
use kritis.Base.Exec.{Exec, pure}
use kritis.Base.Run.{Returns}
use kritis.Names.{Names}
use kritis.Metadata.{pgp_signature_type}
use kritis.Occurrences.{
  Occurrence, Details, pgp_signed, AnalysisStatus, finished_success, other_status,
  create_occurrence_from_attestation,
}
use kritis.Occurrences.Roundtrip.{kept_of}
use kritis.Backend.{
  slash, dot, parse_note_reference, is_gcr, is_registry_gcr, Page, Service, ListRequest,
  collect_attestations, attestation_authority,
}
use kritis.Backend.References.{parse_note_reference_iff, is_registry_gcr_iff}
use kritis.Backend.Wait.{Timer, wait_rounds}
use kritis.Backend.Wait.Rounds.{Fires, Ended, Finished, wait_rounds-Ended, wait_rounds-Finished}
use kritis.Backend.Fetch.{Serves, fetch_pages-Serves, returned}
use kritis.Backend.Grafeas
use kritis.Backend.Analysis
use kritis.Backend.Analysis.{Listings, is_valid_image_on_gcr}
use kritis.Backend.Clients.{
  Made, note_request, Deletion, grafeas_attestations-Serves, analysis_attestations-Iterates,
  analysis_delete-Deletion, wait_for_vulnz_analysis-unfinished,
}
use kritis.Tests.{app_digest, attestation, attestor}

parse_note_reference_iff_example : (parse_note_reference "projects/p/notes/n" ≡ ok ("p", "n")) ↔ (
    ("projects/p/notes/n" ≡ join slash ("projects" ∷ "p" ∷ "notes" ∷ "n" ∷ []))
    × Lacks slash "p"
    × Lacks slash "n")
parse_note_reference_iff_example = parse_note_reference_iff "projects/p/notes/n" "p" "n"

is_registry_gcr_iff_example : (is_registry_gcr "eu.gcr.io" ≡ true) ↔ (
    (domain : List String) × All (Lacks dot) domain
    × ("eu.gcr.io" ≡ join dot (domain ++ ("gcr" ∷ "io" ∷ []))))
is_registry_gcr_iff_example = is_registry_gcr_iff "eu.gcr.io"

eu_is_gcr : is_registry_gcr "eu.gcr.io" ≡ true
unfolding is_registry_gcr is_gcr split
eu_is_gcr = refl

abbrev first_part : List String → String
first_part [] = ""
first_part (a ∷ parts) = a

-- The registry of an image is its first part.
abbrev gcr_names : Names String
gcr_names = record {
  parse_reference = λ s. ok s;
  deep_equal = str_eq;
  registry_str = λ r. first_part (split slash r);
  new_digest_weak = λ s. ok app_digest;
  new_digest_strict = λ s. ok app_digest;
}

-- An occurrence of a discovery with this status.
abbrev discovery : AnalysisStatus → Occurrence
discovery status = record {
  name = "discovery";
  resource_uri = "https://gcr.io/p/app";
  note_name = "projects/goog-analysis/notes/PACKAGE_VULNERABILITY";
  details = Details.discovered_details status;
}

-- The world is the number of ticks before the timer fires.
abbrev tick : ℕ → ℕ → Bool × ℕ
tick next_try_wait zero = (true, 0)
tick next_try_wait (suc ticks) = (false, ticks)

abbrev find_pending : Exec ℕ (Option Occurrence)
find_pending = pure (some (discovery other_status))

abbrev get_pending : String → Exec ℕ Occurrence
get_pending name = pure (discovery other_status)

abbrev get_finished : String → Exec ℕ Occurrence
get_finished name = pure (discovery finished_success)

tick-decreases : (n w : ℕ) → (tick n w).0 ≡ false → (tick n w).1 < w
tick-decreases n zero e = absurd (cc e)
tick-decreases n (suc w) e = omega arith

tick-Fires : Fires get_pending find_pending tick (λ w. w)
tick-Fires = record {
  tick = tick-decreases;
  listing = λ w. omega arith;
  getting = λ name w. omega arith;
}

wait_rounds-Ended_example :
    Ended get_pending find_pending tick (wait_rounds get_pending find_pending tick 4 none 1 3)
wait_rounds-Ended_example =
    wait_rounds-Ended get_pending find_pending tick (λ w. w) tick-Fires (λ w h. cc h) 4 none 1 3
      (omega arith)

found_finished : wait_rounds get_finished find_pending tick 4 none 1 3 ≡ some (ok tt, 3)
unfolding wait_rounds
found_finished = refl

wait_rounds-Finished_example : Finished get_finished find_pending tick
wait_rounds-Finished_example =
    wait_rounds-Finished get_finished find_pending tick 4 1 3 3 found_finished

abbrev timer : Timer ℕ
timer = record { start = λ timeout w. timeout; select_tick = tick; stop = λ w. w }

abbrev service : Service ℕ
service = record {
  create_note = λ req. pure none;
  get_note = λ name. pure none;
  delete_note = λ name. pure tt;
  create_occurrence = λ occ parent. pure tt;
  get_occurrence = get_pending;
  delete_occurrence = λ name. pure tt;
}

-- An occurrence of the attestation.
abbrev attested : Occurrence
attested = record {
  name = "";
  resource_uri = "https://gcr.io/p/app";
  note_name = "projects/p/notes/n";
  details = Details.attestation_details (some (pgp_signed "01" (9 ∷ [])));
}

-- An iterator with as many attestations as the world says.
abbrev step : Exec ℕ (Option Occurrence)
step zero = (ok none, 0)
step (suc rest) = (ok (some attested), rest)

-- Nothing is discovered.
abbrev listings : Listings ℕ Bool
listings = record {
  list_occurrences = λ req w. (false, w);
  list_note_occurrences = λ req w. (true, w);
  next = λ it w. if it then step w else (ok none, w);
}

wait_for_vulnz_analysis-unfinished_example :
    (Analysis.wait_for_vulnz_analysis gcr_names service listings timer 100 "gcr.io/p/app" 5 0
      ≡ none)
wait_for_vulnz_analysis-unfinished_example =
    wait_for_vulnz_analysis-unfinished gcr_names service listings 100 "gcr.io/p/app" timer 5 0
      (λ v. refl)

abbrev first : Page
first = record { occurrences = attested ∷ []; next_page_token = "2" }

abbrev second : Page
second = record { occurrences = attested ∷ []; next_page_token = "" }

abbrev list_pages : ListRequest → String → Exec ℕ Page
list_pages req token = pure (if str_eq token "" then first else second)

two_is_not_empty : first.next_page_token ≢ ""
two_is_not_empty h = cc h

two-Serves : (req : ListRequest) → Serves (list_pages req) "" (first ∷ second ∷ [])
two-Serves req = (λ w. refl, two_is_not_empty, (λ w. refl, refl))

fetch_pages-Serves_example :
    Returns
      (ok (attested ∷ attested ∷ []))
      (Grafeas.fetch_pages (list_pages (Grafeas.discovery_request "gcr.io/p/app")) 2 [] "" 0)
fetch_pages-Serves_example =
    fetch_pages-Serves (list_pages (Grafeas.discovery_request "gcr.io/p/app")) 2 ""
      (first ∷ second ∷ []) 0 (two-Serves (Grafeas.discovery_request "gcr.io/p/app")) (omega arith)

attested_from :
    create_occurrence_from_attestation attestation "gcr.io/p/app" "projects/p/notes/n"
      pgp_signature_type
    ≡ ok attested
unfolding create_occurrence_from_attestation
attested_from = refl

two-Made : Made pgp_signature_type (attestation ∷ attestation ∷ []) (attested ∷ attested ∷ [])
two-Made = (
  ("gcr.io/p/app", "projects/p/notes/n", attested_from),
  (("gcr.io/p/app", "projects/p/notes/n", attested_from), tt),
)

grafeas_attestations-Serves_example :
    Returns
      (ok (map (kept_of pgp_signature_type) (attestation ∷ attestation ∷ [])))
      (Grafeas.attestations service list_pages list_pages 2 "gcr.io/p/app" attestor 0)
grafeas_attestations-Serves_example =
    grafeas_attestations-Serves service list_pages list_pages 2 "gcr.io/p/app" attestor
      (first ∷ second ∷ []) pgp_signature_type (attestation ∷ attestation ∷ []) 0
      (two-Serves (note_request service list_pages list_pages "gcr.io/p/app" attestor))
      (omega arith) two-Made

app_is_on_gcr : is_valid_image_on_gcr gcr_names "gcr.io/p/app" ≡ true
unfolding is_valid_image_on_gcr is_registry_gcr is_gcr split
app_is_on_gcr = refl

analysis_attestations-Iterates_example :
    Returns
      (Result.◌>>=◌ (returned (ok tt) (attested ∷ attested ∷ [])) collect_attestations)
      (Analysis.attestations gcr_names service listings 5 "gcr.io/p/app" attestor 2)
analysis_attestations-Iterates_example =
    analysis_attestations-Iterates gcr_names service listings 5 "gcr.io/p/app" attestor 2
      (attested ∷ attested ∷ []) (ok tt) app_is_on_gcr (refl, (refl, refl)) (omega arith)

analysis_delete-Deletion_example :
    Deletion service.delete_occurrence "gcr.io/p/app" attestor
      (Analysis.fetch_attestation_occurrence gcr_names service listings 5 "gcr.io/p/app"
        attestation_authority attestor 1)
      (Analysis.delete_attestation_occurrence gcr_names service listings 5 "gcr.io/p/app" attestor
        1)
analysis_delete-Deletion_example =
    analysis_delete-Deletion gcr_names service listings 5 "gcr.io/p/app" attestor 1

-- The only attestation is deleted.
app_deleted :
    Analysis.delete_attestation_occurrence gcr_names service listings 5 "gcr.io/p/app" attestor 1
    ≡ some (ok tt, 0)
unfolding Analysis.delete_attestation_occurrence Analysis.fetch_attestation_occurrence
    Analysis.fetch_all is_valid_image_on_gcr is_registry_gcr is_gcr split
app_deleted = refl
