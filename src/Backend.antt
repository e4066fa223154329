-- ===== src/Backend.antt =====
-- What the two metadata backends share: pkg/kritis/metadata/containeranalysis/containeranalysis.go and
-- pkg/kritis/metadata/grafeas/grafeas.go, with the note references of pkg/kritis/metadata/metadata.go
-- and the helpers of pkg/kritis/util/util.go.
use Prim.Native.Char.{Char, char}
pub mod References
pub mod Wait
pub mod Grafeas
pub mod Analysis
pub mod Fetch
pub mod Clients
use kritis.Base.{
  ℕ, String, ◌+++◌, Bool, true, false, ◌&&◌, Option, none, some, List, [], ◌∷◌, ◌++◌, str_eq,
  if◌then◌else◌,
}
use kritis.Base.Split.{split}
use kritis.Base.Result.{Result, ok, err, errorf, Done, ◌>>=◌}
use kritis.Base.Exec.{Exec, raise}
use kritis.Resources.{AttestationAuthority}
use kritis.Metadata.{Note, Vulnerability, Attestation}
use kritis.Occurrences.{
  Occurrence, resource_url_prefix, get_vulnerability_from_occurrence,
  get_attestations_from_occurrence,
}

abbrev pub slash : Char
slash = char b'/' tt

abbrev pub dot : Char
dot = char b'.' tt

-- The test of the four parts of a note reference.
abbrev pub note_parts : String → List String → Result (String × String)
note_parts ref (projects ∷ project_id ∷ notes ∷ note_id ∷ []) =
    if str_eq projects "projects" && str_eq notes "notes"
    then ok (project_id, note_id)
    else err (
        errorf
          "invalid Note Reference, should be in format projects/<project_id>/notes/<note_id>, actual: %s"
          (ref ∷ []))
note_parts ref _ = err (
    errorf
      "invalid Note Reference, should be in format projects/<project_id>/notes/<note_id>, actual: %s"
      (ref ∷ []))

unfoldable pub parse_note_reference : String → Result (String × String)
parse_note_reference ref = note_parts ref (split slash ref)

-- The parts of the name that `CheckNoteName` accepts.
abbrev pub note_name_parts : String → List String → Result Done
note_name_parts note (projects ∷ provider_id ∷ notes ∷ note_id ∷ []) =
    if str_eq projects "projects" && str_eq notes "notes"
    then ok tt
    else err (
        errorf "note name %s is not in the form of projects/[PROVIDER_ID]/notes/[NOTE_ID]"
          (note ∷ []))
note_name_parts note _ =
    err (
      errorf "note name %s is not in the form of projects/[PROVIDER_ID]/notes/[NOTE_ID]"
        (note ∷ []))

unfoldable pub check_note_name : String → Result Done
check_note_name note = note_name_parts note (split slash note)

abbrev pub second_part : List String → String
second_part (a ∷ b ∷ parts) = b
second_part _ = ""

-- `getProjectFromContainerImage` of the Container Analysis backend
unfoldable pub project_of_image : String → String
project_of_image image = second_part (split slash image)

-- `GetProjectFromContainerImage` of util.go
unfoldable pub get_project_from_container_image : String → String
get_project_from_container_image image = second_part (split slash image)

unfoldable pub get_resource_url : String → String
get_resource_url container_image = resource_url_prefix +++ container_image

-- The test of the last two parts.
unfoldable pub is_gcr : List String → Bool
is_gcr [] = false
is_gcr (a ∷ []) = false
is_gcr (a ∷ b ∷ []) = str_eq a "gcr" && str_eq b "io"
is_gcr (a ∷ b ∷ c ∷ parts) = is_gcr (b ∷ c ∷ parts)

unfoldable pub is_registry_gcr : String → Bool
is_registry_gcr r = is_gcr (split dot r)

-- A filter: its format string, and the arguments that `%q` quotes.
pub record Filter : Type 0 where
  pub format : String
  pub arguments : List String

-- `ListOccurrencesRequest` and `ListNoteOccurrencesRequest`; the parent is the note's name in the
-- second.
pub record ListRequest : Type 0 where
  pub parent : String
  pub filter : Filter
  pub page_size : ℕ

-- `ListOccurrencesResponse`
pub record Page : Type 0 where
  pub occurrences : List Occurrence
  pub next_page_token : String

-- `constants.PageSize`
abbrev pub page_size : ℕ
page_size = 100

-- `PkgVulnerability`, `AttestationAuthority`
abbrev pub pkg_vulnerability : String
pkg_vulnerability = "PACKAGE_VULNERABILITY"

abbrev pub attestation_authority : String
attestation_authority = "ATTESTATION_AUTHORITY"

-- `CreateNoteRequest`
pub record CreateNoteRequest : Type 0 where
  pub note : Note
  pub note_id : String
  pub parent : String

-- The calls of the service that both backends make.
pub record Service (W : Type 0) : Type 0 where
  pub create_note : CreateNoteRequest → Exec W (Option Note)
  pub get_note : String → Exec W (Option Note)
  pub delete_note : String → Exec W Done
  -- the occurrence and its parent
  pub create_occurrence : Occurrence → String → Exec W Done
  pub get_occurrence : String → Exec W Occurrence
  pub delete_occurrence : String → Exec W Done

-- The note of an authority.
abbrev pub note_of : AttestationAuthority → Note
note_of aa = record {
  name = aa.note_reference;
  short_description = "Image Policy Security Attestor";
  long_description =
      "Image Policy Security Attestor deployed in " +++ aa.namespace +++ " namespace";
  human_readable_name = aa.name;
}

abbrev pub create_note_request : AttestationAuthority → String × String → CreateNoteRequest
create_note_request aa (note_project, note_id) = record {
  note = note_of aa;
  note_id = note_id;
  parent = "projects/" +++ note_project;
}

abbrev pub and_also : Option Vulnerability → List Vulnerability → List Vulnerability
and_also none vulnz = vulnz
and_also (some v) vulnz = v ∷ vulnz

-- The loop of `Vulnerabilities` over the occurrences.
unfoldable pub collect_vulnerabilities :
    (ℕ → String) → List Occurrence → Result (List Vulnerability)
collect_vulnerabilities severity_name [] = ok []
collect_vulnerabilities severity_name (occ ∷ occs) = do
  v ← get_vulnerability_from_occurrence severity_name occ
  vulnz ← collect_vulnerabilities severity_name occs
  ok (and_also v vulnz)

-- The loop of `Attestations` over the occurrences.
unfoldable pub collect_attestations : List Occurrence → Result (List Attestation)
collect_attestations [] = ok []
collect_attestations (occ ∷ occs) = do
  att ← get_attestations_from_occurrence occ
  atts ← collect_attestations occs
  ok (att ++ atts)

-- The end of `DeleteAttestationOccurrence`, with the fetched occurrences.
abbrev pub delete_only :
    {W : Type 0}
    → (String → Exec W Done)
    → String
    → AttestationAuthority
    → List Occurrence
    → Exec W Done
delete_only delete image aa [] =
    raise
      (errorf "no attestation is found for image %s with note %s" (image ∷ aa.note_reference ∷ []))
delete_only delete image aa (occ ∷ []) = delete occ.name
delete_only delete image aa (occ ∷ next ∷ occs) = raise (
    errorf "more than one attestation are found for image %s with note %s"
      (image ∷ aa.note_reference ∷ []))
