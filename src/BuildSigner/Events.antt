-- ===== src/BuildSigner/Events.antt =====
-- pkg/kritis/gcbsigner/gcb_event_parser.go, and the handling of a message in
-- cmd/kritis/gcbsigner/main.go. JSON, the message queue and the clients are parameters.
use kritis.Base.{
  ℕ, zero, suc, String, ◌+++◌, Bool, ◌||◌, Option, none, some, List, [], ◌∷◌, str_eq, not,
  if◌then◌else◌,
}
use kritis.Base.Split.{begins}
use kritis.Base.Result
use kritis.Base.Result.{Error, Result, ok, err, wrap, errorf, map_err, panicked, Done}
use kritis.Base.Exec.{Exec, ◌>>=◌, ◌>>◌, pure, lift, wrapping}
use kritis.Base.Run
use kritis.Base.Run.{Run}
use kritis.Resources.{BuildPolicy, AttestationAuthority}
use kritis.Metadata.{Bytes, Client}
use kritis.BuildSigner.{BuildProvenance, validate_and_sign}

-- `BuildSource`, its `RepoSource`
pub record BuildSource : Type 0 where
  pub repo_name : String
  pub project_id : String
  pub branch_name : String
  pub tag_name : String
  pub commit_sha : String

-- An entry of `Images` of `BuildResults`
pub record BuiltImage : Type 0 where
  pub name : String
  pub digest : String

-- `BuildEvent`
pub record BuildEvent : Type 0 where
  pub id : String
  pub status : String
  pub source : BuildSource
  pub images : List BuiltImage

-- `strings.Contains`
unfoldable pub contains : String → String → Bool
contains String.[] sub = begins sub String.[]
contains (String.◌∷◌ c s) sub = let rest = contains s sub in begins sub (String.◌∷◌ c s) || rest

-- The suffix of the source: the commit, or else the tag, or else the branch.
unfoldable pub source_suffix : BuildSource → String
source_suffix source =
    if not (str_eq source.commit_sha "")
    then "@" +++ source.commit_sha
    else if not (str_eq source.tag_name "")
    then ":" +++ source.tag_name
    else ":" +++ source.branch_name

-- `constants.CloudSourceRepoPattern` with its arguments
abbrev pub cloud_source_repo : BuildSource → String
cloud_source_repo source =
    "https://source.developers.google.com/p/"
    +++ (source.project_id +++ ("/r/" +++ (source.repo_name +++ source_suffix source)))

abbrev pub provenance_of : BuildEvent → BuiltImage → BuildProvenance
provenance_of event image = record {
  build_id = event.id;
  image_ref = image.name +++ ("@" +++ image.digest);
  built_from = cloud_source_repo event.source;
}

-- The loop over the images.
unfoldable pub provenance_from : BuildEvent → List BuiltImage → List BuildProvenance
provenance_from event [] = []
provenance_from event (image ∷ images) =
    let rest = provenance_from event images in
    if contains image.name ":latest" then rest else provenance_of event image ∷ rest

-- `ExtractBuildProvenanceFromEvent`, whose list may be nil
unfoldable pub extract_build_provenance_from_event :
    (Bytes → Result BuildEvent) → Bytes → Result (Option (List BuildProvenance))
extract_build_provenance_from_event unmarshal msg_data = Result.◌>>=◌ (unmarshal msg_data) (λ event.
    ok (
      if not (str_eq event.status "SUCCESS")
      then none
      else some (provenance_from event event.images)))

-- What `process` calls: JSON, `buildpolicy.BuildPolicies`, `containeranalysis.NewCache`, and the signer's
-- configuration: the validation and the secrets, with the authorities.
pub record EventCalls (W K : Type 0) : Type 0 where
  pub unmarshal : Bytes → Result BuildEvent
  pub build_policies : String → Exec W (List BuildPolicy)
  pub new_cache : Exec W (Client W K)
  pub validate : BuildPolicy → String → Result Done
  pub secret : String → String → Exec W K
  pub auths : String → String → Exec W AttestationAuthority

module _ {W K : Type 0} (calls : EventCalls W K) where
  unfoldable pub sign_each : Client W K → List BuildPolicy → List BuildProvenance → Exec W Done
  sign_each client bps [] = pure tt
  sign_each client bps (prov ∷ provenance) = do
    wrapping (wrap "Error creating signature: %v" [])
        (validate_and_sign calls.validate calls.secret calls.auths client prov bps)
    sign_each client bps provenance

  abbrev pub process_provenance : String → Option (List BuildProvenance) → Exec W Done
  process_provenance ns none = pure tt
  process_provenance ns (some provenance) = do
    bps ← wrapping (wrap "Error retrieving build policies: %v" []) (calls.build_policies ns)
    client ← wrapping (wrap "Error getting Container Analysis client: %v" []) calls.new_cache
    sign_each client bps provenance

  unfoldable pub process : String → Bytes → Exec W Done
  process ns msg = do
    provenance ←
        wrapping (wrap "Error extracting images from message: %v" [])
          (lift (extract_build_provenance_from_event calls.unmarshal msg))
    process_provenance ns provenance

-- The message queue: the client of a project, what one `Receive` of the subscription does with a handler, and the answers to a message.
pub record Queue (W : Type 0) : Type 0 where
  pub new_client : String → Exec W Done
  -- with a handler of messages
  pub receive : (Bytes → W → W) → Exec W Done
  pub ack : W → W
  pub nack : W → W

module _ {W K : Type 0} (calls : EventCalls W K) (queue : Queue W) where
  abbrev pub answered : Result Done × W → W
  answered (ok done, w) = queue.ack w
  -- a panic ends the program
  answered (err panicked, w) = w
  answered (err e, w) = queue.nack w

  -- The handler that `run` gives to the subscription.
  unfoldable pub handle_message : String → Bytes → W → W
  handle_message ns msg w = answered (process calls ns msg w)

  abbrev pub receive_failed : Error → Error
  receive_failed e = wrap "Error receiving message: %v" [] e

  -- The loop of `run`, which ends with an error only.
  unfoldable pub receive_rounds : ℕ → String → Run W Done
  receive_rounds zero ns = Run.unfinished
  receive_rounds (suc fuel) ns =
      Run.◌>>=◌ (Run.call (wrapping receive_failed (queue.receive (handle_message ns))))
        (λ received. receive_rounds fuel ns)

  unfoldable pub run : ℕ → String → String → Run W Done
  run fuel project ns =
      Run.◌>>=◌
        (Run.call
          (wrapping (wrap "Could not create pubsub client: %v" []) (queue.new_client project)))
        (λ client. receive_rounds fuel ns)
