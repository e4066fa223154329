-- ===== src/Lib.antt =====
-- Kritis: binary authorization for Kubernetes. A webhook admits a pod, a deployment or a replica set
-- when the policies of its namespace accept the images: attestation policies ask for signed
-- attestations by named authorities, and security policies bound the vulnerabilities of an image.
--
-- The parts, from the webhook down to the signatures:
-- - Admission (pkg/kritis/admission): images of an object, the owner and breakglass checks in
--   Admission.antt; `reviewImages` and what it calls in Admission/Review; `ReviewHandler`,
--   `getReviewer` and the logging strategy in Admission/Handler. Closed, Reviewed, Webhook
--   and Chain hold the proofs.
-- - Review (pkg/kritis/review/review.go): `Config` in Review.antt, `ReviewGAP` in Review/Gap and
--   `ReviewISP` in Review/Isp, each with its proofs below it.
-- - Transport (pkg/kritis/review/validating_transport.go): the keys of an attestor, and its validated
--   attestations of an image. Secrets (pkg/kritis/secrets/pgpkey.go) parses PGP keys.
-- - Attest (pkg/attestlib): public keys, PGP and JWT verification, and the verifier.
-- - Policy (pkg/kritis/crd/securitypolicy, pkg/kritis/crd/vulnzsigningpolicy, pkg/kritis/policy): the
--   two validations of vulnerabilities.
-- - Allowlist (pkg/kritis/util/allowlist.go): global and per-policy allowlists.
-- - Resources and Metadata: the API types and the metadata client.
-- - Occurrences (pkg/kritis/metadata/metadata.go): attestations and vulnerabilities as stored.
-- - Backend (pkg/kritis/metadata/containeranalysis/containeranalysis.go, pkg/kritis/metadata/grafeas):
--   note references, images and projects in Backend.antt, the wait for an analysis in Backend/Wait, the
--   two clients in Backend/Grafeas and Backend/Analysis; References, Fetch, Clients hold proofs.
-- - Cache (pkg/kritis/metadata/containeranalysis/cache.go): the cached reads of a client; Cache/Notes
--   has the notes.
-- - Attest/Signing (pkg/attestlib): the PKIX and JWT signers and `verifyDetached`; PgpSigner below it.
-- - Payload (pkg/kritis/container, pkg/kritis/attestation/payload.go): what is signed for an image.
-- - Signer (pkg/kritis/signer): `SignImage` and the Cloud KMS signer; Signer/Main is the command line
--   (cmd/kritis/signer/main.go).
-- - BuildSigner (pkg/kritis/gcbsigner/signer.go): attestations for builds by policy; BuildSigner/Events
--   parses the events of builds and handles the messages (cmd/kritis/gcbsigner/main.go).
-- - Secrets/Fetch (pkg/kritis/secrets/secrets.go, pkg/kritis/util/util.go): signing secrets, and the
--   attestation of an image with one.
-- - Crd (pkg/kritis/crd): the lists of custom resources.
-- - Pods (pkg/kritis/pods), Annotations (pkg/kritis/violation/strategy.go), Cron (pkg/kritis/cron): the
--   background check of running pods, which labels and annotates them.
-- - Start (cmd/kritis/admission/main.go): the settings of the process and what it runs with them.
-- - Polling (pkg/kritis/kubernetes/wait.go): the waits for pods, replicas, services and endpoints.
-- - Install (pkg/kritis/install, helm-hooks): the commands of the hooks that install and delete.
-- - Resolve (pkg/kritis/kubectl/plugins/resolve): tags of images in manifests become digests; Documents
--   is the loop over files and documents.
-- - Names and the record `Libraries` of Attest: third-party packages, as parameters.
-- - Base: lists, texts, maps, results, calls on a world, and the rules of `Ensures` for what such a
--   call keeps and gives; Base/Run, calls that may need more fuel. Tests: each theorem at concrete
--   inputs.
--
-- A call that reads or writes outside the process is a function from a world to a result and the next
-- world, so that a read may give another value later; what it does before an error stays done. An
-- error keeps the format and the arguments of the message; a nil dereference is the error
-- `panicked`, which no error handling of the source sees. Maps are association lists with one entry
-- for each key, and texts are compared by their codes.
-- Loops over lists and trees are structural recursion. The loops over pages and iterators, the wait for
-- an analysis, the background check and the loop over messages run on fuel, with `none` where it is
-- used up. The theorems on pages, iterators and the wait name a fuel that is enough, by the number of
-- pages, entries or rounds; the background check and the loop over messages have no bound of their own.
--
-- Not modelled: the log; `New` of grafeas.go, which opens connections; the texts that the hooks of the
-- installation apply to the cluster, and their labels; the pod store and `StartPods` of
-- pkg/kritis/kubernetes/wait.go; the generated clients, deep copies and vendored packages.
pub mod Base
pub mod Names
pub mod Allowlist
pub mod Resources
pub mod Metadata
pub mod Policy
pub mod Attest
pub mod Secrets
pub mod Transport
pub mod Review
pub mod Admission
pub mod Occurrences
pub mod Payload
pub mod Signer
pub mod Resolve
pub mod Pods
pub mod Annotations
pub mod Cron
pub mod Crd
pub mod Polling
pub mod Start
pub mod Install
pub mod Backend
pub mod BuildSigner
pub mod Cache
pub mod Tests
