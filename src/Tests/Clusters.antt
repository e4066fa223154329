-- ===== src/Tests/Clusters.antt =====
-- Manifests, pods and the background check at concrete inputs.
use kritis.Base.{
  ℕ, zero, suc, String, ◌≡◌, refl, sym, ap, subst, ◌∙◌, Bool, true, false, ◌&&◌, Option, none, some,
  [], ◌∷◌, str_eq, str_eq_iff, if◌then◌else◌,
}
use kritis.Base.Maps.{lookup, insert}
use kritis.Base.Result.{ok, err, external, ok-injective}
use kritis.Base.Exec.{Exec, pure}
use kritis.Policy.Isp.{fully_qualified_image}
use kritis.Resolve.{
  Node, text, map_slice, sequence, map_item, no_items, one_node, no_nodes,
  recursive_get_tagged_images,
}
use kritis.Resolve.Documents.{resolve_tags_to_digests, resolve_from, substitute}
use kritis.Base.{map}
use kritis.Resolve.{recursive_replace_image}
use kritis.Resolve.Kept.{without_images, images_of, replacement, recursive_replace_image-Kept}
use kritis.Resolve.Substituted.{substitute-Cleaned}
use kritis.Resources.{Workload}
use kritis.Pods.{
  StringMap, Cluster, get_patch, apply_patch, add_labels_and_annotations,
  delete_labels_and_annotations,
}
use kritis.Pods.Labels.{Merges, value_of, same_value}
use kritis.Policy.{Violation, severity_violation}
use kritis.Annotations.{
  image_attestation, invalid_image_sec_policy, invalid_image_sec_policy_label_value,
  handle_attestation, handle_violation,
}
use kritis.Annotations.Toggled.{left_by, handle_attestation-label, handle_violation-label}
use kritis.Base.{List, All, is_empty}
use kritis.Base.Result.{Result, Done, panicked}
use kritis.Polling
use kritis.Polling.{
  Phase, running, Poller, PodReads, ServiceReads, Endpoints, wait_for_pods_with_label_running,
  wait_for_service, wait_for_service_endpoints_num, count_endpoints_num,
}
use kritis.Polling.Held.{Polls, wait_for_pods_with_label_running-Held, wait_for_service-Held}
use kritis.Base.Exec.{raise}
use kritis.Crd.{KritisConfig}
use kritis.Backend.Grafeas.{validate_config}
use kritis.Start.{ServerFlags, StartCalls, Settings, settings_of, load_config}
use kritis.Start.Usable.{Usable, settings_of-Usable}
use kritis.Tests.{client}
use kritis.Cron.{
  ℤ, pos, CronConfig, check_round, check_pods, check_each, check_listed, run_in_foreground,
  start_rounds, start,
}
use kritis.Cron.Rounds.{Checks, check_pods-Checks}
use kritis.Tests.{names, isp}

-- spec: { containers: [ { image: app:1, name: web } ] }
abbrev manifest : Node
manifest = map_slice (
    map_item (text "containers")
      (sequence (
        one_node
          (map_slice
            (map_item (text "image") (text "app:1") (map_item (text "name") (text "web") no_items)))
          no_nodes))
      no_items)

-- The manifest with its image replaced; the name is kept.
abbrev pinned_manifest : Node
pinned_manifest = map_slice (
    map_item (text "containers")
      (sequence (
        one_node
          (map_slice (
            map_item (text "image") (text "app@sha256:1")
              (map_item (text "name") (text "web") no_items)))
          no_nodes))
      no_items)

abbrev pins : List (String × String)
pins = ("app:1", "app@sha256:1") ∷ []

manifest_pinned : recursive_replace_image pins manifest ≡ ok pinned_manifest
unfolding recursive_replace_image lookup
manifest_pinned = refl

recursive_replace_image-Kept_example :
    (without_images pinned_manifest ≡ without_images manifest)
    × (images_of pinned_manifest ≡ map (replacement pins) (images_of manifest))
recursive_replace_image-Kept_example =
    recursive_replace_image-Kept pins manifest pinned_manifest manifest_pinned

abbrev to_digest : String → Exec Bool String
to_digest image = pure "app@sha256:1"

digest_is_qualified : fully_qualified_image names "app@sha256:1" ≡ true
unfolding fully_qualified_image
digest_is_qualified = refl

manifest_images : recursive_get_tagged_images names manifest ≡ ok ("app:1" ∷ [])
unfolding recursive_get_tagged_images fully_qualified_image
manifest_images = refl

manifest_resolved :
    resolve_tags_to_digests to_digest ("app:1" ∷ []) true
    ≡ (ok (("app:1", "app@sha256:1") ∷ []), true)
unfolding resolve_tags_to_digests resolve_from insert
manifest_resolved = refl

substitute-Cleaned_example :
    (m : Node) × (substitute names to_digest manifest true ≡ (ok m, true))
    × (recursive_get_tagged_images names m ≡ ok [])
substitute-Cleaned_example =
    substitute-Cleaned names to_digest
      (λ image digest w h.
        subst (λ d. fully_qualified_image names d ≡ true) (ok-injective h) digest_is_qualified)
      manifest ("app:1" ∷ []) (("app:1", "app@sha256:1") ∷ []) true true manifest_images
      manifest_resolved

-- The labels of all pods: namespace, name and key.
abbrev Labels : Type 0
Labels = String → String → String → Option String

-- A patch is the two objects between which it is.
abbrev patched : String → String → Workload × Workload → Labels → Labels
patched ns name (o, m) labels ns' name' key =
    if str_eq ns ns' && str_eq name name'
    then (if same_value (value_of o.meta.labels key) (value_of m.meta.labels key)
        then labels ns' name' key
        else value_of m.meta.labels key)
    else labels ns' name' key

abbrev cluster : Cluster Labels Workload (Workload × Workload)
cluster = record {
  marshal = λ pod. ok pod;
  create_two_way_merge_patch = λ o m. ok (o, m);
  get_clientset = pure tt;
  patch = λ ns name p labels. (ok tt, patched ns name p labels);
  list_pods = λ ns. pure [];
}

abbrev label_at : Labels → String → String → String → Option String
label_at labels = labels

patched-here :
    (o m : Workload) (key : String) (labels : Labels)
    → patched m.meta.namespace m.meta.name (o, m) labels m.meta.namespace m.meta.name key ≡ (
        if same_value (value_of o.meta.labels key) (value_of m.meta.labels key)
        then labels m.meta.namespace m.meta.name key
        else value_of m.meta.labels key)
patched-here o m key labels =
    rw
      (
        (str_eq_iff m.meta.namespace m.meta.namespace).1 refl,
        (str_eq_iff m.meta.name m.meta.name).1 refl,
      )
      refl

cluster-Merges : Merges cluster label_at
cluster-Merges = record {
  clientset_law = λ ns name key w. refl;
  patch_law = λ o m a b p key w w' x y z q.
      let same : p ≡ (o, m) = cc (x, y, z) in
      ap (λ labels. labels m.meta.namespace m.meta.name key) (sym (ap (λ r. r.1) q))
      ∙ (ap (λ e. patched m.meta.namespace m.meta.name e w m.meta.namespace m.meta.name key) same
          ∙ patched-here o m key w);
}

abbrev labelled : StringMap → Workload
labelled labels = record {
  meta = record {
    name = "web";
    namespace = "default";
    labels = labels;
    annotations = none;
    owner_references = none;
  };
  spec = record { init_containers = []; containers = record { image = "app@sha256:1" } ∷ [] };
}

-- A pod that was found attested before.
abbrev attested_pod : Workload
attested_pod = labelled (some ((image_attestation, "attested") ∷ []))

abbrev before : Labels
before ns name key = value_of attested_pod.meta.labels key

abbrev three : ℕ → String
three n = "3"

attested_handled :
    (w : Labels) × (handle_attestation cluster three "app" (some attested_pod) true before
      ≡ (ok tt, w))
unfolding handle_attestation delete_labels_and_annotations add_labels_and_annotations apply_patch
    get_patch
attested_handled = (_, refl)

-- The label is gone, although the pod is attested.
handle_attestation-label_example :
    attested_handled.0 "default" "web" image_attestation
    ≡ left_by attested_pod image_attestation "attested"
handle_attestation-label_example =
    handle_attestation-label cluster label_at cluster-Merges three "app" attested_pod before
      attested_handled.0 true attested_handled.1

none_left : left_by attested_pod image_attestation "attested" ≡ none
unfolding lookup
none_left = refl

abbrev severe : Violation
severe = record { vulnerability = none; v_type = severity_violation; reason = "severe" }

violation_handled :
    (w : Labels) × (handle_violation cluster three "app" (some attested_pod) (severe ∷ []) before
      ≡ (ok tt, w))
unfolding handle_violation delete_labels_and_annotations add_labels_and_annotations apply_patch
    get_patch
violation_handled = (_, refl)

handle_violation-label_example :
    violation_handled.0 "default" "web" invalid_image_sec_policy
    ≡ left_by attested_pod invalid_image_sec_policy invalid_image_sec_policy_label_value
handle_violation-label_example =
    handle_violation-label cluster label_at cluster-Merges three "app" attested_pod before
      violation_handled.0 severe [] violation_handled.1

-- The world counts the reviews, which fail, and the pods that are listed depend on it.
abbrev pods_at : ℕ → List Workload
pods_at zero = attested_pod ∷ []
pods_at (suc w) = attested_pod ∷ labelled none ∷ []

abbrev counting_cron : CronConfig ℕ
counting_cron = record {
  pod_lister = λ ns w. (ok (pods_at w), w);
  review_isp = λ images isps pod w. (err (external "violations"), suc w);
  security_policy_lister = λ ns. pure (isp ∷ []);
}

three_reviewed : check_pods counting_cron (isp ∷ isp ∷ []) 0 ≡ (ok tt, 3)
unfolding check_pods check_each check_listed
three_reviewed = refl

check_pods-Checks_example :
    Checks counting_cron
      (isp ∷ isp ∷ [])
      (isp ∷ isp ∷ [])
      0
      (check_pods counting_cron (isp ∷ isp ∷ []) 0)
check_pods-Checks_example = check_pods-Checks counting_cron (isp ∷ isp ∷ []) (λ p w h. cc h) 0

-- The world counts the ticks left before the context is done.
abbrev cron : CronConfig ℕ
cron = record {
  pod_lister = λ ns. pure (attested_pod ∷ labelled none ∷ []);
  review_isp = λ images isps pod w. (err (external "violations"), w);
  security_policy_lister = λ ns. pure (isp ∷ []);
}

abbrev tick_down : ℤ → ℕ → Bool × ℕ
tick_down check_interval zero = (false, 0)
tick_down check_interval (suc w) = (true, w)

two_ticks : start cron tick_down (pos 1000) 3 2 ≡ some (ok tt, 0)
unfolding start start_rounds check_round run_in_foreground check_pods check_each check_listed
two_ticks = refl

no_interval : start cron tick_down (pos 0) 3 2 ≡ some (err panicked, 2)
unfolding start
no_interval = refl

-- A poller that evaluates its condition once.
abbrev once_verdict : Result Bool → Result Done
once_verdict (ok true) = ok tt
once_verdict (ok false) = err (external "timed out waiting for the condition")
once_verdict (err e) = err e

abbrev once : ℕ → ℕ → Exec ℕ Bool → Exec ℕ Done
once interval timeout condition w = let (r, w') = condition w in (once_verdict r, w')

abbrev once_poller : Poller ℕ
once_poller = record { poll_immediate = once; poll = once }

once_verdict-ok : (r : Result Bool) → once_verdict r ≡ ok tt → r ≡ ok true
once_verdict-ok (ok true) h = refl
once_verdict-ok (ok false) h = absurd (cc h)
once_verdict-ok (err e) h = absurd (cc h)

once_poller-Polls : Polls once_poller
once_poller-Polls interval timeout condition w w' h =
    (w, once_verdict-ok (condition w).0 (ap (λ x. x.0) h))

abbrev pod_reads : PodReads ℕ
pod_reads = record {
  get_phase = λ name. pure running;
  list_phases = λ ns label. pure (running ∷ running ∷ []);
}

abbrev service_reads : ServiceReads ℕ
service_reads = record {
  get_service = λ ns name w. (some Polling.not_found, suc w);
  list_endpoints = λ ns. pure (record { name = "web"; subsets = 2 ∷ 1 ∷ [] } ∷ []);
}

pods_waited :
    wait_for_pods_with_label_running once_poller pod_reads "default" "name=web" 0 ≡ (ok tt, 0)
unfolding wait_for_pods_with_label_running
pods_waited = refl

service_waited :
    wait_for_service once_poller service_reads "default" "web" false 500 1000 0 ≡ (ok tt, 1)
unfolding wait_for_service
service_waited = refl

endpoints_waited :
    wait_for_service_endpoints_num once_poller service_reads "default" "web" 3 500 1000 0
    ≡ (ok tt, 0)
unfolding wait_for_service_endpoints_num count_endpoints_num
endpoints_waited = refl

wait_for_pods_with_label_running-Held_example :
    (v : ℕ) × (phases : List Phase) × ((pod_reads.list_phases "default" "name=web" v).0 ≡ ok phases)
    × (is_empty phases ≡ false)
    × All (λ p. p ≡ running) phases
wait_for_pods_with_label_running-Held_example =
    wait_for_pods_with_label_running-Held once_poller once_poller-Polls pod_reads "default"
      "name=web" 0 0 pods_waited

wait_for_service-Held_example :
    (v : ℕ) × ((service_reads.get_service "default" "web" v).0
      ≡ (if false then none else some Polling.not_found))
wait_for_service-Held_example =
    wait_for_service-Held once_poller once_poller-Polls service_reads "default" "web" false 500 1000
      0 1 service_waited

-- The start of the webhook's process, without certificates, on a world that counts.
abbrev start_calls : StartCalls Bool String
start_calls = record {
  set_logtostderr = pure tt;
  read_file = λ name. raise (external "no such file");
  unmarshal = λ contents. ok none;
  new_grafeas = λ addr certs. pure client;
  new_cache = pure client;
  get_clientset = pure tt;
  parse_duration = λ given. ok (pos 3600000000000);
  new_cron_config = λ c. record {
    pod_lister = λ ns. pure [];
    review_isp = λ images isps pod. pure tt;
    security_policy_lister = λ ns. pure [];
  };
  start_cron = λ cron_config interval. pure tt;
  listen_and_serve = λ addr config. pure (external "closed");
}

abbrev start_flags : ServerFlags
start_flags = record { grafeas_certs = ""; show_version = false; run_cron = false }

abbrev grafeas_conf : KritisConfig
grafeas_conf = record {
  metadata_backend = "grafeas";
  cron_interval = "";
  server_addr = ":8443";
  grafeas_addr = "grafeas:443";
}

abbrev grafeas_settings : Settings
grafeas_settings = record {
  config = record {
    metadata = "grafeas";
    grafeas_addr = "grafeas:443";
    certs = some (record { cert_file = ""; key_file = ""; ca_file = "" });
  };
  cron_interval = "1h";
  server_addr = ":8443";
}

settled :
    settings_of start_calls start_flags (grafeas_conf ∷ []) true
    ≡ (ok (some grafeas_settings), true)
unfolding settings_of load_config validate_config
settled = refl

settings_of-Usable_example : Usable grafeas_settings
settings_of-Usable_example =
    settings_of-Usable start_calls start_flags (grafeas_conf ∷ []) grafeas_settings true true
      settled
