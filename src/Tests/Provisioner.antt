-- ===== src/Tests/Provisioner.antt =====
-- The theorems about the provisioners at concrete inputs.
use service_broker_k8s.Base.{
  String, All, ℕ, zero, suc, ◌≤◌, ◌≡◌, ◌↔◌, refl, true, false, some, [], ◌∷◌, inr,
}
use service_broker_k8s.Base.Dict.{lookup, insert}
use service_broker_k8s.Base.Text.{starts_with}
use service_broker_k8s.Errors.{Result, ok, err, panic, other}
use service_broker_k8s.Json.{Json, str, obj, field, end, null, marshal}
use service_broker_k8s.Config.{ReadinessCheckCondition, TemplateList}
use service_broker_k8s.ParseTree.{
  Listing, nil_list, list_of, add_node, no_nodes, if_node, pipe_of, no_commands,
}
use service_broker_k8s.Env.{Env, answer}
use service_broker_k8s.Provisioner.Template.Actions.Total.{IsWholeList}
use service_broker_k8s.Provisioner.Template.Broken.{render_string-panics}
use service_broker_k8s.Provisioner.Template.{render_string}
use service_broker_k8s.Base.Text.{ends_with}
use service_broker_k8s.Registry.{Entry, find, get_string, find_key_policy, key_policies}
use service_broker_k8s.Registry.Key
use service_broker_k8s.Operation.{Session, complete}
use service_broker_k8s.Provisioner.{instance_resource, wait_for}
use service_broker_k8s.Provisioner.Waiting.{after_periods, FailsBefore, wait_for_iff}
use service_broker_k8s.Provisioner.Readiness.{match_conditions}
use service_broker_k8s.Provisioner.Readiness.Laws.{match_conditions_iff}
use service_broker_k8s.Provisioner.Template.{render_value}
use service_broker_k8s.Provisioner.Creator.{Creator, new_creator, run}
use service_broker_k8s.Provisioner.Creator.Completes.{error_of}
use service_broker_k8s.Provisioner.{get_template_binding}
use service_broker_k8s.Provisioner.Updater.{Updater, new_updater, prepare_updater}
use service_broker_k8s.Provisioner.Updater.Changes.{IsChange, prepare_updater-IsChange}
use service_broker_k8s.Provisioner.Prepare.{prepare_creator}
use service_broker_k8s.Provisioner.Prepare.Protects.{prepare_creator-find}
use service_broker_k8s.Tests.Cluster.{cluster, no_secrets, secret_of, with_secret}
use service_broker_k8s.Tests.Config.{config, pod}

-- A counter that is ready at 2.
abbrev at_two : ℕ → Result (Unit {0})
at_two zero = err (other "zero")
at_two (suc zero) = err (other "one")
at_two (suc (suc n)) = ok tt

abbrev tick : ℕ → ℕ
tick n = suc n

wait_for_iff_example : (wait_for tick at_two 5 0 ≡ (ok tt, 2)) ↔ (
    (k : ℕ) × (k ≤ 5)
    × FailsBefore tick at_two k 0
    × (2 ≡ after_periods tick at_two k 0)
    × (at_two 2 ≡ ok tt))
wait_for_iff_example = wait_for_iff tick at_two 5 0 2

-- A condition of a resource.
abbrev ready_condition : Json
ready_condition = obj (field "type" (str "Ready") (field "status" (str "True") end))

abbrev wanted : ReadinessCheckCondition
wanted = record {
  api_version = "v1";
  kind = "Pod";
  namespace = "ns";
  name = "pod";
  type = "Ready";
  status = "True";
}

match_conditions_iff_example :
    (match_conditions cluster wanted "pod" (ready_condition ∷ []) ≡ ok tt)
    ↔ (lookup wanted.type (("Ready", "True") ∷ []) ≡ some wanted.status)
match_conditions_iff_example =
    match_conditions_iff cluster wanted "pod" (ready_condition ∷ []) (("Ready", "True") ∷ [])
      ((refl, refl, refl), tt)

-- A creation that is prepared for an entry of the plan of the configuration.
abbrev entry : Entry
entry = record {
  secret =
      secret_of "ns" "registry-service-instance-i"
        ((Key.service_id, marshal (str "service")) ∷ (Key.plan_id, marshal (str "plan")) ∷ []);
  exists = true;
  read_only = false;
}

-- The entry with the value of the registry of the binding, and the creation of a pod.
abbrev prepared : Entry
prepared = record entry {
  secret = secret_of "ns" "registry-service-instance-i" (
      (Key.service_id, marshal (str "service"))
      ∷ (Key.plan_id, marshal (str "plan"))
      ∷ ("port", marshal (str "5432"))
      ∷ []);
}

abbrev pub pod_creator : Creator
pod_creator = record {
  resource_type = instance_resource;
  steps =
      record {
        name = "default";
        templates = record pod { template = some (some (marshal (str "pod"))) } ∷ [];
        readiness_checks = [];
      }
      ∷ [];
}

prepare_run :
    prepare_creator cluster config (new_creator instance_resource) entry
    ≡ ok (prepared, pod_creator)
unfolding prepare_creator lookup starts_with find_key_policy key_policies render_value insert
prepare_run = refl

prepare_creator-find_example : find Key.plan_id prepared ≡ find Key.plan_id entry
prepare_creator-find_example =
    prepare_creator-find cluster config Key.plan_id (inr (inr (inr (inr refl))))
      (new_creator instance_resource) pod_creator entry prepared prepare_run

-- An entry whose creation runs.
abbrev busy : Entry
busy = record entry {
  secret = secret_of "ns" "registry-service-instance-i" (
      (Key.namespace, marshal (str "ns"))
      ∷ (Key.operation, marshal (str "provision"))
      ∷ (Key.operation_id, marshal (str "id"))
      ∷ []);
}

abbrev held : cluster.State
held = with_secret busy.secret no_secrets

abbrev ran : Result (Unit {0}) × cluster.State
ran = run cluster config pod_creator busy held

abbrev ended : Result (Unit {0}) × Session cluster
ended = complete cluster (error_of ran.0) (busy, ran.1)

-- A cluster whose templates parse to an `if` without an `else`.
abbrev half_if : Listing
half_if = list_of (add_node (if_node (pipe_of [] no_commands) (list_of no_nodes) nil_list) no_nodes)

abbrev half_cluster : Env
half_cluster = record cluster { parse_template = λ s. ok half_if }

half_if-broken : IsWholeList half_if → ⊥
unfolding IsWholeList
half_if-broken ((_, h), _) = h

render_string-panics_example :
    render_string half_cluster config 1 entry "{{if true}}1{{end}}" null ≡ panic
unfolding starts_with ends_with
render_string-panics_example =
    render_string-panics half_cluster config 0 entry "{{if true}}1{{end}}" null half_if refl refl
      refl half_if-broken

-- A cluster in which the pod was made from another text, and its update.
abbrev old_cluster : Env
old_cluster = record cluster {
  object_namespace = λ v. "ns";
  get_object = λ resource ns n s. answer (str "old");
  nested_string = λ v path. ok (some "old");
}

abbrev updater : Updater
updater = record { resource_type = instance_resource; resources = str "pod" ∷ [] }

update_run :
    prepare_updater old_cluster config (new_updater instance_resource) entry no_secrets ≡ ok updater
unfolding prepare_updater lookup starts_with render_value
update_run = refl

prepare_updater-IsChange_example :
    (service_id plan_id : String) × (templates : TemplateList) × (get_string Key.service_id entry
      ≡ ok (some service_id))
    × (get_string Key.plan_id entry ≡ ok (some plan_id))
    × (get_template_binding config instance_resource service_id plan_id ≡ ok templates)
    × All (IsChange old_cluster config entry no_secrets templates.templates) updater.resources
prepare_updater-IsChange_example =
    prepare_updater-IsChange old_cluster config entry no_secrets updater instance_resource
      update_run
