-- ===== src/Tests/System.antt =====
-- The broker as it runs, from its start to the end of a creation.
pub mod Ends
use service_broker_k8s.Base.{
  ◌≡◌, ◌≢◌, ◌⊎◌, refl, true, false, none, some, ne_of_test, [], ◌∷◌, ◌++◌, arith,
}
use service_broker_k8s.Errors.{Result, ok, panic}
use service_broker_k8s.Json.{Bytes, null, str, obj, field, end, text, marshal}
use service_broker_k8s.Http.{Request, empty_object}
use service_broker_k8s.Config.Controller.{created, handle}
use service_broker_k8s.Base.{sprintf}
use service_broker_k8s.Base.Dict.{Dict, lookup, insert}
use service_broker_k8s.Base.Text.{starts_with}
use service_broker_k8s.Config.Validation.{
  validate_plan, is_bindable, validate_binding, validate_use, validate_templates,
}
use service_broker_k8s.Provisioner.Template.{render_value}
use service_broker_k8s.Registry.{
  Entry, get_string, delete, unset, new, commit, find_key_policy, key_policies, resource_name,
}
use service_broker_k8s.Registry.Key
use service_broker_k8s.Operation.{type_text, complete, finish, Session, unset_operation}
use service_broker_k8s.Operation.Phases.{InPhase, idle}
use service_broker_k8s.Provisioner.Creator.{run}
use service_broker_k8s.Provisioner.Creator.Completes.{error_of}
use service_broker_k8s.Broker.{mayget_single_parameter, get_single_parameter}
use service_broker_k8s.Broker.Directory.{get_directory_instance}
use service_broker_k8s.Broker.Instance.{poll_service_instance}
use service_broker_k8s.Broker.Jobs.{job_entry}
use service_broker_k8s.Broker.Steps.{namespace_of_instance, response}
use service_broker_k8s.Broker.Handler.{Job, create_job, delete_job, next, returned, answered}
use service_broker_k8s.System.Deletions.{deletion_job-ends}
use service_broker_k8s.System.Polls.{outcome, IsWorded, found_again, PollsFor, pending_job-polled}
use service_broker_k8s.Broker.Server.{create_instance}
use service_broker_k8s.System.{
  System, boot, run_job, after_job, serve, Reachable, started, later, request, informer,
}
use service_broker_k8s.System.Safety.{Ended, JobsRecorded, Reachable-JobsRecorded, pending_job-ends}
use service_broker_k8s.System.Serves.{IsAnswered, Reachable-serves}
use service_broker_k8s.Tests.Cluster.{
  with_secret, secret_of, cluster, no_secrets, cluster-KeepsSecrets,
}
use service_broker_k8s.Tests.Config.{config}
use service_broker_k8s.Tests.Provisioner.{pod_creator}
use service_broker_k8s.Tests.Broker.{http, with_token, body, fresh}

abbrev full_http : Request
full_http = record http {
  headers =
      ("Authorization", "Bearer alice" ∷ [])
      ∷ ("X-Broker-API-Version", "2.0" ∷ [])
      ∷ ("Content-Type", "application/json" ∷ [])
      ∷ [];
}

abbrev configured : System cluster.State
configured = record (boot cluster no_secrets) {
  active = handle cluster config.name (created (some config)) (boot cluster no_secrets).active;
}

abbrev pub creating : System cluster.State
creating = serve cluster with_token full_http (create_instance body) configured

pub creating-Reachable : Reachable cluster with_token config.name creating
creating-Reachable =
    later (later (started no_secrets) (informer (created (some config)) refl))
      (request full_http (create_instance body) refl)

Reachable-JobsRecorded_example : JobsRecorded creating
Reachable-JobsRecorded_example =
    Reachable-JobsRecorded cluster with_token config.name cluster-KeepsSecrets creating
      creating-Reachable

Reachable-serves_example :
    (serve cluster with_token full_http (create_instance body) creating ≡ creating)
    ⊎ IsAnswered cluster with_token config.name creating full_http
Reachable-serves_example =
    Reachable-serves cluster with_token config.name creating full_http (create_instance body)
      creating-Reachable

abbrev started_data : Dict Bytes
started_data =
    (Key.namespace, marshal (str "ns"))
    ∷ (Key.instance_id, marshal (str "i"))
    ∷ (Key.service_id, marshal (str "service"))
    ∷ (Key.plan_id, marshal (str "plan"))
    ∷ (Key.context, text (obj (field "namespace" (str "there") end)) 0 0)
    ∷ (Key.parameters, text null 0 0)
    ∷ ("port", marshal (str "5432"))
    ∷ (Key.operation, marshal (str "provision"))
    ∷ (Key.operation_id, marshal (str "id"))
    ∷ []

-- The entry of the creation that the request has started.
abbrev pub started_entry : Entry
started_entry = record {
  secret = record (secret_of "there" "registry-service-instance-i" started_data) {
    labels = ("app", "broker") ∷ [];
    annotations = ("servicebroker.couchbase.com/version", "1.0") ∷ [];
  };
  exists = true;
  read_only = false;
}

abbrev pub job : Job
job = create_job pod_creator started_entry

pub pending_run : creating.pending ≡ [] ++ job ∷ []
unfolding serve handle lookup new commit insert starts_with find_key_policy key_policies
    render_value resource_name validate_plan is_bindable validate_binding validate_use
    validate_templates type_text sprintf
pending_run = refl

abbrev outside : cluster.State
outside = creating.active.outside

abbrev pub worked : Result (Unit {0}) × cluster.State
worked = run cluster config pod_creator started_entry outside

pub worked_calmly : worked.0 ≢ panic
unfolding run
worked_calmly h = ground arith

abbrev pub completion : Result (Unit {0}) × Session cluster
completion = complete cluster (error_of worked.0) (started_entry, worked.1)

pub completion_run :
    complete cluster (error_of worked.0) (started_entry, worked.1) ≡ (ok tt, completion.1)
unfolding complete run serve handle lookup new commit insert starts_with find_key_policy
    key_policies render_value resource_name validate_plan is_bindable validate_binding validate_use
    validate_templates type_text sprintf
completion_run = refl

pending_job-ends_example :
    (after_job cluster (run_job cluster config job outside) creating []
      ≡ record { active = record creating.active { outside = completion.1.1 }; pending = [] })
    × Ended cluster job (error_of worked.0) completion.1.1
pending_job-ends_example =
    pending_job-ends cluster with_token config.name cluster-KeepsSecrets creating config [] [] job
      worked.0 worked.1 completion.1.1 completion.1.0 creating-Reachable pending_run refl
      worked_calmly completion_run
