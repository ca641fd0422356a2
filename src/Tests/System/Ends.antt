-- ===== src/Tests/System/Ends.antt =====
-- The poll for a creation that has ended, and the end of a deletion.
use service_broker_k8s.Base.{◌≡◌, ◌≢◌, refl, none, some, ne_of_test, []}
use service_broker_k8s.Errors.{Result, ok}
use service_broker_k8s.Json.{marshal}
use service_broker_k8s.Http.{empty_object}
use service_broker_k8s.Config.Controller.{handle}
use service_broker_k8s.Base.{sprintf}
use service_broker_k8s.Base.Dict.{lookup, insert}
use service_broker_k8s.Base.Text.{starts_with}
use service_broker_k8s.Config.Validation.{
  validate_plan, is_bindable, validate_binding, validate_use, validate_templates,
}
use service_broker_k8s.Provisioner.Template.{render_value}
use service_broker_k8s.Registry.{
  Entry, get_string, delete, unset, new, commit, find_key_policy, key_policies, resource_name,
}
use service_broker_k8s.Registry.Key
use service_broker_k8s.Operation.{type_text, complete, finish, Session, unset_operation}
use service_broker_k8s.Operation.Phases.{InPhase, idle}
use service_broker_k8s.Provisioner.Creator.{run}
use service_broker_k8s.Provisioner.Creator.Completes.{error_of}
use service_broker_k8s.Broker.{mayget_single_parameter, get_single_parameter}
use service_broker_k8s.Broker.Directory.{get_directory_instance}
use service_broker_k8s.Broker.Instance.{poll_service_instance}
use service_broker_k8s.Broker.Jobs.{job_entry}
use service_broker_k8s.Broker.Steps.{namespace_of_instance, response}
use service_broker_k8s.Broker.Handler.{delete_job, next, returned, answered}
use service_broker_k8s.System.Deletions.{deletion_job-ends}
use service_broker_k8s.System.Polls.{outcome, IsWorded, found_again, PollsFor, pending_job-polled}
use service_broker_k8s.System.{System, boot, run_job, after_job, serve}
use service_broker_k8s.Tests.Cluster.{with_secret, cluster, no_secrets, cluster-KeepsSecrets}
use service_broker_k8s.Tests.Config.{config}
use service_broker_k8s.Tests.Broker.{http, with_token, fresh}
use service_broker_k8s.Tests.System.{
  completion, job, worked, started_entry, creating, creating-Reachable, pending_run, worked_calmly,
  completion_run,
}

-- The poll for the creation, and the deletion of what it has made.
abbrev made : Entry
made = completion.1.0

abbrev poll_end : Result (Unit {0}) × Session cluster
poll_end = finish cluster (found_again made, completion.1.1)

poll_end_run : finish cluster (found_again made, completion.1.1) ≡ (ok tt, poll_end.1)
unfolding unset_operation unset finish complete run serve handle lookup new commit insert
    starts_with find_key_policy key_policies render_value resource_name validate_plan is_bindable
    validate_binding validate_use validate_templates type_text sprintf
poll_end_run = refl

http_named : http.instance_id ≢ ""
http_named = ne_of_test refl

made_placed : namespace_of_instance cluster with_token http completion.1.1 ≡ made.secret.namespace
unfolding get_directory_instance complete run serve handle lookup new commit insert starts_with
    find_key_policy key_policies render_value resource_name validate_plan is_bindable
    validate_binding validate_use validate_templates type_text sprintf
made_placed = refl

made_named : made.secret.name ≡ resource_name Key.service_instance http.instance_id
unfolding complete run serve handle lookup new commit insert starts_with find_key_policy
    key_policies render_value resource_name validate_plan is_bindable validate_binding validate_use
    validate_templates type_text sprintf
made_named = refl

no_service : mayget_single_parameter http "service_id" ≡ ok none
unfolding mayget_single_parameter lookup
no_service = refl

no_plan : mayget_single_parameter http "plan_id" ≡ ok none
unfolding mayget_single_parameter lookup
no_plan = refl

operation_given : get_single_parameter http "operation" ≡ ok "id"
unfolding get_single_parameter lookup
operation_given = refl

job_id : get_string Key.operation_id (job_entry job) ≡ ok (some "id")
unfolding get_string lookup marshal
job_id = refl

job_service : get_string Key.service_id (job_entry job) ≡ ok (some "service")
unfolding get_string lookup marshal
job_service = refl

job_plan : get_string Key.plan_id (job_entry job) ≡ ok (some "plan")
unfolding get_string lookup marshal
job_plan = refl

http-PollsFor : PollsFor cluster with_token http job made completion.1.1
http-PollsFor = record {
  named = http_named;
  placed = made_placed;
  identified = made_named;
  no_service = no_service;
  no_plan = no_plan;
  id = "id";
  given = operation_given;
  had = job_id;
  service = "service";
  plan = "plan";
  has_service = job_service;
  has_plan = job_plan;
}

worded : IsWorded (error_of worked.0)
unfolding run lookup
worded = tt

pending_job-polled_example :
    (poll_service_instance cluster with_token http (record fresh { outside = completion.1.1 })
      ≡ (next tt, answered (response 200 (outcome (error_of worked.0))) poll_end.1.1 fresh))
    × InPhase idle poll_end.1.0
pending_job-polled_example =
    pending_job-polled cluster with_token config.name cluster-KeepsSecrets creating config [] [] job
      worked.0 worked.1 completion.1.1 poll_end.1.1 made poll_end.1.0 http fresh creating-Reachable
      pending_run refl worked_calmly completion_run worded http-PollsFor poll_end_run

abbrev kept : Entry
kept = record started_entry { secret = record (started_entry.secret) { namespace = "ns" } }

abbrev with_kept : System cluster.State
with_kept = boot cluster (with_secret kept.secret no_secrets)

abbrev dropped : Result (Unit {0}) × cluster.State
dropped = delete cluster kept with_kept.active.outside

dropped_run : delete cluster kept with_kept.active.outside ≡ (ok tt, dropped.1)
unfolding delete
dropped_run = refl

kept_placed : namespace_of_instance cluster with_token http dropped.1 ≡ "ns"
unfolding get_directory_instance delete
kept_placed = refl

kept_named : kept.secret.name ≡ resource_name Key.service_instance http.instance_id
unfolding resource_name sprintf
kept_named = refl

deletion_job-ends_example :
    (after_job cluster
        (run_job cluster config (delete_job kept) with_kept.active.outside)
        with_kept
        []
      ≡ record { active = record with_kept.active { outside = dropped.1 }; pending = [] })
    × (poll_service_instance cluster with_token http (record fresh { outside = dropped.1 })
        ≡ (returned, answered (response 410 empty_object) dropped.1 fresh))
deletion_job-ends_example =
    deletion_job-ends cluster with_token cluster-KeepsSecrets with_kept config [] kept dropped.1
      http fresh refl dropped_run http_named kept_placed kept_named
