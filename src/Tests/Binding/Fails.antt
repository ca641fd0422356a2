-- ===== src/Tests/Binding/Fails.antt =====
-- A binding whose resources cannot be created.
use service_broker_k8s.Base.{◌≡◌, ◌≢◌, refl, some, ne_of_test, arith}
use service_broker_k8s.Base.Dict.{lookup, insert, remove, merge}
use service_broker_k8s.Base.Text.{starts_with}
use service_broker_k8s.Errors.{Error, Result, ok, err, panic, other, message}
use service_broker_k8s.Env.{Env, failed}
use service_broker_k8s.Http.{json_error}
use service_broker_k8s.Registry.{
  get_string, set_string, commit, unset, find_key_policy, key_policies,
}
use service_broker_k8s.Registry.Persistence.{KeepsSecrets}
use service_broker_k8s.Operation.{
  Session, provision, start, complete, finish, commit_entry, unset_operation, type_text, error_text,
}
use service_broker_k8s.Operation.Phases.{InPhase, idle}
use service_broker_k8s.Provisioner.{binding_resource}
use service_broker_k8s.Provisioner.Creator.{new_creator, run}
use service_broker_k8s.Provisioner.Prepare.{prepare_creator}
use service_broker_k8s.Provisioner.Template.{render_value}
use service_broker_k8s.Broker.Record.{binding_record}
use service_broker_k8s.Broker.Binding.{new_binding, error_of_format}
use service_broker_k8s.Broker.Binding.Answers.{Ends, new_binding-fails}
use service_broker_k8s.Broker.Handler.{returned, answered}
use service_broker_k8s.Tests.Cluster.{cluster, no_secrets, cluster-KeepsSecrets}
use service_broker_k8s.Tests.Config.{config}
use service_broker_k8s.Tests.Broker.{request, recorded, binding_entry, bound, fresh}
use service_broker_k8s.Tests.Binding.{
  binding_http, binding_request, committed, s1, prepared, binder, begun,
}

abbrev full_cluster : Env
full_cluster = record cluster { create_object = λ resource ns v s. (failed "no room", s) }

full_cluster-KeepsSecrets : KeepsSecrets full_cluster
full_cluster-KeepsSecrets = record {
  create_read = cluster-KeepsSecrets.create_read;
  update_read = cluster-KeepsSecrets.update_read;
  create_other = cluster-KeepsSecrets.create_other;
  update_other = cluster-KeepsSecrets.update_other;
  delete_read = cluster-KeepsSecrets.delete_read;
  delete_other = cluster-KeepsSecrets.delete_other;
  new_uuid_read = cluster-KeepsSecrets.new_uuid_read;
  get_named = cluster-KeepsSecrets.get_named;
}

-- The same creation where the cluster has no room.
abbrev failure : Error
failure = other "no room"

abbrev failed_run : Result (Unit {0})
failed_run = err failure

full_prepare_run :
    prepare_creator full_cluster config (new_creator binding_resource) committed
    ≡ ok (prepared, binder)
unfolding prepare_creator lookup starts_with find_key_policy key_policies render_value insert
full_prepare_run = refl

full_begun_run : start full_cluster provision (prepared, s1) ≡ (ok tt, begun.1)
unfolding start lookup commit insert type_text get_string set_string
full_begun_run = refl

abbrev full_worked : Result (Unit {0}) × full_cluster.State
full_worked = run full_cluster config binder begun.1.0 begun.1.1

full_worked_run : run full_cluster config binder begun.1.0 begun.1.1 ≡ (failed_run, full_worked.1)
unfolding run start lookup commit insert type_text get_string set_string
full_worked_run = refl

failed_calm : failed_run ≢ panic
failed_calm h = ground arith

abbrev full_completion : Result (Unit {0}) × Session full_cluster
full_completion = complete full_cluster (some failure) (begun.1.0, full_worked.1)

full_completion_run :
    complete full_cluster (some failure) (begun.1.0, full_worked.1) ≡ (ok tt, full_completion.1)
unfolding complete run start lookup commit insert type_text get_string set_string error_text message
full_completion_run = refl

abbrev full_ending : Result (Unit {0}) × Session full_cluster
full_ending = finish full_cluster full_completion.1

full_ending_run : finish full_cluster full_completion.1 ≡ (ok tt, full_ending.1)
unfolding finish complete run start lookup commit insert type_text get_string set_string error_text
    message unset_operation unset remove
full_ending_run = refl

full_commit_run : commit_entry full_cluster (bound, no_secrets) ≡ (ok tt, (committed, s1))
unfolding commit
full_commit_run = refl

full_bind_run :
    binding_record full_cluster "b" request.context request.parameters recorded binding_entry
    ≡ ok bound
unfolding binding_record insert merge
full_bind_run = refl

failure-Ends :
    Ends full_cluster config binding_http binding_request recorded binding_entry no_secrets
      full_ending.1.1 failed_run begun.1.0 full_ending.1.0
failure-Ends = record {
  recorded = bound;
  committed = committed;
  prepared = prepared;
  ran = full_completion.1.0;
  creator = binder;
  s1 = s1;
  s2 = begun.1.1;
  s3 = full_worked.1;
  s4 = full_completion.1.1;
  records = full_bind_run;
  commits = full_commit_run;
  prepares = full_prepare_run;
  starts = full_begun_run;
  runs = full_worked_run;
  calm = failed_calm;
  completes = full_completion_run;
  finishes = full_ending_run;
}

worded : message failure ≢ ""
unfolding message
worded = ne_of_test refl

new_binding-fails_example :
    (new_binding full_cluster config binding_http binding_request recorded binding_entry fresh ≡ (
      returned,
      answered (json_error (error_of_format full_cluster (message failure))) full_ending.1.1 fresh,
    ))
    × InPhase idle full_ending.1.0
new_binding-fails_example =
    new_binding-fails full_cluster config binding_http binding_request recorded binding_entry
      full_cluster-KeepsSecrets failed_run begun.1.0 full_ending.1.0 fresh full_ending.1.1 failure
      failure-Ends refl worded
