-- ===== src/Tests/Binding.antt =====
-- The theorems about service bindings at a concrete binding.
pub mod Fails
pub mod Busy
pub mod Removes
use service_broker_k8s.Base.{
  String, ◌≡◌, ◌≢◌, ◌⊎◌, refl, true, false, none, some, [], ◌∷◌, ne_of_test, arith, sprintf,
}
use service_broker_k8s.Base.Dict.{lookup, insert, remove, merge}
use service_broker_k8s.Base.Text.{starts_with}
use service_broker_k8s.Errors.{Error, Result, ok, err, panic, other, message, configuration_error}
use service_broker_k8s.Json.{Bytes, null, str, obj, field, end, text, marshal}
use service_broker_k8s.Env.{Env, failed}
use service_broker_k8s.Http.{
  Request, CreateServiceBindingRequest, Body, parsed, json_error, binding_read,
}
use service_broker_k8s.Registry.{
  Entry, get_string, set_string, get_raw, new, commit, unset, find_key_policy, key_policies,
  resource_name,
}
use service_broker_k8s.Registry.Key
use service_broker_k8s.Registry.Persistence.{KeepsSecrets}
use service_broker_k8s.Operation.{
  Session, provision, start, complete, finish, commit_entry, unset_operation, type_text, error_text,
  operation_exists,
}
use service_broker_k8s.Operation.Phases.{InPhase, idle}
use service_broker_k8s.Provisioner.{binding_resource}
use service_broker_k8s.Provisioner.Creator.{Creator, new_creator, run}
use service_broker_k8s.Provisioner.Creator.Completes.{error_of}
use service_broker_k8s.Provisioner.Prepare.{prepare_creator}
use service_broker_k8s.Provisioner.Template.{render_value}
use service_broker_k8s.Broker.Record.{binding_record}
use service_broker_k8s.Broker.Binding.{new_binding, create_service_binding, delete_service_binding}
use service_broker_k8s.Broker.Binding.Answers.{Ends, new_binding-credentials, new_binding-fails}
use service_broker_k8s.Broker.Binding.Busy.{new_binding-busy}
use service_broker_k8s.Broker.Guards.Bind.{
  IsBindable, IsUnbindable, create_service_binding-guards, delete_service_binding-guards,
}
use service_broker_k8s.Broker.Handler.{Ctx, next, returned, answered}
use service_broker_k8s.Broker.Handler.Rules.{Untouched}
use service_broker_k8s.Broker.Steps.{response}
use service_broker_k8s.Tests.Cluster.{cluster, no_secrets, cluster-KeepsSecrets, secret_of}
use service_broker_k8s.Tests.Config.{config, pod}
use service_broker_k8s.Tests.Provisioner.{pod_creator}
use service_broker_k8s.Tests.Broker.{
  http, with_token, request, recorded, binding_entry, bound, bind_run, fresh,
}

abbrev pub binding_http : Request
binding_http = record http { binding_id = "b" }

abbrev pub binding_request : CreateServiceBindingRequest
binding_request = record {
  service_id = "service";
  plan_id = "plan";
  context = request.context;
  parameters = none;
}

abbrev body : Body CreateServiceBindingRequest
body = parsed binding_request

create_service_binding-guards_example :
    Untouched fresh (create_service_binding cluster with_token config binding_http body fresh).1
    ⊎ IsBindable cluster with_token config binding_http body no_secrets
create_service_binding-guards_example =
    create_service_binding-guards cluster with_token config binding_http body fresh

delete_service_binding-guards_example :
    Untouched fresh (delete_service_binding cluster with_token binding_http fresh).1
    ⊎ IsUnbindable cluster with_token binding_http no_secrets
delete_service_binding-guards_example =
    delete_service_binding-guards cluster with_token binding_http fresh

-- The steps of the creation of the binding.
abbrev pub committed : Entry
committed = record bound { exists = true }

abbrev pub s1 : cluster.State
s1 = (commit_entry cluster (bound, no_secrets)).1.1

commit_run : commit_entry cluster (bound, no_secrets) ≡ (ok tt, (committed, s1))
unfolding commit
commit_run = refl

abbrev pub prepared : Entry
prepared = record committed {
  secret = secret_of "ns" "registry-service-binding-b" (
      (Key.parameters, text null 0 0)
      ∷ (Key.context, text (obj (field "namespace" (str "there") end)) 0 0)
      ∷ (Key.plan_id, marshal (str "plan"))
      ∷ (Key.service_id, marshal (str "service"))
      ∷ (Key.instance_id, marshal (str "i"))
      ∷ (Key.namespace, marshal (str "ns"))
      ∷ (Key.binding_id, marshal (str "b"))
      ∷ ("port", marshal (str "5432"))
      ∷ []);
}

abbrev pub binder : Creator
binder = record pod_creator { resource_type = binding_resource }

prepare_run :
    prepare_creator cluster config (new_creator binding_resource) committed ≡ ok (prepared, binder)
unfolding prepare_creator lookup starts_with find_key_policy key_policies render_value insert
prepare_run = refl

abbrev pub begun : Result (Unit {0}) × Session cluster
begun = start cluster provision (prepared, s1)

begun_run : start cluster provision (prepared, s1) ≡ (ok tt, begun.1)
unfolding start lookup commit insert type_text get_string set_string
begun_run = refl

abbrev worked : Result (Unit {0}) × cluster.State
worked = run cluster config binder begun.1.0 begun.1.1

worked_run : run cluster config binder begun.1.0 begun.1.1 ≡ (ok tt, worked.1)
unfolding run start lookup commit insert type_text get_string set_string
worked_run = refl

abbrev succeeded : Result (Unit {0})
succeeded = ok tt

calm : succeeded ≢ panic
calm h = ground arith

abbrev completion : Result (Unit {0}) × Session cluster
completion = complete cluster none (begun.1.0, worked.1)

completion_run : complete cluster none (begun.1.0, worked.1) ≡ (ok tt, completion.1)
unfolding complete run start lookup commit insert type_text get_string set_string
completion_run = refl

abbrev ending : Result (Unit {0}) × Session cluster
ending = finish cluster completion.1

ending_run : finish cluster completion.1 ≡ (ok tt, ending.1)
unfolding finish complete run start lookup commit insert type_text get_string set_string
    unset_operation unset remove
ending_run = refl

creation-Ends :
    Ends cluster config binding_http binding_request recorded binding_entry no_secrets ending.1.1
      (ok tt)
      begun.1.0
      ending.1.0
creation-Ends = record {
  recorded = bound;
  committed = committed;
  prepared = prepared;
  ran = completion.1.0;
  creator = binder;
  s1 = s1;
  s2 = begun.1.1;
  s3 = worked.1;
  s4 = completion.1.1;
  records = bind_run;
  commits = commit_run;
  prepares = prepare_run;
  starts = begun_run;
  runs = worked_run;
  calm = calm;
  completes = completion_run;
  finishes = ending_run;
}

no_credentials : get_raw cluster Key.credentials begun.1.0 ≡ ok none
unfolding get_raw start lookup commit insert type_text get_string set_string
no_credentials = refl

new_binding-credentials_example :
    (new_binding cluster config binding_http binding_request recorded binding_entry fresh
      ≡ (next tt, answered (response 201 (binding_read none)) ending.1.1 fresh))
    × InPhase idle ending.1.0
new_binding-credentials_example =
    new_binding-credentials cluster config binding_http binding_request recorded binding_entry
      cluster-KeepsSecrets (ok tt) begun.1.0 ending.1.0 fresh ending.1.1 none creation-Ends refl
      no_credentials
