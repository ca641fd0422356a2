-- ===== src/Tests/Binding/Removes.antt =====
-- A request to unbind what is bound.
use service_broker_k8s.Base.{
  String, ◌≡◌, ◌≢◌, refl, true, false, some, [], ◌∷◌, ne_of_test, sprintf,
}
use service_broker_k8s.Base.Dict.{lookup}
use service_broker_k8s.Errors.{Result, ok}
use service_broker_k8s.Json.{str, marshal}
use service_broker_k8s.Http.{Request, empty_object}
use service_broker_k8s.Registry.{Entry, get_string, new, delete, resource_name}
use service_broker_k8s.Registry.Key
use service_broker_k8s.Broker.{get_single_parameter}
use service_broker_k8s.Broker.Binding.{delete_service_binding}
use service_broker_k8s.Broker.Binding.Removes.{delete_service_binding-removes}
use service_broker_k8s.Broker.Directory.{get_directory_instance}
use service_broker_k8s.Broker.Guards.Bind.{IsUnbindable}
use service_broker_k8s.Broker.Handler.{Ctx, next, answered}
use service_broker_k8s.Broker.Steps.{namespace_of_instance, response}
use service_broker_k8s.Tests.Cluster.{
  cluster, no_secrets, cluster-KeepsSecrets, secret_of, with_secret,
}
use service_broker_k8s.Tests.Broker.{with_token, fresh}
use service_broker_k8s.Tests.Binding.{binding_http}

abbrev unbind_http : Request
unbind_http = record binding_http {
  query = ok (("service_id", "service" ∷ []) ∷ ("plan_id", "plan" ∷ []) ∷ []);
}

abbrev entry_of : String → Entry
entry_of name = record {
  secret =
      secret_of "ns" name
        ((Key.service_id, marshal (str "service")) ∷ (Key.plan_id, marshal (str "plan")) ∷ []);
  exists = true;
  read_only = false;
}

abbrev bound_entry : Entry
bound_entry = entry_of "registry-service-binding-b"

abbrev instance_of : Entry
instance_of = record (entry_of "registry-service-instance-i") { read_only = true }

abbrev bound_state : cluster.State
bound_state = with_secret bound_entry.secret (with_secret instance_of.secret no_secrets)

abbrev unbinding : Ctx cluster.State
unbinding = record fresh { outside = bound_state }

has_instance :
    new cluster Key.service_instance
      (namespace_of_instance cluster with_token unbind_http bound_state)
      "i"
      true
      bound_state
    ≡ ok instance_of
unfolding new get_directory_instance resource_name
has_instance = refl

found_run :
    new cluster Key.service_binding
      (namespace_of_instance cluster with_token unbind_http bound_state)
      "b"
      false
      bound_state
    ≡ ok bound_entry
unfolding new get_directory_instance resource_name
found_run = refl

given_service_run : get_single_parameter unbind_http "service_id" ≡ ok "service"
unfolding get_single_parameter lookup
given_service_run = refl

given_plan_run : get_single_parameter unbind_http "plan_id" ≡ ok "plan"
unfolding get_single_parameter lookup
given_plan_run = refl

bound_service : get_string Key.service_id bound_entry ≡ ok (some "service")
unfolding get_string lookup marshal
bound_service = refl

bound_plan : get_string Key.plan_id bound_entry ≡ ok (some "plan")
unfolding get_string lookup marshal
bound_plan = refl

abbrev unbind_facts : IsUnbindable cluster with_token unbind_http bound_state
unbind_facts = record {
  instance_entry = instance_of;
  entry = bound_entry;
  service = "service";
  plan = "plan";
  has_instance = has_instance;
  instance_exists = refl;
  found = found_run;
  exists = refl;
  given_service = given_service_run;
  same_service = bound_service;
  given_plan = given_plan_run;
  same_plan = bound_plan;
}

instance_named : unbind_http.instance_id ≢ ""
instance_named = ne_of_test refl

binding_named : unbind_http.binding_id ≢ ""
binding_named = ne_of_test refl

entry_named : bound_entry.secret.name ≡ resource_name Key.service_binding "b"
unfolding resource_name sprintf
entry_named = refl

abbrev deletion : Result (Unit {0}) × cluster.State
deletion = delete cluster bound_entry bound_state

deletion_run : delete cluster bound_entry bound_state ≡ (ok tt, deletion.1)
unfolding delete
deletion_run = refl

delete_service_binding-removes_example :
    (delete_service_binding cluster with_token unbind_http unbinding
      ≡ (next tt, answered (response 200 empty_object) deletion.1 unbinding))
    × ((found : Entry) × (new cluster Key.service_binding "ns" "b" false deletion.1 ≡ ok found)
        × (found.exists ≡ false))
delete_service_binding-removes_example =
    delete_service_binding-removes cluster with_token cluster-KeepsSecrets unbind_http unbinding
      deletion.1 false unbind_facts instance_named binding_named entry_named deletion_run
