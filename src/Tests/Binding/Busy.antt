-- ===== src/Tests/Binding/Busy.antt =====
-- A binding of an instance that is provisioned.
use service_broker_k8s.Base.{◌≡◌, refl, true, false, some, [], ◌∷◌, sprintf}
use service_broker_k8s.Base.Dict.{lookup, insert, merge}
use service_broker_k8s.Base.Text.{starts_with}
use service_broker_k8s.Errors.{Result, ok}
use service_broker_k8s.Json.{null, str, obj, field, end, text, marshal}
use service_broker_k8s.Http.{json_error}
use service_broker_k8s.Registry.{
  Entry, get_string, new, commit, find_key_policy, key_policies, resource_name,
}
use service_broker_k8s.Registry.Key
use service_broker_k8s.Operation.{operation_exists}
use service_broker_k8s.Provisioner.{binding_resource}
use service_broker_k8s.Provisioner.Creator.{new_creator}
use service_broker_k8s.Provisioner.Prepare.{prepare_creator}
use service_broker_k8s.Provisioner.Template.{render_value}
use service_broker_k8s.Broker.Record.{binding_record}
use service_broker_k8s.Broker.Binding.{new_binding}
use service_broker_k8s.Broker.Binding.Busy.{new_binding-busy}
use service_broker_k8s.Broker.Handler.{returned, answered}
use service_broker_k8s.Tests.Cluster.{cluster, no_secrets, cluster-KeepsSecrets, secret_of}
use service_broker_k8s.Tests.Config.{config}
use service_broker_k8s.Tests.Broker.{request, recorded, binding_entry, fresh}
use service_broker_k8s.Tests.Binding.{binding_http, binding_request, binder}

-- A binding of the instance while it is provisioned.
abbrev busy_instance : Entry
busy_instance = record recorded {
  secret = secret_of "ns" "registry-service-instance-i" (
      (Key.service_id, marshal (str "service"))
      ∷ (Key.plan_id, marshal (str "plan"))
      ∷ (Key.operation, marshal (str "provision"))
      ∷ []);
}

busy_run : get_string Key.operation busy_instance ≡ ok (some "provision")
unfolding get_string lookup marshal
busy_run = refl

abbrev inherited : Entry
inherited = record binding_entry {
  secret = secret_of "ns" "registry-service-binding-b" (
      (Key.operation, marshal (str "provision"))
      ∷ (Key.plan_id, marshal (str "plan"))
      ∷ (Key.service_id, marshal (str "service"))
      ∷ (Key.binding_id, marshal (str "b"))
      ∷ (Key.context, text (obj (field "namespace" (str "there") end)) 0 0)
      ∷ (Key.parameters, text null 0 0)
      ∷ []);
}

inherit_run :
    binding_record cluster "b" request.context request.parameters busy_instance binding_entry
    ≡ ok inherited
unfolding binding_record insert merge
inherit_run = refl

inherited_named : inherited.secret.name ≡ resource_name Key.service_binding "b"
unfolding resource_name sprintf
inherited_named = refl

abbrev inherited_commit : Result (Unit {0}) × Entry × cluster.State
inherited_commit = commit cluster inherited no_secrets

busy_commit_run :
    commit cluster inherited no_secrets
    ≡ (ok tt, record inherited { exists = true }, inherited_commit.2)
unfolding commit
busy_commit_run = refl

abbrev inherited_prepared : Entry
inherited_prepared = record inherited {
  exists = true;
  secret = secret_of "ns" "registry-service-binding-b" (
      (Key.operation, marshal (str "provision"))
      ∷ (Key.plan_id, marshal (str "plan"))
      ∷ (Key.service_id, marshal (str "service"))
      ∷ (Key.binding_id, marshal (str "b"))
      ∷ (Key.context, text (obj (field "namespace" (str "there") end)) 0 0)
      ∷ (Key.parameters, text null 0 0)
      ∷ ("port", marshal (str "5432"))
      ∷ []);
}

inherited_prepare_run :
    prepare_creator cluster config
      (new_creator binding_resource)
      (record inherited { exists = true })
    ≡ ok (inherited_prepared, binder)
unfolding prepare_creator lookup starts_with find_key_policy key_policies render_value insert
inherited_prepare_run = refl

new_binding-busy_example :
    (new_binding cluster config binding_http binding_request busy_instance binding_entry fresh
      ≡ (returned, answered (json_error (operation_exists "provision")) inherited_commit.2 fresh))
    × ((found : Entry) × (new cluster Key.service_binding "ns" "b" false inherited_commit.2
          ≡ ok found)
        × (found.exists ≡ true)
        × (get_string Key.operation found ≡ ok (some "provision")))
new_binding-busy_example =
    new_binding-busy cluster config binding_http binding_request busy_instance binding_entry
      cluster-KeepsSecrets "provision" inherited (record inherited { exists = true })
      inherited_prepared binder fresh inherited_commit.2 false busy_run inherit_run inherited_named
      busy_commit_run inherited_prepare_run
