-- ===== src/Broker/Binding.antt =====
-- pkg/broker/handlers.go: handleCreateServiceBinding and handleDeleteServiceBinding.
pub mod Answers
pub mod Busy
pub mod Removes
use service_broker_k8s.Base.{
  String, true, false, none, ◌==◌, if◌then◌else◌, or_default, not, sprintf, [], ◌∷◌,
}
use service_broker_k8s.Base.Text.{has_percent}
use service_broker_k8s.Errors.{
  Error, resource_gone_error, parameter_error, configuration_error, fail_if,
}
use service_broker_k8s.Env.{Env}
use service_broker_k8s.Config.{ServiceBrokerConfig}
use service_broker_k8s.Http.{
  Request, Body, json_request, CreateServiceBindingRequest, json_error, binding_accepted,
  binding_read, empty_object,
}
use service_broker_k8s.Registry.{Entry, get_string, get_raw, clone}
use service_broker_k8s.Registry.Key
use service_broker_k8s.Operation.{provision, start, finish, commit_entry}
use service_broker_k8s.Provisioner.{binding_resource}
use service_broker_k8s.Provisioner.Creator.{new_creator, run_creator, run_deleter}
use service_broker_k8s.Provisioner.Prepare.{prepare_creator}
use service_broker_k8s.Broker.{
  get_single_parameter, validate_service_plan, validate_parameters, verify_bindable, binding_schema,
  create_schema,
}
use service_broker_k8s.Broker.Auth.{ServerConfiguration}
use service_broker_k8s.Broker.Record.{binding_record}
use service_broker_k8s.Broker.Handler.{Handler, ◌>>=◌, ◌>>◌, respond, reply, attempt, reads}
use service_broker_k8s.Broker.Steps.{
  unexpected, response, same_or, key_or, does_not_match, instance_id_of, namespace_of_instance,
  new_entry, apply_with, same_request, provisioning_id,
}

module _ (env : Env) where
  open env use {State}

  -- The binding exists already: the request must ask for the same.
  unfoldable pub existing_binding : CreateServiceBindingRequest → Entry → Handler State (Unit {0})
  unfolding same_request provisioning_id
  existing_binding request entry = do
    same_request env entry request.service_id request.plan_id request.context request.parameters
    id ← provisioning_id env entry
    reply (response 200 (binding_accepted (or_default id "")))

  -- `NewConfigurationError` of a text without arguments, which takes the text as a format.
  unfoldable pub error_of_format : String → Error
  unfolding has_percent
  error_of_format s = configuration_error (if has_percent s then env.format_alone s else s)

  -- The status of a creation that has ended: an error is reported, or the credentials that were in
  -- the entry before it ran.
  abbrev binding_result : String → Entry → Handler State (Unit {0})
  binding_result status frozen = do
    attempt (fail_if (not (status == "")) (error_of_format status))
    credentials ← attempt (get_raw env Key.credentials frozen)
    respond (response 201 (binding_read (or_default credentials none)))

  -- The binding is new: it is recorded, prepared, and provisioned before the response.
  unfoldable pub new_binding :
      ServiceBrokerConfig
      → Request
      → CreateServiceBindingRequest
      → (instance_entry entry : Entry) → Handler State (Unit {0})
  unfolding binding_record prepare_creator start run_creator finish get_string get_raw clone
  new_binding config r request instance_entry entry = do
    recorded ←
        attempt
          (binding_record env r.binding_id request.context request.parameters instance_entry entry)
    committed ← apply_with env json_error (commit_entry env) recorded
    (prepared, provisioner) ←
        attempt (prepare_creator env config (new_creator binding_resource) committed)
    started ← apply_with env json_error (start env provision) prepared
    ran ← apply_with env json_error (run_creator env config provisioner) started
    status ← key_or Key.operation_status ran (unexpected "expected operation status not found")
    _ ← apply_with env json_error (finish env) ran
    binding_result status (clone started)

  abbrev binding_id_of : Request → Handler State (Unit {0})
  binding_id_of r =
      attempt (fail_if (r.binding_id == "") (unexpected "request missing binding_id parameter"))

  abbrev instance_missing : Request → Error
  instance_missing r =
      parameter_error (sprintf ("service instance " ∷ r.instance_id ∷ " not found" ∷ []))

  abbrev bind_or_match :
      ServiceBrokerConfig
      → Request
      → CreateServiceBindingRequest
      → (instance_entry entry : Entry) → Handler State (Unit {0})
  bind_or_match config r request instance_entry entry =
      if entry.exists
      then existing_binding request entry
      else new_binding config r request instance_entry entry

  -- `handleCreateServiceBinding`
  unfoldable pub create_service_binding :
      ServerConfiguration
      → ServiceBrokerConfig
      → Request
      → Body CreateServiceBindingRequest
      → Handler State (Unit {0})
  unfolding json_request validate_service_plan verify_bindable validate_parameters existing_binding
      new_binding
  create_service_binding configuration config r body = do
    request ← attempt (json_request body)
    instance_id_of env r json_error
    binding_id_of r
    attempt (validate_service_plan config request.service_id request.plan_id)
    attempt (verify_bindable config request.service_id request.plan_id)
    attempt (
        validate_parameters env config request.service_id request.plan_id binding_schema
          create_schema request.parameters)
    namespace ← reads (namespace_of_instance env configuration r)
    instance_entry ← new_entry env Key.service_instance namespace r.instance_id true
    attempt (fail_if (not instance_entry.exists) (instance_missing r))
    entry ← new_entry env Key.service_binding namespace r.binding_id false
    bind_or_match config r request instance_entry entry

  -- `handleDeleteServiceBinding`
  unfoldable pub delete_service_binding : ServerConfiguration → Request → Handler State (Unit {0})
  unfolding get_single_parameter get_string run_deleter
  delete_service_binding configuration r = do
    instance_id_of env r json_error
    namespace ← reads (namespace_of_instance env configuration r)
    instance_entry ← new_entry env Key.service_instance namespace r.instance_id true
    attempt (fail_if (not instance_entry.exists) (instance_missing r))
    binding_id_of r
    entry ← new_entry env Key.service_binding namespace r.binding_id false
    attempt (fail_if (not entry.exists) (resource_gone_error "service instance does not exist"))
    service_id ← attempt (get_single_parameter r "service_id")
    plan_id ← attempt (get_single_parameter r "plan_id")
    service ← key_or Key.service_id entry (unexpected "unable to lookup existing service ID")
    plan ← key_or Key.plan_id entry (unexpected "unable to lookup existing plan ID")
    same_or service_id service (does_not_match "service ID" service_id service)
    same_or plan_id plan (does_not_match "plan ID" plan_id plan)
    _ ← apply_with env json_error (run_deleter env) entry
    respond (response 200 empty_object)
