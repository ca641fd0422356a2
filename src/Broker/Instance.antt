-- ===== src/Broker/Instance.antt =====
-- pkg/broker/handlers.go: handleReadServiceInstance, handleUpdateServiceInstance,
-- handleDeleteServiceInstance and handlePollServiceInstance.
pub mod Polling
use service_broker_k8s.Base.{
  String, true, false, Option, none, some, ◌==◌, if◌then◌else◌, or_default, not, sprintf, [], ◌∷◌,
}
use service_broker_k8s.Errors.{
  Error, resource_not_found_error, resource_gone_error, parameter_error, query_error, fail_if,
}
use service_broker_k8s.Env.{Env}
use service_broker_k8s.Config.{ServiceBrokerConfig}
use service_broker_k8s.Http.{
  Request, Body, json_request, UpdateServiceInstanceRequest, json_error, json_error_usable,
  instance_created, instance_updated, instance_read, instance_polled, in_progress, succeeded,
  failed, empty_object,
}
use service_broker_k8s.Registry.{Entry, get_string, set_raw, clone}
use service_broker_k8s.Registry.Key
use service_broker_k8s.Operation.{update, deprovision, start, finish}
use service_broker_k8s.Provisioner.{instance_resource}
use service_broker_k8s.Provisioner.Updater.{new_updater, prepare_updater}
use service_broker_k8s.Broker.{
  async_required, mayget_single_parameter, get_single_parameter, validate_service_plan,
  validate_parameters, plan_updatable, instance_schema, update_schema,
}
use service_broker_k8s.Broker.Auth.{ServerConfiguration}
use service_broker_k8s.Broker.Directory.{delete_directory_instance}
use service_broker_k8s.Broker.Handler.{
  Handler, ◌>>=◌, ◌>>◌, done, respond, reply, attempt, attempt_usable, reads, writes, start_job,
  update_job, delete_job,
}
use service_broker_k8s.Broker.Steps.{
  unexpected, response, same_or, same_if_given, key_or, key_or_empty, does_not_match, raw_or,
  instance_id_of, namespace_of_instance, new_entry, apply_with,
}

module _ (env : Env) (configuration : ServerConfiguration) where
  open env use {State}

  abbrev must_exist : Entry → Error → Handler State (Unit {0})
  must_exist entry e = attempt (fail_if (not entry.exists) e)

  abbrev pub not_in_progress : Option String → Handler State (Unit {0})
  not_in_progress none = done
  not_in_progress (some op) =
      reply (json_error (parameter_error (sprintf (op ∷ " operation in progress" ∷ []))))

  -- `handleReadServiceInstance`
  unfoldable pub read_service_instance : Request → Handler State (Unit {0})
  unfolding mayget_single_parameter get_string
  read_service_instance r = do
    instance_id_of env r json_error
    namespace ← reads (namespace_of_instance env configuration r)
    entry ← new_entry env Key.service_instance namespace r.instance_id true
    must_exist entry (resource_not_found_error "service instance does not exist")
    service_id ← attempt (mayget_single_parameter r "service_id")
    plan_id ← attempt (mayget_single_parameter r "plan_id")
    service ← key_or Key.service_id entry (unexpected "unable to lookup existing service ID")
    plan ← key_or Key.plan_id entry (unexpected "unable to lookup existing plan ID")
    same_if_given service_id service (λ v. does_not_match "service ID" v service)
    same_if_given plan_id plan (λ v. does_not_match "plan ID" v plan)
    parameters ← raw_or env Key.parameters entry (unexpected "unable to lookup existing parameters")
    op ← attempt (get_string Key.operation entry)
    not_in_progress op
    reply (response 200 (instance_read service plan parameters))

  -- The plan that the request asks for, or the one that the instance has.
  abbrev pub new_plan_id : UpdateServiceInstanceRequest → String → String
  new_plan_id request plan_id = if request.plan_id == "" then plan_id else request.plan_id

  -- `handleUpdateServiceInstance`
  unfoldable pub update_service_instance :
      ServiceBrokerConfig → Request → Body UpdateServiceInstanceRequest → Handler State (Unit {0})
  unfolding async_required json_request get_string validate_service_plan plan_updatable
      validate_parameters set_raw prepare_updater start clone
  update_service_instance config r body = do
    attempt (async_required r)
    instance_id_of env r json_error_usable
    request ← attempt (json_request body)
    namespace ← reads (namespace_of_instance env configuration r)
    entry ← new_entry env Key.service_instance namespace r.instance_id false
    must_exist entry (resource_not_found_error "service instance does not exist")
    plan_id ← key_or Key.plan_id entry (unexpected "unable to lookup existing plan ID")
    attempt (validate_service_plan config request.service_id (new_plan_id request plan_id))
    attempt (plan_updatable config request.service_id plan_id (new_plan_id request plan_id))
    attempt_usable (
        validate_parameters env config request.service_id plan_id instance_schema update_schema
          request.parameters)
    recorded ← attempt (set_raw env Key.parameters (or_default request.parameters none) entry)
    prepared ← reads (λ s. prepare_updater env config (new_updater instance_resource) recorded s)
    updater ← attempt_usable prepared
    started ← apply_with env json_error (start env update) recorded
    start_job (update_job updater started)
    id ←
        key_or_empty env Key.operation_id (clone started)
          (unexpected "service instance missing operation ID")
    respond (response 202 (instance_updated id))

  -- `handleDeleteServiceInstance`
  unfoldable pub delete_service_instance : Request → Handler State (Unit {0})
  unfolding async_required get_single_parameter get_string delete_directory_instance start
  delete_service_instance r = do
    attempt (async_required r)
    instance_id_of env r json_error
    namespace ← reads (namespace_of_instance env configuration r)
    writes (λ s. (tt, delete_directory_instance env configuration.namespace r.instance_id s))
    entry ← new_entry env Key.service_instance namespace r.instance_id false
    must_exist entry (resource_gone_error "service instance does not exist")
    service_id ← attempt (get_single_parameter r "service_id")
    plan_id ← attempt (get_single_parameter r "plan_id")
    service ← key_or Key.service_id entry (unexpected "unable to lookup existing service ID")
    plan ← key_or Key.plan_id entry (unexpected "unable to lookup existing plan ID")
    same_or service_id service (does_not_match "service ID" service_id service)
    same_or plan_id plan (does_not_match "plan ID" plan_id plan)
    started ← apply_with env json_error (start env deprovision) entry
    start_job (delete_job started)
    id ←
        key_or_empty env Key.operation_id started
          (unexpected "service instance missing operation ID")
    respond (response 202 (instance_created "" id))

  abbrev provided_mismatch : String → String → String → Error
  provided_mismatch what value wanted =
      query_error (sprintf ("provided " ∷ what ∷ " " ∷ value ∷ " does not match " ∷ wanted ∷ []))

  abbrev pub missing_operation_id : Error
  missing_operation_id = unexpected "service instance missing operation ID"

  -- The end of a poll: an operation that has a status is ended, and its status reported.
  abbrev pub report : Entry → Option String → Handler State (Unit {0})
  report entry none =
      reply (response 200 (instance_polled in_progress "asynchronous provisioning in progress"))
  report entry (some status) = do
    _ ← apply_with env json_error (finish env) entry
    respond (
        response 200
          (if status == "" then instance_polled succeeded "" else instance_polled failed status))

  -- `handlePollServiceInstance`
  unfoldable pub poll_service_instance : Request → Handler State (Unit {0})
  unfolding mayget_single_parameter get_single_parameter get_string finish
  poll_service_instance r = do
    instance_id_of env r json_error
    namespace ← reads (namespace_of_instance env configuration r)
    entry ← new_entry env Key.service_instance namespace r.instance_id false
    (if entry.exists then done else reply (response 410 empty_object))
    service_id ← attempt (mayget_single_parameter r "service_id")
    plan_id ← attempt (mayget_single_parameter r "plan_id")
    operation_id ← attempt (get_single_parameter r "operation")
    service ← key_or_empty env Key.service_id entry missing_operation_id
    plan ← key_or_empty env Key.plan_id entry missing_operation_id
    id ← key_or_empty env Key.operation_id entry missing_operation_id
    same_if_given service_id service (λ v. provided_mismatch "service ID" v service)
    same_if_given plan_id plan (λ v. provided_mismatch "plan ID" v plan)
    same_or operation_id id (
        query_error
          (sprintf ("provided operation " ∷ operation_id ∷ " does not match operation " ∷ id ∷ [])))
    status ← attempt (get_string Key.operation_status entry)
    report entry status
