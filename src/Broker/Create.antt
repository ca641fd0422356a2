-- ===== src/Broker/Create.antt =====
-- pkg/broker/handlers.go: handleCreateServiceInstance.
pub mod Repeat
pub mod Existing
pub mod Starts
use service_broker_k8s.Base.{String, false, Option, none, some, if◌then◌else◌, or_default, ℕ}
use service_broker_k8s.Env.{Env}
use service_broker_k8s.Config.{ServiceBrokerConfig}
use service_broker_k8s.Http.{
  Request, Body, json_request, CreateServiceInstanceRequest, json_error, instance_created,
}
use service_broker_k8s.Registry.{Entry, get_string, clone}
use service_broker_k8s.Registry.Key
use service_broker_k8s.Operation.{provision, start, commit_entry}
use service_broker_k8s.Provisioner.{instance_resource}
use service_broker_k8s.Provisioner.Creator.{new_creator}
use service_broker_k8s.Provisioner.Prepare.{prepare_creator}
use service_broker_k8s.Broker.{
  async_required, validate_service_plan, validate_parameters, get_namespace, instance_schema,
  create_schema,
}
use service_broker_k8s.Broker.Auth.{ServerConfiguration, authorize}
use service_broker_k8s.Broker.Directory.{register_directory_instance}
use service_broker_k8s.Broker.Record.{instance_record}
use service_broker_k8s.Broker.Handler.{
  Handler, ◌>>=◌, ◌>>◌, reply, attempt, reads, writes, start_job, create_job,
}
use service_broker_k8s.Broker.Steps.{
  unexpected, response, key_or, instance_id_of, new_entry, apply_with, same_request,
  provisioning_id,
}

module _ (env : Env) where
  open env use {State}

  -- 202 while the instance is provisioned, and 200 afterwards.
  abbrev created_status : Option String → ℕ
  created_status none = 200
  created_status (some _) = 202

  -- The instance exists already: the request must ask for the same.
  unfoldable pub existing_instance : CreateServiceInstanceRequest → Entry → Handler State (Unit {0})
  unfolding same_request provisioning_id get_string
  existing_instance request entry = do
    same_request env entry request.service_id request.plan_id request.context request.parameters
    id ← provisioning_id env entry
    dashboard ← attempt (get_string Key.dashboard_url entry)
    reply (
        response (created_status id)
          (instance_created (or_default dashboard "") (or_default id "")))

  -- The instance is new: it is recorded, prepared, and provisioned in the background.
  unfoldable pub new_instance :
      ServerConfiguration
      → ServiceBrokerConfig
      → Request
      → CreateServiceInstanceRequest
      → Entry
      → Handler State (Unit {0})
  unfolding get_namespace instance_record prepare_creator start get_string clone
  new_instance configuration config r request entry = do
    namespace ← attempt (get_namespace env request.context configuration.namespace)
    recorded ← attempt (
        instance_record env namespace r.instance_id request.service_id request.plan_id
          request.context request.parameters entry)
    committed ← apply_with env json_error (commit_entry env) recorded
    (prepared, provisioner) ←
        attempt (prepare_creator env config (new_creator instance_resource) committed)
    started ← apply_with env json_error (start env provision) prepared
    start_job (create_job provisioner started)
    id ←
        key_or Key.operation_id (clone started) (unexpected "service instance missing operation ID")
    dashboard ← attempt (get_string Key.dashboard_url (clone started))
    reply (response 202 (instance_created (or_default dashboard "") id))

  abbrev pub create_or_match :
      ServerConfiguration
      → ServiceBrokerConfig
      → Request
      → CreateServiceInstanceRequest
      → Entry
      → Handler State (Unit {0})
  create_or_match configuration config r request entry =
      if entry.exists
      then existing_instance request entry
      else new_instance configuration config r request entry

  -- `handleCreateServiceInstance`
  unfoldable pub create_service_instance :
      ServerConfiguration
      → ServiceBrokerConfig
      → Request
      → Body CreateServiceInstanceRequest
      → Handler State (Unit {0})
  unfolding async_required json_request authorize validate_service_plan validate_parameters
      register_directory_instance existing_instance new_instance
  create_service_instance configuration config r body = do
    attempt (async_required r)
    request ← attempt (json_request body)
    authorized ← reads (λ s. authorize env configuration r request.service_id request.plan_id s)
    attempt authorized
    instance_id_of env r json_error
    attempt (validate_service_plan config request.service_id request.plan_id)
    attempt (
        validate_parameters env config request.service_id request.plan_id instance_schema
          create_schema request.parameters)
    registered ← writes (
        register_directory_instance env config request.context configuration.namespace r.instance_id
          request.service_id request.plan_id)
    dirent ← attempt registered
    entry ← new_entry env Key.service_instance dirent.namespace r.instance_id false
    create_or_match configuration config r request entry
