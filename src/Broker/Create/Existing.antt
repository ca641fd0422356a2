-- ===== src/Broker/Create/Existing.antt =====
-- handleCreateServiceInstance of pkg/broker/handlers.go: the whole handler for an instance that
-- exists. It has written the directory entry of the instance before it looks.
use service_broker_k8s.Base.{
  String, true, false, ◌≡◌, ◌≢◌, ◌∙◌, refl, Option, or_default, test_of_ne,
}
use service_broker_k8s.Errors.{ok, resource_conflict_error}
use service_broker_k8s.Env.{Env}
use service_broker_k8s.Config.{ServiceBrokerConfig}
use service_broker_k8s.Http.{
  Request, Body, json_request, json_error, CreateServiceInstanceRequest, instance_created,
}
use service_broker_k8s.Registry.{Entry, get_string, new}
use service_broker_k8s.Registry.Key
use service_broker_k8s.Registry.Directory.{DirectoryEntry}
use service_broker_k8s.Operation.Phases.{InPhase}
use service_broker_k8s.Broker.{
  async_required, validate_service_plan, validate_parameters, instance_schema, create_schema,
}
use service_broker_k8s.Broker.Auth.{ServerConfiguration, authorize}
use service_broker_k8s.Broker.Directory.{register_directory_instance}
use service_broker_k8s.Broker.Create.{existing_instance, create_service_instance}
use service_broker_k8s.Broker.Create.Repeat.{
  Records, phase_of, status_for, existing_instance-repeated, HasKeys, Differs,
  existing_instance-IsConflict,
}
use service_broker_k8s.Broker.Handler.{Ctx, returned, answered}
use service_broker_k8s.Broker.Steps.{response}

module _ (env : Env) (configuration : ServerConfiguration) (config : ServiceBrokerConfig)
    (r : Request) (body : Body CreateServiceInstanceRequest) where
  -- A request that passes the checks of the handler, whose directory entry is written, and whose
  -- instance is then found to exist; `s'` is the state after the write.
  pub record Finds (request : CreateServiceInstanceRequest) (entry : Entry) (s s' : env.State)
      : Type 0 where
    pub dirent : DirectoryEntry
    pub accepts_incomplete : async_required r ≡ ok tt
    pub readable : json_request body ≡ ok request
    pub authorized : authorize env configuration r request.service_id request.plan_id s ≡ ok tt
    pub named : r.instance_id ≢ ""
    pub offered : validate_service_plan config request.service_id request.plan_id ≡ ok tt
    pub conforming :
        validate_parameters env config request.service_id request.plan_id instance_schema
          create_schema request.parameters
        ≡ ok tt
    pub registered :
        register_directory_instance env config request.context configuration.namespace r.instance_id
          request.service_id request.plan_id s
        ≡ (ok dirent, s')
    pub found : new env Key.service_instance dirent.namespace r.instance_id false s' ≡ ok entry
    pub exists : entry.exists ≡ true

  create_service_instance_existing :
      (request : CreateServiceInstanceRequest) (entry : Entry) (c : Ctx env.State) (s' : env.State)
      → Finds request entry c.outside s'
      → create_service_instance env configuration config r body c
        ≡ existing_instance env request entry (record c { outside = s' })
  unfolding create_service_instance
  create_service_instance_existing request entry c s' x =
      rw
        (
          x.accepts_incomplete,
          x.readable,
          x.authorized,
          test_of_ne x.named,
          x.offered,
          x.conforming,
          x.registered,
          x.found,
          x.exists,
        )
        refl

  -- A request that passes the checks, and whose instance exists with the same service and plan and
  -- with the context and the parameters of the request byte for byte as the registry gives them
  -- back, is accepted again: with 200 where no operation is in progress, and with 202 and the ID of
  -- the provisioning while one is recorded. All that it writes is the directory entry, and it starts
  -- no job.
  pub create_service_instance-repeated :
      (request : CreateServiceInstanceRequest) (entry : Entry) (c : Ctx env.State) (s' : env.State)
      (url id : Option String)
      → Finds request entry c.outside s'
      → Records env request entry
      → get_string Key.dashboard_url entry ≡ ok url
      → InPhase (phase_of env id) entry
      → create_service_instance env configuration config r body c ≡ (
        returned,
        answered
            (response (status_for env id) (instance_created (or_default url "") (or_default id "")))
            s'
            c,
      )
  create_service_instance-repeated request entry c s' url id x held dashboard phase =
      create_service_instance_existing request entry c s' x
      ∙ existing_instance-repeated env request entry (record c { outside = s' }) url id held
          dashboard phase

  -- A request that passes the checks, and whose instance exists with another service, plan, context
  -- or parameters, these as bytes, or with another operation in progress than its provisioning, is
  -- answered with one response, which is a conflict. All that it writes is the directory entry, and
  -- it starts no job.
  pub create_service_instance-conflicts :
      (request : CreateServiceInstanceRequest) (entry : Entry) (keys : HasKeys env entry)
      (c : Ctx env.State) (s' : env.State)
      → Finds request entry c.outside s'
      → Differs env request entry keys
      → (text : String) × (create_service_instance env configuration config r body c
          ≡ (returned, answered (json_error (resource_conflict_error text)) s' c))
  create_service_instance-conflicts request entry keys c s' x other =
      let (text, answers) =
        existing_instance-IsConflict env request entry keys (record c { outside = s' }) other in
      (text, create_service_instance_existing request entry c s' x ∙ answers)
