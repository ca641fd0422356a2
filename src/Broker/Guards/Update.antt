-- ===== src/Broker/Guards/Update.antt =====
-- handleUpdateServiceInstance of pkg/broker/handlers.go: when an update is started.
use service_broker_k8s.Base.{String, true, false, ◌≡◌, ◌⊎◌, inr, none, some, ◌==◌, not, or_default}
use service_broker_k8s.Errors.{ok, fail_if}
use service_broker_k8s.Env.{Env}
use service_broker_k8s.Config.{ServiceBrokerConfig}
use service_broker_k8s.Registry.{Entry, new, get_string, set_raw}
use service_broker_k8s.Registry.Key
use service_broker_k8s.Http.{
  Request, Body, json_request, json_error, json_error_usable, UpdateServiceInstanceRequest,
}
use service_broker_k8s.Provisioner.{instance_resource}
use service_broker_k8s.Provisioner.Updater.{Updater, new_updater, prepare_updater}
use service_broker_k8s.Broker.{
  async_required, validate_service_plan, plan_updatable, validate_parameters, instance_schema,
  update_schema,
}
use service_broker_k8s.Broker.Auth.{ServerConfiguration}
use service_broker_k8s.Broker.Instance.{update_service_instance, new_plan_id}
use service_broker_k8s.Broker.Handler.{Ctx}
use service_broker_k8s.Broker.Steps.{namespace_of_instance}
use service_broker_k8s.Broker.Handler.Rules.{Untouched}
use service_broker_k8s.Broker.Guards.{true_of_passed, try, try_lookup}

module _ (env : Env) (configuration : ServerConfiguration) (config : ServiceBrokerConfig) where
  -- What must hold of a request to update an instance before anything changes: `chosen` is the plan
  -- that the request names, or the recorded one.
  pub record IsUpdatable (r : Request) (body : Body UpdateServiceInstanceRequest) (s : env.State)
      : Type 0 where
    pub request : UpdateServiceInstanceRequest
    pub entry : Entry
    pub plan : String
    pub recorded : Entry
    pub updater : Updater
    pub accepts_incomplete : async_required r ≡ ok tt
    pub readable : json_request body ≡ ok request
    pub found :
        new env Key.service_instance
          (namespace_of_instance env configuration r s)
          r.instance_id
          false
          s
        ≡ ok entry
    pub exists : entry.exists ≡ true
    pub has_plan : get_string Key.plan_id entry ≡ ok (some plan)
    pub offered :
        validate_service_plan config request.service_id (new_plan_id env configuration request plan)
        ≡ ok tt
    pub updatable :
        plan_updatable config request.service_id plan (new_plan_id env configuration request plan)
        ≡ ok tt
    pub conforming :
        validate_parameters env config request.service_id plan instance_schema update_schema
          request.parameters
        ≡ ok tt
    pub written :
        set_raw env Key.parameters (or_default request.parameters none) entry ≡ ok recorded
    pub prepared :
        prepare_updater env config (new_updater instance_resource) recorded s ≡ ok updater

  -- An update changes nothing outside the broker and starts no job unless the client accepts an
  -- asynchronous answer, the instance exists and has a plan, the plan that it is to have is offered
  -- and may replace this one, the parameters conform to the schema of the recorded plan, and the
  -- changes of every resource can be prepared.
  pub update_service_instance-guards :
      (r : Request) (body : Body UpdateServiceInstanceRequest) (c : Ctx env.State)
      → Untouched c (update_service_instance env configuration config r body c).1
        ⊎ IsUpdatable r body c.outside
  unfolding update_service_instance
  update_service_instance-guards r body c =
      let P = IsUpdatable r body c.outside in
      let s = c.outside in
      let ns = namespace_of_instance env configuration r s in
      try P _ c json_error (async_required r) λ u1 accepts.
        try P _ c json_error_usable (fail_if (r.instance_id == "") _) λ u2 named.
          try P _ c json_error (json_request body) λ request readable.
            try P _ c json_error (new env Key.service_instance ns r.instance_id false s)
              λ entry found. try P _ c json_error (fail_if (not entry.exists) _) λ u3 exists.
                try_lookup P _ c (get_string Key.plan_id entry) _ λ plan has_plan.
                  try P _ c json_error
                    (validate_service_plan config request.service_id
                      (new_plan_id env configuration request plan))
                    λ u4 offered.
                      try P _ c json_error
                        (plan_updatable config request.service_id plan
                          (new_plan_id env configuration request plan))
                        λ u5 updatable.
                          try P _ c json_error_usable
                            (validate_parameters env config request.service_id plan instance_schema
                              update_schema request.parameters)
                            λ u6 conforming.
                              try P _ c json_error
                                (set_raw env Key.parameters (or_default request.parameters none)
                                  entry)
                                λ recorded written.
                                  try P _ c json_error_usable
                                    (prepare_updater env config (new_updater instance_resource)
                                      recorded s)
                                    λ updater prepared. inr (record {
                                      request = request;
                                      entry = entry;
                                      plan = plan;
                                      recorded = recorded;
                                      updater = updater;
                                      accepts_incomplete = accepts;
                                      readable = readable;
                                      found = found;
                                      exists = true_of_passed entry.exists _ exists;
                                      has_plan = has_plan;
                                      offered = offered;
                                      updatable = updatable;
                                      conforming = conforming;
                                      written = written;
                                      prepared = prepared;
                                    })
