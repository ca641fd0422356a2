-- ===== src/Broker/Guards/Bind.antt =====
-- handleCreateServiceBinding and handleDeleteServiceBinding of pkg/broker/handlers.go: when a binding
-- is made or removed.
use service_broker_k8s.Base.{String, true, false, ◌≡◌, ◌⊎◌, inl, inr, some, ◌==◌, not, Bool-cases}
use service_broker_k8s.Errors.{ok, fail_if}
use service_broker_k8s.Env.{Env}
use service_broker_k8s.Config.{ServiceBrokerConfig}
use service_broker_k8s.Registry.{Entry, new, get_string}
use service_broker_k8s.Registry.Key
use service_broker_k8s.Http.{Request, Body, json_request, json_error, CreateServiceBindingRequest}
use service_broker_k8s.Broker.{
  get_single_parameter, validate_service_plan, validate_parameters, verify_bindable, binding_schema,
  create_schema,
}
use service_broker_k8s.Broker.Auth.{ServerConfiguration}
use service_broker_k8s.Broker.Binding.{create_service_binding, delete_service_binding}
use service_broker_k8s.Broker.Handler.{Ctx}
use service_broker_k8s.Broker.Steps.{namespace_of_instance}
use service_broker_k8s.Broker.Handler.Rules.{Untouched, Untouched-IsKept}
use service_broker_k8s.Broker.Handler.Shared.{existing_binding-Keeps}
use service_broker_k8s.Broker.Guards.{true_of_passed, eq_of_passed, try, try_lookup}

module _ (env : Env) (configuration : ServerConfiguration) where
  abbrev namespace_at : Request → env.State → String
  namespace_at r s = namespace_of_instance env configuration r s

  -- What must hold of a request to bind an instance before anything changes.
  pub record IsBindable (config : ServiceBrokerConfig) (r : Request)
      (body : Body CreateServiceBindingRequest) (s : env.State) : Type 0 where
    pub request : CreateServiceBindingRequest
    pub instance_entry : Entry
    pub entry : Entry
    pub readable : json_request body ≡ ok request
    pub offered : validate_service_plan config request.service_id request.plan_id ≡ ok tt
    pub bindable : verify_bindable config request.service_id request.plan_id ≡ ok tt
    pub conforming :
        validate_parameters env config request.service_id request.plan_id binding_schema
          create_schema request.parameters
        ≡ ok tt
    pub has_instance :
        new env Key.service_instance (namespace_at r s) r.instance_id true s ≡ ok instance_entry
    pub exists : instance_entry.exists ≡ true
    pub looked_up : new env Key.service_binding (namespace_at r s) r.binding_id false s ≡ ok entry
    pub absent : entry.exists ≡ false

  -- A request to bind an instance changes nothing outside the broker and starts no job unless its
  -- body can be read, the configuration offers the service and the plan and says that the plan can
  -- be bound to, by the plan's word or, where it has none, by that of its service, the parameters
  -- conform to the schema of bindings, the instance exists where its directory entry says, and the
  -- binding does not exist there yet.
  pub create_service_binding-guards :
      (config : ServiceBrokerConfig) (r : Request) (body : Body CreateServiceBindingRequest)
      (c : Ctx env.State)
      → Untouched c (create_service_binding env configuration config r body c).1
        ⊎ IsBindable config r body c.outside
  unfolding create_service_binding
  create_service_binding-guards config r body c =
      let P = IsBindable config r body c.outside in
      let s = c.outside in
      let ns = namespace_at r s in
      try P _ c json_error (json_request body) λ request readable.
        try P _ c json_error (fail_if (r.instance_id == "") _) λ u1 named.
          try P _ c json_error (fail_if (r.binding_id == "") _) λ u2 identified.
            try P _ c json_error (validate_service_plan config request.service_id request.plan_id)
              λ u3 offered.
                try P _ c json_error (verify_bindable config request.service_id request.plan_id)
                  λ u4 bindable.
                    try P _ c json_error
                      (validate_parameters env config request.service_id request.plan_id
                        binding_schema create_schema request.parameters)
                      λ u5 conforming.
                        try P _ c json_error (new env Key.service_instance ns r.instance_id true s)
                          λ instance_entry has_instance.
                            try P _ c json_error (fail_if (not instance_entry.exists) _)
                              λ u6 exists.
                                try P _ c json_error
                                  (new env Key.service_binding ns r.binding_id false s)
                                  λ entry looked_up. elim (Bool-cases entry.exists) [
                                    | inl bound ↦ inl (
                                        rw bound (
                                          (existing_binding-Keeps env Untouched Untouched-IsKept
                                              request entry).at
                                            c))
                                    | inr absent ↦ inr (record {
                                      request = request;
                                      instance_entry = instance_entry;
                                      entry = entry;
                                      readable = readable;
                                      offered = offered;
                                      bindable = bindable;
                                      conforming = conforming;
                                      has_instance = has_instance;
                                      exists = true_of_passed instance_entry.exists _ exists;
                                      looked_up = looked_up;
                                      absent = absent;
                                    })
                                  ]

  -- What must hold of a request to unbind before anything changes.
  pub record IsUnbindable (r : Request) (s : env.State) : Type 0 where
    pub instance_entry : Entry
    pub entry : Entry
    pub service : String
    pub plan : String
    pub has_instance :
        new env Key.service_instance (namespace_at r s) r.instance_id true s ≡ ok instance_entry
    pub instance_exists : instance_entry.exists ≡ true
    pub found : new env Key.service_binding (namespace_at r s) r.binding_id false s ≡ ok entry
    pub exists : entry.exists ≡ true
    pub given_service : get_single_parameter r "service_id" ≡ ok service
    pub same_service : get_string Key.service_id entry ≡ ok (some service)
    pub given_plan : get_single_parameter r "plan_id" ≡ ok plan
    pub same_plan : get_string Key.plan_id entry ≡ ok (some plan)

  -- A request to unbind changes nothing outside the broker and starts no job unless the instance
  -- and the binding exist where the directory entry of the instance says, and the service and the
  -- plan that the query names are those that are recorded of the binding.
  pub delete_service_binding-guards :
      (r : Request) (c : Ctx env.State)
      → Untouched c (delete_service_binding env configuration r c).1 ⊎ IsUnbindable r c.outside
  unfolding delete_service_binding
  delete_service_binding-guards r c =
      let P = IsUnbindable r c.outside in
      let s = c.outside in
      let ns = namespace_at r s in
      try P _ c json_error (fail_if (r.instance_id == "") _) λ u1 named.
        try P _ c json_error (new env Key.service_instance ns r.instance_id true s)
          λ instance_entry has_instance.
            try P _ c json_error (fail_if (not instance_entry.exists) _) λ u2 instance_exists.
              try P _ c json_error (fail_if (r.binding_id == "") _) λ u3 identified.
                try P _ c json_error (new env Key.service_binding ns r.binding_id false s)
                  λ entry found. try P _ c json_error (fail_if (not entry.exists) _) λ u4 exists.
                    try P _ c json_error (get_single_parameter r "service_id") λ service_id given_s.
                      try P _ c json_error (get_single_parameter r "plan_id") λ plan_id given_p.
                        try_lookup P _ c (get_string Key.service_id entry) _ λ service has_s.
                          try_lookup P _ c (get_string Key.plan_id entry) _ λ plan has_p.
                            try P _ c json_error (fail_if (not (service_id == service)) _)
                              λ u5 same_s.
                                try P _ c json_error (fail_if (not (plan_id == plan)) _)
                                  λ u6 same_p. inr (record {
                                    instance_entry = instance_entry;
                                    entry = entry;
                                    service = service_id;
                                    plan = plan_id;
                                    has_instance = has_instance;
                                    instance_exists =
                                        true_of_passed instance_entry.exists _ instance_exists;
                                    found = found;
                                    exists = true_of_passed entry.exists _ exists;
                                    given_service = given_s;
                                    same_service =
                                        cc (has_s, eq_of_passed service_id service _ same_s);
                                    given_plan = given_p;
                                    same_plan = cc (has_p, eq_of_passed plan_id plan _ same_p);
                                  })
