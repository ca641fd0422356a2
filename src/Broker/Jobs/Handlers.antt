-- ===== src/Broker/Jobs/Handlers.antt =====
-- The handlers of pkg/broker/handlers.go, and ServeHTTP: which jobs they start.
use service_broker_k8s.Base.{String, Option, none, some}
use service_broker_k8s.Env.{Env}
use service_broker_k8s.Config.{ServiceBrokerConfig}
use service_broker_k8s.Http.{
  Request, Body, CreateServiceInstanceRequest, UpdateServiceInstanceRequest,
  CreateServiceBindingRequest, LoginRequest,
}
use service_broker_k8s.Registry.{Entry}
use service_broker_k8s.Registry.Persistence.{KeepsSecrets}
use service_broker_k8s.Operation.{provision, update, deprovision}
use service_broker_k8s.Broker.Auth.{ServerConfiguration}
use service_broker_k8s.Broker.Create.{new_instance, create_service_instance}
use service_broker_k8s.Broker.Instance.{
  report, read_service_instance, update_service_instance, delete_service_instance,
  poll_service_instance,
}
use service_broker_k8s.Broker.Binding.{new_binding, create_service_binding, delete_service_binding}
use service_broker_k8s.Broker.Server.{
  Route, readyz, read_catalog, create_instance, read_instance, update_instance, delete_instance,
  poll_instance, create_binding, delete_binding, login, no_route, handle_login, serve_route,
  after_check, serve_http,
}
use service_broker_k8s.Broker.Auth.{Check, passed, refused, crashed}
use service_broker_k8s.Broker.Handler.{Handler}
use service_broker_k8s.Broker.Jobs.{
  StaysRecorded, StaysRecorded-IsKept, writes-Keeps, start_job-Keeps,
}
use service_broker_k8s.Broker.Handler.Keeps.{Keeps, keeps_rules}
use service_broker_k8s.Broker.Handler.Shared.{shared_rules}
use service_broker_k8s.Broker.Jobs.Starts.{start-Keeps}

module _ (env : Env) where
  open env use {State}

  report-Keeps :
      (configuration : ServerConfiguration) (e : Entry) (o : Option String)
      → Keeps StaysRecorded (report env configuration e o)
  report-Keeps configuration e none = search (StaysRecorded-IsKept, writes-Keeps, keeps_rules)
  report-Keeps configuration e (some status) =
      search (StaysRecorded-IsKept, writes-Keeps, keeps_rules) depth 20

  ruleset step_rules = (StaysRecorded-IsKept, writes-Keeps, report-Keeps, shared_rules)

  module _ (configuration : ServerConfiguration) (r : Request) where
    read_service_instance-Keeps : Keeps StaysRecorded (read_service_instance env configuration r)
    unfolding read_service_instance
    read_service_instance-Keeps = search step_rules depth 60 fits 4000

    poll_service_instance-Keeps : Keeps StaysRecorded (poll_service_instance env configuration r)
    unfolding poll_service_instance
    poll_service_instance-Keeps = search step_rules depth 60 fits 4000

    delete_service_binding-Keeps : Keeps StaysRecorded (delete_service_binding env configuration r)
    unfolding delete_service_binding
    delete_service_binding-Keeps = search step_rules depth 60 fits 4000

    new_binding-Keeps :
        (config : ServiceBrokerConfig) (request : CreateServiceBindingRequest)
        (instance_entry e : Entry)
        → Keeps StaysRecorded (new_binding env config r request instance_entry e)
    unfolding new_binding
    new_binding-Keeps config request instance_entry e = search step_rules depth 60 fits 4000

    create_service_binding-Keeps :
        (config : ServiceBrokerConfig) (body : Body CreateServiceBindingRequest)
        → Keeps StaysRecorded (create_service_binding env configuration config r body)
    unfolding create_service_binding
    create_service_binding-Keeps config body =
        search (step_rules, new_binding-Keeps) depth 60 fits 4000

    module _ (laws : KeepsSecrets env) where
      delete_service_instance-Keeps :
          Keeps StaysRecorded (delete_service_instance env configuration r)
      unfolding delete_service_instance
      delete_service_instance-Keeps =
          search (start-Keeps env laws deprovision, step_rules, start_job-Keeps) depth 60 fits 4000

      update_service_instance-Keeps :
          (config : ServiceBrokerConfig) (body : Body UpdateServiceInstanceRequest)
          → Keeps StaysRecorded (update_service_instance env configuration config r body)
      unfolding update_service_instance
      update_service_instance-Keeps config body =
          search (start-Keeps env laws update, step_rules, start_job-Keeps) depth 60 fits 4000

      new_instance-Keeps :
          (config : ServiceBrokerConfig) (request : CreateServiceInstanceRequest) (e : Entry)
          → Keeps StaysRecorded (new_instance env configuration config r request e)
      unfolding new_instance
      new_instance-Keeps config request e =
          search (start-Keeps env laws provision, step_rules, start_job-Keeps) depth 60 fits 4000

      create_service_instance-Keeps :
          (config : ServiceBrokerConfig) (body : Body CreateServiceInstanceRequest)
          → Keeps StaysRecorded (create_service_instance env configuration config r body)
      unfolding create_service_instance
      create_service_instance-Keeps config body =
          search (step_rules, new_instance-Keeps) depth 60 fits 4000

    handle_login-Keeps :
        (body : Body LoginRequest) → Keeps StaysRecorded (handle_login env configuration body)
    unfolding handle_login
    handle_login-Keeps body =
        search (StaysRecorded-IsKept, writes-Keeps, keeps_rules) depth 60 fits 4000

    serve_route-Keeps :
        (laws : KeepsSecrets env) (config : ServiceBrokerConfig) (route : Route)
        → Keeps StaysRecorded (serve_route env configuration config r route)
    unfolding serve_route
    serve_route-Keeps laws config readyz = search (StaysRecorded-IsKept, writes-Keeps, keeps_rules)
    serve_route-Keeps laws config read_catalog =
        search (StaysRecorded-IsKept, writes-Keeps, keeps_rules)
    serve_route-Keeps laws config (create_instance body) =
        create_service_instance-Keeps laws config body
    serve_route-Keeps laws config read_instance = read_service_instance-Keeps
    serve_route-Keeps laws config (update_instance body) =
        update_service_instance-Keeps laws config body
    serve_route-Keeps laws config delete_instance = delete_service_instance-Keeps laws
    serve_route-Keeps laws config poll_instance = poll_service_instance-Keeps
    serve_route-Keeps laws config (create_binding body) = create_service_binding-Keeps config body
    serve_route-Keeps laws config delete_binding = delete_service_binding-Keeps
    serve_route-Keeps laws config (login body) = handle_login-Keeps body
    serve_route-Keeps laws config no_route =
        search (StaysRecorded-IsKept, writes-Keeps, keeps_rules)

    after_check-Keeps :
        (check : Check) (h : Handler State (Unit {0}))
        → Keeps StaysRecorded h
        → Keeps StaysRecorded (after_check env check h)
    after_check-Keeps passed h kept = kept
    after_check-Keeps (refused status) h kept =
        search (StaysRecorded-IsKept, writes-Keeps, keeps_rules)
    after_check-Keeps crashed h kept = search (StaysRecorded-IsKept, writes-Keeps, keeps_rules)

    -- Whatever the request is and however it is answered, each job that it starts works on an entry
    -- that records the operation of the job in progress.
    pub serve_http-Keeps :
        (laws : KeepsSecrets env) (config : Option ServiceBrokerConfig) (route : Route)
        → Keeps StaysRecorded (serve_http env configuration config r route)
    unfolding serve_http
    serve_http-Keeps laws none route = search (StaysRecorded-IsKept, writes-Keeps, keeps_rules)
    serve_http-Keeps laws (some config) route =
        after_check-Keeps _ _ (serve_route-Keeps laws config route)
