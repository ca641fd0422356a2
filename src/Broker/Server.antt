-- ===== src/Broker/Server.antt =====
-- pkg/broker/broker.go: ServeHTTP and the routes; handleLogin of pkg/broker/handlers.go.
use service_broker_k8s.Base.{String, Bool, Option, none, some, ◌==◌, ◌||◌, not, if◌then◌else◌}
use service_broker_k8s.Errors.{parameter_error, fail_if}
use service_broker_k8s.Env.{Env}
use service_broker_k8s.Config.{ServiceBrokerConfig}
use service_broker_k8s.Http.{
  Request, Body, json_request, CreateServiceInstanceRequest, UpdateServiceInstanceRequest,
  CreateServiceBindingRequest, LoginRequest, no_content, logged_in, catalog_read,
}
use service_broker_k8s.Catalog.{convert_catalog}
use service_broker_k8s.Broker.Auth.{
  ServerConfiguration, Check, passed, refused, crashed, check_request_headers, secret_of,
}
use service_broker_k8s.Broker.Create.{create_service_instance}
use service_broker_k8s.Broker.Instance.{
  read_service_instance, update_service_instance, delete_service_instance, poll_service_instance,
}
use service_broker_k8s.Broker.Binding.{create_service_binding, delete_service_binding}
use service_broker_k8s.Broker.Handler.{
  Handler, panicked, ◌>>=◌, ◌>>◌, respond, reply, attempt, reads,
}
use service_broker_k8s.Broker.Steps.{response}

-- What the router makes of the method and the path of a request, with the body of the handler.
pub data Route : Type 0 where
  readyz : Route
  read_catalog : Route
  create_instance : Body CreateServiceInstanceRequest → Route
  read_instance : Route
  update_instance : Body UpdateServiceInstanceRequest → Route
  delete_instance : Route
  poll_instance : Route
  create_binding : Body CreateServiceBindingRequest → Route
  delete_binding : Route
  login : Body LoginRequest → Route
  no_route : Route

-- The paths that are served without a check of the headers.
unfoldable pub is_open_path : String → Bool
is_open_path path = path == "/readyz" || path == "/login" || path == "/register"

module _ (env : Env) where
  open env use {State, has_user, jwt_sign, sha256_hex}

  -- `handleLogin`
  unfoldable pub handle_login : ServerConfiguration → Body LoginRequest → Handler State (Unit {0})
  unfolding json_request
  handle_login configuration body = do
    request ← attempt (json_request body)
    attempt (
        fail_if (request.username == "" || request.password == "")
          (parameter_error "username or password is empty"))
    secret ← attempt (secret_of env configuration.advanced_token)
    found ← reads (λ s. has_user request.username (sha256_hex request.password) s)
    exists ← attempt found
    attempt (fail_if (not exists) (parameter_error "username or password is incorrect"))
    token ← attempt (jwt_sign request.username secret)
    respond (response 200 (logged_in token))

  -- The handler of a route; the router answers 404 where there is none.
  unfoldable pub serve_route :
      ServerConfiguration → ServiceBrokerConfig → Request → Route → Handler State (Unit {0})
  unfolding create_service_instance read_service_instance update_service_instance
      delete_service_instance poll_service_instance create_service_binding delete_service_binding
      handle_login convert_catalog
  serve_route configuration config r readyz = respond (response 200 no_content)
  serve_route configuration config r read_catalog =
      respond (response 200 (catalog_read (convert_catalog config.catalog)))
  serve_route configuration config r (create_instance body) =
      create_service_instance env configuration config r body
  serve_route configuration config r read_instance = read_service_instance env configuration r
  serve_route configuration config r (update_instance body) =
      update_service_instance env configuration config r body
  serve_route configuration config r delete_instance = delete_service_instance env configuration r
  serve_route configuration config r poll_instance = poll_service_instance env configuration r
  serve_route configuration config r (create_binding body) =
      create_service_binding env configuration config r body
  serve_route configuration config r delete_binding = delete_service_binding env configuration r
  serve_route configuration config r (login body) = handle_login configuration body
  serve_route configuration config r no_route = respond (response 404 no_content)

  abbrev pub after_check : Check → Handler State (Unit {0}) → Handler State (Unit {0})
  after_check passed h = h
  after_check (refused status) h = reply (response status no_content)
  after_check crashed h = λ c. (panicked, c)

  abbrev serve_ready :
      ServerConfiguration → ServiceBrokerConfig → Request → Route → Handler State (Unit {0})
  serve_ready configuration config r route =
      after_check
        (if is_open_path r.path then passed else check_request_headers env configuration r)
        (serve_route configuration config r route)

  -- `ServeHTTP`; there is no configuration until a valid one is seen.
  unfoldable pub serve_http :
      ServerConfiguration → Option ServiceBrokerConfig → Request → Route → Handler State (Unit {0})
  unfolding serve_route is_open_path check_request_headers
  serve_http configuration none r route = reply (response 503 no_content)
  serve_http configuration (some config) r route = serve_ready configuration config r route
