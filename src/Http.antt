-- ===== src/Http.antt =====
-- HTTP requests and responses as the handlers see them, pkg/api/types.go, and the errors that the
-- API reports (translateError of pkg/broker/util.go).
use service_broker_k8s.Base.{ℕ, String, Bool, true, false, Option, List, [], ◌∷◌, sprintf}
use service_broker_k8s.Base.Dict.{Dict}
use service_broker_k8s.Errors.{
  Error, configuration_error, query_error, parameter_error, validation_error, async_required_error,
  resource_conflict_error, resource_not_found_error, resource_gone_error, other, message, Result,
  ok, err,
}
use service_broker_k8s.Catalog.{ServiceCatalog}
use service_broker_k8s.Json.{Bytes}

-- `api.ErrorType`, as far as the broker reports it.
pub data ErrorType : Type 0 where
  async_required internal_server_error configuration query parameter validation : ErrorType
  resource_conflict resource_not_found resource_gone : ErrorType

-- `translateError`
unfoldable pub translate_error : Error → ℕ × ErrorType
translate_error (configuration_error _) = (400, configuration)
translate_error (query_error _) = (400, query)
translate_error (parameter_error _) = (400, parameter)
translate_error (validation_error _) = (400, validation)
translate_error (async_required_error _) = (422, async_required)
translate_error (resource_conflict_error _) = (409, resource_conflict)
translate_error (resource_not_found_error _) = (404, resource_not_found)
translate_error (resource_gone_error _) = (410, resource_gone)
translate_error (other _) = (500, internal_server_error)

-- A request: what `url.ParseQuery` makes of its query, where each name has one value at least,
-- and the parameters that the router took from its path, which are empty if they are missing.
pub record Request : Type 0 where
  pub path : String
  pub headers : Dict (List String)
  pub content_length : ℕ
  pub query : Result (Dict (List String))
  pub instance_id : String
  pub binding_id : String

-- A request's body, by how far `jsonRequest` gets with it.
pub data Body (A : Type 0) : Type 0 where
  unreadable : String → Body A
  unparsable : String → Body A
  parsed : A → Body A

-- `jsonRequest`
unfoldable pub json_request : {A : Type 0} → Body A → Result A
json_request (unreadable s) = err (other (sprintf ("unable to read body: " ∷ s ∷ [])))
json_request (unparsable s) =
    err (parameter_error (sprintf ("unable to unmarshal body: " ∷ s ∷ [])))
json_request (parsed a) = ok a

-- The fields of the requests that the handlers read. A pointer to a `runtime.RawExtension` may be
-- nil, and so may be the bytes that it holds.
pub record CreateServiceInstanceRequest : Type 0 where
  pub service_id : String
  pub plan_id : String
  pub context : Option (Option Bytes)
  pub parameters : Option (Option Bytes)

pub record UpdateServiceInstanceRequest : Type 0 where
  pub context : Option (Option Bytes)
  pub service_id : String
  pub plan_id : String
  pub parameters : Option (Option Bytes)

pub record CreateServiceBindingRequest : Type 0 where
  pub context : Option (Option Bytes)
  pub service_id : String
  pub plan_id : String
  pub parameters : Option (Option Bytes)

pub record LoginRequest : Type 0 where
  pub username : String
  pub password : String

pub data PollState : Type 0 where
  in_progress succeeded failed : PollState

-- What a handler sends: the JSON responses by their types, and bare status codes. A field that
-- `omitempty` leaves out is the empty text.
pub data Payload : Type 0 where
  no_content : Payload
  catalog_read : ServiceCatalog → Payload
  error_response : ErrorType → (description : String) → (instance_usable : Bool) → Payload
  instance_created : (dashboard_url operation : String) → Payload
  instance_updated : (operation : String) → Payload
  instance_read : (service_id plan_id : String) → Option Bytes → Payload
  instance_polled : PollState → (description : String) → Payload
  binding_accepted : (operation : String) → Payload
  binding_read : (credentials : Option Bytes) → Payload
  logged_in : (token : String) → Payload
  empty_object : Payload

-- One call of `JSONResponse` or `httpResponse`. A handler that does not return after an error
-- makes more than one.
pub record Response : Type 0 where
  pub status : ℕ
  pub payload : Payload

-- The responses of `jsonError` and `jsonErrorUsable`.
unfoldable pub json_error : Error → Response
unfolding translate_error message
json_error e =
    let (status, kind) = translate_error e in
    record { status = status; payload = error_response kind (message e) false }

unfoldable pub json_error_usable : Error → Response
unfolding translate_error message
json_error_usable e =
    let (status, kind) = translate_error e in
    record { status = status; payload = error_response kind (message e) true }
