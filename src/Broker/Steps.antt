-- ===== src/Broker/Steps.antt =====
-- The steps that the handlers of pkg/broker/handlers.go share.
pub mod Laws
use service_broker_k8s.Base.{
  ℕ, String, Bool, Option, none, some, [], ◌∷◌, ◌==◌, not, sprintf, or_default,
}
use service_broker_k8s.Errors.{Error, other, resource_conflict_error, query_error, fail_if}
use service_broker_k8s.Json.{Bytes, deep_equal}
use service_broker_k8s.Env.{Env}
use service_broker_k8s.Http.{json_error, Request, Response, Payload}
use service_broker_k8s.Registry.{Entry, new, get_string, get_raw}
use service_broker_k8s.Registry.Key
use service_broker_k8s.Operation.{Session}
use service_broker_k8s.Exec.{Exec}
use service_broker_k8s.Broker.Auth.{ServerConfiguration}
use service_broker_k8s.Broker.Directory.{get_directory_instance}
use service_broker_k8s.Broker.Handler.{
  respond, Handler, next, ◌>>=◌, ◌>>◌, done, attempt, attempt_with, required, reads, on_entry,
}

abbrev pub unexpected : String → Error
unexpected s = other (sprintf ("unexpected error: " ∷ s ∷ []))

abbrev pub response : (status : ℕ) → Payload → Response
response status payload = record { status = status; payload = payload }

-- `if value != wanted { jsonError(w, e); return }`
abbrev pub same_or : {S : Type 0} → String → String → Error → Handler S (Unit {0})
same_or value wanted e = attempt (fail_if (not (value == wanted)) e)

-- `if provided && value != wanted { jsonError(w, e); return }`
abbrev pub same_if_given :
    {S : Type 0} → Option String → String → (String → Error) → Handler S (Unit {0})
same_if_given none wanted e = done
same_if_given (some value) wanted e = same_or value wanted (e value)

-- A key of an entry that must be there.
abbrev pub key_or : {S : Type 0} → String → Entry → Error → Handler S String
key_or key entry e = do value ← attempt (get_string key entry); required value e

abbrev pub does_not_match : (what value wanted : String) → Error
does_not_match what value wanted =
    query_error (sprintf ("specified " ∷ what ∷ " " ∷ value ∷ " does not match " ∷ wanted ∷ []))

abbrev pub conflicts : (what value existing : String) → Error
conflicts what value existing =
    resource_conflict_error
      (sprintf (what ∷ " " ∷ value ∷ " does not match existing value " ∷ existing ∷ []))

abbrev pub give : {S A : Type 0} → A → Handler S A
give a c = (next a, c)

module _ (env : Env) where
  open env use {State}

  -- `registry.Get` of a raw extension that must be there.
  abbrev pub raw_or : String → Entry → Error → Handler State (Option Bytes)
  raw_or key entry e = do value ← attempt (get_raw env key entry); required value e

  -- `instance_id` of the path.
  abbrev pub instance_id_of : Request → (Error → Response) → Handler State (Unit {0})
  instance_id_of r f =
      attempt_with f
        (fail_if (r.instance_id == "") (unexpected "request missing instance_id parameter"))

  -- The directory entry's namespace.
  abbrev pub namespace_of_instance : ServerConfiguration → Request → State → String
  namespace_of_instance configuration r s =
      (get_directory_instance env configuration.namespace r.instance_id s).namespace

  -- `registry.New`
  abbrev pub new_entry : (t namespace name : String) → Bool → Handler State Entry
  new_entry t namespace name read_only = do
    found ← reads (λ s. new env t namespace name read_only s)
    attempt found

  -- An operation on an entry, where an error is reported with the response that is given; the
  -- entry after it.
  abbrev pub apply_with :
      (Error → Response) → Exec (Session env) (Unit {0}) → Entry → Handler State Entry
  apply_with f m entry = do
    (result, entry') ← on_entry env m entry
    attempt_with f result
    give entry'

  -- A raw extension of a request that is not the recorded one.
  abbrev pub differs : (what verb : String) → (new old : Option Bytes) → Error
  differs what verb new old = resource_conflict_error (
      sprintf
        (what ∷ env.format_raw new ∷ verb ∷ " not match existing value " ∷ env.format_raw old ∷ []))

  -- The checks that a request to create what exists already asks for the same: service, plan,
  -- context and parameters.
  unfoldable pub same_request :
      Entry
      → (service_id plan_id : String) → (context parameters : Option (Option Bytes))
      → Handler State (Unit {0})
  unfolding get_string get_raw deep_equal
  same_request entry service_id plan_id context parameters = do
    service ← key_or Key.service_id entry (unexpected "unable to lookup existing service ID")
    same_or service service_id (conflicts "service ID" service_id service)
    plan ← key_or Key.plan_id entry (unexpected "unable to lookup existing plan ID")
    same_or plan plan_id (conflicts "plan ID" plan_id plan)
    old_context ← raw_or Key.context entry (unexpected "unable to lookup existing context")
    attempt (
        fail_if (not (deep_equal (or_default context none) old_context))
          (differs "request context " " does" (or_default context none) old_context))
    old_parameters ← raw_or Key.parameters entry (unexpected "unable to lookup existing parameters")
    attempt (
        fail_if (not (deep_equal (or_default parameters none) old_parameters))
          (differs "request parameters " " do" (or_default parameters none) old_parameters))

  abbrev pub operation_id_if : Entry → Option String → Handler State (Option String)
  operation_id_if entry none = give none
  operation_id_if entry (some kind) = do
    same_or kind "provision"
        (resource_conflict_error (sprintf ("existing " ∷ kind ∷ " operation in progress" ∷ [])))
    id ← key_or Key.operation_id entry (unexpected "service instance missing operation ID")
    give (some id)

  -- The ID of the provisioning that is in progress, if one is; any other operation is a conflict.
  unfoldable pub provisioning_id : Entry → Handler State (Option String)
  unfolding get_string
  provisioning_id entry = do
    kind ← attempt (get_string Key.operation entry)
    operation_id_if entry kind

  -- A key of an entry that should be there: without it the error is sent, and the handler goes on
  -- with the empty text.
  abbrev pub or_empty : Error → Option String → Handler State String
  or_empty e none = do respond (json_error e); give ""
  or_empty e (some value) = give value

  abbrev pub key_or_empty : String → Entry → Error → Handler State String
  key_or_empty key entry e = do value ← attempt (get_string key entry); or_empty e value
