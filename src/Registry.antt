-- ===== src/Registry.antt =====
-- pkg/registry/registry.go: a registry entry is a key-value store in a Kubernetes secret, with one
-- JSON text for each key.
pub mod Key
pub mod Values
pub mod Permissions
pub mod Persistence
pub mod Directory
use service_broker_k8s.Base.{
  String, Bool, true, false, Option, none, some, List, [], ◌∷◌, ◌==◌, if◌then◌else◌, sprintf,
}
use service_broker_k8s.Base.Dict.{Dict, lookup, insert, remove, merge}
use service_broker_k8s.Errors.{
  Result, ok, err, panic, other, configuration_error, fail_if, ◌>>=◌, ◌>>◌,
}
use service_broker_k8s.Exec.{Exec}
use service_broker_k8s.Json.{
  Json, Bytes, marshal, unmarshal, unmarshal_string, compact, check_valid,
}
use service_broker_k8s.Env.{
  Secret, Answer, answer, not_found, already_exists, failed, OwnerReference, to_result, Env,
}

pub record KeyPolicy : Type 0 where
  pub name : String
  pub read : Bool
  pub write : Bool

abbrev policy : String → Bool → Bool → KeyPolicy
policy name read write = record { name = name; read = read; write = write }

unfoldable pub key_policies : List KeyPolicy
key_policies =
    policy Key.namespace true false
    ∷ policy Key.instance_id true false
    ∷ policy Key.service_id true false
    ∷ policy Key.plan_id true false
    ∷ policy Key.context false false
    ∷ policy Key.parameters false false
    ∷ policy Key.operation false false
    ∷ policy Key.operation_id false false
    ∷ policy Key.operation_status false false
    ∷ policy Key.dashboard_url true true
    ∷ policy Key.credentials true true
    ∷ []

unfoldable pub find_key_policy : String → List KeyPolicy → Option KeyPolicy
find_key_policy name [] = none
find_key_policy name (p ∷ ps) = if p.name == name then some p else find_key_policy name ps

unfoldable pub is_key_readable : String → Bool
is_key_readable name = elim (find_key_policy name key_policies) [ none ↦ true | some p ↦ p.read ]

unfoldable pub is_key_writable : String → Bool
is_key_writable name = elim (find_key_policy name key_policies) [ none ↦ true | some p ↦ p.write ]

pub record Entry : Type 0 where
  pub secret : Secret
  pub exists : Bool
  pub read_only : Bool

-- `Name`
unfoldable pub resource_name : String → String → String
unfolding sprintf
resource_name t name = sprintf ("registry-" ∷ t ∷ "-" ∷ name ∷ [])

-- `Clone`
unfoldable pub clone : Entry → Entry
clone e = record { secret = e.secret; exists = e.exists; read_only = true }

abbrev pub with_data : Entry → Dict Bytes → Entry
with_data e d = record e { secret = record (e.secret) { data_map = some d } }

abbrev pub data_or_empty : Option (Dict Bytes) → Dict Bytes
data_or_empty none = []
data_or_empty (some d) = d

-- `e.Inherit(o)`
unfoldable pub inherit : Entry → Entry → Entry
inherit e o = elim (o.secret.data_map) [
  | none ↦ e
  | some src ↦ with_data e (merge src (data_or_empty e.secret.data_map))
]

-- The bytes of a key.
unfoldable pub find : String → Entry → Option Bytes
find key e = elim (e.secret.data_map) [ none ↦ none | some d ↦ lookup key d ]

abbrev pub decoded {ℓ} : {A : Type ℓ} → (Bytes → Result A) → Option Bytes → Result (Option A)
decoded decode none = ok none
decoded decode (some b) = elim (decode b) [ ok a ↦ ok (some a) | err e ↦ err e | panic ↦ panic ]

-- `Get`, with the `json.Unmarshal` of the type of its destination; a missing key is `none`.
unfoldable pub get {ℓ} : {A : Type ℓ} → (Bytes → Result A) → String → Entry → Result (Option A)
unfolding find
get decode key e = decoded decode (find key e)

unfoldable pub get_string : String → Entry → Result (Option String)
unfolding get unmarshal_string
get_string key e = get unmarshal_string key e

-- `Set`, with the `json.Marshal` of its value.
unfoldable pub set : String → Result Bytes → Entry → Result Entry
set key encoded e = do
  b ← encoded
  ok (with_data e (insert key b (data_or_empty e.secret.data_map)))

unfoldable pub set_string : String → String → Entry → Result Entry
unfolding set marshal
set_string key s e = set key (ok (marshal (Json.str s))) e

unfoldable pub get_user : String → Entry → Result (Option Json)
unfolding get unmarshal is_key_readable
get_user key e = do
  fail_if (if is_key_readable key then false else true)
      (configuration_error (sprintf ("registry key " ∷ key ∷ " cannot be read" ∷ [])))
  get unmarshal key e

unfoldable pub set_user : String → Json → Entry → Result Entry
unfolding set marshal is_key_writable
set_user key value e = do
  fail_if (if is_key_writable key then false else true)
      (configuration_error (sprintf ("registry key " ∷ key ∷ " cannot be written" ∷ [])))
  set key (ok (marshal value)) e

-- `Unset`; `delete` on a nil map does nothing.
unfoldable pub unset : String → Entry → Entry
unset key e = elim (e.secret.data_map) [ none ↦ e | some d ↦ with_data e (remove key d) ]

unfoldable pub get_owner_reference : Entry → OwnerReference
get_owner_reference e = record {
  api_version = "v1";
  kind = "Secret";
  name = e.secret.name;
  uid = e.secret.uid;
}

abbrev read_only_error : Result (Unit {0})
read_only_error = err (other "permission error: registry entry is read only")

module _ (env : Env) where
  open env use {
    application, version, State, get_secret, create_secret, update_secret, delete_secret,
    raw_marshal_json, raw_unmarshal_json,
  }

  -- `Get` and `Set` of a `runtime.RawExtension`.
  unfoldable pub get_raw : String → Entry → Result (Option (Option Bytes))
  unfolding get check_valid
  get_raw key e = get (λ b. check_valid b >>= raw_unmarshal_json) key e

  unfoldable pub set_raw : String → Option Bytes → Entry → Result Entry
  unfolding set compact
  set_raw key raw e = set key (raw_marshal_json raw >>= compact) e

  -- The secret of a new entry or directory.
  unfoldable pub new_secret : String → String → Secret
  new_secret namespace name = record {
    namespace = namespace;
    name = name;
    labels = ("app", application) ∷ [];
    annotations = ("servicebroker.couchbase.com/version", version) ∷ [];
    uid = "";
    resource_version = "";
    data_map = none;
  }

  -- `New`
  unfoldable pub new : (t namespace name : String) → Bool → State → Result Entry
  unfolding new_secret
  new t namespace name read_only s = elim (get_secret namespace (resource_name t name) s) [
    | answer secret ↦ ok (record { secret = secret; exists = true; read_only = read_only })
    | not_found ↦ ok (record {
      secret = new_secret namespace (resource_name t name);
      exists = false;
      read_only = read_only;
    })
    | already_exists ↦ err (other "already exists")
    | failed text ↦ err (other text)
  ]

  -- The entry after a write that gave `secret` back.
  abbrev pub written : Entry → Answer Secret × State → Result (Unit {0}) × Entry × State
  written e (answer secret, s) = (ok tt, record e { secret = secret; exists = true }, s)
  written e (not_found, s) = (err (other "not found"), e, s)
  written e (already_exists, s) = (err (other "already exists"), e, s)
  written e (failed text, s) = (err (other text), e, s)

  -- `Commit`
  unfoldable pub commit : Entry → State → Result (Unit {0}) × Entry × State
  commit e s =
      if e.read_only
      then (read_only_error, e, s)
      else if e.exists
      then written e (update_secret e.secret s)
      else written e (create_secret e.secret s)

  -- `Delete`
  unfoldable pub delete : Entry → State → Result (Unit {0}) × State
  delete e s =
      if e.read_only
      then (read_only_error, s)
      else if e.exists
      then (let (a, s') = delete_secret e.secret.namespace e.secret.name s in (to_result a, s'))
      else (ok tt, s)
