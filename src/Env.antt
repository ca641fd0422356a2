-- ===== src/Env.antt =====
-- What the broker calls and does not implement: the Kubernetes API and the third-party packages.
-- `State` is everything outside the process; a write gives the state after it.
use service_broker_k8s.Base.{◌≡◌, ◌⊎◌, inl, inr, refl, ℕ, Bool, List, String, Option}
use service_broker_k8s.Base.Dict.{Dict}
use service_broker_k8s.Errors.{Error, Result, ok, err, other}
use service_broker_k8s.Json.{Json, Bytes}
use service_broker_k8s.Base.Int.{ℤ}
use service_broker_k8s.Crypto.{Crypto}
use service_broker_k8s.ParseTree.{Listing}
use service_broker_k8s.Config.{ServiceBrokerConfig}

-- The parts of a `corev1.Secret` that the broker reads or writes; a nil map of data is `none`.
pub record Secret : Type 0 where
  pub namespace : String
  pub name : String
  pub labels : Dict String
  pub annotations : Dict String
  pub uid : String
  pub resource_version : String
  pub data_map : Option (Dict Bytes)

-- An answer of the Kubernetes API. `not_found` and `already_exists` are the errors that
-- `IsNotFound` and `IsAlreadyExists` recognise.
pub data Answer (A : Type 0) : Type 0 where
  answer : A → Answer A
  not_found : Answer A
  already_exists : Answer A
  failed : String → Answer A

-- The answer where the caller does not tell the errors apart.
abbrev pub to_result : {A : Type 0} → Answer A → Result A
to_result (answer a) = ok a
to_result not_found = err (other "not found")
to_result already_exists = err (other "already exists")
to_result (failed s) = err (other s)

-- `metav1.OwnerReference`
pub record OwnerReference : Type 0 where
  pub api_version : String
  pub kind : String
  pub name : String
  pub uid : String

-- What `RESTMapping` gives: the resource, and whether its scope is the cluster
-- (`RESTScopeNameRoot`).
pub record Mapping : Type 0 where
  pub resource : String
  pub is_root : Bool

-- `jwt.Token`: whether it is valid, and its claims where they are `jwt.MapClaims`.
pub record JwtToken : Type 0 where
  pub valid : Bool
  pub claims : Option (Dict Json)

-- A Go value that a template function is given as an `interface{}`: one that JSON has, or an `int`.
pub data Argument : Type 0 where
  value : Json → Argument
  int : ℤ → Argument

-- The functions that a template may call; those that use chance are given it at each call.
pub record TemplateFunctions (Chance : Type 0) : Type 0 where
  pub registry : String → Result Json
  pub parameter : String → Result Json
  pub snippet : String → Result Json
  pub snippet_array : String → List Json → Result (List Json)
  pub required : Json → Result Json
  pub default : Json → Json → Json
  pub list : List Json → List Json
  pub generate_password : Chance → ℤ → Argument → Result String
  pub generate_pet_name : Chance → ℤ → Result String
  pub generate_private_key : Chance → (t encoding : String) → (bits : Argument) → Result String
  pub generate_certificate :
      Chance
      → (key cn lifetime usage : String) → (sans : List Argument) → (ca_key ca_cert : Argument)
      → Result String
  pub upper : String → String
  pub lower : String → String
  pub title : String → String
  pub json : Json → Result String

pub record Env : Type 1 where
  -- `version.Application` and `version.Version`, which the build sets.
  pub application : String
  pub version : String
  pub State : Type 0
  -- `CoreV1().Secrets(namespace)`
  pub get_secret : (namespace name : String) → State → Answer Secret
  pub create_secret : Secret → State → Answer Secret × State
  pub update_secret : Secret → State → Answer Secret × State
  pub delete_secret : (namespace name : String) → State → Answer (Unit {0}) × State
  -- The update of the broker's configuration, and the time.
  pub update_config : ServiceBrokerConfig → State → Answer ServiceBrokerConfig × State
  pub now : State → ℕ
  -- `uuid.New().String()`
  pub new_uuid : State → String × State
  -- `MarshalJSON` and `UnmarshalJSON` of `runtime.RawExtension`, which holds bytes or nil.
  pub raw_marshal_json : Option Bytes → Result Bytes
  pub raw_unmarshal_json : Bytes → Result (Option Bytes)
  -- `jsonpointer.New(path)` and `Get` of the pointer that it returns.
  pub pointer_new : String → Result (Unit {0})
  pub pointer_get : String → Json → Result Json
  -- `spec.Schema`, its `UnmarshalJSON` and `validate.AgainstSchema`.
  pub Schema : Type 0
  pub schema_unmarshal_json : Bytes → Result Schema
  pub against_schema : Schema → Json → Result (Unit {0})
  -- How deep snippets may nest before the stack of the process is used up.
  pub stack_depth : ℕ
  -- The crypto packages, and other sources of chance.
  pub crypto : Crypto
  -- `%v` of a value.
  pub format_argument : Argument → String
  -- `%v` of a `*runtime.RawExtension`, and `fmt.Sprintf` of a format that has a `%`, without
  -- arguments.
  pub format_raw : Option Bytes → String
  pub format_alone : String → String
  -- `text/template`: `Parse` of a text, which gives the root of its tree; and `Execute` of a tree on
  -- a value, with the functions that are given.
  pub parse_template : String → Result Listing
  pub execute_template : TemplateFunctions crypto.Chance → Listing → Json → Result Bytes
  -- `unstructured.Unstructured`: its JSON, its name and namespace, and the helpers for its fields.
  pub object_unmarshal_json : Bytes → Result Json
  pub object_marshal_json : Json → Result Bytes
  pub object_name : Json → String
  pub object_namespace : Json → String
  pub nested_string : Json → List String → Result (Option String)
  pub nested_string_map : Json → List String → Result (Option (Dict String))
  pub set_nested_string_map : Json → Dict String → List String → Result Json
  pub nested_slice : Json → List String → Result (Option (List Json))
  pub set_nested_slice : Json → List Json → List String → Result Json
  pub set_nested_string : Json → String → List String → Result Json
  pub set_owner_references : Json → List OwnerReference → Json
  pub owner_reference_to_unstructured : OwnerReference → Result Json
  -- `RESTMapping` of an object's kind, and of an API version and a kind.
  pub object_mapping : Json → Result Mapping
  pub kind_mapping : (api_version kind : String) → Result Mapping
  -- The dynamic client: `Resource(resource)`, with `Namespace(namespace)` where one is given.
  pub get_object :
      (resource : String) (namespace : Option String) (name : String) → State → Answer Json
  pub create_object :
      (resource : String) (namespace : Option String) → Json → State → Answer Json × State
  pub update_object :
      (resource : String) (namespace : Option String) → Json → State → Answer Json × State
  -- `jsonpatch`.
  pub create_merge_patch : (original modified : Bytes) → Result Bytes
  pub merge_patch : (current patch : Bytes) → Result Bytes
  -- The conversions between `[]byte` and `string`.
  pub string_of_bytes : Bytes → String
  pub bytes_of_string : String → Bytes
  -- `util.WaitFor` of a timeout: how many ticks its `select` takes before it takes the deadline, which
  -- the clock, the time that the calls take and the scheduler decide; and the state when the next
  -- tick is taken.
  pub ticks : (timeout : ℕ) → State → ℕ
  pub retry_period : State → State
  -- `jwt.Parse`, which may give no token beside its error, and the signature of a token.
  pub jwt_parse : ((is_hmac : Bool) → Result String) → String → Option JwtToken × Option Error
  pub jwt_sign : (username secret : String) → Result String
  -- The rows of the users' bought services, each as `Scan` reads it, and whether a user has this
  -- name and this hash.
  pub bought_services : (username : String) → State → Result (List (Result (String × String)))
  pub has_user : (username hashed_password : String) → State → Result Bool
  -- `sha256` in hexadecimal digits, and `base64.StdEncoding`.
  pub sha256_hex : String → String
  pub base64_encode : String → String
  -- `strconv.ParseFloat`, and the test `apiVersion < minBrokerAPIVersion`.
  pub Float : Type 0
  pub parse_float : String → Result Float
  pub below_minimum : Float → Bool

-- An answer is a value, the lack of one, or an error for a caller that asks for a value.
pub Answer-cases :
    {A : Type 0} (a : Answer A)
    → ((x : A) × (a ≡ answer x))
      ⊎ ((a ≡ not_found) ⊎ ((a ≡ already_exists) ⊎ ((s : String) × (a ≡ failed s))))
Answer-cases (answer x) = inl (x, refl)
Answer-cases not_found = inr (inl refl)
Answer-cases already_exists = inr (inr (inl refl))
Answer-cases (failed s) = inr (inr (inr (s, refl)))
