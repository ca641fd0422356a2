-- ===== src/Registry/Directory.antt =====
-- pkg/registry/directory.go: the table from instance IDs to the namespaces of their registries.
pub mod Laws
use service_broker_k8s.Base.{
  String, Bool, true, false, Option, none, some, [], ◌∷◌, if◌then◌else◌, sprintf,
}
use service_broker_k8s.Base.Text.{equal_fold}
use service_broker_k8s.Base.Dict.{Dict, lookup, insert, remove}
use service_broker_k8s.Errors.{Result, ok, err, other, resource_not_found_error}
use service_broker_k8s.Json.{null, str, obj, Fields, end, field, Bytes, text, malformed, marshal}
use service_broker_k8s.Env.{Secret, Answer, answer, not_found, already_exists, failed, Env}
use service_broker_k8s.Registry.{new_secret}

abbrev pub directory_name : String
directory_name = "couchbase-service-broker-directory"

pub record Directory : Type 0 where
  pub secret : Secret
  pub exists : Bool

-- `DirectoryEntry`, a struct with the one field `namespace`.
pub record DirectoryEntry : Type 0 where
  pub namespace : String

-- `json.Marshal` of a directory entry.
unfoldable pub marshal_entry : DirectoryEntry → Bytes
unfolding marshal
marshal_entry dirent = marshal (obj (field "namespace" (str dirent.namespace) end))

-- The loop of `json.Unmarshal` over the fields of an object; names are matched without case, other
-- fields are passed over, and null leaves the field as it is.
unfoldable pub unmarshal_fields : Fields → String → Result DirectoryEntry
unmarshal_fields end ns = ok (record { namespace = ns })
unmarshal_fields (field name (str s) more) ns =
    unmarshal_fields more (if equal_fold name "namespace" then s else ns)
unmarshal_fields (field name null more) ns = unmarshal_fields more ns
unmarshal_fields (field name _ more) ns =
    let rest = unmarshal_fields more ns in
    if equal_fold name "namespace"
    then err (other "json: cannot unmarshal into Go struct field")
    else rest

-- `json.Unmarshal` into a directory entry.
unfoldable pub unmarshal_entry : Bytes → Result DirectoryEntry
unfolding unmarshal_fields equal_fold
unmarshal_entry (text (obj fs) _ _) = unmarshal_fields fs ""
unmarshal_entry (text null _ _) = ok (record { namespace = "" })
unmarshal_entry (text _ _ _) =
    err (other "json: cannot unmarshal into Go value of type DirectoryEntry")
unmarshal_entry (malformed _) = err (other "invalid character")

abbrev pub missing {ℓ} : {A : Type ℓ} → String → Result A
missing instance_id =
    err (resource_not_found_error (sprintf ("directory entry missing for " ∷ instance_id ∷ [])))

-- `Lookup`
unfoldable pub find_entry : String → Option Bytes → Result DirectoryEntry
unfolding unmarshal_entry
find_entry instance_id none = missing instance_id
find_entry instance_id (some b) = unmarshal_entry b

unfoldable pub lookup_entry : Directory → String → Result DirectoryEntry
unfolding find_entry
lookup_entry d instance_id = elim (d.secret.data_map) [
  | none ↦ missing instance_id
  | some table ↦ find_entry instance_id (lookup instance_id table)
]

abbrev pub with_table : Directory → Dict Bytes → Directory
with_table d table = record d { secret = record (d.secret) { data_map = some table } }

abbrev pub table_or_empty : Option (Dict Bytes) → Dict Bytes
table_or_empty none = []
table_or_empty (some table) = table

module _ (env : Env) where
  open env use {State, get_secret, create_secret, update_secret}

  -- `NewDirectory`
  unfoldable pub new_directory : String → State → Result Directory
  unfolding new_secret
  new_directory namespace s = elim (get_secret namespace directory_name s) [
    | answer secret ↦ ok (record { secret = secret; exists = true })
    | not_found ↦ ok (record { secret = new_secret env namespace directory_name; exists = false })
    | already_exists ↦ err (other "already exists")
    | failed reason ↦ err (other reason)
  ]

  abbrev pub stored : Directory → Answer Secret × State → Result (Unit {0}) × Directory × State
  stored d (answer secret, s) = (ok tt, record { secret = secret; exists = true }, s)
  stored d (not_found, s) = (err (other "not found"), d, s)
  stored d (already_exists, s) = (err (other "already exists"), d, s)
  stored d (failed reason, s) = (err (other reason), d, s)

  unfoldable pub commit_directory : Directory → State → Result (Unit {0}) × Directory × State
  commit_directory d s =
      if d.exists then stored d (update_secret d.secret s) else stored d (create_secret d.secret s)

  -- `Add`
  unfoldable pub add :
      String → DirectoryEntry → Directory → State → Result (Unit {0}) × Directory × State
  unfolding commit_directory marshal_entry
  add instance_id dirent d =
      commit_directory (
        with_table d (insert instance_id (marshal_entry dirent) (table_or_empty d.secret.data_map)))

  abbrev pub remove_from :
      String → Directory → Option (Dict Bytes) → State → Result (Unit {0}) × Directory × State
  remove_from instance_id d none s = (missing instance_id, d, s)
  remove_from instance_id d (some table) s =
      let removed = commit_directory (with_table d (remove instance_id table)) s in
      elim (lookup instance_id table) [ none ↦ (missing instance_id, d, s) | some _ ↦ removed ]

  -- `Remove`
  unfoldable pub remove_entry : String → Directory → State → Result (Unit {0}) × Directory × State
  unfolding commit_directory
  remove_entry instance_id d = remove_from instance_id d d.secret.data_map
