-- ===== src/Provisioner/Object.antt =====
-- pkg/provisioners/create.go: the object of a rendered template, and the owners of a singleton.
use service_broker_k8s.Base.{String, [], ◌∷◌, ◌++◌, or_default}
use service_broker_k8s.Base.Dict.{insert}
use service_broker_k8s.Errors.{Result, ok, other, or_fail, ◌>>=◌}
use service_broker_k8s.Json.{Json, Bytes, check_valid, compact}
use service_broker_k8s.Env.{Env, OwnerReference}
use service_broker_k8s.Registry.{Entry, get_owner_reference}

abbrev pub resource_annotation : String
resource_annotation = "servicebroker.couchbase.com/resource"

module _ (env : Env) where
  open env use {
    object_unmarshal_json, object_marshal_json, nested_string_map, set_nested_string_map,
    nested_slice, set_nested_slice, set_owner_references, owner_reference_to_unstructured,
    string_of_bytes,
  }

  -- `json.Unmarshal` of an unstructured object.
  unfoldable pub unmarshal_object : Bytes → Result Json
  unfolding check_valid
  unmarshal_object raw = do valid ← check_valid raw; object_unmarshal_json valid

  -- `json.Marshal` of an unstructured object.
  unfoldable pub marshal_object : Json → Result Bytes
  unfolding compact
  marshal_object object = do raw ← object_marshal_json object; compact raw

  -- The object of a template, with its own JSON as an annotation and the entry as its owner.
  unfoldable pub owned_object : Bytes → Entry → Result Json
  unfolding unmarshal_object marshal_object get_owner_reference
  owned_object raw entry = do
    object ← unmarshal_object raw
    resource_json ← marshal_object object
    annotations ← nested_string_map object ("metadata" ∷ "annotations" ∷ [])
    annotated ←
        set_nested_string_map object
          (insert resource_annotation (string_of_bytes resource_json) (or_default annotations []))
          ("metadata" ∷ "annotations" ∷ [])
    ok (set_owner_references annotated (get_owner_reference entry ∷ []))

  -- A singleton that exists, with one more owner.
  unfoldable pub with_owner : Json → OwnerReference → Result Json
  with_owner existing owner_reference = do
    found ← nested_slice existing ("metadata" ∷ "ownerReferences" ∷ [])
    owners ←
        or_fail found (other "resource attibute missing: owner references unexpectedly missing")
    owner ← owner_reference_to_unstructured owner_reference
    set_nested_slice existing (owners ++ owner ∷ []) ("metadata" ∷ "ownerReferences" ∷ [])
