-- ===== src/Catalog/Wire.antt =====
-- How encoding/json writes the catalog: the tags of pkg/api/catalog_types.go.
use service_broker_k8s.Base.{
  ◌≡◌, refl, sym, String, Bool, true, false, Option, none, some, List, [], ◌∷◌, ◌==◌, if◌then◌else◌,
}
use service_broker_k8s.Errors.{Result, ok, ◌>>=◌, >>=-eq-ok, ok_eq}
use service_broker_k8s.Json.{
  Json, null, bool, str, arr, obj, Items, nil, cons, Fields, end, field, Bytes, unmarshal,
}
use service_broker_k8s.Config
use service_broker_k8s.Catalog.{
  Interface, nil_interface, raw_extension, InputParametersSchema, ServiceInstanceSchema,
  ServiceBindingSchema, Schemas, ServicePlan, DashboardClient, ServiceOffering, convert_plan,
}

-- A field with `omitempty`: one that has no value is left out.
abbrev optional : String → Option Json → Fields → Fields
optional key none rest = rest
optional key (some v) rest = field key v rest

-- The empty values of a text, a list and a Boolean.
abbrev text_or_omit : String → Option Json
text_or_omit s = if s == "" then none else some (str s)

abbrev true_or_omit : Bool → Option Json
true_or_omit true = some (bool true)
true_or_omit false = none

texts : List String → Items
texts [] = nil
texts (s ∷ more) = cons (str s) (texts more)

texts_or_omit : List String → Option Json
unfolding texts
texts_or_omit [] = none
texts_or_omit (s ∷ more) = some (arr (texts (s ∷ more)))

-- A pointer that is written where it is not nil.
abbrev written_if : {A : Type 0} → (A → Result Json) → Option A → Result (Option Json)
written_if f none = ok none
written_if f (some a) = do v ← f a; ok (some v)

module _ (raw_marshal_json : Option Bytes → Result Bytes) where
  -- An interface is empty only if it holds nothing: a nil pointer in it is written as null.
  unfoldable pub write_interface : Interface → Result (Option Json)
  write_interface nil_interface = ok none
  write_interface (raw_extension none) = ok (some null)
  write_interface (raw_extension (some raw)) = do
    bytes ← raw_marshal_json raw
    v ← unmarshal bytes
    ok (some v)

  unfoldable pub write_parameters : InputParametersSchema → Result Json
  unfolding write_interface
  write_parameters x = do
    parameters ← write_interface x.parameters
    ok (obj (optional "parameters" parameters end))

  unfoldable pub write_instance_schema : ServiceInstanceSchema → Result Json
  unfolding write_parameters
  write_instance_schema x = do
    create ← written_if write_parameters x.create
    update ← written_if write_parameters x.update
    ok (obj (optional "create" create (optional "update" update end)))

  unfoldable pub write_binding_schema : ServiceBindingSchema → Result Json
  unfolding write_parameters
  write_binding_schema x = do
    create ← written_if write_parameters x.create
    ok (obj (optional "create" create end))

  unfoldable pub write_schemas : Schemas → Result Json
  unfolding write_instance_schema write_binding_schema
  write_schemas x = do
    service_instance ← written_if write_instance_schema x.service_instance
    service_binding ← written_if write_binding_schema x.service_binding
    ok (
        obj (
          optional "service_instance" service_instance
            (optional "service_binding" service_binding end)))

  abbrev bindable_or_omit : Option Bool → Option Json
  bindable_or_omit none = none
  bindable_or_omit (some b) = some (bool b)

  unfoldable pub write_plan : ServicePlan → Result Json
  unfolding write_interface write_schemas
  write_plan x = do
    metadata ← write_interface x.metadata
    schemas ← written_if write_schemas x.schemas
    ok (
        obj (
          field "id" (str x.id) (
            field "name" (str x.name) (
              field "description" (str x.description) (
                optional "metadata" metadata (
                  optional "free" (true_or_omit x.free) (
                    optional "bindable" (bindable_or_omit x.bindable)
                      (optional "schemas" schemas end))))))))

  write_plans : List ServicePlan → Result Items
  unfolding write_plan
  write_plans [] = ok nil
  write_plans (x ∷ more) = do v ← write_plan x; rest ← write_plans more; ok (cons v rest)

  abbrev write_dashboard_client : DashboardClient → Json
  write_dashboard_client x = obj (
      field "id" (str x.id) (
        field "secret" (str x.secret)
          (optional "redirected_uri" (text_or_omit x.redirected_uri) end)))

  abbrev dashboard_or_omit : Option DashboardClient → Option Json
  dashboard_or_omit none = none
  dashboard_or_omit (some x) = some (write_dashboard_client x)

  unfoldable pub write_offering : ServiceOffering → Result Json
  unfolding write_interface write_plans texts_or_omit
  write_offering x = do
    metadata ← write_interface x.metadata
    plans ← write_plans x.plans
    ok (
        obj (
          field "name" (str x.name) (
            field "id" (str x.id) (
              field "description" (str x.description) (
                optional "tags" (texts_or_omit x.tags) (
                  optional "requires" (texts_or_omit x.requires) (
                    field "bindable" (bool x.bindable) (
                      optional "metadata" metadata (
                        optional "dashboard_client" (dashboard_or_omit x.dashboard_client) (
                          optional "plan_updatable" (true_or_omit x.plan_updatable)
                            (field "plans" (arr plans) end)))))))))))

  -- The value of a field of an object.
  abbrev at_field : String → Fields → Option Json
  at_field key end = none
  at_field key (field k v rest) = if k == key then some v else at_field key rest

  abbrev pub at : String → Json → Option Json
  at key (obj fs) = at_field key fs
  at key _ = none

  never_omitted :
      (x : Option (Option Bytes)) (o : Option Json)
      → write_interface (raw_extension x) ≡ ok o
      → (m : Json) × (o ≡ some m)
  unfolding write_interface
  never_omitted none o h = (null, sym (ok_eq h))
  never_omitted (some raw) o h =
      let (bytes, _, rest) = >>=-eq-ok (raw_marshal_json raw) _ o h in
      let (v, _, e) = >>=-eq-ok (unmarshal bytes) _ o rest in (v, sym (ok_eq e))

  -- A plan of the configuration is never written without the field `metadata`, although the field is
  -- to be omitted where it is empty: without metadata it is null, and otherwise it has their value.
  pub write_plan-metadata :
      (x : Config.ServicePlan) (v : Json)
      → write_plan (convert_plan x) ≡ ok v
      → (m : Json) × (write_interface (raw_extension x.metadata) ≡ ok (some m))
        × (at "metadata" v ≡ some m)
  unfolding write_plan convert_plan
  write_plan-metadata x v h =
      let (o, written, rest) = >>=-eq-ok (write_interface (raw_extension x.metadata)) _ v h in
      let (schemas, _, e) =
        >>=-eq-ok (written_if write_schemas (convert_plan x).schemas) _ v rest in
      let (m, is_some) = never_omitted x.metadata o written in
      (m, rw (← is_some) written, rw (← ok_eq e, is_some) refl)
