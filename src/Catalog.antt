-- ===== src/Catalog.antt =====
-- pkg/api/catalog_types.go, the catalog that the broker answers with, and the conversion of the
-- configured one into it (pkg/apis/servicebroker/v1alpha1/conversion.go).
pub mod Laws
pub mod Wire
use service_broker_k8s.Base.{String, Bool, Option, none, some, List, [], ◌∷◌}
use service_broker_k8s.Json.{Bytes}
use service_broker_k8s.Config

-- An `interface{}` that may hold a `*runtime.RawExtension`, itself nil or one of bytes.
pub data Interface : Type 0 where
  nil_interface : Interface
  raw_extension : Option (Option Bytes) → Interface

pub record InputParametersSchema : Type 0 where
  pub parameters : Interface

pub record ServiceInstanceSchema : Type 0 where
  pub create : Option InputParametersSchema
  pub update : Option InputParametersSchema

pub record ServiceBindingSchema : Type 0 where
  pub create : Option InputParametersSchema

pub record Schemas : Type 0 where
  pub service_instance : Option ServiceInstanceSchema
  pub service_binding : Option ServiceBindingSchema

pub record ServicePlan : Type 0 where
  pub id : String
  pub name : String
  pub description : String
  pub metadata : Interface
  pub free : Bool
  pub bindable : Option Bool
  pub schemas : Option Schemas

pub record DashboardClient : Type 0 where
  pub id : String
  pub secret : String
  pub redirected_uri : String

pub record ServiceOffering : Type 0 where
  pub name : String
  pub id : String
  pub description : String
  pub tags : List String
  pub requires : List String
  pub bindable : Bool
  pub metadata : Interface
  pub dashboard_client : Option DashboardClient
  pub plan_updatable : Bool
  pub plans : List ServicePlan

-- `ServiceCatalog`, a struct of the one list.
abbrev pub ServiceCatalog : Type 0
ServiceCatalog = List ServiceOffering

-- A pointer that is converted where it is not nil.
abbrev pub if_given : {A B : Type 0} → (A → B) → Option A → Option B
if_given f none = none
if_given f (some a) = some (f a)

-- The loop over a slice.
abbrev pub each_of : {A B : Type 0} → (A → B) → List A → List B
each_of f [] = []
each_of f (a ∷ more) = f a ∷ each_of f more

-- The `Convert` methods. An extension is put into the interface as a pointer, also where it is nil.
unfoldable pub convert_parameters : Config.InputParametersSchema → InputParametersSchema
convert_parameters x = record { parameters = raw_extension x.parameters }

unfoldable pub convert_binding_schema : Config.ServiceBindingSchema → ServiceBindingSchema
unfolding convert_parameters
convert_binding_schema x = record { create = if_given convert_parameters x.create }

unfoldable pub convert_instance_schema : Config.ServiceInstanceSchema → ServiceInstanceSchema
unfolding convert_parameters
convert_instance_schema x = record {
  create = if_given convert_parameters x.create;
  update = if_given convert_parameters x.update;
}

unfoldable pub convert_schemas : Config.Schemas → Schemas
unfolding convert_instance_schema convert_binding_schema
convert_schemas x = record {
  service_instance = if_given convert_instance_schema x.service_instance;
  service_binding = if_given convert_binding_schema x.service_binding;
}

unfoldable pub convert_plan : Config.ServicePlan → ServicePlan
unfolding convert_schemas
convert_plan x = record {
  id = x.id;
  name = x.name;
  description = x.description;
  metadata = raw_extension x.metadata;
  free = x.free;
  bindable = x.bindable;
  schemas = if_given convert_schemas x.schemas;
}

unfoldable pub convert_dashboard_client : Config.DashboardClient → DashboardClient
convert_dashboard_client x = record {
  id = x.id;
  secret = x.secret;
  redirected_uri = x.redirected_uri;
}

unfoldable pub convert_offering : Config.ServiceOffering → ServiceOffering
unfolding convert_plan convert_dashboard_client
convert_offering x = record {
  name = x.name;
  id = x.id;
  description = x.description;
  tags = x.tags;
  requires = x.requires;
  bindable = x.bindable;
  metadata = raw_extension x.metadata;
  dashboard_client = if_given convert_dashboard_client x.dashboard_client;
  plan_updatable = x.plan_updatable;
  plans = each_of convert_plan x.plans;
}

unfoldable pub convert_catalog : Config.ServiceCatalog → ServiceCatalog
unfolding convert_offering
convert_catalog services = each_of convert_offering services
