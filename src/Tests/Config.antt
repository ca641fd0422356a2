-- ===== src/Tests/Config.antt =====
-- A configuration with one service, and the theorems about it.
use service_broker_k8s.Base.{String, ◌≡◌, ◌↔◌, refl, true, false, none, some, List, [], ◌∷◌}
use service_broker_k8s.Errors.{ok}
use service_broker_k8s.Json.{Json, null, bool, str, obj, field, end, text}
use service_broker_k8s.Catalog.{convert_plan, convert_catalog, raw_extension}
use service_broker_k8s.Catalog.Laws.{AreDistinct, Lists, validate_service_plan_iff}
use service_broker_k8s.Catalog.Wire.{write_plan, write_interface, at, write_plan-metadata}
use service_broker_k8s.Config.{
  ServiceBrokerConfig, ServiceOffering, ServicePlan, TemplateList, ConfigurationBinding,
  ConfigurationTemplate, find_service, find_plan, find_binding, find_template,
}
use service_broker_k8s.Config.Validation.{
  validate, is_bindable, validate_plan, validate_binding, validate_use, validate_templates,
}
use service_broker_k8s.Config.Validation.Accepts.{IsValid, validate_iff}
use service_broker_k8s.Config.Controller.{Active, created, handle, status_of, update_status}
use service_broker_k8s.Config.Controller.Laws.{update_status-settles}
use service_broker_k8s.Tests.Cluster.{cluster, no_secrets}
use service_broker_k8s.Provisioner.{instance_resource, binding_resource, get_template_binding}
use service_broker_k8s.Broker.{validate_service_plan, verify_bindable}
use service_broker_k8s.Broker.Valid.{verify_bindable_iff}

abbrev plan : ServicePlan
plan = record {
  id = "plan";
  name = "small";
  description = "";
  metadata = none;
  free = true;
  bindable = none;
  schemas = none;
}

abbrev service : ServiceOffering
service = record {
  name = "database";
  id = "service";
  description = "";
  tags = [];
  requires = [];
  bindable = true;
  metadata = none;
  dashboard_client = none;
  plan_updatable = false;
  plans = plan ∷ [];
}

abbrev use_of : List String → TemplateList
use_of names = record {
  registry = record { name = "port"; value = "5432" } ∷ [];
  templates = names;
  readiness_checks = [];
  steps = none;
}

abbrev binding : ConfigurationBinding
binding = record {
  name = "binding";
  registry_scope = "Explicit";
  registry_namespace = "there";
  service = "database";
  plan = "small";
  service_instance = use_of ("pod" ∷ []);
  service_binding = some (use_of ("pod" ∷ []));
}

abbrev pub pod : ConfigurationTemplate
pod = record { name = "pod"; template = some (some (text (str "pod") 0 3)); singleton = false }

abbrev pub config : ServiceBrokerConfig
config = record {
  name = "broker";
  namespace = "ns";
  catalog = service ∷ [];
  templates = pod ∷ [];
  bindings = binding ∷ [];
  conditions = [];
}

validate_run : validate config ≡ ok tt
unfolding validate validate_plan find_binding is_bindable validate_binding validate_use
    validate_templates find_template
validate_run = refl

validate_iff_example : (validate config ≡ ok tt) ↔ IsValid config
validate_iff_example = validate_iff config

offered_run : validate_service_plan config "service" "plan" ≡ ok tt
unfolding validate_service_plan find_service find_plan
offered_run = refl

verify_bindable_iff_example :
    ((l : TemplateList) × (get_template_binding config instance_resource "service" "plan" ≡ ok l))
    × ((verify_bindable config "service" "plan" ≡ ok tt) ↔ (
        (l : TemplateList) × (get_template_binding config binding_resource "service" "plan"
          ≡ ok l)))
verify_bindable_iff_example = verify_bindable_iff config "service" "plan" validate_run offered_run

-- The broker before it has a configuration.
abbrev unready : Active cluster.State
unready = record { config = none; outside = no_secrets }

update_status-settles_example :
    update_status cluster
      (record config { conditions = status_of cluster config no_secrets ∷ [] })
      no_secrets
    ≡ (validate config, no_secrets)
update_status-settles_example = update_status-settles cluster config no_secrets no_secrets

-- The valid configuration becomes active.
accepted_run : (handle cluster "broker" (created (some config)) unready).config ≡ some config
unfolding handle validate validate_plan find_binding is_bindable validate_binding validate_use
    validate_templates find_template
accepted_run = refl

config-AreDistinct : AreDistinct config.catalog
config-AreDistinct = (tt, tt)

validate_service_plan_iff_example :
    (validate_service_plan config "service" "plan" ≡ ok tt)
    ↔ Lists "service" "plan" (convert_catalog config.catalog)
validate_service_plan_iff_example =
    validate_service_plan_iff config "service" "plan" config-AreDistinct

-- The plan as it is written: its metadata is null.
abbrev written_plan : Json
written_plan = obj (
    field "id" (str "plan") (
      field "name" (str "small")
        (field "description" (str "") (field "metadata" null (field "free" (bool true) end)))))

plan_run : write_plan cluster.raw_marshal_json (convert_plan plan) ≡ ok written_plan
unfolding write_plan convert_plan
plan_run = refl

write_plan-metadata_example :
    (m : Json) × (write_interface cluster.raw_marshal_json (raw_extension none) ≡ ok (some m))
    × (at cluster.raw_marshal_json "metadata" written_plan ≡ some m)
write_plan-metadata_example =
    write_plan-metadata cluster.raw_marshal_json plan written_plan plan_run
