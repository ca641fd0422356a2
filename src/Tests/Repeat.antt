-- ===== src/Tests/Repeat.antt =====
-- Requests for an instance that exists.
use service_broker_k8s.Base.{
  String, ◌≡◌, ◌≢◌, refl, true, false, none, some, [], ◌∷◌, inl, inr, arith, ◌==◌, if◌then◌else◌,
  or_default, ne_of_test, sprintf,
}
use service_broker_k8s.Base.Dict.{lookup}
use service_broker_k8s.Errors.{Error, Result, ok, err, query_error, resource_conflict_error}
use service_broker_k8s.Json.{check_valid, str, obj, field, end, text, marshal}
use service_broker_k8s.Http.{
  Body, parsed, json_request, CreateServiceInstanceRequest, instance_created, json_error,
}
use service_broker_k8s.Registry.{Entry, get_string, get_raw, new, resource_name}
use service_broker_k8s.Registry.Key
use service_broker_k8s.Registry.Directory.{
  Directory, DirectoryEntry, directory_name, new_directory, remove_entry,
}
use service_broker_k8s.Operation.Phases.{InPhase, idle}
use service_broker_k8s.Broker.{
  async_required, get_single_parameter, validate_service_plan, validate_parameters, instance_schema,
  create_schema,
}
use service_broker_k8s.Broker.Auth.{authorize}
use service_broker_k8s.Broker.Directory.{
  entry_in, register_directory_instance, get_directory_instance,
}
use service_broker_k8s.Broker.Create.{create_service_instance}
use service_broker_k8s.Broker.Create.Repeat.{Records, HasKeys}
use service_broker_k8s.Broker.Create.Existing.{
  Finds, create_service_instance-repeated, create_service_instance-conflicts,
}
use service_broker_k8s.Broker.Instance.{delete_service_instance}
use service_broker_k8s.Broker.Guards.Forgets.{IsUnnamed, delete_service_instance-forgets}
use service_broker_k8s.Broker.Handler.{Ctx, returned, answered}
use service_broker_k8s.Broker.Steps.{namespace_of_instance, response}
use service_broker_k8s.Config.{find_service, find_plan}
use service_broker_k8s.Tests.Cluster.{
  cluster, no_secrets, cluster-KeepsSecrets, secret_of, with_secret,
}
use service_broker_k8s.Tests.Config.{config}
use service_broker_k8s.Tests.Broker.{http, with_token, request, recorded, fresh}

-- The instance where its directory entry says.
abbrev standing : Entry
standing = record recorded {
  secret = record (recorded.secret) { namespace = "there" };
  exists = true;
}

abbrev before : Ctx cluster.State
before = record fresh { outside = with_secret standing.secret no_secrets }

abbrev registration : Result DirectoryEntry × cluster.State
registration =
    register_directory_instance cluster config request.context "ns" "i" "service" "plan"
      before.outside

register_again :
    register_directory_instance cluster config request.context "ns" "i" "service" "plan"
      before.outside
    ≡ (ok (entry_in "there"), registration.1)
unfolding register_directory_instance
register_again = refl

standing_found : new cluster Key.service_instance "there" "i" false registration.1 ≡ ok standing
unfolding new resource_name register_directory_instance
standing_found = refl

accepts_run : async_required http ≡ ok tt
unfolding async_required lookup
accepts_run = refl

authorized_run : authorize cluster with_token http "service" "plan" before.outside ≡ ok tt
unfolding authorize lookup
authorized_run = refl

http_named : http.instance_id ≢ ""
http_named = ne_of_test refl

offered_run : validate_service_plan config "service" "plan" ≡ ok tt
unfolding validate_service_plan find_service find_plan
offered_run = refl

conforming_run :
    validate_parameters cluster config "service" "plan" instance_schema create_schema none ≡ ok tt
unfolding validate_parameters find_service find_plan
conforming_run = refl

-- The same request again.
abbrev body : Body CreateServiceInstanceRequest
body = parsed request

readable_run : json_request body ≡ ok request
unfolding json_request
readable_run = refl

http-Finds :
    Finds cluster with_token config http body request standing before.outside registration.1
http-Finds = record {
  dirent = entry_in "there";
  accepts_incomplete = accepts_run;
  readable = readable_run;
  authorized = authorized_run;
  named = http_named;
  offered = offered_run;
  conforming = conforming_run;
  registered = register_again;
  found = standing_found;
  exists = refl;
}

standing_service : get_string Key.service_id standing ≡ ok (some "service")
unfolding get_string lookup marshal
standing_service = refl

standing_plan : get_string Key.plan_id standing ≡ ok (some "plan")
unfolding get_string lookup marshal
standing_plan = refl

standing_context :
    get_raw cluster Key.context standing ≡ ok (some (or_default request.context none))
unfolding get_raw lookup check_valid
standing_context = refl

standing_parameters : get_raw cluster Key.parameters standing ≡ ok (some none)
unfolding get_raw lookup check_valid
standing_parameters = refl

standing-Records : Records cluster request standing
standing-Records = record {
  service = standing_service;
  plan = standing_plan;
  context = standing_context;
  parameters = standing_parameters;
}

standing_url : get_string Key.dashboard_url standing ≡ ok none
unfolding get_string lookup
standing_url = refl

standing-InPhase : InPhase idle standing
unfolding get_string lookup
standing-InPhase = (refl, refl, refl)

create_service_instance-repeated_example :
    create_service_instance cluster with_token config http body before
    ≡ (returned, answered (response 200 (instance_created "" "")) registration.1 before)
create_service_instance-repeated_example =
    create_service_instance-repeated cluster with_token config http body request standing before
      registration.1 none none http-Finds standing-Records standing_url standing-InPhase

-- The same request with a space in its context, which is stored without it.
abbrev spaced : CreateServiceInstanceRequest
spaced = record request {
  context = some (some (text (obj (field "namespace" (str "there") end)) 0 1));
}

abbrev spaced_body : Body CreateServiceInstanceRequest
spaced_body = parsed spaced

spaced_readable_run : json_request spaced_body ≡ ok spaced
unfolding json_request
spaced_readable_run = refl

abbrev spaced_registration : Result DirectoryEntry × cluster.State
spaced_registration =
    register_directory_instance cluster config spaced.context "ns" "i" "service" "plan"
      before.outside

spaced_register :
    register_directory_instance cluster config spaced.context "ns" "i" "service" "plan"
      before.outside
    ≡ (ok (entry_in "there"), spaced_registration.1)
unfolding register_directory_instance
spaced_register = refl

spaced_found :
    new cluster Key.service_instance "there" "i" false spaced_registration.1 ≡ ok standing
unfolding new resource_name register_directory_instance
spaced_found = refl

spaced-Finds :
    Finds cluster with_token config http spaced_body spaced standing before.outside
      spaced_registration.1
spaced-Finds = record {
  dirent = entry_in "there";
  accepts_incomplete = accepts_run;
  readable = spaced_readable_run;
  authorized = authorized_run;
  named = http_named;
  offered = offered_run;
  conforming = conforming_run;
  registered = spaced_register;
  found = spaced_found;
  exists = refl;
}

abbrev standing_keys : HasKeys cluster standing
standing_keys = record {
  service = "service";
  plan = "plan";
  context = some (text (obj (field "namespace" (str "there") end)) 0 0);
  parameters = none;
  operation = none;
  has_service = standing_service;
  has_plan = standing_plan;
  has_context = standing_context;
  has_parameters = standing_parameters;
  has_operation = standing-InPhase.0;
}

contexts_differ : or_default spaced.context none ≢ standing_keys.context
contexts_differ h = ground arith

create_service_instance-conflicts_example :
    (text : String) × (create_service_instance cluster with_token config http spaced_body before ≡ (
      returned,
      answered (json_error (resource_conflict_error text)) spaced_registration.1 before,
    ))
create_service_instance-conflicts_example =
    create_service_instance-conflicts cluster with_token config http spaced_body spaced standing
      standing_keys before spaced_registration.1 spaced-Finds (inr (inr (inl contexts_differ)))

-- A deletion whose query names no service.
abbrev directory : Directory
directory = record {
  secret =
      secret_of "ns" directory_name
        ((http.instance_id, text (obj (field "namespace" (str "there") end)) 0 0) ∷ []);
  exists = true;
}

abbrev listed : Ctx cluster.State
listed = record fresh { outside = with_secret directory.secret before.outside }

directory_run : new_directory cluster "ns" listed.outside ≡ ok directory
unfolding new_directory
directory_run = refl

abbrev removal : Result (Unit {0}) × Directory × cluster.State
removal = remove_entry cluster "i" directory listed.outside

removal_run : remove_entry cluster "i" directory listed.outside ≡ (ok tt, removal.1, removal.2)
unfolding remove_entry lookup
removal_run = refl

still_found :
    new cluster Key.service_instance
      (namespace_of_instance cluster with_token http listed.outside)
      "i"
      false
      removal.2
    ≡ ok standing
unfolding new resource_name get_directory_instance remove_entry lookup
still_found = refl

abbrev no_service : Error
no_service = query_error (sprintf ("query parameter " ∷ "service_id" ∷ " not found" ∷ []))

no_service_run : get_single_parameter http "service_id" ≡ err no_service
unfolding get_single_parameter lookup
no_service_run = refl

http-IsUnnamed : IsUnnamed cluster with_token http no_service listed.outside removal.2
http-IsUnnamed = record {
  directory = directory;
  after = removal.1;
  entry = standing;
  accepts_incomplete = accepts_run;
  named = http_named;
  read = directory_run;
  removed = removal_run;
  found = still_found;
  exists = refl;
  no_service = no_service_run;
}

delete_service_instance-forgets_example :
    (delete_service_instance cluster with_token http listed
      ≡ (returned, answered (json_error no_service) removal.2 listed))
    × ((j : String)
        → get_directory_instance cluster "ns" j removal.2 ≡ (
            if "i" == j
            then entry_in "ns"
            else get_directory_instance cluster "ns" j listed.outside))
delete_service_instance-forgets_example =
    delete_service_instance-forgets cluster with_token cluster-KeepsSecrets http no_service listed
      removal.2 http-IsUnnamed
