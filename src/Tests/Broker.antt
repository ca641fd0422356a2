-- ===== src/Tests/Broker.antt =====
-- The theorems about the broker's handlers at concrete requests.
use service_broker_k8s.Base.{
  ◌==◌, if◌then◌else◌, String, ◌≡◌, ◌⊎◌, refl, true, false, none, some, [], ◌∷◌, sprintf,
  or_default,
}
use service_broker_k8s.Base.Dict.{lookup, insert, merge}
use service_broker_k8s.Errors.{Result, ok, ◌>>=◌}
use mathlib.Core.Path.{subst}
use service_broker_k8s.Json.{check_valid, compact, null, str, obj, field, end, text, marshal}
use service_broker_k8s.Config.{ConfigurationBinding, get_template_bindings}
use service_broker_k8s.Http.{
  UpdateServiceInstanceRequest, Request, Body, parsed, CreateServiceInstanceRequest,
}
use service_broker_k8s.Registry.{Entry, get_string, new, commit, resource_name}
use service_broker_k8s.Registry.Key
use service_broker_k8s.Registry.Directory.{
  Directory, DirectoryEntry, directory_name, new_directory, remove_entry,
}
use service_broker_k8s.Broker.Auth.{ServerConfiguration, authorize, extract_jwt_token}
use service_broker_k8s.Broker.Auth.Laws.{IsAuthorized, authorize_sound}
use service_broker_k8s.Broker.Directory.{
  entry_in, registry_namespace, register_directory_instance, get_directory_instance,
  delete_directory_instance,
}
use service_broker_k8s.Broker.Directory.Laws.{
  get_directory_instance-register, get_directory_instance-delete,
}
use service_broker_k8s.Broker.Handler.{Ctx}
use service_broker_k8s.Broker.Handler.Rules.{Untouched, SameJobs}
use service_broker_k8s.Broker.Record.{instance_record, binding_record}
use service_broker_k8s.Broker.Record.Laws.{IsStable, instance_record-Records, new-instance_record}
use service_broker_k8s.Broker.Create.{new_instance, create_service_instance}
use service_broker_k8s.Broker.Create.Repeat.{Records}
use service_broker_k8s.Broker.Create.Starts.{IsStarted, new_instance-starts}
use service_broker_k8s.Broker.Instance.{
  update_service_instance, delete_service_instance, poll_service_instance,
}
use service_broker_k8s.Broker.Guards.{IsAdmitted, create_service_instance-guards}
use service_broker_k8s.Broker.Guards.Delete.{IsDeletable, delete_service_instance-guards}
use service_broker_k8s.Broker.Guards.Update.{IsUpdatable, update_service_instance-guards}
use service_broker_k8s.Broker.Guards.Poll.{IsEnding, poll_service_instance-guards}
use service_broker_k8s.Tests.Cluster.{
  cluster, no_secrets, cluster-KeepsSecrets, secret_of, with_secret,
}
use service_broker_k8s.Tests.Config.{config}

-- A request of alice, who accepts asynchronous answers.
abbrev pub http : Request
http = record {
  path = "/v2/service_instances/i";
  headers = ("Authorization", "Bearer alice" ∷ []) ∷ [];
  content_length = 2;
  query = ok (("accepts_incomplete", "true" ∷ []) ∷ ("operation", "id" ∷ []) ∷ []);
  instance_id = "i";
  binding_id = "";
}

abbrev pub with_token : ServerConfiguration
with_token = record {
  namespace = "ns";
  token = none;
  basic_auth = none;
  advanced_token = some (record { jwt_secret = "secret" });
}

-- The configuration of a broker with a bearer token only.
abbrev without_token : ServerConfiguration
without_token = record with_token { token = some "alice"; advanced_token = none }

abbrev pub request : CreateServiceInstanceRequest
request = record {
  service_id = "service";
  plan_id = "plan";
  context = some (some (text (obj (field "namespace" (str "there") end)) 0 0));
  parameters = none;
}

abbrev pub body : Body CreateServiceInstanceRequest
body = parsed request

abbrev pub fresh : Ctx cluster.State
fresh = record { outside = no_secrets; responses = []; jobs = [] }

create_service_instance-guards_example :
    Untouched fresh (create_service_instance cluster with_token config http body fresh).1
    ⊎ IsAdmitted cluster with_token config http body no_secrets
create_service_instance-guards_example =
    create_service_instance-guards cluster with_token config http body fresh

delete_service_instance-guards_example :
    SameJobs fresh (delete_service_instance cluster with_token http fresh).1
    ⊎ IsDeletable cluster with_token http no_secrets
delete_service_instance-guards_example =
    delete_service_instance-guards cluster with_token http fresh

poll_service_instance-guards_example :
    Untouched fresh (poll_service_instance cluster with_token http fresh).1
    ⊎ IsEnding cluster with_token http no_secrets
poll_service_instance-guards_example = poll_service_instance-guards cluster with_token http fresh

authorize_run : authorize cluster with_token http "service" "plan" no_secrets ≡ ok tt
unfolding authorize lookup
authorize_run = refl

authorize_sound_example : IsAuthorized cluster with_token http "service" "plan" no_secrets
authorize_sound_example =
    authorize_sound cluster with_token http "service" "plan" no_secrets authorize_run

token_run : extract_jwt_token http ≡ ok "alice"
unfolding extract_jwt_token
token_run = refl

-- The context of the request, and the parameters that it leaves out, as they are recorded.
context-IsStable : IsStable cluster (or_default request.context none)
unfolding compact check_valid
context-IsStable b h =
    let same : text (obj (field "namespace" (str "there") end)) 0 0 ≡ b = cc in
    subst
      (λ x. (check_valid x >>= cluster.raw_unmarshal_json) ≡ ok (or_default request.context none))
      same refl

parameters-IsStable : IsStable cluster (or_default request.parameters none)
unfolding compact check_valid
parameters-IsStable b h =
    let same : text null 0 0 ≡ b = cc in
    subst (λ x. (check_valid x >>= cluster.raw_unmarshal_json) ≡ ok none) same refl

-- A new entry, and what is recorded in it.
abbrev new_entry_for : String → Entry
new_entry_for name = record { secret = secret_of "ns" name []; exists = false; read_only = false }

abbrev entry : Entry
entry = new_entry_for "registry-service-instance-i"

abbrev pub recorded : Entry
recorded = record entry {
  secret = secret_of "ns" "registry-service-instance-i" (
      (Key.namespace, marshal (str "ns"))
      ∷ (Key.instance_id, marshal (str "i"))
      ∷ (Key.service_id, marshal (str "service"))
      ∷ (Key.plan_id, marshal (str "plan"))
      ∷ (Key.context, text (obj (field "namespace" (str "there") end)) 0 0)
      ∷ (Key.parameters, text null 0 0)
      ∷ []);
}

record_run :
    instance_record cluster "ns" "i" "service" "plan" request.context request.parameters entry
    ≡ ok recorded
unfolding instance_record insert
record_run = refl

recorded-Records :
    Records cluster request recorded
    × (get_string Key.namespace recorded ≡ ok (some "ns"))
    × (get_string Key.instance_id recorded ≡ ok (some "i"))
recorded-Records =
    instance_record-Records cluster "ns" "i" request entry recorded context-IsStable
      parameters-IsStable record_run

abbrev held : cluster.State
held = with_secret recorded.secret no_secrets

commit_run : commit cluster recorded no_secrets ≡ (ok tt, record recorded { exists = true }, held)
unfolding commit
commit_run = refl

recorded_named : recorded.secret.name ≡ resource_name Key.service_instance "i"
unfolding resource_name sprintf
recorded_named = refl

new-instance_record_example :
    (found : Entry) × (new cluster Key.service_instance "ns" "i" false held ≡ ok found)
    × (found.exists ≡ true)
    × Records cluster request found
new-instance_record_example =
    new-instance_record cluster cluster-KeepsSecrets "ns" "i" request entry recorded
      (record recorded { exists = true }) no_secrets held false recorded_named context-IsStable
      parameters-IsStable record_run commit_run

new_instance-starts_example :
    SameJobs fresh (new_instance cluster with_token config http request entry fresh).1
    ⊎ IsStarted cluster fresh (new_instance cluster with_token config http request entry fresh).1
new_instance-starts_example =
    new_instance-starts cluster with_token config http request entry cluster-KeepsSecrets fresh

-- A binding of the instance.
abbrev pub binding_entry : Entry
binding_entry = new_entry_for "registry-service-binding-b"

abbrev pub bound : Entry
bound = record binding_entry {
  secret = secret_of "ns" "registry-service-binding-b" (
      (Key.parameters, text null 0 0)
      ∷ (Key.context, text (obj (field "namespace" (str "there") end)) 0 0)
      ∷ (Key.plan_id, marshal (str "plan"))
      ∷ (Key.service_id, marshal (str "service"))
      ∷ (Key.instance_id, marshal (str "i"))
      ∷ (Key.namespace, marshal (str "ns"))
      ∷ (Key.binding_id, marshal (str "b"))
      ∷ []);
}

pub bind_run :
    binding_record cluster "b" request.context request.parameters recorded binding_entry ≡ ok bound
unfolding binding_record insert merge
bind_run = refl

-- The registration of the instance, whose binding names the namespace `there`.
abbrev registered : Result DirectoryEntry × cluster.State
registered =
    register_directory_instance cluster config request.context "ns" "i" "service" "plan" no_secrets

register_run : registered ≡ (ok (entry_in "there"), registered.1)
unfolding register_directory_instance
register_run = refl

get_directory_instance-register_example :
    ((b : ConfigurationBinding) × (get_template_bindings config "service" "plan" ≡ ok b)
      × (registry_namespace cluster b request.context "ns" ≡ ok "there"))
    × ((j : String)
        → get_directory_instance cluster "ns" j registered.1 ≡ (
            if "i" == j
            then entry_in "there"
            else get_directory_instance cluster "ns" j no_secrets))
get_directory_instance-register_example =
    get_directory_instance-register cluster cluster-KeepsSecrets config request.context "ns" "i"
      "service" "plan" (entry_in "there") no_secrets registered.1 register_run

-- A directory with the instance, and its removal.
abbrev directory : Directory
directory = record {
  secret =
      secret_of "ns" directory_name
        (("i", text (obj (field "namespace" (str "there") end)) 0 0) ∷ []);
  exists = true;
}

abbrev listed : cluster.State
listed = with_secret directory.secret no_secrets

directory_run : new_directory cluster "ns" listed ≡ ok directory
unfolding new_directory
directory_run = refl

abbrev removed : Result (Unit {0}) × Directory × cluster.State
removed = remove_entry cluster "i" directory listed

remove_run : remove_entry cluster "i" directory listed ≡ (ok tt, removed.1, removed.2)
unfolding remove_entry lookup
remove_run = refl

get_directory_instance-delete_example :
    (delete_directory_instance cluster "ns" "i" listed ≡ removed.2)
    × ((j : String)
        → get_directory_instance cluster "ns" j removed.2
          ≡ (if "i" == j then entry_in "ns" else get_directory_instance cluster "ns" j listed))
get_directory_instance-delete_example =
    get_directory_instance-delete cluster cluster-KeepsSecrets "ns" "i" directory removed.1 listed
      removed.2 directory_run remove_run

abbrev change : Body UpdateServiceInstanceRequest
change = parsed (record { context = none; service_id = "service"; plan_id = ""; parameters = none })

update_service_instance-guards_example :
    Untouched fresh (update_service_instance cluster with_token config http change fresh).1
    ⊎ IsUpdatable cluster with_token config http change no_secrets
update_service_instance-guards_example =
    update_service_instance-guards cluster with_token config http change fresh
