-- ===== src/Tests/Registry.antt =====
-- The theorems about the registry and about operations at concrete entries.
use service_broker_k8s.Base.{◌≡◌, ◌≢◌, refl, true, false, some, [], ◌∷◌, inr}
use service_broker_k8s.Base.Dict.{lookup, insert, remove}
use service_broker_k8s.Errors.{Result, ok, err, other}
use service_broker_k8s.Json.{str, number, marshal}
use service_broker_k8s.Registry.{
  set_string, find_key_policy, key_policies, Entry, find, get_string, set_user, commit,
}
use service_broker_k8s.Registry.Key
use service_broker_k8s.Registry.Permissions.{set_user-protects}
use service_broker_k8s.Registry.Directory.{Directory, add, remove_entry, directory_name}
use service_broker_k8s.Operation.{Session, provision, start, complete, type_text}
use service_broker_k8s.Operation.{operation_exists, update}
use service_broker_k8s.Operation.Machine.{starting, step, perform, perform-steps, perform-refused}
use service_broker_k8s.Operation.Phases.{Phase, InPhase, idle, running, start_transition}
use service_broker_k8s.Tests.Cluster.{
  cluster, no_secrets, cluster-KeepsSecrets, secret_of, with_secret,
}

-- An entry with a plan, which is not in the cluster yet.
abbrev entry : Entry
entry = record {
  secret = secret_of "ns" "registry-service-instance-i" ((Key.plan_id, marshal (str "p")) ∷ []);
  exists = false;
  read_only = false;
}

-- The entry after a template has written a key of its own.
abbrev written_entry : Entry
written_entry = record entry {
  secret =
      secret_of "ns" "registry-service-instance-i"
        ((Key.plan_id, marshal (str "p")) ∷ ("port", marshal (number 7)) ∷ []);
}

set_user_run : set_user "port" (number 7) entry ≡ ok written_entry
unfolding set_user find_key_policy key_policies insert
set_user_run = refl

set_user-protects_example :
    (find Key.plan_id written_entry ≡ find Key.plan_id entry) × ("port" ≢ Key.plan_id)
set_user-protects_example =
    set_user-protects "port" Key.plan_id (number 7) entry written_entry set_user_run
      (inr (inr (inr (inr refl))))

-- The committed entry, and the cluster that holds it.
abbrev committed : Entry
committed = record entry { exists = true }

abbrev secrets : cluster.State
secrets = with_secret entry.secret no_secrets

commit_run : commit cluster entry no_secrets ≡ (ok tt, committed, secrets)
unfolding commit
commit_run = refl

-- A run of an operation on the entry, from its start to its end.
abbrev after_start : Result (Unit {0}) × Session cluster
after_start = start cluster provision (entry, no_secrets)

abbrev after_complete : Result (Unit {0}) × Session cluster
after_complete = complete cluster (some (other "failure")) after_start.1

entry-InPhase : InPhase idle entry
unfolding get_string lookup
entry-InPhase = (refl, refl, refl)

start_run : start cluster provision (entry, no_secrets) ≡ (ok tt, after_start.1)
unfolding start get_string lookup insert set_string commit
start_run = refl

started-InPhase : InPhase (running "provision" "id") after_start.1.0
unfolding type_text
started-InPhase =
    (start_transition cluster cluster-KeepsSecrets provision entry after_start.1.0 no_secrets
      after_start.1.1 entry-InPhase start_run).0

-- A directory that is empty, and one with an instance.
abbrev directory : Directory
directory = record { secret = secret_of "ns" directory_name []; exists = true }

abbrev listed : cluster.State
listed = with_secret directory.secret no_secrets

abbrev after_add : Result (Unit {0}) × Directory × cluster.State
after_add = add cluster "i" (record { namespace = "there" }) directory listed

abbrev after_remove : Result (Unit {0}) × Directory × cluster.State
after_remove = remove_entry cluster "i" after_add.1 after_add.2

remove_run :
    remove_entry cluster "i" after_add.1 after_add.2 ≡ (ok tt, after_remove.1, after_remove.2)
unfolding remove_entry add insert lookup remove
remove_run = refl

perform-steps_example :
    (q : Phase) × (step (starting provision) (cluster.new_uuid no_secrets).0 idle ≡ ok q)
    × InPhase q after_start.1.0
perform-steps_example =
    perform-steps cluster cluster-KeepsSecrets (starting provision) idle entry after_start.1.0
      no_secrets after_start.1.1 entry-InPhase start_run

perform-refused_example :
    perform cluster (starting update) after_start.1
    ≡ (err (operation_exists "provision"), after_start.1)
perform-refused_example =
    perform-refused cluster (starting update) (running "provision" "id") after_start.1.0
      after_start.1.1 (operation_exists "provision") started-InPhase refl
