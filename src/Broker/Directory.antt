-- ===== src/Broker/Directory.antt =====
-- pkg/broker/util.go: the directory entries of service instances.
pub mod Laws
use service_broker_k8s.Base.{String, Option, [], ◌∷◌, ◌==◌, if◌then◌else◌, sprintf}
use service_broker_k8s.Errors.{Result, ok, err, panic, configuration_error, ◌>>=◌}
use service_broker_k8s.Json.{Bytes}
use service_broker_k8s.Env.{Env}
use service_broker_k8s.Config.{ServiceBrokerConfig, ConfigurationBinding, get_template_bindings}
use service_broker_k8s.Registry.Directory.{
  Directory, DirectoryEntry, new_directory, add, lookup_entry, remove_entry,
}
use service_broker_k8s.Broker.{get_namespace}

abbrev pub entry_in : String → DirectoryEntry
entry_in namespace = record { namespace = namespace }

module _ (env : Env) where
  open env use {State}

  -- The namespace of a new instance's registry.
  unfoldable pub registry_namespace :
      ConfigurationBinding → Option (Option Bytes) → String → Result String
  unfolding get_namespace
  registry_namespace binding context namespace =
      if binding.registry_scope == ""
      then ok namespace
      else if binding.registry_scope == "BrokerLocal"
      then ok namespace
      else if binding.registry_scope == "Explicit"
      then ok binding.registry_namespace
      else if binding.registry_scope == "InstanceLocal"
      then get_namespace env context namespace
      else err (
          configuration_error
            (sprintf ("unable to resolve registry namespace type " ∷ binding.registry_scope ∷ [])))

  -- The directory and the entry that `registerDirectoryInstance` adds to it, read before the write.
  abbrev pub registration :
      ServiceBrokerConfig
      → Option (Option Bytes)
      → (namespace service_id plan_id : String) → State
      → Result (Directory × DirectoryEntry)
  registration config context namespace service_id plan_id s = do
    binding ← get_template_bindings config service_id plan_id
    chosen ← registry_namespace binding context namespace
    directory ← new_directory env namespace s
    ok (directory, entry_in chosen)

  abbrev pub added :
      DirectoryEntry → Result (Unit {0}) × Directory × State → Result DirectoryEntry × State
  added dirent (ok _, _, s) = (ok dirent, s)
  added dirent (err e, _, s) = (err e, s)
  added dirent (panic, _, s) = (panic, s)

  abbrev pub register :
      String → Result (Directory × DirectoryEntry) → State → Result DirectoryEntry × State
  register instance_id (ok (directory, dirent)) s =
      added dirent (add env instance_id dirent directory s)
  register instance_id (err e) s = (err e, s)
  register instance_id panic s = (panic, s)

  -- `registerDirectoryInstance`
  unfoldable pub register_directory_instance :
      ServiceBrokerConfig
      → Option (Option Bytes)
      → (namespace instance_id service_id plan_id : String) → State
      → Result DirectoryEntry × State
  unfolding get_template_bindings registry_namespace new_directory add
  register_directory_instance config context namespace instance_id service_id plan_id s =
      register instance_id (registration config context namespace service_id plan_id s) s

  abbrev pub or_fake : String → Result DirectoryEntry → DirectoryEntry
  or_fake namespace (ok dirent) = dirent
  or_fake namespace _ = entry_in namespace

  -- `getDirectoryInstance`; any error gives the namespace of the broker.
  unfoldable pub get_directory_instance : (namespace instance_id : String) → State → DirectoryEntry
  unfolding new_directory lookup_entry
  get_directory_instance namespace instance_id s =
      or_fake namespace (new_directory env namespace s >>= λ d. lookup_entry d instance_id)

  abbrev remove_if_read : String → Result Directory → State → State
  remove_if_read instance_id (ok d) s = (remove_entry env instance_id d s).2
  remove_if_read instance_id _ s = s

  -- `deleteDirectoryInstance`; errors are passed over.
  unfoldable pub delete_directory_instance : (namespace instance_id : String) → State → State
  unfolding new_directory remove_entry
  delete_directory_instance namespace instance_id s =
      remove_if_read instance_id (new_directory env namespace s) s
