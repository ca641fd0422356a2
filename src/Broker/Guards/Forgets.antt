-- ===== src/Broker/Guards/Forgets.antt =====
-- handleDeleteServiceInstance of pkg/broker/handlers.go: what a deletion that is refused has done.
use service_broker_k8s.Base.{String, true, false, ◌≡◌, ◌≢◌, refl, ◌==◌, if◌then◌else◌, test_of_ne}
use service_broker_k8s.Errors.{Error, ok, err}
use service_broker_k8s.Env.{Env}
use service_broker_k8s.Http.{Request, json_error}
use service_broker_k8s.Registry.{Entry, new}
use service_broker_k8s.Registry.Key
use service_broker_k8s.Registry.Directory.{Directory, new_directory, remove_entry}
use service_broker_k8s.Registry.Persistence.{KeepsSecrets}
use service_broker_k8s.Broker.{async_required, get_single_parameter}
use service_broker_k8s.Broker.Auth.{ServerConfiguration}
use service_broker_k8s.Broker.Instance.{delete_service_instance}
use service_broker_k8s.Broker.Directory.{entry_in, get_directory_instance}
use service_broker_k8s.Broker.Directory.Laws.{get_directory_instance-delete}
use service_broker_k8s.Broker.Handler.{Ctx, returned, answered}
use service_broker_k8s.Broker.Steps.{namespace_of_instance}

module _ (env : Env) (configuration : ServerConfiguration) where
  -- A deletion of an instance that exists, whose query names no service: `s'` is the state after the
  -- directory entry is removed.
  pub record IsUnnamed (r : Request) (e : Error) (s s' : env.State) : Type 0 where
    pub directory : Directory
    pub after : Directory
    pub entry : Entry
    pub accepts_incomplete : async_required r ≡ ok tt
    pub named : r.instance_id ≢ ""
    pub read : new_directory env configuration.namespace s ≡ ok directory
    pub removed : remove_entry env r.instance_id directory s ≡ (ok tt, after, s')
    pub found :
        new env Key.service_instance
          (namespace_of_instance env configuration r s)
          r.instance_id
          false
          s'
        ≡ ok entry
    pub exists : entry.exists ≡ true
    pub no_service : get_single_parameter r "service_id" ≡ err e

  -- A deletion of an instance that exists, whose directory entry can be removed and whose query
  -- names no service, is refused with that error and starts no job, but the directory entry is
  -- removed: the instance is looked for in the broker's namespace from then on, and every other
  -- instance where it was found before.
  pub delete_service_instance-forgets :
      (laws : KeepsSecrets env) (r : Request) (e : Error) (c : Ctx env.State) (s' : env.State)
      → IsUnnamed r e c.outside s'
      → (delete_service_instance env configuration r c ≡ (returned, answered (json_error e) s' c))
        × ((j : String)
            → get_directory_instance env configuration.namespace j s' ≡ (
                if r.instance_id == j
                then entry_in configuration.namespace
                else get_directory_instance env configuration.namespace j c.outside))
  unfolding delete_service_instance
  delete_service_instance-forgets laws r e c s' x =
      let (gone, others) =
        get_directory_instance-delete env laws configuration.namespace r.instance_id x.directory
          x.after c.outside s' x.read x.removed in
      let d = record c { outside = s' } in
      (
        rw (x.accepts_incomplete, test_of_ne x.named, gone, x.found, x.exists, x.no_service) refl,
        others,
      )
