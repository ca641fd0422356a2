-- ===== src/System/Deletions.antt =====
-- The end of a deletion that runs in the background.
use service_broker_k8s.Base.{true, false, ◌≡◌, ◌≢◌, refl, List, test_of_ne}
use service_broker_k8s.Errors.{ok}
use service_broker_k8s.Env.{Env}
use service_broker_k8s.Config.{ServiceBrokerConfig}
use service_broker_k8s.Http.{Request, empty_object}
use service_broker_k8s.Registry.{Entry, delete, resource_name}
use service_broker_k8s.Registry.Key
use service_broker_k8s.Registry.Persistence.{KeepsSecrets, new-delete}
use service_broker_k8s.Provisioner.Creator.{run_deleter}
use service_broker_k8s.Broker.Auth.{ServerConfiguration}
use service_broker_k8s.Broker.Instance.{poll_service_instance}
use service_broker_k8s.Broker.Handler.{Ctx, Job, delete_job, returned, answered}
use service_broker_k8s.Broker.Steps.{namespace_of_instance, response}
use service_broker_k8s.System.{System, run_job, after_job}

module _ (env : Env) (configuration : ServerConfiguration) (laws : KeepsSecrets env) where
  -- A deletion that runs in the background, and whose entry exists and can be deleted, ends with the
  -- deleted entry and without its job. A poll that comes next, of the instance by its namespace and
  -- its ID, answers that it is gone, and changes nothing.
  pub deletion_job-ends :
      (b : System env.State) (config : ServiceBrokerConfig) (others : List Job) (e : Entry)
      (s' : env.State) (r : Request) (c : Ctx env.State)
      → e.exists ≡ true
      → delete env e b.active.outside ≡ (ok tt, s')
      → r.instance_id ≢ ""
      → namespace_of_instance env configuration r s' ≡ e.secret.namespace
      → e.secret.name ≡ resource_name Key.service_instance r.instance_id
      → (after_job env (run_job env config (delete_job e) b.active.outside) b others
          ≡ record { active = record b.active { outside = s' }; pending = others })
        × (poll_service_instance env configuration r (record c { outside = s' })
            ≡ (returned, answered (response 410 empty_object) s' c))
  unfolding run_job run_deleter poll_service_instance
  deletion_job-ends b config others e s' r c exists deleted named placed identified =
      let (found, absent, is_gone) =
        new-delete env laws Key.service_instance r.instance_id false e b.active.outside s'
          identified exists deleted in
      (rw deleted refl, rw (test_of_ne named, placed, absent, is_gone) refl)
