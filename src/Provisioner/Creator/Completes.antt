-- ===== src/Provisioner/Creator/Completes.antt =====
-- `Run` of pkg/provisioners/create.go: the status that a creation leaves.
use service_broker_k8s.Base.{String, ◌≡◌, ◌≢◌, refl, Option, none, some, arith}
use service_broker_k8s.Errors.{Error, Result, ok, err, panic}
use service_broker_k8s.Env.{Env}
use service_broker_k8s.Config.{ServiceBrokerConfig}
use service_broker_k8s.Registry.{Entry, get_string}
use service_broker_k8s.Registry.Persistence.{KeepsSecrets}
use service_broker_k8s.Operation.{complete, error_text}
use service_broker_k8s.Operation.Phases.{
  InPhase, running, completed, IsOtherKey, complete_transition,
}
use service_broker_k8s.Provisioner.Creator.{Creator, run, run_creator, complete_with}

-- The error of a run, if it ended with one.
abbrev pub error_of : Result (Unit {0}) → Option Error
error_of (err e) = some e
error_of _ = none

module _ (env : Env) (config : ServiceBrokerConfig) where
  pub complete_with_lem :
      (r : Result (Unit {0})) (s : env.State) (e : Entry)
      → r ≢ panic
      → complete_with env (r, s) e ≡ (ok tt, (complete env (error_of r) (e, s)).1)
  complete_with_lem (ok u) s e h = refl
  complete_with_lem (err r) s e h = refl
  complete_with_lem panic s e h = absurd (h refl)

  -- A creation that runs in the background without a panic always leaves the operation completed,
  -- under the same ID, with the error of its first step that failed or else with the empty text, if
  -- this can be written to the registry; it changes no other key.
  pub run_creator_transition :
      (laws : KeepsSecrets env) (p : Creator) (op id : String) (e e' : Entry) (s s' : env.State)
      → InPhase (running op id) e
      → (run env config p e s).0 ≢ panic
      → complete env (error_of (run env config p e s).0) (e, (run env config p e s).1)
        ≡ (ok tt, (e', s'))
      → (run_creator env config p (e, s) ≡ (ok tt, (e', s')))
        × InPhase (completed op id (error_text (error_of (run env config p e s).0))) e'
        × ((k : String) → IsOtherKey k → get_string k e' ≡ get_string k e)
  unfolding run_creator
  run_creator_transition laws p op id e e' s s' phase calm h =
      let out = run env config p e s in
      let (ended, kept) =
        complete_transition env laws (error_of out.0) op id e e' out.1 s' phase h in
      (ground (arith, complete_with_lem out.0 out.1 e calm, h), ended, kept)
