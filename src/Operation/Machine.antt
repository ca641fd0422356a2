-- ===== src/Operation/Machine.antt =====
-- What the functions of pkg/operation/operation.go promise of an entry, as an abstract machine over
-- the phases of an operation, and that they implement it.
use service_broker_k8s.Base.{String, ◌≡◌, refl, ap, ◌∙◌, Option, none, some}
use service_broker_k8s.Errors.{Error, Result, ok, err}
use service_broker_k8s.Exec.{Exec}
use service_broker_k8s.Env.{Env}
use service_broker_k8s.Registry.{Entry, get_string}
use service_broker_k8s.Registry.Key
use service_broker_k8s.Registry.Persistence.{KeepsSecrets}
use service_broker_k8s.Operation.{
  OperationType, type_text, error_text, Session, operation_exists, operation_missing, start,
  complete, finish,
}
use service_broker_k8s.Operation.Phases.{
  Phase, idle, running, completed, InPhase, start_transition, complete-get_string,
  finish_transition, start_refused, idle_refused,
}

-- A call of `Start`, `Complete` or `End`.
pub data Call : Type 0 where
  starting : OperationType → Call
  completing : Option Error → Call
  ending : Call

-- The machine: the phase after a call, with the ID that a start draws, or the error of the call.
abbrev pub step : Call → (id : String) → Phase → Result Phase
step (starting t) id idle = ok (running (type_text t) id)
step (starting t) id (running op _) = err (operation_exists op)
step (starting t) id (completed op _ _) = err (operation_exists op)
step (completing status) id idle = err operation_missing
step (completing status) id (running op id') = ok (completed op id' (error_text status))
step (completing status) id (completed op id' _) = ok (completed op id' (error_text status))
step ending id idle = err operation_missing
step ending id (running op _) = ok idle
step ending id (completed op _ _) = ok idle

err_injective : {r r' : Error} → ◌≡◌ {A = Result Phase} (err r) (err r') → r ≡ r'
err_injective h = cc

module _ (env : Env) where
  open env use {State, new_uuid}

  -- The function that a call runs.
  abbrev pub perform : Call → Exec (Session env) (Unit {0})
  perform (starting t) = start env t
  perform (completing status) = complete env status
  perform ending = finish env

  -- A call that the machine refuses is refused with the same error, and changes nothing.
  pub perform-refused :
      (c : Call) (p : Phase) (e : Entry) (s : State) (r : Error)
      → InPhase p e
      → step c (new_uuid s).0 p ≡ err r
      → perform c (e, s) ≡ (err r, (e, s))
  perform-refused (starting t) idle e s r phase refused = cc
  perform-refused (starting t) (running op id) e s r phase refused =
      start_refused env t op e s phase.0 ∙ ap (λ x. (err x, (e, s))) (err_injective refused)
  perform-refused (starting t) (completed op id status) e s r phase refused =
      start_refused env t op e s phase.0 ∙ ap (λ x. (err x, (e, s))) (err_injective refused)
  perform-refused (completing status) idle e s r phase refused =
      (idle_refused env status e s phase.0).0 ∙ ap (λ x. (err x, (e, s))) (err_injective refused)
  perform-refused (completing status) (running op id) e s r phase refused = cc
  perform-refused (completing status) (completed op id old) e s r phase refused = cc
  perform-refused ending idle e s r phase refused =
      (idle_refused env none e s phase.0).1 ∙ ap (λ x. (err x, (e, s))) (err_injective refused)
  perform-refused ending (running op id) e s r phase refused = cc
  perform-refused ending (completed op id status) e s r phase refused = cc

  not_refused :
      {x : Result (Unit {0}) × Session env} {r : Error} {y z : Session env}
      → x ≡ (err r, y)
      → x ≡ (ok tt, z)
      → ⊥
  not_refused h k = cc

  -- A completion also replaces the status of an operation that has ended already.
  completes :
      (laws : KeepsSecrets env) (status : Option Error) (op id : String) (e e' : Entry)
      (s s' : State)
      → get_string Key.operation e ≡ ok (some op)
      → get_string Key.operation_id e ≡ ok (some id)
      → complete env status (e, s) ≡ (ok tt, (e', s'))
      → InPhase (completed op id (error_text status)) e'
  completes laws status op id e e' s s' has_op has_id done =
      let now = λ (k : String). complete-get_string env laws status op e e' s s' k has_op done in
      (now Key.operation ∙ has_op, now Key.operation_id ∙ has_id, now Key.operation_status)

  -- A call that succeeds is a step of the machine.
  pub perform-steps :
      (laws : KeepsSecrets env) (c : Call) (p : Phase) (e e' : Entry) (s s' : State)
      → InPhase p e
      → perform c (e, s) ≡ (ok tt, (e', s'))
      → (q : Phase) × (step c (new_uuid s).0 p ≡ ok q) × InPhase q e'
  perform-steps laws (starting t) idle e e' s s' phase done =
      (_, refl, (start_transition env laws t e e' s s' phase done).0)
  perform-steps laws (starting t) (running op id) e e' s s' phase done =
      absurd (not_refused (start_refused env t op e s phase.0) done)
  perform-steps laws (starting t) (completed op id status) e e' s s' phase done =
      absurd (not_refused (start_refused env t op e s phase.0) done)
  perform-steps laws (completing status) idle e e' s s' phase done =
      absurd (not_refused (idle_refused env status e s phase.0).0 done)
  perform-steps laws (completing status) (running op id) e e' s s' phase done =
      (_, refl, completes laws status op id e e' s s' phase.0 phase.1 done)
  perform-steps laws (completing status) (completed op id old) e e' s s' phase done =
      (_, refl, completes laws status op id e e' s s' phase.0 phase.1 done)
  perform-steps laws ending idle e e' s s' phase done =
      absurd (not_refused (idle_refused env none e s phase.0).1 done)
  perform-steps laws ending (running op id) e e' s s' phase done =
      (_, refl, (finish_transition env laws op e e' s s' phase.0 done).0)
  perform-steps laws ending (completed op id status) e e' s s' phase done =
      (_, refl, (finish_transition env laws op e e' s s' phase.0 done).0)
