-- ===== src/Operation/Phases.antt =====
-- The life of an asynchronous operation as a state machine over the three keys of the registry.
use service_broker_k8s.Base.{
  String, sym, ◌∙◌, eq_iff, ◌≡◌, ◌≢◌, Option, none, some, arith, ◌==◌, if◌then◌else◌,
}
use service_broker_k8s.Errors.{Error, Result, ok, err}
use service_broker_k8s.Env.{Env, answer}
use service_broker_k8s.Registry.{Entry, get_string, unset, commit}
use service_broker_k8s.Registry.Key
use service_broker_k8s.Registry.Values.{put, set_string_total, get_string-put, get_string-unset}
use service_broker_k8s.Registry.Persistence.{KeepsSecrets, get_string-commit, commit-Committed}
use service_broker_k8s.Operation.{
  OperationType, type_text, error_text, Session, operation_exists, operation_missing,
  unset_operation, start, complete, finish,
}

-- No operation, one that runs, and one that has ended with a status that nobody has polled.
pub data Phase : Type 0 where
  idle : Phase
  running : (op id : String) → Phase
  completed : (op id status : String) → Phase

-- What the three keys hold in each phase.
abbrev Holds : Entry → (op id status : Option String) → Type 0
Holds e op id status =
    (get_string Key.operation e ≡ ok op)
    × (get_string Key.operation_id e ≡ ok id)
    × (get_string Key.operation_status e ≡ ok status)

abbrev pub InPhase : Phase → Entry → Type 0
InPhase idle e = Holds e none none none
InPhase (running op id) e = Holds e (some op) (some id) none
InPhase (completed op id status) e = Holds e (some op) (some id) (some status)

-- The keys that do not belong to the operation.
abbrev pub IsOtherKey : String → Type 0
IsOtherKey k = (k ≢ Key.operation) × (k ≢ Key.operation_id) × (k ≢ Key.operation_status)

module _ (env : Env) where
  abbrev started : OperationType → Entry → env.State → Entry
  started t e s = put Key.operation_id (env.new_uuid s).0 (put Key.operation (type_text t) e)

  abbrev stopped : Option Error → Entry → Entry
  stopped status e = put Key.operation_status (error_text status) e

  abbrev then_commit : Entry → env.State → Result (Unit {0}) × Session env
  then_commit e s = let (r, e', s') = commit env e s in (r, (e', s'))

  start_idle :
      (t : OperationType) (e : Entry) (s : env.State)
      → get_string Key.operation e ≡ ok none
      → start env t (e, s) ≡ then_commit (started t e s) (env.new_uuid s).1
  unfolding start
  start_idle t e s h = ground (
    arith,
    set_string_total Key.operation (type_text t) e,
    set_string_total Key.operation_id (env.new_uuid s).0 (put Key.operation (type_text t) e),
  )

  -- An operation is not started while another one is recorded: the call reports it, and neither
  -- the entry nor the cluster changes.
  pub start_refused :
      (t : OperationType) (op : String) (e : Entry) (s : env.State)
      → get_string Key.operation e ≡ ok (some op)
      → start env t (e, s) ≡ (err (operation_exists op), (e, s))
  unfolding start
  start_refused t op e s h = ground arith

  complete_running :
      (status : Option Error) (op : String) (e : Entry) (s : env.State)
      → get_string Key.operation e ≡ ok (some op)
      → complete env status (e, s) ≡ then_commit (stopped status e) s
  unfolding complete
  complete_running status op e s h =
      ground (arith, set_string_total Key.operation_status (error_text status) e)

  finish_running :
      (op : String) (e : Entry) (s : env.State)
      → get_string Key.operation e ≡ ok (some op)
      → finish env (e, s) ≡ then_commit (unset_operation e) s
  unfolding finish
  finish_running op e s h = ground arith

  -- Without an operation there is nothing to complete or to end: both calls report it and change
  -- nothing.
  pub idle_refused :
      (status : Option Error) (e : Entry) (s : env.State)
      → get_string Key.operation e ≡ ok none
      → (complete env status (e, s) ≡ (err operation_missing, (e, s)))
        × (finish env (e, s) ≡ (err operation_missing, (e, s)))
  unfolding complete finish
  idle_refused status e s h = (ground arith, ground arith)

  commits :
      (x e' : Entry) (s s' : env.State)
      → then_commit x s ≡ (ok tt, (e', s'))
      → commit env x s ≡ (ok tt, e', s')
  commits x e' s s' h = ground arith

  get_string-started :
      (k : String) (t : OperationType) (e : Entry) (s : env.State)
      → get_string k (started t e s) ≡ (
          if Key.operation_id == k
          then ok (some (env.new_uuid s).0)
          else if Key.operation == k
          then ok (some (type_text t))
          else get_string k e)
  get_string-started k t e s = ground (
    arith,
    get_string-put Key.operation_id k (env.new_uuid s).0 (put Key.operation (type_text t) e),
    get_string-put Key.operation k (type_text t) e,
  )

  get_string-unset_operation :
      (k : String) (e : Entry)
      → get_string k (unset_operation e) ≡ (
          if Key.operation_status == k
          then ok none
          else if Key.operation_id == k
          then ok none
          else if Key.operation == k
          then ok none
          else get_string k e)
  unfolding unset_operation
  get_string-unset_operation k e = ground (
    arith,
    get_string-unset Key.operation_status k (unset Key.operation_id (unset Key.operation e)),
    get_string-unset Key.operation_id k (unset Key.operation e),
    get_string-unset Key.operation k e,
  )

  -- A start that succeeds takes an idle entry to a running operation of its type, under the ID that
  -- was drawn for it, and changes no other key.
  pub start_transition :
      (laws : KeepsSecrets env) (t : OperationType) (e e' : Entry) (s s' : env.State)
      → InPhase idle e
      → start env t (e, s) ≡ (ok tt, (e', s'))
      → InPhase (running (type_text t) (env.new_uuid s).0) e'
        × ((k : String) → IsOtherKey k → get_string k e' ≡ get_string k e)
  start_transition laws t e e' s s' (op, id, status) h =
      let u = (env.new_uuid s).1 in
      let c = commits (started t e s) e' u s' (sym (start_idle t e s op) ∙ h) in
      let now = λ (k : String).
        get_string-commit env laws k (started t e s) e' u s' c ∙ get_string-started k t e s in
      (
        (now Key.operation, now Key.operation_id, now Key.operation_status ∙ status),
        λ k other_key. ground (arith, now k, eq_iff Key.operation_id k, eq_iff Key.operation k),
      )

  -- A completion that succeeds records the text of its error, or the empty text, and changes no
  -- other key.
  pub complete-get_string :
      (laws : KeepsSecrets env) (status : Option Error) (op : String) (e e' : Entry)
      (s s' : env.State) (k : String)
      → get_string Key.operation e ≡ ok (some op)
      → complete env status (e, s) ≡ (ok tt, (e', s'))
      → get_string k e'
        ≡ (if Key.operation_status == k then ok (some (error_text status)) else get_string k e)
  complete-get_string laws status op e e' s s' k has_op h =
      get_string-commit env laws k (stopped status e) e' s s'
        (commits (stopped status e) e' s s' (sym (complete_running status op e s has_op) ∙ h))
      ∙ get_string-put Key.operation_status k (error_text status) e

  -- After it the cluster holds the entry as it is in memory.
  pub complete-stored :
      (laws : KeepsSecrets env) (status : Option Error) (op : String) (e e' : Entry)
      (s s' : env.State)
      → get_string Key.operation e ≡ ok (some op)
      → complete env status (e, s) ≡ (ok tt, (e', s'))
      → env.get_secret e'.secret.namespace e'.secret.name s' ≡ answer e'.secret
  complete-stored laws status op e e' s s' has_op h =
      let done =
        commit-Committed env laws (stopped status e) e' s s'
          (commits (stopped status e) e' s s' (sym (complete_running status op e s has_op) ∙ h)) in
      ground (arith, done.stored, done.same_namespace, done.same_name)

  -- A completion that succeeds takes a running operation to a completed one with the text of its
  -- error, or the empty text, and changes no other key.
  pub complete_transition :
      (laws : KeepsSecrets env) (status : Option Error) (op id : String) (e e' : Entry)
      (s s' : env.State)
      → InPhase (running op id) e
      → complete env status (e, s) ≡ (ok tt, (e', s'))
      → InPhase (completed op id (error_text status)) e'
        × ((k : String) → IsOtherKey k → get_string k e' ≡ get_string k e)
  complete_transition laws status op id e e' s s' (has_op, has_id, no_status) h =
      let now = λ (k : String). complete-get_string laws status op e e' s s' k has_op h in
      (
        (now Key.operation ∙ has_op, now Key.operation_id ∙ has_id, now Key.operation_status),
        λ k other_key. ground (arith, now k, eq_iff Key.operation_status k),
      )

  -- The end of an operation, completed or not, takes the entry back to idle, and changes no other
  -- key.
  pub finish_transition :
      (laws : KeepsSecrets env) (op : String) (e e' : Entry) (s s' : env.State)
      → get_string Key.operation e ≡ ok (some op)
      → finish env (e, s) ≡ (ok tt, (e', s'))
      → InPhase idle e' × ((k : String) → IsOtherKey k → get_string k e' ≡ get_string k e)
  finish_transition laws op e e' s s' has_op h =
      let c = commits (unset_operation e) e' s s' (sym (finish_running op e s has_op) ∙ h) in
      let now = λ (k : String).
        get_string-commit env laws k (unset_operation e) e' s s' c
        ∙ get_string-unset_operation k e in
      (
        (now Key.operation, now Key.operation_id, now Key.operation_status),
        λ k other_key. ground (
          arith,
          now k,
          eq_iff Key.operation_status k,
          eq_iff Key.operation_id k,
          eq_iff Key.operation k,
        ),
      )

  -- What a start that succeeds records, whatever the status of an earlier operation is.
  pub start-get_string :
      (laws : KeepsSecrets env) (t : OperationType) (e e' : Entry) (s s' : env.State)
      → start env t (e, s) ≡ (ok tt, (e', s'))
      → get_string Key.operation e ≡ ok none
      → (get_string Key.operation e' ≡ ok (some (type_text t)))
        × (get_string Key.operation_id e' ≡ ok (some (env.new_uuid s).0))
        × ((k : String) → IsOtherKey k → get_string k e' ≡ get_string k e)
  start-get_string laws t e e' s s' h op =
      let u = (env.new_uuid s).1 in
      let c = commits (started t e s) e' u s' (sym (start_idle t e s op) ∙ h) in
      let now = λ (k : String).
        get_string-commit env laws k (started t e s) e' u s' c ∙ get_string-started k t e s in
      (
        now Key.operation,
        now Key.operation_id,
        λ k other_key. ground (arith, now k, eq_iff Key.operation_id k, eq_iff Key.operation k),
      )

  -- After a start that succeeds the cluster holds the entry as it is in memory.
  pub start-stored :
      (laws : KeepsSecrets env) (t : OperationType) (e e' : Entry) (s s' : env.State)
      → start env t (e, s) ≡ (ok tt, (e', s'))
      → get_string Key.operation e ≡ ok none
      → env.get_secret e'.secret.namespace e'.secret.name s' ≡ answer e'.secret
  start-stored laws t e e' s s' h op =
      let u = (env.new_uuid s).1 in
      let c = commits (started t e s) e' u s' (sym (start_idle t e s op) ∙ h) in
      let done = commit-Committed env laws (started t e s) e' u s' c in
      ground (arith, done.stored, done.same_namespace, done.same_name)
