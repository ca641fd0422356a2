-- ===== src/Operation.antt =====
-- pkg/operation/operation.go: the asynchronous operation in progress on a registry entry, kept in
-- three of its keys. A session is the entry and the state outside the process.
pub mod Phases
pub mod Machine
use service_broker_k8s.Base.{String, Option, none, some, [], ◌∷◌, sprintf}
use service_broker_k8s.Errors.{Error, Result, ok, err, panic, other, message}
use service_broker_k8s.Exec.{Exec, raise, pure, ◌>>=◌, ◌>>◌}
use service_broker_k8s.Env.{Env}
use service_broker_k8s.Registry.{Entry, get_string, set_string, unset, commit}
use service_broker_k8s.Registry.Key

-- `operation.Type`
pub data OperationType : Type 0 where
  provision update deprovision : OperationType

unfoldable pub type_text : OperationType → String
type_text provision = "provision"
type_text update = "update"
type_text deprovision = "deprovision"

-- `status.Error()`, or the empty text.
unfoldable pub error_text : Option Error → String
unfolding message
error_text none = ""
error_text (some e) = message e

abbrev pub operation_exists : String → Error
operation_exists op =
    other (sprintf ("operation exists: " ∷ op ∷ " operation already exists for instance" ∷ []))

abbrev pub operation_missing : Error
operation_missing = other "operation doesn't exist:  operation does not exist for instance"

-- The three `Unset` calls of `End`.
unfoldable pub unset_operation : Entry → Entry
unset_operation e = unset Key.operation_status (unset Key.operation_id (unset Key.operation e))

module _ (env : Env) where
  open env use {State, new_uuid}

  abbrev pub Session : Type 0
  Session = Entry × State

  -- An update of the entry in memory, which may fail and then changes nothing.
  abbrev pub set_entry : (Entry → Result Entry) → Exec Session (Unit {0})
  set_entry f (e, s) = elim (f e) [
    | ok e' ↦ (ok tt, (e', s))
    | err r ↦ (err r, (e, s))
    | panic ↦ (panic, (e, s))
  ]

  abbrev pub read_entry : {A : Type 0} → (Entry → Result A) → Exec Session A
  read_entry f (e, s) = (f e, (e, s))

  abbrev pub commit_entry : Exec Session (Unit {0})
  commit_entry (e, s) = let (r, e', s') = commit env e s in (r, (e', s'))

  abbrev fresh_id : Exec Session String
  fresh_id (e, s) = let (id, s') = new_uuid s in (ok id, (e, s'))

  abbrev not_running : Option String → Exec Session (Unit {0})
  not_running none = pure tt
  not_running (some op) = raise (operation_exists op)

  abbrev is_running : Option String → Exec Session (Unit {0})
  is_running none = raise operation_missing
  is_running (some _) = pure tt

  -- `Start`
  unfoldable pub start : OperationType → Exec Session (Unit {0})
  start t = do
    op ← read_entry (get_string Key.operation)
    not_running op
    id ← fresh_id
    set_entry (set_string Key.operation (type_text t))
    set_entry (set_string Key.operation_id id)
    commit_entry

  -- `Complete`
  unfoldable pub complete : Option Error → Exec Session (Unit {0})
  complete status = do
    op ← read_entry (get_string Key.operation)
    is_running op
    set_entry (set_string Key.operation_status (error_text status))
    commit_entry

  -- `End`
  unfoldable pub finish : Exec Session (Unit {0})
  finish = do
    op ← read_entry (get_string Key.operation)
    is_running op
    set_entry (λ e. ok (unset_operation e))
    commit_entry
