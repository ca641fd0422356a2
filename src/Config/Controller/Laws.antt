-- ===== src/Config/Controller/Laws.antt =====
-- pkg/config/config.go: which configurations become active, and when the status is written.
use service_broker_k8s.Base.{
  ℕ, String, true, ◌≡◌, inl, inr, refl, Option, none, some, List, [], ◌∷◌, ◌==◌, arith, Bool-cases,
  eq_of_test, eq_refl, nat_eq, sym, ap,
}
use service_broker_k8s.Errors.{Result, ok, err, panic}
use service_broker_k8s.Env.{Env}
use service_broker_k8s.Config.{ServiceBrokerConfig, ConfigCondition}
use service_broker_k8s.Config.Validation.{validate}
use service_broker_k8s.Config.Controller.{
  condition_of, retain_time, same_status, Active, Event, created, updated, deleted, status_of,
  update_status, accept, create_handler, update_handler, delete_handler, handle,
}

-- The active configuration, if there is one, is valid and has the name that the broker looks for.
abbrev pub IsServable : String → Option ServiceBrokerConfig → Type 0
IsServable name none = Unit
IsServable name (some config) = (validate config ≡ ok tt) × (config.name ≡ name)

abbrev at_time : ConfigCondition → ℕ → ConfigCondition
at_time v t = record v { last_transition_time = t }

-- Only the time of a condition may change.
retain_time_lem :
    (cs : List ConfigCondition) (v : ConfigCondition) → (t : ℕ) × (retain_time cs v ≡ at_time v t)
unfolding retain_time
retain_time_lem [] v = (v.last_transition_time, refl)
retain_time_lem (old ∷ more) v = elim (Bool-cases (old.type == "ConfigurationValid")) [
  | inl typed ↦ elim (Bool-cases (old.status == v.status)) [
    | inl same ↦ (old.last_transition_time, rw (typed, same) refl)
    | inr differ ↦ (v.last_transition_time, rw (typed, differ) refl)
  ]
  | inr other_type ↦ let (t, kept) = retain_time_lem more v in (t, rw other_type kept)
]

-- A condition of the same validation keeps its time.
retain_time-given :
    (r : Result (Unit {0})) (n n' t : ℕ)
    → retain_time (at_time (condition_of r n) t ∷ []) (condition_of r n')
      ≡ at_time (condition_of r n) t
unfolding retain_time condition_of
retain_time-given (ok u) n n' t = refl
retain_time-given (err e) n n' t = refl
retain_time-given panic n n' t = refl

nat_eq_refl : (n : ℕ) → nat_eq n n ≡ true
nat_eq_refl n = ground arith

same_status_refl : (c : ConfigCondition) → same_status (c ∷ []) c ≡ true
unfolding same_status
same_status_refl c =
    rw
      (
        eq_refl c.type,
        eq_refl c.status,
        nat_eq_refl c.last_transition_time,
        eq_refl c.reason,
        eq_refl c.message,
      )
      refl

validate_conditions :
    (config : ServiceBrokerConfig) (cs : List ConfigCondition)
    → validate (record config { conditions = cs }) ≡ validate config
unfolding validate
validate_conditions config cs = refl

module _ (env : Env) where
  status_of_time :
      (config : ServiceBrokerConfig) (s : env.State)
      → (t : ℕ) × (status_of env config s ≡ at_time (condition_of (validate config) (env.now s)) t)
  unfolding status_of
  status_of_time config s =
      retain_time_lem config.conditions (condition_of (validate config) (env.now s))

  status_of_one :
      (config : ServiceBrokerConfig) (s s' : env.State) (t : ℕ) (c : ConfigCondition)
      → c ≡ at_time (condition_of (validate config) (env.now s)) t
      → status_of env (record config { conditions = c ∷ [] }) s' ≡ c
  unfolding status_of
  status_of_one config s s' t c same =
      let valid = validate_conditions config (c ∷ []) in
      rw valid (rw same (retain_time-given (validate config) (env.now s) (env.now s') t))

  status_of-given :
      (config : ServiceBrokerConfig) (s s' : env.State)
      → status_of env (record config { conditions = status_of env config s ∷ [] }) s'
        ≡ status_of env config s
  status_of-given config s s' =
      let (t, same) = status_of_time config s in
      status_of_one config s s' t (status_of env config s) same

  -- A configuration that has the status it was given is not written again, at whatever time: its
  -- update settles after one write.
  pub update_status-settles :
      (config : ServiceBrokerConfig) (s s' : env.State)
      → update_status env (record config { conditions = status_of env config s ∷ [] }) s'
        ≡ (validate config, s')
  unfolding update_status
  update_status-settles config s s' =
      let given = status_of env config s ∷ [] in
      rw (status_of-given config s s', same_status_refl (status_of env config s))
        (ap (λ r. (r, s')) (validate_conditions config given))

module _ (env : Env) (name : String) where
  update_status_result :
      (config : ServiceBrokerConfig) (s : env.State)
      → (update_status env config s).0 ≡ validate config
  unfolding update_status
  update_status_result config s =
      elim (Bool-cases (same_status config.conditions (status_of env config s))) [
        | inl same ↦ rw same refl
        | inr differ ↦ rw differ refl
      ]

  accept-IsServable :
      (config : ServiceBrokerConfig) (out : Result (Unit {0}) × env.State)
      → out.0 ≡ validate config
      → config.name ≡ name
      → IsServable name (accept env config out).config
  accept-IsServable config (ok u, s) same named = (sym same, named)
  accept-IsServable config (err e, s) same named = tt
  accept-IsServable config (panic, s) same named = tt

  create_handler-IsServable :
      (object : Option ServiceBrokerConfig) (c : Active env.State)
      → IsServable name c.config
      → IsServable name (create_handler env name object c).config
  unfolding create_handler
  create_handler-IsServable none c h = h
  create_handler-IsServable (some config) c h = elim (Bool-cases (config.name == name)) [
    | inl same ↦ rw same (
        accept-IsServable config (update_status env config c.outside)
          (update_status_result config c.outside) (eq_of_test same))
    | inr other_name ↦ rw other_name h
  ]

  update_handler-IsServable :
      (object : Option ServiceBrokerConfig) (c : Active env.State)
      → IsServable name c.config
      → IsServable name (update_handler env name object c).config
  unfolding update_handler
  update_handler-IsServable none c h = h
  update_handler-IsServable (some config) c h = elim (Bool-cases (config.name == name)) [
    | inl same ↦ rw same (
        accept-IsServable config (update_status env config c.outside)
          (update_status_result config c.outside) (eq_of_test same))
    | inr other_name ↦ rw other_name h
  ]

  delete_handler-IsServable :
      (object : Option ServiceBrokerConfig) (c : Active env.State)
      → IsServable name c.config
      → IsServable name (delete_handler env name object c).config
  unfolding delete_handler
  delete_handler-IsServable none c h = h
  delete_handler-IsServable (some config) c h = elim (Bool-cases (config.name == name)) [
    | inl same ↦ rw same tt
    | inr other_name ↦ rw other_name h
  ]

  -- The states that the broker's controller can be in: it starts without a configuration, whatever
  -- is outside, and each callback takes it to the next; in between the outside may change.
  pub data Reachable : Active env.State → Type 0 where
    starts : (s : env.State) → Reachable (record { config = none; outside = s })
    steps : (e : Event) (c : Active env.State) → Reachable c → Reachable (handle env name e c)
    changes :
        (s : env.State) (c : Active env.State) → Reachable c → Reachable (record c { outside = s })

  -- In every state that the controller can be in, the configuration that requests are served with,
  -- if there is one, is valid and has the name that the broker looks for.
  pub Reachable-IsServable : (c : Active env.State) → Reachable c → IsServable name c.config
  unfolding handle
  Reachable-IsServable _ (starts s) = tt
  Reachable-IsServable _ (steps (created object) c h) =
      create_handler-IsServable object c (Reachable-IsServable c h)
  Reachable-IsServable _ (steps (updated object) c h) =
      update_handler-IsServable object c (Reachable-IsServable c h)
  Reachable-IsServable _ (steps (deleted object) c h) =
      delete_handler-IsServable object c (Reachable-IsServable c h)
  Reachable-IsServable _ (changes s c h) = Reachable-IsServable c h
