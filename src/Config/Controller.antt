-- ===== src/Config/Controller.antt =====
-- pkg/config/config.go: the callbacks that keep the active configuration, and the status that they
-- write.
pub mod Laws
use service_broker_k8s.Base.{
  ℕ, String, Bool, true, false, Option, none, some, List, [], ◌∷◌, ◌==◌, ◌&&◌, not, if◌then◌else◌,
  nat_eq,
}
use service_broker_k8s.Errors.{Result, ok, err, panic, message}
use service_broker_k8s.Env.{Env}
use service_broker_k8s.Config.{ServiceBrokerConfig, ConfigCondition}
use service_broker_k8s.Config.Validation.{validate}

-- The condition that a validation at a time gives.
unfoldable pub condition_of : Result (Unit {0}) → (now : ℕ) → ConfigCondition
unfolding message
condition_of (err e) now = record {
  type = "ConfigurationValid";
  status = "False";
  last_transition_time = now;
  reason = "ValidationFailed";
  message = message e;
}
condition_of _ now = record {
  type = "ConfigurationValid";
  status = "True";
  last_transition_time = now;
  reason = "ValidationSucceeded";
  message = "";
}

-- The loop over the conditions: the first one of the type keeps its time if its status is the same.
unfoldable pub retain_time : List ConfigCondition → ConfigCondition → ConfigCondition
retain_time [] valid = valid
retain_time (old ∷ more) valid =
    if old.type == "ConfigurationValid"
    then (if old.status == valid.status
        then record valid { last_transition_time = old.last_transition_time }
        else valid)
    else retain_time more valid

abbrev same_condition : ConfigCondition → ConfigCondition → Bool
same_condition a b =
    a.type == b.type
    && a.status == b.status
    && nat_eq a.last_transition_time b.last_transition_time
    && a.reason == b.reason
    && a.message == b.message

-- `reflect.DeepEqual` of the conditions with those of the one condition.
unfoldable pub same_status : List ConfigCondition → ConfigCondition → Bool
same_status (old ∷ []) valid = same_condition old valid
same_status _ valid = false

-- The configuration that is active, and the state outside.
pub record Active (S : Type 0) : Type 0 where
  pub config : Option ServiceBrokerConfig
  pub outside : S

-- What the informer calls; an object of another type is `none`.
pub data Event : Type 0 where
  created : Option ServiceBrokerConfig → Event
  updated : Option ServiceBrokerConfig → Event
  deleted : Option ServiceBrokerConfig → Event

module _ (env : Env) where
  open env use {State, update_config, now}

  -- The status that `updateStatus` gives to a configuration.
  unfoldable pub status_of : ServiceBrokerConfig → State → ConfigCondition
  unfolding condition_of retain_time validate
  status_of config s = retain_time config.conditions (condition_of (validate config) (now s))

  -- `updateStatus`; that the update fails is only logged.
  unfoldable pub update_status : ServiceBrokerConfig → State → Result (Unit {0}) × State
  unfolding status_of same_status validate
  update_status config s =
      let status = status_of config s in
      if same_status config.conditions status
      then (validate config, s)
      else (validate config, (update_config (record config { conditions = status ∷ [] }) s).1)

  abbrev accept : ServiceBrokerConfig → Result (Unit {0}) × State → Active State
  accept config (ok _, s) = record { config = some config; outside = s }
  accept config (_, s) = record { config = none; outside = s }

  module _ (configuration_name : String) where
    -- `createHandler`
    unfoldable pub create_handler : Option ServiceBrokerConfig → Active State → Active State
    unfolding update_status
    create_handler none c = c
    create_handler (some config) c =
        if not (config.name == configuration_name)
        then c
        else accept config (update_status config c.outside)

    -- `updateHandler`
    unfoldable pub update_handler : Option ServiceBrokerConfig → Active State → Active State
    unfolding update_status
    update_handler none c = c
    update_handler (some config) c =
        if not (config.name == configuration_name)
        then c
        else accept config (update_status config c.outside)

    -- `deleteHandler`
    unfoldable pub delete_handler : Option ServiceBrokerConfig → Active State → Active State
    delete_handler none c = c
    delete_handler (some config) c =
        if not (config.name == configuration_name) then c else record c { config = none }

    -- The callback of an event.
    unfoldable pub handle : Event → Active State → Active State
    unfolding create_handler update_handler delete_handler
    handle (created object) c = create_handler object c
    handle (updated object) c = update_handler object c
    handle (deleted object) c = delete_handler object c
