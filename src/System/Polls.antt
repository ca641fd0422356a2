-- ===== src/System/Polls.antt =====
-- What a client is told of its operation, from the job to the poll.
use service_broker_k8s.Base.{
  String, true, false, ap, ◌≡◌, ◌≢◌, refl, ◌∙◌, arith, Option, none, some, List, ◌++◌, ◌∷◌,
  test_of_ne, ◌==◌, if◌then◌else◌,
}
use service_broker_k8s.Errors.{Error, Result, ok, panic, message}
use service_broker_k8s.Env.{Env, answer}
use service_broker_k8s.Config.{ServiceBrokerConfig}
use service_broker_k8s.Http.{Request, Response, Payload, instance_polled, succeeded, failed}
use service_broker_k8s.Registry.{Entry, get_string, get, find, new, resource_name}
use service_broker_k8s.Registry.Key
use service_broker_k8s.Registry.Persistence.{KeepsSecrets}
use service_broker_k8s.Operation.{error_text, type_text, complete, finish}
use service_broker_k8s.Operation.Phases.{InPhase, idle, complete-get_string, complete-stored}
use service_broker_k8s.Provisioner.Creator.Completes.{error_of}
use service_broker_k8s.Broker.{mayget_single_parameter, get_single_parameter}
use service_broker_k8s.Broker.Auth.{ServerConfiguration}
use service_broker_k8s.Broker.Instance.{poll_service_instance}
use service_broker_k8s.Broker.Instance.Polling.{poll_service_instance-reports}
use service_broker_k8s.Broker.Handler.{Job, Ctx, Flow, next, answered}
use service_broker_k8s.Broker.Jobs.{job_entry, job_operation}
use service_broker_k8s.Broker.Steps.{namespace_of_instance, response}
use service_broker_k8s.System.{System, Reachable}
use service_broker_k8s.System.Safety.{work, pending-IsRecorded}

-- What a client is to be told of a run that ended with an error, or without.
abbrev pub outcome : Option Error → Payload
outcome none = instance_polled succeeded ""
outcome (some e) = instance_polled failed (message e)

-- Errors have a text.
abbrev pub IsWorded : Option Error → Type 0
IsWorded none = Unit
IsWorded (some e) = message e ≢ ""

outcome_lem :
    (o : Option Error)
    → IsWorded o
    → (if error_text o == ""
        then instance_polled succeeded ""
        else instance_polled failed (error_text o))
      ≡ outcome o
unfolding error_text
outcome_lem none h = refl
outcome_lem (some e) h = rw (test_of_ne h) refl

-- An entry as it is found again.
abbrev pub found_again : Entry → Entry
found_again e = record { secret = e.secret; exists = true; read_only = false }

get_string-found_again : (k : String) (e : Entry) → get_string k (found_again e) ≡ get_string k e
unfolding get_string get find
get_string-found_again k e = refl

new_of_stored :
    (env : Env) (t namespace name : String) (e : Entry) (s : env.State)
    → namespace ≡ e.secret.namespace
    → e.secret.name ≡ resource_name t name
    → env.get_secret e.secret.namespace e.secret.name s ≡ answer e.secret
    → new env t namespace name false s ≡ ok (found_again e)
unfolding new
new_of_stored env t namespace name e s placed named stored = ground (arith, placed, named, stored)

abbrev told_as : {S : Type 0} → Response → S → Ctx S → Flow (Unit {0}) × Ctx S
told_as x s c = (next tt, answered x s c)

module _ (env : Env) (configuration : ServerConfiguration) where
  -- A poll for the operation of a job, whose entry is `e'` when the job has ended.
  pub record PollsFor (r : Request) (j : Job) (e' : Entry) (s' : env.State) : Type 0 where
    pub named : r.instance_id ≢ ""
    pub placed : namespace_of_instance env configuration r s' ≡ e'.secret.namespace
    pub identified : e'.secret.name ≡ resource_name Key.service_instance r.instance_id
    pub no_service : mayget_single_parameter r "service_id" ≡ ok none
    pub no_plan : mayget_single_parameter r "plan_id" ≡ ok none
    pub id : String
    pub given : get_single_parameter r "operation" ≡ ok id
    pub had : get_string Key.operation_id (job_entry j) ≡ ok (some id)
    pub service : String
    pub plan : String
    pub has_service : get_string Key.service_id (job_entry j) ≡ ok (some service)
    pub has_plan : get_string Key.plan_id (job_entry j) ≡ ok (some plan)

  module _ (configuration_name : String) (laws : KeepsSecrets env) where
    -- In every state that the broker can reach, let a creation or an update that is pending run
    -- without a panic, and let its end and the end of the poll be written. Then a poll for its
    -- operation that comes next, of the instance by its namespace, its ID and the ID of the
    -- operation, answers with one response: that the operation has succeeded where the run had no
    -- error, and that it has failed with the text of its error otherwise, if errors have texts. The
    -- instance has no operation afterwards.
    pub pending_job-polled :
        (b : System env.State) (config : ServiceBrokerConfig) (before after : List Job) (j : Job)
        (result : Result (Unit {0})) (s s' s'' : env.State) (e' ended : Entry) (r : Request)
        (c : Ctx env.State)
        → Reachable env configuration configuration_name b
        → b.pending ≡ before ++ j ∷ after
        → work env config j b.active.outside ≡ some (result, s)
        → result ≢ panic
        → complete env (error_of result) (job_entry j, s) ≡ (ok tt, (e', s'))
        → IsWorded (error_of result)
        → PollsFor r j e' s'
        → finish env (found_again e', s') ≡ (ok tt, (ended, s''))
        → (poll_service_instance env configuration r (record c { outside = s' })
            ≡ (next tt, answered (response 200 (outcome (error_of result))) s'' c))
          × InPhase idle ended
    pending_job-polled b config before after j result s s' s'' e' ended r c reached has worked calm
          done worded poll finished =
        let recorded =
          pending-IsRecorded env configuration configuration_name laws b before after j reached
            has in
        let op = type_text (job_operation j) in
        let now = λ (k : String).
          get_string-found_again k e'
          ∙ complete-get_string env laws (error_of result) op (job_entry j) e' s s' k
              recorded.operation done in
        let stored =
          complete-stored env laws (error_of result) op (job_entry j) e' s s' recorded.operation
            done in
        let (told, idles) =
          poll_service_instance-reports env configuration laws r op poll.id
            (error_text (error_of result)) (found_again e') ended (record c { outside = s' }) s''
            (record {
              named = poll.named;
              found =
                  new_of_stored env Key.service_instance _ r.instance_id e' s' poll.placed
                    poll.identified stored;
              exists = refl;
              no_service = poll.no_service;
              no_plan = poll.no_plan;
              given = poll.given;
              service = poll.service;
              plan = poll.plan;
              has_service = now Key.service_id ∙ poll.has_service;
              has_plan = now Key.plan_id ∙ poll.has_plan;
            })
            (
              now Key.operation ∙ recorded.operation,
              now Key.operation_id ∙ poll.had,
              now Key.operation_status,
            )
            finished in
        (
          told ∙ ap (λ x. told_as (response 200 x) s'' c) (outcome_lem (error_of result) worded),
          idles,
        )
