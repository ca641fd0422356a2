-- ===== src/Broker/Handler.antt =====
-- How the handlers of pkg/broker/handlers.go run: they write responses, change the state outside
-- the process, start jobs in the background, and may return or panic at any step.
pub mod Rules
pub mod Keeps
pub mod Shared
use service_broker_k8s.Base.{Option, none, some, List, [], ◌∷◌, ◌++◌}
use service_broker_k8s.Errors.{Error, Result, ok, err, panic}
use service_broker_k8s.Exec.{Exec}
use service_broker_k8s.Env.{Env}
use service_broker_k8s.Http.{Response, json_error, json_error_usable}
use service_broker_k8s.Registry.{Entry}
use service_broker_k8s.Operation.{Session}
use service_broker_k8s.Provisioner.Creator.{Creator}
use service_broker_k8s.Provisioner.Updater.{Updater}

-- A `go` statement: what it runs, and the entry that it shares with nobody else from then on.
pub data Job : Type 0 where
  create_job : Creator → Entry → Job
  update_job : Updater → Entry → Job
  delete_job : Entry → Job

-- The state of a request that is handled: the state outside, and the responses and the jobs so far.
pub record Ctx (S : Type 0) : Type 0 where
  pub outside : S
  pub responses : List Response
  pub jobs : List Job

-- Where a handler is after a step: at the next one with a value, or out of the handler.
pub data Flow (A : Type 0) : Type 0 where
  next : A → Flow A
  returned : Flow A
  panicked : Flow A

abbrev pub Handler : Type 0 → Type 0 → Type 0
Handler S A = Ctx S → Flow A × Ctx S

module _ {S A B : Type 0} where
  abbrev pub follow : (A → Handler S B) → Flow A × Ctx S → Flow B × Ctx S
  follow f (next a, c) = f a c
  follow f (returned, c) = (returned, c)
  follow f (panicked, c) = (panicked, c)

  infixl 5 ◌>>=◌
  abbrev pub ◌>>=◌ : Handler S A → (A → Handler S B) → Handler S B
  ◌>>=◌ m f c = follow f (m c)

module _ {S B : Type 0} where
  infixl 5 ◌>>◌
  abbrev pub ◌>>◌ : Handler S (Unit {0}) → Handler S B → Handler S B
  m >> k = m >>= λ _. k

module _ {S : Type 0} where
  abbrev pub done : Handler S (Unit {0})
  done c = (next tt, c)

  -- A response, after which the handler goes on.
  abbrev pub respond : Response → Handler S (Unit {0})
  respond r c = (next tt, record c { responses = c.responses ++ r ∷ [] })

  module _ {A : Type 0} where
    -- A response, and `return`.
    abbrev pub reply : Response → Handler S A
    reply r c = (returned, record c { responses = c.responses ++ r ∷ [] })

    -- `if err != nil { jsonError(w, err); return }`, with the response that is given.
    abbrev pub attempt_with : (Error → Response) → Result A → Handler S A
    attempt_with f (ok a) c = (next a, c)
    attempt_with f (err e) c = reply (f e) c
    attempt_with f panic c = (panicked, c)

    abbrev pub attempt : Result A → Handler S A
    attempt r = attempt_with json_error r

    abbrev pub attempt_usable : Result A → Handler S A
    attempt_usable r = attempt_with json_error_usable r

    -- `if !ok { jsonError(w, err); return }`
    abbrev pub required : Option A → Error → Handler S A
    required none e = reply (json_error e)
    required (some a) e = λ c. (next a, c)

    -- A function of the state outside, and one that changes it.
    abbrev pub reads : (S → A) → Handler S A
    reads f c = (next (f c.outside), c)

    abbrev pub writes : (S → A × S) → Handler S A
    writes f c = let (a, s) = f c.outside in (next a, record c { outside = s })

  -- The context after a response, with another state outside.
  abbrev pub answered : Response → S → Ctx S → Ctx S
  answered r s c = record c { outside = s; responses = c.responses ++ r ∷ [] }

  abbrev pub start_job : Job → Handler S (Unit {0})
  start_job j c = (next tt, record c { jobs = c.jobs ++ j ∷ [] })

module _ (env : Env) {A : Type 0} where
  abbrev carried : Result A × Session env → (Result A × Entry) × env.State
  carried (r, (e, s)) = ((r, e), s)

  -- An operation on an entry: its result and the entry after it.
  abbrev pub on_entry : Exec (Session env) A → Entry → Handler env.State (Result A × Entry)
  on_entry m entry = writes (λ s. carried (m (entry, s)))
