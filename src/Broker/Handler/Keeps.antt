-- ===== src/Broker/Handler/Keeps.antt =====
-- What a handler of pkg/broker keeps, one rule for each way to build a handler.
use service_broker_k8s.Base.{Bool, true, false, Option, none, some, if◌then◌else◌}
use service_broker_k8s.Errors.{Error, Result, ok, err, panic}
use service_broker_k8s.Http.{Response, json_error}
use service_broker_k8s.Broker.Handler.{
  Ctx, Flow, next, returned, panicked, Handler, follow, ◌>>=◌, done, respond, reply, attempt_with,
  required, reads,
}
use service_broker_k8s.Broker.Handler.Rules.{IsKept}
use service_broker_k8s.Broker.Steps.{give}

-- The handler keeps the relation between the contexts before and after it.
pub record Keeps {S A : Type 0} (R : Ctx S → Ctx S → Type 0) (h : Handler S A) : Type 0 where
  pub at : (c : Ctx S) → R c (h c).1

module _ {S : Type 0} (R : Ctx S → Ctx S → Type 0) (kept : IsKept R) where
  pub Keeps-done : Keeps R done
  Keeps-done = record { at = λ c. kept.same c }

  pub Keeps-respond : (r : Response) → Keeps R (respond r)
  Keeps-respond r = record { at = λ c. kept.responding c r }

  module _ {A : Type 0} where
    pub Keeps-reply : (r : Response) → Keeps R (reply {A = A} r)
    Keeps-reply r = record { at = λ c. kept.responding c r }

    pub Keeps-panicked : Keeps {A = A} R (λ c. (panicked, c))
    Keeps-panicked = record { at = λ c. kept.same c }

    pub Keeps-give : (a : A) → Keeps R (give a)
    Keeps-give a = record { at = λ c. kept.same c }

    pub Keeps-reads : (f : S → A) → Keeps R (reads f)
    Keeps-reads f = record { at = λ c. kept.same c }

    pub Keeps-attempt_with : (f : Error → Response) (r : Result A) → Keeps R (attempt_with f r)
    Keeps-attempt_with f (ok a) = record { at = λ c. kept.same c }
    Keeps-attempt_with f (err e) = record { at = λ c. kept.responding c (f e) }
    Keeps-attempt_with f panic = record { at = λ c. kept.same c }

    pub Keeps-required : (o : Option A) (e : Error) → Keeps R (required o e)
    Keeps-required none e = record { at = λ c. kept.responding c (json_error e) }
    Keeps-required (some a) e = record { at = λ c. kept.same c }

  module _ {A B : Type 0} where
    Keeps-follow :
        (f : A → Handler S B)
        → ((a : A) → Keeps R (f a))
        → (c : Ctx S) (out : Flow A × Ctx S) → R c out.1
        → R c (follow f out).1
    Keeps-follow f hf c (next a, c') h = kept.chain c c' (f a c').1 h ((hf a).at c')
    Keeps-follow f hf c (returned, c') h = h
    Keeps-follow f hf c (panicked, c') h = h

    pub Keeps-bind :
        (m : Handler S A) (f : A → Handler S B)
        → Keeps R m
        → ((a : A) → Keeps R (f a))
        → Keeps R (m >>= f)
    Keeps-bind m f hm hf = record { at = λ c. Keeps-follow f hf c (m c) (hm.at c) }

pub Keeps-if :
    {S A : Type 0} (R : Ctx S → Ctx S → Type 0) (b : Bool) (m n : Handler S A)
    → Keeps R m
    → Keeps R n
    → Keeps R (if b then m else n)
Keeps-if R true m n hm hn = hm
Keeps-if R false m n hm hn = hn

pub ruleset keeps_rules = (
  Keeps-done, Keeps-respond, Keeps-reply, Keeps-panicked, Keeps-give, Keeps-reads,
  Keeps-attempt_with, Keeps-required, Keeps-if, Keeps-bind,
)
