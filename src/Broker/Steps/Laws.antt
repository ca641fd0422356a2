-- ===== src/Broker/Steps/Laws.antt =====
-- What a step on an entry does in the handlers of pkg/broker/handlers.go.
use service_broker_k8s.Base.{
  Bool, true, false, not, ◌≡◌, refl, sym, ap, ◌∙◌, arith, inl, inr, Option, some,
}
use mathlib.Core.Path.{subst}
use service_broker_k8s.Errors.{fail_if, Error, Result, ok, err, panic, Result-cases}
use service_broker_k8s.Exec.{Exec}
use service_broker_k8s.Env.{Env}
use service_broker_k8s.Http.{Response}
use service_broker_k8s.Registry.{Entry}
use service_broker_k8s.Operation.{Session}
use service_broker_k8s.Broker.Handler.{
  Handler, Ctx, Flow, next, follow, attempt, attempt_with, required,
}
use service_broker_k8s.Broker.Handler.Rules.{SameJobs}
use service_broker_k8s.Broker.Steps.{give, apply_with}

pub fail_if_passes : (e : Error) {b : Bool} → b ≡ false → fail_if b e ≡ ok tt
fail_if_passes e {b} h = rw h refl

pub not_of : {b : Bool} → b ≡ true → not b ≡ false
not_of {b} h = rw h refl

module _ (env : Env) where
  pub apply_ok :
      (f : Error → Response) (m : Exec (Session env) (Unit {0})) (e e' : Entry)
      (c c' : Ctx env.State)
      → apply_with env f m e c ≡ (next e', c')
      → (m (e, c.outside)).0 ≡ ok tt
  apply_ok f m e e' c c' h = elim (Result-cases (m (e, c.outside)).0) [
    | inl (u, passed) ↦ passed
    | inr (inl (e', passed)) ↦ absurd (ground (arith, passed))
    | inr (inr passed) ↦ absurd (ground (arith, passed))
  ]

  ran_of :
      (f : Error → Response) (e' : Entry) (c c' : Ctx env.State)
      (out : Result (Unit {0}) × Session env)
      → follow (λ u. give out.1.0) (attempt_with f out.0 (record c { outside = out.1.1 }))
        ≡ (next e', c')
      → out ≡ (ok tt, (e', c'.outside))
  ran_of f e' c c' (ok u, (e, s)) h = cc
  ran_of f e' c c' (err r, (e, s)) h = cc
  ran_of f e' c c' (panic, (e, s)) h = cc

  -- What a step that goes on has done.
  pub apply_ran :
      (f : Error → Response) (m : Exec (Session env) (Unit {0})) (e e' : Entry)
      (c c' : Ctx env.State)
      → apply_with env f m e c ≡ (next e', c')
      → m (e, c.outside) ≡ (ok tt, (e', c'.outside))
  apply_ran f m e e' c c' h = ran_of f e' c c' (m (e, c.outside)) h

  pub apply-SameJobs :
      (f : Error → Response) (m : Exec (Session env) (Unit {0})) (e : Entry) (c : Ctx env.State)
      → SameJobs c (apply_with env f m e c).1
  apply-SameJobs f m e c = elim (Result-cases (m (e, c.outside)).0) [
    | inl (u, passed) ↦ ground (arith, passed)
    | inr (inl (e', passed)) ↦ ground (arith, passed)
    | inr (inr passed) ↦ ground (arith, passed)
  ]

  -- A step on an entry that succeeds goes on with the entry and the state after it.
  pub apply_done :
      (f : Error → Response) (m : Exec (Session env) (Unit {0})) (e e' : Entry) (c : Ctx env.State)
      (s' : env.State)
      → m (e, c.outside) ≡ (ok tt, (e', s'))
      → apply_with env f m e c ≡ (next e', record c { outside = s' })
  apply_done f m e e' c s' h =
      subst
        (λ (out : Result (Unit {0}) × Session env).
          follow (λ u. give out.1.0) (attempt_with f out.0 (record c { outside = out.1.1 }))
          ≡ (next e', record c { outside = s' }))
        (sym h) refl

-- The rest `k` of a handler after a step that goes on.
module _ {S A B : Type 0} (k : A → Handler S B) {x : Flow B × Ctx S} where
  pub goes_on :
      (out : Flow A × Ctx S) (a : A) (c : Ctx S) → out ≡ (next a, c) → k a c ≡ x → follow k out ≡ x
  goes_on out a c h rest = ap (follow k) h ∙ rest

  pub goes_attempt :
      (f : Error → Response) (r : Result A) (a : A) (c : Ctx S)
      → r ≡ ok a
      → k a c ≡ x
      → follow k (attempt_with f r c) ≡ x
  goes_attempt f r a c h rest = ap (λ y. follow k (attempt_with f y c)) h ∙ rest

  pub goes_lookup :
      (r : Result (Option A)) (e : Error) (a : A) (c : Ctx S)
      → r ≡ ok (some a)
      → k a c ≡ x
      → follow k (follow (λ o. required o e) (attempt r c)) ≡ x
  goes_lookup r e a c h rest =
      ap (λ y. follow k (follow (λ o. required o e) (attempt y c))) h ∙ rest
