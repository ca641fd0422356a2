-- ===== src/Broker/Handler/Rules.antt =====
-- Rules for what a handler of pkg/broker keeps, step by step.
use service_broker_k8s.Base.{◌≡◌, ◌⊎◌, inl, inr, refl, ◌∙◌, Option, none, some, ◌++◌, ◌∷◌, []}
use service_broker_k8s.Errors.{Error, Result, ok, err, panic}
use service_broker_k8s.Http.{Response, json_error}
use service_broker_k8s.Broker.Handler.{
  Handler, Ctx, Flow, next, returned, panicked, follow, attempt, attempt_with, required,
}

-- Nothing was changed outside; responses may have been written, and jobs started.
abbrev pub SameOutside : {S : Type 0} → Ctx S → Ctx S → Type 0
SameOutside c c' = c'.outside ≡ c.outside

-- No job was started.
abbrev pub SameJobs : {S : Type 0} → Ctx S → Ctx S → Type 0
SameJobs c c' = c'.jobs ≡ c.jobs

abbrev pub Untouched : {S : Type 0} → Ctx S → Ctx S → Type 0
Untouched c c' = SameOutside c c' × SameJobs c c'

abbrev written : {S : Type 0} → Response → Ctx S → Ctx S
written r c = record c { responses = c.responses ++ r ∷ [] }

-- A relation between the contexts before and after a part of a handler, which responses keep.
pub record IsKept {S : Type 0} (R : Ctx S → Ctx S → Type 0) : Type 0 where
  pub same : (a : Ctx S) → R a a
  pub chain : (a b c : Ctx S) → R a b → R b c → R a c
  pub responding : (a : Ctx S) (r : Response) → R a (written r a)

module _ {S : Type 0} where
  pub SameOutside-IsKept : IsKept (SameOutside {S = S})
  SameOutside-IsKept = record {
    same = λ a. refl;
    chain = λ a b c h k. k ∙ h;
    responding = λ a r. refl;
  }

  pub SameJobs-IsKept : IsKept (SameJobs {S = S})
  SameJobs-IsKept = record {
    same = λ a. refl;
    chain = λ a b c h k. k ∙ h;
    responding = λ a r. refl;
  }

  pub Untouched-IsKept : IsKept (Untouched {S = S})
  Untouched-IsKept = record {
    same = λ a. (refl, refl);
    chain = λ a b c (h, h') (k, k'). (k ∙ h, k' ∙ h');
    responding = λ a r. (refl, refl);
  }

-- Each rule is about a step and the rest `k` of a handler: the whole keeps `R` unless `P` holds,
-- where the rest does after a step that succeeds.
module _ {S : Type 0} (R : Ctx S → Ctx S → Type 0) (kept : IsKept R) (P : Type 0) where
  extend : (a b c : Ctx S) → R a b → R b c ⊎ P → R a c ⊎ P
  extend a b c h (inl k) = inl (kept.chain a b c h k)
  extend a b c h (inr p) = inr p

  module _ {A B : Type 0} (k : A → Handler S B) (c : Ctx S) where
    -- Any step that keeps `R`.
    pub after_step :
        (out : Flow A × Ctx S)
        → R c out.1
        → ((a : A) (c' : Ctx S) → out ≡ (next a, c') → R c' (k a c').1 ⊎ P)
        → R c (follow k out).1 ⊎ P
    after_step (next a, c') h rest = extend c c' _ h (rest a c' refl)
    after_step (returned, c') h rest = inl h
    after_step (panicked, c') h rest = inl h

    -- A step that may fail.
    pub after_attempt :
        (f : Error → Response) (r : Result A)
        → ((a : A) → r ≡ ok a → R c (k a c).1 ⊎ P)
        → R c (follow k (attempt_with f r c)).1 ⊎ P
    after_attempt f (ok a) h = h a refl
    after_attempt f (err e) h = inl (kept.responding c (f e))
    after_attempt f panic h = inl (kept.same c)

    -- A value that must be there.
    pub after_required :
        (o : Option A) (e : Error)
        → ((a : A) → o ≡ some a → R c (k a c).1 ⊎ P)
        → R c (follow k (required o e c)).1 ⊎ P
    after_required none e h = inl (kept.responding c (json_error e))
    after_required (some a) e h = h a refl

    -- A read that may fail, of a value that must be there.
    pub after_lookup :
        (r : Result (Option A)) (e : Error)
        → ((a : A) → r ≡ ok (some a) → R c (k a c).1 ⊎ P)
        → R c (follow k (follow (λ o. required o e) (attempt r c))).1 ⊎ P
    after_lookup (ok none) e h = inl (kept.responding c (json_error e))
    after_lookup (ok (some a)) e h = h a refl
    after_lookup (err e') e h = inl (kept.responding c (json_error e'))
    after_lookup panic e h = inl (kept.same c)

-- Rules for a property `Q` of the context in which a handler ends.
module _ {S A B : Type 0} (Q : Ctx S → Type 0) (k : A → Handler S B) where
  pub ends_step :
      (out : Flow A × Ctx S)
      → Q out.1
      → ((a : A) (c' : Ctx S) → out ≡ (next a, c') → Q (k a c').1)
      → Q (follow k out).1
  ends_step (next a, c') stops goes = goes a c' refl
  ends_step (returned, c') stops goes = stops
  ends_step (panicked, c') stops goes = stops

  pub ends_attempt :
      (c : Ctx S) (f : Error → Response) (r : Result A)
      → Q c
      → ((x : Response) → Q (written x c))
      → ((a : A) → r ≡ ok a → Q (k a c).1)
      → Q (follow k (attempt_with f r c)).1
  ends_attempt c f (ok a) stays stops goes = goes a refl
  ends_attempt c f (err e) stays stops goes = stops (f e)
  ends_attempt c f panic stays stops goes = stays
