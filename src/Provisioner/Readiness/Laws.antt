-- ===== src/Provisioner/Readiness/Laws.antt =====
-- pkg/provisioners/readiness.go: which conditions of a resource make a check succeed.
use service_broker_k8s.Base.{
  String, true, ◌≡◌, ◌↔◌, inl, inr, some, List, [], ◌∷◌, arith, ◌==◌, Bool-cases, eq_iff,
}
use service_broker_k8s.Base.Dict.{Dict, lookup}
use service_broker_k8s.Errors.{ok}
use service_broker_k8s.Json.{Json}
use service_broker_k8s.Env.{Env}
use service_broker_k8s.Config.{ReadinessCheckCondition}
use service_broker_k8s.Provisioner.Readiness.{is_object, match_conditions}

module _ (env : Env) where
  -- A condition of a resource is an object with a type and a status.
  abbrev pub IsCondition : Json → String → String → Type 0
  IsCondition c type status =
      (is_object c ≡ true)
      × (env.nested_string c ("type" ∷ []) ≡ ok (some type))
      × (env.nested_string c ("status" ∷ []) ≡ ok (some status))

  abbrev pub AreConditions : List Json → Dict String → Type 0
  AreConditions [] [] = Unit
  AreConditions (c ∷ cs) ((type, status) ∷ pairs) =
      IsCondition c type status × AreConditions cs pairs
  AreConditions _ _ = ⊥

  -- Where the conditions of a resource are well formed, a check of one succeeds exactly when the
  -- first condition of its type has its status.
  pub match_conditions_iff :
      (condition : ReadinessCheckCondition) (name : String) (cs : List Json) (pairs : Dict String)
      → AreConditions cs pairs
      → (match_conditions env condition name cs ≡ ok tt)
        ↔ (lookup condition.type pairs ≡ some condition.status)
  unfolding match_conditions lookup
  match_conditions_iff condition name [] [] h =
      (λ e. absurd (ground arith), λ e. absurd (ground arith))
  match_conditions_iff condition name [] (p ∷ ps) h = absurd h
  match_conditions_iff condition name (c ∷ cs) [] h = absurd h
  match_conditions_iff condition name (c ∷ cs) ((type, status) ∷ pairs)
        ((object, typed, has), rest) =
      let (forth, back) = match_conditions_iff condition name cs pairs rest in
      elim (Bool-cases (type == condition.type)) [
        | inl same ↦ (
          λ e. ground (arith, object, typed, has, same, e, eq_iff status condition.status),
          λ e. ground (arith, object, typed, has, same, e, eq_iff status condition.status),
        )
        | inr differ ↦ (
          λ e. ground (arith, differ, forth (ground (arith, object, typed, has, differ, e))),
          λ e. ground (arith, object, typed, has, differ, back (ground (arith, differ, e))),
        )
      ]
