-- ===== src/Broker/Guards/Delete.antt =====
-- handleDeleteServiceInstance of pkg/broker/handlers.go: when a deletion is started.
use service_broker_k8s.Base.{
  String, true, false, ◌≡◌, ◌⊎◌, inl, inr, Option, none, some, ◌==◌, arith, not,
}
use service_broker_k8s.Errors.{Error, Result, ok, fail_if, Result-cases}
use service_broker_k8s.Env.{Env}
use service_broker_k8s.Registry.{Entry, new, get_string}
use service_broker_k8s.Registry.Key
use service_broker_k8s.Operation.{OperationType, start, deprovision}
use service_broker_k8s.Http.{Request, json_error}
use service_broker_k8s.Broker.{async_required, get_single_parameter}
use service_broker_k8s.Broker.Auth.{ServerConfiguration}
use service_broker_k8s.Broker.Instance.{delete_service_instance}
use service_broker_k8s.Broker.Directory.{delete_directory_instance}
use service_broker_k8s.Broker.Handler.{Handler, Ctx, follow, attempt, required}
use service_broker_k8s.Broker.Steps.{namespace_of_instance, apply_with}
use service_broker_k8s.Broker.Handler.Rules.{
  SameJobs, SameJobs-IsKept, after_step, after_attempt, after_lookup,
}
use service_broker_k8s.Broker.Guards.{eq_of_passed, true_of_passed}
use service_broker_k8s.Broker.Steps.Laws.{apply_ok, apply-SameJobs}

module _ (env : Env) where
  -- An operation that starts has found none on the entry.
  pub start_idle_only :
      (t : OperationType) (e : Entry) (s : env.State)
      → (start env t (e, s)).0 ≡ ok tt
      → get_string Key.operation e ≡ ok none
  unfolding start
  start_idle_only t e s h = elim (Result-cases (get_string Key.operation e)) [
    | inl (none, read) ↦ read
    | inl (some op, read) ↦ absurd (ground (arith, read))
    | inr (inl (e', read)) ↦ absurd (ground (arith, read))
    | inr (inr read) ↦ absurd (ground (arith, read))
  ]

  -- What must hold of a request to delete an instance before the deletion is started: `s` is the
  -- state in which the request arrives, and the instance is looked up after its directory entry is
  -- removed.
  pub record IsDeletable (configuration : ServerConfiguration) (r : Request) (s : env.State)
      : Type 0 where
    pub entry : Entry
    pub service : String
    pub plan : String
    pub accepts_incomplete : async_required r ≡ ok tt
    pub found :
        new env Key.service_instance
          (namespace_of_instance env configuration r s)
          r.instance_id
          false
          (delete_directory_instance env configuration.namespace r.instance_id s)
        ≡ ok entry
    pub exists : entry.exists ≡ true
    pub given_service : get_single_parameter r "service_id" ≡ ok service
    pub same_service : get_string Key.service_id entry ≡ ok (some service)
    pub given_plan : get_single_parameter r "plan_id" ≡ ok plan
    pub same_plan : get_string Key.plan_id entry ≡ ok (some plan)
    pub idle : get_string Key.operation entry ≡ ok none

  module _ (configuration : ServerConfiguration) where
    jobs_try :
        {A : Type 0} (P : Type 0) (k : A → Handler env.State (Unit {0})) (c : Ctx env.State)
        (r : Result A)
        → ((a : A) → r ≡ ok a → SameJobs c (k a c).1 ⊎ P)
        → SameJobs c (follow k (attempt r c)).1 ⊎ P
    jobs_try P k c = after_attempt SameJobs SameJobs-IsKept P k c json_error

    jobs_lookup :
        {A : Type 0} (P : Type 0) (k : A → Handler env.State (Unit {0})) (c : Ctx env.State)
        (r : Result (Option A)) (e : Error)
        → ((a : A) → r ≡ ok (some a) → SameJobs c (k a c).1 ⊎ P)
        → SameJobs c (follow k (follow (λ o. required o e) (attempt r c))).1 ⊎ P
    jobs_lookup P k c = after_lookup SameJobs SameJobs-IsKept P k c

    -- A deletion is started only if the client accepts an asynchronous answer, the instance exists
    -- where its directory entry says, the service and the plan that the query names are those that
    -- are recorded of it, and no operation is in progress on it.
    pub delete_service_instance-guards :
        (r : Request) (c : Ctx env.State)
        → SameJobs c (delete_service_instance env configuration r c).1
          ⊎ IsDeletable configuration r c.outside
    unfolding delete_service_instance
    delete_service_instance-guards r c =
        let P = IsDeletable configuration r c.outside in
        let ns = namespace_of_instance env configuration r c.outside in
        let s = delete_directory_instance env configuration.namespace r.instance_id c.outside in
        let d = record c { outside = s } in
        jobs_try P _ c (async_required r) λ u1 accepts.
          jobs_try P _ c (fail_if (r.instance_id == "") _) λ u2 named.
            jobs_try P _ d (new env Key.service_instance ns r.instance_id false s) λ entry found.
              jobs_try P _ d (fail_if (not entry.exists) _) λ u3 exists.
                jobs_try P _ d (get_single_parameter r "service_id") λ service_id given_s.
                  jobs_try P _ d (get_single_parameter r "plan_id") λ plan_id given_p.
                    jobs_lookup P _ d (get_string Key.service_id entry) _ λ service has_s.
                      jobs_lookup P _ d (get_string Key.plan_id entry) _ λ plan has_p.
                        jobs_try P _ d (fail_if (not (service_id == service)) _) λ u4 same_s.
                          jobs_try P _ d (fail_if (not (plan_id == plan)) _) λ u5 same_p.
                            after_step SameJobs SameJobs-IsKept P _ d
                              (apply_with env json_error (start env deprovision) entry d)
                              (apply-SameJobs env json_error (start env deprovision) entry d)
                              λ started c' ran. inr (record {
                                entry = entry;
                                service = service_id;
                                plan = plan_id;
                                accepts_incomplete = accepts;
                                found = found;
                                exists = true_of_passed entry.exists _ exists;
                                given_service = given_s;
                                same_service = cc (has_s, eq_of_passed service_id service _ same_s);
                                given_plan = given_p;
                                same_plan = cc (has_p, eq_of_passed plan_id plan _ same_p);
                                idle = start_idle_only deprovision entry s (
                                    apply_ok env json_error (start env deprovision) entry started d
                                      c' ran);
                              })
