-- ===== src/Registry/Persistence.antt =====
-- Entries and the secrets of the cluster: what `New` reads after `Commit` and `Delete`.
use service_broker_k8s.Base.{
  String, ◌≡◌, ◌≢◌, ◌⊎◌, refl, Bool, true, false, arith, inl, inr, Bool-cases,
}
use service_broker_k8s.Errors.{ok, err, other}
use service_broker_k8s.Env.{
  Secret, Answer, answer, not_found, already_exists, failed, Env, to_result,
}
use service_broker_k8s.Registry.{
  Entry, new, new_secret, commit, written, delete, resource_name, find, get_string,
}

-- The documented behaviour of the secrets of the Kubernetes API that the registry relies on: a
-- write that is acknowledged is read back, with the data that was written and under its name; no
-- write touches a secret of another name or namespace; and a secret that is deleted is not found.
pub record KeepsSecrets (env : Env) : Type 0 where
  pub create_read :
      (x y : Secret) (s s' : env.State)
      → env.create_secret x s ≡ (answer y, s')
      → (env.get_secret x.namespace x.name s' ≡ answer y)
        × (y.data_map ≡ x.data_map)
        × (y.namespace ≡ x.namespace)
        × (y.name ≡ x.name)
  pub update_read :
      (x y : Secret) (s s' : env.State)
      → env.update_secret x s ≡ (answer y, s')
      → (env.get_secret x.namespace x.name s' ≡ answer y)
        × (y.data_map ≡ x.data_map)
        × (y.namespace ≡ x.namespace)
        × (y.name ≡ x.name)
  pub create_other :
      (x : Secret) (s : env.State) (ns n : String)
      → (x.namespace ≢ ns) ⊎ (x.name ≢ n)
      → env.get_secret ns n (env.create_secret x s).1 ≡ env.get_secret ns n s
  pub update_other :
      (x : Secret) (s : env.State) (ns n : String)
      → (x.namespace ≢ ns) ⊎ (x.name ≢ n)
      → env.get_secret ns n (env.update_secret x s).1 ≡ env.get_secret ns n s
  pub delete_read :
      (ns n : String) (s : env.State)
      → (env.delete_secret ns n s).0 ≡ answer tt
      → env.get_secret ns n (env.delete_secret ns n s).1 ≡ not_found
  pub delete_other :
      (ns n ns' n' : String) (s : env.State)
      → (ns ≢ ns') ⊎ (n ≢ n')
      → env.get_secret ns' n' (env.delete_secret ns n s).1 ≡ env.get_secret ns' n' s
  pub new_uuid_read :
      (ns n : String) (s : env.State)
      → env.get_secret ns n (env.new_uuid s).1 ≡ env.get_secret ns n s
  pub get_named :
      (ns n : String) (x : Secret) (s : env.State)
      → env.get_secret ns n s ≡ answer x
      → (x.namespace ≡ ns) × (x.name ≡ n)

module _ (env : Env) where
  -- A read-only entry, such as a clone, is never written: commit and delete report an error and
  -- leave the entry and the cluster as they are.
  pub read_only_writes :
      (e : Entry) (s : env.State)
      → e.read_only ≡ true
      → (commit env e s ≡ (err (other "permission error: registry entry is read only"), e, s))
        × (delete env e s ≡ (err (other "permission error: registry entry is read only"), s))
  unfolding commit delete
  read_only_writes e s h = ground arith

  written_ok :
      (e e' : Entry) (r : Answer Secret × env.State) (s' : env.State)
      → written env e r ≡ (ok tt, e', s')
      → (y : Secret) × (r ≡ (answer y, s')) × (e' ≡ record e { secret = y; exists = true })
  written_ok e e' (answer y, s'') s' h = (y, cc, cc)
  written_ok e e' (not_found, s'') s' h = cc
  written_ok e e' (already_exists, s'') s' h = cc
  written_ok e e' (failed reason, s'') s' h = cc

  -- What a commit that succeeds leaves in memory and in the cluster.
  pub record Committed (e e' : Entry) (s' : env.State) : Type 0 where
    pub stored : env.get_secret e.secret.namespace e.secret.name s' ≡ answer e'.secret
    pub same_data : e'.secret.data_map ≡ e.secret.data_map
    pub same_namespace : e'.secret.namespace ≡ e.secret.namespace
    pub same_name : e'.secret.name ≡ e.secret.name
    pub now_exists : e'.exists ≡ true
    pub writable : e'.read_only ≡ false

  written-Committed :
      (e e' : Entry) (r : Answer Secret × env.State) (s' : env.State)
      → written env e r ≡ (ok tt, e', s')
      → e.read_only ≡ false
      → ((y : Secret)
          → r ≡ (answer y, s')
          → (env.get_secret e.secret.namespace e.secret.name s' ≡ answer y)
            × (y.data_map ≡ e.secret.data_map)
            × (y.namespace ≡ e.secret.namespace)
            × (y.name ≡ e.secret.name))
      → Committed e e' s'
  written-Committed e e' r s' h writes law =
      let (y, answered, same) = written_ok e e' r s' h in
      let (stored, held, ns, n) = law y answered in
      rw same (record {
        stored = stored;
        same_data = held;
        same_namespace = ns;
        same_name = n;
        now_exists = refl;
        writable = writes;
      })

  pub commit-Committed :
      (laws : KeepsSecrets env) (e e' : Entry) (s s' : env.State)
      → commit env e s ≡ (ok tt, e', s')
      → Committed e e' s'
  unfolding commit
  commit-Committed laws e e' s s' h = elim (Bool-cases e.read_only) [
    | inl refused ↦ absurd (ground arith)
    | inr writes ↦ elim (Bool-cases e.exists) [
      | inl old ↦
          written-Committed e e' (env.update_secret e.secret s) s' (ground arith) writes
            (λ y. laws.update_read e.secret y s s')
      | inr fresh ↦
          written-Committed e e' (env.create_secret e.secret s) s' (ground arith) writes
            (λ y. laws.create_read e.secret y s s')
    ]
  ]

  -- A commit that succeeds changes no value in memory.
  pub find-commit :
      (laws : KeepsSecrets env) (key : String) (e e' : Entry) (s s' : env.State)
      → commit env e s ≡ (ok tt, e', s')
      → find key e' ≡ find key e
  unfolding find
  find-commit laws key e e' s s' h = rw (commit-Committed laws e e' s s' h).same_data

  pub get_string-commit :
      (laws : KeepsSecrets env) (key : String) (e e' : Entry) (s s' : env.State)
      → commit env e s ≡ (ok tt, e', s')
      → get_string key e' ≡ get_string key e
  unfolding get_string
  get_string-commit laws key e e' s s' h = ground (arith, find-commit laws key e e' s s' h)

  -- An entry that is committed is found again by `New`, with the same value of every key.
  pub new-commit :
      (laws : KeepsSecrets env) (t name : String) (ro : Bool) (e e' : Entry) (s s' : env.State)
      → e.secret.name ≡ resource_name t name
      → commit env e s ≡ (ok tt, e', s')
      → (found : Entry) × (new env t e.secret.namespace name ro s' ≡ ok found)
        × (found.exists ≡ true)
        × (found.read_only ≡ ro)
        × ((key : String) → find key found ≡ find key e)
  unfolding new find
  new-commit laws t name ro e e' s s' named h =
      let c = commit-Committed laws e e' s s' h in
      (
        record { secret = e'.secret; exists = true; read_only = ro },
        ground (arith, named, c.stored),
        refl,
        refl,
        λ key. rw (c.same_data),
      )

  to_result_ok : {A : Type 0} (a : Answer A) (x : A) → to_result a ≡ ok x → a ≡ answer x
  to_result_ok (answer y) x h = cc
  to_result_ok not_found x h = cc
  to_result_ok already_exists x h = cc
  to_result_ok (failed text) x h = cc

  -- An entry that exists and is deleted is not found again.
  pub new-delete :
      (laws : KeepsSecrets env) (t name : String) (ro : Bool) (e : Entry) (s s' : env.State)
      → e.secret.name ≡ resource_name t name
      → e.exists ≡ true
      → delete env e s ≡ (ok tt, s')
      → (found : Entry) × (new env t e.secret.namespace name ro s' ≡ ok found)
        × (found.exists ≡ false)
  unfolding new delete
  new-delete laws t name ro e s s' named exists h = elim (Bool-cases e.read_only) [
    | inl refused ↦ absurd (ground (arith, refused))
    | inr writes ↦
        let x = e.secret in
        let (a, after) = env.delete_secret x.namespace x.name s in
        let told : to_result a ≡ ok tt = ground (arith, writes, exists, h) in
        let same : after ≡ s' = ground (arith, writes, exists, h) in
        let gone = laws.delete_read x.namespace x.name s (to_result_ok a tt told) in
        (
          record {
            secret = new_secret env x.namespace (resource_name t name);
            exists = false;
            read_only = ro;
          },
          ground (arith, named, same, gone),
          refl,
        )
  ]
