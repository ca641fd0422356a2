-- ===== src/Broker/Directory/Laws.antt =====
-- pkg/broker/util.go: where a service instance is found after it is registered or removed.
use service_broker_k8s.Base.{
  ◌==◌, if◌then◌else◌, String, true, false, ◌≡◌, inl, inr, refl, Option, arith, eq_iff,
}
use service_broker_k8s.Errors.{Result, ok, err, panic, >>=-eq-ok, ◌>>=◌}
use service_broker_k8s.Json.{Bytes}
use service_broker_k8s.Env.{Env, Answer-cases}
use service_broker_k8s.Registry.{new_secret}
use service_broker_k8s.Config.{ServiceBrokerConfig, ConfigurationBinding, get_template_bindings}
use service_broker_k8s.Registry.Persistence.{KeepsSecrets}
use service_broker_k8s.Registry.Directory.{
  Directory, DirectoryEntry, directory_name, new_directory, add, lookup_entry, remove_entry,
}
use service_broker_k8s.Registry.Directory.Laws.{lookup_entry-add, lookup_entry-remove_entry}
use service_broker_k8s.Broker.Directory.{
  entry_in, registry_namespace, register_directory_instance, get_directory_instance, registration,
  register, added, or_fake, delete_directory_instance,
}

module _ (env : Env) where
  -- A directory that is read stands for the secret of its name and namespace.
  new_directory_named :
      (laws : KeepsSecrets env) (ns : String) (d : Directory) (s : env.State)
      → new_directory env ns s ≡ ok d
      → (d.secret.namespace ≡ ns) × (d.secret.name ≡ directory_name)
  unfolding new_directory new_secret
  new_directory_named laws ns d s h = elim (Answer-cases (env.get_secret ns directory_name s)) [
    | inl (x, found) ↦
        let same : d ≡ record { secret = x; exists = true } = ground (arith, found) in
        rw same (laws.get_named ns directory_name x s found)
    | inr (inl gone) ↦
        let same : d ≡ record { secret = new_secret env ns directory_name; exists = false } =
          ground (arith, gone) in
        rw same (refl, refl)
    | inr (inr (inl failing)) ↦ absurd (ground (arith, failing))
    | inr (inr (inr (reason, failing))) ↦ absurd (ground (arith, failing))
  ]

  added_ok :
      (dirent dirent' : DirectoryEntry) (r : Result (Unit {0}) × Directory × env.State)
      (s' : env.State)
      → added env dirent r ≡ (ok dirent', s')
      → (dirent ≡ dirent') × (d : Directory) × (r ≡ (ok tt, d, s'))
  added_ok dirent dirent' (ok _, d, s) s' h = (cc, d, cc)
  added_ok dirent dirent' (err e, d, s) s' h = cc
  added_ok dirent dirent' (panic, d, s) s' h = cc

  register_ok :
      (instance_id : String) (dirent : DirectoryEntry) (r : Result (Directory × DirectoryEntry))
      (s s' : env.State)
      → register env instance_id r s ≡ (ok dirent, s')
      → (d : Directory) × (d' : Directory) × (r ≡ ok (d, dirent))
        × (add env instance_id dirent d s ≡ (ok tt, d', s'))
  register_ok instance_id dirent (ok (d, dirent')) s s' h =
      let (same, d', ran) = added_ok dirent' dirent (add env instance_id dirent' d s) s' h in
      (d, d', rw same refl, rw same at ran)
  register_ok instance_id dirent (err e) s s' h = cc
  register_ok instance_id dirent panic s s' h = cc

  -- What a registration that can be made is made of.
  registration_ok :
      (config : ServiceBrokerConfig) (context : Option (Option Bytes))
      (ns service_id plan_id : String) (s : env.State) (d : Directory) (dirent : DirectoryEntry)
      → registration env config context ns service_id plan_id s ≡ ok (d, dirent)
      → (binding : ConfigurationBinding) × (get_template_bindings config service_id plan_id
          ≡ ok binding)
        × (registry_namespace env binding context ns ≡ ok dirent.namespace)
        × (new_directory env ns s ≡ ok d)
  registration_ok config context ns service_id plan_id s d dirent h =
      let (binding, bound, h1) =
        >>=-eq-ok (get_template_bindings config service_id plan_id)
          (λ b. registry_namespace env b context ns >>= λ chosen.
            new_directory env ns s >>= λ x. ok (x, entry_in chosen))
          (d, dirent) h in
      let (chosen, resolved, h2) =
        >>=-eq-ok (registry_namespace env binding context ns)
          (λ chosen. new_directory env ns s >>= λ x. ok (x, entry_in chosen)) (d, dirent) h1 in
      let (x, read, h3) =
        >>=-eq-ok (new_directory env ns s) (λ x. ok (x, entry_in chosen)) (d, dirent) h2 in
      (binding, bound, cc, cc)

  get_directory_instance_read :
      (ns id : String) (s : env.State) (d : Directory)
      → new_directory env ns s ≡ ok d
      → get_directory_instance env ns id s ≡ or_fake env ns (lookup_entry d id)
  unfolding get_directory_instance
  get_directory_instance_read ns id s d h = rw h

  -- An instance that is registered is found in the namespace that the scope of its binding chooses,
  -- and every other instance where it was found before.
  pub get_directory_instance-register :
      (laws : KeepsSecrets env) (config : ServiceBrokerConfig) (context : Option (Option Bytes))
      (ns id service_id plan_id : String) (dirent : DirectoryEntry) (s s' : env.State)
      → register_directory_instance env config context ns id service_id plan_id s ≡ (ok dirent, s')
      → ((binding : ConfigurationBinding) × (get_template_bindings config service_id plan_id
            ≡ ok binding)
          × (registry_namespace env binding context ns ≡ ok dirent.namespace))
        × ((j : String)
            → get_directory_instance env ns j s'
              ≡ (if id == j then dirent else get_directory_instance env ns j s))
  unfolding register_directory_instance
  get_directory_instance-register laws config context ns id service_id plan_id dirent s s' h =
      let (d, d', made, ran) =
        register_ok id dirent (registration env config context ns service_id plan_id s) s s' h in
      let (binding, bound, resolved, read) =
        registration_ok config context ns service_id plan_id s d dirent made in
      let (in_ns, named) = new_directory_named laws ns d s read in
      let read' : new_directory env ns s' ≡ ok d' =
        rw in_ns at ((lookup_entry-add env laws id id dirent d d' s s' named ran).0) in
      let after = λ (j : String). (lookup_entry-add env laws id j dirent d d' s s' named ran).1 in
      (
        (binding, bound, resolved),
        λ j. ground (
          arith,
          get_directory_instance_read ns j s' d' read',
          get_directory_instance_read ns j s d read,
          after j,
          eq_iff id j,
        ),
      )

  -- An instance whose directory entry is removed is looked for in the broker's namespace again, and
  -- every other instance where it was found before.
  pub get_directory_instance-delete :
      (laws : KeepsSecrets env) (ns id : String) (d d' : Directory) (s s' : env.State)
      → new_directory env ns s ≡ ok d
      → remove_entry env id d s ≡ (ok tt, d', s')
      → (delete_directory_instance env ns id s ≡ s')
        × ((j : String)
            → get_directory_instance env ns j s'
              ≡ (if id == j then entry_in ns else get_directory_instance env ns j s))
  unfolding delete_directory_instance
  get_directory_instance-delete laws ns id d d' s s' read ran =
      let (in_ns, named) = new_directory_named laws ns d s read in
      let read' : new_directory env ns s' ≡ ok d' =
        rw in_ns at ((lookup_entry-remove_entry env laws id id d d' s s' named ran).0) in
      let after = λ (j : String). (lookup_entry-remove_entry env laws id j d d' s s' named ran).1 in
      (
        ground (arith, read, ran),
        λ j. ground (
          arith,
          get_directory_instance_read ns j s' d' read',
          get_directory_instance_read ns j s d read,
          after j,
          eq_iff id j,
        ),
      )
