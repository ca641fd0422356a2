-- ===== src/Registry/Directory/Laws.antt =====
-- What the directory returns after `Add` and `Remove`.
use service_broker_k8s.Base.{
  String, ◌≡◌, refl, true, Option, none, some, arith, ◌==◌, if◌then◌else◌, inl, inr, Bool-cases,
  Option-cases,
}
use service_broker_k8s.Base.Dict.{Dict, lookup, insert, remove, lookup-insert, lookup-remove}
use service_broker_k8s.Errors.{ok}
use service_broker_k8s.Json.{Bytes}
use service_broker_k8s.Env.{Secret, Answer, answer, not_found, already_exists, failed, Env}
use service_broker_k8s.Registry.Persistence.{KeepsSecrets}
use service_broker_k8s.Registry.Directory.{
  Directory, DirectoryEntry, directory_name, marshal_entry, unmarshal_entry, find_entry,
  lookup_entry, missing, with_table, table_or_empty, new_directory, stored, commit_directory, add,
  remove_entry, remove_from,
}

-- A directory entry that is encoded is decoded to itself.
pub unmarshal_entry-marshal_entry :
    (dirent : DirectoryEntry) → unmarshal_entry (marshal_entry dirent) ≡ ok dirent
unfolding unmarshal_entry marshal_entry
unmarshal_entry-marshal_entry dirent = refl

lookup_entry_lem :
    (d : Directory) (id : String)
    → lookup_entry d id ≡ find_entry id (lookup id (table_or_empty d.secret.data_map))
unfolding lookup_entry lookup find_entry
lookup_entry_lem d id = elim (Option-cases d.secret.data_map) [
  | inl nil ↦ ground arith
  | inr (table, held) ↦ ground arith
]

find_entry-marshal_entry :
    (id : String) (dirent : DirectoryEntry)
    → find_entry id (some (marshal_entry dirent)) ≡ ok dirent
unfolding find_entry
find_entry-marshal_entry id dirent = unmarshal_entry-marshal_entry dirent

lookup_entry-insert :
    (id j : String) (dirent : DirectoryEntry) (d d' : Directory)
    → d'.secret.data_map
      ≡ some (insert id (marshal_entry dirent) (table_or_empty d.secret.data_map))
    → lookup_entry d' j ≡ (if id == j then ok dirent else lookup_entry d j)
lookup_entry-insert id j dirent d d' h = ground (
  arith,
  lookup_entry_lem d j,
  lookup_entry_lem d' j,
  lookup-insert id j (marshal_entry dirent) (table_or_empty d.secret.data_map),
  find_entry-marshal_entry j dirent,
)

lookup_entry-removed :
    (id j : String) (d d' : Directory) (table : Dict Bytes)
    → d.secret.data_map ≡ some table
    → d'.secret.data_map ≡ some (remove id table)
    → lookup_entry d' j ≡ (if id == j then find_entry j none else lookup_entry d j)
lookup_entry-removed id j d d' table held h =
    ground (arith, lookup_entry_lem d j, lookup_entry_lem d' j, lookup-remove id j table)

module _ (env : Env) where
  -- What a commit that succeeds leaves in memory and in the cluster.
  pub record Stored (d d' : Directory) (s' : env.State) : Type 0 where
    pub read_back : env.get_secret d.secret.namespace d.secret.name s' ≡ answer d'.secret
    pub same_table : d'.secret.data_map ≡ d.secret.data_map
    pub now_exists : d'.exists ≡ true

  stored_ok :
      (d d' : Directory) (r : Answer Secret × env.State) (s' : env.State)
      → stored env d r ≡ (ok tt, d', s')
      → (y : Secret) × (r ≡ (answer y, s')) × (d' ≡ record { secret = y; exists = true })
  stored_ok d d' (answer y, s'') s' h = (y, cc, cc)
  stored_ok d d' (not_found, s'') s' h = cc
  stored_ok d d' (already_exists, s'') s' h = cc
  stored_ok d d' (failed reason, s'') s' h = cc

  pub commit_directory-Stored :
      (laws : KeepsSecrets env) (d d' : Directory) (s s' : env.State)
      → commit_directory env d s ≡ (ok tt, d', s')
      → Stored d d' s'
  unfolding commit_directory
  commit_directory-Stored laws d d' s s' h = elim (Bool-cases d.exists) [
    | inl old ↦
        let (y, answered, same) = stored_ok d d' (env.update_secret d.secret s) s' (ground arith) in
        let (back, held, _, _) = laws.update_read d.secret y s s' answered in
        rw same (record { read_back = back; same_table = held; now_exists = refl })
    | inr fresh ↦
        let (y, answered, same) = stored_ok d d' (env.create_secret d.secret s) s' (ground arith) in
        let (back, held, _, _) = laws.create_read d.secret y s s' answered in
        rw same (record { read_back = back; same_table = held; now_exists = refl })
  ]

  -- After `Add` the directory, which `NewDirectory` reads back, has the new entry for the instance
  -- and the old one for every other instance.
  pub lookup_entry-add :
      (laws : KeepsSecrets env) (id j : String) (dirent : DirectoryEntry) (d d' : Directory)
      (s s' : env.State)
      → d.secret.name ≡ directory_name
      → add env id dirent d s ≡ (ok tt, d', s')
      → (new_directory env d.secret.namespace s' ≡ ok d')
        × (lookup_entry d' j ≡ (if id == j then ok dirent else lookup_entry d j))
  unfolding add new_directory
  lookup_entry-add laws id j dirent d d' s s' named h =
      let table = insert id (marshal_entry dirent) (table_or_empty d.secret.data_map) in
      let c = commit_directory-Stored laws (with_table d table) d' s s' h in
      (
        ground (arith, named, c.read_back, c.now_exists),
        lookup_entry-insert id j dirent d d' c.same_table,
      )

  removed_ok :
      (id : String) (d d' : Directory) (m : Option (Dict Bytes)) (s s' : env.State)
      → remove_from env id d m s ≡ (ok tt, d', s')
      → (table : Dict Bytes) × (m ≡ some table)
        × (commit_directory env (with_table d (remove id table)) s ≡ (ok tt, d', s'))
  removed_ok id d d' none s s' h = cc
  removed_ok id d d' (some table) s s' h = elim (Option-cases (lookup id table)) [
    | inl absent ↦ absurd (ground arith)
    | inr (b, present) ↦ (table, refl, ground arith)
  ]

  -- After `Remove` the directory, which `NewDirectory` reads back, reports the instance missing and
  -- has the old entry of every other instance.
  pub lookup_entry-remove_entry :
      (laws : KeepsSecrets env) (id j : String) (d d' : Directory) (s s' : env.State)
      → d.secret.name ≡ directory_name
      → remove_entry env id d s ≡ (ok tt, d', s')
      → (new_directory env d.secret.namespace s' ≡ ok d')
        × (lookup_entry d' j ≡ (if id == j then missing j else lookup_entry d j))
  unfolding remove_entry new_directory find_entry
  lookup_entry-remove_entry laws id j d d' s s' named h =
      let (table, held, committed) = removed_ok id d d' d.secret.data_map s s' h in
      let c = commit_directory-Stored laws (with_table d (remove id table)) d' s s' committed in
      (
        ground (arith, named, c.read_back, c.now_exists),
        lookup_entry-removed id j d d' table held c.same_table,
      )
