-- ===== src/Command/Laws.antt =====
-- What the broker is configured with after cmd/broker/main.go has started it.
use service_broker_k8s.Base.{
  ◌≡◌, ◌≢◌, ◌⊎◌, ◌↔◌, inl, inr, refl, String, Bool, true, false, ◌==◌, arith, ne_of_test,
  eq_of_test, Bool-cases, test_of_ne,
}
use service_broker_k8s.Errors.{Error, Result, ok, err, panic, fail_if, or_fail}
use service_broker_k8s.Exec.{lift, pure, Exec, continue, ◌>>=◌}
use service_broker_k8s.Env.{Env}
use service_broker_k8s.Http.{Request}
use service_broker_k8s.Broker.Auth.{
  ServerConfiguration, BasicAuth, AdvancedToken, check_authentication, check_bearer_token,
  check_basic_auth, check_jwt,
}
use service_broker_k8s.Command.Databases.{Database, fatal, choose_database, in_memory, on_postgres}
use service_broker_k8s.Command.{
  AuthenticationType, bearer_token, basic, advanced_token, Flags, Host, Settings, with_token,
  with_basic, with_advanced, set_up_database, configure_advanced, configure_authentication,
  start_up, find_namespace, start_in, finish_start,
}

-- Settings of a database that are all missing, or all there.
abbrev pub AllEmpty : (host port user password name : String) → Type 0
AllEmpty h p u w n = (h ≡ "") × (p ≡ "") × (u ≡ "") × (w ≡ "") × (n ≡ "")

abbrev pub AllGiven : (host port user password name : String) → Type 0
AllGiven h p u w n = (h ≢ "") × (p ≢ "") × (u ≢ "") × (w ≢ "") × (n ≢ "")

-- A database is opened exactly if its five settings are all empty or all given.
pub choose_database_iff :
    (h p u w n : String)
    → ((d : Database) × (choose_database h p u w n ≡ ok d))
      ↔ (AllEmpty h p u w n ⊎ AllGiven h p u w n)
unfolding choose_database
choose_database_iff h p u w n = (
  λ (d, e). elim (Bool-cases (h == "")) [
    | inl empty ↦ inl (
      eq_of_test empty,
      eq_of_test (ground (arith, empty, e)),
      eq_of_test (ground (arith, empty, e)),
      eq_of_test (ground (arith, empty, e)),
      eq_of_test (ground (arith, empty, e)),
    )
    | inr given ↦ inr (
      ne_of_test given,
      ne_of_test (ground (arith, given, e)),
      ne_of_test (ground (arith, given, e)),
      ne_of_test (ground (arith, given, e)),
      ne_of_test (ground (arith, given, e)),
    )
  ],
  λ all. elim all [
    | inl (h', p', u', w', n') ↦ (in_memory u w n, rw (h', p', u', w', n') refl)
    | inr (h', p', u', w', n') ↦ (
      on_postgres h p u w n,
      rw (test_of_ne h', test_of_ne p', test_of_ne u', test_of_ne w', test_of_ne n') refl,
    )
  ],
)

module _ {S A B : Type 0} where
  >>=-done :
      (m : Exec S A) (f : A → Exec S B) (s s' : S) (b : B)
      → (m >>= f) s ≡ (ok b, s')
      → (a : A) × (s1 : S) × (m s ≡ (ok a, s1)) × (f a s1 ≡ (ok b, s'))
  >>=-done m f s s' b h = continued (m s) refl h
    where
      continued :
          (out : Result A × S)
          → m s ≡ out
          → continue out.0 f out.1 ≡ (ok b, s')
          → (a : A) × (s1 : S) × (m s ≡ (ok a, s1)) × (f a s1 ≡ (ok b, s'))
      continued (ok a, s1) e h' = (a, s1, e, h')
      continued (err r, s1) e h' = cc
      continued (panic, s1) e h' = cc

module _ {S A : Type 0} where
  pure_value : {a b : A} {s s' : S} → pure a s ≡ (ok b, s') → a ≡ b
  pure_value h = cc

passed_fail :
    {S : Type 0} (b : Bool) (e : Error) (u : Unit {0}) (s s' : S)
    → lift (fail_if b e) s ≡ (ok u, s')
    → b ≡ false
passed_fail true e u s s' h = cc
passed_fail false e u s s' h = refl

-- A step that only reads leaves the state as it is.
reads_only :
    {S A : Type 0} {a : A} (r : Result A) (s : S) {s' : S}
    → ◌≡◌ {A = Result A × S} (r, s) (ok a, s')
    → s' ≡ s
reads_only r s h = cc

module _ (host : Host) (env : Env) (flags : Flags) where
  open host use {Outside, read_file}

  -- The server checks requests by the method of the flag, with what the files of the flags hold.
  abbrev pub Authenticates : AuthenticationType → ServerConfiguration → Outside → Type 0
  Authenticates bearer_token c s =
      (token : String) × (read_file flags.token s ≡ ok token)
      × ((r : Request) → check_authentication env c r ≡ check_bearer_token env token r)
  Authenticates basic c s =
      (auth : BasicAuth) × (read_file flags.username s ≡ ok auth.username)
      × (read_file flags.password s ≡ ok auth.password)
      × ((r : Request) → check_authentication env c r ≡ check_basic_auth env auth r)
  Authenticates advanced_token c s =
      (auth : AdvancedToken) × (auth.jwt_secret ≢ "")
      × ((r : Request) → check_authentication env c r ≡ check_jwt env auth r)

  abbrev step_file : (path : String) → Exec Outside String
  step_file path s = (read_file path s, s)

  advanced_done :
      (namespace : String) (s s' : Outside) (settings : Settings)
      → configure_advanced host flags namespace s ≡ (ok settings, s')
      → (secret : String) × (database : Database) × (secret ≢ "")
        × (with_advanced host namespace secret database ≡ settings)
  unfolding configure_advanced
  advanced_done namespace s s' settings h =
      let (dbhost, s1, _, h1) = >>=-done (step_file flags.dbhost) _ s s' settings h in
      let (dbport, s2, _, h2) = >>=-done (step_file flags.dbport) _ s1 s' settings h1 in
      let (dbuser, s3, _, h3) = >>=-done (step_file flags.dbuser) _ s2 s' settings h2 in
      let (dbpassword, s4, _, h4) = >>=-done (step_file flags.dbpassword) _ s3 s' settings h3 in
      let (dbname, s5, _, h5) = >>=-done (step_file flags.dbname) _ s4 s' settings h4 in
      let (secret, s6, _, h6) = >>=-done (step_file flags.jwtsecret) _ s5 s' settings h5 in
      let (u, s7, given, h7) =
        >>=-done (lift (fail_if (secret == "") (fatal "JWT secret must be set"))) _ s6 s' settings
          h6 in
      let (database, s8, _, h8) =
        >>=-done (lift (choose_database dbhost dbport dbuser dbpassword dbname)) _ s7 s' settings
          h7 in
      let (db, s9, _, h9) =
        >>=-done (host.sql_open database.driver database.source) _ s8 s' settings h8 in
      let (u', s10, _, h10) = >>=-done (set_up_database host db) _ s9 s' settings h9 in
      (secret, database, ne_of_test (passed_fail (secret == "") _ u s6 s7 given), pure_value h10)

  configured :
      (t : AuthenticationType) (namespace : String) (s s' : Outside) (settings : Settings)
      → configure_authentication host t flags namespace s ≡ (ok settings, s')
      → Authenticates t settings.server s
  unfolding configure_authentication check_authentication
  configured bearer_token namespace s s' settings h =
      let (token, s1, read, rest) = >>=-done (step_file flags.token) _ s s' settings h in
      let same : with_token host namespace token ≡ settings = cc in
      (token, ground arith, λ r. rw (← same) refl)
  configured basic namespace s s' settings h =
      let (username, s1, read, h1) = >>=-done (step_file flags.username) _ s s' settings h in
      let (password, s2, read', rest) = >>=-done (step_file flags.password) _ s1 s' settings h1 in
      let same : with_basic host namespace username password ≡ settings = cc in
      (
        record { username = username; password = password },
        ground arith,
        ground arith,
        λ r. rw (← same) refl,
      )
  configured advanced_token namespace s s' settings h =
      let (secret, database, given, same) = advanced_done namespace s s' settings h in
      (record { jwt_secret = secret }, given, λ r. rw (← same) refl)

  -- A broker that starts checks the requests by the method of its flag and by no other, with the token
  -- or the user that the files of the flags hold; or, with the advanced token, with a secret that is
  -- not empty.
  pub start_up-Authenticates :
      (s s' : Outside) (settings : Settings)
      → start_up host flags s ≡ (ok settings, s')
      → Authenticates flags.authentication settings.server s
  unfolding start_up
  start_up-Authenticates s s' settings h =
      let (namespace, s1, named, h1) =
        >>=-done (find_namespace host) (start_in host flags) s s' settings h in
      let (made, s2, done, h2) =
        >>=-done (configure_authentication host flags.authentication flags namespace)
          (finish_start host flags) s1 s' settings h1 in
      let (c, s3, loaded, h3) =
        >>=-done (λ x. (host.load_key_pair flags.tls_certificate flags.tls_private_key x, x))
          (λ c. host.configure_server made.server >>= λ u. pure made) s2 s' settings h2 in
      let (u, s4, served, h4) =
        >>=-done (host.configure_server made.server) (λ u. pure made) s3 s' settings h3 in
      rw (← pure_value h4) (
        configured flags.authentication namespace s s2 made
          (rw (reads_only (or_fail (host.lookup_env "NAMESPACE" s) _) s named) at done))
