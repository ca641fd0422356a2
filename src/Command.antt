-- ===== src/Command.antt =====
-- cmd/broker/main.go: how the broker starts.
pub mod Databases
pub mod Laws
use service_broker_k8s.Base.{
  String, Bool, true, false, Option, none, some, [], ◌∷◌, ◌==◌, ◌&&◌, ◌||◌, not, List,
  if◌then◌else◌, sprintf,
}
use service_broker_k8s.Errors.{Error, Result, ok, err, panic, other, fail_if, or_fail}
use service_broker_k8s.Exec.{Exec, lift, gets, pure, ◌>>=◌, ◌>>◌}
use service_broker_k8s.Command.Databases.{fatal, Database, choose_database}
use service_broker_k8s.Broker.Auth.{ServerConfiguration, BasicAuth, AdvancedToken}

-- `authenticationType`
pub data AuthenticationType : Type 0 where
  bearer_token basic advanced_token : AuthenticationType

-- `Set` of the flag.
unfoldable pub set_authentication : String → Result AuthenticationType
set_authentication s =
    if s == "token"
    then ok bearer_token
    else if s == "basic"
    then ok basic
    else if s == "advancedToken"
    then ok advanced_token
    else err (fatal (sprintf ("unexpected authentication type " ∷ s ∷ [])))

-- The flags, each but the first the path of a file.
pub record Flags : Type 0 where
  pub authentication : AuthenticationType
  pub token : String
  pub username : String
  pub password : String
  pub dbhost : String
  pub dbport : String
  pub dbuser : String
  pub dbpassword : String
  pub dbname : String
  pub jwtsecret : String
  pub tls_certificate : String
  pub tls_private_key : String

-- What the command finds around it: the environment, files, the drivers of databases, TLS, and the
-- rest of the start.
pub record Host : Type 1 where
  pub Outside : Type 0
  pub lookup_env : String → Outside → Option String
  pub read_file : String → Outside → Result String
  pub Db : Type 0
  pub sql_open : (driver source : String) → Outside → Result Db × Outside
  pub exec :
      Db → (query : String) → (arguments : List String) → Outside → Result (Unit {0}) × Outside
  pub Certificate : Type 0
  pub load_key_pair : (certificate key : String) → Outside → Result Certificate
  -- `client.New` and `broker.ConfigureServer`.
  pub configure_server : ServerConfiguration → Outside → Result (Unit {0}) × Outside
  pub sha256_hex : String → String

abbrev pub create_users : String
create_users =
    "CREATE TABLE IF NOT EXISTS users (id SERIAL PRIMARY KEY, username TEXT NOT NULL, hashedpassword TEXT NOT NULL)"

abbrev pub create_bought_services : String
create_bought_services =
    "CREATE TABLE IF NOT EXISTS bought_services (id SERIAL PRIMARY KEY, user_id INTEGER NOT NULL, service_id TEXT NOT NULL, plan_id TEXT NOT NULL, FOREIGN KEY (user_id) REFERENCES users(id))"

abbrev pub insert_default_user : String
insert_default_user =
    "INSERT INTO users (username, hashedpassword) VALUES ($1, $2) ON CONFLICT DO NOTHING"

-- The configuration of the server, with the database where there is one.
pub record Settings : Type 0 where
  pub server : ServerConfiguration
  pub database : Option Database

module _ (host : Host) where
  open host use {
    Outside, lookup_env, read_file, Db, sql_open, exec, load_key_pair, configure_server,
  }

  abbrev file : String → Exec Outside String
  file path = λ s. (read_file path s, s)

  abbrev unauthenticated : String → ServerConfiguration
  unauthenticated namespace = record {
    namespace = namespace;
    token = none;
    basic_auth = none;
    advanced_token = none;
  }

  abbrev pub with_token : String → String → Settings
  with_token namespace token = record {
    server = record (unauthenticated namespace) { token = some token };
    database = none;
  }

  abbrev pub with_basic : String → (username password : String) → Settings
  with_basic namespace username password = record {
    server = record (unauthenticated namespace) {
      basic_auth = some (record { username = username; password = password });
    };
    database = none;
  }

  abbrev pub with_advanced : String → String → Database → Settings
  with_advanced namespace secret database = record {
    server = record (unauthenticated namespace) {
      advanced_token = some (record { jwt_secret = secret });
    };
    database = some database;
  }

  -- The tables, and the default user.
  unfoldable pub set_up_database : Db → Exec Outside (Unit {0})
  set_up_database db = do
    exec db create_users []
    exec db create_bought_services []
    exec db insert_default_user ("admin" ∷ host.sha256_hex "password" ∷ [])

  -- The case of the advanced token.
  unfoldable pub configure_advanced : Flags → (namespace : String) → Exec Outside Settings
  unfolding choose_database set_up_database
  configure_advanced flags namespace = do
    dbhost ← file flags.dbhost
    dbport ← file flags.dbport
    dbuser ← file flags.dbuser
    dbpassword ← file flags.dbpassword
    dbname ← file flags.dbname
    secret ← file flags.jwtsecret
    lift (fail_if (secret == "") (fatal "JWT secret must be set"))
    database ← lift (choose_database dbhost dbport dbuser dbpassword dbname)
    db ← sql_open database.driver database.source
    set_up_database db
    pure (with_advanced namespace secret database)

  -- The switch over the type of authentication.
  unfoldable pub configure_authentication :
      AuthenticationType → Flags → (namespace : String) → Exec Outside Settings
  unfolding configure_advanced
  configure_authentication bearer_token flags namespace = do
    token ← file flags.token
    pure (with_token namespace token)
  configure_authentication basic flags namespace = do
    username ← file flags.username
    password ← file flags.password
    pure (with_basic namespace username password)
  configure_authentication advanced_token flags namespace = configure_advanced flags namespace

  -- The start of a server that is configured.
  abbrev pub finish_start : Flags → Settings → Exec Outside Settings
  finish_start flags settings = do
    _ ← (λ s. (load_key_pair flags.tls_certificate flags.tls_private_key s, s))
    configure_server settings.server
    pure settings

  abbrev pub start_in : Flags → (namespace : String) → Exec Outside Settings
  start_in flags namespace = do
    settings ← configure_authentication flags.authentication flags namespace
    finish_start flags settings

  abbrev pub find_namespace : Exec Outside String
  find_namespace s =
      (or_fail (lookup_env "NAMESPACE" s) (fatal "NAMESPACE environment variable must be set"), s)

  -- `main`, up to `RunServer`; an error ends the process.
  unfoldable pub start_up : Flags → Exec Outside Settings
  unfolding configure_authentication
  start_up flags = do namespace ← find_namespace; start_in flags namespace
