-- ===== src/Command/Databases.antt =====
-- cmd/broker/main.go: which database the settings of the advanced token stand for.
use service_broker_k8s.Base.{String, [], ◌∷◌, ◌==◌, ◌&&◌, ◌||◌, not, if◌then◌else◌, sprintf}
use service_broker_k8s.Errors.{Error, Result, ok, err, other, fail_if, ◌>>◌}

abbrev pub fatal : String → Error
fatal s = other (sprintf ("fatal error: " ∷ s ∷ []))

-- The settings of the database, and which driver opens it.
pub record Database : Type 0 where
  pub host : String
  pub port : String
  pub user : String
  pub password : String
  pub name : String
  pub driver : String
  pub source : String

abbrev pub in_memory : (user password name : String) → Database
in_memory user password name = record {
  host = "localhost";
  port = "5432";
  user = user;
  password = password;
  name = name;
  driver = "sqlite3";
  source = ":memory:";
}

abbrev pub on_postgres : (host port user password name : String) → Database
on_postgres host port user password name = record {
  host = host;
  port = port;
  user = user;
  password = password;
  name = name;
  driver = "postgres";
  source = sprintf (
      "host=" ∷ host ∷ " port=" ∷ port ∷ " user=" ∷ user ∷ " password=" ∷ password ∷ " dbname="
      ∷ name ∷ " sslmode=disable" ∷ []);
}

abbrev pick_database : (host port user password name : String) → Result Database
pick_database host port user password name =
    if host == "" && port == "" && user == "" && password == "" && name == ""
    then ok (in_memory user password name)
    else if host == "" || port == "" || user == "" || password == "" || name == ""
    then err (fatal "database host, port, user, password and name must be set")
    else ok (on_postgres host port user password name)

-- The database of the settings: one in memory if none is given, and no other than a complete one.
unfoldable pub choose_database : (host port user password name : String) → Result Database
unfolding sprintf
choose_database host port user password name = do
  fail_if
      ((host == "" || port == "") && (not (user == "") || not (password == "") || not (name == "")))
      (fatal "database host and port must be set if credentials are set")
  pick_database host port user password name
