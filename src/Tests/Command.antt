-- ===== src/Tests/Command.antt =====
-- The start of the broker with small files.
use service_broker_k8s.Base.{◌≡◌, refl, String, some, ◌==◌, if◌then◌else◌}
use service_broker_k8s.Errors.{Result, ok}
use service_broker_k8s.Command.{basic, Flags, Host, with_basic, start_up}
use service_broker_k8s.Command.Laws.{Authenticates, start_up-Authenticates}
use service_broker_k8s.Tests.Cluster.{cluster}

abbrev files : String → Result String
files path = if path == "username" then ok "alice" else ok "secret"

abbrev host : Host
host = record {
  Outside = Unit;
  lookup_env = λ name s. some "ns";
  read_file = λ path s. files path;
  Db = Unit;
  sql_open = λ driver source s. (ok tt, s);
  exec = λ db query arguments s. (ok tt, s);
  Certificate = Unit;
  load_key_pair = λ certificate key s. ok tt;
  configure_server = λ c s. (ok tt, s);
  sha256_hex = λ s. s;
}

abbrev flags : Flags
flags = record {
  authentication = basic;
  token = "token";
  username = "username";
  password = "password";
  dbhost = "dbhost";
  dbport = "dbport";
  dbuser = "dbuser";
  dbpassword = "dbpassword";
  dbname = "dbname";
  jwtsecret = "jwtsecret";
  tls_certificate = "tls-certificate";
  tls_private_key = "tls-private-key";
}

start_run : start_up host flags tt ≡ (ok (with_basic host "ns" "alice" "secret"), tt)
unfolding start_up
start_run = refl

start_up-Authenticates_example :
    Authenticates host cluster flags basic (with_basic host "ns" "alice" "secret").server tt
start_up-Authenticates_example =
    start_up-Authenticates host cluster flags tt tt (with_basic host "ns" "alice" "secret")
      start_run
