-- ===== src/Tests/Crypto.antt =====
-- Keys, certificates and passwords of the small stand-ins for the crypto packages.
use service_broker_k8s.Base.{◌≡◌, refl, arith, ℕ, none, some, List, [], ◌∷◌}
use service_broker_k8s.Base.Int.{pos}
use service_broker_k8s.Base.Text.{codes}
use service_broker_k8s.Errors.{ok, other}
use service_broker_k8s.Json.{str}
use service_broker_k8s.Env.{value}
use service_broker_k8s.Crypto.{
  rsa_key, ecdsa_key, ed25519_key, rsa_public, digital_signature, key_encipherment, server_auth,
}
use service_broker_k8s.X509.{Key, new_key, generate_key, decode_private_key}
use service_broker_k8s.X509.Keys.{ReadsKeys, decode_private_key-generate_key}
use service_broker_k8s.X509.Certificates.{X509Certificate, certificate_of, blank}
use service_broker_k8s.X509.Certificates.Issued.{Issued, certificate_of-Issued}
use service_broker_k8s.Provisioner.Template.Functions.{generate_password}
use service_broker_k8s.Provisioner.Template.Functions.Passwords.{
  DrawsBelow, IsPassword, generate_password-IsPassword,
}
use service_broker_k8s.Tests.Cluster.{toy_crypto}

toy-pkcs8 :
    (k : Key toy_crypto) (x : Unit {0})
    → toy_crypto.marshal_pkcs8 k ≡ ok x
    → toy_crypto.parse_pkcs8 x ≡ ok k
toy-pkcs8 (rsa_key k) x h = refl
toy-pkcs8 (ecdsa_key k) x h = cc
toy-pkcs8 (ed25519_key k) x h = cc

toy-ReadsKeys : ReadsKeys toy_crypto
toy-ReadsKeys = record { pkcs1 = λ k. refl; pkcs8 = toy-pkcs8; ec = λ k x h. refl; pem = λ b. refl }

generate_run : generate_key toy_crypto tt "EllipticP256" "SEC 1" none ≡ ok "EC PRIVATE KEY"
unfolding generate_key
generate_run = refl

decode_private_key-generate_key_example :
    (key : Key toy_crypto) × (new_key toy_crypto tt "EllipticP256" none ≡ ok key)
    × (decode_private_key toy_crypto "EC PRIVATE KEY" ≡ ok key)
decode_private_key-generate_key_example =
    decode_private_key-generate_key toy_crypto toy-ReadsKeys tt "EllipticP256" "SEC 1" none
      "EC PRIVATE KEY" generate_run

toy-DrawsBelow : DrawsBelow toy_crypto
toy-DrawsBelow = record { below = λ c limit i n h. ground arith }

password_run : generate_password toy_crypto tt (pos 3) (value (str "abcd")) ≡ ok "text"
unfolding generate_password codes
password_run = refl

generate_password-IsPassword_example :
    (text : List ℕ) × ("text" ≡ toy_crypto.of_utf8 text)
    × IsPassword (toy_crypto.utf8 "abcd") 3 text
generate_password-IsPassword_example =
    generate_password-IsPassword toy_crypto toy-DrawsBelow tt (pos 3) (value (str "abcd"))
      (some "abcd") (other "") "text" refl password_run

-- A certificate for a server, with a name.
abbrev server_certificate : X509Certificate toy_crypto
server_certificate = record (blank toy_crypto tt 60 "subject" 0 tt) {
  dns_names = "example" ∷ [];
  key_usage = digital_signature ∷ key_encipherment ∷ [];
  ext_key_usage = server_auth ∷ [];
}

certificate_run :
    certificate_of toy_crypto tt (rsa_key tt) "cn" 60 "Server" ("DNS:example" ∷ [])
    ≡ ok (server_certificate, rsa_public tt)
unfolding certificate_of
certificate_run = refl

certificate_of-Issued_example :
    Issued toy_crypto tt (rsa_key tt) 60 "Server" ("DNS:example" ∷ []) server_certificate
certificate_of-Issued_example =
    certificate_of-Issued toy_crypto tt (rsa_key tt) "cn" 60 "Server" ("DNS:example" ∷ [])
      server_certificate (rsa_public tt) certificate_run
