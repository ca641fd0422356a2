-- ===== src/X509/Certificates/Issued.antt =====
-- What a certificate of GenerateCertificate (pkg/util/x509.go) says.
use mathlib.Core.List.{append-nil, append_assoc}
use service_broker_k8s.Base.{
  eq_of_test, ◌≢◌, ◌≡◌, refl, inl, inr, String, Bool, true, false, List, [], ◌∷◌, ◌++◌, ◌==◌, ◌||◌,
  if◌then◌else◌, All, Bool-cases, arith,
}
use service_broker_k8s.Base.Text.{split_colons}
use service_broker_k8s.Errors.{ok, >>-eq-ok, >>=-eq-ok}
use service_broker_k8s.Crypto.{
  Crypto, rsa_key, ecdsa_key, ed25519_key, KeyUsage, cert_sign, crl_sign, digital_signature,
  key_encipherment, ExtKeyUsage, server_auth, client_auth,
}
use service_broker_k8s.X509.{Key}
use service_broker_k8s.X509.Certificates.{
  serial_limit, X509Certificate, X509PublicKey, add_fields, add_sans, set_usage, blank,
  certificate_of, generate_serial, reject_ed25519, generate_subject_key_identifier,
}

-- The name that an alternative name `type:name` gives, if it is of a type.
abbrev name_if : (t : String) → List String → List String
name_if t (t' ∷ name ∷ []) = if t' == t then name ∷ [] else []
name_if t _ = []

-- The names of a type, in order.
pub names_of : (t : String) → List String → List String
names_of t [] = []
names_of t (san ∷ sans) = name_if t (split_colons san) ++ names_of t sans

-- An alternative name that is well formed and of a type that is known.
abbrev IsSanFields : List String → Type 0
IsSanFields (t ∷ name ∷ []) = (t == "DNS" || t == "EMAIL") ≡ true
IsSanFields _ = ⊥

abbrev pub IsSan : String → Type 0
IsSan san = IsSanFields (split_colons san)

-- The bits of a usage that is known.
pub data IsUsage (usage : String) (is_ca : Bool) (bits : List KeyUsage) (ext : List ExtKeyUsage)
    : Type 0 where
  ca :
      usage ≡ "CA"
      → is_ca ≡ true
      → bits ≡ cert_sign ∷ crl_sign ∷ []
      → ext ≡ []
      → IsUsage usage is_ca bits ext
  server :
      usage ≡ "Server"
      → is_ca ≡ false
      → bits ≡ digital_signature ∷ key_encipherment ∷ []
      → ext ≡ server_auth ∷ []
      → IsUsage usage is_ca bits ext
  client :
      usage ≡ "Client"
      → is_ca ≡ false
      → bits ≡ digital_signature ∷ []
      → ext ≡ client_auth ∷ []
      → IsUsage usage is_ca bits ext

module _ (crypto : Crypto) where
  abbrev with_names : X509Certificate crypto → (dns emails : List String) → X509Certificate crypto
  with_names cert dns emails = record cert {
    dns_names = cert.dns_names ++ dns;
    email_addresses = cert.email_addresses ++ emails;
  }

  add_fields_lem :
      (san : String) (fields : List String) (cert cert' : X509Certificate crypto)
      → add_fields crypto san fields cert ≡ ok cert'
      → IsSanFields fields
        × (cert' ≡ with_names cert (name_if "DNS" fields) (name_if "EMAIL" fields))
  add_fields_lem san [] cert cert' h = cc
  add_fields_lem san (t ∷ []) cert cert' h = cc
  add_fields_lem san (t ∷ name ∷ more ∷ rest) cert cert' h = cc
  add_fields_lem san (t ∷ name ∷ []) cert cert' h = elim (Bool-cases (t == "DNS")) [
    | inl dns ↦
        let other_type : (t == "EMAIL") ≡ false = rw (eq_of_test dns) refl in
        rw (dns, other_type) (refl, ground (arith, dns, append-nil cert.email_addresses))
    | inr no_dns ↦ elim (Bool-cases (t == "EMAIL")) [
      | inl email ↦
          rw (no_dns, email) (refl, ground (arith, no_dns, email, append-nil cert.dns_names))
      | inr no_email ↦ absurd (ground (arith, no_dns, no_email))
    ]
  ]

  add_sans_lem :
      (sans : List String) (cert cert' : X509Certificate crypto)
      → add_sans crypto sans cert ≡ ok cert'
      → All IsSan sans × (cert' ≡ with_names cert (names_of "DNS" sans) (names_of "EMAIL" sans))
  unfolding add_sans names_of
  add_sans_lem [] cert cert' h =
      (tt, ground (arith, append-nil cert.dns_names, append-nil cert.email_addresses))
  add_sans_lem (san ∷ sans) cert cert' h =
      let (cert1, added, rest) =
        >>=-eq-ok (add_fields crypto san (split_colons san) cert) (add_sans crypto sans) cert' h in
      let (well, first) = add_fields_lem san (split_colons san) cert cert1 added in
      let (wells, others) = add_sans_lem sans cert1 cert' rest in
      (
        (well, wells),
        ground (
          arith,
          append_assoc cert.dns_names (name_if "DNS" (split_colons san)) (names_of "DNS" sans),
          append_assoc cert.email_addresses (name_if "EMAIL" (split_colons san))
              (names_of "EMAIL" sans),
        ),
      )

  set_usage_lem :
      (usage : String) (cert cert' : X509Certificate crypto)
      → set_usage crypto usage cert ≡ ok cert'
      → cert.is_ca ≡ false
      → cert.ext_key_usage ≡ []
      → IsUsage usage cert'.is_ca cert'.key_usage cert'.ext_key_usage
        × (cert' ≡ record cert {
          is_ca = cert'.is_ca;
          key_usage = cert'.key_usage;
          ext_key_usage = cert'.ext_key_usage;
        })
  unfolding set_usage
  set_usage_lem usage cert cert' h no_ca no_ext = elim (Bool-cases (usage == "CA")) [
    | inl u ↦ (
      ca (eq_of_test u) (ground (arith, u)) (ground (arith, u)) (ground (arith, u)),
      ground (arith, u),
    )
    | inr not_ca ↦ elim (Bool-cases (usage == "Server")) [
      | inl u ↦ (
        server (eq_of_test u) (ground (arith, not_ca, u)) (ground (arith, not_ca, u))
            (ground (arith, not_ca, u)),
        ground (arith, not_ca, u),
      )
      | inr not_server ↦ elim (Bool-cases (usage == "Client")) [
        | inl u ↦ (
          client (eq_of_test u) (ground (arith, not_ca, not_server, u))
              (ground (arith, not_ca, not_server, u)) (ground (arith, not_ca, not_server, u)),
          ground (arith, not_ca, not_server, u),
        )
        | inr not_client ↦ absurd (ground (arith, not_ca, not_server, not_client))
      ]
    ]
  ]

  reject_ed25519_lem :
      (key : Key crypto)
      → reject_ed25519 crypto key ≡ ok tt
      → (k : crypto.Ed25519Key) → key ≢ ed25519_key k
  reject_ed25519_lem (rsa_key x) h k e = cc
  reject_ed25519_lem (ecdsa_key x) h k e = cc
  reject_ed25519_lem (ed25519_key x) h k e = cc

  -- A certificate that names what it was asked for.
  pub record Issued (c : crypto.Chance) (key : Key crypto) (lifetime : crypto.Duration)
      (usage : String) (sans : List String) (cert : X509Certificate crypto) : Type 0 where
    pub well_formed : All IsSan sans
    pub dns : cert.dns_names ≡ names_of "DNS" sans
    pub email : cert.email_addresses ≡ names_of "EMAIL" sans
    pub usages : IsUsage usage cert.is_ca cert.key_usage cert.ext_key_usage
    pub serial : crypto.rand_int c serial_limit 0 ≡ ok cert.serial_number
    pub starts : cert.not_before ≡ crypto.time_now c
    pub ends : cert.not_after ≡ crypto.time_add cert.not_before lifetime
    pub constrained : cert.basic_constraints_valid ≡ true
    pub not_ed25519 : (k : crypto.Ed25519Key) → key ≢ ed25519_key k

  -- A certificate is signed only if every alternative name is well formed and of a known type, the
  -- usage is known, and its key is not of type Ed25519. It then has these names by type and in order,
  -- the bits of the usage, the serial number that was drawn, and the lifetime from now.
  pub certificate_of-Issued :
      (c : crypto.Chance) (key : Key crypto) (cn : String) (lifetime : crypto.Duration)
      (usage : String) (sans : List String) (cert : X509Certificate crypto)
      (public : X509PublicKey crypto)
      → certificate_of crypto c key cn lifetime usage sans ≡ ok (cert, public)
      → Issued c key lifetime usage sans cert
  unfolding certificate_of generate_serial
  certificate_of-Issued c key cn lifetime usage sans cert public h =
      let (allowed, h1) = >>-eq-ok (reject_ed25519 crypto key) _ h in
      let (csr, _, h2) =
        >>=-eq-ok (crypto.create_certificate_request c cn key) _ (cert, public) h1 in
      let ((subject, public'), _, h3) =
        >>=-eq-ok (crypto.parse_certificate_request csr) _ (cert, public) h2 in
      let (serial, drawn, h4) = >>=-eq-ok (generate_serial crypto c) _ (cert, public) h3 in
      let (key_id, _, h5) =
        >>=-eq-ok (generate_subject_key_identifier crypto public') _ (cert, public) h4 in
      let start = blank crypto c lifetime subject serial key_id in
      let (with_sans, added, h6) = >>=-eq-ok (add_sans crypto sans start) _ (cert, public) h5 in
      let (cert', used, h7) = >>=-eq-ok (set_usage crypto usage with_sans) _ (cert, public) h6 in
      let (well, named) = add_sans_lem sans start with_sans added in
      let (usages, same) = set_usage_lem usage with_sans cert' used (ground arith) (ground arith) in
      record {
        well_formed = well;
        dns = ground arith;
        email = ground arith;
        usages = ground arith;
        serial = ground arith;
        starts = ground arith;
        ends = ground arith;
        constrained = ground arith;
        not_ed25519 = reject_ed25519_lem key allowed;
      }
