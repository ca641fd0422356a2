-- ===== src/X509/Certificates.antt =====
-- DecodeCertificate and GenerateCertificate of pkg/util/x509.go.
pub mod Issued
use service_broker_k8s.Base.{
  ℕ, ◌+◌, ◌^◌, String, Bool, true, false, Option, none, some, List, [], ◌∷◌, ◌++◌, ◌==◌,
  if◌then◌else◌, not, sprintf,
}
use service_broker_k8s.Base.Text.{split_colons}
use service_broker_k8s.Errors.{
  Error, Result, ok, err, panic, other, configuration_error, fail_if, ◌>>=◌, ◌>>◌,
}
use service_broker_k8s.Crypto.{
  Crypto, PrivateKey, rsa_key, ecdsa_key, ed25519_key, PublicKey, rsa_public, ecdsa_public,
  other_public, Certificate, KeyUsage, cert_sign, crl_sign, digital_signature, key_encipherment,
  ExtKeyUsage, server_auth, client_auth, PemBlock,
}
use service_broker_k8s.X509.{Key, only_block, decode_private_key, pem_type_certificate}

-- The limit of a serial number, 1 shifted by 128.
abbrev pub serial_limit : ℕ
serial_limit = 2 ^ 128

abbrev malformed_san : String → Error
malformed_san san = other (sprintf ("invalid subject alt name: malformed SAN " ∷ san ∷ []))

abbrev unsupported_san : String → Error
unsupported_san t = other (sprintf ("invalid subject alt name unsupported SAN type " ∷ t ∷ []))

module _ (crypto : Crypto) where
  open crypto use {
    Chance, Octets, Subject, Time, Duration, RsaPublicKey, EcdsaPublicKey, rand_int, asn1_marshal,
    elliptic_marshal, sha1_sum, parse_certificate, create_certificate_request,
    parse_certificate_request, time_now, time_add, create_certificate, pem_encode,
  }

  abbrev pub X509Certificate : Type 0
  X509Certificate = Certificate Subject Time Octets

  abbrev pub X509PublicKey : Type 0
  X509PublicKey = PublicKey RsaPublicKey EcdsaPublicKey

  -- `generateSerial`; the number that is drawn is its own absolute value.
  unfoldable pub generate_serial : Chance → Result ℕ
  generate_serial c = rand_int c serial_limit 0

  -- `generateSubjectKeyIdentifier`
  unfoldable pub generate_subject_key_identifier : X509PublicKey → Result Octets
  generate_subject_key_identifier (rsa_public key) = do
    octets ← asn1_marshal key
    ok (sha1_sum octets)
  generate_subject_key_identifier (ecdsa_public key) = ok (sha1_sum (elliptic_marshal key))
  generate_subject_key_identifier other_public = err (other "invalid public key")

  -- `DecodeCertificate`; a nil text has no block.
  unfoldable pub decode_certificate : Option String → Result X509Certificate
  decode_certificate none = err (configuration_error "unable to decode certificate key PEM file")
  decode_certificate (some pem) = do
    b ← only_block crypto pem
    fail_if (not (b.block_type == pem_type_certificate))
        (configuration_error (sprintf ("certificate format " ∷ b.block_type ∷ " unsupported" ∷ [])))
    parse_certificate b.octets

  abbrev named : (t name : String) → X509Certificate → Result X509Certificate
  named t name cert =
      if t == "DNS"
      then ok (record cert { dns_names = cert.dns_names ++ name ∷ [] })
      else if t == "EMAIL"
      then ok (record cert { email_addresses = cert.email_addresses ++ name ∷ [] })
      else err (unsupported_san t)

  abbrev pub add_fields : String → List String → X509Certificate → Result X509Certificate
  add_fields san (t ∷ name ∷ []) cert = named t name cert
  add_fields san _ cert = err (malformed_san san)

  -- The loop over the alternative names.
  unfoldable pub add_sans : List String → X509Certificate → Result X509Certificate
  unfolding split_colons
  add_sans [] cert = ok cert
  add_sans (san ∷ sans) cert = do
    cert' ← add_fields san (split_colons san) cert
    add_sans sans cert'

  -- The switch over the usage.
  unfoldable pub set_usage : String → X509Certificate → Result X509Certificate
  set_usage usage cert =
      if usage == "CA"
      then ok (record cert { is_ca = true; key_usage = cert_sign ∷ crl_sign ∷ [] })
      else if usage == "Server"
      then ok (record cert {
        key_usage = digital_signature ∷ key_encipherment ∷ [];
        ext_key_usage = server_auth ∷ [];
      })
      else if usage == "Client"
      then ok (record cert { key_usage = digital_signature ∷ []; ext_key_usage = client_auth ∷ [] })
      else err (configuration_error (sprintf ("unknown usage type " ∷ usage ∷ [])))

  -- The certificate before its names and its usage are set.
  abbrev pub blank :
      Chance → Duration → Subject → (serial : ℕ) → (key_id : Octets) → X509Certificate
  blank c lifetime subject serial key_id = record {
    serial_number = serial;
    subject = subject;
    not_before = time_now c;
    not_after = time_add (time_now c) lifetime;
    basic_constraints_valid = true;
    subject_key_id = key_id;
    dns_names = [];
    email_addresses = [];
    is_ca = false;
    key_usage = [];
    ext_key_usage = [];
  }

  abbrev pub reject_ed25519 : Key crypto → Result (Unit {0})
  reject_ed25519 (ed25519_key _) =
      err (configuration_error "cannot use ed25519 keys for x.509 certificates")
  reject_ed25519 _ = ok tt

  -- The key and the certificate that sign: those of the authority, or its own.
  abbrev pub signer :
      Key crypto
      → X509Certificate
      → (ca_key ca_cert : Option String) → Result (Key crypto × X509Certificate)
  signer key cert none ca_cert = ok (key, cert)
  signer key cert (some ca_key) ca_cert = do
    k ← decode_private_key crypto ca_key
    parent ← decode_certificate ca_cert
    ok (k, parent)

  -- The certificate that `GenerateCertificate` has signed, with the public key of its request.
  unfoldable pub certificate_of :
      Chance
      → Key crypto
      → (cn : String) → Duration
      → (usage : String) → (sans : List String) → Result (X509Certificate × X509PublicKey)
  unfolding generate_serial generate_subject_key_identifier add_sans set_usage
  certificate_of c key cn lifetime usage sans = do
    reject_ed25519 key
    csr ← create_certificate_request c cn key
    (subject, public) ← parse_certificate_request csr
    serial ← generate_serial c
    key_id ← generate_subject_key_identifier public
    cert ← add_sans sans (blank c lifetime subject serial key_id)
    cert' ← set_usage usage cert
    ok (cert', public)

  -- `GenerateCertificate`
  unfoldable pub generate_certificate :
      Chance
      → (key cn : String) → Duration
      → (usage : String) → (sans : List String) → (ca_key ca_cert : Option String) → Result String
  unfolding decode_private_key decode_certificate certificate_of
  generate_certificate c key_pem cn lifetime usage sans ca_key ca_cert = do
    key ← decode_private_key crypto key_pem
    (cert, public) ← certificate_of c key cn lifetime usage sans
    (k, parent) ← signer key cert ca_key ca_cert
    octets ← create_certificate c cert parent public k
    ok (pem_encode (record { block_type = pem_type_certificate; octets = octets }))
