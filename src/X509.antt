-- ===== src/X509.antt =====
-- pkg/util/x509.go: private keys and certificates in PEM.
pub mod Certificates
pub mod Keys
use service_broker_k8s.Base.{String, Option, none, some, [], ◌∷◌, ◌==◌, if◌then◌else◌, not, sprintf}
use service_broker_k8s.Base.Int.{ℤ}
use service_broker_k8s.Errors.{Result, ok, err, configuration_error, fail_if, or_fail, ◌>>=◌, ◌>>◌}
use service_broker_k8s.Crypto.{
  Crypto, Curve, p224, p256, p384, p521, PrivateKey, rsa_key, ecdsa_key, ed25519_key, PemBlock,
}

-- The PEM types.
abbrev pub pem_type_rsa_private_key : String
pem_type_rsa_private_key = "RSA PRIVATE KEY"

abbrev pub pem_type_private_key : String
pem_type_private_key = "PRIVATE KEY"

abbrev pub pem_type_ec_private_key : String
pem_type_ec_private_key = "EC PRIVATE KEY"

abbrev pub pem_type_certificate : String
pem_type_certificate = "CERTIFICATE"

module _ (crypto : Crypto) where
  open crypto use {
    Chance, Octets, RsaKey, EcdsaKey, Ed25519Key, rsa_generate_key, ecdsa_generate_key,
    ed25519_generate_key, marshal_pkcs1, marshal_pkcs8, marshal_ec, parse_pkcs1, parse_pkcs8,
    parse_ec, pem_encode, pem_decode,
  }

  abbrev pub Key : Type 0
  Key = PrivateKey RsaKey EcdsaKey Ed25519Key

  abbrev elliptic_key : Chance → Curve → Result Key
  elliptic_key c curve = do key ← ecdsa_generate_key c curve; ok (ecdsa_key key)

  abbrev rsa_of : Chance → Option ℤ → Result Key
  rsa_of c bits = do
    n ← or_fail bits (configuration_error "RSA key length not specified")
    key ← rsa_generate_key c n
    ok (rsa_key key)

  abbrev ed25519_of : Chance → Result Key
  ed25519_of c = do key ← ed25519_generate_key c; ok (ed25519_key key)

  -- The first switch of `GenerateKey`.
  unfoldable pub new_key : Chance → (key_type : String) → Option ℤ → Result Key
  new_key c t bits =
      if t == "RSA"
      then rsa_of c bits
      else if t == "EllipticP224"
      then elliptic_key c p224
      else if t == "EllipticP256"
      then elliptic_key c p256
      else if t == "EllipticP384"
      then elliptic_key c p384
      else if t == "EllipticP521"
      then elliptic_key c p521
      else if t == "ED25519"
      then ed25519_of c
      else err (configuration_error (sprintf ("invalid key type " ∷ t ∷ [])))

  abbrev block : String → Octets → PemBlock Octets
  block t octets = record { block_type = t; octets = octets }

  abbrev pub pkcs1_of : Key → Result (PemBlock Octets)
  pkcs1_of (rsa_key key) = ok (block pem_type_rsa_private_key (marshal_pkcs1 key))
  pkcs1_of _ = err (configuration_error "invalid key for PKCS#1 encoding")

  abbrev pub pkcs8_of : Key → Result (PemBlock Octets)
  pkcs8_of key = do octets ← marshal_pkcs8 key; ok (block pem_type_private_key octets)

  abbrev pub sec1_of : Key → Result (PemBlock Octets)
  sec1_of (ecdsa_key key) = do octets ← marshal_ec key; ok (block pem_type_ec_private_key octets)
  sec1_of _ = err (configuration_error "invalid key for EC encoding")

  -- The second switch of `GenerateKey`.
  unfoldable pub encode_key : (encoding : String) → Key → Result (PemBlock Octets)
  encode_key encoding key =
      if encoding == "PKCS#1"
      then pkcs1_of key
      else if encoding == "PKCS#8"
      then pkcs8_of key
      else if encoding == "SEC 1"
      then sec1_of key
      else err (configuration_error (sprintf ("invalid encoding type " ∷ encoding ∷ [])))

  -- `GenerateKey`
  unfoldable pub generate_key : Chance → (key_type encoding : String) → Option ℤ → Result String
  unfolding new_key encode_key
  generate_key c t encoding bits = do
    key ← new_key c t bits
    b ← encode_key encoding key
    ok (pem_encode b)

  -- The one block of a PEM text.
  abbrev pub only_block : String → Result (PemBlock Octets)
  only_block pem = do
    b ← or_fail (pem_decode pem).0 (configuration_error "unable to decode certificate key PEM file")
    fail_if (not ((pem_decode pem).1 == "")) (configuration_error "unexpected content in PEM file")
    ok b

  abbrev parse_rsa : Octets → Result Key
  parse_rsa octets = do key ← parse_pkcs1 octets; ok (rsa_key key)

  abbrev parse_ecdsa : Octets → Result Key
  parse_ecdsa octets = do key ← parse_ec octets; ok (ecdsa_key key)

  abbrev pub parse_block : PemBlock Octets → Result Key
  parse_block b =
      if b.block_type == pem_type_rsa_private_key
      then parse_rsa b.octets
      else if b.block_type == pem_type_private_key
      then parse_pkcs8 b.octets
      else if b.block_type == pem_type_ec_private_key
      then parse_ecdsa b.octets
      else err (
          configuration_error
            (sprintf ("private key format " ∷ b.block_type ∷ " unsupported" ∷ [])))

  -- `DecodePrivateKey`
  unfoldable pub decode_private_key : String → Result Key
  decode_private_key pem = do b ← only_block pem; parse_block b
