-- ===== src/Crypto.antt =====
-- What pkg/util/x509.go and pkg/provisioners/template.go call of the crypto packages of Go and of
-- other sources of chance, as the fields of one record.
use service_broker_k8s.Base.{ℕ, String, Bool, Option, List}
use service_broker_k8s.Base.Int.{ℤ}
use service_broker_k8s.Errors.{Result}

-- `elliptic.P224()` and the others.
pub data Curve : Type 0 where
  p224 p256 p384 p521 : Curve

-- The types that a `crypto.PrivateKey` may have.
pub data PrivateKey (Rsa Ecdsa Ed25519 : Type 0) : Type 0 where
  rsa_key : Rsa → PrivateKey Rsa Ecdsa Ed25519
  ecdsa_key : Ecdsa → PrivateKey Rsa Ecdsa Ed25519
  ed25519_key : Ed25519 → PrivateKey Rsa Ecdsa Ed25519

-- The types that the public key of a certificate request may have.
pub data PublicKey (Rsa Ecdsa : Type 0) : Type 0 where
  rsa_public : Rsa → PublicKey Rsa Ecdsa
  ecdsa_public : Ecdsa → PublicKey Rsa Ecdsa
  other_public : PublicKey Rsa Ecdsa

-- The bits of `x509.KeyUsage` and the values of `x509.ExtKeyUsage` that are set.
pub data KeyUsage : Type 0 where
  cert_sign crl_sign digital_signature key_encipherment : KeyUsage

pub data ExtKeyUsage : Type 0 where
  server_auth client_auth : ExtKeyUsage

-- The fields of an `x509.Certificate` that the broker sets.
pub record Certificate (Subject Time Octets : Type 0) : Type 0 where
  pub serial_number : ℕ
  pub subject : Subject
  pub not_before : Time
  pub not_after : Time
  pub basic_constraints_valid : Bool
  pub subject_key_id : Octets
  pub dns_names : List String
  pub email_addresses : List String
  pub is_ca : Bool
  pub key_usage : List KeyUsage
  pub ext_key_usage : List ExtKeyUsage

-- `pem.Block`
pub record PemBlock (Octets : Type 0) : Type 0 where
  pub block_type : String
  pub octets : Octets

pub record Crypto : Type 1 where
  -- What a call that uses chance or the clock finds there.
  pub Chance : Type 0
  pub Octets : Type 0
  -- `rand.Int(rand.Reader, limit)`, the i-th number of a call, for a limit above 0.
  pub rand_int : Chance → (limit : ℕ) → (i : ℕ) → Result ℕ
  pub petname_generate : Chance → (words : ℕ) → (separator : String) → String
  -- The bytes of a text, and a text of its bytes.
  pub utf8 : String → List ℕ
  pub of_utf8 : List ℕ → String
  pub to_upper : String → String
  pub to_lower : String → String
  pub to_title : String → String
  pub RsaKey : Type 0
  pub EcdsaKey : Type 0
  pub Ed25519Key : Type 0
  pub rsa_generate_key : Chance → (bits : ℤ) → Result RsaKey
  pub ecdsa_generate_key : Chance → Curve → Result EcdsaKey
  pub ed25519_generate_key : Chance → Result Ed25519Key
  pub marshal_pkcs1 : RsaKey → Octets
  pub marshal_pkcs8 : PrivateKey RsaKey EcdsaKey Ed25519Key → Result Octets
  pub marshal_ec : EcdsaKey → Result Octets
  pub parse_pkcs1 : Octets → Result RsaKey
  pub parse_pkcs8 : Octets → Result (PrivateKey RsaKey EcdsaKey Ed25519Key)
  pub parse_ec : Octets → Result EcdsaKey
  -- `pem.EncodeToMemory` of a block without headers, and `pem.Decode`, the block and the rest.
  pub pem_encode : PemBlock Octets → String
  pub pem_decode : String → Option (PemBlock Octets) × String
  pub RsaPublicKey : Type 0
  pub EcdsaPublicKey : Type 0
  pub Subject : Type 0
  -- `CreateCertificateRequest` of a common name, and the subject and the public key of a request.
  pub create_certificate_request :
      Chance → (cn : String) → PrivateKey RsaKey EcdsaKey Ed25519Key → Result Octets
  pub parse_certificate_request : Octets → Result (Subject × PublicKey RsaPublicKey EcdsaPublicKey)
  pub asn1_marshal : RsaPublicKey → Result Octets
  pub elliptic_marshal : EcdsaPublicKey → Octets
  pub sha1_sum : Octets → Octets
  pub Time : Type 0
  pub Duration : Type 0
  pub parse_duration : String → Result Duration
  pub time_now : Chance → Time
  pub time_add : Time → Duration → Time
  pub parse_certificate : Octets → Result (Certificate Subject Time Octets)
  pub create_certificate :
      Chance
      → (template parent : Certificate Subject Time Octets) → PublicKey RsaPublicKey EcdsaPublicKey
      → PrivateKey RsaKey EcdsaKey Ed25519Key
      → Result Octets
