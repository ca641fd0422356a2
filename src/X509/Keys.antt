-- ===== src/X509/Keys.antt =====
-- Private keys of pkg/util/x509.go: what is generated can be decoded again.
use service_broker_k8s.Base.{
  inl, inr, ◌∙◌, String, ◌≡◌, refl, Option, some, ◌==◌, arith, Bool-cases,
}
use service_broker_k8s.Base.Int.{ℤ}
use service_broker_k8s.Errors.{ok_eq, ok, >>=-eq-ok}
use service_broker_k8s.Crypto.{Crypto, rsa_key, ecdsa_key, ed25519_key, PemBlock}
use service_broker_k8s.X509.{
  Key, pkcs1_of, pkcs8_of, sec1_of, parse_block, new_key, encode_key, generate_key,
  decode_private_key,
}

-- The documented behaviour of crypto/x509 and encoding/pem: what is marshalled is parsed back, and a
-- block that is encoded is decoded, with nothing after it.
pub record ReadsKeys (crypto : Crypto) : Type 0 where
  pub pkcs1 : (k : crypto.RsaKey) → crypto.parse_pkcs1 (crypto.marshal_pkcs1 k) ≡ ok k
  pub pkcs8 :
      (k : Key crypto) (x : crypto.Octets)
      → crypto.marshal_pkcs8 k ≡ ok x
      → crypto.parse_pkcs8 x ≡ ok k
  pub ec :
      (k : crypto.EcdsaKey) (x : crypto.Octets)
      → crypto.marshal_ec k ≡ ok x
      → crypto.parse_ec x ≡ ok k
  pub pem : (b : PemBlock crypto.Octets) → crypto.pem_decode (crypto.pem_encode b) ≡ (some b, "")

module _ (crypto : Crypto) (laws : ReadsKeys crypto) where
  decode_block :
      (b : PemBlock crypto.Octets)
      → decode_private_key crypto (crypto.pem_encode b) ≡ parse_block crypto b
  unfolding decode_private_key
  decode_block b = rw laws.pem refl

  parse_pkcs1_of :
      (key : Key crypto) (b : PemBlock crypto.Octets)
      → pkcs1_of crypto key ≡ ok b
      → parse_block crypto b ≡ ok key
  parse_pkcs1_of (rsa_key k) b h = rw (← ok_eq h) (rw (laws.pkcs1 k) refl)
  parse_pkcs1_of (ecdsa_key k) b h = cc
  parse_pkcs1_of (ed25519_key k) b h = cc

  parse_pkcs8_of :
      (key : Key crypto) (b : PemBlock crypto.Octets)
      → pkcs8_of crypto key ≡ ok b
      → parse_block crypto b ≡ ok key
  parse_pkcs8_of key b h =
      let (octets, marshalled, e) = >>=-eq-ok (crypto.marshal_pkcs8 key) _ b h in
      rw (← ok_eq e) (laws.pkcs8 key octets marshalled)

  parse_sec1_of :
      (key : Key crypto) (b : PemBlock crypto.Octets)
      → sec1_of crypto key ≡ ok b
      → parse_block crypto b ≡ ok key
  parse_sec1_of (rsa_key k) b h = cc
  parse_sec1_of (ed25519_key k) b h = cc
  parse_sec1_of (ecdsa_key k) b h =
      let (octets, marshalled, e) = >>=-eq-ok (crypto.marshal_ec k) _ b h in
      rw (← ok_eq e) (rw (laws.ec k octets marshalled) refl)

  parse-encode_key :
      (encoding : String) (key : Key crypto) (b : PemBlock crypto.Octets)
      → encode_key crypto encoding key ≡ ok b
      → parse_block crypto b ≡ ok key
  unfolding encode_key
  parse-encode_key encoding key b h = elim (Bool-cases (encoding == "PKCS#1")) [
    | inl first ↦ parse_pkcs1_of key b (ground (arith, first, h))
    | inr not_first ↦ elim (Bool-cases (encoding == "PKCS#8")) [
      | inl second ↦ parse_pkcs8_of key b (ground (arith, not_first, second, h))
      | inr not_second ↦ elim (Bool-cases (encoding == "SEC 1")) [
        | inl third ↦ parse_sec1_of key b (ground (arith, not_first, not_second, third, h))
        | inr not_third ↦ absurd (ground (arith, not_first, not_second, not_third, h))
      ]
    ]
  ]

  -- A private key that is generated, of whichever type and in whichever encoding, is decoded again
  -- as the same key.
  pub decode_private_key-generate_key :
      (c : crypto.Chance) (t encoding : String) (bits : Option ℤ) (pem : String)
      → generate_key crypto c t encoding bits ≡ ok pem
      → (key : Key crypto) × (new_key crypto c t bits ≡ ok key)
        × (decode_private_key crypto pem ≡ ok key)
  unfolding generate_key
  decode_private_key-generate_key c t encoding bits pem h =
      let (key, made, rest) = >>=-eq-ok (new_key crypto c t bits) _ pem h in
      let (b, encoded, written) = >>=-eq-ok (encode_key crypto encoding key) _ pem rest in
      (key, made, rw (← ok_eq written) (decode_block b ∙ parse-encode_key encoding key b encoded))
