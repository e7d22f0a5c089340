-- ===== src/Cert.antt =====
-- The certificate of a start, pkg/certHelper/certHelper.go. The packages rand, rsa, x509, pem, tls
-- and errors are a parameter; times are numbers of seconds.
use goreverselb.Base.{Bool, Bytes, List, Result, [], codes, err, ok, true, ℕ, ◌++◌, ◌^◌, ◌∷◌}
pub mod Documented
pub mod Made
pub mod Concrete
mod Tests

pub data SignatureAlgorithm : Type 0 where
  sha256_with_rsa : SignatureAlgorithm

pub data ExtKeyUsage : Type 0 where
  client_auth server_auth : ExtKeyUsage

pub data KeyUsage : Type 0 where
  digital_signature cert_sign : KeyUsage

-- The fields of `x509.Certificate` that are set.
pub record Template : Type 0 where
  pub serial_number : ℕ
  pub common_name : Bytes
  pub not_before : ℕ
  pub not_after : ℕ
  pub signature_algorithm : SignatureAlgorithm
  pub basic_constraints_valid : Bool
  pub ext_key_usage : List ExtKeyUsage
  pub key_usage : List KeyUsage
  pub is_ca : Bool
  pub dns_names : List Bytes

-- `pem.Block`; its field Type is `kind`.
pub record Block : Type 0 where
  pub kind : Bytes
  pub bytes : Bytes

-- `tls.Certificate`
pub record Certificate (Key : Type 0) : Type 0 where
  pub certificate : List Bytes
  pub private_key : Key

-- The calls of the libraries. Errors are their texts.
pub record Crypto (Key PublicKey : Type 0) : Type 0 where
  pub int : ℕ → Result Bytes ℕ
  pub generate_key : ℕ → Result Bytes Key
  pub public_key : Key → PublicKey
  pub add_date : ℕ → ℕ → ℕ → ℕ → ℕ
  pub create_certificate : Template → Template → PublicKey → Key → Result Bytes Bytes
  pub encode_to_memory : Block → Bytes
  pub marshal_pkcs1_private_key : Key → Bytes
  -- `errors.Wrap`
  pub wrap : Bytes → Bytes → Bytes
  pub x509_key_pair : Bytes → Bytes → Result Bytes (Certificate Key)

module _ {Key PublicKey : Type 0} (k : Crypto Key PublicKey) where
  -- `time.Now()` is called twice.
  unfoldable pub template : Bytes → ℕ → ℕ → ℕ → Template
  template subjectname sn now now' = record {
    serial_number = sn;
    common_name = subjectname;
    not_before = now;
    not_after = k.add_date 2 0 0 now';
    signature_algorithm = sha256_with_rsa;
    basic_constraints_valid = true;
    ext_key_usage = client_auth ∷ server_auth ∷ [];
    key_usage = digital_signature ∷ cert_sign ∷ [];
    is_ca = true;
    dns_names = subjectname ∷ [];
  }

  -- With the result of `x509.CreateCertificate`.
  unfoldable pub after_create : Key → Result Bytes Bytes → Result Bytes (Certificate Key)
  after_create private_key (err e) =
      err (k.wrap e (codes "CreateDynamicTlsCertWithKey:x509.CreateCertificate"))
  after_create private_key (ok der_cert) =
      k.x509_key_pair (k.encode_to_memory (record { kind = codes "CERTIFICATE"; bytes = der_cert }))
        (k.encode_to_memory (record {
          kind = codes "RSA PRIVATE KEY";
          bytes = k.marshal_pkcs1_private_key private_key;
        }))

  -- With the result of `rsa.GenerateKey`.
  unfoldable pub after_key : Template → Result Bytes Key → Result Bytes (Certificate Key)
  unfolding after_create
  after_key t (err e) = err (k.wrap e (codes "CreateDynamicTlsCertWithKey:rsa.GenerateKey"))
  after_key t (ok private_key) =
      after_create private_key (k.create_certificate t t (k.public_key private_key) private_key)

  -- With the result of `rand.Int`.
  unfoldable pub after_serial : Bytes → ℕ → ℕ → Result Bytes ℕ → Result Bytes (Certificate Key)
  unfolding after_key template
  after_serial subjectname now now' (err e) = err (codes "failed to generate serial number: " ++ e)
  after_serial subjectname now now' (ok sn) =
      after_key (template subjectname sn now now') (k.generate_key 4096)

  unfoldable pub create_dynamic_tls_cert_with_key : Bytes → ℕ → ℕ → Result Bytes (Certificate Key)
  unfolding after_serial
  create_dynamic_tls_cert_with_key subjectname now now' =
      after_serial subjectname now now' (k.int (2 ^ 256))
