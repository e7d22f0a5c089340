-- ===== src/Cert/Documented.antt =====
-- What the documentation of the packages rand, x509, pem and tls promises to
-- pkg/certHelper/certHelper.go.
use goreverselb.Base.{Bytes, List, Option, [], codes, ok, some, ℕ, ◌<◌, ◌∷◌, ◌≡◌}
use goreverselb.Cert.{Template, Block, Crypto}

-- What a certificate tells a peer.
pub record Parsed (PublicKey : Type 0) : Type 0 where
  pub serial_number : ℕ
  pub common_name : Bytes
  pub not_before : ℕ
  pub not_after : ℕ
  pub dns_names : List Bytes
  pub public_key : PublicKey
  -- The key that verifies the signature.
  pub signed_by : PublicKey

-- The parsers behind `tls.X509KeyPair`.
pub record Parsers (Key PublicKey : Type 0) : Type 0 where
  pub decode : Bytes → Option Block
  pub parse_certificate : Bytes → Option (Parsed PublicKey)
  pub parse_pkcs1_private_key : Bytes → Option Key

abbrev pub stated : {PublicKey : Type 0} → Template → PublicKey → PublicKey → Parsed PublicKey
stated t public_key signed_by = record {
  serial_number = t.serial_number;
  common_name = t.common_name;
  not_before = t.not_before;
  not_after = t.not_after;
  dns_names = t.dns_names;
  public_key = public_key;
  signed_by = signed_by;
}

pub record IsDocumented {Key PublicKey : Type 0} (k : Crypto Key PublicKey)
    (p : Parsers Key PublicKey) : Type 0 where
  pub draws : (max n : ℕ) → k.int max ≡ ok n → n < max
  pub creates :
      (t parent : Template) (public_key : PublicKey) (key : Key) (der : Bytes)
      → k.create_certificate t parent public_key key ≡ ok der
      → p.parse_certificate der ≡ some (stated t public_key (k.public_key key))
  pub decodes : (b : Block) → p.decode (k.encode_to_memory b) ≡ some b
  pub parses_pkcs1_private_key :
      (key : Key) → p.parse_pkcs1_private_key (k.marshal_pkcs1_private_key key) ≡ some key
  -- The first block of each text is read; the keys have to match.
  pub pairs :
      (cert_pem key_pem der pkcs1 : Bytes) (c : Parsed PublicKey) (key : Key)
      → p.decode cert_pem ≡ some (record { kind = codes "CERTIFICATE"; bytes = der })
      → p.parse_certificate der ≡ some c
      → p.decode key_pem ≡ some (record { kind = codes "RSA PRIVATE KEY"; bytes = pkcs1 })
      → p.parse_pkcs1_private_key pkcs1 ≡ some key
      → k.public_key key ≡ c.public_key
      → k.x509_key_pair cert_pem key_pem ≡ ok (record { certificate = der ∷ []; private_key = key })
