-- ===== src/Cert/Concrete.antt =====
-- Packages that behave as documented, for the theorems on pkg/certHelper/certHelper.go. A key is a
-- number, and so is its public key.
use goreverselb.Base.{
  Bool-cases, Bytes, List, Option, Result, [], arith, bytes_dec, codes, drop, drop-length-append,
  err, if◌then◌else◌, inl, inr, ite, length, ltb, none, ok, refl, some, sym, take,
  take-length-append, ℕ, ◌*◌, ◌++◌, ◌+◌, ◌==◌, ◌>>=◌, ◌∷◌, ◌≡◌,
}
use goreverselb.Cert.{Template, Block, Certificate, Crypto}
use goreverselb.Cert.Documented.{Parsed, Parsers, IsDocumented, stated}

-- The numbers of a certificate in front of its one name.
unfoldable pub write_certificate : Template → ℕ → ℕ → List Bytes → Result Bytes Bytes
write_certificate t public_key key [] = err (codes "no name")
write_certificate t public_key key (name ∷ []) =
    ite (bytes_dec name t.common_name)
      (ok (t.serial_number ∷ t.not_before ∷ t.not_after ∷ public_key ∷ key ∷ name))
      (err (codes "two names"))
write_certificate t public_key key (name ∷ other ∷ names) = err (codes "two names")

unfoldable pub read_certificate : Bytes → Option (Parsed ℕ)
read_certificate (sn ∷ before ∷ after ∷ public_key ∷ key ∷ name) = some (record {
  serial_number = sn;
  common_name = name;
  not_before = before;
  not_after = after;
  dns_names = name ∷ [];
  public_key = public_key;
  signed_by = key;
})
read_certificate _ = none

unfoldable pub write_block : Block → Bytes
write_block b = length b.kind ∷ (b.kind ++ b.bytes)

unfoldable pub read_block : Bytes → Option Block
read_block [] = none
read_block (n ∷ s) = some (record { kind = take n s; bytes = drop n s })

unfoldable pub read_key : Bytes → Option ℕ
read_key (key ∷ []) = some key
read_key _ = none

unfoldable pub pair_of : Bytes → Bytes → Option (Certificate ℕ)
pair_of cert_pem key_pem = do
  cert ← read_block cert_pem
  leaf ← read_certificate cert.bytes
  block ← read_block key_pem
  key ← read_key block.bytes
  if key == leaf.public_key
      then some (record { certificate = cert.bytes ∷ []; private_key = key })
      else none

unfoldable pub or_error : Option (Certificate ℕ) → Result Bytes (Certificate ℕ)
or_error none = err (codes "tls: private key does not match public key")
or_error (some c) = ok c

abbrev pub concrete : Crypto ℕ ℕ
concrete = record {
  int = λ max. if ltb 5 max then ok 5 else err (codes "no bytes");
  generate_key = λ bits. ok 7;
  public_key = λ key. key;
  add_date = λ years months days t. t + 31536000 * years;
  create_certificate = λ t parent public_key key. write_certificate t public_key key t.dns_names;
  encode_to_memory = write_block;
  marshal_pkcs1_private_key = λ key. key ∷ [];
  wrap = λ e message. message ++ (codes ": " ++ e);
  x509_key_pair = λ cert_pem key_pem. or_error (pair_of cert_pem key_pem);
}

abbrev pub parsers : Parsers ℕ ℕ
parsers = record {
  decode = read_block;
  parse_certificate = read_certificate;
  parse_pkcs1_private_key = read_key;
}

creates_lem :
    (t : Template) (public_key key : ℕ) (der : Bytes) (names : List Bytes)
    → t.dns_names ≡ names
    → write_certificate t public_key key names ≡ ok der
    → read_certificate der ≡ some (stated t public_key key)
unfolding write_certificate read_certificate
creates_lem t public_key key der [] e h = absurd (ground (arith, h))
creates_lem t public_key key der (name ∷ other ∷ names) e h = absurd (ground (arith, h))
creates_lem t public_key key der (name ∷ []) e h = elim (bytes_dec name t.common_name) [
  | yes q ↦
      let d : t.serial_number ∷ t.not_before ∷ t.not_after ∷ public_key ∷ key ∷ name ≡ der =
        ground (arith, h, q) in
      rw (sym d, e, sym q) refl
  | no q ↦ absurd (ground (arith, h, q))
]

decodes_lem : (b : Block) → read_block (write_block b) ≡ some b
unfolding write_block read_block
decodes_lem b = rw (take-length-append b.kind b.bytes, drop-length-append b.kind b.bytes) refl

pairs_lem :
    (cert_pem key_pem der pkcs1 : Bytes) (c : Parsed ℕ) (key : ℕ)
    → read_block cert_pem ≡ some (record { kind = codes "CERTIFICATE"; bytes = der })
    → read_certificate der ≡ some c
    → read_block key_pem ≡ some (record { kind = codes "RSA PRIVATE KEY"; bytes = pkcs1 })
    → read_key pkcs1 ≡ some key
    → key ≡ c.public_key
    → or_error (pair_of cert_pem key_pem)
      ≡ ok (record { certificate = der ∷ []; private_key = key })
unfolding pair_of or_error
pairs_lem cert_pem key_pem der pkcs1 c key a b e f g = rw (a, b, e, f) (ground (arith, g))

pub concrete-IsDocumented : IsDocumented concrete parsers
unfolding read_key
concrete-IsDocumented = record {
  draws = λ max n h. elim (Bool-cases (ltb 5 max)) [
    | inl e ↦ ground (arith, e, h)
    | inr e ↦ absurd (ground (arith, e, h))
  ];
  creates = λ t parent public_key key der h. creates_lem t public_key key der t.dns_names refl h;
  decodes = decodes_lem;
  parses_pkcs1_private_key = λ key. refl;
  pairs = pairs_lem;
}
