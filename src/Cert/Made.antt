-- ===== src/Cert/Made.antt =====
-- The certificate that CreateDynamicTlsCertWithKey of pkg/certHelper/certHelper.go makes.
use goreverselb.Base.{
  Bytes, Result, [], codes, err, ok, refl, some, subst, sym, ℕ, ◌++◌, ◌<◌, ◌^◌, ◌∷◌, ◌≡◌,
}
use goreverselb.Cert.{
  Certificate, Crypto, template, after_create, after_key, after_serial,
  create_dynamic_tls_cert_with_key,
}
use goreverselb.Cert.Documented.{Parsed, Parsers, IsDocumented, stated}

module _ {Key PublicKey : Type 0} (k : Crypto Key PublicKey) (p : Parsers Key PublicKey) where
  -- A certificate of the subject alone, for two years, that is signed with its own key.
  pub record IsFor (subjectname : Bytes) (now now' : ℕ) (t : Certificate Key) : Type 0 where
    pub der : Bytes
    pub leaf : Parsed PublicKey
    pub chain : t.certificate ≡ der ∷ []
    pub parses : p.parse_certificate der ≡ some leaf
    pub common_name : leaf.common_name ≡ subjectname
    pub dns_names : leaf.dns_names ≡ subjectname ∷ []
    pub not_before : leaf.not_before ≡ now
    pub not_after : leaf.not_after ≡ k.add_date 2 0 0 now'
    pub serial_number : leaf.serial_number < 2 ^ 256
    pub public_key : k.public_key t.private_key ≡ leaf.public_key
    pub self_signed : leaf.signed_by ≡ leaf.public_key

  -- The call that failed, or the certificate.
  pub data IsMade (subjectname : Bytes) (now now' : ℕ)
      : Result Bytes (Certificate Key) → Type 0 where
    no_serial :
        (e : Bytes)
        → k.int (2 ^ 256) ≡ err e
        → IsMade subjectname now now' (err (codes "failed to generate serial number: " ++ e))
    no_key :
        (e : Bytes)
        → k.generate_key 4096 ≡ err e
        → IsMade subjectname now now'
            (err (k.wrap e (codes "CreateDynamicTlsCertWithKey:rsa.GenerateKey")))
    not_created :
        (e : Bytes) (sn : ℕ) (key : Key)
        → k.create_certificate
            (template k subjectname sn now now')
            (template k subjectname sn now now')
            (k.public_key key)
            key
          ≡ err e
        → IsMade subjectname now now'
            (err (k.wrap e (codes "CreateDynamicTlsCertWithKey:x509.CreateCertificate")))
    made : (t : Certificate Key) → IsFor subjectname now now' t → IsMade subjectname now now' (ok t)

  module _ (d : IsDocumented k p) (subjectname : Bytes) (now now' : ℕ) where
    -- The two texts of PEM are read back and match.
    paired :
        (key : Key) (der : Bytes) (c : Parsed PublicKey)
        → p.parse_certificate der ≡ some c
        → k.public_key key ≡ c.public_key
        → after_create k key (ok der) ≡ ok (record { certificate = der ∷ []; private_key = key })
    unfolding after_create
    paired key der c parses match =
        d.pairs _ _ der (k.marshal_pkcs1_private_key key) c key (d.decodes _) parses (d.decodes _)
          (d.parses_pkcs1_private_key key) match

    after_create-IsMade :
        (sn : ℕ) (key : Key) (r : Result Bytes Bytes)
        → sn < 2 ^ 256
        → k.create_certificate
            (template k subjectname sn now now')
            (template k subjectname sn now now')
            (k.public_key key)
            key
          ≡ r
        → IsMade subjectname now now' (after_create k key r)
    unfolding after_create template
    after_create-IsMade sn key (err e) l h = not_created e sn key h
    after_create-IsMade sn key (ok der) l h =
        let t = template k subjectname sn now now' in
        let parses = d.creates t t (k.public_key key) key der h in
        let result = paired key der (stated t (k.public_key key) (k.public_key key)) parses refl in
        subst (IsMade subjectname now now') (sym result) (
          made (record { certificate = der ∷ []; private_key = key })
            (record {
              der = der;
              leaf = stated t (k.public_key key) (k.public_key key);
              chain = refl;
              parses = parses;
              common_name = refl;
              dns_names = refl;
              not_before = refl;
              not_after = refl;
              serial_number = l;
              public_key = refl;
              self_signed = refl;
            }))

    after_key-IsMade :
        (sn : ℕ) (r : Result Bytes Key)
        → sn < 2 ^ 256
        → k.generate_key 4096 ≡ r
        → IsMade subjectname now now' (after_key k (template k subjectname sn now now') r)
    unfolding after_key
    after_key-IsMade sn (err e) l h = no_key e h
    after_key-IsMade sn (ok key) l h = after_create-IsMade sn key _ l refl

    after_serial-IsMade :
        (r : Result Bytes ℕ)
        → k.int (2 ^ 256) ≡ r
        → IsMade subjectname now now' (after_serial k subjectname now now' r)
    unfolding after_serial
    after_serial-IsMade (err e) h = no_serial e h
    after_serial-IsMade (ok sn) h = after_key-IsMade sn _ (d.draws (2 ^ 256) sn h) refl

    -- Where the libraries behave as documented, the certificate of a subject fails only with the
    -- error of the serial number, of the key or of the signing, each under its own message. Else
    -- it is a chain of one certificate that is valid for the subject alone, from now for two
    -- years, with a serial number below 2^256, signed with its own key, which is the private key
    -- that comes with it.
    pub create_dynamic_tls_cert_with_key-IsMade :
        IsMade subjectname now now' (create_dynamic_tls_cert_with_key k subjectname now now')
    unfolding create_dynamic_tls_cert_with_key
    create_dynamic_tls_cert_with_key-IsMade = after_serial-IsMade _ refl
