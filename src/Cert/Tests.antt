-- ===== src/Cert/Tests.antt =====
-- A certificate for a name, with packages that behave as documented.
use goreverselb.Base.{Bytes, codes}
use goreverselb.Cert.{create_dynamic_tls_cert_with_key}
use goreverselb.Cert.Made.{IsMade, create_dynamic_tls_cert_with_key-IsMade}
use goreverselb.Cert.Concrete.{concrete, parsers, concrete-IsDocumented}

abbrev subject : Bytes
subject = codes "lb.example"

create_dynamic_tls_cert_with_key-IsMade_example :
    IsMade concrete parsers subject 100 101
      (create_dynamic_tls_cert_with_key concrete subject 100 101)
create_dynamic_tls_cert_with_key-IsMade_example =
    create_dynamic_tls_cert_with_key-IsMade concrete parsers concrete-IsDocumented subject 100 101
