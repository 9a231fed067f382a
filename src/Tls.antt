-- ===== src/Tls.antt =====
-- src/tls.rs: the TLS configuration of both sides. The crates `rustls` and `webpki-roots` are the
-- record `Rustls`; paths are bytes.
use mini_proxad.Prelude.{
  ℕ, Option, none, some, Bool, List, [], ◌∷◌, if◌then◌else◌, Bytes, codes, foreign, Result, ok, err,
  panicked, ◌>>=◌, ok_or,
}

-- How the certificate of a server and its signatures are checked.
pub record Verifier (Cert : Type 0) : Type 0 where
  pub verify_server_cert :
      (end_entity : Cert) (intermediates : List Cert) (server_name ocsp : Bytes) (now : ℕ)
      → Result (Unit {0})
  pub verify_tls12_signature : (message : Bytes) (cert : Cert) (dss : Bytes) → Result (Unit {0})
  pub verify_tls13_signature : (message : Bytes) (cert : Cert) (dss : Bytes) → Result (Unit {0})
  pub supported_verify_schemes : List ℕ

pub record Rustls : Type 1 where
  pub Cert : Type 0
  pub Key : Type 0
  pub Anchor : Type 0
  -- `none`: the file cannot be read; inside, an entry that is malformed.
  pub pem_file_iter : Bytes → Option (List (Option Cert))
  pub from_pem_file : Bytes → Option Key
  pub parse_anchor : Cert → Option Anchor
  pub tls_server_roots : List Anchor
  pub with_single_cert : List Cert → Key → Bool
  -- The verifier of `with_root_certificates`; the provider's check of signatures and its schemes.
  pub webpki : List Anchor → Verifier Cert
  pub check_tls12 : (message : Bytes) (cert : Cert) (dss : Bytes) → Result (Unit {0})
  pub check_tls13 : (message : Bytes) (cert : Cert) (dss : Bytes) → Result (Unit {0})
  pub supported_schemes : List ℕ

module _ (r : Rustls) where
  pub record ServerConfig : Type 0 where
    pub certs : List r.Cert
    pub key : r.Key
    pub alpn_protocols : List Bytes

  pub record ClientConfig : Type 0 where
    pub roots : List r.Anchor
    pub verifier : Verifier r.Cert
    pub alpn_protocols : List Bytes

  pub record TlsConfig : Type 0 where
    pub server_config : ServerConfig
    pub client_config : ClientConfig

-- `collect` into a `Result`, and `expect` on each item.
unfoldable pub collect_results : {A : Type 0} → List (Option A) → Result (List A)
collect_results [] = ok []
collect_results (none ∷ xs) = err foreign
collect_results (some a ∷ xs) = collect_results xs >>= λ as'. ok (a ∷ as')

unfoldable pub expect_all : {A : Type 0} → List (Option A) → Result (List A)
expect_all [] = ok []
expect_all (none ∷ xs) = panicked
expect_all (some a ∷ xs) = expect_all xs >>= λ as'. ok (a ∷ as')

module _ (r : Rustls) where
  unfoldable pub load_certificates : Bytes → Result (List r.Cert)
  load_certificates path = ok_or (r.pem_file_iter path) foreign >>= λ certs. collect_results certs

  unfoldable pub load_private_key : Bytes → Result r.Key
  load_private_key path = ok_or (r.from_pem_file path) foreign

  -- `add_parsable_certificates`: what is no trust anchor is passed over.
  unfoldable pub parsable : List r.Cert → List r.Anchor
  parsable [] = []
  parsable (c ∷ cs) = elim (r.parse_anchor c) [ none ↦ parsable cs | some a ↦ a ∷ parsable cs ]

  unfoldable pub root_store : Option Bytes → Result (List r.Anchor)
  root_store none = ok r.tls_server_roots
  root_store (some ca_path) = do
    entries ← ok_or (r.pem_file_iter ca_path) foreign
    certs ← expect_all entries
    ok (parsable certs)

  unfoldable pub no_certificate_verification : Verifier r.Cert
  no_certificate_verification = record {
    verify_server_cert = λ end_entity intermediates server_name ocsp now. ok tt;
    verify_tls12_signature = r.check_tls12;
    verify_tls13_signature = r.check_tls13;
    supported_verify_schemes = r.supported_schemes;
  }

  abbrev pub http_11_only : List Bytes
  http_11_only = codes "http/1.1" ∷ []

  -- `ClientConfig::builder().with_root_certificates(..).with_no_client_auth()`.
  abbrev pub with_root_certificates : List r.Anchor → ClientConfig r
  with_root_certificates roots = record {
    roots = roots;
    verifier = r.webpki roots;
    alpn_protocols = [];
  }

  unfoldable pub new_tls_config : Bytes → Bytes → Option Bytes → Result (TlsConfig r)
  new_tls_config cert_path key_path ca_path = do
    certs ← load_certificates cert_path
    key ← load_private_key key_path
    roots ← root_store ca_path
    server ←
        (if r.with_single_cert certs key
          then ok (record { certs = certs; key = key; alpn_protocols = http_11_only })
          else err foreign)
    let client = record (with_root_certificates roots) { alpn_protocols = http_11_only }
    ok (record {
      server_config = server;
      client_config = record client { verifier = no_certificate_verification };
    })
