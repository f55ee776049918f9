-- ===== src/UnleashClient/Connecting.antt =====
-- server/src/tls.rs and server/src/http/unleash_client.rs: the HTTP client. Reading files and what the TLS
-- library makes of their bytes are parameters, with the texts of their errors; a panic is `none`.

use Prim.Native.String.{◌++◌ as append_text}
use unleash_edge.Prelude.{
  ℕ, String, Bool, Option, none, some, [], ◌∷◌, ◌⊎◌, inl, inr, unwrap_or, string_eq,
}
use unleash_edge.Panics.{◌>>=◌}
use unleash_edge.Error.{EdgeError, CertificateError, Result, ok, err}
use unleash_edge.UnleashClient.Requests.{HeaderMap}

-- an error with its Debug and its Display text
pub record IoError : Type 0 where
  pub debug : String
  pub display : String

pub record TlsCrate : Type 1 where
  pub Bytes : Type 0
  pub Identity : Type 0
  pub Certificate : Type 0
  pub Client : Type 0
  pub read : String → Bytes ⊎ IoError
  pub from_pkcs12_der : Bytes → String → Identity ⊎ String
  pub from_pkcs8_pem : Bytes → Bytes → Identity ⊎ String
  pub from_pem : Bytes → Certificate ⊎ String

pub record ClientIdentity : Type 0 where
  pub pkcs8_client_certificate_file : Option String
  pub pkcs8_client_key_file : Option String
  pub pkcs12_identity_file : Option String
  pub pkcs12_passphrase : Option String

pub record ClientMetaInformation : Type 0 where
  pub app_name : String
  pub instance_id : String

-- `map_err` to a kind of certificate error
abbrev pub or_certificate_error : {A : Type 0} → (String → CertificateError) → A ⊎ String → Result A
or_certificate_error kind (inl a) = ok a
or_certificate_error kind (inr text) = err (EdgeError.client_certificate_error (kind text))

module _ (t : TlsCrate) where
  open t use {Bytes, Identity, Certificate, Client, read, from_pkcs12_der, from_pkcs8_pem, from_pem}

  abbrev pub read_or : (IoError → CertificateError) → String → Result Bytes
  read_or kind path = elim (read path) [
    | inl bytes ↦ ok bytes
    | inr e ↦ err (EdgeError.client_certificate_error (kind e))
  ]

  unfoldable pub build_upstream_certificate : Option String → Result (Option Certificate)
  build_upstream_certificate none = ok none
  build_upstream_certificate (some cert) =
      elim (read_or (λ e. CertificateError.root_certificates_error e.debug) cert) [
        | err x ↦ err x
        | ok bytes ↦
            elim (or_certificate_error CertificateError.root_certificates_error (from_pem bytes)) [
              | err x ↦ err x
              | ok certificate ↦ ok (some certificate)
            ]
      ]

  unfoldable pub load_pkcs12 : ClientIdentity → Option (Result Identity)
  load_pkcs12 id = do
    file ← id.pkcs12_identity_file
    some (elim (read_or (λ e. CertificateError.pkcs12_archive_not_found e.debug) file) [
      | err x ↦ err x
      | ok pfx ↦
          or_certificate_error CertificateError.pkcs12_identity_generation
            (from_pkcs12_der pfx (unwrap_or id.pkcs12_passphrase ""))
    ])

  -- the key file is only asked for once the certificate has been read
  unfoldable pub load_pkcs8 : ClientIdentity → Option (Result Identity)
  load_pkcs8 id = do
    cert_file ← id.pkcs8_client_certificate_file
    elim (read_or (λ e. CertificateError.pem8_client_cert_not_found e.display) cert_file) [
      | err x ↦ some (err x)
      | ok cert ↦ do
        key_file ← id.pkcs8_client_key_file
        some (elim (read_or (λ e. CertificateError.pem8_client_key_not_found e.debug) key_file) [
          | err x ↦ err x
          | ok key ↦
              or_certificate_error CertificateError.pem8_identity_generation
                (from_pkcs8_pem cert key)
        ])
    ]

  -- `ClientBuilder`, as far as it is set
  pub record ClientBuilder : Type 0 where
    pub identity : Option Identity
    pub root_certificate : Option Certificate
    pub user_agent : String
    pub default_headers : HeaderMap
    pub accept_invalid_certs : Bool
    pub timeout : ℕ
    pub connect_timeout : ℕ

  -- the identity of the builder
  unfoldable pub build_identity : Option ClientIdentity → Option (Result (Option Identity))
  build_identity none = some (ok none)
  build_identity (some tls) = do
    req_identity ← elim tls.pkcs12_identity_file [
      | some _ ↦ load_pkcs12 tls
      | none ↦ elim tls.pkcs8_client_certificate_file [
        | some _ ↦ load_pkcs8 tls
        | none ↦
            some (err (EdgeError.client_certificate_error CertificateError.no_certificate_files))
      ]
    ]
    some (elim req_identity [ err x ↦ err x | ok id ↦ ok (some id) ])

  -- `to_std` of a duration is `none` if it is negative, `header_value` reads the text of a header, and
  -- `build` gives the client or the text of an error.
  module _ (package_version spec_version : String) (header_value : String → Option String)
      (build : ClientBuilder → Client ⊎ String) where
    -- the closure that sets the headers and the times
    unfoldable pub finish_client :
        Bool
        → Option ℕ
        → Option ℕ
        → ClientMetaInformation
        → Option Identity
        → Option Certificate
        → Option (Result Client)
    finish_client skip_ssl_verification connect_timeout socket_timeout meta identity cert = do
      app_name ← header_value meta.app_name
      instance_id ← header_value meta.instance_id
      timeout ← socket_timeout
      connecting ← connect_timeout
      let builder : ClientBuilder = record {
        identity = identity;
        root_certificate = cert;
        user_agent = append_text "unleash-edge-" package_version;
        default_headers =
            ("unleash-appname", app_name)
            ∷ ("unleash-instanceid", instance_id)
            ∷ ("unleash-client-spec", spec_version)
            ∷ [];
        accept_invalid_certs = skip_ssl_verification;
        timeout = timeout;
        connect_timeout = connecting;
      }
      some (elim (build builder) [
        | inl client ↦ ok client
        | inr e ↦ err (EdgeError.client_build_error e)
      ])

    unfoldable pub new_reqwest_client :
        Bool
        → Option ClientIdentity
        → Option String
        → Option ℕ
        → Option ℕ
        → ClientMetaInformation
        → Option (Result Client)
    new_reqwest_client skip_ssl_verification client_identity upstream_certificate_file
          connect_timeout socket_timeout meta =
        do
          built ← build_identity client_identity
          elim built [
            | err x ↦ some (err x)
            | ok identity ↦ elim (build_upstream_certificate upstream_certificate_file) [
              | err x ↦ some (err x)
              | ok cert ↦
                  finish_client skip_ssl_verification connect_timeout socket_timeout meta identity
                    cert
            ]
          ]
