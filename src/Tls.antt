-- ===== src/Tls.antt =====
-- lib/src/client/tls.rs: windows, the trust configuration, and what a failed handshake is called.
-- What rustls and its companions make of certificates is a parameter.
pub mod Trust
pub mod Classes
pub mod Windows
pub mod Examples
use hyper4k.Prelude.{
  ℕ, suc, ◌+◌, ◌*◌, Bool, true, false, ◌||◌, not, ◌==◌, if◌then◌else◌, Option, none, some, List, [],
  ◌∷◌, ◌++◌, is_empty, codes, ◌⊎◌, inl, inr,
}
use hyper4k.Abi.{
  Hyper4kErrorKind, err_connect, err_tls_ca, err_tls_hostname, err_tls_expired, err_tls_other,
  err_alpn_no_h2,
}
use hyper4k.Headers.{Bytes}
use hyper4k.Text.{Text, contains, to_ascii_lowercase}
use hyper4k.Pool.{default_paused_cap}
use hyper4k.Proxy.{ProxyTarget}

abbrev pub stream_window : ℕ
stream_window = 1024 * 1024

abbrev pub connection_window : ℕ
connection_window = default_paused_cap * stream_window + 4 * 1024 * 1024

abbrev pub max_concurrent_streams : ℕ
max_concurrent_streams = 128

pub record TlsOptions : Type 0 where
  pub custom_ca_pem : Option Bytes
  pub replace_system_roots : Bool
  pub require_h2 : Bool
  pub proxy : Option ProxyTarget
  pub connect_timeout : Option ℕ

-- `load_native_certs`, `RootCertStore::add` and `rustls_pemfile::certs`: an item that is no
-- certificate is an error.
pub record Certificates : Type 0 where
  pub native_certs : List Bytes
  pub is_root : Bytes → Bool
  pub pem_certs : Bytes → List (Option Bytes)

pub record ClientConfig : Type 0 where
  pub roots : List Bytes
  pub alpn_protocols : List Bytes

-- A certificate that cannot be added is passed over.
unfoldable pub add_native : (Bytes → Bool) → List Bytes → List Bytes → List Bytes
add_native is_root [] roots = roots
add_native is_root (cert ∷ certs) roots =
    add_native is_root certs (if is_root cert then roots ++ cert ∷ [] else roots)

-- The roots with the custom ones added, and how many these are.
unfoldable pub add_custom :
    (Bytes → Bool) → List (Option Bytes) → List Bytes → ℕ → Hyper4kErrorKind ⊎ (List Bytes × ℕ)
add_custom is_root [] roots added = inr (roots, added)
add_custom is_root (none ∷ items) roots added = inl err_tls_ca
add_custom is_root (some cert ∷ items) roots added =
    let rest = add_custom is_root items (roots ++ cert ∷ []) (added + 1) in
    if is_root cert then rest else inl err_tls_ca

unfoldable pub system_roots : Certificates → Bool → Hyper4kErrorKind ⊎ List Bytes
system_roots c true = inr []
system_roots c false =
    let roots = add_native c.is_root c.native_certs [] in
    if is_empty roots then inl err_tls_other else inr roots

unfoldable pub custom_roots :
    Certificates → Option Bytes → List Bytes → Hyper4kErrorKind ⊎ List Bytes
custom_roots c none roots = inr roots
custom_roots c (some pem) roots = elim (add_custom c.is_root (c.pem_certs pem) roots 0) [
  | inl kind ↦ inl kind
  | inr (all, added) ↦ if added == 0 then inl err_tls_ca else inr all
]

abbrev pub h2 : Bytes
h2 = codes "h2"

abbrev pub http_1_1 : Bytes
http_1_1 = codes "http/1.1"

unfoldable pub alpn : Bool → List Bytes
alpn require_h2 = if require_h2 then h2 ∷ [] else h2 ∷ http_1_1 ∷ []

-- `?`.
unfoldable pub try {ℓ} :
    {A : Type ℓ} {B : Type 0}
    → Hyper4kErrorKind ⊎ A
    → (A → Hyper4kErrorKind ⊎ B)
    → Hyper4kErrorKind ⊎ B
try (inl kind) f = inl kind
try (inr a) f = f a

unfoldable pub build_tls_config : Certificates → TlsOptions → Hyper4kErrorKind ⊎ ClientConfig
build_tls_config c opts = try (system_roots c opts.replace_system_roots) (λ system.
    try (custom_roots c opts.custom_ca_pem system)
      (λ roots. inr (record { roots = roots; alpn_protocols = alpn opts.require_h2 })))

pub data CertificateError : Type 0 where
  unknown_issuer bad_signature not_valid_for_name not_valid_for_name_context expired :
      CertificateError
  expired_context not_valid_yet not_valid_yet_context other : CertificateError

pub data RustlsError : Type 0 where
  invalid_certificate : CertificateError → RustlsError
  no_application_protocol any_other : RustlsError

unfoldable pub classify_rustls : RustlsError → Hyper4kErrorKind
classify_rustls (invalid_certificate unknown_issuer) = err_tls_ca
classify_rustls (invalid_certificate bad_signature) = err_tls_ca
classify_rustls (invalid_certificate not_valid_for_name) = err_tls_hostname
classify_rustls (invalid_certificate not_valid_for_name_context) = err_tls_hostname
classify_rustls (invalid_certificate expired) = err_tls_expired
classify_rustls (invalid_certificate expired_context) = err_tls_expired
classify_rustls (invalid_certificate not_valid_yet) = err_tls_expired
classify_rustls (invalid_certificate not_valid_yet_context) = err_tls_expired
classify_rustls (invalid_certificate other) = err_tls_other
classify_rustls no_application_protocol = err_alpn_no_h2
classify_rustls any_other = err_tls_other

-- The branches of `classify_text`, on lower-case text.
unfoldable pub classify_lower : Text → Hyper4kErrorKind
classify_lower t =
    if contains (codes "unknownissuer") t
      || (contains (codes "unknown issuer") t
          || (contains (codes "badsignature") t || contains (codes "bad signature") t))
    then err_tls_ca
    else if contains (codes "notvalidforname") t || contains (codes "not valid for name") t
    then err_tls_hostname
    else if contains (codes "expired") t || contains (codes "notvalidyet") t
    then err_tls_expired
    else if contains (codes "no application protocol") t
        || contains (codes "noapplicationprotocol") t
    then err_alpn_no_h2
    else if contains (codes "certificate") t
        || (contains (codes "handshake") t || contains (codes "tls") t)
    then err_tls_other
    else err_connect

unfoldable pub classify_text : Text → Hyper4kErrorKind
classify_text t = classify_lower (to_ascii_lowercase t)

-- One error of a chain: its text, and the rustls error that it is, if it is one.
pub record Link : Type 0 where
  pub shown : Text
  pub rustls : Option RustlsError

-- The loop over an error and its sources, with the text so far.
unfoldable pub classify_from : Text → List Link → Hyper4kErrorKind
classify_from text [] = classify_text text
classify_from text (e ∷ sources) =
    let rest = classify_from (text ++ (e.shown ++ b';' ∷ [])) sources in
    elim e.rustls [ none ↦ rest | some err ↦ classify_rustls err ]

unfoldable pub classify : List Link → Hyper4kErrorKind
classify chain = classify_from [] chain
