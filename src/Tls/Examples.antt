-- ===== src/Tls/Examples.antt =====
-- lib/src/client/tls.rs: concrete options and errors that the theorems apply to.
use hyper4k.Prelude.{◌≡◌, refl, Bool, true, false, none, some, List, [], ◌∷◌, codes, inr}
use hyper4k.Abi.{err_tls_ca, err_tls_expired, err_connect}
use hyper4k.Text.{contains, starts_with, to_ascii_lowercase, between}
use hyper4k.Tls.{
  TlsOptions, Certificates, ClientConfig, system_roots, custom_roots, add_native, add_custom, try,
  alpn, build_tls_config, invalid_certificate, expired, Link, classify_rustls, classify_text,
  classify_lower, classify_from, classify,
}
use hyper4k.Tls.Trust.{Trusts, build_tls_config-Trusts}

-- Certificates are texts here; a bundle is one certificate.
abbrev platform_roots : Certificates
platform_roots = record {
  native_certs = codes "public" ∷ [] ∷ [];
  is_root = λ c. elim c as (λ _. Bool) [ [] ↦ false | _ ∷ _ ↦ true ];
  pem_certs = λ b. some b ∷ [];
}

abbrev with_ca : TlsOptions
with_ca = record {
  custom_ca_pem = some (codes "private");
  replace_system_roots = false;
  require_h2 = true;
  proxy = none;
  connect_timeout = none;
}

abbrev both_roots : ClientConfig
both_roots = record {
  roots = codes "public" ∷ codes "private" ∷ [];
  alpn_protocols = codes "h2" ∷ [];
}

build_tls_config-Trusts_example : Trusts platform_roots with_ca both_roots
unfolding build_tls_config try system_roots add_native custom_roots add_custom alpn
build_tls_config-Trusts_example = build_tls_config-Trusts platform_roots with_ca both_roots refl

-- The platform's roots replaced by none.
no_roots :
    build_tls_config platform_roots
      (record with_ca { custom_ca_pem = none; replace_system_roots = true })
    ≡ inr (record { roots = []; alpn_protocols = codes "h2" ∷ [] })
unfolding build_tls_config try system_roots custom_roots alpn
no_roots = refl

abbrev wrapped : List Link
wrapped =
    record { shown = codes "unknown issuer"; rustls = none }
    ∷ record { shown = codes "invalid"; rustls = some (invalid_certificate expired) }
    ∷ []

-- The rustls error below decides, not the text above it.
wrapped_is : classify wrapped ≡ err_tls_expired
unfolding classify classify_from classify_rustls
wrapped_is = refl

text_alone : classify_text (codes "Bad Signature") ≡ err_tls_ca
unfolding classify_text classify_lower contains starts_with to_ascii_lowercase between
text_alone = refl

refused_is_connect : classify_text (codes "Connection refused") ≡ err_connect
unfolding classify_text classify_lower contains starts_with to_ascii_lowercase between
refused_is_connect = refl
