-- ===== src/Tls/Trust.antt =====
-- lib/src/client/tls.rs: which roots a configuration trusts.
use hyper4k.Prelude.{
  ℕ, zero, suc, subst, ◌+◌, ◌≡◌, ◌≢◌, refl, sym, ap, ◌∙◌, Bool, true, false, ◌==◌, if◌then◌else◌,
  Option, none, some, List, [], ◌∷◌, ◌++◌, map, is_empty, length, append_assoc, append-nil, arith,
  ◌⊎◌, inl, inr, ◌↔◌, if_cases, Bool-cases,
}
use hyper4k.Abi.{Hyper4kErrorKind, err_tls_ca, err_tls_other}
use hyper4k.Headers.{Bytes}
use hyper4k.Tls.{
  TlsOptions, Certificates, ClientConfig, add_native, add_custom, system_roots, custom_roots, alpn,
  try, build_tls_config,
}

-- The certificates that can be roots.
abbrev pub accepted : (Bytes → Bool) → List Bytes → List Bytes
accepted is_root [] = []
accepted is_root (cert ∷ certs) =
    if is_root cert then cert ∷ accepted is_root certs else accepted is_root certs

add_native-accepted :
    (is_root : Bytes → Bool) (certs roots : List Bytes)
    → add_native is_root certs roots ≡ roots ++ accepted is_root certs
unfolding add_native
add_native-accepted is_root [] roots = sym (append-nil roots)
add_native-accepted is_root (cert ∷ certs) roots =
    if_cases
      (λ k.
        add_native is_root certs (if is_root cert then roots ++ cert ∷ [] else roots) ≡ roots ++ k)
      (is_root cert)
      (λ yes'. rw yes' (
        add_native-accepted is_root certs (roots ++ cert ∷ [])
        ∙ append_assoc roots (cert ∷ []) (accepted is_root certs)))
      (λ no'. rw no' (add_native-accepted is_root certs roots))

-- What `add_custom` comes to if it succeeds.
record Added (items : List (Option Bytes)) (roots : List Bytes) (n : ℕ) (all : List Bytes) (m : ℕ)
    : Type 0 where
  certs : List Bytes
  listed : items ≡ map some certs
  whole : all ≡ roots ++ certs
  counted : m ≡ n + length certs

add_custom-Added :
    (is_root : Bytes → Bool) (items : List (Option Bytes)) (roots : List Bytes) (n : ℕ)
    {all : List Bytes} {m : ℕ}
    → add_custom is_root items roots n ≡ inr (all, m)
    → Added items roots n all m
unfolding add_custom
add_custom-Added is_root [] roots n {all} {m} e = record {
  certs = [];
  listed = refl;
  whole = (let p : roots ≡ all = cc in sym p) ∙ sym (append-nil roots);
  counted = ground arith;
}
add_custom-Added is_root (none ∷ items) roots n e = cc
add_custom-Added is_root (some cert ∷ items) roots n {all} {m} e =
    elim (Bool-cases (is_root cert)) [
      | inl ok ↦
          go (add_custom-Added is_root items (roots ++ cert ∷ []) (n + 1) (ground (arith, ok)))
      | inr bad ↦ ground (arith, bad)
    ]
  where
    go : Added items (roots ++ cert ∷ []) (n + 1) all m → Added (some cert ∷ items) roots n all m
    go a = record {
      certs = cert ∷ a.certs;
      listed = ap (◌∷◌ (some cert)) a.listed;
      whole = a.whole ∙ append_assoc roots (cert ∷ []) a.certs;
      counted = omega (arith, a.counted);
    }

-- The certificates of the options' bundle.
abbrev pub bundle : Certificates → Option Bytes → List (Option Bytes)
bundle c none = []
bundle c (some pem) = c.pem_certs pem

abbrev pub IsGiven : Option Bytes → Type 0
IsGiven none = ⊥
IsGiven (some pem) = Unit {0}

-- The custom part of the roots.
record Extends (c : Certificates) (ca : Option Bytes) (roots all : List Bytes) : Type 0 where
  custom : List Bytes
  listed : bundle c ca ≡ map some custom
  whole : all ≡ roots ++ custom
  offered : IsGiven ca → custom ≢ []

custom_roots-Extends :
    (c : Certificates) (ca : Option Bytes) (roots : List Bytes) {all : List Bytes}
    → custom_roots c ca roots ≡ inr all
    → Extends c ca roots all
unfolding custom_roots
custom_roots-Extends c none roots {all} e = record {
  custom = [];
  listed = refl;
  whole = (let p : roots ≡ all = cc in sym p) ∙ sym (append-nil roots);
  offered = λ g. absurd g;
}
custom_roots-Extends c (some pem) roots {all} e =
    go (add_custom c.is_root (c.pem_certs pem) roots 0) refl e
  where
    at_least_one : {l : List Bytes} {m : ℕ} → (m == 0) ≡ false → m ≡ 0 + length l → l ≢ []
    at_least_one {l = []} z e p = ground arith
    at_least_one {l = x ∷ l} z e p = cc

    made :
        {m : ℕ}
        → (m == 0) ≡ false
        → Added (c.pem_certs pem) roots 0 all m
        → Extends c (some pem) roots all
    made z a = record {
      custom = a.certs;
      listed = a.listed;
      whole = a.whole;
      offered = λ _. at_least_one z a.counted;
    }

    go :
        (r : Hyper4kErrorKind ⊎ (List Bytes × ℕ))
        → add_custom c.is_root (c.pem_certs pem) roots 0 ≡ r
        → (elim r as (λ _. Hyper4kErrorKind ⊎ List Bytes) [
          | inl kind ↦ inl kind
          | inr (l, added) ↦ if added == 0 then inl err_tls_ca else inr l
        ])
          ≡ inr all
        → Extends c (some pem) roots all
    go (inl kind) p q = cc
    go (inr (l, zero)) p q = cc
    go (inr (l, suc m)) p q = made (ground arith) (
        add_custom-Added c.is_root (c.pem_certs pem) roots 0
          (p ∙ ap (λ k. inr (k, suc m)) (let same : l ≡ all = ground arith in same)))

-- The platform's part of the roots.
abbrev pub platform : Certificates → Bool → List Bytes
platform c replace = if replace then [] else accepted c.is_root c.native_certs

system_roots-platform :
    (c : Certificates) (replace : Bool) {roots : List Bytes}
    → system_roots c replace ≡ inr roots
    → (roots ≡ platform c replace) × ((roots ≡ []) → replace ≡ true)
unfolding system_roots
system_roots-platform c true e = (cc, λ _. refl)
system_roots-platform c false {roots} e =
    go (add_native c.is_root c.native_certs []) (add_native-accepted c.is_root c.native_certs []) e
  where
    go :
        (r : List Bytes)
        → r ≡ accepted c.is_root c.native_certs
        → (if is_empty r then inl err_tls_other else inr r) ≡ inr roots
        → (roots ≡ accepted c.is_root c.native_certs) × ((roots ≡ []) → false ≡ true)
    go [] p q = cc
    go (x ∷ r) p q = ((let same : x ∷ r ≡ roots = cc in sym same) ∙ p, λ z. cc)

-- What a configuration is made of, and when it trusts nothing.
pub record Trusts (c : Certificates) (opts : TlsOptions) (config : ClientConfig) : Type 0 where
  pub custom : List Bytes
  pub listed : bundle c opts.custom_ca_pem ≡ map some custom
  pub roots_are : config.roots ≡ platform c opts.replace_system_roots ++ custom
  pub no_roots :
      (config.roots ≡ []) ↔ ((opts.replace_system_roots ≡ true) × (IsGiven opts.custom_ca_pem → ⊥))

append-eq-nil : {xs ys : List Bytes} → xs ++ ys ≡ [] → (xs ≡ []) × (ys ≡ [])
append-eq-nil {xs = []} e = (refl, e)
append-eq-nil {xs = x ∷ xs} e = cc

unmapped : (l : List Bytes) → [] ≡ map some l → l ≡ []
unmapped [] p = refl
unmapped (x ∷ l) p = cc

-- The roots of a configuration are the platform's, unless these are replaced, and behind them the
-- certificates of the caller's bundle, in order. It trusts nothing exactly if the platform's roots
-- are replaced and no bundle is given; the check for a platform without roots is not made then.
pub build_tls_config-Trusts :
    (c : Certificates) (opts : TlsOptions) (config : ClientConfig)
    → build_tls_config c opts ≡ inr config
    → Trusts c opts config
unfolding build_tls_config try
build_tls_config-Trusts c opts config e = go (system_roots c opts.replace_system_roots) refl e
  where
    config_of : List Bytes → ClientConfig
    config_of all = record { roots = all; alpn_protocols = alpn opts.require_h2 }

    trusts :
        (system all : List Bytes)
        → (system ≡ platform c opts.replace_system_roots)
        → ((system ≡ []) → opts.replace_system_roots ≡ true)
        → Extends c opts.custom_ca_pem system all
        → Trusts c opts (config_of all)
    trusts system all s r x = record {
      custom = x.custom;
      listed = x.listed;
      roots_are = x.whole ∙ ap (λ k. k ++ x.custom) s;
      no_roots = (
        (λ z. let n = append-eq-nil (sym x.whole ∙ z) in (r n.0, λ g. x.offered g n.1)),
        (λ z.
            x.whole
            ∙ ap (λ k. k ++ x.custom) (s ∙ ap (platform c) z.0)
            ∙ none_listed x.custom x.listed z.1),
      );
    }
      where
        none_listed :
            (l : List Bytes)
            → bundle c opts.custom_ca_pem ≡ map some l
            → (IsGiven opts.custom_ca_pem → ⊥)
            → l ≡ []
        none_listed l p n = at opts.custom_ca_pem p n
          where
            at : (ca : Option Bytes) → bundle c ca ≡ map some l → (IsGiven ca → ⊥) → l ≡ []
            at none p n = unmapped l p
            at (some pem) p n = absurd (n tt)

    go_custom :
        (system : List Bytes)
        → (system ≡ platform c opts.replace_system_roots)
        → ((system ≡ []) → opts.replace_system_roots ≡ true)
        → (r : Hyper4kErrorKind ⊎ List Bytes) → custom_roots c opts.custom_ca_pem system ≡ r
        → try r (λ roots. inr (config_of roots)) ≡ inr config
        → Trusts c opts config
    go_custom system s n (inl kind) p q = cc
    go_custom system s n (inr all) p q =
        subst (Trusts c opts) (let same : config_of all ≡ config = cc in same)
          (trusts system all s n (custom_roots-Extends c opts.custom_ca_pem system p))

    go :
        (r : Hyper4kErrorKind ⊎ List Bytes)
        → system_roots c opts.replace_system_roots ≡ r
        → try r (λ system.
          try (custom_roots c opts.custom_ca_pem system) (λ roots. inr (config_of roots)))
          ≡ inr config
        → Trusts c opts config
    go (inl kind) p q = cc
    go (inr system) p q =
        let (s, n) = system_roots-platform c opts.replace_system_roots p in
        go_custom system s n (custom_roots c opts.custom_ca_pem system) refl q
