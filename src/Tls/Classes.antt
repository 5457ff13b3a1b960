-- ===== src/Tls/Classes.antt =====
-- lib/src/client/tls.rs: how the chain of a handshake's error decides its kind.
use hyper4k.Prelude.{◌≡◌, refl, Option, none, some, List, [], ◌∷◌, ◌++◌, arith}
use hyper4k.Abi.{Hyper4kErrorKind}
use hyper4k.Text.{Text}
use hyper4k.Tls.{RustlsError, classify_rustls, classify_text, Link, classify_from, classify}

-- The first rustls error of a chain.
abbrev pub first_rustls : List Link → Option RustlsError
first_rustls [] = none
first_rustls (e ∷ sources) = elim e.rustls [ none ↦ first_rustls sources | some err ↦ some err ]

-- All texts of a chain.
abbrev pub joined : Text → List Link → Text
joined text [] = text
joined text (e ∷ sources) = joined (text ++ (e.shown ++ b';' ∷ [])) sources

-- The kind by the first rustls error, or by the text if there is none.
abbrev pub kind_of : Option RustlsError → Text → Hyper4kErrorKind
kind_of none text = classify_text text
kind_of (some err) text = classify_rustls err

classify_from-kind_of :
    (text : Text) (chain : List Link)
    → classify_from text chain ≡ kind_of (first_rustls chain) (joined text chain)
unfolding classify_from
classify_from-kind_of text [] = refl
classify_from-kind_of text (e ∷ sources) =
    ground (arith, classify_from-kind_of (text ++ (e.shown ++ b';' ∷ [])) sources)

-- However deep it lies, the first rustls error of a chain decides alone; the texts count only if no
-- error of the chain is one of rustls.
pub classify-kind_of :
    (chain : List Link) → classify chain ≡ kind_of (first_rustls chain) (joined [] chain)
unfolding classify
classify-kind_of chain = classify_from-kind_of [] chain
