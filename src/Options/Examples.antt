-- ===== src/Options/Examples.antt =====
-- lib/src/client/mod.rs: a caller built against a smaller options struct.
use hyper4k.Prelude.{◌≡◌, refl, none, some, [], ◌∷◌, ◌++◌, arith, take, drop, length, min, ◌*◌, ◌+◌}
use hyper4k.Abi.{status_ok, status_abi_mismatch, status_invalid_arg}
use hyper4k.Options.{
  Bytes, init_prefix, hyper4k_client_options_init, caller_options, default_options, validate_header,
  options_min_size,
}
use hyper4k.Options.Prefix.{init_prefix-writes, options_init-read_back}

abbrev eight : Bytes
eight = 165 ∷ 165 ∷ 165 ∷ 165 ∷ 165 ∷ 165 ∷ 165 ∷ 165 ∷ []

-- Room for the fields through `connect_timeout_ms`, and a guard of eight bytes.
abbrev allocation : Bytes
allocation = eight ++ eight ++ eight ++ eight

init_prefix-writes_example :
    (out : Bytes) × (init_prefix (some allocation) 24 16 (1 ∷ 2 ∷ 3 ∷ []) ≡ (some out, status_ok))
    × (length out ≡ length allocation)
    × (drop (min 24 3) out ≡ drop (min 24 3) allocation)
    × (take (min 24 3) out ≡ take (min 24 3) (1 ∷ 2 ∷ 3 ∷ []))
init_prefix-writes_example =
    init_prefix-writes allocation 24 16 (1 ∷ 2 ∷ 3 ∷ []) (ground arith) (ground arith)

options_init-read_back_example :
    (out : Bytes) × (hyper4k_client_options_init (some allocation) 24 ≡ (some out, status_ok))
    × (caller_options out 24 ≡ default_options 24)
options_init-read_back_example =
    options_init-read_back allocation 24 (ground arith) (ground arith) (ground arith)

test_null : hyper4k_client_options_init none 88 ≡ (none, status_invalid_arg)
unfolding hyper4k_client_options_init init_prefix
test_null = refl

-- ABI 3 is refused, 4.7 is not.
test_major : validate_header (3 * 65536) 88 options_min_size ≡ status_abi_mismatch
unfolding validate_header
test_major = refl

test_minor : validate_header (4 * 65536 + 7) 88 options_min_size ≡ status_ok
unfolding validate_header
test_minor = refl
