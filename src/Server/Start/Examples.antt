-- ===== src/Server/Start/Examples.antt =====
-- lib/src/lib.rs: a concrete server that the theorems apply to.
use hyper4k.Prelude.{◌≡◌, refl, true, none, some, [], ◌∷◌, codes}
use hyper4k.Headers.{split}
use hyper4k.Text.{from_utf8, decode, lead, between, format_u16, digits, drop_while, is_whitespace}
use hyper4k.Server.Start.{
  Machine, Hyper4kServer, collect, load_certs, load_key, build_tls_config, as_str, addr_of, listen,
  hyper4k_server_start, hyper4k_server_start_tls, alpn_list, trim, keep,
}
use hyper4k.Server.Start.Alpn.{Item, IsItem, alpn_list-comma_list, comma_list}
use hyper4k.Server.Start.Running.{Serves, start_tls-Serves}

-- Every file holds one certificate, which is its own key.
abbrev machine : Machine
machine = record {
  parse_addr = λ s. some s;
  runtime_builds = true;
  bind = λ a. true;
  open_file = λ path. some path;
  pem_certs = λ file. some file ∷ [];
  private_key = λ file. some file;
  is_key_pair = λ certs key. true;
}

abbrev server : Hyper4kServer
server = record {
  addr = codes "0.0.0.0:8443";
  tls = some (record {
    certs = codes "c.pem" ∷ [];
    key = codes "k.pem";
    alpn_protocols = codes "h2" ∷ codes "http/1.1" ∷ [];
  });
}

-- A NULL host, and a list with an empty entry and white space.
starts :
    hyper4k_server_start_tls machine none 8443
      (some (codes "c.pem"))
      (some (codes "k.pem"))
      (some (codes "h2,, http/1.1 "))
    ≡ some server
unfolding hyper4k_server_start_tls addr_of as_str from_utf8 decode lead between format_u16 digits
    build_tls_config load_certs load_key collect alpn_list split trim keep drop_while is_whitespace
    listen
starts = refl

start_tls-Serves_example : Serves machine 8443 server
start_tls-Serves_example =
    start_tls-Serves machine none 8443 (some (codes "c.pem")) (some (codes "k.pem"))
      (some (codes "h2,, http/1.1 ")) server starts

-- A host that is no UTF-8 is taken for all interfaces.
any_interface :
    hyper4k_server_start machine (some (0xFF ∷ [])) 80
    ≡ some (record { addr = codes "0.0.0.0:80"; tls = none })
unfolding hyper4k_server_start addr_of as_str from_utf8 decode lead between format_u16 digits listen
any_interface = refl

abbrev protocols : Item
protocols = record { before = codes " "; protocol = codes "h2"; after = codes "\t" }

alpn_list-comma_list_example :
    alpn_list (comma_list (protocols ∷ protocols ∷ [])) ≡ codes "h2" ∷ codes "h2" ∷ []
unfolding is_whitespace between
alpn_list-comma_list_example =
    alpn_list-comma_list (protocols ∷ protocols ∷ []) (valid, (valid, tt))
  where
    valid : IsItem protocols
    valid = record {
      spaces_before = (refl, tt);
      spaces_after = (refl, tt);
      tight_start = refl;
      tight_end = refl;
      no_comma = (refl, (refl, tt));
    }
