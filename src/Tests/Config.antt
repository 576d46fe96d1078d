-- ===== src/Tests/Config.antt =====
-- internal/config/expand.go on a context with one dependency and one secret.
use caramelo.Common.{
  ◌≡◌, refl, List, [], ◌∷◌, none, some, ◌==◌, bytes_eq, Bytes, codes, bytes_beq, if◌then◌else◌,
  holds_byte, cut_at, cut_prefix, lookup,
}
use caramelo.Config.Expand.{
  ExpandContext, Answer, value, unknown, ok, failed, unknown_reference, unterminated, map_refs,
  map_from, before, write_answer, known, lookup_ref, lookup_prefixed, lookup_secret, lookup_dep,
  lookup_dep_password, lookup_addr, addr_field, is_var_name, expand_string, expand_secrets_only,
  secret_of, no_secrets,
}
use caramelo.Config.Expand.Pieces.{
  Piece, plain, dollar, lone_dollar, reference, show, Readable, meaning, escape, map_refs-show,
  expand_string-escape,
}

abbrev shop : ExpandContext
shop = record {
  app = codes "shop";
  env = codes "live";
  port = codes "20000";
  deps = (codes "db", record { host = codes "10.0.0.1"; port = codes "20001" }) ∷ [];
  services = [];
  secrets = record {
    find = some (λ name. if name == codes "KEY" then some (codes "abc") else none);
    dep_password = none;
  };
}

expanded :
    expand_string (codes "${deps.db.host}:${deps.db.port}/$${x}?k=${secrets.KEY}$") shop
    ≡ ok (codes "10.0.0.1:20001/${x}?k=abc$")
unfolding expand_string map_refs map_from before write_answer known lookup_ref lookup_prefixed
    lookup_secret lookup_dep lookup_dep_password lookup_addr addr_field is_var_name bytes_beq
    holds_byte cut_at cut_prefix lookup
expanded = refl

not_closed : expand_string (codes "a${port") shop ≡ failed (unterminated (codes "${port"))
unfolding expand_string map_refs map_from before write_answer bytes_beq holds_byte cut_at
not_closed = refl

not_known : expand_string (codes "${nothing}") shop ≡ failed (unknown_reference (codes "nothing"))
unfolding expand_string map_refs map_from before write_answer known lookup_ref lookup_prefixed
    lookup_secret lookup_dep lookup_dep_password lookup_addr addr_field is_var_name bytes_beq
    holds_byte cut_at cut_prefix lookup
not_known = refl

only_secrets :
    expand_secrets_only (codes "${secrets.KEY}${port}") [] shop.secrets ≡ codes "abc${port}"
unfolding expand_secrets_only secret_of no_secrets map_refs map_from before write_answer is_var_name
    bytes_beq holds_byte cut_at cut_prefix
only_secrets = refl

abbrev pieces : List Piece
pieces = plain b'a' ∷ dollar ∷ lone_dollar ∷ plain b' ' ∷ reference (codes "port") ∷ []

abbrev answer_port : Bytes → Answer
answer_port ref = if ref == codes "port" then value (codes "80") else unknown

pieces-Readable : Readable pieces
unfolding Readable show holds_byte
pieces-Readable = ((λ e. cc), (((λ e. cc), (λ e. cc)), ((λ e. cc), (refl, tt))))

map_refs-show_example : map_refs answer_port (show pieces) ≡ meaning answer_port pieces
map_refs-show_example = map_refs-show answer_port pieces pieces-Readable

expand_string-escape_example : expand_string (escape (codes "a$b")) shop ≡ ok (codes "a$b")
expand_string-escape_example = expand_string-escape (codes "a$b") shop
