-- ===== src/Tests/Vault.antt =====
-- internal/vault/envfile.go and store.go on a few secrets.
use caramelo.Common.{
  List, bytes_ltb, none, some, sort_by, insert_by, ◌≡◌, refl, [], ◌∷◌, ◌++◌, Bytes, codes,
  bytes_beq, All, bytes_eq, trim_space, trim_left, is_space, cut_at, cut_prefix, lookup, insert,
  contains_any, holds_byte, replace_byte,
}
use caramelo.Vault.Resolve.{
  VaultEntry, Vault, layers, open_row, open_rows, resolve, resolve_rows, by_scope, winners, put_row,
  sorted_names, row_at, ranks_below, scope_rank, rank_from,
}
use caramelo.Vault.Resolve.Delivered.{Given, resolve-Given}
use caramelo.Vault.{validate_name, value_fits, check_characters, is_upper, is_digit}
use caramelo.Vault.Dotenv.{
  Values, ok, failed, at_line, set_twice, parse_dotenv, parse_lines, read_line, add_pair,
  parse_dotenv_line, check_pair, unquote, unescape, unescape_from, escape_of, split_byte,
  onto_first, split_last, trim_last, trim_prefix, render_env, sorted, shell_quote,
}
use caramelo.Vault.Dotenv.Pairs.{is_awkward}
use caramelo.Vault.Dotenv.RoundTrip.{Portable, Distinct, parse_dotenv-render_env}

reads_lines :
    parse_dotenv
      (codes "# a comment" ++ 10 ∷ codes "export K=from" ++ 10 ∷ codes "Q=\"a \\\"b\"" ++ 10 ∷ [])
    ≡ ok ((codes "K", codes "from") ∷ (codes "Q", codes "a \"b") ∷ [])
unfolding parse_dotenv parse_lines read_line add_pair parse_dotenv_line check_pair unquote unescape
    unescape_from escape_of split_byte onto_first split_last trim_last trim_prefix validate_name
    value_fits check_characters is_upper is_digit trim_space trim_left cut_at cut_prefix lookup
    insert holds_byte bytes_beq is_space
reads_lines = refl

refuses_twice :
    parse_dotenv (codes "K=a" ++ 10 ∷ codes "K=b") ≡ failed (at_line 2 (set_twice (codes "K")))
unfolding parse_dotenv parse_lines read_line add_pair parse_dotenv_line check_pair unquote unescape
    unescape_from escape_of split_byte onto_first split_last trim_last trim_prefix validate_name
    value_fits check_characters is_upper is_digit trim_space trim_left cut_at cut_prefix lookup
    insert holds_byte bytes_beq is_space
refuses_twice = refl

-- A quotation within a value comes back as the shell spells it.
quotation_changed :
    parse_dotenv (codes "K=" ++ shell_quote (codes "it's"))
    ≡ ok ((codes "K", codes "it'\\''s") ∷ [])
unfolding parse_dotenv parse_lines read_line add_pair parse_dotenv_line check_pair unquote unescape
    unescape_from escape_of split_byte onto_first split_last trim_last trim_prefix validate_name
    value_fits check_characters is_upper is_digit trim_space trim_left cut_at cut_prefix lookup
    insert holds_byte bytes_beq shell_quote contains_any replace_byte is_space
quotation_changed = refl

abbrev two_secrets : Values
two_secrets = (codes "SPACED", codes "two words") ∷ (codes "API_KEY", codes "abc") ∷ []

two_secrets_kept : All Portable two_secrets
unfolding validate_name check_characters is_upper is_digit is_awkward value_fits bytes_beq
two_secrets_kept = (
  record { valid = refl; tame = refl; short = refl; ascii = refl },
  (record { valid = refl; tame = refl; short = refl; ascii = refl }, tt),
)

two_secrets_apart : Distinct two_secrets
two_secrets_apart = (((λ e. cc), tt), (tt, tt))

parse_dotenv-render_env_example :
    (text : Bytes) × (render_env two_secrets ≡ ok text)
    × (parse_dotenv text ≡ ok (sorted two_secrets))
parse_dotenv-render_env_example =
    parse_dotenv-render_env two_secrets two_secrets_kept two_secrets_apart

-- A vault whose cipher leaves its text as it is.
abbrev entry : Bytes → Bytes → Bytes → VaultEntry
entry scope name value = record {
  scope = scope;
  name = name;
  ciphertext = value;
  nonce = [];
  version = 1;
}

abbrev of_env : List VaultEntry
of_env =
    entry (codes "env") (codes "K") (codes "mine")
    ∷ entry (codes "machine") (codes "K") (codes "all")
    ∷ entry (codes "app") (codes "B") (codes "ours")
    ∷ []

abbrev plain_vault : Vault
plain_vault = record {
  secrets = λ scope app env. none;
  secrets_for = λ app env. some of_env;
  decrypt = λ text nonce. some text;
}

resolved :
    resolve plain_vault (codes "shop") (codes "live")
    ≡ caramelo.Vault.Resolve.Resolved.ok
        ((codes "B", codes "ours") ∷ (codes "K", codes "mine") ∷ [])
unfolding resolve resolve_rows layers open_row open_rows by_scope winners put_row sorted_names
    row_at ranks_below scope_rank rank_from sort_by insert_by lookup insert bytes_beq bytes_ltb
resolved = refl

of_env_read :
    layers plain_vault (codes "shop") (codes "live") ≡ caramelo.Vault.Resolve.Resolved.ok of_env
unfolding layers bytes_beq
of_env_read = refl

of_env_opens :
    All (λ r. (v : Bytes) × (open_row plain_vault r ≡ caramelo.Vault.Resolve.Resolved.ok v)) of_env
unfolding open_row
of_env_opens = ((codes "mine", refl), ((codes "all", refl), ((codes "ours", refl), tt)))

resolve-Given_example :
    (out : List (Bytes × Bytes)) × (resolve plain_vault (codes "shop") (codes "live")
      ≡ caramelo.Vault.Resolve.Resolved.ok out)
    × ((name : Bytes) → Given plain_vault name of_env (lookup name out))
resolve-Given_example =
    resolve-Given plain_vault (codes "shop") (codes "live") of_env of_env_read of_env_opens
