-- ===== src/Vault/Dotenv/Lines.antt =====
-- What one round of ParseDotenv does with a line that Render writes (internal/vault/envfile.go).
use caramelo.Common.{
  cut_at-append, ℕ, ◌≡◌, ◌≢◌, refl, sym, ap, subst, ◌∙◌, true, false, not, ◌||◌, [], ◌∷◌, ◌++◌,
  none, arith, ◌==◌, nat_eq, bytes_eq, bytes_beq, Bytes, codes, any, holds_byte, trim_space,
  is_space, cut_prefix,
}
use caramelo.Vault.{is_upper, validate_name}
use caramelo.Vault.Dotenv.{
  Values, ok, trim_prefix, check_pair, parse_dotenv_line, add_pair, starts_with, read_line,
  shell_quote,
}
use caramelo.Vault.Dotenv.Texts.{
  Starts, Ends, Ends-append, trim_space-kept, trim_space-none, trim_last-Ends, holds_byte-append,
}
use caramelo.Vault.Dotenv.Pairs.{
  is_awkward, in_name, Name, validate_name-Name, in_name-holds_byte, in_name-solid, Readable,
  shell_quote-Readable,
}

capital-in_name : (c : ℕ) → is_upper c ≡ true → in_name c ≡ true
unfolding in_name
capital-in_name c e = ground arith

Name-in_name : (name : Bytes) → Name name → any (λ c. not (in_name c)) name ≡ false
Name-in_name name (c, s, same, capital, rest) =
    subst (λ u. any (λ x. not (in_name x)) u ≡ false) (sym same)
      (ground (arith, capital-in_name c capital))

Name-trimmed : (name : Bytes) → Name name → trim_space name ≡ name
Name-trimmed name (c, s, same, capital, rest) =
    let all_in : any (λ x. not (in_name x)) (c ∷ s) ≡ false =
      ground (arith, capital-in_name c capital) in
    rw same (trim_space-none c s (in_name-solid (c ∷ s) all_in))

not_in_name : (in_name b'=' ≡ false) × (in_name b'\n' ≡ false)
unfolding in_name is_upper
not_in_name = (refl, refl)

trim_prefix-capital :
    (c : ℕ) (s : Bytes) → is_upper c ≡ true → trim_prefix (codes "export ") (c ∷ s) ≡ c ∷ s
unfolding trim_prefix cut_prefix is_upper
trim_prefix-capital c s e = ground arith

abbrev pub written_line : Bytes → Bytes → Bytes
written_line name v = name ++ b'=' ∷ shell_quote v

trim_prefix-line :
    (name v : Bytes)
    → Name name
    → trim_prefix (codes "export ") (written_line name v) ≡ written_line name v
trim_prefix-line name v (c, s, same, capital, rest) =
    subst (λ u. trim_prefix (codes "export ") (written_line u v) ≡ written_line u v) (sym same)
      (trim_prefix-capital c (s ++ b'=' ∷ shell_quote v) capital)

check_pair-ok :
    (name v text : Bytes)
    → validate_name name ≡ none
    → Readable name v text
    → check_pair name (trim_space text) ≡ ok (name, v)
unfolding check_pair
check_pair-ok name v text e r =
    ap (check_pair name) r.trimmed ∙ rw (check_pair, e, check_pair, r.unquoted) refl

parse_dotenv_line-line :
    (name v : Bytes)
    → validate_name name ≡ none
    → any (λ c. is_awkward c) v ≡ false
    → parse_dotenv_line (written_line name v) ≡ ok (name, v)
unfolding parse_dotenv_line
parse_dotenv_line-line name v e tame =
    let n = validate_name-Name name e in
    rw
      (
        trim_prefix-line name v n,
        parse_dotenv_line,
        cut_at-append b'=' name (shell_quote v)
            (in_name-holds_byte b'=' name not_in_name.0 (Name-in_name name n)),
        Name-trimmed name n,
      )
      (check_pair-ok name v (shell_quote v) e (shell_quote-Readable name v tame))

line-Ends : (name v : Bytes) → any (λ c. is_awkward c) v ≡ false → Ends (written_line name v)
line-Ends name v tame =
    Ends-append name (b'=' ∷ shell_quote v)
      (Ends-append (b'=' ∷ []) (shell_quote v) (shell_quote-Readable name v tame).ends)

capital-plain : (c : ℕ) → is_upper c ≡ true → (is_space c ≡ false) × (c ≢ b'#')
unfolding is_upper is_space
capital-plain c e = (ground arith, ground arith)

-- The line is neither empty nor a comment, and has no space around it.
line-Starts : (name v : Bytes) → Name name → Starts (written_line name v)
line-Starts name v (c, s, same, capital, rest) =
    (c, s ++ b'=' ∷ shell_quote v, ap (λ u. written_line u v) same, (capital-plain c capital).0)

line-kept :
    (name v : Bytes)
    → Name name
    → (written_line name v == [] || starts_with b'#' (written_line name v)) ≡ false
unfolding starts_with bytes_beq
line-kept name v (c, s, same, capital, rest) =
    subst (λ u. (written_line u v == [] || starts_with b'#' (written_line u v)) ≡ false) (sym same)
      (let other = (capital-plain c capital).1 in ground arith)

pub read_line-line :
    (out : Values) (name v : Bytes)
    → validate_name name ≡ none
    → any (λ c. is_awkward c) v ≡ false
    → read_line out (written_line name v) ≡ add_pair out (ok (name, v))
unfolding read_line
read_line-line out name v e tame =
    let n = validate_name-Name name e in
    rw
      (
        trim_last-Ends (written_line name v) (line-Ends name v tame),
        trim_space-kept (written_line name v) (line-Starts name v n) (line-Ends name v tame),
        line-kept name v n,
        read_line,
      )
      (ap (add_pair out) (parse_dotenv_line-line name v e tame))

pub line-one_line :
    (name v : Bytes)
    → validate_name name ≡ none
    → any (λ c. is_awkward c) v ≡ false
    → holds_byte b'\n' (written_line name v) ≡ false
unfolding holds_byte
line-one_line name v e tame =
    let no_newline =
      in_name-holds_byte b'\n' name not_in_name.1 (Name-in_name name (validate_name-Name name e)) in
    holds_byte-append b'\n' name (b'=' ∷ shell_quote v)
    ∙ rw no_newline (shell_quote-Readable name v tame).one_line
