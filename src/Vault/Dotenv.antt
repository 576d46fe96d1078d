-- ===== src/Vault/Dotenv.antt =====
-- internal/vault/envfile.go: secrets written as lines, for a shell or for Docker, and read from a
-- file of such lines. A text is ASCII, and white space is trimmed as of such a text. The values of a map are an association list with each name
-- once. The JSON format, the files themselves and the wording of errors are left out.
pub mod Texts
pub mod Pairs
pub mod Lines
pub mod RoundTrip
use caramelo.Common.{
  ℕ, suc, ◌+◌, Bool, true, false, not, ◌&&◌, ◌||◌, List, [], ◌∷◌, ◌++◌, Option, none, some, ◌==◌,
  nat_eq, bytes_eq, Bytes, codes, if◌then◌else◌, ltb, leb, length, take, holds_byte, contains_any,
  cut_at, cut_prefix, trim_space, replace_byte, lookup, insert, bytes_ltb,
}
use caramelo.Vault.{NameError, validate_name, value_fits}

abbrev pub Values : Type 0
Values = List (Bytes × Bytes)

pub data DotenvError : Type 0 where
  newline_in : Bytes → DotenvError
  not_a_pair : Bytes → DotenvError
  bad_name : NameError → DotenvError
  bad_escape : Bytes → ℕ → DotenvError
  set_twice value_too_long : Bytes → DotenvError
  at_line : ℕ → DotenvError → DotenvError

pub data Checked (A : Type 0) : Type 0 where
  ok : A → Checked A
  failed : DotenvError → Checked A

-- The text before the last byte, and that byte.
unfoldable pub split_last : Bytes → Option (Bytes × ℕ)
split_last [] = none
split_last (c ∷ s) = elim (split_last s) [
  | none ↦ some ([], c)
  | some (before, last) ↦ some (c ∷ before, last)
]

-- strings.Split at a byte.
unfoldable pub onto_first : ℕ → List Bytes → List Bytes
onto_first c [] = (c ∷ []) ∷ []
onto_first c (line ∷ lines) = (c ∷ line) ∷ lines

unfoldable pub split_byte : ℕ → Bytes → List Bytes
unfolding onto_first
split_byte b [] = [] ∷ []
split_byte b (c ∷ s) = let rest = split_byte b s in if c == b then [] ∷ rest else onto_first c rest

-- strings.TrimPrefix, and strings.TrimSuffix of one byte.
unfoldable pub trim_prefix : Bytes → Bytes → Bytes
trim_prefix prefix s = elim (cut_prefix prefix s) [ none ↦ s | some rest ↦ rest ]

unfoldable pub trim_last : ℕ → Bytes → Bytes
unfolding split_last
trim_last b s = elim (split_last s) [
  | none ↦ s
  | some (before, last) ↦ if last == b then before else s
]

-- What the byte after a backslash stands for.
unfoldable pub escape_of : ℕ → Option ℕ
escape_of c =
    if c == b'n'
    then some b'\n'
    else if c == b'r'
    then some b'\r'
    else if c == b't'
    then some b'\t'
    else if c == b'\\' || c == b'"' || c == b'\''
    then some c
    else none

onto : ℕ → Checked Bytes → Checked Bytes
onto c (ok s) = ok (c ∷ s)
onto c (failed e) = failed e

-- The loop of unescape; `name` is for the error.
unfoldable pub unescape_from : Bytes → Bytes → Checked Bytes
unfolding onto escape_of
unescape_from name [] = ok []
unescape_from name (c ∷ []) = ok (c ∷ [])
unescape_from name (c ∷ d ∷ s) =
    let next = unescape_from name (d ∷ s) in
    let rest = unescape_from name s in
    if not (c == b'\\')
    then onto c next
    else elim (escape_of d) [ none ↦ failed (bad_escape name d) | some e ↦ onto e rest ]

unfoldable pub unescape : Bytes → Bytes → Checked Bytes
unescape name v = if not (holds_byte b'\\' v) then ok v else unescape_from name v

unfoldable pub unquote : Bytes → Bytes → Checked Bytes
unfolding unescape split_last
unquote name [] = ok []
unquote name (first ∷ v) = elim (split_last v) [
  | none ↦ ok (first ∷ [])
  | some (inner, last) ↦
      if first == b'\'' && last == b'\''
      then ok inner
      else if first == b'"' && last == b'"'
      then unescape name inner
      else ok (first ∷ v)
]

unfoldable pub redact_line : Bytes → Bytes
redact_line line = if leb (length line) 16 then line else take 16 line ++ 226 ∷ 128 ∷ 166 ∷ []

with_name : Bytes → Checked Bytes → Checked (Bytes × Bytes)
with_name name (ok v) = ok (name, v)
with_name name (failed e) = failed e

-- A pair cut at the equals sign, with the spaces around both parts left out.
unfoldable pub check_pair : Bytes → Bytes → Checked (Bytes × Bytes)
unfolding with_name
check_pair name value = elim (validate_name name) [
  | some e ↦ failed (bad_name e)
  | none ↦ with_name name (unquote name value)
]

unfoldable pub parse_dotenv_line : Bytes → Checked (Bytes × Bytes)
unfolding redact_line check_pair trim_prefix
parse_dotenv_line line =
    let line = trim_prefix (codes "export ") line in
    elim (cut_at b'=' line) [
      | none ↦ failed (not_a_pair (redact_line line))
      | some (name, value) ↦ check_pair (trim_space name) (trim_space value)
    ]

unfoldable pub add_pair : Values → Checked (Bytes × Bytes) → Checked Values
add_pair out (failed e) = failed e
add_pair out (ok (name, value)) = elim (lookup name out) [
  | some _ ↦ failed (set_twice name)
  | none ↦ if value_fits value then ok (insert name value out) else failed (value_too_long name)
]

pub starts_with : ℕ → Bytes → Bool
starts_with b [] = false
starts_with b (c ∷ s) = c == b

-- One round of ParseDotenv.
unfoldable pub read_line : Values → Bytes → Checked Values
unfolding add_pair starts_with trim_last
read_line out raw =
    let line = trim_space (trim_last b'\r' raw) in
    if line == [] || starts_with b'#' line then ok out else add_pair out (parse_dotenv_line line)

-- The rounds from the i-th line on.
unfoldable pub parse_lines : ℕ → Values → List Bytes → Checked Values
unfolding read_line
parse_lines i out [] = ok out
parse_lines i out (raw ∷ raws) = elim (read_line out raw) [
  | failed e ↦ failed (at_line (i + 1) e)
  | ok out' ↦ parse_lines (i + 1) out' raws
]

unfoldable pub parse_dotenv : Bytes → Checked Values
unfolding parse_lines split_byte
parse_dotenv content = parse_lines 0 [] (split_byte b'\n' content)

-- The bytes at which shellQuote quotes.
abbrev pub shell_special : Bytes
shell_special =
    b' ' ∷ b'\t' ∷ b'\n' ∷ b'\r' ∷ b'"' ∷ b'\'' ∷ codes "$`" ++ b'\\' ∷ codes "|&;<>()*?[]#~=%!{}"

-- A quotation within quotes.
abbrev pub quoted_single : Bytes
quoted_single = b'\'' ∷ b'\\' ∷ b'\'' ∷ b'\'' ∷ []

unfoldable pub shell_quote : Bytes → Bytes
unfolding contains_any replace_byte
shell_quote v =
    if not (v == []) && not (contains_any shell_special v)
    then v
    else b'\'' ∷ replace_byte b'\'' quoted_single v ++ b'\'' ∷ []

pub sort_in : Bytes × Bytes → Values → Values
sort_in p [] = p ∷ []
sort_in p (q ∷ qs) = if bytes_ltb q.0 p.0 then q ∷ sort_in p qs else p ∷ q ∷ qs

-- The values in the order of sortedKeys.
unfoldable pub sorted : Values → Values
unfolding sort_in
sorted [] = []
sorted (p ∷ ps) = sort_in p (sorted ps)

-- A line for each value, as `write` writes it.
unfoldable pub write_lines : (Bytes → Bytes) → Values → Checked Bytes
unfolding contains_any
write_lines write [] = ok []
write_lines write ((name, v) ∷ rest) =
    let lines = write_lines write rest in
    if contains_any (b'\n' ∷ b'\r' ∷ []) v
    then failed (newline_in name)
    else elim lines [ failed e ↦ failed e | ok out ↦ ok (name ++ b'=' ∷ write v ++ b'\n' ∷ out) ]

unfoldable pub env_file_content : Values → Checked Bytes
unfolding sorted write_lines
env_file_content values = write_lines (λ v. v) (sorted values)

-- Render in the format of lines.
unfoldable pub render_env : Values → Checked Bytes
unfolding sorted write_lines shell_quote
render_env values = write_lines shell_quote (sorted values)
