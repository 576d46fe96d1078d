-- ===== src/Vault/Dotenv/Pairs.antt =====
-- A line that Render writes for one value is read as its name and value (internal/vault/envfile.go).
use caramelo.Common.{
  ℕ, ◌+◌, ◌≡◌, ◌≢◌, refl, sym, subst, ◌∙◌, inl, inr, Bool, true, false, not, ◌||◌, [], ◌∷◌, ◌++◌,
  none, arith, ◌==◌, nat_eq, bytes_eq, bytes_beq, Bytes, any, holds_byte, contains_any, trim_space,
  is_space, Bool-cases,
}
use caramelo.Vault.{is_digit, is_upper, check_characters, validate_name}
use caramelo.Vault.Dotenv.{ok, split_last, unquote, shell_special, shell_quote, quoted_single}
use caramelo.Vault.Dotenv.Texts.{
  Ends, any-Ends, trim_space-kept, trim_space-none, split_last-append, split_last-some,
  replace_byte-none, holds_byte-append,
}

-- The bytes that a line of a shell's quotation does not carry over: a quotation, a newline, a
-- carriage return, a vertical tab, a form feed.
unfoldable pub is_awkward : ℕ → Bool
is_awkward c = c == b'\'' || c == b'\n' || c == b'\r' || c == 11 || c == 12

-- The characters of a name.
unfoldable pub in_name : ℕ → Bool
unfolding is_upper is_digit
in_name c = is_upper c || is_digit c

check_characters-in_name :
    (name : Bytes) (i : ℕ) (s : Bytes)
    → check_characters name i s ≡ none
    → any (λ c. not (in_name c)) s ≡ false
unfolding check_characters in_name
check_characters-in_name name i [] e = refl
check_characters-in_name name i (c ∷ s) e = ground (arith, check_characters-in_name name (i + 1) s)

-- A valid name is a capital or an underscore and then characters of a name.
abbrev pub Name : Bytes → Type 0
Name name =
    (c : ℕ) × (s : Bytes) × (name ≡ c ∷ s)
    × (is_upper c ≡ true)
    × (any (λ x. not (in_name x)) s ≡ false)

pub validate_name-Name : (name : Bytes) → validate_name name ≡ none → Name name
unfolding validate_name check_characters bytes_beq in_name
validate_name-Name [] e = cc
validate_name-Name (c ∷ s) e =
    (c, s, refl, ground arith, ground (arith, check_characters-in_name (c ∷ s) 1 s))

pub in_name-holds_byte :
    (b : ℕ) (s : Bytes)
    → in_name b ≡ false
    → any (λ c. not (in_name c)) s ≡ false
    → holds_byte b s ≡ false
unfolding holds_byte
in_name-holds_byte b [] out e = refl
in_name-holds_byte b (c ∷ s) out e = elim (Bool-cases (c == b)) [
  | inl same ↦
      (let eq = (nat_eq.same_iff c b).0 same in
        let here = subst (λ x. in_name x ≡ false) (sym eq) out in ground arith)
  | inr other ↦ ground (arith, in_name-holds_byte b s)
]

in_name-is_space : (c : ℕ) → in_name c ≡ true → is_space c ≡ false
unfolding in_name is_upper is_digit is_space
in_name-is_space c e = ground arith

pub in_name-solid :
    (s : Bytes) → any (λ c. not (in_name c)) s ≡ false → any (λ c. is_space c) s ≡ false
in_name-solid [] e = refl
in_name-solid (c ∷ s) e = ground (arith, in_name-is_space c, in_name-solid s)

-- What a text that is not quoted holds.
plain_byte :
    (c : ℕ)
    → holds_byte c shell_special ≡ false
    → is_awkward c ≡ false
    → (is_space c ≡ false) × (c ≢ b'"')
unfolding holds_byte is_awkward is_space
plain_byte c e f = (ground arith, ground arith)

plain_solid :
    (v : Bytes)
    → contains_any shell_special v ≡ false
    → any (λ c. is_awkward c) v ≡ false
    → any (λ c. is_space c) v ≡ false
unfolding contains_any
plain_solid [] e f = refl
plain_solid (c ∷ v) e f =
    let rest = plain_solid v (ground arith) (ground arith) in
    let here = (plain_byte c (ground arith) (ground arith)).0 in ground arith

awkward_single : (v : Bytes) → any (λ c. is_awkward c) v ≡ false → holds_byte b'\'' v ≡ false
unfolding holds_byte is_awkward
awkward_single [] e = refl
awkward_single (c ∷ v) e = ground (arith, awkward_single v)

-- How a value is written.
data Written (v : Bytes) : Type 0 where
  left_plain :
      (c : ℕ) (rest : Bytes)
      → v ≡ c ∷ rest
      → contains_any shell_special v ≡ false
      → shell_quote v ≡ v
      → Written v
  put_in_quotes : shell_quote v ≡ b'\'' ∷ v ++ b'\'' ∷ [] → Written v

written : (v : Bytes) → any (λ c. is_awkward c) v ≡ false → Written v
unfolding shell_quote bytes_beq
written [] e = put_in_quotes refl
written (c ∷ v) e = elim (Bool-cases (contains_any shell_special (c ∷ v))) [
  | inl special ↦ put_in_quotes (
      rw (special, shell_quote)
        (rw (replace_byte-none b'\'' quoted_single (c ∷ v) (awkward_single (c ∷ v) e)) refl))
  | inr plain ↦ left_plain c v refl plain (rw plain refl)
]

-- What the parser needs of a written value.
pub record Readable (name v text : Bytes) : Type 0 where
  pub trimmed : trim_space text ≡ text
  pub ends : Ends text
  pub one_line : holds_byte b'\n' text ≡ false
  pub unquoted : unquote name text ≡ ok v

awkward_newline : (v : Bytes) → any (λ c. is_awkward c) v ≡ false → holds_byte b'\n' v ≡ false
unfolding holds_byte is_awkward
awkward_newline [] e = refl
awkward_newline (c ∷ v) e = ground (arith, awkward_newline v)

special_double :
    (c : ℕ) (v : Bytes)
    → contains_any shell_special (c ∷ v) ≡ false
    → holds_byte c shell_special ≡ false
unfolding contains_any
special_double c v e = ground arith

unquote-plain :
    (name : Bytes) (c : ℕ) (v : Bytes) → c ≢ b'\'' → c ≢ b'"' → unquote name (c ∷ v) ≡ ok (c ∷ v)
unfolding unquote split_last
unquote-plain name c [] e f = refl
unquote-plain name c (d ∷ v) e f =
    let last = split_last-some d v in rw (last.1, unquote) (ground arith)

unquote-in_quotes : (name v : Bytes) → unquote name (b'\'' ∷ v ++ b'\'' ∷ []) ≡ ok v
unfolding unquote
unquote-in_quotes name v = rw (split_last-append v b'\'', unquote) refl

single_solid : is_space b'\'' ≡ false
unfolding is_space
single_solid = refl

quoted-Readable :
    (name v : Bytes) → any (λ c. is_awkward c) v ≡ false → Readable name v (b'\'' ∷ v ++ b'\'' ∷ [])
unfolding holds_byte
quoted-Readable name v e =
    let ends : Ends (b'\'' ∷ v ++ b'\'' ∷ []) = (b'\'' ∷ v, b'\'', refl, single_solid) in
    record {
      trimmed =
          trim_space-kept (b'\'' ∷ v ++ b'\'' ∷ []) (b'\'', v ++ b'\'' ∷ [], refl, single_solid)
            ends;
      ends = ends;
      one_line = holds_byte-append b'\n' v (b'\'' ∷ []) ∙ rw (awkward_newline v e) refl;
      unquoted = unquote-in_quotes name v;
    }

not_single : (c : ℕ) → is_awkward c ≡ false → c ≢ b'\''
unfolding is_awkward
not_single c e = ground arith

plain-Readable :
    (name : Bytes) (c : ℕ) (v : Bytes)
    → any (λ x. is_awkward x) (c ∷ v) ≡ false
    → contains_any shell_special (c ∷ v) ≡ false
    → Readable name (c ∷ v) (c ∷ v)
plain-Readable name c v e plain =
    let solid = plain_solid (c ∷ v) plain e in
    let tame : is_awkward c ≡ false = ground arith in
    record {
      trimmed = trim_space-none c v solid;
      ends = any-Ends c v solid;
      one_line = awkward_newline (c ∷ v) e;
      unquoted =
          unquote-plain name c v (not_single c tame)
            (plain_byte c (special_double c v plain) tame).1;
    }

pub shell_quote-Readable :
    (name v : Bytes) → any (λ c. is_awkward c) v ≡ false → Readable name v (shell_quote v)
shell_quote-Readable name v e = elim (written v e) [
  | put_in_quotes same ↦ subst (Readable name v) (sym same) (quoted-Readable name v e)
  | left_plain c rest is plain same ↦ subst (Readable name v) (sym same) (
      subst (λ u. Readable name u u) (sym is)
        (plain-Readable name c rest (subst (λ u. any (λ x. is_awkward x) u ≡ false) is e)
          (subst (λ u. contains_any shell_special u ≡ false) is plain)))
]
