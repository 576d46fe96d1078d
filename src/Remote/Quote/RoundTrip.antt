-- ===== src/Remote/Quote/RoundTrip.antt =====
-- SplitWords reads what JoinArgs writes (internal/remote/quote.go).
use mathlib.Core.List.{append_assoc, append-nil}
use caramelo.Common.{
  ℕ, ◌≡◌, ◌≢◌, refl, sym, ap, ◌∙◌, inl, inr, Bool, true, false, not, ◌||◌, List, [], ◌∷◌, ◌++◌,
  Option, none, some, arith, ◌==◌, nat_eq, bytes_eq, bytes_beq, Bytes, any, holds_byte,
  replace_byte, join, Bool-cases,
}
use caramelo.Remote.Quote.{
  safe, needs_quoting, single, quoted_mark, quote, quote_args, join_args, Scan, ok, read_one, round,
  finish, read_runes, nothing_read, split_words,
}

-- A rune at which the round does not look ahead.
read_runes-read_one :
    (s s' : Scan) (c : ℕ) (rest : Bytes)
    → ((next : Option ℕ) → round s c next ≡ read_one s')
    → read_runes s (c ∷ rest) ≡ read_runes s' rest
unfolding read_runes
read_runes-read_one s s' c [] one = rw (one none, read_runes) refl
read_runes-read_one s s' c (d ∷ rest) one = rw (one (some d), read_runes) refl

-- The runes that mean something to the scanner.
is_special : ℕ → Bool
is_special c = c == b'\'' || c == b'"' || c == b'\\' || c == b' ' || c == b'\t' || c == b'\n'

safe_plain : any (λ c. is_special c) safe ≡ false
unfolding is_special
safe_plain = refl

plain_of_safe :
    (chars : Bytes) (c : ℕ)
    → any (λ x. is_special x) chars ≡ false
    → holds_byte c chars ≡ true
    → is_special c ≡ false
unfolding holds_byte is_special
plain_of_safe [] c none_special has = cc
plain_of_safe (x ∷ chars) c none_special has = ground (arith, plain_of_safe chars c)

round-plain :
    (s : Scan) (c : ℕ) (next : Option ℕ)
    → s.quotation ≡ 0
    → is_special c ≡ false
    → round s c next ≡ read_one (record s { cur = s.cur ++ c ∷ []; in_word = true })
unfolding round is_special
round-plain s c next open_ plain = ground arith

-- What a text of plain runes adds to the word.
read_runes-plain :
    (s : Scan) (text rest : Bytes)
    → s.quotation ≡ 0
    → any (λ c. is_special c) text ≡ false
    → read_runes (record s { in_word = true }) (text ++ rest)
      ≡ read_runes (record s { cur = s.cur ++ text; in_word = true }) rest
read_runes-plain s [] rest open_ plain = rw append-nil
read_runes-plain s (c ∷ text) rest open_ plain =
    read_runes-read_one (record s { in_word = true })
      (record s { cur = s.cur ++ c ∷ []; in_word = true }) c (text ++ rest)
      (λ next. round-plain (record s { in_word = true }) c next open_ (ground arith))
    ∙ read_runes-plain (record s { cur = s.cur ++ c ∷ [] }) text rest open_ (ground arith)
    ∙ rw append_assoc

-- Within single quotes every rune but the single stands for itself.
round-within :
    (s : Scan) (c : ℕ) (next : Option ℕ)
    → s.quotation ≡ single
    → c ≢ single
    → round s c next ≡ read_one (record s { cur = s.cur ++ c ∷ [] })
unfolding round
round-within s c next within other = ground arith

-- Within a word, with this much of it read.
abbrev reading : Scan → Bytes → ℕ → Scan
reading s cur quotation = record s { cur = cur; in_word = true; quotation = quotation }

read_runes-quoted_mark :
    (s : Scan) (rest : Bytes)
    → read_runes (record s { in_word = true; quotation = single }) (quoted_mark ++ rest)
      ≡ read_runes
          (record s { cur = s.cur ++ single ∷ []; in_word = true; quotation = single })
          rest
unfolding round
read_runes-quoted_mark s rest =
    let out = reading s s.cur 0 in
    let double = reading s s.cur b'"' in
    let pushed = reading s (s.cur ++ single ∷ []) b'"' in
    let closed = reading s (s.cur ++ single ∷ []) 0 in
    let again = reading s (s.cur ++ single ∷ []) single in
    read_runes-read_one (reading s s.cur single) out single _ (λ next. refl)
    ∙ read_runes-read_one out double b'"' _ (λ next. refl)
    ∙ read_runes-read_one double pushed single _ (λ next. refl)
    ∙ read_runes-read_one pushed closed b'"' _ (λ next. refl)
    ∙ read_runes-read_one closed again single rest (λ next. refl)

read_runes-within :
    (s : Scan) (text rest : Bytes)
    → read_runes
        (record s { in_word = true; quotation = single })
        (replace_byte single quoted_mark text ++ single ∷ rest)
      ≡ read_runes (record s { cur = s.cur ++ text; in_word = true; quotation = 0 }) rest
unfolding replace_byte round
read_runes-within s [] rest =
    read_runes-read_one (reading s s.cur single) (reading s s.cur 0) single rest (λ next. refl)
    ∙ rw append-nil
read_runes-within s (c ∷ text) rest = elim (Bool-cases (c == single)) [
  | inl hit ↦
      (let same : c ≡ single = (nat_eq.same_iff c single).0 hit in
        rw (hit, same)
          (read_runes-quoted_mark s (replace_byte single quoted_mark text ++ single ∷ rest)
            ∙ read_runes-within (record s { cur = s.cur ++ single ∷ [] }) text rest
            ∙ rw append_assoc))
  | inr miss ↦ rw miss (
      read_runes-read_one (reading s s.cur single) (reading s (s.cur ++ c ∷ []) single) c
        (replace_byte single quoted_mark text ++ single ∷ rest)
        (λ next. round-within (reading s s.cur single) c next refl (ground arith))
      ∙ read_runes-within (record s { cur = s.cur ++ c ∷ [] }) text rest
      ∙ rw append_assoc)
]

plain_of_chars :
    (chars text : Bytes)
    → any (λ c. is_special c) chars ≡ false
    → any (λ r. not (holds_byte r chars)) text ≡ false
    → any (λ c. is_special c) text ≡ false
plain_of_chars chars [] none_special e = refl
plain_of_chars chars (c ∷ text) none_special e =
    ground (arith, plain_of_safe chars c none_special, plain_of_chars chars text none_special)

needs_quoting_plain :
    (c : ℕ) (text : Bytes)
    → needs_quoting (c ∷ text) ≡ false
    → any (λ r. not (holds_byte r safe)) (c ∷ text) ≡ false
unfolding needs_quoting
needs_quoting_plain c text e = e

abbrev at_start : List Bytes → Scan
at_start words = record nothing_read { words = words }

or_left : (a b : Bool) → a || b ≡ false → a ≡ false
or_left a b e = ground arith

or_right : (a b : Bool) → a || b ≡ false → b ≡ false
or_right a b e = ground arith

finish-word :
    (words : List Bytes) (a : Bytes)
    → read_runes (reading (at_start words) a 0) [] ≡ ok (words ++ a ∷ [])
unfolding read_runes finish
finish-word words a = refl

quote-nil : quote [] ≡ single ∷ single ∷ []
unfolding quote bytes_beq
quote-nil = refl

quote-plain :
    (c : ℕ) (text : Bytes) → needs_quoting (c ∷ text) ≡ false → quote (c ∷ text) ≡ c ∷ text
unfolding quote bytes_beq
quote-plain c text e = rw e refl

quote-marked :
    (c : ℕ) (text : Bytes)
    → needs_quoting (c ∷ text) ≡ true
    → quote (c ∷ text) ≡ single ∷ replace_byte single quoted_mark (c ∷ text) ++ single ∷ []
unfolding quote bytes_beq
quote-marked c text e = rw e refl

read_runes-quote :
    (s : Scan) (arg rest : Bytes)
    → read_runes (record s { quotation = 0 }) (quote arg ++ rest)
      ≡ read_runes (reading s (s.cur ++ arg) 0) rest
unfolding round
read_runes-quote s [] rest = rw quote-nil (
    read_runes-read_one (record s { quotation = 0 }) (reading s s.cur single) single (single ∷ rest)
      (λ next. refl)
    ∙ read_runes-read_one (reading s s.cur single) (reading s s.cur 0) single rest (λ next. refl)
    ∙ rw append-nil)
read_runes-quote s (c ∷ text) rest = elim (Bool-cases (needs_quoting (c ∷ text))) [
  | inl needs ↦
      rw (quote-marked c text needs, append_assoc)
        (read_runes-read_one (record s { quotation = 0 }) (reading s s.cur single) single
            (replace_byte single quoted_mark (c ∷ text) ++ single ∷ rest) (λ next. refl)
          ∙ read_runes-within s (c ∷ text) rest)
  | inr plain ↦
      let none_special =
        plain_of_chars safe (c ∷ text) safe_plain (needs_quoting_plain c text plain) in
      rw (quote-plain c text plain) (
        read_runes-read_one (record s { quotation = 0 }) (reading s (s.cur ++ c ∷ []) 0) c
          (text ++ rest)
          (λ next.
            round-plain (record s { quotation = 0 }) c next refl
              (or_left (is_special c) _ none_special))
        ∙ read_runes-plain (reading s (s.cur ++ c ∷ []) 0) text rest refl
            (or_right (is_special c) _ none_special)
        ∙ rw append_assoc)
]

read_runes-join :
    (words : List Bytes) (a : Bytes) (args : List Bytes)
    → read_runes (at_start words) (join (b' ' ∷ []) (quote_args (a ∷ args)))
      ≡ ok (words ++ a ∷ args)
unfolding quote_args join round
read_runes-join words a [] =
    ap (read_runes (at_start words)) (sym (append-nil (quote a)))
    ∙ read_runes-quote (at_start words) a []
    ∙ finish-word words a
read_runes-join words a (b ∷ args) =
    read_runes-quote (at_start words) a (b' ' ∷ join (b' ' ∷ []) (quote_args (b ∷ args)))
    ∙ read_runes-read_one (reading (at_start words) a 0) (at_start (words ++ a ∷ [])) b' ' _
        (λ next. refl)
    ∙ read_runes-join (words ++ a ∷ []) b args
    ∙ rw append_assoc

-- The words of what JoinArgs writes are the arguments.
pub split_words-join_args : (args : List Bytes) → split_words (join_args args) ≡ ok args
unfolding split_words join_args
split_words-join_args [] = refl
split_words-join_args (a ∷ args) = read_runes-join [] a args
