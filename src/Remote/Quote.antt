-- ===== src/Remote/Quote.antt =====
-- internal/remote/quote.go: arguments quoted for a shell, and split again. A string is the list of
-- its runes.
pub mod RoundTrip
use caramelo.Common.{
  ℕ, Bool, true, false, not, ◌&&◌, ◌||◌, List, [], ◌∷◌, ◌++◌, map, Option, none, some, ◌==◌, nat_eq,
  bytes_eq, Bytes, codes, if◌then◌else◌, any, holds_byte, replace_byte, join,
}

abbrev pub safe : Bytes
safe = codes "abcdefghijklmnopqrstuvwxyzABCDEFGHIJKLMNOPQRSTUVWXYZ0123456789@%_-+=:,./"

unfoldable pub needs_quoting : Bytes → Bool
unfolding holds_byte
needs_quoting s = any (λ r. not (holds_byte r safe)) s

-- The quotation single of the shell, and one that stands within quotes.
abbrev pub single : ℕ
single = b'\''

abbrev pub quoted_mark : Bytes
quoted_mark = b'\'' ∷ b'"' ∷ b'\'' ∷ b'"' ∷ b'\'' ∷ []

unfoldable pub quote : Bytes → Bytes
unfolding needs_quoting replace_byte
quote s =
    if s == []
    then single ∷ single ∷ []
    else if not (needs_quoting s)
    then s
    else single ∷ replace_byte single quoted_mark s ++ single ∷ []

unfoldable pub quote_args : List Bytes → List Bytes
unfolding quote
quote_args args = map quote args

unfoldable pub join_args : List Bytes → Bytes
unfolding quote_args join
join_args args = join (b' ' ∷ []) (quote_args args)

-- The variables of SplitWords; the rune 0 stands for no quotation.
pub record Scan : Type 0 where
  pub words : List Bytes
  pub cur : Bytes
  pub in_word : Bool
  pub quotation : ℕ

pub data SplitError : Type 0 where
  trailing_backslash unterminated_quote : SplitError

pub data Split : Type 0 where
  ok : List Bytes → Split
  failed : SplitError → Split

-- What one round does: it reads one rune, or the next one too, or gives up.
pub data Round : Type 0 where
  read_one read_two : Scan → Round
  give_up : SplitError → Round

push : ℕ → Scan → Scan
push c s = record s { cur = s.cur ++ c ∷ [] }

push_word : ℕ → Scan → Scan
unfolding push
push_word c s = record (push c s) { in_word = true }

end_word : Scan → Scan
end_word s =
    if s.in_word then record s { words = s.words ++ s.cur ∷ []; cur = []; in_word = false } else s

in_quotes : Scan → ℕ → Option ℕ → Round
unfolding push
in_quotes s c next =
    if c == s.quotation
    then read_one (record s { quotation = 0 })
    else if c == b'\\' && s.quotation == b'"'
    then elim next [ none ↦ read_one (push c s) | some d ↦ read_two (push d s) ]
    else read_one (push c s)

outside : Scan → ℕ → Option ℕ → Round
unfolding push_word end_word
outside s c next =
    if c == b'\'' || c == b'"'
    then read_one (record s { quotation = c; in_word = true })
    else if c == b'\\'
    then elim next [ none ↦ give_up trailing_backslash | some d ↦ read_two (push_word d s) ]
    else if c == b' ' || c == b'\t' || c == b'\n'
    then read_one (end_word s)
    else read_one (push_word c s)

unfoldable pub round : Scan → ℕ → Option ℕ → Round
unfolding in_quotes outside
round s c next = if not (s.quotation == 0) then in_quotes s c next else outside s c next

unfoldable pub finish : Scan → Split
unfolding end_word
finish s = if not (s.quotation == 0) then failed unterminated_quote else ok (end_word s).words

unfoldable pub read_runes : Scan → Bytes → Split
read_runes s [] = finish s
read_runes s (c ∷ []) = elim (round s c none) [
  | read_one s' ↦ finish s'
  | read_two s' ↦ finish s'
  | give_up e ↦ failed e
]
read_runes s (c ∷ d ∷ rest) = elim (round s c (some d)) [
  | read_one s' ↦ read_runes s' (d ∷ rest)
  | read_two s' ↦ read_runes s' rest
  | give_up e ↦ failed e
]

abbrev pub nothing_read : Scan
nothing_read = record { words = []; cur = []; in_word = false; quotation = 0 }

unfoldable pub split_words : Bytes → Split
unfolding read_runes round finish
split_words s = read_runes nothing_read s
