-- ===== src/Tests/Quote.antt =====
-- internal/remote/quote.go on concrete arguments.
use caramelo.Common.{◌≡◌, refl, List, [], ◌∷◌, codes, Bytes, bytes_beq, holds_byte}
use caramelo.Remote.Quote.{
  quote, join_args, split_words, ok, failed, unterminated_quote, trailing_backslash,
}
use caramelo.Remote.Quote.RoundTrip.{split_words-join_args}

abbrev words : List Bytes
words = codes "echo" ∷ codes "it's" ∷ [] ∷ codes "a b" ∷ []

joined : join_args words ≡ codes "echo 'it'\"'\"'s' '' 'a b'"
unfolding join_args quote bytes_beq holds_byte
joined = refl

open_quote : split_words (codes "a 'b") ≡ failed unterminated_quote
unfolding split_words
open_quote = refl

last_backslash : split_words (codes "a\\") ≡ failed trailing_backslash
unfolding split_words
last_backslash = refl

split_words-join_args_example : split_words (join_args words) ≡ ok words
split_words-join_args_example = split_words-join_args words
