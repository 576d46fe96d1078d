-- ===== src/Vault.antt =====
-- internal/vault: the names and values of secrets, and the files they are written to and read from.
pub mod Dotenv
pub mod Resolve
use caramelo.Common.{
  ℕ, ◌+◌, Bool, true, false, not, ◌&&◌, ◌||◌, List, [], ◌∷◌, Option, none, some, ◌==◌, nat_eq,
  bytes_eq, Bytes, if◌then◌else◌, ltb, leb, length,
}

abbrev pub max_name_len : ℕ
max_name_len = 128

abbrev pub max_value_len : ℕ
max_value_len = 65536

pub data NameError : Type 0 where
  no_name : NameError
  name_too_long starts_with_digit : Bytes → NameError
  has_character : Bytes → ℕ → NameError

unfoldable pub is_digit : ℕ → Bool
is_digit r = leb b'0' r && leb r b'9'

unfoldable pub is_upper : ℕ → Bool
is_upper r = leb b'A' r && leb r b'Z' || r == b'_'

-- The loop over the name's characters, from the i-th on.
unfoldable pub check_characters : Bytes → ℕ → Bytes → Option NameError
unfolding is_digit is_upper
check_characters name i [] = none
check_characters name i (r ∷ rs) =
    let rest = check_characters name (i + 1) rs in
    if is_upper r || is_digit r && ltb 0 i
    then rest
    else if i == 0 && is_digit r
    then some (starts_with_digit name)
    else some (has_character name r)

unfoldable pub validate_name : Bytes → Option NameError
unfolding check_characters
validate_name name =
    if name == []
    then some no_name
    else if ltb max_name_len (length name)
    then some (name_too_long name)
    else check_characters name 0 name

-- Whether ValidateValue takes the value.
unfoldable pub value_fits : Bytes → Bool
value_fits value = not (ltb max_value_len (length value))
