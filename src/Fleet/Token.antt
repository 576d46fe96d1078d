-- ===== src/Fleet/Token.antt =====
-- The join tokens of internal/fleet/token.go. The hash of a secret, which is SHA-256 in hexadecimal,
-- is a parameter.
use caramelo.Common.{
  trim_space, ℕ, ◌+◌, ◌*◌, ◌≤◌, ◌≡◌, Bool, true, false, not, ◌&&◌, ◌||◌, [], ◌∷◌, Option, none,
  some, arith, ◌==◌, nat_eq, Bytes, if◌then◌else◌, ltb,
}

-- Nanoseconds; a time of 0 is Go's zero time.
abbrev pub token_ttl : ℕ
token_ttl = 3600 * 1_000_000_000

abbrev pub max_token_ttl : ℕ
max_token_ttl = 24 * 3600 * 1_000_000_000

pub record Token : Type 0 where
  pub hash : Bytes
  pub created_by : Bytes
  pub created_at : ℕ
  pub expires_at : ℕ
  pub used_by : Bytes
  pub used_at : ℕ

pub data TokenError : Type 0 where
  token_unknown token_used token_expired : TokenError
  needs_secret ttl_too_long : TokenError

unfoldable pub is_empty : Bytes → Bool
is_empty [] = true
is_empty (c ∷ s) = false

unfoldable pub used : Token → Bool
used t = not (is_empty t.used_by) || not (t.used_at == 0)

unfoldable pub expired : ℕ → Token → Bool
expired now t = not (t.expires_at == 0) && not (ltb now t.expires_at)

-- `none` is Go's nil error.
unfoldable pub check : ℕ → Token → Option TokenError
unfolding used expired is_empty
check now t =
    if is_empty t.hash
    then some token_unknown
    else if used t
    then some token_used
    else if expired now t
    then some token_expired
    else none

pub data Made : Type 0 where
  made : Token → Made
  refused : TokenError → Made

minted : Bytes → Bytes → ℕ → ℕ → Token
minted hash by now ttl = record {
  hash = hash;
  created_by = by;
  created_at = now;
  expires_at = now + ttl;
  used_by = [];
  used_at = 0;
}

-- A lifetime is 0 or above: Go refuses a negative one.
unfoldable pub new_token : (Bytes → Bytes) → Bytes → Bytes → ℕ → ℕ → Made
unfolding minted is_empty
new_token hash secret by now ttl =
    if is_empty (trim_space secret)
    then refused needs_secret
    else if ttl == 0
    then made (minted (hash (trim_space secret)) by now token_ttl)
    else if ltb max_token_ttl ttl
    then refused ttl_too_long
    else made (minted (hash (trim_space secret)) by now ttl)

-- The lifetime that is asked for, or an hour.
abbrev pub lifetime : ℕ → ℕ
lifetime ttl = if ttl == 0 then token_ttl else ttl

-- With a hash that is never empty, a token made now is good exactly while its lifetime, an hour if
-- none is asked for and never over a day, has not passed, and is refused as expired from then on.
pub check-new_token :
    (hash : Bytes → Bytes) (secret by : Bytes) (now ttl later : ℕ) (t : Token)
    → ((s : Bytes) → is_empty (hash s) ≡ false)
    → new_token hash secret by now ttl ≡ made t
    → (lifetime ttl ≤ max_token_ttl)
      × (check later t ≡ (if ltb later (now + lifetime ttl) then none else some token_expired))
unfolding new_token check minted used expired is_empty
check-new_token hash secret by now ttl later t hashed e =
    ground (arith, hashed (trim_space secret), e)
