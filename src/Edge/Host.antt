-- ===== src/Edge/Host.antt =====
-- NormalizeHost of internal/edge/edge.go, over the bytes of an ASCII host name.
use caramelo.Common.{
  ℕ, ◌+◌, ◌≡◌, refl, ◌||◌, [], ◌∷◌, map, Option, none, some, ◌==◌, nat_eq, bytes_eq, Bytes,
  bytes_beq, codes, trim_space, trim_left, is_space, index_byte, last_index_byte, holds_byte,
  to_lower, if◌then◌else◌, take, drop,
}

-- The host that net.SplitHostPort splits off; `none` is any of its errors.
split_bracketed : Bytes → ℕ → Option Bytes
unfolding holds_byte
split_bracketed s i = elim (index_byte b']' s) [
  | none ↦ none
  | some end ↦
      if end + 1 == i
      then (if holds_byte b'[' (drop 1 s) || holds_byte b']' (drop (end + 1) s)
          then none
          else some (drop 1 (take end s)))
      else none
]

split_plain : Bytes → ℕ → Option Bytes
unfolding holds_byte
split_plain s i =
    if holds_byte b':' (take i s) || holds_byte b'[' s || holds_byte b']' s
    then none
    else some (take i s)

unfoldable pub split_host_port : Bytes → Option Bytes
unfolding split_bracketed split_plain last_index_byte index_byte
split_host_port s = elim (last_index_byte b':' s) [
  | none ↦ none
  | some i ↦ (if bytes_beq (take 1 s) (b'[' ∷ []) then split_bracketed s i else split_plain s i)
]

-- strings.TrimSuffix(s, ".").
unfoldable pub trim_dot : Bytes → Bytes
trim_dot [] = []
trim_dot (c ∷ []) = if c == b'.' then [] else c ∷ []
trim_dot (c ∷ d ∷ s) = c ∷ trim_dot (d ∷ s)

strip_port : Bytes → Bytes
unfolding split_host_port
strip_port s = elim (split_host_port s) [ none ↦ s | some h ↦ h ]

normalize_trimmed : Bytes → Bytes
unfolding strip_port trim_dot to_lower
normalize_trimmed [] = []
normalize_trimmed (c ∷ s) = map to_lower (trim_dot (strip_port (c ∷ s)))

unfoldable pub normalize_host : Bytes → Bytes
unfolding normalize_trimmed trim_space trim_left is_space bytes_beq
normalize_host s = normalize_trimmed (trim_space s)

plain_host : normalize_host (codes " Shop.Example.COM.:443 ") ≡ codes "shop.example.com"
unfolding normalize_host
plain_host = refl

bracketed_host : normalize_host (codes "[::1]:80") ≡ codes "::1"
unfolding normalize_host
bracketed_host = refl
