-- ===== src/Common/Text.antt =====
-- Go's package strings, on ASCII text as a list of bytes.
use mathlib.Core.Path.{◌≡◌}
use native.Mathlib.Omega.{arith}
use Prim.Native.Nat.{ℕ, ◌+◌, ◌-◌}
use mathlib.Core.List.{reverse, List, [], ◌∷◌, ◌++◌}
use mathlib.Core.Bool.{Bool, true, false, ◌&&◌, ◌||◌}
use mathlib.Core.Option.{Option, none, some}
use caramelo.Common.Tests.{leb, ltb, if◌then◌else◌, Bytes, ◌==◌, nat_eq}
use caramelo.Common.Lists.{any}

-- unicode.IsSpace on the ASCII range: tab, newline, vertical tab, form feed, return, space.
unfoldable pub is_space : ℕ → Bool
is_space c = (leb 9 c && leb c 13) || c == 32

unfoldable pub trim_left : Bytes → Bytes
trim_left [] = []
trim_left (c ∷ s) = if is_space c then trim_left s else c ∷ s

-- strings.TrimSpace of an ASCII text (of others it drops other white space too).
unfoldable pub trim_space : Bytes → Bytes
trim_space s = reverse (trim_left (reverse (trim_left s)))

-- strings.IndexByte, and bytealg.LastIndexByteString.
unfoldable pub index_byte : ℕ → Bytes → Option ℕ
index_byte b [] = none
index_byte b (c ∷ s) =
    if c == b then some 0 else elim (index_byte b s) [ none ↦ none | some i ↦ some (i + 1) ]

unfoldable pub last_index_byte : ℕ → Bytes → Option ℕ
last_index_byte b [] = none
last_index_byte b (c ∷ s) = elim (last_index_byte b s) [
  | some i ↦ some (i + 1)
  | none ↦ if c == b then some 0 else none
]

unfoldable pub holds_byte : ℕ → Bytes → Bool
holds_byte b s = any (λ c. c == b) s

-- strings.ToLower on ASCII.
unfoldable pub to_lower : ℕ → ℕ
to_lower c = if leb b'A' c && leb c b'Z' then c + 32 else c

-- strings.ToUpper on ASCII.
unfoldable pub to_upper : ℕ → ℕ
to_upper c = if leb b'a' c && leb c b'z' then c - 32 else c

-- strings.Cut at the first `b`.
unfoldable pub cut_at : ℕ → Bytes → Option (Bytes × Bytes)
cut_at b [] = none
cut_at b (c ∷ s) =
    if c == b
    then some ([], s)
    else elim (cut_at b s) [ none ↦ none | some (before, after) ↦ some (c ∷ before, after) ]

-- strings.CutPrefix.
unfoldable pub cut_prefix : Bytes → Bytes → Option Bytes
cut_prefix [] s = some s
cut_prefix (p ∷ ps) [] = none
cut_prefix (p ∷ ps) (c ∷ s) = if c == p then cut_prefix ps s else none

-- strings.ReplaceAll of one byte by a text.
unfoldable pub replace_byte : ℕ → Bytes → Bytes → Bytes
replace_byte b new [] = []
replace_byte b new (c ∷ s) = (if c == b then new else c ∷ []) ++ replace_byte b new s

-- strings.ContainsAny.
unfoldable pub contains_any : Bytes → Bytes → Bool
unfolding holds_byte
contains_any chars s = any (λ c. holds_byte c chars) s

-- strings.Join.
unfoldable pub join : Bytes → List Bytes → Bytes
join sep [] = []
join sep (s ∷ []) = s
join sep (s ∷ t ∷ ts) = s ++ (sep ++ join sep (t ∷ ts))

-- Go's `<` on strings.
unfoldable pub bytes_ltb : Bytes → Bytes → Bool
bytes_ltb s [] = false
bytes_ltb [] (y ∷ ys) = true
bytes_ltb (x ∷ xs) (y ∷ ys) = ltb x y || (x == y && bytes_ltb xs ys)

pub cut_at-append :
    (b : ℕ) (s rest : Bytes) → holds_byte b s ≡ false → cut_at b (s ++ b ∷ rest) ≡ some (s, rest)
unfolding cut_at holds_byte
cut_at-append b [] rest e = ground arith
cut_at-append b (c ∷ s) rest e = rw (cut_at-append b s rest (ground arith)) (ground arith)
