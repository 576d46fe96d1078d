-- ===== src/Vault/Dotenv/Texts.antt =====
-- What is trimmed from a text, and where it is cut (internal/vault/envfile.go).
use mathlib.Core.List.{append_assoc, reverse, reverse-append, reverse-reverse}
use caramelo.Common.{
  ℕ, ◌≡◌, refl, sym, ap, ◌∙◌, false, ◌||◌, [], ◌∷◌, ◌++◌, some, arith, nat_eq, Bytes, any,
  holds_byte, trim_space, trim_left, is_space, replace_byte,
}
use caramelo.Vault.Dotenv.{split_last, onto_first, split_byte, trim_last}

-- A text with no space at its start, and one with none at its end.
abbrev pub Starts : Bytes → Type 0
Starts s = (c : ℕ) × (rest : Bytes) × (s ≡ c ∷ rest) × (is_space c ≡ false)

abbrev pub Ends : Bytes → Type 0
Ends s = (before : Bytes) × (c : ℕ) × (s ≡ before ++ c ∷ []) × (is_space c ≡ false)

trim_left-Starts : (s : Bytes) → Starts s → trim_left s ≡ s
unfolding trim_left
trim_left-Starts s (c, rest, e, solid) = rw (e, solid) refl

reverse-Ends : (s : Bytes) → Ends s → Starts (reverse s)
reverse-Ends s (before, c, e, solid) =
    (c, reverse before, ap reverse e ∙ reverse-append before (c ∷ []), solid)

pub trim_space-kept : (s : Bytes) → Starts s → Ends s → trim_space s ≡ s
unfolding trim_space
trim_space-kept s starts ends =
    rw (trim_left-Starts s starts, trim_left-Starts (reverse s) (reverse-Ends s ends))
      (reverse-reverse s)

pub Ends-append : (s t : Bytes) → Ends t → Ends (s ++ t)
Ends-append s t (before, c, e, solid) =
    (s ++ before, c, ap (λ u. s ++ u) e ∙ sym (append_assoc s before (c ∷ [])), solid)

pub any-Ends : (c : ℕ) (s : Bytes) → any (λ x. is_space x) (c ∷ s) ≡ false → Ends (c ∷ s)
any-Ends c [] e = ([], c, refl, ground arith)
any-Ends c (d ∷ s) e = Ends-append (c ∷ []) (d ∷ s) (any-Ends d s (ground arith))

pub any-Starts : (c : ℕ) (s : Bytes) → any (λ x. is_space x) (c ∷ s) ≡ false → Starts (c ∷ s)
any-Starts c s e = (c, s, refl, ground arith)

pub trim_space-none :
    (c : ℕ) (s : Bytes) → any (λ x. is_space x) (c ∷ s) ≡ false → trim_space (c ∷ s) ≡ c ∷ s
trim_space-none c s e = trim_space-kept (c ∷ s) (any-Starts c s e) (any-Ends c s e)

pub split_last-append : (s : Bytes) (c : ℕ) → split_last (s ++ c ∷ []) ≡ some (s, c)
unfolding split_last
split_last-append [] c = refl
split_last-append (x ∷ s) c = rw (split_last-append s c) refl

pub split_last-some : (c : ℕ) (s : Bytes) → (p : Bytes × ℕ) × (split_last (c ∷ s) ≡ some p)
unfolding split_last
split_last-some c [] = (([], c), refl)
split_last-some c (d ∷ s) =
    let rest = split_last-some d s in ((c ∷ rest.0.0, rest.0.1), rw rest.1 refl)

pub trim_last-Ends : (s : Bytes) → Ends s → trim_last b'\r' s ≡ s
unfolding trim_last is_space
trim_last-Ends s (before, c, e, solid) =
    rw (e, trim_last, split_last-append before c) (ground arith)

pub holds_byte-append :
    (b : ℕ) (s t : Bytes) → holds_byte b (s ++ t) ≡ (holds_byte b s || holds_byte b t)
unfolding holds_byte
holds_byte-append b [] t = refl
holds_byte-append b (c ∷ s) t = ground (arith, holds_byte-append b s t)

pub split_byte-append :
    (b : ℕ) (s rest : Bytes)
    → holds_byte b s ≡ false
    → split_byte b (s ++ b ∷ rest) ≡ s ∷ split_byte b rest
unfolding split_byte holds_byte onto_first
split_byte-append b [] rest e = ground arith
split_byte-append b (c ∷ s) rest e = rw (split_byte-append b s rest (ground arith)) (ground arith)

pub replace_byte-none : (b : ℕ) (new s : Bytes) → holds_byte b s ≡ false → replace_byte b new s ≡ s
unfolding replace_byte holds_byte
replace_byte-none b new [] e = refl
replace_byte-none b new (c ∷ s) e = rw (replace_byte-none b new s (ground arith)) (ground arith)
