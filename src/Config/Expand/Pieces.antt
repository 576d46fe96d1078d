-- ===== src/Config/Expand/Pieces.antt =====
-- What a text with references expands to, piece by piece (internal/config/expand.go).
use caramelo.Common.{
  ℕ, zero, suc, ◌≤◌, ◌≡◌, ◌≢◌, refl, sym, ap, ◌∙◌, inl, inr, true, false, List, [], ◌∷◌, ◌++◌,
  arith, ◌==◌, nat_eq, Bytes, holds_byte, length, length-append, cut_at-append, replace_byte,
  Bool-cases,
}
use caramelo.Config.Expand.{
  Expanded, ok, failed, Answer, value, unknown, refused, before, write_answer, map_from, map_refs,
  known, lookup_ref, ExpandContext, expand_string,
}

-- A byte that is no dollar, a dollar that is written twice, one that is written once, a reference.
pub data Piece : Type 0 where
  plain : ℕ → Piece
  dollar lone_dollar : Piece
  reference : Bytes → Piece

unfoldable pub show : List Piece → Bytes
show [] = []
show (plain c ∷ ps) = c ∷ show ps
show (dollar ∷ ps) = b'$' ∷ b'$' ∷ show ps
show (lone_dollar ∷ ps) = b'$' ∷ show ps
show (reference name ∷ ps) = b'$' ∷ b'{' ∷ name ++ b'}' ∷ show ps

-- What may follow a dollar that stands for itself.
Follows : Bytes → Type 0
Follows [] = Unit
Follows (c ∷ s) = (c ≢ b'$') × (c ≢ b'{')

unfoldable pub Readable : List Piece → Type 0
unfolding Follows
Readable [] = Unit
Readable (plain c ∷ ps) = (c ≢ b'$') × Readable ps
Readable (dollar ∷ ps) = Readable ps
Readable (lone_dollar ∷ ps) = Follows (show ps) × Readable ps
Readable (reference name ∷ ps) = (holds_byte b'}' name ≡ false) × Readable ps

-- A text before what comes after it, unless that is an error.
abbrev pub joined : Bytes → Expanded Bytes → Expanded Bytes
joined s (ok t) = ok (s ++ t)
joined s (failed e) = failed e

abbrev pub answered : Bytes → Answer → Expanded Bytes → Expanded Bytes
answered name (value v) rest = joined v rest
answered name unknown rest = joined (show (reference name ∷ [])) rest
answered name (refused e) rest = failed e

unfoldable pub meaning : (Bytes → Answer) → List Piece → Expanded Bytes
meaning f [] = ok []
meaning f (plain c ∷ ps) = joined (c ∷ []) (meaning f ps)
meaning f (dollar ∷ ps) = joined (b'$' ∷ []) (meaning f ps)
meaning f (lone_dollar ∷ ps) = joined (b'$' ∷ []) (meaning f ps)
meaning f (reference name ∷ ps) = answered name (f name) (meaning f ps)

before-joined : (s : Bytes) (rest : Expanded Bytes) → before s rest ≡ joined s rest
unfolding before
before-joined s (ok t) = refl
before-joined s (failed e) = refl

write_answer-answered :
    (name : Bytes) (a : Answer) (rest : Expanded Bytes)
    → write_answer name a rest ≡ answered name a rest
unfolding write_answer show
write_answer-answered name (value v) rest = before-joined v rest
write_answer-answered name unknown rest = before-joined (b'$' ∷ b'{' ∷ name ++ b'}' ∷ []) rest
write_answer-answered name (refused e) rest = refl

module _ (f : Bytes → Answer) where
  map_from-plain :
      (n c : ℕ) (s : Bytes)
      → c ≢ b'$'
      → map_from f (suc n) (c ∷ s) ≡ before (c ∷ []) (map_from f n s)
  unfolding map_from
  map_from-plain n c [] e = refl
  map_from-plain n c (d ∷ s) e = ground arith

  map_from-lone :
      (n : ℕ) (s : Bytes)
      → Follows s
      → map_from f (suc n) (b'$' ∷ s) ≡ before (b'$' ∷ []) (map_from f n s)
  unfolding map_from Follows
  map_from-lone n [] e = refl
  map_from-lone n (d ∷ s) e = ground (arith, e.0, e.1)

  map_from-reference :
      (n : ℕ) (name s : Bytes)
      → holds_byte b'}' name ≡ false
      → map_from f (suc n) (b'$' ∷ b'{' ∷ name ++ b'}' ∷ s)
        ≡ write_answer name (f name) (map_from f n s)
  unfolding map_from
  map_from-reference n name s e = rw (cut_at-append b'}' name s e) refl

  -- A round for each byte is enough.
  map_from-show :
      (n : ℕ) (ps : List Piece)
      → Readable ps
      → length (show ps) ≤ n
      → map_from f n (show ps) ≡ meaning f ps
  unfolding show Readable meaning map_from
  map_from-show n [] h enough = refl
  map_from-show zero (plain c ∷ ps) h enough = absurd (omega (arith, enough))
  map_from-show zero (dollar ∷ ps) h enough = absurd (omega (arith, enough))
  map_from-show zero (lone_dollar ∷ ps) h enough = absurd (omega (arith, enough))
  map_from-show zero (reference name ∷ ps) h enough = absurd (omega (arith, enough))
  map_from-show (suc n) (plain c ∷ ps) h enough =
      map_from-plain n c (show ps) h.0
      ∙ before-joined (c ∷ []) (map_from f n (show ps))
      ∙ ap (joined (c ∷ [])) (map_from-show n ps h.1 (omega (arith, enough)))
  map_from-show (suc n) (dollar ∷ ps) h enough =
      before-joined (b'$' ∷ []) (map_from f n (show ps))
      ∙ ap (joined (b'$' ∷ [])) (map_from-show n ps h (omega (arith, enough)))
  map_from-show (suc n) (lone_dollar ∷ ps) h enough =
      map_from-lone n (show ps) h.0
      ∙ before-joined (b'$' ∷ []) (map_from f n (show ps))
      ∙ ap (joined (b'$' ∷ [])) (map_from-show n ps h.1 (omega (arith, enough)))
  map_from-show (suc n) (reference name ∷ ps) h enough =
      map_from-reference n name (show ps) h.0
      ∙ write_answer-answered name (f name) (map_from f n (show ps))
      ∙ ap (answered name (f name))
          (map_from-show n ps h.1 (omega (arith, enough, length-append name (b'}' ∷ show ps))))

  map_from-no_dollar :
      (n : ℕ) (s : Bytes) → holds_byte b'$' s ≡ false → length s ≤ n → map_from f n s ≡ ok s
  unfolding map_from holds_byte before
  map_from-no_dollar n [] e enough = refl
  map_from-no_dollar zero (c ∷ s) e enough = absurd (omega (arith, enough))
  map_from-no_dollar (suc n) (c ∷ s) e enough =
      map_from-plain n c s (ground arith)
      ∙ ap (before (c ∷ [])) (map_from-no_dollar n s (ground arith) (omega (arith, enough)))

  -- Of a text of bytes that are no dollar, of dollars written twice, of dollars that neither a dollar
  -- nor a brace follows, and of references, mapRefs writes the bytes, a dollar for each of the
  -- others, and for a reference its value, or the reference as it is if nothing is known of it. At
  -- the first reference that is refused it gives that error.
  pub map_refs-show : (ps : List Piece) → Readable ps → map_refs f (show ps) ≡ meaning f ps
  unfolding map_refs
  map_refs-show ps h =
      let run = map_from-show (length (show ps)) ps h (omega arith) in
      elim (Bool-cases (holds_byte b'$' (show ps))) [
        | inl has ↦ rw (has, map_refs) run
        | inr none_in ↦
            rw (none_in, map_refs)
              (sym (map_from-no_dollar (length (show ps)) (show ps) none_in (omega arith)) ∙ run)
      ]

-- A text with each dollar written twice.
unfoldable pub escape : Bytes → Bytes
escape s = replace_byte b'$' (b'$' ∷ b'$' ∷ []) s

escaped : Bytes → List Piece
escaped [] = []
escaped (c ∷ s) = elim (c == b'$') [ true ↦ dollar | false ↦ plain c ] ∷ escaped s

show-escaped : (s : Bytes) → show (escaped s) ≡ escape s
unfolding show escaped escape replace_byte
show-escaped [] = refl
show-escaped (c ∷ s) = elim (Bool-cases (c == b'$')) [
  | inl same ↦ rw (same, show-escaped s) refl
  | inr differ ↦ rw (differ, show-escaped s) refl
]

escaped-Readable : (s : Bytes) → Readable (escaped s)
unfolding Readable escaped
escaped-Readable [] = tt
escaped-Readable (c ∷ s) = elim (Bool-cases (c == b'$')) [
  | inl same ↦ rw same (escaped-Readable s)
  | inr differ ↦ rw differ (ground arith, escaped-Readable s)
]

meaning-escaped : (f : Bytes → Answer) (s : Bytes) → meaning f (escaped s) ≡ ok s
unfolding meaning escaped
meaning-escaped f [] = refl
meaning-escaped f (c ∷ s) = elim (Bool-cases (c == b'$')) [
  | inl same ↦
      (let eq : c ≡ b'$' = (nat_eq.same_iff c b'$').0 same in
        rw (same, meaning-escaped f s, eq) refl)
  | inr differ ↦ rw (differ, meaning-escaped f s) refl
]

-- A text in which each dollar is written twice expands to the text itself, in every context.
pub expand_string-escape : (s : Bytes) (c : ExpandContext) → expand_string (escape s) c ≡ ok s
unfolding expand_string
expand_string-escape s c =
    let f : Bytes → Answer = λ ref. known ref (lookup_ref c ref) in
    ap (map_refs f) (sym (show-escaped s))
    ∙ map_refs-show f (escaped s) (escaped-Readable s)
    ∙ meaning-escaped f s
