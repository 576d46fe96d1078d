-- ===== src/Vault/Dotenv/RoundTrip.antt =====
-- ParseDotenv reads what Render writes (internal/vault/envfile.go).
use mathlib.Core.List.{append_assoc, append-nil}
use caramelo.Common.{
  ℕ, ◌+◌, not, ltb, ◌≡◌, ◌≢◌, refl, sym, ap, ◌∙◌, inl, inr, Bool, true, false, List, [], ◌∷◌, ◌++◌,
  Option, none, some, arith, ◌==◌, nat_eq, bytes_eq, bytes_beq, Bytes, if◌then◌else◌, any, All,
  holds_byte, contains_any, trim_space, trim_left, Bool-cases, lookup, insert, lookup-insert,
  bytes_ltb,
}
use caramelo.Vault.{validate_name, value_fits}
use caramelo.Vault.Dotenv.{
  Values, ok, split_last, split_byte, trim_last, add_pair, read_line, parse_lines, parse_dotenv,
  shell_quote, sort_in, sorted, write_lines, render_env,
}
use caramelo.Vault.Dotenv.Texts.{split_byte-append}
use caramelo.Vault.Dotenv.Pairs.{is_awkward}
use caramelo.Vault.Dotenv.Lines.{written_line, read_line-line, line-one_line}

-- A secret that a line carries over.
pub record Portable (p : Bytes × Bytes) : Type 0 where
  pub valid : validate_name p.0 ≡ none
  pub tame : any (λ c. is_awkward c) p.1 ≡ false
  pub short : value_fits p.1 ≡ true
  pub ascii : any (λ c. not (ltb c 128)) p.1 ≡ false

-- Each name once.
abbrev pub Distinct : Values → Type 0
Distinct [] = Unit
Distinct (p ∷ ps) = All (λ (q : Bytes × Bytes). p.0 ≢ q.0) ps × Distinct ps

module _ (P : Bytes × Bytes → Type 0) where
  sort_in-All : (p : Bytes × Bytes) (ps : Values) → P p → All P ps → All P (sort_in p ps)
  unfolding sort_in
  sort_in-All p [] h hs = (h, tt)
  sort_in-All p (q ∷ qs) h hs = elim (Bool-cases (bytes_ltb q.0 p.0)) [
    | inl later ↦ rw later (hs.0, sort_in-All p qs h hs.1)
    | inr first ↦ rw first (h, hs)
  ]

  sorted-All : (ps : Values) → All P ps → All P (sorted ps)
  unfolding sorted
  sorted-All [] hs = tt
  sorted-All (p ∷ ps) hs = sort_in-All p (sorted ps) hs.0 (sorted-All ps hs.1)

sort_in-Distinct : (p : Bytes × Bytes) (ps : Values) → Distinct (p ∷ ps) → Distinct (sort_in p ps)
unfolding sort_in
sort_in-Distinct p [] d = (tt, tt)
sort_in-Distinct p (q ∷ qs) d = elim (Bool-cases (bytes_ltb q.0 p.0)) [
  | inl later ↦ rw later (
    sort_in-All (λ r. q.0 ≢ r.0) p qs (λ e. d.0.0 (sym e)) d.1.0,
    sort_in-Distinct p qs (d.0.1, d.1.1),
  )
  | inr first ↦ rw first d
]

sorted-Distinct : (ps : Values) → Distinct ps → Distinct (sorted ps)
unfolding sorted
sorted-Distinct [] d = tt
sorted-Distinct (p ∷ ps) d =
    sort_in-Distinct p (sorted ps) (sorted-All (λ r. p.0 ≢ r.0) ps d.0, sorted-Distinct ps d.1)

lines_text : Values → Bytes
lines_text [] = []
lines_text (p ∷ ps) = written_line p.0 p.1 ++ b'\n' ∷ lines_text ps

tame-contains_any :
    (v : Bytes) → any (λ c. is_awkward c) v ≡ false → contains_any (b'\n' ∷ b'\r' ∷ []) v ≡ false
unfolding contains_any is_awkward holds_byte
tame-contains_any [] e = refl
tame-contains_any (c ∷ v) e = ground (arith, tame-contains_any v)

write_lines-Portable :
    (ps : Values) → All Portable ps → write_lines shell_quote ps ≡ ok (lines_text ps)
unfolding write_lines lines_text
write_lines-Portable [] h = refl
write_lines-Portable ((name, v) ∷ ps) h =
    rw (tame-contains_any v h.0.tame, write_lines, write_lines-Portable ps h.1) refl

insert-fresh :
    (name v : Bytes) (out : Values)
    → lookup name out ≡ none
    → insert name v out ≡ out ++ (name, v) ∷ []
unfolding lookup insert
insert-fresh name v [] e = refl
insert-fresh name v ((other, w) ∷ out) e = elim (Bool-cases (other == name)) [
  | inl same ↦ (let stuck = rw same at e in cc)
  | inr differ ↦
      rw differ (ap (λ (r : Values). (other, w) ∷ r) (insert-fresh name v out (rw differ at e)))
]

abbrev Unset : Values → Values → Type 0
Unset out = All (λ (q : Bytes × Bytes). lookup q.0 out ≡ none)

if_other : (b : Bool) (x y : Option Bytes) → (b ≡ true → ⊥) → (if b then x else y) ≡ y
if_other true x y differ = absurd (differ refl)
if_other false x y differ = refl

Unset-insert :
    (name v : Bytes) (out rest : Values)
    → All (λ (q : Bytes × Bytes). name ≢ q.0) rest
    → Unset out rest
    → Unset (insert name v out) rest
Unset-insert name v out [] apart fresh = tt
Unset-insert name v out (q ∷ rest) apart fresh = (
  lookup-insert name q.0 v out
      ∙ if_other (name == q.0) (some v) (lookup q.0 out)
          (λ e. apart.0 ((bytes_eq.same_iff name q.0).0 e))
      ∙ fresh.0,
  Unset-insert name v out rest apart.1 fresh.1,
)

empty_line : (out : Values) → read_line out [] ≡ ok out
unfolding read_line trim_last split_last trim_space trim_left bytes_beq
empty_line out = refl

add_pair-fresh :
    (out : Values) (name v : Bytes)
    → lookup name out ≡ none
    → value_fits v ≡ true
    → add_pair out (ok (name, v)) ≡ ok (insert name v out)
unfolding add_pair
add_pair-fresh out name v new short = rw (new, add_pair, short) refl

parse_lines-round :
    (i : ℕ) (out next : Values) (raw : Bytes) (raws : List Bytes)
    → read_line out raw ≡ ok next
    → parse_lines i out (raw ∷ raws) ≡ parse_lines (i + 1) next raws
unfolding parse_lines
parse_lines-round i out next raw raws e = rw (e, parse_lines) refl

last_lines : (i : ℕ) (out : Values) → parse_lines i out ([] ∷ []) ≡ ok out
unfolding parse_lines
last_lines i out = rw (empty_line out, parse_lines) refl

parse_lines-lines_text :
    (i : ℕ) (out ps : Values)
    → All Portable ps
    → Distinct ps
    → Unset out ps
    → parse_lines i out (split_byte b'\n' (lines_text ps)) ≡ ok (out ++ ps)
unfolding lines_text split_byte
parse_lines-lines_text i out [] h d fresh =
    last_lines i out ∙ ap (λ (r : Values). ok r) (sym (append-nil out))
parse_lines-lines_text i out ((name, v) ∷ ps) h d fresh =
    let line = written_line name v in
    ap (parse_lines i out)
      (split_byte-append b'\n' line (lines_text ps) (line-one_line name v h.0.valid h.0.tame))
    ∙ parse_lines-round i out (insert name v out) line (split_byte b'\n' (lines_text ps))
        (read_line-line out name v h.0.valid h.0.tame ∙ add_pair-fresh out name v fresh.0 h.0.short)
    ∙ parse_lines-lines_text (i + 1) (insert name v out) ps h.1 d.1
        (Unset-insert name v out ps d.0 fresh.1)
    ∙ ap (λ (r : Values). ok (r ++ ps)) (insert-fresh name v out fresh.0)
    ∙ ap (λ (r : Values). ok r) (append_assoc out ((name, v) ∷ []) ps)

fresh_at_first : (ps : Values) → Unset [] ps
unfolding lookup
fresh_at_first [] = tt
fresh_at_first (p ∷ ps) = (refl, fresh_at_first ps)

pub parse_dotenv-render_env :
    (values : Values)
    → All Portable values
    → Distinct values
    → (text : Bytes) × (render_env values ≡ ok text) × (parse_dotenv text ≡ ok (sorted values))
unfolding render_env parse_dotenv
parse_dotenv-render_env values h d =
    let kept = sorted-All Portable values h in
    (
      lines_text (sorted values),
      write_lines-Portable (sorted values) kept,
      parse_lines-lines_text 0 [] (sorted values) kept (sorted-Distinct values d)
          (fresh_at_first (sorted values)),
    )
