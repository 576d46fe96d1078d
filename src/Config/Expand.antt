-- ===== src/Config/Expand.antt =====
-- internal/config/expand.go: the references in the values of a configuration. A port is carried as
-- the text that strconv.Itoa writes, and what a secret or a password is found by is an argument; an
-- error carries what its message prints.
pub mod Pieces
use caramelo.Common.{
  ℕ, zero, suc, Bool, true, false, not, ◌&&◌, ◌||◌, List, [], ◌∷◌, ◌++◌, Option, none, some, ◌==◌,
  nat_eq, bytes_eq, Bytes, codes, if◌then◌else◌, leb, all, length, holds_byte, cut_at, cut_prefix,
  lookup, insert, sort_by, bytes_ltb,
}

pub data ExpandError : Type 0 where
  unterminated : Bytes → ExpandError
  unknown_reference unknown_secret no_password : Bytes → ExpandError
  of_key : Bytes → ExpandError → ExpandError

pub data Expanded (A : Type 0) : Type 0 where
  ok : A → Expanded A
  failed : ExpandError → Expanded A

-- What a reference stands for: a value, nothing that is known, or an error.
pub data Answer : Type 0 where
  value : Bytes → Answer
  unknown : Answer
  refused : ExpandError → Answer

unfoldable pub before : Bytes → Expanded Bytes → Expanded Bytes
before s (ok t) = ok (s ++ t)
before s (failed e) = failed e

-- What is written for the reference.
unfoldable pub write_answer : Bytes → Answer → Expanded Bytes → Expanded Bytes
unfolding before
write_answer ref (value v) rest = before v rest
write_answer ref unknown rest = before (b'$' ∷ b'{' ∷ ref ++ b'}' ∷ []) rest
write_answer ref (refused e) rest = failed e

module _ (f : Bytes → Answer) where
  -- The loop of mapRefs over what is left of the text; the number bounds its rounds.
  unfoldable pub map_from : ℕ → Bytes → Expanded Bytes
  unfolding before write_answer
  map_from n [] = ok []
  map_from zero (c ∷ s) = ok []
  map_from (suc n) (c ∷ []) = before (c ∷ []) (map_from n [])
  map_from (suc n) (c ∷ d ∷ s) =
      let next = map_from n (d ∷ s) in
      let past = map_from n s in
      if not (c == b'$')
      then before (c ∷ []) next
      else if d == b'$'
      then before (b'$' ∷ []) past
      else if d == b'{'
      then elim (cut_at b'}' s) [
        | none ↦ failed (unterminated (c ∷ d ∷ s))
        | some (ref, after) ↦ write_answer ref (f ref) (map_from n after)
      ]
      else before (b'$' ∷ []) next

  unfoldable pub map_refs : Bytes → Expanded Bytes
  unfolding map_from
  map_refs s = if not (holds_byte b'$' s) then ok s else map_from (length s) s

-- A host and a port.
pub record DepAddr : Type 0 where
  pub host : Bytes
  pub port : Bytes

-- Lookup and DepPassword, each of which may be nil.
pub record Secrets : Type 0 where
  pub find : Option (Bytes → Option Bytes)
  pub dep_password : Option (Bytes → Option Bytes)

pub record ExpandContext : Type 0 where
  pub app : Bytes
  pub env : Bytes
  pub port : Bytes
  pub deps : List (Bytes × DepAddr)
  pub services : List (Bytes × DepAddr)
  pub secrets : Secrets

is_letter : ℕ → Bool
is_letter c = leb b'A' c && leb c b'Z' || leb b'a' c && leb c b'z' || c == b'_'

-- varNameRe.
unfoldable pub is_var_name : Bytes → Bool
unfolding is_letter
is_var_name [] = false
is_var_name (c ∷ s) = is_letter c && all (λ d. is_letter d || leb b'0' d && leb d b'9') s

or_unknown : Option Bytes → Answer
or_unknown none = unknown
or_unknown (some v) = value v

or_refused : ExpandError → Option Bytes → Answer
or_refused e none = refused e
or_refused e (some v) = value v

unfoldable pub addr_field : Bytes → DepAddr → Option Bytes
addr_field field addr =
    if field == codes "host"
    then some addr.host
    else if field == codes "port"
    then some addr.port
    else none

unfoldable pub lookup_addr : List (Bytes × DepAddr) → Bytes → Option Bytes
unfolding addr_field
lookup_addr addrs rest = elim (cut_at b'.' rest) [
  | none ↦ none
  | some (name, field) ↦ elim (lookup name addrs) [
    | none ↦ none
    | some addr ↦ addr_field field addr
  ]
]

unfoldable pub lookup_secret : ExpandContext → Bytes → Answer
unfolding or_refused
lookup_secret c name =
    if name == [] || not (is_var_name name) then unknown else elim c.secrets.find [
      | none ↦ value []
      | some find ↦ or_refused (unknown_secret name) (find name)
    ]

unfoldable pub lookup_dep_password : ExpandContext → Bytes → Answer
unfolding or_refused
lookup_dep_password c dep = elim (lookup dep c.deps) [
  | none ↦ unknown
  | some _ ↦ elim c.secrets.dep_password [
    | none ↦ value []
    | some find ↦ or_refused (no_password dep) (find dep)
  ]
]

-- A reference after `deps.`.
unfoldable pub lookup_dep : ExpandContext → Bytes → Answer
unfolding lookup_dep_password or_unknown
lookup_dep c rest = elim (cut_at b'.' rest) [
  | none ↦ or_unknown (lookup_addr c.deps rest)
  | some (name, field) ↦
      if field == codes "password"
      then lookup_dep_password c name
      else or_unknown (lookup_addr c.deps rest)
]

-- The references with a prefix.
unfoldable pub lookup_prefixed : ExpandContext → Bytes → Answer
unfolding lookup_secret lookup_dep or_unknown
lookup_prefixed c ref = elim (cut_prefix (codes "secrets.") ref) [
  | some name ↦ lookup_secret c name
  | none ↦ elim (cut_prefix (codes "deps.") ref) [
    | some rest ↦ lookup_dep c rest
    | none ↦ elim (cut_prefix (codes "services.") ref) [
      | some rest ↦ or_unknown (lookup_addr c.services rest)
      | none ↦ unknown
    ]
  ]
]

unfoldable pub lookup_ref : ExpandContext → Bytes → Answer
unfolding lookup_prefixed
lookup_ref c ref =
    if ref == codes "port"
    then value c.port
    else if ref == codes "app.name"
    then value c.app
    else if ref == codes "env.name"
    then value c.env
    else lookup_prefixed c ref

unfoldable pub known : Bytes → Answer → Answer
known ref (value v) = value v
known ref unknown = refused (unknown_reference ref)
known ref (refused e) = refused e

unfoldable pub expand_string : Bytes → ExpandContext → Expanded Bytes
unfolding map_refs known lookup_ref
expand_string s c = map_refs (λ ref. known ref (lookup_ref c ref)) s

under_key :
    Bytes → Expanded Bytes → Expanded (List (Bytes × Bytes)) → Expanded (List (Bytes × Bytes))
under_key key (failed e) rest = failed (of_key key e)
under_key key (ok v) (failed e) = failed e
under_key key (ok v) (ok out) = ok ((key, v) ∷ out)

unfoldable pub expand_pairs : List (Bytes × Bytes) → ExpandContext → Expanded (List (Bytes × Bytes))
unfolding expand_string under_key
expand_pairs [] c = ok []
expand_pairs ((key, v) ∷ vars) c = under_key key (expand_string v c) (expand_pairs vars c)

-- The keys in their order.
unfoldable pub expand : List (Bytes × Bytes) → ExpandContext → Expanded (List (Bytes × Bytes))
unfolding expand_pairs
expand vars c = expand_pairs (sort_by (λ (a b : Bytes × Bytes). bytes_ltb a.0 b.0) vars) c

-- A reference that stands for a secret, if it is one.
unfoldable pub secret_of : List Bytes → Secrets → Bytes → Answer
unfolding or_unknown
secret_of declared sec ref = elim (cut_prefix (codes "secrets.") ref) [
  | some name ↦ elim sec.find [
    | none ↦ unknown
    | some find ↦ if not (is_var_name name) then unknown else or_unknown (find name)
  ]
  | none ↦ elim (cut_prefix (codes "deps.") ref) [
    | none ↦ unknown
    | some rest ↦ elim (cut_at b'.' rest) [
      | none ↦ unknown
      | some (name, field) ↦ elim sec.dep_password [
        | none ↦ unknown
        | some find ↦
            if not (field == codes "password") || not (is_declared name declared)
            then unknown
            else or_unknown (find name)
      ]
    ]
  ]
]
  where
    is_declared : Bytes → List Bytes → Bool
    is_declared name [] = false
    is_declared name (d ∷ ds) = d == name || is_declared name ds

or_as_it_was : Bytes → Expanded Bytes → Bytes
or_as_it_was s (ok t) = t
or_as_it_was s (failed e) = s

unfoldable pub no_secrets : Secrets → Bool
no_secrets sec = elim sec.find [
  | some _ ↦ false
  | none ↦ elim sec.dep_password [ none ↦ true | some _ ↦ false ]
]

unfoldable pub expand_secrets_only : Bytes → List Bytes → Secrets → Bytes
unfolding map_refs secret_of or_as_it_was no_secrets
expand_secrets_only s declared sec =
    if no_secrets sec then s else or_as_it_was s (map_refs (secret_of declared sec) s)
