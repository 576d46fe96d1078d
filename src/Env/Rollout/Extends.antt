-- ===== src/Env/Rollout/Extends.antt =====
-- How the steps of a rollout (internal/env/rollout.go) add to its log.
use mathlib.Core.List.{append_assoc, append-nil}
use caramelo.Common.{
  ℕ, ◌≡◌, refl, sym, ap, ◌∙◌, Bool, true, false, [], ◌∷◌, ◌++◌, Option, if◌then◌else◌, All,
  All-append,
}
use caramelo.Env.Rollout.{
  Call, Answer, Log, fine, refused, drained, call_failed, Plant, Replica, RollError, Rollout, ok,
  err, Result, M, then_, ◌>>=◌, done, fail, add_step, step, StepName, StepStatus, ReplicaState, ask,
  must, is_refused,
}

-- The entries that lead from one log to the other, all of one kind.
pub record Extends (P : Call × Answer → Type 0) (r r' : Rollout) : Type 0 where
  pub added : Log
  pub same_log : r'.log ≡ r.log ++ added
  pub each : All P added

module _ (P : Call × Answer → Type 0) where
  unfoldable pub Extends-refl : (r r' : Rollout) → r'.log ≡ r.log → Extends P r r'
  Extends-refl r r' same = record {
    added = [];
    same_log = same ∙ sym (append-nil r.log);
    each = tt;
  }

  unfoldable pub Extends-trans : (r s t : Rollout) → Extends P r s → Extends P s t → Extends P r t
  Extends-trans r s t a b = record {
    added = a.added ++ b.added;
    same_log =
        b.same_log ∙ ap (λ (l : Log). l ++ b.added) a.same_log ∙ append_assoc r.log a.added b.added;
    each = All-append P a.added b.added a.each b.each;
  }

-- On success, what is known of the result and of the entries.
abbrev pub OnOk : {A : Type 0} → (A → Type 0) → Result A → Type 0
OnOk Q (ok a) = Q a
OnOk Q (err f) = Unit

pub record Ending {A : Type 0} (P : Call × Answer → Type 0) (Q : A → Log → Type 0) (r : Rollout)
    (x : Result A × Rollout) : Type 0 where
  pub extends : Extends P r x.1
  pub on_ok : OnOk (λ a. Q a extends.added) x.0

abbrev pub Ends : {A : Type 0} → (Call × Answer → Type 0) → (A → Log → Type 0) → M A → Type 0
Ends P Q m = (r : Rollout) → Ending P Q r (m r)

module _ (P : Call × Answer → Type 0) where
  then_-Ending :
      {A B : Type 0} (Q : A → Log → Type 0) (S : B → Log → Type 0) (f : A → M B) (r : Rollout)
      (x : Result A × Rollout)
      → ((a : A) (l : Log) → Q a l → Ends P (λ b l'. S b (l ++ l')) (f a))
      → Ending P Q r x
      → Ending P S r (then_ f x)
  unfolding Extends-trans
  then_-Ending Q S f r (ok a, s) later e =
      let run = later a e.extends.added e.on_ok s in
      record { extends = Extends-trans P r s (f a s).1 e.extends run.extends; on_ok = run.on_ok }
  then_-Ending Q S f r (err e', s) later e = record { extends = e.extends; on_ok = tt }

  pub bind-Ends :
      {A B : Type 0} (Q : A → Log → Type 0) (S : B → Log → Type 0) (m : M A) (f : A → M B)
      → Ends P Q m
      → ((a : A) (l : Log) → Q a l → Ends P (λ b l'. S b (l ++ l')) (f a))
      → Ends P S (m >>= f)
  bind-Ends Q S m f now later r = then_-Ending Q S f r (m r) later (now r)

  pub done-Ends : {A : Type 0} (Q : A → Log → Type 0) (a : A) → Q a [] → Ends P Q (done a)
  unfolding Extends-refl
  done-Ends Q a q r = record { extends = Extends-refl P r r refl; on_ok = q }

  pub step-Ends :
      (Q : Unit {0} → Log → Type 0) (i : ℕ) (n : StepName) (t : StepStatus) (u : ReplicaState)
      → Q tt []
      → Ends P Q (step i n t u)
  unfolding step add_step Extends-refl
  step-Ends Q i n t u q r = record { extends = Extends-refl P r (step i n t u r).1 refl; on_ok = q }

  must_run :
      (Q : Unit {0} → Log → Type 0) (c : Call) (rep : Option Replica) (a : Answer) (r : Rollout)
      → P (c, a)
      → (is_refused a ≡ false → Q tt ((c, a) ∷ []))
      → Ending P Q r (
          (if is_refused a then fail (call_failed c) rep else done tt)
            (record r { log = r.log ++ (c, a) ∷ [] }))
  unfolding is_refused
  must_run Q c rep refused r one post = record {
    extends = record { added = (c, refused) ∷ []; same_log = refl; each = (one, tt) };
    on_ok = tt;
  }
  must_run Q c rep fine r one post = record {
    extends = record { added = (c, fine) ∷ []; same_log = refl; each = (one, tt) };
    on_ok = post refl;
  }
  must_run Q c rep (drained n b) r one post = record {
    extends = record { added = (c, drained n b) ∷ []; same_log = refl; each = (one, tt) };
    on_ok = post refl;
  }

  pub must-Ends :
      (plant : Plant) (Q : Unit {0} → Log → Type 0) (c : Call) (rep : Option Replica)
      → ((a : Answer) → P (c, a))
      → ((a : Answer) → is_refused a ≡ false → Q tt ((c, a) ∷ []))
      → Ends P Q (must plant c rep)
  unfolding must ask
  must-Ends plant Q c rep each post r =
      must_run Q c rep (plant r.log c) r (each (plant r.log c)) (post (plant r.log c))

  pub ask-Ends :
      (plant : Plant) (Q : Answer → Log → Type 0) (c : Call)
      → ((a : Answer) → P (c, a))
      → ((a : Answer) → Q a ((c, a) ∷ []))
      → Ends P Q (ask plant c)
  unfolding ask
  ask-Ends plant Q c each post r = record {
    extends = record {
      added = (c, plant r.log c) ∷ [];
      same_log = refl;
      each = (each (plant r.log c), tt);
    };
    on_ok = post (plant r.log c);
  }

  pub if-Ends :
      {A : Type 0} (Q : A → Log → Type 0) (b : Bool) (m n : M A)
      → (b ≡ true → Ends P Q m)
      → (b ≡ false → Ends P Q n)
      → Ends P Q (if b then m else n)
  if-Ends Q true m n yes_ no_ = yes_ refl
  if-Ends Q false m n yes_ no_ = no_ refl

  weaken-Ending :
      {A : Type 0} (Q S : A → Log → Type 0) (r : Rollout) (x : Result A × Rollout)
      → ((a : A) (l : Log) → Q a l → S a l)
      → Ending P Q r x
      → Ending P S r x
  weaken-Ending Q S r (ok a, s) imp e = record {
    extends = e.extends;
    on_ok = imp a e.extends.added e.on_ok;
  }
  weaken-Ending Q S r (err f, s) imp e = record { extends = e.extends; on_ok = tt }

  pub weaken-Ends :
      {A : Type 0} (Q S : A → Log → Type 0) (m : M A)
      → ((a : A) (l : Log) → Q a l → S a l)
      → Ends P Q m
      → Ends P S m
  weaken-Ends Q S m imp e r = weaken-Ending Q S r (m r) imp (e r)

  pub fail-Ends :
      {A : Type 0} (Q : A → Log → Type 0) (e : RollError) (rep : Option Replica)
      → Ends P Q (fail e rep)
  fail-Ends Q e rep r = record { extends = Extends-refl P r r refl; on_ok = tt }

-- Nothing is known but the kind of the entries.
abbrev pub Whatever : {A : Type 0} → A → Log → Type 0
Whatever a l = Unit {0}
