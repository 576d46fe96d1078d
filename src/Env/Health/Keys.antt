-- ===== src/Env/Health/Keys.antt =====
-- What the changes of the health loop do to what it holds of one key (internal/env/health_loop.go).
use caramelo.Common.{
  ℕ, suc, ◌<◌, ◌≡◌, refl, true, false, arith, nat_eq, bytes_eq, Bytes, eq_refl, ltb, lookup-insert,
  lookup-erase,
}
use caramelo.Edge.{state_eq}
use caramelo.Env.Health.{
  HealthLoop, failures_of, fails_at, fail, pass, was_down, set_down, up, restart_moved,
}

pub fails_at-fail :
    (key : Bytes) (l : HealthLoop) → fails_at key (fail key l) ≡ suc (fails_at key l)
unfolding fails_at fail
fails_at-fail key l =
    ground (arith, lookup-insert key key (suc (fails_at key l)) l.fails, eq_refl key)

pub fails_at-pass : (key : Bytes) (l : HealthLoop) → fails_at key (pass key l) ≡ 0
unfolding fails_at pass
fails_at-pass key l = ground (arith, lookup-erase key key l.fails, eq_refl key)

pub was_down-set_down : (key : Bytes) (l : HealthLoop) → was_down key (set_down key l) ≡ true
unfolding was_down set_down
was_down-set_down key l = ground (arith, lookup-insert key key true l.down, eq_refl key)

pub was_down-up : (key : Bytes) (l : HealthLoop) → was_down key (up key l) ≡ false
unfolding was_down up
was_down-up key l = ground (arith, lookup-erase key key l.down, eq_refl key)

-- What a round reads of the loop, for one key.
pub record SameAt (key : Bytes) (l l' : HealthLoop) : Type 0 where
  pub same_fails : fails_at key l' ≡ fails_at key l
  pub same_down : was_down key l' ≡ was_down key l
  pub same_failures : failures_of l' ≡ failures_of l

pub ltb_of_lt : (a b : ℕ) → a < b → ltb a b ≡ true
ltb_of_lt a b lt = ground arith

pub ltb_of_eq : (a b : ℕ) → a ≡ b → ltb a b ≡ false
ltb_of_eq a b same = ground arith

pub fails_at-set_down :
    (key : Bytes) (l : HealthLoop) → fails_at key (set_down key l) ≡ fails_at key l
unfolding fails_at set_down
fails_at-set_down key l = refl

pub fails_at-up : (key : Bytes) (l : HealthLoop) → fails_at key (up key l) ≡ fails_at key l
unfolding fails_at up
fails_at-up key l = refl

pub was_down-pass : (key : Bytes) (l : HealthLoop) → was_down key (pass key l) ≡ was_down key l
unfolding was_down pass
was_down-pass key l = refl

pub failures_of-fail : (key : Bytes) (l : HealthLoop) → failures_of (fail key l) ≡ failures_of l
unfolding failures_of fail
failures_of-fail key l = refl

pub was_down-fail : (key : Bytes) (l : HealthLoop) → was_down key (fail key l) ≡ was_down key l
unfolding was_down fail
was_down-fail key l = refl

pub restart_moved-SameAt :
    (key : Bytes) (n : ℕ) (l : HealthLoop) → SameAt key l (restart_moved key n l).0
unfolding restart_moved fails_at was_down failures_of
restart_moved-SameAt key n l = record { same_fails = refl; same_down = refl; same_failures = refl }
