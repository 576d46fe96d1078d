-- ===== src/Edge/Broker/Gaps.antt =====
-- What a subscriber misses of the events that are published (internal/edge/broker.go).
use mathlib.Core.List.{append_assoc, append-nil}
use caramelo.Common.{
  ◌≡◌, refl, sym, ap, subst, ◌∙◌, inl, inr, Bool, true, false, not, ◌&&◌, ◌||◌, List, [], ◌∷◌, ◌++◌,
  arith, nat_eq, if◌then◌else◌, ltb, Bool-cases, length,
}
use caramelo.Edge.Broker.{
  subscriber_buffer, PublishedEvent, Subscriber, Broker, stamped, send, receive, shut, Call,
  publishes, subscribes, takes, leaves, closes, called,
}

-- What a call adds to the events of the broker, and what a list of calls does.
unfoldable pub new_events : Broker → Call → List PublishedEvent
new_events b (publishes now e) = if b.closed then [] else stamped now e ∷ []
new_events b (subscribes t) = []
new_events b (takes id) = []
new_events b (leaves id) = []
new_events b closes = []

unfoldable pub published : Broker → List Call → List PublishedEvent
unfolding new_events called
published b [] = []
published b (c ∷ calls) = new_events b c ++ published (called b c) calls

-- All that a subscriber has got and has waiting.
abbrev pub got : Subscriber → List PublishedEvent
got s = s.handed ++ s.channel

-- The broker still sends to it.
unfoldable pub is_live : Subscriber → Bool
is_live s = s.in_map && not s.lagged

-- Over some events that were published a subscriber keeps what it had, gets the first of them after
-- it, and all if it is live after them; and none if it was not live before.
pub record NoGap (before : Subscriber) (events : List PublishedEvent) (after : Subscriber)
    : Type 0 where
  pub kept : List PublishedEvent
  pub missed : List PublishedEvent
  pub in_order : events ≡ kept ++ missed
  pub gets : got after ≡ got before ++ kept
  pub none_missed : is_live after ≡ true → missed ≡ []
  pub stays : is_live before ≡ false → (is_live after ≡ false) × (got after ≡ got before)

dead_of : (b : Bool) → b ≡ true → b ≡ false → ⊥
dead_of b live dead = cc

pub NoGap-append :
    (s s' s'' : Subscriber) (events more : List PublishedEvent)
    → NoGap s events s'
    → NoGap s' more s''
    → NoGap s (events ++ more) s''
NoGap-append s s' s'' events more g h = elim (Bool-cases (is_live s')) [
  | inl live ↦ record {
    kept = g.kept ++ h.kept;
    missed = h.missed;
    in_order =
        ap (λ es. es ++ more)
          (g.in_order ∙ ap (λ m. g.kept ++ m) (g.none_missed live) ∙ append-nil g.kept)
        ∙ ap (λ es. g.kept ++ es) h.in_order
        ∙ sym (append_assoc g.kept h.kept h.missed);
    gets = h.gets ∙ ap (λ es. es ++ h.kept) g.gets ∙ append_assoc (got s) g.kept h.kept;
    none_missed = h.none_missed;
    stays = λ dead. absurd (dead_of (is_live s') live (g.stays dead).0);
  }
  | inr dead ↦ record {
    kept = g.kept;
    missed = g.missed ++ more;
    in_order = ap (λ es. es ++ more) g.in_order ∙ append_assoc g.kept g.missed more;
    gets = (h.stays dead).1 ∙ g.gets;
    none_missed = λ live. absurd (dead_of (is_live s'') live (h.stays dead).0);
    stays = λ was_dead. ((h.stays dead).0, (h.stays dead).1 ∙ (g.stays was_dead).1);
  }
]

-- Nothing was published and nothing is lost, and a subscriber that is not live stays so.
quiet :
    (s s' : Subscriber) → got s' ≡ got s → (is_live s ≡ false → is_live s' ≡ false) → NoGap s [] s'
quiet s s' same stays = record {
  kept = [];
  missed = [];
  in_order = refl;
  gets = same ∙ sym (append-nil (got s));
  none_missed = λ live. refl;
  stays = λ dead. (stays dead, same);
}

pub unchanged : (s : Subscriber) → NoGap s [] s
unchanged s = quiet s s refl (λ e. e)

pub send-NoGap : (e : PublishedEvent) (s : Subscriber) → NoGap s (e ∷ []) (send e s)
unfolding send is_live
send-NoGap e s = elim (Bool-cases (not s.in_map || s.lagged)) [
  | inl dead ↦ rw dead (record {
    kept = [];
    missed = e ∷ [];
    in_order = refl;
    gets = sym (append-nil (got s));
    none_missed = λ live. absurd (ground arith);
    stays = λ was. (was, refl);
  })
  | inr live ↦ elim (Bool-cases (ltb (length s.channel) subscriber_buffer)) [
    | inl room ↦
        rw (live, room)
          (record {
            kept = e ∷ [];
            missed = [];
            in_order = refl;
            gets = sym (append_assoc s.handed s.channel (e ∷ []));
            none_missed = λ live. refl;
            stays = λ was. absurd (ground arith);
          })
    | inr full ↦
        rw (live, full)
          (record {
            kept = [];
            missed = e ∷ [];
            in_order = refl;
            gets = sym (append-nil (got s));
            none_missed = λ live. absurd (ground arith);
            stays = λ was. absurd (ground arith);
          })
  ]
]

got-receive : (s : Subscriber) → got (receive s) ≡ got s
unfolding receive
got-receive s = go s.channel refl
  where
    go :
        (waiting : List PublishedEvent)
        → s.channel ≡ waiting
        → got (elim waiting [
          | [] ↦ s
          | e ∷ es ↦ record s { channel = es; handed = s.handed ++ e ∷ [] }
        ])
          ≡ s.handed ++ waiting
    go [] same = ap (λ es. s.handed ++ es) same
    go (e ∷ es) same = append_assoc s.handed (e ∷ []) es

is_live-receive : (s : Subscriber) → is_live (receive s) ≡ is_live s
unfolding receive is_live
is_live-receive s = go s.channel
  where
    go :
        (waiting : List PublishedEvent)
        → is_live (elim waiting [
          | [] ↦ s
          | e ∷ es ↦ record s { channel = es; handed = s.handed ++ e ∷ [] }
        ])
          ≡ is_live s
    go [] = refl
    go (e ∷ es) = refl

pub receive-NoGap : (s : Subscriber) → NoGap s [] (receive s)
receive-NoGap s = quiet s (receive s) (got-receive s) (λ dead. is_live-receive s ∙ dead)

pub if_yes : {A : Type 0} (b : Bool) (x y : A) → b ≡ true → (if b then x else y) ≡ x
if_yes true x y e = refl
if_yes false x y e = cc

pub if_no : {A : Type 0} (b : Bool) (x y : A) → b ≡ false → (if b then x else y) ≡ y
if_no true x y e = cc
if_no false x y e = refl

pub shut-NoGap : (s : Subscriber) → NoGap s [] (shut s)
unfolding shut is_live
shut-NoGap s = elim (Bool-cases s.in_map) [
  | inl in_it ↦ subst (NoGap s []) (sym (if_yes s.in_map _ s in_it)) (quiet s _ refl (λ dead. refl))
  | inr out ↦ subst (NoGap s []) (sym (if_no s.in_map _ s out)) (unchanged s)
]

pub left-NoGap : (s : Subscriber) → NoGap s [] (record s { in_map = false })
unfolding is_live
left-NoGap s = quiet s _ refl (λ dead. refl)
