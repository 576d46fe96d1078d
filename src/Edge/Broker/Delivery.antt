-- ===== src/Edge/Broker/Delivery.antt =====
-- What a subscriber gets over any calls (internal/edge/broker.go).
use caramelo.Common.{
  ℕ, ◌≡◌, sym, ap, subst, inl, inr, Bool, true, false, List, [], ◌∷◌, ◌++◌, Option, none, some,
  ◌==◌, nat_eq, if◌then◌else◌, lookup, Bool-cases,
}
use caramelo.Edge.Broker.{
  PublishedEvent, Subscriber, Broker, stamped, send, map_subs, publish, subscribe, receive,
  take_one, leave, shut, close, Call, publishes, subscribes, takes, leaves, closes, called, run,
}
use caramelo.Edge.Broker.Gaps.{
  new_events, published, NoGap, NoGap-append, unchanged, send-NoGap, receive-NoGap, shut-NoGap,
  left-NoGap, if_yes, if_no,
}

lookup-map_subs :
    (f : ℕ → Subscriber → Subscriber) (id : ℕ) (s : Subscriber) (subs : List (ℕ × Subscriber))
    → lookup id subs ≡ some s
    → lookup id (map_subs f subs) ≡ some (f id s)
unfolding lookup map_subs
lookup-map_subs f id s [] e = cc
lookup-map_subs f id s ((other, t) ∷ subs) e = elim (Bool-cases (other == id)) [
  | inl same ↦
      let eq = (nat_eq.same_iff other id).0 same in
      let here : some t ≡ some s = rw same at e in
      rw (same, eq)
        (ap (λ (o : Option Subscriber). elim o [ none ↦ none | some u ↦ some (f id u) ]) here)
  | inr differ ↦ rw differ (lookup-map_subs f id s subs (rw differ at e))
]

lookup-append :
    (id : ℕ) (s : Subscriber) (subs more : List (ℕ × Subscriber))
    → lookup id subs ≡ some s
    → lookup id (subs ++ more) ≡ some s
unfolding lookup
lookup-append id s [] more e = cc
lookup-append id s ((other, t) ∷ subs) more e = elim (Bool-cases (other == id)) [
  | inl same ↦ (let here = rw same at e in rw same here)
  | inr differ ↦ rw differ (lookup-append id s subs more (rw differ at e))
]

-- The subscriber is there after the call, or the calls, and has no gap in these events.
abbrev pub Follows : ℕ → Subscriber → List PublishedEvent → Broker → Type 0
Follows id s events b =
    (after : Subscriber) × (lookup id b.subs ≡ some after) × NoGap s events after

publish-Follows :
    (now : ℕ) (e : PublishedEvent) (b : Broker) (id : ℕ) (s : Subscriber)
    → lookup id b.subs ≡ some s
    → Follows id s (new_events b (publishes now e)) (publish now e b)
unfolding publish new_events
publish-Follows now e b id s found = elim (Bool-cases b.closed) [
  | inl done ↦
      subst (λ es. Follows id s es (publish now e b))
        (sym (if_yes b.closed [] (stamped now e ∷ []) done))
        (subst (Follows id s []) (sym (if_yes b.closed b _ done)) (s, found, unchanged s))
  | inr open_ ↦
      subst (λ es. Follows id s es (publish now e b))
        (sym (if_no b.closed [] (stamped now e ∷ []) open_))
        (subst (Follows id s (stamped now e ∷ [])) (sym (if_no b.closed b _ open_)) (
          send (stamped now e) s,
          lookup-map_subs (λ id s. send (stamped now e) s) id s b.subs found,
          send-NoGap (stamped now e) s,
        ))
]

subscribe-Follows :
    (t : ℕ) (b : Broker) (id : ℕ) (s : Subscriber)
    → lookup id b.subs ≡ some s
    → Follows id s [] (subscribe t b)
unfolding subscribe
subscribe-Follows t b id s found = elim (Bool-cases b.closed) [
  | inl done ↦ subst (Follows id s []) (sym (if_yes b.closed b _ done)) (s, found, unchanged s)
  | inr open_ ↦
      subst (Follows id s []) (sym (if_no b.closed b _ open_))
        (s, lookup-append id s b.subs _ found, unchanged s)
]

either : (b : Bool) (s t : Subscriber) → NoGap s [] t → NoGap s [] (if b then t else s)
either true s t g = g
either false s t g = unchanged s

close-Follows :
    (b : Broker) (id : ℕ) (s : Subscriber) → lookup id b.subs ≡ some s → Follows id s [] (close b)
unfolding close
close-Follows b id s found = elim (Bool-cases b.closed) [
  | inl done ↦ subst (Follows id s []) (sym (if_yes b.closed b _ done)) (s, found, unchanged s)
  | inr open_ ↦
      subst (Follows id s []) (sym (if_no b.closed b _ open_))
        (shut s, lookup-map_subs (λ id s. shut s) id s b.subs found, shut-NoGap s)
]

called-Follows :
    (b : Broker) (c : Call) (id : ℕ) (s : Subscriber)
    → lookup id b.subs ≡ some s
    → Follows id s (new_events b c) (called b c)
unfolding called take_one leave new_events
called-Follows b (publishes now e) id s found = publish-Follows now e b id s found
called-Follows b (subscribes t) id s found = subscribe-Follows t b id s found
called-Follows b (takes one) id s found = (
  _,
  lookup-map_subs (λ other s. if other == one then receive s else s) id s b.subs found,
  either (id == one) s (receive s) (receive-NoGap s),
)
called-Follows b (leaves one) id s found = (
  _,
  lookup-map_subs (λ other s. if other == one then record s { in_map = false } else s) id s b.subs
      found,
  either (id == one) s (record s { in_map = false }) (left-NoGap s),
)
called-Follows b closes id s found = close-Follows b id s found

-- Whatever calls follow, in whatever order, a subscriber has got and has waiting, after what it had
-- before, a first part of the events that were published, in their order and with none left out:
-- all of them if it is still in the map and did not lag.
pub run-Follows :
    (b : Broker) (calls : List Call) (id : ℕ) (s : Subscriber)
    → lookup id b.subs ≡ some s
    → Follows id s (published b calls) (run b calls)
unfolding run published
run-Follows b [] id s found = (s, found, unchanged s)
run-Follows b (c ∷ calls) id s found =
    let one = called-Follows b c id s found in
    let more = run-Follows (called b c) calls id one.0 one.1 in
    (
      more.0,
      more.1,
      NoGap-append s one.0 more.0 (new_events b c) (published (called b c) calls) one.2 more.2,
    )
