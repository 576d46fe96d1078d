-- ===== src/Edge/Broker.antt =====
-- internal/edge/broker.go: the events of the edge, kept for a while and handed to subscribers. The
-- lock makes each call one step; so does a subscriber's receipt of one event. A time is the number of
-- nanoseconds since Go's zero time, and an event's other fields are one text. A subscriber's function
-- takes each event; what subscribe returns is left out.
pub mod Bounds
pub mod Gaps
pub mod Delivery
use caramelo.Common.{
  ℕ, suc, ◌+◌, ◌-◌, Bool, true, false, not, ◌&&◌, ◌||◌, List, [], ◌∷◌, ◌++◌, Option, none, some,
  ◌==◌, nat_eq, Bytes, if◌then◌else◌, ltb, leb, length, drop, loop,
}

abbrev pub history_limit : ℕ
history_limit = 512

abbrev pub subscriber_buffer : ℕ
subscriber_buffer = 256

pub record PublishedEvent : Type 0 where
  pub at_time : ℕ
  pub body : Bytes

-- A subscriber: what waits in its channel, whether the channel has been closed, whether the broker
-- has it in its map, and what its function has been called with.
pub record Subscriber : Type 0 where
  pub channel : List PublishedEvent
  pub lagged : Bool
  pub in_map : Bool
  pub handed : List PublishedEvent

pub record Broker : Type 0 where
  pub next : ℕ
  pub subs : List (ℕ × Subscriber)
  pub history : List PublishedEvent
  pub closed : Bool

abbrev pub new_broker : Broker
new_broker = record { next = 0; subs = []; history = []; closed = false }

-- The event with the time at which it is published, if it has none.
unfoldable pub stamped : ℕ → PublishedEvent → PublishedEvent
stamped now e = if e.at_time == 0 then record e { at_time = now } else e

unfoldable pub trimmed : List PublishedEvent → List PublishedEvent
trimmed history =
    if ltb history_limit (length history)
    then drop (length history - history_limit) history
    else history

unfoldable pub send : PublishedEvent → Subscriber → Subscriber
send e s =
    if not s.in_map || s.lagged
    then s
    else if ltb (length s.channel) subscriber_buffer
    then record s { channel = s.channel ++ e ∷ [] }
    else record s { lagged = true }

unfoldable pub map_subs :
    (ℕ → Subscriber → Subscriber) → List (ℕ × Subscriber) → List (ℕ × Subscriber)
map_subs f [] = []
map_subs f ((id, s) ∷ subs) = (id, f id s) ∷ map_subs f subs

unfoldable pub publish : ℕ → PublishedEvent → Broker → Broker
unfolding stamped trimmed send map_subs
publish now e b = if b.closed then b else record b {
  history = trimmed (b.history ++ stamped now e ∷ []);
  subs = map_subs (λ id s. send (stamped now e) s) b.subs;
}

unfoldable pub since_in : ℕ → List PublishedEvent → List PublishedEvent
since_in t [] = []
since_in t (e ∷ es) = let rest = since_in t es in if not (ltb e.at_time t) then e ∷ rest else rest

unfoldable pub since : ℕ → Broker → List PublishedEvent
unfolding since_in
since t b = if t == 0 then [] else since_in t b.history

unfoldable pub subscribe : ℕ → Broker → Broker
unfolding since
subscribe t b = if b.closed then b else record b {
  next = suc b.next;
  subs =
      b.subs
      ++ (b.next, record { channel = []; lagged = false; in_map = true; handed = since t b }) ∷ [];
}

-- A subscriber takes the next event from its channel and is called with it.
unfoldable pub receive : Subscriber → Subscriber
receive s = elim s.channel [
  | [] ↦ s
  | e ∷ es ↦ record s { channel = es; handed = s.handed ++ e ∷ [] }
]

unfoldable pub take_one : ℕ → Broker → Broker
unfolding receive map_subs
take_one id b = record b {
  subs = map_subs (λ other s. if other == id then receive s else s) b.subs;
}

-- subscribe returns: its context is done, or its function gave an error.
unfoldable pub leave : ℕ → Broker → Broker
unfolding map_subs
leave id b = record b {
  subs = map_subs (λ other s. if other == id then record s { in_map = false } else s) b.subs;
}

unfoldable pub shut : Subscriber → Subscriber
shut s = if s.in_map then record s { lagged = true; in_map = false } else s

unfoldable pub close : Broker → Broker
unfolding shut map_subs
close b =
    if b.closed then b else record b { closed = true; subs = map_subs (λ id s. shut s) b.subs }

pub data Call : Type 0 where
  publishes : ℕ → PublishedEvent → Call
  subscribes takes leaves : ℕ → Call
  closes : Call

unfoldable pub called : Broker → Call → Broker
unfolding publish subscribe take_one leave close
called b (publishes now e) = publish now e b
called b (subscribes t) = subscribe t b
called b (takes id) = take_one id b
called b (leaves id) = leave id b
called b closes = close b

unfoldable pub run : Broker → List Call → Broker
unfolding called
run b calls = loop called b calls
