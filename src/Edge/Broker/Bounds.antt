-- ===== src/Edge/Broker/Bounds.antt =====
-- How much the broker keeps (internal/edge/broker.go).
use caramelo.Common.{
  ℕ, zero, suc, ◌-◌, ◌≤◌, ◌≡◌, Bool, true, false, List, [], ◌∷◌, ◌++◌, arith, ◌==◌, nat_eq,
  if◌then◌else◌, length, length-append, drop, All, All-append, loop,
}
use caramelo.Edge.Broker.{
  PublishedEvent, Subscriber, Broker, new_broker, stamped, trimmed, send, map_subs, publish,
  subscribe, receive, take_one, leave, shut, close, Call, publishes, subscribes, takes, leaves,
  closes, called, run,
}

length-drop : (n : ℕ) (es : List PublishedEvent) → length (drop n es) ≡ length es - n
length-drop zero es = omega arith
length-drop (suc n) [] = omega arith
length-drop (suc n) (e ∷ es) = omega (arith, length-drop n es)

length-trimmed : (es : List PublishedEvent) → length (trimmed es) ≤ 512
unfolding trimmed
length-trimmed es = ground (arith, length-drop (length es - 512) es)

abbrev pub Small : ℕ × Subscriber → Type 0
Small (id, s) = length s.channel ≤ 256

pub record Bounded (b : Broker) : Type 0 where
  pub short_history : length b.history ≤ 512
  pub small_subs : All Small b.subs

send-Small :
    (e : PublishedEvent) (s : Subscriber) → length s.channel ≤ 256 → length (send e s).channel ≤ 256
unfolding send
send-Small e s small = ground (arith, length-append s.channel (e ∷ []))

abbrev Short : Subscriber → Type 0
Short s = length s.channel ≤ 256

receive-Small : (s : Subscriber) → length s.channel ≤ 256 → length (receive s).channel ≤ 256
unfolding receive
receive-Small s small = go s.channel small
  where
    go :
        (waiting : List PublishedEvent)
        → length waiting ≤ 256
        → Short (elim waiting [
          | [] ↦ s
          | e ∷ es ↦ record s { channel = es; handed = s.handed ++ e ∷ [] }
        ])
    go [] h = small
    go (e ∷ es) h = omega (arith, h)

map_subs-Small :
    (f : ℕ → Subscriber → Subscriber) (subs : List (ℕ × Subscriber))
    → ((id : ℕ) (s : Subscriber) → length s.channel ≤ 256 → length (f id s).channel ≤ 256)
    → All Small subs
    → All Small (map_subs f subs)
unfolding map_subs
map_subs-Small f [] keeps h = tt
map_subs-Small f ((id, s) ∷ subs) keeps (h, hs) = (keeps id s h, map_subs-Small f subs keeps hs)

either-Small :
    (b : Bool) (s t : Subscriber)
    → length s.channel ≤ 256
    → length t.channel ≤ 256
    → length (if b then t else s).channel ≤ 256
either-Small true s t hs ht = ht
either-Small false s t hs ht = hs

either-Bounded : (c : Bool) (b b' : Broker) → Bounded b → Bounded b' → Bounded (if c then b else b')
either-Bounded true b b' h h' = h
either-Bounded false b b' h h' = h'

called-Bounded : (b : Broker) (c : Call) → Bounded b → Bounded (called b c)
unfolding called publish subscribe take_one leave close shut
called-Bounded b (publishes now e) h = either-Bounded b.closed b _ h (record {
  short_history = length-trimmed (b.history ++ stamped now e ∷ []);
  small_subs =
      map_subs-Small (λ id s. send (stamped now e) s) b.subs
        (λ id s small. send-Small (stamped now e) s small) h.small_subs;
})
called-Bounded b (subscribes t) h = either-Bounded b.closed b _ h (record {
  short_history = h.short_history;
  small_subs = All-append Small b.subs _ h.small_subs (omega arith, tt);
})
called-Bounded b (takes one) h = record {
  short_history = h.short_history;
  small_subs =
      map_subs-Small (λ other s. if other == one then receive s else s) b.subs
        (λ id s small. either-Small (id == one) s (receive s) small (receive-Small s small))
        h.small_subs;
}
called-Bounded b (leaves one) h = record {
  short_history = h.short_history;
  small_subs =
      map_subs-Small (λ other s. if other == one then record s { in_map = false } else s) b.subs
        (λ id s small. either-Small (id == one) s (record s { in_map = false }) small small)
        h.small_subs;
}
called-Bounded b closes h = either-Bounded b.closed b _ h (record {
  short_history = h.short_history;
  small_subs =
      map_subs-Small (λ id s. shut s) b.subs
        (λ id s small.
          either-Small s.in_map s (record s { lagged = true; in_map = false }) small small)
        h.small_subs;
})

loop-Bounded : (b : Broker) (calls : List Call) → Bounded b → Bounded (loop called b calls)
loop-Bounded b [] h = h
loop-Bounded b (c ∷ calls) h = loop-Bounded (called b c) calls (called-Bounded b c h)

-- After any calls of a new broker, its history holds at most 512 events, and the channel of each
-- subscriber at most 256.
pub run-Bounded : (calls : List Call) → Bounded (run new_broker calls)
unfolding run
run-Bounded calls =
    loop-Bounded new_broker calls (record { short_history = omega arith; small_subs = tt })
