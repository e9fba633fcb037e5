-- ===== src/Events/Bus/Delivery.antt =====
-- A burst of publications on src/core/events/event_bus.py, and what its consumer makes of it.
use mathlib.Core.List.{append_assoc, append-nil}
use apex_xauusd_engine.Prelude.{
  ℕ, suc, ◌+◌, ◌≤◌, ◌<◌, ◌≡◌, refl, sym, ap, ◌∙◌, Bool, true, false, List, [], ◌∷◌, ◌++◌, map,
  arith, length, leb,
}
use apex_xauusd_engine.Domain.{EventPriority, critical, high, normal, low, priority_value}
use apex_xauusd_engine.Events.Bus.{
  EngineEventType, BaseEvent, Entry, EventBus, put, entry_for, Publication, inactive, waits, queued,
  publish, put_in, failures, calls_for, dispatch, drain,
}
use apex_xauusd_engine.Events.Bus.Order.{
  Numbered, in_delivery_order, in_delivery_order-nil, put_critical, put_high, put_normal, put_low,
}

put_ordered :
    (e : Entry) (xs : List Entry) (p : EventPriority)
    → Numbered e.publish_sequence xs
    → e.priority_rank ≡ priority_value p
    → put e (in_delivery_order xs) ≡ in_delivery_order (xs ++ e ∷ [])
put_ordered e xs critical new rank = put_critical e xs new rank
put_ordered e xs high new rank = put_high e xs new rank
put_ordered e xs normal new rank = put_normal e xs new rank
put_ordered e xs low new rank = put_low e xs new rank

-- Publications one after the other, up to one that does not return.
pub publish_all : List (EngineEventType × BaseEvent) → EventBus → Publication
publish_all [] b = queued b
publish_all ((event_type, event_payload) ∷ es) b = elim (publish event_type event_payload b) [
  | inactive ↦ inactive
  | waits e b' ↦ waits e b'
  | queued b' ↦ publish_all es b'
]

-- The entries of events that are numbered from a sequence number on.
pub entries_from : ℕ → List (EngineEventType × BaseEvent) → List Entry
entries_from n [] = []
entries_from n ((event_type, event_payload) ∷ es) =
    record {
      priority_rank = priority_value event_payload.priority;
      publish_sequence = n;
      event_type = event_type;
      event_payload = event_payload;
    }
    ∷ entries_from (suc n) es

-- The calls of the subscribed handlers for entries, one entry after the other.
pub all_calls : (EngineEventType → List ℕ) → List Entry → List (ℕ × BaseEvent)
all_calls subscribers [] = []
all_calls subscribers (e ∷ rest) =
    map (λ h. (h, e.event_payload)) (subscribers e.event_type) ++ all_calls subscribers rest

pub all_failures : (ℕ → BaseEvent → Bool) → (EngineEventType → List ℕ) → List Entry → ℕ
all_failures raises subscribers [] = 0
all_failures raises subscribers (e ∷ rest) =
    failures raises e.event_payload (subscribers e.event_type)
    + all_failures raises subscribers rest

drain-calls :
    (raises : ℕ → BaseEvent → Bool) (q : List Entry) (b : EventBus)
    → (drain raises q b).0 ≡ all_calls b.subscribers q
unfolding drain all_calls
drain-calls raises [] b = refl
drain-calls raises (e ∷ rest) b =
    ap (λ later. calls_for b e ++ later) (drain-calls raises rest (dispatch raises e rest b).1)

drain-failures :
    (raises : ℕ → BaseEvent → Bool) (q : List Entry) (b : EventBus)
    → (drain raises q b).1.handler_failure_count
      ≡ b.handler_failure_count + all_failures raises b.subscribers q
unfolding drain all_failures
drain-failures raises [] b = omega arith
drain-failures raises (e ∷ rest) b =
    omega (arith, drain-failures raises rest (dispatch raises e rest b).1)

drain-queue :
    (raises : ℕ → BaseEvent → Bool) (q : List Entry) (b : EventBus)
    → b.priority_queue ≡ q
    → (drain raises q b).1.priority_queue ≡ []
unfolding drain
drain-queue raises [] b h = h
drain-queue raises (e ∷ rest) b h = drain-queue raises rest (dispatch raises e rest b).1 refl

length-put : (e : Entry) (q : List Entry) → length (put e q) ≡ suc (length q)
unfolding put
length-put e [] = omega arith
length-put e (x ∷ q) = ground (arith, length-put e q)

-- The bus after a publication that returns.
abbrev published : EngineEventType → BaseEvent → EventBus → EventBus
published event_type event_payload b = record b {
  publish_sequence = suc b.publish_sequence;
  priority_queue = put (entry_for b event_type event_payload) b.priority_queue;
}

publish-queued :
    (t : EngineEventType) (p : BaseEvent) (b : EventBus)
    → b.is_running ≡ true
    → length b.priority_queue < b.max_queue_size
    → publish t p b ≡ queued (published t p b)
unfolding publish put_in
publish-queued t p b running room =
    let open_ : leb b.max_queue_size (length b.priority_queue) ≡ false = ground arith in
    rw (running, open_, publish, put_in) refl

Numbered-next :
    (e : Entry) (xs : List Entry)
    → Numbered e.publish_sequence xs
    → Numbered (suc e.publish_sequence) (xs ++ e ∷ [])
Numbered-next e [] h = (omega arith, tt)
Numbered-next e (x ∷ xs) (small, h) = (omega arith, Numbered-next e xs h)

-- What a burst of publications leads to.
record IsBurst (es : List (EngineEventType × BaseEvent)) (b b' : EventBus) (xs : List Entry)
    : Type 0 where
  returned : publish_all es b ≡ queued b'
  ordered : b'.priority_queue ≡ in_delivery_order (xs ++ entries_from b.publish_sequence es)
  same_subscribers : b'.subscribers ≡ b.subscribers
  same_failures : b'.handler_failure_count ≡ b.handler_failure_count

publish_all-IsBurst :
    (es : List (EngineEventType × BaseEvent)) (b : EventBus) (xs : List Entry)
    → b.is_running ≡ true
    → length b.priority_queue + length es ≤ b.max_queue_size
    → b.priority_queue ≡ in_delivery_order xs
    → Numbered b.publish_sequence xs
    → (b' : EventBus) × IsBurst es b b' xs
unfolding publish_all entries_from
publish_all-IsBurst [] b xs running room sorted new = (
  b,
  record {
    returned = refl;
    ordered = sorted ∙ ap in_delivery_order (sym (append-nil xs));
    same_subscribers = refl;
    same_failures = refl;
  },
)
publish_all-IsBurst ((t, p) ∷ es) b xs running room sorted new =
    let e = entry_for b t p in
    let (b', burst) =
      publish_all-IsBurst es (published t p b) (xs ++ e ∷ []) running
        (omega (arith, length-put e b.priority_queue))
        (ap (put e) sorted ∙ put_ordered e xs p.priority new refl) (Numbered-next e xs new) in
    (
      b',
      record {
        returned = rw (publish-queued t p b running (omega arith), publish_all) burst.returned;
        ordered = burst.ordered ∙ ap in_delivery_order (append_assoc xs (e ∷ []) _);
        same_subscribers = burst.same_subscribers;
        same_failures = burst.same_failures;
      },
    )

-- Events that are published one after the other on a running bus with an empty queue and room for
-- all of them are all queued; whichever handlers raise, the consumer then calls every subscriber
-- of every event, the events of a higher priority first and those of one priority in the order of
-- publication, adds the number of the calls that raised to the count of failures, and leaves the
-- queue empty.
pub drain-publish_all :
    (es : List (EngineEventType × BaseEvent)) (b : EventBus) (raises : ℕ → BaseEvent → Bool)
    → b.is_running ≡ true
    → b.priority_queue ≡ []
    → length es ≤ b.max_queue_size
    → let delivered = in_delivery_order (entries_from b.publish_sequence es) in
      (b' : EventBus) × (publish_all es b ≡ queued b')
      × ((drain raises b'.priority_queue b').0 ≡ all_calls b.subscribers delivered)
      × ((drain raises b'.priority_queue b').1.handler_failure_count
          ≡ b.handler_failure_count + all_failures raises b.subscribers delivered)
      × ((drain raises b'.priority_queue b').1.priority_queue ≡ [])
drain-publish_all es b raises running empty room =
    let (b', burst) =
      publish_all-IsBurst es b [] running (rw empty (omega arith))
        (empty ∙ sym in_delivery_order-nil) tt in
    (
      b',
      burst.returned,
      drain-calls raises b'.priority_queue b' ∙ cc,
      drain-failures raises b'.priority_queue b' ∙ cc,
      drain-queue raises b'.priority_queue b' refl,
    )
