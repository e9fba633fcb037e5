-- ===== src/Events/Bus.antt =====
-- src/core/events/event_bus.py, event_types.py and the base event of
-- src/core/domain/data_primitives.py. `asyncio.PriorityQueue` keeps its entries in the order of
-- their tuples, whose sequence numbers differ, so the event types and payloads are not compared.
-- A callback is a number, and whether its call raises is an argument of the dispatch.
pub mod Order
pub mod Delivery
use apex_xauusd_engine.Prelude.{
  ℕ, suc, ◌+◌, Bool, true, false, not, ◌&&◌, ◌||◌, List, [], ◌∷◌, ◌++◌, map, if◌then◌else◌, leb,
  ltb, ◌==◌, length,
}
use apex_xauusd_engine.Domain.{EventPriority, priority_value}
use apex_xauusd_engine.Errors.{Result, ok, err, raise_if, ◌>>=◌, ◌>>◌, value_error}

pub data EngineEventType : Type 0 where
  market_tick candle_closed structure_shift liquidity_swept setup_found : EngineEventType
  risk_approved order_submitted order_filled telemetry_heartbeat : EngineEventType
  system_critical_halt : EngineEventType

pub record BaseEvent : Type 0 where
  pub timestamp : ℕ
  pub sequence_id : ℕ
  pub trace_id : ℕ
  pub correlation_id : ℕ
  pub priority : EventPriority

-- The tuple of the priority queue.
pub record Entry : Type 0 where
  pub priority_rank : ℕ
  pub publish_sequence : ℕ
  pub event_type : EngineEventType
  pub event_payload : BaseEvent

pub record EventBus : Type 0 where
  pub max_queue_size : ℕ
  pub subscribers : EngineEventType → List ℕ
  pub priority_queue : List Entry
  pub publish_sequence : ℕ
  pub handler_failure_count : ℕ
  pub is_running : Bool

-- `__init__`
unfoldable pub new_bus : ℕ → Result EventBus
new_bus max_queue_size = do
  raise_if (leb max_queue_size 0) value_error
  ok (record {
    max_queue_size = max_queue_size;
    subscribers = λ t. [];
    priority_queue = [];
    publish_sequence = 0;
    handler_failure_count = 0;
    is_running = false;
  })

unfoldable pub start : EventBus → EventBus
start b = record b { is_running = true }

-- The consumer is cancelled: what is queued stays queued.
unfoldable pub stop : EventBus → EventBus
stop b = record b { is_running = false }

-- `callback in handlers`
abbrev pub is_member : ℕ → List ℕ → Bool
is_member callback [] = false
is_member callback (h ∷ handlers) = callback == h || is_member callback handlers

abbrev pub add_handler : ℕ → List ℕ → List ℕ
add_handler callback handlers =
    if is_member callback handlers then handlers else handlers ++ callback ∷ []

abbrev pub same_type : EngineEventType → EngineEventType → Bool
same_type market_tick market_tick = true
same_type candle_closed candle_closed = true
same_type structure_shift structure_shift = true
same_type liquidity_swept liquidity_swept = true
same_type setup_found setup_found = true
same_type risk_approved risk_approved = true
same_type order_submitted order_submitted = true
same_type order_filled order_filled = true
same_type telemetry_heartbeat telemetry_heartbeat = true
same_type system_critical_halt system_critical_halt = true
same_type _ _ = false

unfoldable pub subscribe : EngineEventType → ℕ → EventBus → EventBus
subscribe event_type callback b = record b {
  subscribers = λ t.
      if same_type t event_type then add_handler callback (b.subscribers t) else b.subscribers t;
}

-- The order of the tuples on their first two parts.
abbrev pub comes_before : Entry → Entry → Bool
comes_before a b =
    ltb a.priority_rank b.priority_rank
    || (a.priority_rank == b.priority_rank && ltb a.publish_sequence b.publish_sequence)

-- `put` into the queue, which is kept in order.
unfoldable pub put : Entry → List Entry → List Entry
put e [] = e ∷ []
put e (x ∷ queue) = let rest = put e queue in if comes_before e x then e ∷ x ∷ queue else x ∷ rest

-- What `publish` does: it raises, it waits for room with its entry, or it returns.
pub data Publication : Type 0 where
  inactive : Publication
  waits : Entry → EventBus → Publication
  queued : EventBus → Publication

-- The entry that a publication makes.
abbrev pub entry_for : EventBus → EngineEventType → BaseEvent → Entry
entry_for b event_type event_payload = record {
  priority_rank = priority_value event_payload.priority;
  publish_sequence = b.publish_sequence;
  event_type = event_type;
  event_payload = event_payload;
}

-- A waiting `put`, when it is woken.
unfoldable pub put_in : Entry → EventBus → Publication
unfolding put
put_in e b =
    if leb b.max_queue_size (length b.priority_queue)
    then waits e b
    else queued (record b { priority_queue = put e b.priority_queue })

unfoldable pub publish : EngineEventType → BaseEvent → EventBus → Publication
unfolding put_in
publish event_type event_payload b =
    if not b.is_running
    then inactive
    else put_in (entry_for b event_type event_payload)
        (record b { publish_sequence = suc b.publish_sequence })

-- The results of `gather` that are exceptions.
abbrev pub failures : (ℕ → BaseEvent → Bool) → BaseEvent → List ℕ → ℕ
failures raises event_payload [] = 0
failures raises event_payload (h ∷ handlers) =
    (if raises h event_payload then 1 else 0) + failures raises event_payload handlers

-- The calls of the handlers for one entry.
abbrev pub calls_for : EventBus → Entry → List (ℕ × BaseEvent)
calls_for b e = map (λ h. (h, e.event_payload)) (b.subscribers e.event_type)

-- One iteration of `_drain_queue_loop` on a queue that is not empty, with its first entry.
unfoldable pub dispatch :
    (ℕ → BaseEvent → Bool) → Entry → List Entry → EventBus → List (ℕ × BaseEvent) × EventBus
dispatch raises e rest b = (
  calls_for b e,
  record b {
    priority_queue = rest;
    handler_failure_count =
        b.handler_failure_count + failures raises e.event_payload (b.subscribers e.event_type);
  },
)

-- The loop until the queue is empty, with all the calls it makes.
unfoldable pub drain :
    (ℕ → BaseEvent → Bool) → List Entry → EventBus → List (ℕ × BaseEvent) × EventBus
unfolding dispatch
drain raises [] b = ([], b)
drain raises (e ∷ rest) b =
    let (calls, b') = dispatch raises e rest b in
    let (later, end) = drain raises rest b' in (calls ++ later, end)
