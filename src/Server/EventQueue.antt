-- ===== src/Server/EventQueue.antt =====
-- ServerLib/EventQueue: the queue of the events that the clients of a server have not polled yet.
-- The queue holds a JSON document with one array, which stays open until the queue is polled.
use lib_abk.Common.{
  ℕ, ◌≤◌, ◌<◌, Bool, true, false, ◌≡◌, refl, ap, ◌∙◌, arith, ◌++◌, Bytes, Option, none, some,
  Option-cases,
}
use lib_abk.Json.Escape.{c_str}
use lib_abk.Json.Unescape.{Ptr}
use lib_abk.Json.Parser.{restart}
use lib_abk.Json.Reading.{inner}
use lib_abk.Json.Reading.RoundTrip.{ReadsDocument, read_document}
use lib_abk.Json.Document.{Value, Values, no_values, values, print, WellFormed, depth}
use lib_abk.Json.Stream.{Store, init_new, array_in_object, close, formatter}
use lib_abk.Json.Stream.Close.{close-fresh}
use lib_abk.Json.Stream.Writer.{WritableValues, write_in_array, write_values}
use lib_abk.Server.Collector.{collection, close-filled, filled-fresh}

-- `CEventQueue`: `m_jfBuffer`, `m_pJaEvents`, `m_strArryName` and `m_bEmpty`.
pub record EventQueue : Type 0 where
  pub buffer : Store
  pub events : Option ℕ
  pub array_name : Bytes
  pub empty : Bool

-- `if(m_pJaEvents) delete m_pJaEvents`, whose destructor closes the array.
abbrev pub delete_events : Option ℕ → Store → Store
delete_events none s = s
delete_events (some a) s = close a s

-- `CEventQueue::Flush`.
unfoldable pub flush : EventQueue → EventQueue
flush q =
    let s = init_new (delete_events q.events q.buffer) in
    record q {
      buffer = array_in_object 0 c_str q.array_name s;
      events = some s.fresh;
      empty = true;
    }

-- The constructor of `CEventQueue`.
unfoldable pub event_queue : Bytes → EventQueue
unfolding flush
event_queue name =
    flush (record { buffer = formatter; events = none; array_name = name; empty = false })

-- `CEventQueue::CloseAndGetFormatter`.
unfoldable pub close_and_get_formatter : EventQueue → EventQueue
close_and_get_formatter q = record q { buffer = close 0 q.buffer }

-- `CEventQueue::GetArrayForFeeding`.
unfoldable pub get_array_for_feeding : EventQueue → Option ℕ × EventQueue
get_array_for_feeding q = (q.events, record q { empty = false })

-- `CEventQueue::IsEmpty`.
unfoldable pub is_empty : EventQueue → Bool
is_empty q = q.empty

-- A server that queues one event: it asks for the array, and writes the event to it. Nothing is
-- written through a pointer that is NULL.
unfoldable pub queue_event : Value → EventQueue → EventQueue
unfolding get_array_for_feeding
queue_event v q =
    let (a, r) = get_array_for_feeding q in
    elim a [ none ↦ r | some i ↦ record r { buffer = write_in_array i v r.buffer } ]

unfoldable pub queue_events : Values → EventQueue → EventQueue
queue_events no_values q = q
queue_events (values v vs) q = queue_events vs (queue_event v q)

-- A list of events is empty.
abbrev pub no_events : Values → Bool
no_events no_values = true
no_events (values v vs) = false

queue_event-some :
    (v : Value) (q : EventQueue) (i : ℕ)
    → q.events ≡ some i
    → queue_event v q ≡ record q { buffer = write_in_array i v q.buffer; empty = false }
unfolding queue_event get_array_for_feeding
queue_event-some v q i e = ground arith

queue_events-buffer :
    (vs : Values) (q : EventQueue) (i : ℕ)
    → q.events ≡ some i
    → (queue_events vs q).buffer ≡ write_values i vs q.buffer
unfolding queue_events write_values
queue_events-buffer no_values q i e = refl
queue_events-buffer (values v vs) q i e =
    ap (λ r. (queue_events vs r).buffer) (queue_event-some v q i e)
    ∙ queue_events-buffer vs (record q { buffer = write_in_array i v q.buffer; empty = false }) i e

queue_events-empty :
    (vs : Values) (q : EventQueue) (i : ℕ)
    → q.events ≡ some i
    → q.empty ≡ false
    → (queue_events vs q).empty ≡ false
unfolding queue_events
queue_events-empty no_values q i e f = f
queue_events-empty (values v vs) q i e f =
    ap (λ r. (queue_events vs r).empty) (queue_event-some v q i e)
    ∙ queue_events-empty vs (record q { buffer = write_in_array i v q.buffer; empty = false }) i e
        refl

queue_events-no_events :
    (vs : Values) (q : EventQueue) (i : ℕ)
    → q.events ≡ some i
    → q.empty ≡ true
    → (queue_events vs q).empty ≡ no_events vs
unfolding queue_events
queue_events-no_events no_values q i e f = f
queue_events-no_events (values v vs) q i e f =
    ap (λ r. (queue_events vs r).empty) (queue_event-some v q i e)
    ∙ queue_events-empty vs (record q { buffer = write_in_array i v q.buffer; empty = false }) i e
        refl

delete_events-fresh : (a : Option ℕ) (s : Store) → (delete_events a s).fresh ≡ s.fresh
delete_events-fresh none s = refl
delete_events-fresh (some i) s = close-fresh i s

-- One cycle of the queue, from any state that it was left in, an open array, an array that was
-- closed by a poll or none: after `Flush`, and any number of queued events, the closed formatter
-- holds the document with exactly these events, in their order, and `IsEmpty` says whether there
-- were any. The conditions: at least the formatter was constructed, and the names of the values
-- in the events that are no containers are written as `const char *`.
pub flush-queue_events :
    (q : EventQueue) (vs : Values)
    → 0 < q.buffer.fresh
    → WritableValues vs
    → ((close_and_get_formatter (queue_events vs (flush q))).buffer.dump
        ≡ print (collection c_str q.array_name vs))
      × (is_empty (queue_events vs (flush q)) ≡ no_events vs)
unfolding flush close_and_get_formatter is_empty init_new
flush-queue_events q vs l h =
    let s = delete_events q.events q.buffer in
    let k : 0 < s.fresh = omega (arith, l, delete_events-fresh q.events q.buffer) in
    (
      ap (λ t. (close 0 t).dump) (queue_events-buffer vs (flush q) s.fresh refl)
          ∙ close-filled c_str q.array_name vs s k h,
      queue_events-no_events vs (flush q) s.fresh refl refl,
    )

pub queue_events-fresh :
    (q : EventQueue) (vs : Values)
    → 0 < q.buffer.fresh
    → WritableValues vs
    → 0 < (queue_events vs (flush q)).buffer.fresh
unfolding flush init_new
queue_events-fresh q vs l h =
    let s = delete_events q.events q.buffer in
    let k : 0 < s.fresh = omega (arith, l, delete_events-fresh q.events q.buffer) in
    omega (
      arith,
      k,
      filled-fresh c_str q.array_name vs s k h,
      ap (λ t. t.fresh) (queue_events-buffer vs (flush q) s.fresh refl),
    )

pub queue_events-name :
    (vs : Values) (q : EventQueue) → (queue_events vs q).array_name ≡ q.array_name
unfolding queue_events queue_event get_array_for_feeding
queue_events-name no_values q = refl
queue_events-name (values v vs) q = queue_events-name vs (queue_event v q) ∙ kept v q
  where
    kept : (v : Value) (q : EventQueue) → (queue_event v q).array_name ≡ q.array_name
    kept v q = ground (arith, Option-cases q.events)

-- A client that polls the queue reads the events of a cycle: the closed formatter holds a text
-- whose items the parser reads back. The conditions: at least the formatter was constructed, the
-- names of the values that are no containers are written as `const char *`, no name or text holds
-- a NUL, every token is a token, and at most nine containers stand in one another.
flush-ReadsDocument :
    (q : EventQueue) (vs : Values) (old : ℕ → Bool) (rest : Ptr)
    → 0 < q.buffer.fresh
    → WritableValues vs
    → WellFormed (collection c_str q.array_name vs)
    → depth (collection c_str q.array_name vs) ≤ 9
    → ReadsDocument
        (restart old ((close_and_get_formatter (queue_events vs (flush q))).buffer.dump ++ rest))
        (inner (collection c_str q.array_name vs))
        rest
flush-ReadsDocument q vs old rest l h w m =
    rw ((flush-queue_events q vs l h).0)
      (read_document (collection c_str q.array_name vs) old rest tt w m)
