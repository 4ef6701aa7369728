-- ===== src/Server/Poll/Waiting.antt =====
-- What waits for a client, and the queue of its events.
use lib_abk.Common.{
  ◌<◌, true, false, ◌≡◌, refl, sym, ap, ◌∙◌, subst, arith, List, [], ◌∷◌, ◌++◌, Bytes, codes,
  if◌then◌else◌, Bool-cases, inl, inr, append_assoc, append-nil,
}
use lib_abk.Json.Escape.{c_str, quoted}
use lib_abk.Json.Document.{
  Value, arr, obj, Values, no_values, values, Fields, no_fields, fields, print,
}
use lib_abk.Json.Stream.{Store, write_members}
use lib_abk.Json.Stream.Writer.{WritableValues}
use lib_abk.Server.EventQueue.{
  EventQueue, flush, queue_events, close_and_get_formatter, is_empty, no_events, flush-queue_events,
  queue_events-fresh, queue_events-name,
}
use lib_abk.Json.Stream.Close.{close-fresh}
use lib_abk.Server.Collector.{collection}
use lib_abk.Server.Sessions.{Session}
use lib_abk.Server.Poll.{move_events}
use lib_abk.Server.Poll.Orders.{Order, HoldsAll, AllWritable, due_fields, send_all}

-- What waits for a client: the events, and what it has ordered.
pub record Waiting : Type 0 where
  pub events : Values
  pub orders : List Order

abbrev pub Queued : EventQueue → Values → Type 0
Queued q vs =
    (p : EventQueue) × (0 < p.buffer.fresh)
    × (p.array_name ≡ codes "Events")
    × (q ≡ queue_events vs (flush p))

abbrev pub HoldsSession : Session → Waiting → Type 0
HoldsSession s w = Queued s.events w.events × HoldsAll s.daqs w.orders

abbrev pub IsWritable : Waiting → Type 0
IsWritable w = WritableValues w.events × AllWritable w.orders

-- The document of a reply: the events, if there are any, and the data lists that are due.
abbrev pub data_field : List Order → Fields
data_field os = fields c_str (codes "DataLists") (obj (due_fields os)) no_fields

abbrev pub reply_fields : Values → Fields → Fields
reply_fields vs rest = if no_events vs then rest else fields c_str (codes "Events") (arr vs) rest

abbrev pub reply_document : Waiting → Value
reply_document w = obj (reply_fields w.events (data_field w.orders))

-- What waits when everything has been sent.
abbrev pub sent : Waiting → Waiting
sent w = record { events = no_values; orders = send_all w.orders }

unfoldable pub events_member : Values → Bytes
events_member vs = quoted c_str (codes "Events") ++ (b':' ∷ print (arr vs))

pub events_text :
    (vs : Values)
    → print (collection c_str (codes "Events") vs) ≡ b'{' ∷ (events_member vs ++ (b'}' ∷ []))
unfolding print events_member
events_text vs = simp (append_assoc, append-nil)

pub move_events-none : (q : EventQueue) (s : Store) → is_empty q ≡ true → move_events q s ≡ (q, s)
unfolding move_events
move_events-none q s e =
    let c = close_and_get_formatter q in
    ap (λ b. if b then (q, s) else (flush c, write_members 0 c.buffer s)) e

pub move_events-some :
    (q : EventQueue) (s : Store)
    → is_empty q ≡ false
    → move_events q s
      ≡ (flush (close_and_get_formatter q), write_members 0 (close_and_get_formatter q).buffer s)
unfolding move_events
move_events-some q s e =
    let c = close_and_get_formatter q in
    ap (λ b. if b then (q, s) else (flush c, write_members 0 c.buffer s)) e

pub Queued-is_empty :
    (q : EventQueue) (vs : Values) → Queued q vs → WritableValues vs → is_empty q ≡ no_events vs
Queued-is_empty q vs (p, l, n, e) w = ap is_empty e ∙ (flush-queue_events p vs l w).1

pub Queued-dump :
    (q : EventQueue) (vs : Values)
    → Queued q vs
    → WritableValues vs
    → (close_and_get_formatter q).buffer.dump ≡ b'{' ∷ (events_member vs ++ (b'}' ∷ []))
Queued-dump q vs (p, l, n, e) w =
    ap (λ r. (close_and_get_formatter r).buffer.dump) e
    ∙ (flush-queue_events p vs l w).0
    ∙ ap (λ x. print (collection c_str x vs)) n
    ∙ events_text vs

pub flush_name : (p : EventQueue) → (flush p).array_name ≡ p.array_name
unfolding flush
flush_name p = refl

pub flush-Queued :
    (q : EventQueue) (vs : Values)
    → Queued q vs
    → WritableValues vs
    → Queued (flush (close_and_get_formatter q)) no_values
unfolding close_and_get_formatter queue_events
flush-Queued q vs (p, l, n, e) w = (
  close_and_get_formatter q,
  omega (arith, close-fresh 0 q.buffer, queue_events-fresh p vs l w, ap (λ r. r.buffer.fresh) e),
  ap (λ r. r.array_name) e ∙ queue_events-name vs (flush p) ∙ flush_name p ∙ n,
  refl,
)

pub no_events-none : (vs : Values) → no_events vs ≡ true → vs ≡ no_values
no_events-none no_values e = refl
no_events-none (values v vs) e = ground (arith, e)

-- What the first part of a poll leaves.
pub move_events-Queued :
    (q : EventQueue) (vs : Values) (s : Store)
    → Queued q vs
    → WritableValues vs
    → Queued (move_events q s).0 no_values
move_events-Queued q vs s h w = elim (Bool-cases (no_events vs)) [
  | inl y ↦
      subst (λ r. Queued r.0 no_values) (sym (move_events-none q s (Queued-is_empty q vs h w ∙ y)))
        (subst (Queued q) (no_events-none vs y) h)
  | inr y ↦
      subst (λ r. Queued r.0 no_values) (sym (move_events-some q s (Queued-is_empty q vs h w ∙ y)))
        (flush-Queued q vs h w)
]
