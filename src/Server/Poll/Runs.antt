-- ===== src/Server/Poll/Runs.antt =====
-- A session keeps to its specification over time.
use lib_abk.Common.{false, ◌≡◌, refl, sym, ap, ap₂, ◌∙◌, arith, List, [], ◌∷◌, ◌++◌, codes, none}
use lib_abk.Json.Document.{Values, no_values, values, print}
use lib_abk.Json.Stream.{formatter, init_new}
use lib_abk.Server.EventQueue.{event_queue, queue_events}
use lib_abk.Server.Sessions.{Client, Session, new_session}
use lib_abk.Server.Daq.{Daq, DaqMap, timer_tic, feed_source}
use lib_abk.Server.Poll.Orders.{current, collected, Order, HoldsAll, AllWritable}
use lib_abk.Server.Poll.Waiting.{Waiting, Queued, HoldsSession, IsWritable, reply_document, sent}
use lib_abk.Server.Poll.Reply.{event_polling-Waiting}
use lib_abk.Server.Poll.Spec.{
  Step, fires, tics, feeds, polls, run_step, run_steps, event_value, append_values, one_value,
  mark_due, collect, spec_step, spec_steps, reply_texts,
}
use lib_abk.Server.Poll.Spec.{puts_list, puts_trend, cancels, new_order}
use lib_abk.Server.Daq.{created_list, created_trend}
use lib_abk.Server.Poll.Puts.{
  put-HoldsAll, created_list-Holds, created_trend-Holds, delete-HoldsAll, put-AllWritable,
  erase-AllWritable,
}
use lib_abk.Server.Poll.Changes.{
  fire-Queued, collect-Holds, change-HoldsAll, change-AllWritable, collect-Writable,
  send_all-AllWritable, append-WritableValues, event_value-Writable,
}

-- One step keeps to the specification.
run_step-spec :
    (x : Step) (s : Session) (w : Waiting)
    → HoldsSession s w
    → IsWritable w
    → ((run_step x s).1 ≡ reply_texts (spec_step x w).1)
      × HoldsSession (run_step x s).0 (spec_step x w).0
      × IsWritable (spec_step x w).0
unfolding run_step spec_step event_value
run_step-spec (fires e role) s w (q, d) (a, b) = (
  refl,
  (fire-Queued e role s.events w.events q, d),
  (append-WritableValues w.events (event_value e role) a (event_value-Writable e role), b),
)
run_step-spec (tics name) s w (q, d) (a, b) = (
  refl,
  (q, change-HoldsAll name timer_tic mark_due s.daqs w.orders (λ o. refl) (λ d o h. (refl, h.1)) d),
  (a, change-AllWritable name mark_due w.orders (λ o h. h) b),
)
run_step-spec (feeds name t) s w (q, d) (a, b) =
    let f = λ (d : Daq). record d { source = feed_source t d.source } in
    let g = λ (o : Order). record o { content = collect t o.content } in
    (
      refl,
      (
        q,
        change-HoldsAll name f g s.daqs w.orders (λ o. refl)
            (λ d o h. (h.0, collect-Holds t d.source o.order_name o.content h.1)) d,
      ),
      (a, change-AllWritable name g w.orders (λ o h. collect-Writable t o.content h) b),
    )
run_step-spec (puts_list k name) s w (q, d) (a, b) =
    let o = new_order name (current k []) in
    (
      refl,
      (q, put-HoldsAll (created_list k name) o s.daqs w.orders refl (created_list-Holds k name) d),
      (a, put-AllWritable o w.orders tt b),
    )
run_step-spec (puts_trend name) s w (q, d) (a, b) =
    let o = new_order name (collected []) in
    (
      refl,
      (q, put-HoldsAll (created_trend name) o s.daqs w.orders refl (created_trend-Holds name) d),
      (a, put-AllWritable o w.orders tt b),
    )
run_step-spec (cancels name) s w (q, d) (a, b) =
    (refl, (q, delete-HoldsAll name s.daqs w.orders d), (a, erase-AllWritable name w.orders b))
run_step-spec polls s w h (a, b) =
    let (r, k) = event_polling-Waiting s w h (a, b) in
    (ap (λ x. x ∷ []) r, k, (tt, send_all-AllWritable w.orders b))

-- Many steps keep to the specification.
run_steps-spec :
    (xs : List Step) (s : Session) (w : Waiting)
    → HoldsSession s w
    → IsWritable w
    → ((run_steps xs s).1 ≡ reply_texts (spec_steps xs w).1)
      × HoldsSession (run_steps xs s).0 (spec_steps xs w).0
unfolding run_steps spec_steps
run_steps-spec [] s w h k = (refl, h)
run_steps-spec (x ∷ xs) s w h k =
    let (e, h, k) = run_step-spec x s w h k in
    let (f, g) = run_steps-spec xs (run_step x s).0 (spec_step x w).0 h k in
    (
      ap₂ (◌++◌) e f
          ∙ sym (reply_texts-append (spec_step x w).1 (spec_steps xs (spec_step x w).0).1),
      g,
    )
  where
    reply_texts-append :
        (a b : List Waiting) → reply_texts (a ++ b) ≡ reply_texts a ++ reply_texts b
    reply_texts-append [] b = refl
    reply_texts-append (w ∷ a) b = ap (λ r. print (reply_document w) ∷ r) (reply_texts-append a b)

-- The events that were fired, and those that were sent.
unfoldable pub fired : List Step → Values
fired [] = no_values
fired (fires e role ∷ xs) = values (event_value e role) (fired xs)
fired (tics n ∷ xs) = fired xs
fired (feeds n t ∷ xs) = fired xs
fired (puts_list k n ∷ xs) = fired xs
fired (puts_trend n ∷ xs) = fired xs
fired (cancels n ∷ xs) = fired xs
fired (polls ∷ xs) = fired xs

abbrev pub sent_events : List Waiting → Values
sent_events [] = no_values
sent_events (w ∷ ws) = append_values w.events (sent_events ws)

append_values_assoc :
    (a b c : Values) → append_values (append_values a b) c ≡ append_values a (append_values b c)
append_values_assoc no_values b c = refl
append_values_assoc (values v a) b c = ap (values v) (append_values_assoc a b c)

append_values_nil : (a : Values) → append_values a no_values ≡ a
append_values_nil no_values = refl
append_values_nil (values v a) = ap (values v) (append_values_nil a)

sent-spec_steps :
    (xs : List Step) (w : Waiting)
    → append_values (sent_events (spec_steps xs w).1) (spec_steps xs w).0.events
      ≡ append_values w.events (fired xs)
unfolding spec_steps spec_step fired
sent-spec_steps [] w = sym (append_values_nil w.events)
sent-spec_steps (fires e role ∷ xs) w =
    sent-spec_steps xs (spec_step (fires e role) w).0
    ∙ append_values_assoc w.events (one_value (event_value e role)) (fired xs)
sent-spec_steps (tics n ∷ xs) w = sent-spec_steps xs (spec_step (tics n) w).0
sent-spec_steps (feeds n t ∷ xs) w = sent-spec_steps xs (spec_step (feeds n t) w).0
sent-spec_steps (puts_list k n ∷ xs) w = sent-spec_steps xs (spec_step (puts_list k n) w).0
sent-spec_steps (puts_trend n ∷ xs) w = sent-spec_steps xs (spec_step (puts_trend n) w).0
sent-spec_steps (cancels n ∷ xs) w = sent-spec_steps xs (spec_step (cancels n) w).0
sent-spec_steps (polls ∷ xs) w =
    append_values_assoc w.events (sent_events (spec_steps xs (sent w)).1)
      (spec_steps xs (sent w)).0.events
    ∙ ap (append_values w.events) (sent-spec_steps xs (sent w))

new_session-Queued : (c : Client) → Queued (new_session c).events no_values
unfolding new_session event_queue queue_events formatter init_new
new_session-Queued c = (
  record { buffer = formatter; events = none; array_name = codes "Events"; empty = false },
  omega arith,
  refl,
  refl,
)

-- What waits at the start, and the session then.
abbrev pub at_start : List Order → Waiting
at_start os = record { events = no_values; orders = os }

abbrev pub started : Client → DaqMap → Session
started c m = record (new_session c) { daqs = m }

-- A session from its start on, with what its client has ordered: whatever events are fired at it
-- and whenever its lists and trends come and go, fire, are fed and its client polls, the replies
-- and what waits in the end are those of the specification: each reply is the text of the document
-- of what waited then. The events of the replies, followed by those that still wait, are exactly
-- the events that were fired, each once and in their order. The condition: the names of the values
-- in the lists that are no containers are written as `const char *`.
pub run_steps-sent :
    (c : Client) (m : DaqMap) (os : List Order) (xs : List Step)
    → HoldsAll m os
    → AllWritable os
    → ((run_steps xs (started c m)).1 ≡ reply_texts (spec_steps xs (at_start os)).1)
      × HoldsSession (run_steps xs (started c m)).0 (spec_steps xs (at_start os)).0
      × (append_values
            (sent_events (spec_steps xs (at_start os)).1)
            (spec_steps xs (at_start os)).0.events
          ≡ fired xs)
run_steps-sent c m os xs h k =
    let (e, q) = run_steps-spec xs (started c m) (at_start os) (new_session-Queued c, h) (tt, k) in
    (e, q, sent-spec_steps xs (at_start os))
