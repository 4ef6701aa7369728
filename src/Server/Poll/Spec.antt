-- ===== src/Server/Poll/Spec.antt =====
-- A session over time, with events that are fired at it, lists that come and go, fire and are fed,
-- and a client that polls, and the specification of it.
use lib_abk.Common.{
  false, Option, none, some, lt, eq, gt, true, List, [], ◌∷◌, ◌++◌, Bytes, codes, if◌then◌else◌,
  equal,
}
use lib_abk.Json.Escape.{c_str, std_string}
use lib_abk.Json.Document.{
  Value, token, text, obj, Values, no_values, values, no_fields, fields, print,
}
use lib_abk.Server.Sessions.{Session}
use lib_abk.Server.Daq.{
  change_daq, timer_tic, feed_source, put_daq, created_list, created_trend, delete_daq_list,
}
use lib_abk.Server.Dispatch.{strcmp}
use lib_abk.Server.ValueList.{Kind}
use lib_abk.Server.Poll.{Event, fire_event_to_client, event_polling}
use lib_abk.Server.Poll.Orders.{Content, current, collected, Order}
use lib_abk.Server.Poll.Waiting.{Waiting, reply_document, sent}

pub data Step : Type 0 where
  fires : Event → Bytes → Step
  tics : Bytes → Step
  puts_list : Kind → Bytes → Step
  puts_trend cancels : Bytes → Step
  feeds : Bytes → Bytes → Step
  polls : Step

-- What a step does to a session, and the texts that it replies.
unfoldable pub run_step : Step → Session → Session × List Bytes
unfolding fire_event_to_client event_polling put_daq delete_daq_list
run_step (fires e role) s = (record s { events = fire_event_to_client e role s.events }, [])
run_step (tics name) s = (record s { daqs = change_daq name timer_tic s.daqs }, [])
run_step (feeds name t) s = (
  record s { daqs = change_daq name (λ d. record d { source = feed_source t d.source }) s.daqs },
  [],
)
run_step (puts_list k name) s = (record s { daqs = put_daq name (created_list k name) s.daqs }, [])
run_step (puts_trend name) s = (record s { daqs = put_daq name (created_trend name) s.daqs }, [])
run_step (cancels name) s = (record s { daqs = (delete_daq_list name s.daqs).1 }, [])
run_step polls s = let (after, reply) = event_polling s in (after, reply ∷ [])

unfoldable pub run_steps : List Step → Session → Session × List Bytes
unfolding run_step
run_steps [] s = (s, [])
run_steps (x ∷ xs) s = let (t, a) = run_step x s in let (u, b) = run_steps xs t in (u, a ++ b)

-- An event as a value, for a client of the role.
unfoldable pub event_value : Event → Bytes → Value
event_value e role = obj (
    fields c_str (codes "Sender") (token e.sender) (
      fields c_str (codes "Time") (token e.sent) (
        fields c_str (codes "EventType") (text c_str e.event_type) (
          fields c_str (codes "Role") (text std_string role) (
            fields c_str (codes "StringParam") (text std_string e.text_param) (
              fields c_str (codes "Param1") (token e.param_1)
                (fields c_str (codes "Param2") (token e.param_2) no_fields)))))))

abbrev pub append_values : Values → Values → Values
append_values no_values ws = ws
append_values (values v vs) ws = values v (append_values vs ws)

abbrev pub one_value : Value → Values
one_value v = values v no_values

abbrev pub change_order : Bytes → (Order → Order) → List Order → List Order
change_order name f [] = []
change_order name f (o ∷ os) =
    if equal o.order_name name then f o ∷ os else o ∷ change_order name f os

abbrev pub mark_due : Order → Order
mark_due o = record o { due = true }

abbrev pub collect : Bytes → Content → Content
collect t (current k vs) = current k vs
collect t (collected vs) = collected (vs ++ (t ∷ []))

abbrev pub get_order : Bytes → List Order → Option Order
get_order name [] = none
get_order name (o ∷ os) = if equal o.order_name name then some o else get_order name os

-- Orders stand in the order of their names.
abbrev pub insert_order : Order → List Order → List Order
insert_order o [] = o ∷ []
insert_order o (p ∷ os) =
    let later = p ∷ insert_order o os in
    elim (strcmp o.order_name p.order_name) [ lt ↦ o ∷ p ∷ os | eq ↦ p ∷ os | gt ↦ later ]

abbrev pub erase_order : Bytes → List Order → List Order
erase_order name [] = []
erase_order name (o ∷ os) = if equal o.order_name name then os else o ∷ erase_order name os

abbrev pub put_order : Order → List Order → List Order
put_order o os = elim (get_order o.order_name os) [ none ↦ insert_order o os | some p ↦ os ]

abbrev pub new_order : Bytes → Content → Order
new_order name c = record { order_name = name; content = c; due = false }

-- The specification: what waits behind a step, and what was sent by it.
unfoldable pub spec_step : Step → Waiting → Waiting × List Waiting
unfolding event_value
spec_step (fires e role) w =
    (record w { events = append_values w.events (one_value (event_value e role)) }, [])
spec_step (tics name) w = (record w { orders = change_order name mark_due w.orders }, [])
spec_step (feeds name t) w = (
  record w {
    orders = change_order name (λ o. record o { content = collect t o.content }) w.orders;
  },
  [],
)
spec_step (puts_list k name) w =
    (record w { orders = put_order (new_order name (current k [])) w.orders }, [])
spec_step (puts_trend name) w =
    (record w { orders = put_order (new_order name (collected [])) w.orders }, [])
spec_step (cancels name) w = (record w { orders = erase_order name w.orders }, [])
spec_step polls w = (sent w, w ∷ [])

unfoldable pub spec_steps : List Step → Waiting → Waiting × List Waiting
unfolding spec_step
spec_steps [] w = (w, [])
spec_steps (x ∷ xs) w = let (t, a) = spec_step x w in let (u, b) = spec_steps xs t in (u, a ++ b)

abbrev pub reply_texts : List Waiting → List Bytes
reply_texts [] = []
reply_texts (w ∷ ws) = print (reply_document w) ∷ reply_texts ws
