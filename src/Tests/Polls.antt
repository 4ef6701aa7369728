-- ===== src/Tests/Polls.antt =====
-- A client that polls: an event, a list that fires, and a trend.
use lib_abk.Common.{◌≡◌, refl, arith, List, [], ◌∷◌, codes, none, false, true, pos}
use lib_abk.Json.Stream.{formatter, init_new}
use lib_abk.Json.Escape.{quoted}
use lib_abk.Json.Document.{print, no_values, values}
use lib_abk.Server.Sessions.{Client, new_session}
use lib_abk.Server.EventQueue.{event_queue, queue_events}
use lib_abk.Server.ValueList.{ValueList, daq_list}
use lib_abk.Server.Trend.{Trend, feed_trends, flush_trend}
use lib_abk.Server.Daq.{DaqMap, listed, trended}
use lib_abk.Server.Poll.{Event, event_polling}
use lib_abk.Server.Poll.Orders.{Order, current, collected, HoldsAll}
use lib_abk.Server.Poll.Waiting.{Waiting, HoldsSession, sent}
use lib_abk.Server.Poll.Reply.{event_polling-Waiting}
use lib_abk.Server.Poll.Spec.{
  Step, fires, tics, feeds, puts_trend, cancels, polls, run_steps, spec_steps, reply_texts,
  append_values, event_value,
}
use lib_abk.Server.Poll.Runs.{at_start, started, fired, sent_events, run_steps-sent}

abbrev client : Client
client = record {
  session = 1;
  address = codes "10.0.0.7";
  class_name = codes "display";
  type_name = codes "panel";
  serial = codes "A";
}

abbrev event : Event
event = record {
  sender = codes "0";
  sent = codes "12";
  event_type = codes "alert";
  text_param = codes "hot";
  param_1 = codes "1";
  param_2 = codes "0";
}

abbrev speeds : ValueList
speeds = record {
  list_name = codes "speed";
  cycle_ms = pos 200;
  variables = record { value_text = codes "7"; mam_values = no_values } ∷ [];
}

abbrev trend : Trend
trend = record {
  data_store = formatter;
  data_array = none;
  trend_name = codes "temp";
  trend_empty = false;
}

-- A list that has fired, and a trend that has not.
abbrev daqs : DaqMap
daqs =
    (codes "speed", record { source = listed daq_list speeds; pending = true })
    ∷ (codes "temp", record { source = trended (flush_trend trend); pending = false })
    ∷ []

abbrev orders : List Order
orders =
    record { order_name = codes "speed"; content = current daq_list speeds.variables; due = true }
    ∷ record { order_name = codes "temp"; content = collected []; due = false }
    ∷ []

daqs-HoldsAll : HoldsAll daqs orders
unfolding feed_trends formatter init_new
daqs-HoldsAll = (refl, refl, (refl, refl), (refl, refl, (trend, omega arith, refl, refl), tt))

abbrev waiting : Waiting
waiting = record { events = no_values; orders = orders }

session-HoldsSession : HoldsSession (started client daqs) waiting
unfolding new_session event_queue queue_events formatter init_new
session-HoldsSession = (
  (
    record { buffer = formatter; events = none; array_name = codes "Events"; empty = false },
    omega arith,
    refl,
    refl,
  ),
  daqs-HoldsAll,
)

event_polling-Waiting_example :
    ((event_polling (started client daqs)).1 ≡ codes "{\"DataLists\":{\"speed\":[7]}}")
    × HoldsSession (event_polling (started client daqs)).0 (sent waiting)
unfolding print quoted
event_polling-Waiting_example =
    event_polling-Waiting (started client daqs) waiting session-HoldsSession
      (tt, ((tt, tt), (tt, tt)))

abbrev steps : List Step
steps =
    polls
    ∷ fires event (codes "primary")
    ∷ puts_trend (codes "oil")
    ∷ feeds (codes "temp") (codes "40")
    ∷ tics (codes "temp")
    ∷ polls
    ∷ cancels (codes "temp")
    ∷ polls
    ∷ []

run_steps-sent_example :
    ((run_steps steps (started client daqs)).1 ≡ reply_texts (spec_steps steps (at_start orders)).1)
    × HoldsSession (run_steps steps (started client daqs)).0 (spec_steps steps (at_start orders)).0
    × (append_values
          (sent_events (spec_steps steps (at_start orders)).1)
          (spec_steps steps (at_start orders)).0.events
        ≡ values (event_value event (codes "primary")) no_values)
unfolding fired
run_steps-sent_example = run_steps-sent client daqs orders steps daqs-HoldsAll ((tt, tt), (tt, tt))
