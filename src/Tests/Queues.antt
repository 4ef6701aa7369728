-- ===== src/Tests/Queues.antt =====
-- Event queues, trends and lists of variables.
use lib_abk.Common.{pos, ◌∷◌, false, ◌≡◌, arith, [], ◌++◌, codes}
use lib_abk.Json.Escape.{c_str}
use lib_abk.Json.Document.{token, values, no_values, print}
use lib_abk.Json.Stream.{formatter, init_new, array_in_object, construct, begin_member}
use lib_abk.Server.Collector.{collection}
use lib_abk.Server.EventQueue.{
  EventQueue, event_queue, flush, queue_events, close_and_get_formatter, is_empty,
  flush-queue_events,
}
use lib_abk.Json.Stream.Wrote.{separator}
use lib_abk.Server.Trend.{
  Trend, new_trend, flush_trend, feed_trends, format_all_data, trend_member,
  format_all_data-feed_trends,
}
use lib_abk.Server.ValueList.{ValueList}
use lib_abk.Tests.Samples.{events}

-- The queue as it was constructed, with one array that is open.
abbrev queue : EventQueue
queue = event_queue (codes "event")

flush-queue_events_example :
    ((close_and_get_formatter (queue_events events (flush queue))).buffer.dump
      ≡ print (collection c_str (codes "event") events))
    × (is_empty (queue_events events (flush queue)) ≡ false)
unfolding event_queue flush formatter init_new array_in_object construct begin_member
flush-queue_events_example = flush-queue_events queue events (ground arith) (ground arith)

abbrev speed : Trend
speed = new_trend (codes "Speed")

format_all_data-feed_trends_example :
    ((format_all_data 0
        (feed_trends (codes "12" ∷ codes "13" ∷ []) (flush_trend speed))
        formatter).1.dump
      ≡ formatter.dump
        ++ (separator 0 formatter ++ trend_member (codes "Speed") (codes "12" ∷ codes "13" ∷ [])))
    × ((format_all_data 0
          (feed_trends []
            (format_all_data 0
              (feed_trends (codes "12" ∷ codes "13" ∷ []) (flush_trend speed))
              formatter).0)
          formatter).1.dump
        ≡ formatter.dump ++ (separator 0 formatter ++ trend_member (codes "Speed") []))
unfolding new_trend flush_trend formatter init_new array_in_object construct begin_member
format_all_data-feed_trends_example =
    format_all_data-feed_trends speed (codes "12" ∷ codes "13" ∷ []) [] 0 0 formatter formatter
      (ground arith)

abbrev axes : ValueList
axes = record {
  list_name = codes "Axes";
  cycle_ms = pos 100;
  variables =
      record { value_text = codes "1"; mam_values = values (token (codes "0")) no_values }
      ∷ record { value_text = codes "2"; mam_values = no_values }
      ∷ [];
}
