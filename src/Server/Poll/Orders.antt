-- ===== src/Server/Poll/Orders.antt =====
-- What a client has ordered, without the streams that hold it.
use lib_abk.Common.{◌<◌, Bool, false, ◌≡◌, List, [], ◌∷◌, Bytes, if◌then◌else◌}
use lib_abk.Json.Escape.{std_string}
use lib_abk.Json.Document.{arr, Values, Fields, no_fields, fields}
use lib_abk.Json.Stream.Writer.{WritableValues}
use lib_abk.Server.ValueList.{Kind, Variable, variable_values}
use lib_abk.Server.Trend.{Trend, tokens, feed_trends, flush_trend}
use lib_abk.Server.Daq.{Source, listed, trended, DaqMap}

-- The current values of the variables of a list, or the values that a trend collected.
pub data Content : Type 0 where
  current : Kind → List Variable → Content
  collected : List Bytes → Content

pub record Order : Type 0 where
  pub order_name : Bytes
  pub content : Content
  pub due : Bool

abbrev pub content_values : Content → Values
content_values (current k vs) = variable_values k vs
content_values (collected vs) = tokens vs

-- What is left behind a transfer.
abbrev pub left_over : Content → Content
left_over (current k vs) = current k vs
left_over (collected vs) = collected []

abbrev pub send : Order → Order
send o = if o.due then record o { content = left_over o.content; due = false } else o

abbrev pub send_all : List Order → List Order
send_all [] = []
send_all (o ∷ os) = send o ∷ send_all os

-- The members for the orders that are due.
abbrev pub due_fields : List Order → Fields
due_fields [] = no_fields
due_fields (o ∷ os) =
    let rest = due_fields os in
    if o.due then fields std_string o.order_name (arr (content_values o.content)) rest else rest

abbrev pub Holds : Source → Bytes → Content → Type 0
Holds (listed k l) n (current j vs) = (l.list_name ≡ n) × (current k l.variables ≡ current j vs)
Holds (trended t) n (collected vs) =
    (u : Trend) × (0 < u.data_store.fresh)
    × (u.trend_name ≡ n)
    × (t ≡ feed_trends vs (flush_trend u))
Holds (listed k l) n (collected vs) = ⊥
Holds (trended t) n (current j vs) = ⊥

abbrev pub HoldsAll : DaqMap → List Order → Type 0
HoldsAll [] [] = Unit {0}
HoldsAll [] (o ∷ os) = ⊥
HoldsAll (x ∷ m) [] = ⊥
HoldsAll ((n, d) ∷ m) (o ∷ os) =
    (n ≡ o.order_name) × (d.pending ≡ o.due) × Holds d.source o.order_name o.content × HoldsAll m os

-- A format function that writes a value may only write it where the classes can.
abbrev pub AllWritable : List Order → Type 0
AllWritable [] = Unit {0}
AllWritable (o ∷ os) = WritableValues (content_values o.content) × AllWritable os
