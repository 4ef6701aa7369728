-- ===== src/Server/Daq.antt =====
-- The data that a client orders: `CDaq` of ServerLib/Daq.cpp, its lists and trends in the map of
-- a session of ServerLib/Session.cpp, and their part in `Handle_EventPolling` of
-- ServerLib/LoggerIf.cpp.
use lib_abk.Common.{
  ℕ, Bool, true, false, List, [], ◌∷◌, Bytes, Option, none, some, if◌then◌else◌, equal, ℤ, pos, lt,
  eq, gt,
}
use lib_abk.Json.Stream.{Store}
use lib_abk.Server.Dispatch.{strcmp}
use lib_abk.Server.ValueList.{Kind, ValueList, format_list}
use lib_abk.Server.Trend.{Trend, new_trend, feed_trend, format_all_data}

-- The class of a `CDaq`, with its members.
pub data Source : Type 0 where
  listed : Kind → ValueList → Source
  trended : Trend → Source

-- `CDaq`, with `m_bTransferPending`.
pub record Daq : Type 0 where
  pub source : Source
  pub pending : Bool

-- `m_mapDaq`.
abbrev pub DaqMap : Type 0
DaqMap = List (Bytes × Daq)

-- `GetDaq`.
abbrev pub get_daq : Bytes → DaqMap → Option Daq
get_daq name [] = none
get_daq name ((n, d) ∷ m) = if equal n name then some d else get_daq name m

-- Writing through the pointer to a list.
abbrev pub change_daq : Bytes → (Daq → Daq) → DaqMap → DaqMap
change_daq name f [] = []
change_daq name f ((n, d) ∷ m) = if equal n name then (n, f d) ∷ m else (n, d) ∷ change_daq name f m

-- `CDaq::TimerTic`.
abbrev pub timer_tic : Daq → Daq
timer_tic d = record d { pending = true }

-- `CVarRef::FeedTrend`, for a value that was formatted to `text`.
abbrev pub feed_source : Bytes → Source → Source
feed_source text (listed k l) = listed k l
feed_source text (trended t) = trended (feed_trend text t)

-- The virtual `FormatAllData`.
abbrev pub format_source : ℕ → Source → Store → Source × Store
format_source i (listed k l) s = (listed k l, format_list k i l s)
format_source i (trended t) s = let (u, r) = format_all_data i t s in (trended u, r)

-- The body of the loop over the lists: what fired since the last transfer is written.
unfoldable pub transfer : ℕ → Daq → Store → Daq × Store
transfer i d s =
    let (c, r) = format_source i d.source s in
    if d.pending then (record { source = c; pending = false }, r) else (d, s)

unfoldable pub transfer_all : ℕ → DaqMap → Store → DaqMap × Store
unfolding transfer
transfer_all i [] s = ([], s)
transfer_all i ((n, d) ∷ m) s =
    let (e, r) = transfer i d s in let (k, q) = transfer_all i m r in ((n, e) ∷ k, q)

-- `std::map::insert`, in the order of the names; it leaves a name alone that is there.
abbrev pub insert_daq : Bytes → Daq → DaqMap → DaqMap
insert_daq name d [] = (name, d) ∷ []
insert_daq name d ((n, e) ∷ m) =
    let later = (n, e) ∷ insert_daq name d m in
    elim (strcmp name n) [ lt ↦ (name, d) ∷ (n, e) ∷ m | eq ↦ (n, e) ∷ m | gt ↦ later ]

abbrev pub erase_daq : Bytes → DaqMap → DaqMap
erase_daq name [] = []
erase_daq name ((n, d) ∷ m) = if equal n name then m else (n, d) ∷ erase_daq name m

-- `ABK_DAQ_CYCLE_DEFAULT`, in milliseconds.
abbrev pub default_cycle : ℤ
default_cycle = pos 200

-- A list and a trend as they are created.
abbrev pub created_list : Kind → Bytes → Daq
created_list k name = record {
  source = listed k (record { list_name = name; cycle_ms = default_cycle; variables = [] });
  pending = false;
}

abbrev pub created_trend : Bytes → Daq
created_trend name = record { source = trended (new_trend name); pending = false }

-- `PutDaqList` and `PutDaqTrend`: the map behind it. What is there under the name stays.
unfoldable pub put_daq : Bytes → Daq → DaqMap → DaqMap
put_daq name d m = elim (get_daq name m) [ none ↦ insert_daq name d m | some e ↦ m ]

-- `DeleteDaqList`.
unfoldable pub delete_daq_list : Bytes → DaqMap → Bool × DaqMap
delete_daq_list name m = elim (get_daq name m) [
  | none ↦ (false, m)
  | some e ↦ (true, erase_daq name m)
]
