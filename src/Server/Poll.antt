-- ===== src/Server/Poll.antt =====
-- The polling of events: `Handle_EventPolling` of ServerLib/LoggerIf.cpp behind `GetSession`, and
-- `FireEventToClient` of ServerLib/Session.cpp. The wait for an event is no step of its own: what
-- happens to the session meanwhile are steps before. The text forms of numbers are parameters.
pub mod Orders
pub mod Transfer
pub mod Waiting
pub mod Reply
pub mod Spec
pub mod Puts
pub mod Changes
pub mod Runs
use lib_abk.Common.{
  ◌==◌, ℕ, zero, suc, Bool, true, false, List, [], ◌∷◌, ◌++◌, Bytes, codes, Option, none, some,
  if◌then◌else◌, ℤ,
}
use lib_abk.Json.Escape.{c_str, std_string, quoted}
use lib_abk.Json.Document.{Value}
use lib_abk.Json.Stream.{
  Store, formatter, object_in_array, object_in_object, close, write_field, write_members,
}
use lib_abk.Server.EventQueue.{
  EventQueue, flush, close_and_get_formatter, get_array_for_feeding, is_empty,
}
use lib_abk.Server.Daq.{DaqMap, change_daq, feed_source, timer_tic, transfer_all}
use lib_abk.Server.Sessions.{
  Session, Sessions, SessionMap, get_client_role, get_session, change_session,
}

-- What `FireEventToClient` is given. The numbers are in their text forms.
pub record Event : Type 0 where
  pub sender : Bytes
  pub sent : Bytes
  pub event_type : Bytes
  pub text_param : Bytes
  pub param_1 : Bytes
  pub param_2 : Bytes

-- The members of an event, for a client of the role.
abbrev pub write_event : ℕ → Event → Bytes → Store → Store
write_event i e role s = write_field i (codes "Param2") e.param_2 (
    write_field i (codes "Param1") e.param_1 (
      write_field i (codes "StringParam") (quoted std_string e.text_param) (
        write_field i (codes "Role") (quoted std_string role) (
          write_field i (codes "EventType") (quoted c_str e.event_type)
            (write_field i (codes "Time") e.sent (write_field i (codes "Sender") e.sender s))))))

-- `FireEventToClient`. Nothing is written through a pointer that is NULL.
unfoldable pub fire_event_to_client : Event → Bytes → EventQueue → EventQueue
unfolding get_array_for_feeding
fire_event_to_client e role q =
    let (a, r) = get_array_for_feeding q in
    elim a [
      | none ↦ r
      | some i ↦
          let s = r.buffer in
          record r { buffer = close s.fresh (write_event s.fresh e role (object_in_array i s)) }
    ]

-- `FireEventToAllClients`, whose role is forced by nobody.
abbrev pub fire_all : Event → (ℕ → Bytes → Bytes) → SessionMap → SessionMap
fire_all e role [] = []
fire_all e role ((i, s) ∷ m) =
    (i, record s { events = fire_event_to_client e (role i s.client.class_name) s.events })
    ∷ fire_all e role m

-- The time of sending, where zero stands for now.
abbrev pub send_time : ℕ → ℕ → ℕ
send_time now tm_send = if tm_send == 0 then now else tm_send

-- `show_time` is the text form of a time.
unfoldable pub fire_event_to_all_clients : (ℕ → Bytes) → ℕ → ℕ → Event → Sessions → Sessions
unfolding get_client_role
fire_event_to_all_clients show_time now tm_send event st =
    let e = record event { sent = show_time (send_time now tm_send) } in
    record st { map = fire_all e (λ i class. get_client_role i class st) st.map }

-- A private event of `Handle_PutClientEvent` that the logger has not handled: it goes back to its
-- sender, with the role forced to be the primary one.
unfoldable pub reflect_event : (ℕ → Bytes) → ℕ → ℕ → Event → Sessions → Sessions
unfolding get_session
reflect_event show_time id sent event st =
    let e = record event { sent = show_time sent } in
    let (found, refreshed) = get_session id st in
    elim found [
      | none ↦ refreshed
      | some s ↦ record refreshed {
        map =
            change_session id
              (λ t. record t { events = fire_event_to_client e (codes "primary") t.events })
              refreshed.map;
      }
    ]

-- `if(!m_queueEvents.IsEmpty())`: the events are written, and the queue is flushed.
unfoldable pub move_events : EventQueue → Store → EventQueue × Store
unfolding is_empty close_and_get_formatter flush
move_events q s =
    let closed = close_and_get_formatter q in
    if is_empty q then (q, s) else (flush closed, write_members 0 closed.buffer s)

-- `Handle_EventPolling`, with the text of the reply.
unfoldable pub event_polling : Session → Session × Bytes
unfolding move_events transfer_all
event_polling s =
    let (queue, with_events) = move_events s.events formatter in
    let i = with_events.fresh in
    let (sent, with_data) =
      transfer_all i s.daqs (object_in_object 0 c_str (codes "DataLists") with_events) in
    (
      record s { events = queue; daqs = sent; first_poll = false; request_in_progress = false },
      (close 0 (close i with_data)).dump,
    )

-- `Handle_EventPolling`, for the session id of the query: the text of the reply, or none for a
-- session that is unknown.
unfoldable pub handle_polling : ℕ → Sessions → Option Bytes × Sessions
unfolding event_polling get_session
handle_polling id st =
    let (found, refreshed) = get_session id st in
    elim found [
      | none ↦ (none, refreshed)
      | some s ↦
          let (after, reply) = event_polling s in
          (some reply, record refreshed { map = change_session id (λ _. after) refreshed.map })
    ]
