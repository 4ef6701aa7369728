-- ===== src/Server/Sessions.antt =====
-- The sessions of the logger interface: the session map of `CLoggerInterface` in
-- ServerLib/LoggerIf.cpp, and the life of a `CSession` of ServerLib/Session.cpp. A mutex makes each
-- call one step. Session ids are counted without the bound of `int`, and the assertions on the
-- remaining time and on a request in progress are left out.
pub mod Invariant
pub mod Find
pub mod Lifetime
pub mod Removal
pub mod Roles
pub mod Succession
use lib_abk.Common.{
  ℕ, zero, suc, ◌+◌, ◌-◌, Bool, true, false, ◌==◌, ltb, List, [], ◌∷◌, ◌++◌, Bytes, codes, Option,
  none, some, length, if◌then◌else◌, equal,
}
use lib_abk.Server.EventQueue.{EventQueue, event_queue}
use lib_abk.Server.Daq.{DaqMap}

-- `CClientUid`.
pub record Client : Type 0 where
  pub session : ℕ
  pub address : Bytes
  pub class_name : Bytes
  pub type_name : Bytes
  pub serial : Bytes

-- `CSession`.
pub record Session : Type 0 where
  pub client : Client
  pub remaining : ℕ
  pub request_in_progress : Bool
  pub first_poll : Bool
  pub events : EventQueue
  pub daqs : DaqMap

-- `ABK_SESSION_LIFETIME`, in seconds, and `ABK_SESSION_ID_FIRST`.
abbrev pub session_lifetime : ℕ
session_lifetime = 120

abbrev pub session_id_first : ℕ
session_id_first = 1

-- `m_mapSessions`, in the order of its keys.
abbrev pub SessionMap : Type 0
SessionMap = List (ℕ × Session)

abbrev pub find_session : ℕ → SessionMap → Option Session
find_session id [] = none
find_session id ((i, s) ∷ m) = if i == id then some s else find_session id m

-- `insert` leaves a key alone that is there.
abbrev pub insert_session : ℕ → Session → SessionMap → SessionMap
insert_session id s [] = (id, s) ∷ []
insert_session id s ((i, t) ∷ m) =
    let later = (i, t) ∷ insert_session id s m in
    if ltb id i then (id, s) ∷ (i, t) ∷ m else if i == id then (i, t) ∷ m else later

abbrev pub erase_session : ℕ → SessionMap → SessionMap
erase_session id [] = []
erase_session id ((i, s) ∷ m) = if i == id then m else (i, s) ∷ erase_session id m

-- Writing through the pointer to a session.
abbrev pub change_session : ℕ → (Session → Session) → SessionMap → SessionMap
change_session id f [] = []
change_session id f ((i, s) ∷ m) = if i == id then (i, f s) ∷ m else (i, s) ∷ change_session id f m

-- `m_mapSessions` and `m_nNextSessionId`.
pub record Sessions : Type 0 where
  pub map : SessionMap
  pub next_id : ℕ

abbrev pub no_sessions : Sessions
no_sessions = record { map = []; next_id = session_id_first }

-- The constructor of `CSession`.
unfoldable pub new_session : Client → Session
new_session c = record {
  client = c;
  remaining = session_lifetime;
  request_in_progress = false;
  first_poll = true;
  events = event_queue (codes "Events");
  daqs = [];
}

-- `GenerateSession`.
unfoldable pub generate_session : Client → Sessions → ℕ × Sessions
unfolding new_session
generate_session c st =
    let id = st.next_id in
    let s = new_session (record c { session = id }) in
    (id, record { map = insert_session id s st.map; next_id = id + 1 })

-- `CSession::Refresh`.
abbrev pub refresh : Session → Session
refresh s = record s { remaining = session_lifetime }

-- `GetSession`, which refreshes the session that it finds.
unfoldable pub get_session : ℕ → Sessions → Option Session × Sessions
get_session id st = elim (find_session id st.map) [
  | none ↦ (none, st)
  | some s ↦ (some (refresh s), record st { map = change_session id refresh st.map })
]

-- `UnregisterSession`, in the destructor of `CSession`.
unfoldable pub unregister_session : ℕ → Sessions → Bool × Sessions
unregister_session id st = elim (find_session id st.map) [
  | none ↦ (false, st)
  | some s ↦ (true, record st { map = erase_session id st.map })
]

-- `DeleteSession` of a session: one whose request is still in progress after the retries is not
-- deleted.
abbrev pub delete_found : ℕ → Session → Sessions → Bool × Sessions
delete_found id s st =
    if s.request_in_progress then (false, st) else (true, (unregister_session id st).1)

-- `DeleteSession` of an id.
unfoldable pub delete_session : ℕ → Sessions → Bool × Sessions
unfolding get_session
delete_session id st =
    let (found, refreshed) = get_session id st in
    elim found [ none ↦ (false, refreshed) | some s ↦ delete_found id s refreshed ]

-- The loop of `DeleteAllSessions`, for at most so many sessions.
unfoldable pub delete_all : ℕ → Sessions → Bool × Sessions
delete_all zero st = (false, st)
delete_all (suc n) st = elim st.map [
  | [] ↦ (true, st)
  | (id, s) ∷ _ ↦
      let (deleted, after) = delete_found id s st in
      let rest = delete_all n after in if deleted then rest else (false, after)
]

-- `DeleteAllSessions`.
unfoldable pub delete_all_sessions : Sessions → Bool × Sessions
unfolding delete_all
delete_all_sessions st = delete_all (suc (length st.map)) st

-- A turn of `MaintainExpirationThread` up to the release of the lock: the time counts down.
abbrev pub count_down : ℕ → Sessions → Sessions
count_down id st = record st {
  map = change_session id (λ t. record t { remaining = t.remaining - 1 }) st.map;
}

-- The rest of a turn in which the time has become zero: the session is deleted, without the lock
-- and without another look at the time.
unfoldable pub delete_expired : ℕ → Sessions → Sessions
unfolding unregister_session
delete_expired id st = (unregister_session id st).1

-- A turn of `MaintainExpirationThread` that nothing interrupts.
unfoldable pub expire : ℕ → Sessions → Sessions
unfolding delete_expired
expire id st = elim (find_session id st.map) [
  | none ↦ st
  | some s ↦
      let counted = count_down id st in
      if s.remaining - 1 == 0 then delete_expired id counted else counted
]

-- `EnumSessions`.
unfoldable pub enum_sessions : Sessions → List Client
enum_sessions st = clients st.map
  where
    clients : SessionMap → List Client
    clients [] = []
    clients ((i, s) ∷ m) = s.client ∷ clients m

-- `OnGetClientRole`: whether the client is the primary one.
abbrev pub has_role : ℕ → Bytes → SessionMap → Bool
has_role id class [] = false
has_role id class ((i, s) ∷ m) =
    if equal s.client.class_name class then i == id else has_role id class m

unfoldable pub get_client_role : ℕ → Bytes → Sessions → Bytes
get_client_role id class st = if has_role id class st.map then codes "primary" else []

-- What the threads of the server do with its sessions, with no turn of an expiration thread
-- interrupted; `System` has the parts of a turn.
pub data Call : Type 0 where
  posts : Client → Call
  addresses expires deletes : ℕ → Call
  begins_request ends_request : ℕ → Call

unfoldable pub run_call : Call → Sessions → Sessions
unfolding generate_session get_session delete_session expire
run_call (posts c) st = (generate_session c st).1
run_call (addresses id) st = (get_session id st).1
run_call (expires id) st = expire id st
run_call (deletes id) st = (delete_session id st).1
run_call (begins_request id) st = record st {
  map = change_session id (λ s. record s { request_in_progress = true }) st.map;
}
run_call (ends_request id) st = record st {
  map = change_session id (λ s. record s { request_in_progress = false }) st.map;
}

unfoldable pub run_calls : List Call → Sessions → Sessions
unfolding run_call
run_calls [] st = st
run_calls (c ∷ cs) st = run_calls cs (run_call c st)
