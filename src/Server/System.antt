-- ===== src/Server/System.antt =====
-- The sessions of a server under everything that clients and threads do to them: requests for a
-- session, polls, orders of data, deletions, events to all clients and to their sender alone, and the
-- two parts of the turns of the expiration threads, between which others may come. The text forms of numbers are parameters.
use lib_abk.Common.{
  ℕ, suc, Bool, true, false, ◌==◌, ◌||◌, ◌≡◌, refl, sym, subst, arith, List, [], ◌∷◌, Bytes, none,
  some, if◌then◌else◌, Bool-cases, Option-cases, inl, inr, ℤ, ==_iff,
}
use mathlib.Core.Option.{some-injective}
use lib_abk.Server.Sessions.{
  Client, Session, SessionMap, Sessions, find_session, change_session, generate_session,
  get_session, refresh, delete_session, count_down, delete_expired, posts, addresses, run_call,
  deletes,
}
use lib_abk.Server.Sessions.Invariant.{
  IsLive, AreLive, IsValid, changed, change-AreLive, run_call-IsValid, count_down-IsValid,
  delete_expired-IsValid,
}
use lib_abk.Server.Daq.{DaqMap}
use lib_abk.Server.Poll.{
  Event, fire_all, fire_event_to_all_clients, reflect_event, event_polling, handle_polling,
}
use lib_abk.Server.Requests.{SessionRequest, open_session, is_missing}

-- `asks` is a request for a session that was decoded; `orders` is any change of the lists of a
-- session. An expiration thread counts the time of its session down and may then delete it.
pub data Deed : Type 0 where
  asks : SessionRequest → Deed
  polls ends counts_down runs_out : ℕ → Deed
  orders : ℕ → (DaqMap → DaqMap) → Deed
  sends reflects : ℕ → ℕ → Event → Deed

abbrev order_data : (DaqMap → DaqMap) → Session → Session
order_data f s = record s { daqs = f s.daqs }

module _ (show_int : ℤ → Bytes) (show_time : ℕ → Bytes) where
  unfoldable pub act : Deed → Sessions → Sessions
  unfolding open_session handle_polling fire_event_to_all_clients reflect_event delete_session
      delete_expired
  act (asks r) st = (open_session show_int r st).1
  act (polls id) st = (handle_polling id st).1
  act (ends id) st = (delete_session id st).1
  act (counts_down id) st = count_down id st
  act (runs_out id) st = delete_expired id st
  act (orders id f) st = record st { map = change_session id (order_data f) st.map }
  act (sends now tm_send e) st = fire_event_to_all_clients show_time now tm_send e st
  act (reflects id tm e) st = reflect_event show_time id tm e st

  unfoldable pub act_all : List Deed → Sessions → Sessions
  unfolding act
  act_all [] st = st
  act_all (a ∷ rest) st = act_all rest (act a st)

generated-IsValid : (c : Client) (st : Sessions) → IsValid st → IsValid (generate_session c st).1
unfolding run_call
generated-IsValid c st h = run_call-IsValid (posts c) st h

found-IsValid : (id : ℕ) (st : Sessions) → IsValid st → IsValid (get_session id st).1
unfolding run_call
found-IsValid id st h = run_call-IsValid (addresses id) st h

if-IsValid :
    {A : Type 0} (b : Bool) (x y : A × Sessions)
    → IsValid x.1
    → IsValid y.1
    → IsValid (if b then x else y).1
if-IsValid true x y h k = h
if-IsValid false x y h k = k

opened-IsValid :
    (show_int : ℤ → Bytes) (r : SessionRequest) (st : Sessions)
    → IsValid st
    → IsValid (open_session show_int r st).1
unfolding open_session
opened-IsValid show_int r st h =
    let c : Client = record {
      session = 0;
      address = [];
      class_name = r.class_text;
      type_name = r.type_text;
      serial = r.serial_text;
    } in
    if-IsValid (is_missing r.class_text || is_missing r.type_text) _ _ h
      (found-IsValid (generate_session c st).0 (generate_session c st).1 (generated-IsValid c st h))

find-IsLive :
    (id low high : ℕ) (m : SessionMap) (s : Session)
    → AreLive low high m
    → find_session id m ≡ some s
    → IsLive id s
find-IsLive id low high [] s h e = ground (arith, e)
find-IsLive id low high ((i, t) ∷ m) s (a, b, c, h) e = elim (Bool-cases (i == id)) [
  | inl y ↦
      subst (IsLive id) (some-injective _ _ (rw y at e))
        (subst (λ j. IsLive j t) ((==_iff i id).0 y) c)
  | inr y ↦ find-IsLive id (suc i) high m s h (rw y at e)
]

fire_all-AreLive :
    (e : Event) (role : ℕ → Bytes → Bytes) (low high : ℕ) (m : SessionMap)
    → AreLive low high m
    → AreLive low high (fire_all e role m)
fire_all-AreLive e role low high [] h = tt
fire_all-AreLive e role low high ((i, s) ∷ m) (a, b, c, h) =
    (a, b, c, fire_all-AreLive e role (suc i) high m h)

sent-IsValid :
    (show_time : ℕ → Bytes) (now tm_send : ℕ) (e : Event) (st : Sessions)
    → IsValid st
    → IsValid (fire_event_to_all_clients show_time now tm_send e st)
unfolding fire_event_to_all_clients
sent-IsValid show_time now tm_send e st (n, h) = (n, fire_all-AreLive _ _ 0 st.next_id st.map h)

-- A poll leaves the client alone, and the time that is left.
event_polling-IsLive : (id : ℕ) (s : Session) → IsLive id s → IsLive id (event_polling s).0
unfolding event_polling
event_polling-IsLive id s h = h

polled_none :
    (id : ℕ) (st : Sessions)
    → find_session id st.map ≡ none
    → handle_polling id st ≡ (none, (get_session id st).1)
unfolding handle_polling get_session
polled_none id st e = rw (e, handle_polling) refl

polled_some :
    (id : ℕ) (st : Sessions) (s : Session)
    → find_session id st.map ≡ some s
    → handle_polling id st ≡ (
      some (event_polling (refresh s)).1,
      changed id (λ _. (event_polling (refresh s)).0) (get_session id st).1,
    )
unfolding handle_polling get_session
polled_some id st s e = rw (e, handle_polling) refl

polled-IsValid : (id : ℕ) (st : Sessions) → IsValid st → IsValid (handle_polling id st).1
unfolding handle_polling
polled-IsValid id st h = elim (Option-cases (find_session id st.map)) [
  | inl e ↦ subst (λ x. IsValid x.1) (sym (polled_none id st e)) (found-IsValid id st h)
  | inr (s, e) ↦
      let (n, k) = found-IsValid id st h in
      let live = find-IsLive id 0 st.next_id st.map s h.1 e in
      subst (λ x. IsValid x.1) (sym (polled_some id st s e))
        (
          n,
          change-AreLive id (λ _. (event_polling (refresh s)).0) 0 _ (get_session id st).1.map
              (λ t g l. event_polling-IsLive id (refresh s) (live.0, omega arith)) k,
        )
]

deleted-IsValid : (id : ℕ) (st : Sessions) → IsValid st → IsValid (delete_session id st).1
unfolding run_call
deleted-IsValid id st h = run_call-IsValid (deletes id) st h

reflected-IsValid :
    (show_time : ℕ → Bytes) (id tm : ℕ) (e : Event) (st : Sessions)
    → IsValid st
    → IsValid (reflect_event show_time id tm e st)
unfolding reflect_event
reflected-IsValid show_time id tm e st h =
    let (n, k) = found-IsValid id st h in
    elim (Option-cases (get_session id st).0) [
      | inl f ↦ rw (f, reflect_event) (n, k)
      | inr (s, f) ↦
          rw (f, reflect_event)
            (n, change-AreLive id _ 0 _ (get_session id st).1.map (λ t g l. l) k)
    ]

module _ (show_int : ℤ → Bytes) (show_time : ℕ → Bytes) where
  act-IsValid : (a : Deed) (st : Sessions) → IsValid st → IsValid (act show_int show_time a st)
  unfolding act
  act-IsValid (asks r) st h = opened-IsValid show_int r st h
  act-IsValid (polls id) st h = polled-IsValid id st h
  act-IsValid (ends id) st h = deleted-IsValid id st h
  act-IsValid (counts_down id) st h = count_down-IsValid id st h
  act-IsValid (runs_out id) st h = delete_expired-IsValid id st h
  act-IsValid (orders id f) st (n, h) =
      (n, change-AreLive id (order_data f) 0 st.next_id st.map (λ s g l. l) h)
  act-IsValid (sends now tm_send e) st h = sent-IsValid show_time now tm_send e st h
  act-IsValid (reflects id tm e) st h = reflected-IsValid show_time id tm e st h

  -- Whatever the clients ask and the threads do, also between the two parts of a turn of
  -- `MaintainExpirationThread`, the following stays true where it was, and it is true without
  -- sessions: the ids of the sessions ascend, each is below the next id to give, a session's own id
  -- is the one that it stands under, and its life time, which may be over, is not longer than 120
  -- seconds. The ids are counted without the bound of `int`.
  pub act_all-IsValid :
      (done : List Deed) (st : Sessions) → IsValid st → IsValid (act_all show_int show_time done st)
  unfolding act_all
  act_all-IsValid [] st h = h
  act_all-IsValid (a ∷ rest) st h =
      act_all-IsValid rest (act show_int show_time a st) (act-IsValid a st h)
