-- ===== src/Server/Sessions/Invariant.antt =====
-- What holds of the session map at all times.
use lib_abk.Common.{
  ℕ, suc, ◌+◌, ◌-◌, ◌≤◌, ◌<◌, Bool, true, false, ◌==◌, ltb, ◌≡◌, refl, sym, ap, ◌∙◌, subst, arith,
  List, [], ◌∷◌, none, some, Bool-cases, Option-cases, ◌⊎◌, inl, inr, ==_iff,
}
use lib_abk.Server.Sessions.{
  Client, Session, SessionMap, Sessions, find_session, insert_session, erase_session,
  change_session, new_session, generate_session, refresh, get_session, unregister_session,
  delete_session, delete_expired, count_down, expire, Call, posts, addresses, expires, deletes,
  begins_request, ends_request, run_call, run_calls,
}

-- A session that stands under an id: it has this id, and a life time that is not too long.
abbrev pub IsLive : ℕ → Session → Type 0
IsLive id s = (s.client.session ≡ id) × (s.remaining ≤ 120)

-- The ids ascend, from `low` on and below `high`, and all sessions are live.
abbrev pub AreLive : ℕ → ℕ → SessionMap → Type 0
AreLive low high [] = Unit {0}
AreLive low high ((i, s) ∷ m) = (low ≤ i) × (i < high) × IsLive i s × AreLive (suc i) high m

abbrev pub IsValid : Sessions → Type 0
IsValid st = (0 < st.next_id) × AreLive 0 st.next_id st.map

pub change-AreLive :
    (id : ℕ) (f : Session → Session) (low high : ℕ) (m : SessionMap)
    → ((s : Session) → find_session id m ≡ some s → IsLive id s → IsLive id (f s))
    → AreLive low high m
    → AreLive low high (change_session id f m)
change-AreLive id f low high [] k h = tt
change-AreLive id f low high ((i, s) ∷ m) k (a, b, l, h) = elim (Bool-cases (i == id)) [
  | inl e ↦
      let same = (==_iff i id).0 e in
      rw e (
        a,
        b,
        subst (λ j. IsLive j (f s)) (sym same) (k s (rw e refl) (subst (λ j. IsLive j s) same l)),
        h,
      )
  | inr e ↦ rw e (a, b, l, change-AreLive id f (suc i) high m (λ t g. k t (rw e g)) h)
]

weaken-AreLive :
    (low lower high : ℕ) (m : SessionMap) → lower ≤ low → AreLive low high m → AreLive lower high m
weaken-AreLive low lower high [] l h = tt
weaken-AreLive low lower high ((i, s) ∷ m) l (a, b, c, h) = (omega (arith, l, a), b, c, h)

raise-AreLive : (low high : ℕ) (m : SessionMap) → AreLive low high m → AreLive low (high + 1) m
raise-AreLive low high [] h = tt
raise-AreLive low high ((i, s) ∷ m) (a, b, c, h) =
    (a, omega (arith, b), c, raise-AreLive (suc i) high m h)

erase-AreLive :
    (id low high : ℕ) (m : SessionMap) → AreLive low high m → AreLive low high (erase_session id m)
erase-AreLive id low high [] h = tt
erase-AreLive id low high ((i, s) ∷ m) (a, b, c, h) = elim (Bool-cases (i == id)) [
  | inl e ↦ rw e (weaken-AreLive (suc i) low high m (omega (arith, a)) h)
  | inr e ↦ rw e (a, b, c, erase-AreLive id (suc i) high m h)
]

pub ltb-above : (n i : ℕ) → i < n → ltb n i ≡ false
ltb-above n i l = ground (arith, l)

pub ==-above : (n i : ℕ) → i < n → (i == n) ≡ false
==-above n i l = ground (arith, l)

insert-AreLive :
    (low high : ℕ) (s : Session) (m : SessionMap)
    → low ≤ high
    → IsLive high s
    → AreLive low high m
    → AreLive low (high + 1) (insert_session high s m)
insert-AreLive low high s [] l c h = (l, omega arith, c, tt)
insert-AreLive low high s ((i, t) ∷ m) l c (a, b, d, h) =
    let k = insert-AreLive (suc i) high s m b c h in
    rw (ltb-above high i b, ==-above high i b) (a, omega (arith, b), d, k)

change-none :
    (id : ℕ) (f : Session → Session) (m : SessionMap)
    → find_session id m ≡ none
    → m ≡ change_session id f m
change-none id f [] e = refl
change-none id f ((i, s) ∷ m) e = elim (Bool-cases (i == id)) [
  | inl h ↦ ground (arith, e, h)
  | inr h ↦ rw h (ap (λ r. (i, s) ∷ r) (change-none id f m (rw h at e)))
]

erase-none : (id : ℕ) (m : SessionMap) → find_session id m ≡ none → m ≡ erase_session id m
erase-none id [] e = refl
erase-none id ((i, s) ∷ m) e = elim (Bool-cases (i == id)) [
  | inl h ↦ ground (arith, e, h)
  | inr h ↦ rw h (ap (λ r. (i, s) ∷ r) (erase-none id m (rw h at e)))
]

-- The state behind a change of a session, and behind its removal.
abbrev pub changed : ℕ → (Session → Session) → Sessions → Sessions
changed id f st = record st { map = change_session id f st.map }

abbrev pub erased : ℕ → Sessions → Sessions
erased id st = record st { map = erase_session id st.map }

pub get_session_state : (id : ℕ) (st : Sessions) → (get_session id st).1 ≡ changed id refresh st
unfolding get_session
get_session_state id st = elim (Option-cases (find_session id st.map)) [
  | inl e ↦ rw (e, get_session) (ap (λ m. record st { map = m }) (change-none id refresh st.map e))
  | inr (s, e) ↦ rw (e, get_session) refl
]

pub unregister_session_state :
    (id : ℕ) (st : Sessions) → (unregister_session id st).1 ≡ erased id st
unfolding unregister_session
unregister_session_state id st = elim (Option-cases (find_session id st.map)) [
  | inl e ↦ rw (e, unregister_session) (ap (λ m. record st { map = m }) (erase-none id st.map e))
  | inr (s, e) ↦ rw (e, unregister_session) refl
]

-- The states behind `DeleteSession`.
pub delete_session_state :
    (id : ℕ) (st : Sessions)
    → ((delete_session id st).1 ≡ changed id refresh st)
      ⊎ ((delete_session id st).1 ≡ erased id (changed id refresh st))
unfolding delete_session
delete_session_state id st = elim (Option-cases (get_session id st).0) [
  | inl e ↦ inl (rw (e, delete_session) (get_session_state id st))
  | inr (s, e) ↦ elim (Bool-cases s.request_in_progress) [
    | inl b ↦ inl (rw (e, b, delete_session) (get_session_state id st))
    | inr b ↦ inr (
        rw (e, b, delete_session)
          (unregister_session_state id (get_session id st).1
            ∙ ap (erased id) (get_session_state id st)))
  ]
]

abbrev pub age : Session → Session
age s = record s { remaining = s.remaining - 1 }

pub delete_expired_state : (id : ℕ) (st : Sessions) → delete_expired id st ≡ erased id st
unfolding delete_expired
delete_expired_state id st = unregister_session_state id st

erase-change :
    (id : ℕ) (f : Session → Session) (m : SessionMap)
    → erase_session id (change_session id f m) ≡ erase_session id m
erase-change id f [] = refl
erase-change id f ((i, s) ∷ m) = elim (Bool-cases (i == id)) [
  | inl h ↦ rw h (rw h refl)
  | inr h ↦ rw h (rw h (ap (λ r. (i, s) ∷ r) (erase-change id f m)))
]

pub expire-none : (id : ℕ) (st : Sessions) → find_session id st.map ≡ none → expire id st ≡ st
unfolding expire
expire-none id st e = rw (e, expire) refl

pub expire-last :
    (id : ℕ) (st : Sessions) (s : Session)
    → find_session id st.map ≡ some s
    → (s.remaining - 1 == 0) ≡ true
    → expire id st ≡ erased id st
unfolding expire
expire-last id st s e h =
    rw (e, h, expire)
      (delete_expired_state id (changed id age st)
        ∙ ap (λ m. record st { map = m }) (erase-change id age st.map))

pub expire-age :
    (id : ℕ) (st : Sessions) (s : Session)
    → find_session id st.map ≡ some s
    → (s.remaining - 1 == 0) ≡ false
    → expire id st ≡ changed id age st
unfolding expire
expire-age id st s e h = rw (e, h, expire) refl

expire-IsValid : (id : ℕ) (st : Sessions) → IsValid st → IsValid (expire id st)
expire-IsValid id st (n, h) = elim (Option-cases (find_session id st.map)) [
  | inl e ↦ subst IsValid (sym (expire-none id st e)) (n, h)
  | inr (s, e) ↦ elim (Bool-cases (s.remaining - 1 == 0)) [
    | inl z ↦
        subst IsValid (sym (expire-last id st s e z)) (n, erase-AreLive id 0 st.next_id st.map h)
    | inr z ↦
        subst IsValid (sym (expire-age id st s e z))
          (n, change-AreLive id age 0 st.next_id st.map (λ t g l. (l.0, omega (arith, l.1))) h)
  ]
]

pub count_down-IsValid : (id : ℕ) (st : Sessions) → IsValid st → IsValid (count_down id st)
count_down-IsValid id st (n, h) =
    (n, change-AreLive id age 0 st.next_id st.map (λ t g l. (l.0, omega (arith, l.1))) h)

pub delete_expired-IsValid : (id : ℕ) (st : Sessions) → IsValid st → IsValid (delete_expired id st)
delete_expired-IsValid id st (n, h) =
    subst IsValid (sym (delete_expired_state id st)) (n, erase-AreLive id 0 st.next_id st.map h)

pub refresh-IsValid : (id : ℕ) (st : Sessions) → IsValid st → IsValid (changed id refresh st)
refresh-IsValid id st (n, h) =
    (n, change-AreLive id refresh 0 st.next_id st.map (λ s g l. (l.0, omega arith)) h)

generate_session-IsValid :
    (c : Client) (st : Sessions) → IsValid st → IsValid (generate_session c st).1
unfolding generate_session new_session
generate_session-IsValid c st (n, h) = (
  omega arith,
  insert-AreLive 0 st.next_id (new_session (record c { session = st.next_id })) st.map (omega arith)
      (refl, omega arith) h,
)

delete_session-IsValid : (id : ℕ) (st : Sessions) → IsValid st → IsValid (delete_session id st).1
delete_session-IsValid id st h =
    let r = refresh-IsValid id st h in
    elim (delete_session_state id st) [
      | inl e ↦ subst IsValid (sym e) r
      | inr e ↦
          subst IsValid (sym e)
            (r.0, erase-AreLive id 0 st.next_id (change_session id refresh st.map) r.1)
    ]

abbrev pub set_progress : Bool → Session → Session
set_progress b s = record s { request_in_progress = b }

progress-IsValid :
    (b : Bool) (id : ℕ) (st : Sessions) → IsValid st → IsValid (changed id (set_progress b) st)
progress-IsValid b id st (n, h) =
    (n, change-AreLive id (set_progress b) 0 st.next_id st.map (λ s g l. l) h)

pub run_call-IsValid : (c : Call) (st : Sessions) → IsValid st → IsValid (run_call c st)
unfolding run_call
run_call-IsValid (posts c) st h = generate_session-IsValid c st h
run_call-IsValid (addresses id) st h =
    subst IsValid (sym (get_session_state id st)) (refresh-IsValid id st h)
run_call-IsValid (expires id) st h = expire-IsValid id st h
run_call-IsValid (deletes id) st h = delete_session-IsValid id st h
run_call-IsValid (begins_request id) st h = progress-IsValid true id st h
run_call-IsValid (ends_request id) st h = progress-IsValid false id st h

-- At all times, whatever the calls of the server's threads: the ids of the sessions ascend, each
-- is below the next id to give, a session's own id is the one that it stands under, and its life
-- time is not longer than 120 seconds.
pub run_calls-IsValid : (cs : List Call) (st : Sessions) → IsValid st → IsValid (run_calls cs st)
unfolding run_calls
run_calls-IsValid [] st h = h
run_calls-IsValid (c ∷ cs) st h = run_calls-IsValid cs (run_call c st) (run_call-IsValid c st h)
