-- ===== src/Server/Sessions/Lifetime.antt =====
-- How long a session lives when nobody addresses it.
use lib_abk.Common.{
  ℕ, zero, suc, ◌-◌, ◌<◌, Bool, true, false, ◌==◌, ltb, ◌≡◌, refl, sym, ap, ◌∙◌, subst, arith, List,
  [], ◌∷◌, Option, none, some, if◌then◌else◌, Bool-cases, Option-cases, ◌⊎◌, inl, inr, ==_iff,
}
use lib_abk.Server.Sessions.{
  Client, Session, SessionMap, Sessions, find_session, change_session, new_session,
  generate_session, refresh, delete_session, expire, Call, posts, addresses, expires, deletes,
  begins_request, ends_request, run_call, run_calls,
}
use lib_abk.Server.Sessions.Find.{
  find-change_same, find-change_other, find-erase_same, find-erase_other, find-insert_other,
  next_id-run_call,
}
use lib_abk.Server.Sessions.Invariant.{
  IsValid, changed, age, get_session_state, delete_session_state, expire-none, expire-last,
  expire-age, run_call-IsValid, set_progress,
}

-- The seconds that the session of an id has left, none where there is no such session.
abbrev time_of : Option Session → Option ℕ
time_of none = none
time_of (some s) = some s.remaining

unfoldable pub time_left : ℕ → Sessions → Option ℕ
time_left id st = time_of (find_session id st.map)

-- What a second takes from the time that is left.
unfoldable tick : Option ℕ → Option ℕ
tick none = none
tick (some n) = if n - 1 == 0 then none else some (n - 1)

-- What a call takes from the time of a session.
unfoldable time_behind : ℕ → Call → Option ℕ → Option ℕ
unfolding tick
time_behind id (posts c) t = t
time_behind id (addresses i) t = t
time_behind id (expires i) t = if i == id then tick t else t
time_behind id (deletes i) t = t
time_behind id (begins_request i) t = t
time_behind id (ends_request i) t = t

-- A call that neither addresses nor deletes the session of the id.
unfoldable pub leaves_alone : ℕ → Call → Bool
leaves_alone id (posts c) = true
leaves_alone id (addresses i) = if i == id then false else true
leaves_alone id (expires i) = true
leaves_alone id (deletes i) = if i == id then false else true
leaves_alone id (begins_request i) = true
leaves_alone id (ends_request i) = true

unfoldable pub all_leave_alone : ℕ → List Call → Bool
unfolding leaves_alone
all_leave_alone id [] = true
all_leave_alone id (c ∷ cs) = if leaves_alone id c then all_leave_alone id cs else false

-- The seconds that a list of calls takes from the session of the id.
unfoldable pub seconds : ℕ → List Call → ℕ
seconds id [] = 0
seconds id (expires i ∷ cs) = if i == id then suc (seconds id cs) else seconds id cs
seconds id (posts c ∷ cs) = seconds id cs
seconds id (addresses i ∷ cs) = seconds id cs
seconds id (deletes i ∷ cs) = seconds id cs
seconds id (begins_request i ∷ cs) = seconds id cs
seconds id (ends_request i ∷ cs) = seconds id cs

time_left-changed :
    (id j : ℕ) (f : Session → Session) (st : Sessions)
    → (((j == id) ≡ false) ⊎ ((s : Session) → (f s).remaining ≡ s.remaining))
    → time_left id (changed j f st) ≡ time_left id st
unfolding time_left
time_left-changed id j f st k = elim (Bool-cases (j == id)) [
  | inr n ↦ ap time_of (find-change_other id j f st.map n)
  | inl y ↦ elim (Option-cases (find_session id st.map)) [
    | inl e ↦
        subst
          (λ i.
            time_of (find_session id (change_session i f st.map))
            ≡ time_of (find_session id st.map))
          (sym ((==_iff j id).0 y)) (ap time_of (find-change_none id f st.map e ∙ sym e))
    | inr (s, e) ↦
        subst
          (λ i.
            time_of (find_session id (change_session i f st.map))
            ≡ time_of (find_session id st.map))
          (sym ((==_iff j id).0 y))
          (ap time_of (find-change_same id f st.map s e)
            ∙ ap some (kept y k s)
            ∙ sym (ap time_of e))
  ]
]
  where
    kept :
        (j == id) ≡ true
        → (((j == id) ≡ false) ⊎ ((s : Session) → (f s).remaining ≡ s.remaining))
        → (s : Session) → (f s).remaining ≡ s.remaining
    kept y (inl n) s = ground (arith, y, n)
    kept y (inr k) s = k s

    find-change_none :
        (id : ℕ) (f : Session → Session) (m : SessionMap)
        → find_session id m ≡ none
        → find_session id (change_session id f m) ≡ none
    find-change_none id f [] e = refl
    find-change_none id f ((i, t) ∷ m) e = elim (Bool-cases (i == id)) [
      | inl h ↦ ground (arith, e, h)
      | inr h ↦ rw (h, h) (find-change_none id f m (rw h at e))
    ]

time_left-expire_same :
    (id : ℕ) (st : Sessions) → IsValid st → time_left id (expire id st) ≡ tick (time_left id st)
unfolding time_left tick
time_left-expire_same id st h = elim (Option-cases (find_session id st.map)) [
  | inl e ↦
      ap (λ t. time_left id t) (expire-none id st e)
      ∙ ap time_of e
      ∙ sym (ap (λ o. tick (time_of o)) e)
  | inr (s, e) ↦ elim (Bool-cases (s.remaining - 1 == 0)) [
    | inl z ↦
        ap (λ t. time_left id t) (expire-last id st s e z)
        ∙ ap time_of (find-erase_same id 0 st.next_id st.map h.1)
        ∙ sym (ap (λ o. tick (time_of o)) e ∙ rw z refl)
    | inr z ↦
        ap (λ t. time_left id t) (expire-age id st s e z)
        ∙ ap time_of (find-change_same id age st.map s e)
        ∙ sym (ap (λ o. tick (time_of o)) e ∙ rw z refl)
  ]
]

time_left-expire_other :
    (id j : ℕ) (st : Sessions) → (j == id) ≡ false → time_left id (expire j st) ≡ time_left id st
unfolding time_left
time_left-expire_other id j st n = elim (Option-cases (find_session j st.map)) [
  | inl e ↦ ap (λ t. time_left id t) (expire-none j st e)
  | inr (s, e) ↦ elim (Bool-cases (s.remaining - 1 == 0)) [
    | inl z ↦
        ap (λ t. time_left id t) (expire-last j st s e z)
        ∙ ap time_of (find-erase_other id j st.map n)
    | inr z ↦
        ap (λ t. time_left id t) (expire-age j st s e z) ∙ time_left-changed id j age st (inl n)
  ]
]

time_left-expire :
    (id j : ℕ) (st : Sessions)
    → IsValid st
    → time_left id (expire j st) ≡ time_behind id (expires j) (time_left id st)
unfolding time_behind
time_left-expire id j st h = elim (Bool-cases (j == id)) [
  | inl y ↦ rw y (
      subst (λ i. time_left id (expire i st) ≡ tick (time_left id st)) (sym ((==_iff j id).0 y))
        (time_left-expire_same id st h))
  | inr n ↦ rw n (time_left-expire_other id j st n)
]

time_left-generate :
    (id : ℕ) (c : Client) (st : Sessions)
    → id < st.next_id
    → time_left id (generate_session c st).1 ≡ time_left id st
unfolding generate_session time_left
time_left-generate id c st l = ap time_of (
    find-insert_other id st.next_id (new_session (record c { session = st.next_id })) st.map
      (above id st.next_id l))
  where
    above : (id n : ℕ) → id < n → (n == id) ≡ false
    above id n l = ground (arith, l)

time_left-delete :
    (id j : ℕ) (st : Sessions)
    → (j == id) ≡ false
    → time_left id (delete_session j st).1 ≡ time_left id st
unfolding time_left
time_left-delete id j st n =
    let other = time_left-changed id j refresh st (inl n) in
    elim (delete_session_state j st) [
      | inl e ↦ ap (time_left id) e ∙ other
      | inr e ↦
          ap (time_left id) e
          ∙ ap time_of (find-erase_other id j (change_session j refresh st.map) n)
          ∙ other
    ]

not_same : (b : Bool) → (if b then false else true) ≡ true → b ≡ false
not_same b a = ground (arith, a)

time_left-run_call :
    (id : ℕ) (c : Call) (st : Sessions)
    → IsValid st
    → id < st.next_id
    → leaves_alone id c ≡ true
    → time_left id (run_call c st) ≡ time_behind id c (time_left id st)
unfolding run_call leaves_alone time_behind
time_left-run_call id (posts c) st h l a = time_left-generate id c st l
time_left-run_call id (addresses i) st h l a =
    ap (time_left id) (get_session_state i st)
    ∙ time_left-changed id i refresh st (inl (not_same (i == id) a))
time_left-run_call id (expires i) st h l a = time_left-expire id i st h
time_left-run_call id (deletes i) st h l a = time_left-delete id i st (not_same (i == id) a)
time_left-run_call id (begins_request i) st h l a =
    time_left-changed id i (set_progress true) st (inr (λ s. refl))
time_left-run_call id (ends_request i) st h l a =
    time_left-changed id i (set_progress false) st (inr (λ s. refl))

unfoldable pub elapse : ℕ → Option ℕ → Option ℕ
elapse n none = none
elapse zero (some r) = some r
elapse (suc n) (some r) = if ltb (suc n) r then some (r - suc n) else none

elapse-zero : (t : Option ℕ) → elapse 0 t ≡ t
unfolding elapse
elapse-zero none = refl
elapse-zero (some r) = refl

elapse-tick : (n : ℕ) (t : Option ℕ) → elapse n (tick t) ≡ elapse (suc n) t
unfolding elapse tick
elapse-tick n none = refl
elapse-tick zero (some r) = ground arith
elapse-tick (suc n) (some r) = ground arith

elapse-call :
    (id : ℕ) (c : Call) (cs : List Call) (t : Option ℕ)
    → elapse (seconds id cs) (time_behind id c t) ≡ elapse (seconds id (c ∷ cs)) t
unfolding seconds time_behind
elapse-call id (expires i) cs t = elim (Bool-cases (i == id)) [
  | inl y ↦ rw y (elapse-tick (seconds id cs) t)
  | inr n ↦ rw n refl
]
elapse-call id (posts c) cs t = refl
elapse-call id (addresses i) cs t = refl
elapse-call id (deletes i) cs t = refl
elapse-call id (begins_request i) cs t = refl
elapse-call id (ends_request i) cs t = refl

-- In a valid state, for an id that has been given and calls of which none addresses or deletes its
-- session, the time that the session has left is what it was, less one second for each turn of its
-- own thread: it is gone with the last of its seconds, and from then on the id is not given again.
pub time_left-run_calls :
    (id : ℕ) (cs : List Call) (st : Sessions)
    → IsValid st
    → id < st.next_id
    → all_leave_alone id cs ≡ true
    → time_left id (run_calls cs st) ≡ elapse (seconds id cs) (time_left id st)
unfolding run_calls all_leave_alone seconds
time_left-run_calls id [] st h l a = sym (elapse-zero (time_left id st))
time_left-run_calls id (c ∷ cs) st h l a = elim (Bool-cases (leaves_alone id c)) [
  | inl y ↦
      time_left-run_calls id cs (run_call c st) (run_call-IsValid c st h)
        (omega (arith, l, next_id-run_call c st)) (rw y at a)
      ∙ ap (elapse (seconds id cs)) (time_left-run_call id c st h l y)
      ∙ elapse-call id c cs (time_left id st)
  | inr n ↦ ground (arith, a, n)
]
