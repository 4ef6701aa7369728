-- ===== src/Server/Sessions/Find.antt =====
-- Finding a session behind a change of the map, and the ids that are given.
use lib_abk.Common.{
  ℕ, suc, ◌-◌, ◌≤◌, ◌<◌, false, ◌==◌, ltb, ◌≡◌, refl, ap, arith, [], ◌∷◌, none, some, if◌then◌else◌,
  Bool-cases, Option-cases, inl, inr, ==_iff,
}
use lib_abk.Server.Sessions.{
  Session, SessionMap, Sessions, find_session, insert_session, erase_session, change_session,
  generate_session, delete_session, expire, Call, posts, addresses, expires, deletes,
  begins_request, ends_request, run_call,
}
use lib_abk.Server.Sessions.Invariant.{
  AreLive, get_session_state, delete_session_state, expire-none, expire-last, expire-age,
}

pub find-change_same :
    (id : ℕ) (f : Session → Session) (m : SessionMap) (s : Session)
    → find_session id m ≡ some s
    → find_session id (change_session id f m) ≡ some (f s)
find-change_same id f [] s e = ground (arith, e)
find-change_same id f ((i, t) ∷ m) s e = elim (Bool-cases (i == id)) [
  | inl h ↦ ground (arith, e, h)
  | inr h ↦ rw (h, h) (find-change_same id f m s (rw h at e))
]

pub find-change_other :
    (id j : ℕ) (f : Session → Session) (m : SessionMap)
    → (j == id) ≡ false
    → find_session id (change_session j f m) ≡ find_session id m
find-change_other id j f [] n = refl
find-change_other id j f ((i, t) ∷ m) n = elim (Bool-cases (i == j)) [
  | inl h ↦ ground (arith, n, h)
  | inr h ↦ rw h (ap (λ r. if i == id then some t else r) (find-change_other id j f m n))
]

pub find-above :
    (id low high : ℕ) (m : SessionMap) → id < low → AreLive low high m → find_session id m ≡ none
find-above id low high [] l h = refl
find-above id low high ((i, s) ∷ m) l (a, b, c, h) =
    rw (below id i (omega (arith, l, a))) (find-above id (suc i) high m (omega (arith, l, a)) h)
  where
    below : (id i : ℕ) → id < i → (i == id) ≡ false
    below id i l = ground (arith, l)

pub find-erase_same :
    (id low high : ℕ) (m : SessionMap)
    → AreLive low high m
    → find_session id (erase_session id m) ≡ none
find-erase_same id low high [] h = refl
find-erase_same id low high ((i, s) ∷ m) (a, b, c, h) = elim (Bool-cases (i == id)) [
  | inl e ↦ rw e (find-above id (suc i) high m (omega (arith, (==_iff i id).0 e)) h)
  | inr e ↦ rw (e, e) (find-erase_same id (suc i) high m h)
]

pub find-erase_other :
    (id j : ℕ) (m : SessionMap)
    → (j == id) ≡ false
    → find_session id (erase_session j m) ≡ find_session id m
find-erase_other id j [] n = refl
find-erase_other id j ((i, s) ∷ m) n = elim (Bool-cases (i == j)) [
  | inl h ↦ ground (arith, n, h)
  | inr h ↦ rw h (ap (λ r. if i == id then some s else r) (find-erase_other id j m n))
]

-- A change leaves the time alone when it does so for the session, or is one of another session.
pub find-insert_other :
    (id j : ℕ) (s : Session) (m : SessionMap)
    → (j == id) ≡ false
    → find_session id (insert_session j s m) ≡ find_session id m
find-insert_other id j s [] n = rw n refl
find-insert_other id j s ((i, t) ∷ m) n =
    let rest = find-insert_other id j s m n in
    elim (Bool-cases (ltb j i)) [
      | inl h ↦ rw (h, n) refl
      | inr h ↦ elim (Bool-cases (i == j)) [
        | inl g ↦ rw (h, g) refl
        | inr g ↦ rw (h, g) (ap (λ r. if i == id then some t else r) rest)
      ]
    ]

pub next_id-expire : (id : ℕ) (st : Sessions) → (expire id st).next_id ≡ st.next_id
next_id-expire id st = elim (Option-cases (find_session id st.map)) [
  | inl e ↦ ap (λ t. t.next_id) (expire-none id st e)
  | inr (s, e) ↦ elim (Bool-cases (s.remaining - 1 == 0)) [
    | inl z ↦ ap (λ t. t.next_id) (expire-last id st s e z)
    | inr z ↦ ap (λ t. t.next_id) (expire-age id st s e z)
  ]
]

pub next_id-delete : (id : ℕ) (st : Sessions) → (delete_session id st).1.next_id ≡ st.next_id
next_id-delete id st = elim (delete_session_state id st) [
  | inl e ↦ ap (λ t. t.next_id) e
  | inr e ↦ ap (λ t. t.next_id) e
]

-- The next id never falls: an id that has been given is not given again.
pub next_id-run_call : (c : Call) (st : Sessions) → st.next_id ≤ (run_call c st).next_id
unfolding run_call generate_session
next_id-run_call (posts c) st = omega arith
next_id-run_call (addresses i) st = omega (arith, ap (λ t. t.next_id) (get_session_state i st))
next_id-run_call (expires i) st = omega (arith, next_id-expire i st)
next_id-run_call (deletes i) st = omega (arith, next_id-delete i st)
next_id-run_call (begins_request i) st = omega arith
next_id-run_call (ends_request i) st = omega arith

-- The time that is left after some seconds.
