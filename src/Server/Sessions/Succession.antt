-- ===== src/Server/Sessions/Succession.antt =====
-- Which sessions there are after some calls.
use lib_abk.Common.{
  ℕ, suc, ◌-◌, ◌≤◌, ◌<◌, true, false, ◌==◌, ◌≡◌, refl, sym, ap, ◌∙◌, subst, arith, List, [], ◌∷◌,
  Bytes, codes, equal, some, Bool-cases, Option-cases, ◌⊎◌, inl, inr, ==_iff,
}
use mathlib.Core.Option.{some-injective}
use lib_abk.Server.Sessions.{
  Session, SessionMap, Sessions, find_session, insert_session, erase_session, change_session,
  new_session, generate_session, refresh, delete_session, expire, get_client_role, Call, posts,
  addresses, expires, deletes, begins_request, ends_request, run_call, run_calls,
}
use lib_abk.Server.Sessions.Invariant.{
  AreLive, IsValid, run_call-IsValid, run_calls-IsValid, refresh-IsValid, changed, erased, age,
  set_progress, get_session_state, delete_session_state, expire-none, expire-last, expire-age,
}
use lib_abk.Server.Sessions.Find.{
  next_id-run_call, find-erase_same, find-erase_other, find-insert_other,
}
use lib_abk.Server.Sessions.Roles.{get_client_role-IsFirst}

-- A session that is found had its client before, or has an id that was not given yet.
abbrev WasThere : ℕ → Sessions → Session → Type 0
WasThere j st t =
    ((s : Session) × (find_session j st.map ≡ some s) × (s.client ≡ t.client)) ⊎ (st.next_id ≤ j)

find-change_client :
    (j i : ℕ) (f : Session → Session) (m : SessionMap) (t : Session)
    → ((s : Session) → s.client ≡ (f s).client)
    → find_session j (change_session i f m) ≡ some t
    → (s : Session) × (find_session j m ≡ some s) × (s.client ≡ t.client)
find-change_client j i f [] t k e = ground (arith, e)
find-change_client j i f ((l, s) ∷ m) t k e = elim (Bool-cases (l == i)) [
  | inl x ↦ elim (Bool-cases (l == j)) [
    | inl y ↦ (s, rw y refl, k s ∙ ap (λ u. u.client) (some-injective _ _ (rw (x, y) at e)))
    | inr y ↦ (t, rw y (rw (x, y) at e), refl)
  ]
  | inr x ↦ elim (Bool-cases (l == j)) [
    | inl y ↦ (s, rw y refl, ap (λ u. u.client) (some-injective _ _ (rw (x, y) at e)))
    | inr y ↦ let (u, g, c) = find-change_client j i f m t k (rw (x, y) at e) in (u, rw y g, c)
  ]
]

find-erase :
    (j i low high : ℕ) (m : SessionMap) (t : Session)
    → AreLive low high m
    → find_session j (erase_session i m) ≡ some t
    → find_session j m ≡ some t
find-erase j i low high m t h e = elim (Bool-cases (i == j)) [
  | inl y ↦ ground (
    arith,
    sym (subst (λ k. find_session j (erase_session k m) ≡ some t) ((==_iff i j).0 y) e)
        ∙ find-erase_same j low high m h,
  )
  | inr n ↦ sym (find-erase_other j i m n) ∙ e
]

find-insert :
    (j i : ℕ) (s : Session) (m : SessionMap) (t : Session)
    → find_session j (insert_session i s m) ≡ some t
    → (find_session j m ≡ some t) ⊎ (i ≡ j)
find-insert j i s m t e = elim (Bool-cases (i == j)) [
  | inl y ↦ inr ((==_iff i j).0 y)
  | inr n ↦ inl (sym (find-insert_other j i s m n) ∙ e)
]

there-changed :
    (j i : ℕ) (f : Session → Session) (st : Sessions) (t : Session)
    → ((s : Session) → s.client ≡ (f s).client)
    → find_session j (changed i f st).map ≡ some t
    → WasThere j st t
there-changed j i f st t k e = inl (find-change_client j i f st.map t k e)

there-erased :
    (j i : ℕ) (st : Sessions) (t : Session)
    → IsValid st
    → find_session j (erased i st).map ≡ some t
    → WasThere j st t
there-erased j i st t h e = inl (t, find-erase j i 0 st.next_id st.map t h.1 e, refl)

there-expire :
    (j i : ℕ) (st : Sessions) (t : Session)
    → IsValid st
    → find_session j (expire i st).map ≡ some t
    → WasThere j st t
there-expire j i st t h e =
    let after = λ (u : Sessions). find_session j u.map ≡ some t in
    elim (Option-cases (find_session i st.map)) [
      | inl g ↦ inl (t, subst after (expire-none i st g) e, refl)
      | inr (s, g) ↦ elim (Bool-cases (s.remaining - 1 == 0)) [
        | inl z ↦ there-erased j i st t h (subst after (expire-last i st s g z) e)
        | inr z ↦ there-changed j i age st t (λ u. refl) (subst after (expire-age i st s g z) e)
      ]
    ]

there-delete :
    (j i : ℕ) (st : Sessions) (t : Session)
    → IsValid st
    → find_session j (delete_session i st).1.map ≡ some t
    → WasThere j st t
there-delete j i st t h e =
    let after = λ (u : Sessions). find_session j u.map ≡ some t in
    elim (delete_session_state i st) [
      | inl g ↦ there-changed j i refresh st t (λ u. refl) (subst after g e)
      | inr g ↦
          there-changed j i refresh st t (λ u. refl)
            (find-erase j i 0 st.next_id (changed i refresh st).map t (refresh-IsValid i st h).1
              (subst after g e))
    ]

there-run_call :
    (j : ℕ) (c : Call) (st : Sessions) (t : Session)
    → IsValid st
    → find_session j (run_call c st).map ≡ some t
    → WasThere j st t
unfolding run_call generate_session
there-run_call j (posts c) st t h e =
    elim (find-insert j st.next_id (new_session (record c { session = st.next_id })) st.map t e) [
      | inl g ↦ inl (t, g, refl)
      | inr g ↦ inr (omega (arith, g))
    ]
there-run_call j (addresses i) st t h e =
    there-changed j i refresh st t (λ u. refl)
      (subst (λ (u : Sessions). find_session j u.map ≡ some t) (get_session_state i st) e)
there-run_call j (expires i) st t h e = there-expire j i st t h e
there-run_call j (deletes i) st t h e = there-delete j i st t h e
there-run_call j (begins_request i) st t h e =
    there-changed j i (set_progress true) st t (λ u. refl) e
there-run_call j (ends_request i) st t h e =
    there-changed j i (set_progress false) st t (λ u. refl) e

there-run_calls :
    (j : ℕ) (cs : List Call) (st : Sessions) (t : Session)
    → IsValid st
    → find_session j (run_calls cs st).map ≡ some t
    → WasThere j st t
unfolding run_calls
there-run_calls j [] st t h e = inl (t, e, refl)
there-run_calls j (c ∷ cs) st t h e =
    elim (there-run_calls j cs (run_call c st) t (run_call-IsValid c st h) e) [
      | inr l ↦ inr (omega (arith, l, next_id-run_call c st))
      | inl (s, g, x) ↦ elim (there-run_call j c st s h g) [
        | inr l ↦ inr l
        | inl (u, f, y) ↦ inl (u, f, y ∙ x)
      ]
    ]

find-high :
    (j low high : ℕ) (m : SessionMap) (t : Session)
    → AreLive low high m
    → find_session j m ≡ some t
    → j < high
find-high j low high [] t h e = ground (arith, e)
find-high j low high ((i, s) ∷ m) t (a, b, c, h) e = elim (Bool-cases (i == j)) [
  | inl y ↦ omega (arith, b, (==_iff i j).0 y)
  | inr n ↦ find-high j (suc i) high m t h (rw n at e)
]

-- From a valid state on, whatever the calls are: a client that is the primary one stays it as long
-- as its session is there.
pub primary-run_calls :
    (id : ℕ) (class : Bytes) (cs : List Call) (st : Sessions) (t : Session)
    → IsValid st
    → get_client_role id class st ≡ codes "primary"
    → find_session id (run_calls cs st).map ≡ some t
    → get_client_role id class (run_calls cs st) ≡ codes "primary"
primary-run_calls id class cs st t h p e =
    let ((s, g, y), k) = (get_client_role-IsFirst id class st h).0 p in
    let low = find-high id 0 st.next_id st.map s h.1 g in
    (get_client_role-IsFirst id class (run_calls cs st) (run_calls-IsValid cs st h)).1 (
      (t, e, class_kept s g y (there-run_calls id cs st t h e) low),
      λ j u f z. first k low j u z (there-run_calls j cs st u h f),
    )
  where
    class_kept :
        (s : Session)
        → find_session id st.map ≡ some s
        → equal s.client.class_name class ≡ true
        → WasThere id st t
        → id < st.next_id
        → equal t.client.class_name class ≡ true
    class_kept s g y (inr l) low = ground (arith, l, low)
    class_kept s g y (inl (u, f, c)) low =
        subst (λ c. equal c.class_name class ≡ true)
          (ap (λ v. v.client) (some-injective _ _ (sym g ∙ f)) ∙ c) y

    first :
        ((j : ℕ) (v : Session)
          → find_session j st.map ≡ some v
          → equal v.client.class_name class ≡ true
          → id ≤ j)
        → id < st.next_id
        → (j : ℕ) (u : Session) → equal u.client.class_name class ≡ true
        → WasThere j st u
        → id ≤ j
    first k low j u z (inr l) = omega (arith, l, low)
    first k low j u z (inl (v, f, c)) =
        k j v f (subst (λ c. equal c.class_name class ≡ true) (sym c) z)
