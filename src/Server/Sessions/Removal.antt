-- ===== src/Server/Sessions/Removal.antt =====
-- The removal of all sessions, when the server stops.
use lib_abk.Common.{
  ℕ, suc, Bool, true, false, ◌==◌, ◌≡◌, refl, ap, ◌∙◌, arith, [], ◌∷◌, length, if◌then◌else◌,
  Bool-cases, inl, inr,
}
use lib_abk.Server.Sessions.{
  Session, SessionMap, Sessions, unregister_session, delete_all, delete_all_sessions,
}
use lib_abk.Server.Sessions.Invariant.{unregister_session_state}

-- The sessions from the first one on whose request is in progress.
unfoldable pub from_busy : SessionMap → SessionMap
from_busy [] = []
from_busy ((i, s) ∷ m) =
    let rest = from_busy m in if s.request_in_progress then (i, s) ∷ m else rest

unfoldable pub none_left : SessionMap → Bool
none_left [] = true
none_left (x ∷ m) = false

==-refl : (i : ℕ) → (i == i) ≡ true
==-refl i = ground arith

abbrev sessions : SessionMap → ℕ → Sessions
sessions m k = record { map = m; next_id = k }

unregister-first :
    (i k : ℕ) (s : Session) (m : SessionMap)
    → (unregister_session i (sessions ((i, s) ∷ m) k)).1 ≡ sessions m k
unregister-first i k s m =
    unregister_session_state i (sessions ((i, s) ∷ m) k)
    ∙ ap (λ m. sessions m k) (rw (==-refl i) refl)

delete_all-busy :
    (n i k : ℕ) (s : Session) (m : SessionMap)
    → s.request_in_progress ≡ true
    → delete_all (suc n) (sessions ((i, s) ∷ m) k) ≡ (false, sessions ((i, s) ∷ m) k)
unfolding delete_all
delete_all-busy n i k s m e = rw e refl

delete_all-idle :
    (n i k : ℕ) (s : Session) (m : SessionMap)
    → s.request_in_progress ≡ false
    → delete_all (suc n) (sessions ((i, s) ∷ m) k) ≡ delete_all n (sessions m k)
unfolding delete_all
delete_all-idle n i k s m e =
    let st = sessions ((i, s) ∷ m) k in
    ap (λ b. after n (if b then (false, st) else (true, (unregister_session i st).1))) e
    ∙ ap (delete_all n) (unregister-first i k s m)
  where
    after : ℕ → Bool × Sessions → Bool × Sessions
    after n (deleted, st) = if deleted then delete_all n st else (false, st)

delete_all-none : (k : ℕ) → delete_all 1 (sessions [] k) ≡ (true, sessions [] k)
unfolding delete_all
delete_all-none k = refl

delete_all_lem :
    (m : SessionMap) (k : ℕ)
    → delete_all (suc (length m)) (sessions m k)
      ≡ (none_left (from_busy m), sessions (from_busy m) k)
unfolding from_busy none_left
delete_all_lem [] k = delete_all-none k
delete_all_lem ((i, s) ∷ m) k = elim (Bool-cases s.request_in_progress) [
  | inl y ↦ delete_all-busy (suc (length m)) i k s m y ∙ rw y refl
  | inr n ↦ delete_all-idle (suc (length m)) i k s m n ∙ rw n (delete_all_lem m k)
]

-- The loop that removes all sessions comes to an end after as many rounds as there are sessions: it
-- removes the sessions before the first one whose request is in progress, keeps the others, and
-- says whether none is left.
pub delete_all_sessions_lem :
    (st : Sessions)
    → delete_all_sessions st ≡ (none_left (from_busy st.map), record st { map = from_busy st.map })
unfolding delete_all_sessions
delete_all_sessions_lem st = delete_all_lem st.map st.next_id
