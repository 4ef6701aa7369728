-- ===== src/Server/Sessions/Roles.antt =====
-- The roles that the logger interface gives to its clients.
use lib_abk.Common.{
  ℕ, suc, ◌≤◌, true, false, ◌==◌, ◌≡◌, refl, sym, subst, arith, [], ◌∷◌, Bytes, codes, equal, some,
  Bool-cases, inl, inr, ==_iff, ◌↔◌,
}
use mathlib.Core.Option.{some-injective}
use lib_abk.Server.Sessions.{Session, SessionMap, Sessions, find_session, has_role, get_client_role}
use lib_abk.Server.Sessions.Invariant.{AreLive, IsValid}

-- The id is that of a session of the class, and no session of the class has a lower one.
abbrev pub IsFirst : ℕ → Bytes → SessionMap → Type 0
IsFirst id class m =
    ((s : Session) × (find_session id m ≡ some s) × (equal s.client.class_name class ≡ true))
    × ((j : ℕ) (t : Session)
        → find_session j m ≡ some t
        → equal t.client.class_name class ≡ true
        → id ≤ j)

-- Every id at which a session is found is at least the lowest one.
pub find-low :
    (j low high : ℕ) (m : SessionMap) (t : Session)
    → AreLive low high m
    → find_session j m ≡ some t
    → low ≤ j
find-low j low high [] t h e = ground (arith, e)
find-low j low high ((i, s) ∷ m) t (a, b, c, h) e = elim (Bool-cases (i == j)) [
  | inl y ↦ omega (arith, a, (==_iff i j).0 y)
  | inr n ↦ omega (arith, a, find-low j (suc i) high m t h (rw n at e))
]

apart : (i id : ℕ) → suc i ≤ id → (i == id) ≡ false
apart i id l = ground (arith, l)

-- The client of a session is primary just when its session is the first one of the class.
has_role-IsFirst :
    (id : ℕ) (class : Bytes) (low high : ℕ) (m : SessionMap)
    → AreLive low high m
    → has_role id class m ≡ true
    → IsFirst id class m
has_role-IsFirst id class low high [] h r = ground (arith, r)
has_role-IsFirst id class low high ((i, s) ∷ m) (a, b, c, h) r =
    elim (Bool-cases (equal s.client.class_name class)) [
      | inl y ↦
          let here = rw y at r in
          (
            (s, rw here refl, y),
            λ j t e _.
                subst (λ k. k ≤ j) ((==_iff i id).0 here)
                  (find-low j i high ((i, s) ∷ m) t (omega arith, b, c, h) e),
          )
      | inr n ↦
          let there = has_role-IsFirst id class (suc i) high m h (rw n at r) in
          let (t, e, y) = there.0 in
          ((t, rw (apart i id (find-low id (suc i) high m t h e)) e, y), not_here (i, s) n there.1)
    ]
  where
    not_here :
        (x : ℕ × Session)
        → equal x.1.client.class_name class ≡ false
        → ((j : ℕ) (t : Session)
            → find_session j m ≡ some t
            → equal t.client.class_name class ≡ true
            → id ≤ j)
        → (j : ℕ) (t : Session) → find_session j (x ∷ m) ≡ some t
        → equal t.client.class_name class ≡ true
        → id ≤ j
    not_here (i, s) n k j t e y = elim (Bool-cases (i == j)) [
      | inl g ↦ ground (
        arith,
        n,
        y,
        subst (λ u. equal s.client.class_name class ≡ equal u.client.class_name class)
            (some-injective _ _ (rw g at e)) refl,
      )
      | inr g ↦ k j t (rw g at e) y
    ]

first-has_role :
    (id : ℕ) (class : Bytes) (low high : ℕ) (m : SessionMap)
    → AreLive low high m
    → IsFirst id class m
    → has_role id class m ≡ true
first-has_role id class low high [] h ((s, e, y), k) = ground (arith, e)
first-has_role id class low high ((i, s) ∷ m) (a, b, c, h) ((t, e, y), k) =
    elim (Bool-cases (i == id)) [
      | inl g ↦
          let same =
            subst (λ u. equal u.client.class_name class ≡ true)
              (sym (some-injective _ _ (rw g at e))) y in
          rw (same, g) refl
      | inr g ↦ elim (Bool-cases (equal s.client.class_name class)) [
        | inl z ↦
            let low = find-low id (suc i) high m t h (rw g at e) in
            ground (arith, low, k i s (rw (==-refl i) refl) z)
        | inr z ↦ rw z (
            first-has_role id class (suc i) high m h (
              (t, (rw g at e), y),
              λ j u f x. k j u (rw (apart i j (find-low j (suc i) high m u h f)) f) x,
            ))
      ]
    ]
  where
    ==-refl : (i : ℕ) → (i == i) ≡ true
    ==-refl i = ground arith

primary-has_role :
    (id : ℕ) (class : Bytes) (st : Sessions)
    → get_client_role id class st ≡ codes "primary"
    → has_role id class st.map ≡ true
unfolding get_client_role
primary-has_role id class st e = elim (Bool-cases (has_role id class st.map)) [
  | inl y ↦ y
  | inr n ↦ ground (arith, rw n at e)
]

-- In a valid state a client is told that it is the primary one exactly when the session of the id
-- is of the class and no session of the class has a lower id.
pub get_client_role-IsFirst :
    (id : ℕ) (class : Bytes) (st : Sessions)
    → IsValid st
    → get_client_role id class st ≡ codes "primary" ↔ IsFirst id class st.map
unfolding get_client_role
get_client_role-IsFirst id class st h = (
  λ e. has_role-IsFirst id class 0 st.next_id st.map h.1 (primary-has_role id class st e),
  λ f. rw (first-has_role id class 0 st.next_id st.map h.1 f) refl,
)
