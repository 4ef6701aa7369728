-- ===== src/Server/Dependants.antt =====
-- The trends that a variable feeds, `m_lstTrends` of ServerLib/VarRef, with `AddTrend` and
-- `RemoveTrend`. A trend is named by a number, as a pointer. Adding a trend twice takes the course
-- of a build without assertions. What `OnTrendDependenciesChanged` is told comes back, if it is
-- called.
use lib_abk.Common.{
  ℕ, Bool, true, false, not, ◌&&◌, ◌||◌, ◌==◌, ◌≡◌, refl, sym, subst, ap, ◌∙◌, arith, List, [], ◌∷◌,
  ◌++◌, Option, none, some, length, if◌then◌else◌, Bool-cases, inl, inr, ==_iff,
}

-- What a call returns, what it tells, and the list behind it.
pub record Answer : Type 0 where
  pub success : Bool
  pub dependants : Option ℕ
  pub trends : List ℕ

-- The search loop of both functions.
abbrev pub contains : ℕ → List ℕ → Bool
contains p [] = false
contains p (t ∷ ts) = t == p || contains p ts

unfoldable pub add_trend : ℕ → List ℕ → Answer
add_trend p ts =
    if contains p ts then record { success = false; dependants = none; trends = ts } else record {
      success = true;
      dependants = some (length (ts ++ (p ∷ [])));
      trends = ts ++ (p ∷ []);
    }

-- The first occurrence is erased.
abbrev pub erase : ℕ → List ℕ → List ℕ
erase p [] = []
erase p (t ∷ ts) = if t == p then ts else t ∷ erase p ts

unfoldable pub remove_trend : ℕ → List ℕ → Answer
remove_trend p ts =
    if contains p ts
    then record { success = true; dependants = some (length (erase p ts)); trends = erase p ts }
    else record { success = false; dependants = none; trends = ts }

pub data Change : Type 0 where
  adds removes : ℕ → Change

unfoldable pub change_trends : Change → List ℕ → List ℕ
unfolding add_trend remove_trend
change_trends (adds p) ts = (add_trend p ts).trends
change_trends (removes p) ts = (remove_trend p ts).trends

unfoldable pub run_changes : List Change → List ℕ → List ℕ
unfolding change_trends
run_changes [] ts = ts
run_changes (c ∷ cs) ts = run_changes cs (change_trends c ts)

-- Whether the last call for `p` added it; `b` without such a call.
abbrev pub wanted : ℕ → List Change → Bool → Bool
wanted p [] b = b
wanted p (adds q ∷ cs) b = wanted p cs (b || q == p)
wanted p (removes q ∷ cs) b = wanted p cs (b && not (q == p))

-- No trend is there twice.
abbrev pub AreUnique : List ℕ → Type 0
AreUnique [] = Unit {0}
AreUnique (t ∷ ts) = (contains t ts ≡ false) × AreUnique ts

contains-append : (p q : ℕ) (ts : List ℕ) → contains p (ts ++ (q ∷ [])) ≡ (contains p ts || q == p)
contains-append p q [] = ground arith
contains-append p q (t ∷ ts) = ground (arith, contains-append p q ts)

append-AreUnique :
    (q : ℕ) (ts : List ℕ) → contains q ts ≡ false → AreUnique ts → AreUnique (ts ++ (q ∷ []))
append-AreUnique q [] n h = (refl, tt)
append-AreUnique q (t ∷ ts) n h =
    (ground (arith, contains-append t q ts, h.0), append-AreUnique q ts (ground arith) h.1)

contains-erase :
    (p q : ℕ) (ts : List ℕ)
    → AreUnique ts
    → contains p (erase q ts) ≡ (contains p ts && not (q == p))
contains-erase p q [] h = refl
contains-erase p q (t ∷ ts) h = ground (arith, contains-erase p q ts h.1, h.0)

erase-AreUnique : (q : ℕ) (ts : List ℕ) → AreUnique ts → AreUnique (erase q ts)
erase-AreUnique q [] h = tt
erase-AreUnique q (t ∷ ts) h = elim (Bool-cases (t == q)) [
  | inl e ↦ rw e h.1
  | inr e ↦ rw e (ground (arith, contains-erase t q ts h.1, h.0), erase-AreUnique q ts h.1)
]

add_there : (q : ℕ) (ts : List ℕ) → contains q ts ≡ true → change_trends (adds q) ts ≡ ts
unfolding change_trends add_trend
add_there q ts e = ground (arith, e)

add_new : (q : ℕ) (ts : List ℕ) → contains q ts ≡ false → change_trends (adds q) ts ≡ ts ++ (q ∷ [])
unfolding change_trends add_trend
add_new q ts e = ground (arith, e)

remove_there :
    (q : ℕ) (ts : List ℕ) → contains q ts ≡ true → change_trends (removes q) ts ≡ erase q ts
unfolding change_trends remove_trend
remove_there q ts e = ground (arith, e)

remove_missing : (q : ℕ) (ts : List ℕ) → contains q ts ≡ false → change_trends (removes q) ts ≡ ts
unfolding change_trends remove_trend
remove_missing q ts e = ground (arith, e)

-- The trend `p` is there behind a call for `q`.
same_pointer :
    (p q : ℕ) (ts : List ℕ) → contains q ts ≡ true → contains p ts ≡ (contains p ts || q == p)
same_pointer p q ts e = elim (Bool-cases (q == p)) [
  | inl k ↦ ground (arith, e, (==_iff q p).0 k)
  | inr k ↦ ground arith
]

other_pointer :
    (p q : ℕ) (ts : List ℕ)
    → contains q ts ≡ false
    → contains p ts ≡ (contains p ts && not (q == p))
other_pointer p q ts e = elim (Bool-cases (q == p)) [
  | inl k ↦ ground (arith, e, (==_iff q p).0 k)
  | inr k ↦ ground arith
]

change_trends-AreUnique : (c : Change) (ts : List ℕ) → AreUnique ts → AreUnique (change_trends c ts)
change_trends-AreUnique (adds q) ts h = elim (Bool-cases (contains q ts)) [
  | inl e ↦ subst AreUnique (sym (add_there q ts e)) h
  | inr e ↦ subst AreUnique (sym (add_new q ts e)) (append-AreUnique q ts e h)
]
change_trends-AreUnique (removes q) ts h = elim (Bool-cases (contains q ts)) [
  | inl e ↦ subst AreUnique (sym (remove_there q ts e)) (erase-AreUnique q ts h)
  | inr e ↦ subst AreUnique (sym (remove_missing q ts e)) h
]

contains-change_trends :
    (p : ℕ) (c : Change) (ts : List ℕ)
    → AreUnique ts
    → contains p (change_trends c ts) ≡ wanted p (c ∷ []) (contains p ts)
contains-change_trends p (adds q) ts h = elim (Bool-cases (contains q ts)) [
  | inl e ↦ ap (contains p) (add_there q ts e) ∙ same_pointer p q ts e
  | inr e ↦ ap (contains p) (add_new q ts e) ∙ contains-append p q ts
]
contains-change_trends p (removes q) ts h = elim (Bool-cases (contains q ts)) [
  | inl e ↦ ap (contains p) (remove_there q ts e) ∙ contains-erase p q ts h
  | inr e ↦ ap (contains p) (remove_missing q ts e) ∙ other_pointer p q ts e
]

wanted-cons :
    (p : ℕ) (c : Change) (cs : List Change) (b : Bool)
    → wanted p cs (wanted p (c ∷ []) b) ≡ wanted p (c ∷ cs) b
wanted-cons p (adds q) cs b = refl
wanted-cons p (removes q) cs b = refl

-- After any calls of `AddTrend` and `RemoveTrend`, on a list that holds no trend twice: no trend is
-- there twice, and a trend is there exactly if the last call for it added it, or there was no call
-- for it and it was there before.
pub run_changes-wanted :
    (cs : List Change) (ts : List ℕ) (p : ℕ)
    → AreUnique ts
    → AreUnique (run_changes cs ts) × (contains p (run_changes cs ts) ≡ wanted p cs (contains p ts))
unfolding run_changes
run_changes-wanted [] ts p h = (h, refl)
run_changes-wanted (c ∷ cs) ts p h =
    let (u, w) = run_changes-wanted cs (change_trends c ts) p (change_trends-AreUnique c ts h) in
    (u, w ∙ ap (wanted p cs) (contains-change_trends p c ts h) ∙ wanted-cons p c cs (contains p ts))
