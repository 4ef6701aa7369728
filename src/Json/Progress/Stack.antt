-- ===== src/Json/Progress/Stack.antt =====
-- The nesting of the parser over any steps of `Iterate`, against the containers that are open by the
-- item types which the steps told.
use lib_abk.Common.{
  ℕ, suc, ◌+◌, ◌≤◌, ◌<◌, Bool, true, false, ◌≡◌, refl, sym, ◌∙◌, arith, List, [], ◌∷◌, ◌==◌, length,
  subst, Bool-cases, inl, inr, if◌then◌else◌,
}
use lib_abk.Json.Unescape.{Ptr, peek, next}
use lib_abk.Json.Scan.{skip_white}
use lib_abk.Json.Parser.{
  ok, ItemType, invalid, object, array, string, numeric, end, Parser, is_invalid, iterate, restart,
  update, push_nesting,
}
use lib_abk.Json.Reading.Members.{container_state}
use lib_abk.Json.Reading.RoundTrip.{root_state}
use lib_abk.Json.Progress.Nesting.{Nested, iterate-Nested}

-- The kinds of the open containers from the innermost one out, where true stands for an object.
abbrev pub then_open : List Bool → ItemType → List Bool
then_open ks object = true ∷ ks
then_open ks array = false ∷ ks
then_open [] end = []
then_open (k ∷ ks) end = ks
then_open ks invalid = ks
then_open ks string = ks
then_open ks numeric = ks

abbrev pub open_after : List Bool → List ItemType → List Bool
open_after ks [] = ks
open_after ks (t ∷ ts) = open_after (then_open ks t) ts

-- Steps of `Iterate` with a byte left, and the type of the item behind each of them.
pub data Steps : Parser → List ItemType → Parser → Type 0 where
  here : {p : Parser} → Steps p [] p
  step :
      {p q r : Parser} {ts : List ItemType}
      → is_invalid p.type ≡ false
      → (peek p.pos == 0) ≡ false
      → iterate p ≡ ok q
      → Steps q ts r
      → Steps p (q.type ∷ ts) r

-- The kinds as the array has them, below the root the false entry at 0.
abbrev pub KindsIn : (ℕ → Bool) → List Bool → Type 0
KindsIn f [] = f 0 ≡ false
KindsIn f (k ∷ ks) = (f (suc (length ks)) ≡ k) × KindsIn f ks

-- The parser's stack is the open containers, and inside of `m_bObject`.
pub record Mirrors (ks : List Bool) (p : Parser) : Type 0 where
  pub level : p.nesting_level ≡ length ks
  pub bound : p.nesting_level ≤ 9
  pub kinds : KindsIn p.objects ks

below : (i n : ℕ) → i < n → (i == n) ≡ false
below i n l = ground (arith, l)

-- An entry above the open containers does not matter.
KindsIn-update :
    (f : ℕ → Bool) (b : Bool) (n : ℕ) (ks : List Bool)
    → length ks < n
    → KindsIn f ks
    → KindsIn (update f n b) ks
KindsIn-update f b n [] l h = rw (below 0 n l) h
KindsIn-update f b n (k ∷ ks) l (e, h) =
    (rw (below (suc (length ks)) n l) e, KindsIn-update f b n ks (omega arith) h)

pushed-Mirrors :
    (b : Bool) (n : ℕ) (f : ℕ → Bool) (ks : List Bool) (q : Parser)
    → n ≡ length ks
    → KindsIn f ks
    → q.nesting_level ≡ n + 1
    → q.nesting_level ≤ 9
    → q.objects ≡ update f (n + 1) b
    → Mirrors (b ∷ ks) q
pushed-Mirrors b n f ks q e h l m o = record {
  level = omega (arith, l, e);
  bound = m;
  kinds =
      subst (λ g. KindsIn g (b ∷ ks)) (sym o)
        (ground arith, KindsIn-update f b (n + 1) ks (omega (arith, e)) h);
}

kept-Mirrors :
    (ks : List Bool) (p q : Parser)
    → Mirrors ks p
    → q.nesting_level ≡ p.nesting_level
    → q.objects ≡ p.objects
    → Mirrors ks q
kept-Mirrors ks p q m l o = record {
  level = l ∙ m.level;
  bound = omega (arith, l, m.bound);
  kinds = subst (λ g. KindsIn g ks) (sym o) m.kinds;
}

Nested-Mirrors :
    (t : ItemType) (ks : List Bool) (p q : Parser)
    → Mirrors ks p
    → Nested t p.nesting_level p.objects q
    → Mirrors (then_open ks t) q
Nested-Mirrors object ks p q m (l, b, o) =
    pushed-Mirrors true p.nesting_level p.objects ks q m.level m.kinds l b o
Nested-Mirrors array ks p q m (l, b, o) =
    pushed-Mirrors false p.nesting_level p.objects ks q m.level m.kinds l b o
Nested-Mirrors end [] p q m (l, o) = absurd (omega (arith, l, m.level))
Nested-Mirrors end (k ∷ ks) p q m (l, o) = record {
  level = omega (arith, l, m.level);
  bound = omega (arith, l, m.bound);
  kinds = subst (λ g. KindsIn g ks) (sym o) m.kinds.1;
}
Nested-Mirrors invalid ks p q m (l, o) = kept-Mirrors ks p q m l o
Nested-Mirrors string ks p q m (l, o) = kept-Mirrors ks p q m l o
Nested-Mirrors numeric ks p q m (l, o) = kept-Mirrors ks p q m l o

Steps-Mirrors :
    (ks : List Bool) (ts : List ItemType) (p q : Parser)
    → Mirrors ks p
    → Steps p ts q
    → Mirrors (open_after ks ts) q
Steps-Mirrors ks _ p _ m here = m
Steps-Mirrors ks _ p q m (step {q = r} {ts = ts} v z e s) =
    Steps-Mirrors (then_open ks r.type) ts r q
      (Nested-Mirrors r.type ks p r m (iterate-Nested p r v z e)) s

-- The state in which `Restart` calls `Iterate`, and the container that it has opened.
abbrev pub begun : (ℕ → Bool) → Ptr → Parser
begun old text =
    let s = skip_white text in
    if peek s == b'{'
    then container_state true (skip_white (next s)) (root_state old)
    else if peek s == b'['
    then container_state false (skip_white (next s)) (root_state old)
    else record (root_state old) { pos = skip_white s }

abbrev pub root_open : Ptr → List Bool
root_open text =
    let s = skip_white text in
    if peek s == b'{' then true ∷ [] else if peek s == b'[' then false ∷ [] else []

restart-begun : (old : ℕ → Bool) (text : Ptr) → restart old text ≡ iterate (begun old text)
unfolding restart push_nesting
restart-begun old text = elim (Bool-cases (peek (skip_white text) == b'{')) [
  | inl y ↦ rw y refl
  | inr n ↦ elim (Bool-cases (peek (skip_white text) == b'[')) [
    | inl y ↦ rw (n, y) refl
    | inr m ↦ rw (n, m) refl
  ]
]

begun-Mirrors : (old : ℕ → Bool) (text : Ptr) → Mirrors (root_open text) (begun old text)
begun-Mirrors old text = elim (Bool-cases (peek (skip_white text) == b'{')) [
  | inl y ↦ rw y (record { level = refl; bound = omega arith; kinds = (refl, refl) })
  | inr n ↦ elim (Bool-cases (peek (skip_white text) == b'[')) [
    | inl y ↦ rw (n, y) (record { level = refl; bound = omega arith; kinds = (refl, refl) })
    | inr m ↦ rw (n, m) (record { level = refl; bound = omega arith; kinds = refl })
  ]
]

-- On any text: `Restart` is the first step of `Iterate` from a state in which the container that
-- the text begins with, if it does, is open. Behind any steps from there, with a byte left in front
-- of each, no item invalid before and none of them out of `m_bObject`, the nesting level is the
-- number of the containers that are open by the types of the items so far, and at most nine, and
-- `m_bObject` tells at the level of each of them whether it is an object.
pub restart-Mirrors :
    (old : ℕ → Bool) (text : Ptr) (ts : List ItemType) (q : Parser)
    → Steps (begun old text) ts q
    → (restart old text ≡ iterate (begun old text)) × Mirrors (open_after (root_open text) ts) q
restart-Mirrors old text ts q s = (
  restart-begun old text,
  Steps-Mirrors (root_open text) ts (begun old text) q (begun-Mirrors old text) s,
)
