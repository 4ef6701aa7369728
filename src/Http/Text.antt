-- ===== src/Http/Text.antt =====
-- The searches in texts that HttpServerLib/HttpServer.cpp makes: `std::string::find` and
-- `FindSubstringCi`, and the parts of a text that `substr` gives.
use mathlib.Core.Option
use lib_abk.Common.{
  ℕ, zero, suc, ◌+◌, ◌-◌, ◌≤◌, Bool, true, false, ◌&&◌, ◌≡◌, refl, ap, sym, ◌∙◌, arith, [], ◌∷◌,
  ◌++◌, ◌==◌, leb, Bytes, Option, none, some, if◌then◌else◌, length, take, inl, inr, Bool-cases,
  Option-cases, ==_refl,
}

-- The bytes from a position on.
abbrev pub drop : ℕ → Bytes → Bytes
drop zero s = s
drop (suc n) [] = []
drop (suc n) (c ∷ s) = drop n s

-- `c_str()`: the text in front of its first NUL.
abbrev pub until_nul : Bytes → Bytes
until_nul [] = []
until_nul (c ∷ s) = let rest = until_nul s in if c == 0 then [] else c ∷ rest

-- Whether one text starts another, where a test tells which bytes agree.
abbrev pub starts : (ℕ → ℕ → Bool) → Bytes → Bytes → Bool
starts agree [] s = true
starts agree (c ∷ needle) [] = false
starts agree (c ∷ needle) (x ∷ s) = agree c x && starts agree needle s

-- The position of the first occurrence.
abbrev pub search : (ℕ → ℕ → Bool) → Bytes → Bytes → Option ℕ
search agree needle [] = if starts agree needle [] then some 0 else none
search agree needle (c ∷ s) =
    let later = search agree needle s in
    if starts agree needle (c ∷ s) then some 0 else Option.map suc later

-- `std::string::find`.
abbrev pub find : Bytes → Bytes → Option ℕ
find needle s = search ◌==◌ needle s

-- `std::string::find` from a position on.
abbrev pub find_from : Bytes → ℕ → Bytes → Option ℕ
find_from needle at s = Option.map (λ (k : ℕ). at + k) (find needle (drop at s))

abbrev pub to_upper : ℕ → ℕ
to_upper c = if leb b'a' c && leb c b'z' then c - 32 else c

-- `CiPredicate`.
abbrev pub same_letter : ℕ → ℕ → Bool
same_letter i j = to_upper i == to_upper j

-- `FindSubstringCi`. The key is not empty.
abbrev pub find_substring_ci : Bytes → Bytes → Option ℕ
find_substring_ci text key = search same_letter key text

pub drop-append : (front back : Bytes) → drop (length front) (front ++ back) ≡ back
drop-append [] back = refl
drop-append (c ∷ front) back = drop-append front back

pub take-append : (front back : Bytes) → take (length front) (front ++ back) ≡ front
take-append [] back = refl
take-append (c ∷ front) back = ap (λ r. c ∷ r) (take-append front back)

pub take-drop : (n : ℕ) (s : Bytes) → take n s ++ drop n s ≡ s
take-drop zero s = refl
take-drop (suc n) [] = refl
take-drop (suc n) (c ∷ s) = ap (λ r. c ∷ r) (take-drop n s)

pub take_all : (s : Bytes) → take (length s) s ≡ s
take_all [] = refl
take_all (c ∷ s) = ap (λ r. c ∷ r) (take_all s)

pub drop_all : (s : Bytes) → drop (length s) s ≡ []
drop_all [] = refl
drop_all (c ∷ s) = drop_all s

drop-nil : (n : ℕ) → drop n [] ≡ []
drop-nil zero = refl
drop-nil (suc n) = refl

suc_add : (m n : ℕ) → suc (m + n) ≡ suc m + n
suc_add m n = omega arith

pub drop-drop : (m n : ℕ) (s : Bytes) → drop n (drop m s) ≡ drop (m + n) s
drop-drop zero n s = ap (λ k. drop k s) (omega arith)
drop-drop (suc m) n [] = drop-nil n ∙ sym (drop-nil (suc m + n))
drop-drop (suc m) n (c ∷ s) = drop-drop m n s ∙ ap (λ k. drop k (c ∷ s)) (suc_add m n)

pub length-drop : (n : ℕ) (s : Bytes) → length (drop n s) ≡ length s - n
length-drop zero s = omega arith
length-drop (suc n) [] = omega arith
length-drop (suc n) (c ∷ s) = omega (arith, length-drop n s)

-- What one text starts with does not change when the text goes on.
starts-append :
    (agree : ℕ → ℕ → Bool) (needle s t : Bytes)
    → starts agree needle s ≡ true
    → starts agree needle (s ++ t) ≡ true
starts-append agree [] s t h = refl
starts-append agree (c ∷ needle) (x ∷ s) t h = ground (arith, starts-append agree needle s t)
starts-append agree (c ∷ needle) [] t h = cc

starts-length :
    (agree : ℕ → ℕ → Bool) (needle s : Bytes)
    → starts agree needle s ≡ true
    → length needle ≤ length s
starts-length agree [] s h = omega arith
starts-length agree (c ∷ needle) (x ∷ s) h = ground (arith, starts-length agree needle s)
starts-length agree (c ∷ needle) [] h = cc

starts-short :
    (agree : ℕ → ℕ → Bool) (needle s t : Bytes)
    → length needle ≤ length s
    → starts agree needle (s ++ t) ≡ true
    → starts agree needle s ≡ true
starts-short agree [] s t l h = refl
starts-short agree (c ∷ needle) (x ∷ s) t l h = ground (arith, starts-short agree needle s t)
starts-short agree (c ∷ needle) [] t l h = absurd (omega arith)

pub search-length :
    (agree : ℕ → ℕ → Bool) (needle s : Bytes) (k : ℕ)
    → search agree needle s ≡ some k
    → k + length needle ≤ length s
search-length agree [] [] k e = ground arith
search-length agree (x ∷ needle) [] k e = cc
search-length agree needle (c ∷ s) k e = elim (Bool-cases (starts agree needle (c ∷ s))) [
  | inl h ↦ ground (arith, starts-length agree needle (c ∷ s) h)
  | inr h ↦ elim (Option-cases (search agree needle s)) [
    | inl n ↦ cc
    | inr (j, f) ↦ ground (arith, search-length agree needle s j f)
  ]
]

-- The first occurrence stays the first when the text goes on.
pub search-append :
    (agree : ℕ → ℕ → Bool) (needle s t : Bytes) (k : ℕ)
    → search agree needle s ≡ some k
    → search agree needle (s ++ t) ≡ some k
search-append agree [] [] [] k e = e
search-append agree [] [] (x ∷ t) k e = e
search-append agree (x ∷ needle) [] t k e = cc
search-append agree needle (c ∷ s) t k e = elim (Bool-cases (starts agree needle (c ∷ s))) [
  | inl h ↦ rw (starts-append agree needle (c ∷ s) t h, search) (rw (h, search) at e)
  | inr h ↦ elim (Option-cases (search agree needle s)) [
    | inl n ↦ cc
    | inr (j, f) ↦
        let l : length needle ≤ length (c ∷ s) = ground (arith, search-length agree needle s j f) in
        elim (Bool-cases (starts agree needle (c ∷ (s ++ t)))) [
          | inl g ↦ cc (starts-short agree needle (c ∷ s) t l g, h)
          | inr g ↦
              rw (g, search-append agree needle s t j f, search, if◌then◌else◌)
                (rw (h, f, search, if◌then◌else◌) at e)
        ]
  ]
]

-- A byte that is not in a text.
abbrev pub Lacks : ℕ → Bytes → Type 0
Lacks x [] = Unit {0}
Lacks x (c ∷ s) = ((x == c) ≡ false) × Lacks x s

pub find_byte :
    (x : ℕ) (front back : Bytes)
    → Lacks x front
    → find (x ∷ []) (front ++ (x ∷ back)) ≡ some (length front)
find_byte x [] back l = rw (==_refl x) refl
find_byte x (c ∷ front) back (n, l) =
    rw n (ap (Option.map (λ (k : ℕ). suc k)) (find_byte x front back l))

pub find-none : (x : ℕ) (s : Bytes) → Lacks x s → find (x ∷ []) s ≡ none
find-none x [] l = refl
find-none x (c ∷ s) (n, l) = rw n (ap (Option.map (λ (k : ℕ). suc k)) (find-none x s l))

-- What is behind a byte that stands behind a text.
pub drop_behind :
    (x : ℕ) (front back : Bytes) → drop (suc (length front)) (front ++ (x ∷ back)) ≡ back
drop_behind x [] back = refl
drop_behind x (c ∷ front) back = drop_behind x front back

-- The test for a byte that is not in a text.
abbrev pub lacks : ℕ → Bytes → Bool
lacks x [] = true
lacks x (c ∷ s) = elim (x == c) [ true ↦ false | false ↦ lacks x s ]

pub lacks-Lacks : (x : ℕ) (s : Bytes) → lacks x s ≡ true → Lacks x s
lacks-Lacks x [] h = tt
lacks-Lacks x (c ∷ s) h = elim (Bool-cases (x == c)) [
  | inl e ↦ cc (rw (e, lacks) at h)
  | inr e ↦ (e, lacks-Lacks x s (rw (e, lacks) at h))
]
