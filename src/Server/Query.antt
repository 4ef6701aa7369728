-- ===== src/Server/Query.antt =====
-- The query string of a request: `DecodeUriValue` and the `GetSession` of a query, in
-- ServerLib/LoggerIf.cpp. `sscanf` is a parameter: `scan` gives the number that a text starts
-- with, and no session has a negative one.
use lib_abk.Common.{
  ℕ, Bool, true, false, ◌≡◌, refl, ap, arith, [], ◌∷◌, ◌++◌, ◌==◌, Bytes, codes, Option, none, some,
  if◌then◌else◌, ℤ, pos, negsuc,
}
use lib_abk.Server.Dispatch.Table.{behind_prefix}
use lib_abk.Server.Sessions.{Session, Sessions, get_session}

-- `std::string::find`: the byte in front of the first occurrence of the key, none at the start, and
-- the text behind the key.
abbrev pub find_key : Bytes → Option ℕ → Bytes → Option (Option ℕ × Bytes)
find_key key before [] = elim (behind_prefix key []) [
  | none ↦ none
  | some rest ↦ some (before, rest)
]
find_key key before (c ∷ s) =
    let later = find_key key (some c) s in
    elim (behind_prefix key (c ∷ s)) [ none ↦ later | some rest ↦ some (before, rest) ]

-- The text up to the next `?`, or all of it.
abbrev pub up_to_mark : Bytes → Bytes
up_to_mark [] = []
up_to_mark (c ∷ s) = let rest = up_to_mark s in if c == b'?' then [] else c ∷ rest

abbrev pub starts_name : Option ℕ → Bool
starts_name none = true
starts_name (some c) = c == b'?'

-- `DecodeUriValue`, with the text that it leaves and whether it succeeded.
unfoldable pub decode_uri_value : Bytes → Bytes → Bytes → Bytes × Bool
decode_uri_value query key old = elim (find_key key none query) [
  | none ↦ (old, false)
  | some (before, []) ↦ (old, false)
  | some (before, ◌∷◌ c value) ↦
      if starts_name before
      then (if c == b'=' then (up_to_mark value, true) else (old, false))
      else (old, false)
]

-- `GetSession` of a query.
unfoldable pub query_session : (Bytes → Option ℤ) → Bytes → Sessions → Option Session × Sessions
unfolding decode_uri_value get_session
query_session scan query st =
    let (value, found) = decode_uri_value query (codes "SessionId") [] in
    if found
    then elim (scan value) [
      | none ↦ (none, st)
      | some (pos id) ↦ get_session id st
      | some (negsuc n) ↦ (none, st)
    ]
    else (none, st)

-- The key occurs nowhere in the first text, also not partly in the second.
abbrev pub IsFree : Bytes → Bytes → Bytes → Type 0
IsFree key [] tail = Unit {0}
IsFree key (c ∷ s) tail = (behind_prefix key (c ∷ (s ++ tail)) ≡ none) × IsFree key s tail

abbrev last_of : Option ℕ → Bytes → Option ℕ
last_of before [] = before
last_of before (c ∷ s) = last_of (some c) s

abbrev pub HasNoMark : Bytes → Type 0
HasNoMark [] = Unit {0}
HasNoMark (c ∷ s) = ((c == b'?') ≡ false) × HasNoMark s

-- Nothing, or something behind a `?`.
abbrev pub StartsWithMark : Bytes → Type 0
StartsWithMark [] = Unit {0}
StartsWithMark (c ∷ s) = (c == b'?') ≡ true

behind_prefix-append : (key s : Bytes) → behind_prefix key (key ++ s) ≡ some s
behind_prefix-append [] s = refl
behind_prefix-append (c ∷ key) s = rw (same c) (behind_prefix-append key s)
  where
    same : (c : ℕ) → (c == c) ≡ true
    same c = ground arith

find_key-here :
    (key tail rest : Bytes) (before : Option ℕ)
    → behind_prefix key tail ≡ some rest
    → find_key key before tail ≡ some (before, rest)
find_key-here key [] rest before e = rw (e, find_key) refl
find_key-here key (c ∷ s) rest before e = rw (e, find_key) refl

find_key-IsFree :
    (key s tail rest : Bytes) (before : Option ℕ)
    → IsFree key s tail
    → behind_prefix key tail ≡ some rest
    → find_key key before (s ++ tail) ≡ some (last_of before s, rest)
find_key-IsFree key [] tail rest before f e = find_key-here key tail rest before e
find_key-IsFree key (c ∷ s) tail rest before (n, f) e =
    rw (n, find_key) (find_key-IsFree key s tail rest (some c) f e)

up_to_mark-append :
    (v rest : Bytes) → HasNoMark v → StartsWithMark rest → up_to_mark (v ++ rest) ≡ v
up_to_mark-append [] [] h m = refl
up_to_mark-append [] (c ∷ s) h m = rw m refl
up_to_mark-append (c ∷ v) rest (n, h) m = rw n (ap (λ r. c ∷ r) (up_to_mark-append v rest h m))

pub decode_uri_value-part :
    (earlier key value rest old : Bytes)
    → IsFree key earlier (key ++ (b'=' ∷ (value ++ rest)))
    → HasNoMark value
    → StartsWithMark rest
    → decode_uri_value (earlier ++ (key ++ (b'=' ∷ (value ++ rest)))) key old
      ≡ (if starts_name (last_of none earlier) then (value, true) else (old, false))
unfolding decode_uri_value
decode_uri_value-part earlier key value rest old f h m =
    rw
      (
        find_key-IsFree key earlier (key ++ (b'=' ∷ (value ++ rest))) (b'=' ∷ (value ++ rest)) none
            f (behind_prefix-append key (b'=' ∷ (value ++ rest))),
        up_to_mark-append value rest h m,
        decode_uri_value,
      )
      refl
