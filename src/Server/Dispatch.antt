-- ===== src/Server/Dispatch.antt =====
-- The dispatch of requests in ServerLib/LoggerIf.cpp: the table of handlers, which the constructor
-- of `CLoggerInterface` sorts, and the binary search of `HandleHttpRequest`. Handlers are a
-- parameter.
pub mod Order
pub mod Sorting
pub mod Search
pub mod Table
use lib_abk.Common.{
  ℕ, zero, suc, ◌+◌, ◌/◌, Bool, true, false, ◌==◌, List, [], ◌∷◌, Bytes, Option, none, some, length,
  get_elem?, if◌then◌else◌, codes, equal, compare, Ordering, lt, eq, gt,
}

-- `HTTP_METHOD`, with the values of the enumeration.
abbrev pub method_invalid : ℕ
method_invalid = 0

abbrev pub method_get : ℕ
method_get = 1

abbrev pub method_post : ℕ
method_post = 2

abbrev pub method_put : ℕ
method_put = 3

abbrev pub method_delete : ℕ
method_delete = 4

-- `DecodeHttpMethod`.
unfoldable pub decode_http_method : Bytes → ℕ
decode_http_method s =
    if equal s (codes "GET")
    then method_get
    else if equal s (codes "POST")
    then method_post
    else if equal s (codes "PUT")
    then method_put
    else if equal s (codes "DELETE")
    then method_delete
    else method_invalid

-- `strcmp`, by its sign.
abbrev pub strcmp : Bytes → Bytes → Ordering
strcmp [] [] = eq
strcmp [] (d ∷ t) = lt
strcmp (c ∷ s) [] = gt
strcmp (c ∷ s) (d ∷ t) = elim (compare c d) [ lt ↦ lt | gt ↦ gt | eq ↦ strcmp s t ]

-- A request's address and method.
pub record Key : Type 0 where
  pub uri : Bytes
  pub method : ℕ

-- The address first, and the method for equal addresses.
abbrev pub compare_keys : Key → Key → Ordering
compare_keys a b = elim (strcmp a.uri b.uri) [ lt ↦ lt | gt ↦ gt | eq ↦ compare a.method b.method ]

-- `RESPONSETABLE`.
pub record Entry (H : Type 0) : Type 0 where
  pub key : Key
  pub handler : H

abbrev pub is_behind : Key → Key → Bool
is_behind a b = elim (compare_keys a b) [ gt ↦ true | _ ↦ false ]

-- How the search ends: with a handler, without one, by a read outside of the table, or not
-- within the fuel.
pub data Outcome (H : Type 0) : Type 0 where
  found : H → Outcome H
  not_implemented outside running : Outcome H

module _ {H : Type 0} where
  -- The inner loop of the sort: the element at `i` is exchanged with each smaller one behind it.
  -- The element that is at `i` in the end, and those behind it.
  unfoldable pub exchange : Entry H → List (Entry H) → Entry H × List (Entry H)
  exchange x [] = (x, [])
  exchange x (y ∷ ys) =
      let swapped = exchange y ys in
      let kept = exchange x ys in
      if is_behind x.key y.key then (swapped.0, x ∷ swapped.1) else (kept.0, y ∷ kept.1)

  -- The outer loop, for `n` more elements.
  unfoldable pub sort_from : ℕ → List (Entry H) → List (Entry H)
  unfolding exchange
  sort_from zero t = t
  sort_from (suc n) [] = []
  sort_from (suc n) (x ∷ xs) = let (m, r) = exchange x xs in m ∷ sort_from n r

  unfoldable pub sort_table : List (Entry H) → List (Entry H)
  unfolding sort_from
  sort_table t = sort_from (length t) t

  -- The loop of the binary search.
  unfoldable pub search_table : ℕ → ℕ → ℕ → List (Entry H) → Key → Outcome H
  search_table zero low high t k = running
  search_table (suc fuel) low high t k =
      let mid = (low + high) / 2 in
      let upper = search_table fuel (mid + 1) high t k in
      let lower = search_table fuel low mid t k in
      if mid == high then not_implemented else elim (get_elem? t mid) [
        | none ↦ outside
        | some e ↦ elim (compare_keys k e.key) [ eq ↦ found e.handler | gt ↦ upper | lt ↦ lower ]
      ]

  -- The search of `HandleHttpRequest` in the table that the constructor has sorted.
  unfoldable pub find_handler : List (Entry H) → Key → Outcome H
  unfolding sort_table search_table
  find_handler t k =
      let sorted = sort_table t in search_table (suc (length sorted)) 0 (length sorted) sorted k
