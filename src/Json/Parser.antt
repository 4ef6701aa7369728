-- ===== src/Json/Parser.antt =====
-- The class `CJsonParser` of Common/JsonParser: its state, `Restart`, `Iterate` and `SkipItem`.
-- A step that would read behind the terminating NUL or outside of `m_bObject` is a fault.
use lib_abk.Common.{
  ℕ, ◌+◌, ◌-◌, Bool, true, false, [], ◌∷◌, ◌==◌, ltb, length, if◌then◌else◌, Option, none, some,
}
use lib_abk.Json.Unescape.{Ptr, peek, next}
use lib_abk.Json.Scan.{skip_white, search_string_end, search_numeric_end, search_name_end}

pub data Fault : Type 0 where
  past_end nesting_overflow nesting_underflow null_pointer : Fault

pub data Result {ℓ} (A : Type ℓ) : Type ℓ where
  ok : A → Result A
  fault : Fault → Result A

infixl 5 ◌>>=◌
abbrev pub ◌>>=◌ {ℓ κ} : {A : Type ℓ} {B : Type κ} → Result A → (A → Result B) → Result B
ok a >>= f = f a
fault e >>= f = fault e

pub data ItemType : Type 0 where
  invalid object array string numeric end : ItemType

abbrev pub max_nesting : ℕ
max_nesting = 10

-- `objects` is `m_bObject`, of which the indices below `max_nesting` exist. A NULL pointer is
-- `none`.
pub record Parser : Type 0 where
  pub pos : Ptr
  pub name_start : Option Ptr
  pub name_end : Option Ptr
  pub value_start : Option Ptr
  pub value_end : Option Ptr
  pub type : ItemType
  pub objects : ℕ → Bool
  pub nesting_level : ℕ

-- `p++`, where `p` may stand on the NUL.
unfoldable pub bump : Ptr → Result Ptr
bump [] = fault past_end
bump (c ∷ p) = ok p

abbrev pub advance : Parser → Parser
advance p = record p { pos = next p.pos }

abbrev pub is_object : Parser → Bool
is_object p = p.objects p.nesting_level

abbrev pub update : (ℕ → Bool) → ℕ → Bool → ℕ → Bool
update f i b j = if j == i then b else f j

unfoldable pub push_nesting : Bool → Parser → Result Parser
push_nesting b p =
    if ltb p.nesting_level (max_nesting - 1)
    then ok (record p {
      nesting_level = p.nesting_level + 1;
      objects = update p.objects (p.nesting_level + 1) b;
    })
    else fault nesting_overflow

unfoldable pub pop_nesting : Parser → Result Parser
pop_nesting p =
    if p.nesting_level == 0
    then fault nesting_underflow
    else ok (record p { nesting_level = p.nesting_level - 1 })

-- The part of `IsolateName` behind the name.
abbrev pub skip_colon : Parser → Parser
skip_colon p =
    let at = skip_white p.pos in
    record p { pos = skip_white (if peek at == b':' then next at else at) }

unfoldable pub isolate_name : Parser → Result Parser
unfolding bump
isolate_name p =
    let start = skip_white p.pos in
    if peek start == b'"'
    then (do
      let name = next start
      let at = search_string_end name
      behind ← bump at
      ok (skip_colon (record p { pos = behind; name_start = some name; name_end = some at })))
    else let at = search_name_end start in
      ok (skip_colon (record p { pos = at; name_start = some start; name_end = some at }))

unfoldable pub isolate_value : Parser → Result Parser
unfolding bump
isolate_value p =
    let start = skip_white p.pos in
    if peek start == b'"'
    then (do
      let value = next start
      let at = search_string_end value
      behind ← bump at
      ok (record p {
        pos = skip_white behind;
        value_start = some value;
        value_end = some at;
        type = string;
      }))
    else let at = search_numeric_end start in
      ok (record p {
        pos = skip_white at;
        value_start = some start;
        value_end = some at;
        type = if length at == length start then invalid else numeric;
      })

-- Behind the name and the comma: a container or a value.
unfoldable pub member : Parser → Result Parser
member p =
    if peek p.pos == b'{'
    then ok (record p { pos = next p.pos; type = object })
    else if peek p.pos == b'['
    then ok (record p { pos = next p.pos; type = array })
    else isolate_value p

abbrev pub skip_comma : Parser → Parser
skip_comma p = if peek p.pos == b',' then advance p else p

abbrev pub end_container : Parser → Parser
end_container p = record p { pos = next p.pos; type = end }

-- The switch at the end of `Iterate`.
unfoldable pub change_nesting : ItemType → Parser → Result Parser
change_nesting end p = pop_nesting p
change_nesting object p = push_nesting true p
change_nesting array p = push_nesting false p
change_nesting _ p = ok p

-- The two branches of `Iterate`.
unfoldable pub in_object : Parser → Result Parser
in_object p =
    if peek p.pos == b'}' then ok (end_container p) else (isolate_name (skip_comma p) >>= member)

unfoldable pub in_array : Parser → Result Parser
in_array p =
    let q = record p { name_start = p.name_end } in
    if peek p.pos == b']' then ok (end_container q) else member (skip_comma q)

abbrev pub is_invalid : ItemType → Bool
is_invalid invalid = true
is_invalid _ = false

unfoldable pub iterate : Parser → Result Parser
iterate p =
    if is_invalid p.type
    then ok p
    else if peek p.pos == 0
    then ok (record p { type = end })
    else (do
      let q = record p { type = invalid }
      r ← if is_object q then in_object q else in_array q
      s ← change_nesting r.type r
      ok (record s { pos = skip_white s.pos }))

-- `Restart`. What `m_bObject` held before is `old`; `m_bObject[0]` becomes false.
unfoldable pub restart : (ℕ → Bool) → Ptr → Result Parser
restart old text = do
  let at = skip_white text
  let p : Parser = record {
    pos = at;
    name_start = some [];
    name_end = none;
    value_start = none;
    value_end = none;
    type = invalid;
    objects = update old 0 false;
    nesting_level = 0;
  }
  q ←
      if peek at == b'{'
      then push_nesting true (record p { pos = next at; type = object })
      else if peek at == b'['
      then push_nesting false (record p { pos = next at; type = array })
      else ok p
  iterate (record q { pos = skip_white q.pos })

unfoldable pub is_done : Parser → Bool
is_done p = elim p.type [ end ↦ true | invalid ↦ true | _ ↦ p.nesting_level == 0 ]
