-- ===== src/Json/Reading.antt =====
-- What a client of the parser sees of a document: the sequence of items that `Iterate` stops at,
-- and the relation between two parser states that such a sequence lies between.
pub mod Slices
pub mod Members
pub mod Shows
pub mod State
pub mod Containers
pub mod RoundTrip
pub mod TooDeep
pub mod Skip
use lib_abk.Common.{ℕ, ◌≤◌, Bool, true, false, ◌≡◌, refl, List, [], ◌∷◌, ◌++◌, Bytes, take, equal}
use native.Mathlib.Nat.{le_trans}
use lib_abk.Json.Unescape.{Ptr}
use lib_abk.Json.Unescape.RoundTrip.{HasNoNul}
use lib_abk.Json.Parser.{
  Result, ok, ItemType, object, array, string, numeric, end, Parser, iterate, is_invalid,
}
use lib_abk.Json.Item.{slice, get_name, test_for_name, extract_string}
use lib_abk.Json.Document.{
  Value, token, text, arr, obj, Values, no_values, values, Fields, no_fields, fields,
}

pub data Content : Type 0 where
  opens_object opens_array : Content
  holds_text holds_token : Bytes → Content

pub data Item : Type 0 where
  named : Bytes → Content → Item
  unnamed : Content → Item
  ended : Item

unfoldable pub content : Value → Content
content (token t) = holds_token t
content (text o s) = holds_text s
content (arr vs) = opens_array
content (obj fs) = opens_object

-- The items behind the first one of a value, and those up to the end of a container.
unfoldable mutual
  pub inner : Value → List Item
  inner (token t) = []
  inner (text o s) = []
  inner (arr vs) = value_items vs
  inner (obj fs) = field_items fs

  pub value_items : Values → List Item
  value_items no_values = ended ∷ []
  value_items (values v vs) = unnamed (content v) ∷ (inner v ++ value_items vs)

  pub field_items : Fields → List Item
  field_items no_fields = ended ∷ []
  field_items (fields o n v fs) = named n (content v) ∷ (inner v ++ field_items fs)

-- The type and the value of the actual item.
abbrev pub Carries : Parser → Content → Type 0
Carries q opens_object = q.type ≡ object
Carries q opens_array = q.type ≡ array
Carries q (holds_text s) = (q.type ≡ string) × ((old : Bytes) → extract_string q old ≡ ok (s, true))
Carries q (holds_token t) =
    (q.type ≡ numeric)
    × ((n : ℕ) × (p : Ptr) × (slice q.value_start q.value_end ≡ ok (n, p)) × (take n p ≡ t))

-- The name of the actual item, as `GetName` and `TestForName` tell it.
pub record HasName (q : Parser) (n : Bytes) : Type 0 where
  pub gets : (old : Bytes) → get_name q old ≡ ok (n, true)
  pub tests : (name : Bytes) → HasNoNul name → test_for_name q name ≡ ok (equal name n)

abbrev pub Shows : Parser → Item → Type 0
Shows q (named n c) = HasName q n × Carries q c
Shows q (unnamed c) = Carries q c
Shows q ended = q.type ≡ end

-- Iterating from the one state shows these items, and ends in the other; each step begins at the
-- nesting level `bound` or deeper.
pub data Reads (bound : ℕ) : Parser → List Item → Parser → Type 0 where
  stop : {p : Parser} → Reads bound p [] p
  more :
      {p q r : Parser} {e : Item} {es : List Item}
      → bound ≤ p.nesting_level
      → iterate p ≡ ok q
      → is_invalid q.type ≡ false
      → Shows q e
      → Reads bound q es r
      → Reads bound p (e ∷ es) r

pub Reads-append :
    {bound : ℕ} {p q r : Parser} {es fs : List Item}
    → Reads bound p es q
    → Reads bound q fs r
    → Reads bound p (es ++ fs) r
Reads-append stop b = b
Reads-append (more l i v s a) b = more l i v s (Reads-append a b)

pub Reads-weaken :
    {bound lower : ℕ} {p q : Parser} {es : List Item}
    → lower ≤ bound
    → Reads bound p es q
    → Reads lower p es q
Reads-weaken h stop = stop
Reads-weaken h (more l i v s a) = more (le_trans h l) i v s (Reads-weaken h a)
