-- ===== src/Json/Stream.antt =====
-- The stream classes of Common/JsonFormatter. The objects of one formatter live in a store, named
-- by numbers in the order of their construction; the formatter itself is number 0. `m_pDump` of
-- all of them is the one string stream, whose content is `dump`. The store keeps an object after
-- its destructor has run, which is `Close`.
pub mod Close
pub mod Wrote
pub mod OpenChild
pub mod Writer
pub mod Text
use lib_abk.Common.{
  ℕ, zero, suc, ◌+◌, Bool, true, false, [], ◌∷◌, ◌++◌, ◌==◌, ltb, if◌then◌else◌, Bytes, Option,
  none, some, drop_last,
}
use lib_abk.Json.Escape.{Overload, c_str, quoted}

-- `CJsonStreamBase` without `m_pDump`.
pub record Node : Type 0 where
  pub parent : Option ℕ
  pub member_count : ℕ
  pub child : Option ℕ
  pub close_tag : Bytes
  pub closed : Bool

pub record Store : Type 0 where
  pub nodes : ℕ → Node
  pub fresh : ℕ
  pub dump : Bytes

abbrev pub change : ℕ → (Node → Node) → Store → Store
change i f s = record s { nodes = λ j. if j == i then f (s.nodes j) else s.nodes j }

abbrev pub write : Bytes → Store → Store
write text s = record s { dump = s.dump ++ text }

abbrev pub add_child : ℕ → Node → Node
add_child c n = record n { child = some c }

abbrev pub drop_child : Node → Node
drop_child n = record n { child = none }

abbrev pub count_member : Node → Node
count_member n = record n { member_count = n.member_count + 1 }

abbrev pub mark_closed : Node → Node
mark_closed n = record n { closed = true }

-- `CJsonStreamBase::BeginMember`.
unfoldable pub begin_member : ℕ → Store → Store
begin_member i s =
    change i count_member (if ltb 0 (s.nodes i).member_count then write (b',' ∷ []) s else s)

abbrev pub new_node : ℕ → Bytes → Node
new_node p tag = record {
  parent = some p;
  member_count = 0;
  child = none;
  close_tag = tag;
  closed = false;
}

-- The constructor of `CJsonStreamBase`; the new object is number `s.fresh`.
unfoldable pub construct : ℕ → Bytes → Store → Store
unfolding begin_member
construct p tag s =
    let c = s.fresh in
    let linked = change p (add_child c) s in
    begin_member p (record (change c (λ _. new_node p tag) linked) { fresh = c + 1 })

-- The constructors of the arrays and objects in an object and in an array.
unfoldable pub array_in_object : ℕ → Overload → Bytes → Store → Store
unfolding construct
array_in_object p o name s =
    write (b':' ∷ b'[' ∷ []) (write (quoted o name) (construct p (b']' ∷ []) s))

unfoldable pub array_in_array : ℕ → Store → Store
unfolding construct
array_in_array p s = write (b'[' ∷ []) (construct p (b']' ∷ []) s)

unfoldable pub object_in_object : ℕ → Overload → Bytes → Store → Store
unfolding construct
object_in_object p o name s =
    write (b':' ∷ b'{' ∷ []) (write (quoted o name) (construct p (b'}' ∷ []) s))

unfoldable pub object_in_array : ℕ → Store → Store
unfolding construct
object_in_array p s = write (b'{' ∷ []) (construct p (b'}' ∷ []) s)

-- `m_pParent->m_pChild=NULL`.
abbrev pub unregister : Option ℕ → Store → Store
unregister none s = s
unregister (some p) s = change p drop_child s

-- The part of `Close` behind the child.
abbrev pub close_self : ℕ → Store → Store
close_self i s =
    write (s.nodes i).close_tag (unregister (s.nodes i).parent (change i mark_closed s))

-- `CJsonStreamBase::Close`, on fuel for the chain of children.
unfoldable pub close_on : ℕ → ℕ → Store → Store
close_on zero i s = s
close_on (suc fuel) i s = elim (s.nodes i).closed [
  | true ↦ s
  | false ↦ elim (s.nodes i).child [
    | none ↦ close_self i s
    | some c ↦ close_self i (close_on fuel c s)
  ]
]

-- A child is constructed after its parent, so that a chain of children is no longer than this.
unfoldable pub close : ℕ → Store → Store
unfolding close_on
close i s = close_on (suc s.fresh) i s

-- `CJsonStreamArray::WriteValue`, for a value that was formatted to `text`.
unfoldable pub write_element : ℕ → Bytes → Store → Store
unfolding begin_member
write_element i text s = write text (begin_member i s)

-- `CJsonStreamObject::BeginMember` and `WriteValue`.
unfoldable pub begin_named : ℕ → Bytes → Store → Store
unfolding begin_member
begin_named i name s = write (b':' ∷ []) (write (quoted c_str name) (begin_member i s))

unfoldable pub write_field : ℕ → Bytes → Bytes → Store → Store
unfolding begin_named
write_field i name text s = write text (begin_named i name s)

abbrev pub tail : Bytes → Bytes
tail [] = []
tail (c ∷ s) = s

-- `WriteValue` of the members of another, closed formatter: its leading bracket is skipped, and
-- its trailing one is cut, over which the next byte is written.
unfoldable pub write_members : ℕ → Store → Store → Store
unfolding begin_member
write_members i from s = write (drop_last (tail from.dump)) (begin_member i s)

abbrev pub root_node : Node
root_node = record {
  parent = none;
  member_count = 0;
  child = none;
  close_tag = b'}' ∷ [];
  closed = false;
}

-- `CJsonFormatter::InitNew`: the close tag stays. Objects from before are not the formatter's.
unfoldable pub init_new : Store → Store
init_new s = record (change 0 (λ _. root_node) s) { dump = b'{' ∷ [] }

-- The constructor of `CJsonFormatter`.
unfoldable pub formatter : Store
unfolding init_new
formatter = init_new (record { nodes = λ _. root_node; fresh = 1; dump = [] })

-- `CJsonFormatter::GetStream`.
unfoldable pub get_stream : Store → Store
unfolding close
get_stream = close 0
