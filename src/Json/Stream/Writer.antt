-- ===== src/Json/Stream/Writer.antt =====
-- A client that writes a whole document with the stream classes: a constructor and a destructor
-- for each array and object, and one call of `WriteValue` for each other member.
use lib_abk.Common.{
  ℕ, ◌+◌, ◌<◌, Bool, true, false, ◌≡◌, refl, ap, ap₂, ◌∙◌, arith, [], ◌∷◌, ◌++◌, ◌==◌, Bytes,
  append_assoc, subst,
}
use lib_abk.Json.Escape.{Overload, c_str, std_string, quoted}
use lib_abk.Json.Document.{
  Value, token, text, arr, obj, Values, no_values, values, Fields, no_fields, fields, comma, print,
  print_values, print_fields,
}
use lib_abk.Json.Stream.{
  Node, Store, array_in_object, array_in_array, object_in_object, object_in_array, close,
  write_element, write_field, begin_named, init_new, root_node, get_stream,
}
use lib_abk.Json.Stream.Close.{close-Closes, close_twice}
use lib_abk.Json.Stream.Wrote.{
  Wrote, IsIdle, separator, begin_member-Wrote, Wrote-nothing, Wrote-write, Wrote-trans,
  IsIdle-Wrote, Constructed, construct-Constructed, Constructed-write, Constructed-IsIdle,
  close-Wrote,
}

-- The new child of `i` is number `s.fresh`.
unfoldable mutual
  pub write_in_array : ℕ → Value → Store → Store
  write_in_array i (token t) s = write_element i t s
  write_in_array i (text o t) s = write_element i (quoted o t) s
  write_in_array i (arr vs) s = close s.fresh (write_values s.fresh vs (array_in_array i s))
  write_in_array i (obj fs) s = close s.fresh (write_fields s.fresh fs (object_in_array i s))

  pub write_values : ℕ → Values → Store → Store
  write_values i no_values s = s
  write_values i (values v vs) s = write_values i vs (write_in_array i v s)

  pub write_in_object : ℕ → Overload → Bytes → Value → Store → Store
  write_in_object i o n (token t) s = write_field i n t s
  write_in_object i o n (text p t) s = write_field i n (quoted p t) s
  write_in_object i o n (arr vs) s =
      close s.fresh (write_values s.fresh vs (array_in_object i o n s))
  write_in_object i o n (obj fs) s =
      close s.fresh (write_fields s.fresh fs (object_in_object i o n s))

  pub write_fields : ℕ → Fields → Store → Store
  write_fields i no_fields s = s
  write_fields i (fields o n v fs) s = write_fields i fs (write_in_object i o n v s)

-- The name of a text or token is a `const char *`; there is no other overload of `WriteValue`.
abbrev mutual
  pub Writable : Value → Type 0
  Writable (token t) = Unit {0}
  Writable (text o t) = Unit {0}
  Writable (arr vs) = WritableValues vs
  Writable (obj fs) = WritableFields fs

  pub WritableValues : Values → Type 0
  WritableValues no_values = Unit {0}
  WritableValues (values v vs) = Writable v × WritableValues vs

  pub WritableFields : Fields → Type 0
  WritableFields no_fields = Unit {0}
  WritableFields (fields o n v fs) = HasName o v × Writable v × WritableFields fs

  pub HasName : Overload → Value → Type 0
  HasName c_str v = Unit {0}
  HasName std_string (token t) = ⊥
  HasName std_string (text o t) = ⊥
  HasName std_string (arr vs) = Unit {0}
  HasName std_string (obj fs) = Unit {0}

write_element-Wrote :
    (i : ℕ) (t : Bytes) (s : Store) → Wrote i 1 (separator i s ++ t) s (write_element i t s)
unfolding write_element
write_element-Wrote i t s = Wrote-write t (begin_member-Wrote i s)

-- The text of a `Wrote`, bracketed another way.
pub retext : {i k : ℕ} {a b : Bytes} {s t : Store} → a ≡ b → Wrote i k a s t → Wrote i k b s t
retext {i} {k} {s = s} {t = t} e w = subst (λ x. Wrote i k x s t) e w

write_field-Wrote :
    (i : ℕ) (n t : Bytes) (s : Store)
    → Wrote i 1 (separator i s ++ (quoted c_str n ++ (b':' ∷ t))) s (write_field i n t s)
unfolding write_field begin_named
write_field-Wrote i n t s = retext (simp append_assoc) (
    Wrote-write t (Wrote-write (b':' ∷ []) (Wrote-write (quoted c_str n) (begin_member-Wrote i s))))

pub first_member :
    {i : ℕ} {tag a : Bytes} {s t : Store}
    → Constructed i tag a s t
    → ((t.nodes s.fresh).member_count == 0) ≡ true
first_member c = ap (λ (n : Node). n.member_count == 0) c.new

pub later_member :
    {i : ℕ} {a : Bytes} {s t : Store} → Wrote i 1 a s t → ((t.nodes i).member_count == 0) ≡ false
later_member w = ap (λ (n : Node). n.member_count == 0) w.self ∙ ground arith

module _ (i : ℕ) (s : Store) (l : i < s.fresh) where
  array_in_array-Constructed :
      Constructed i (b']' ∷ []) (separator i s ++ (b'[' ∷ [])) s (array_in_array i s)
  unfolding array_in_array
  array_in_array-Constructed = Constructed-write _ (construct-Constructed i _ s l)

  object_in_array-Constructed :
      Constructed i (b'}' ∷ []) (separator i s ++ (b'{' ∷ [])) s (object_in_array i s)
  unfolding object_in_array
  object_in_array-Constructed = Constructed-write _ (construct-Constructed i _ s l)

  pub array_in_object-Constructed :
      (o : Overload) (n : Bytes)
      → Constructed i
          (b']' ∷ [])
          ((separator i s ++ quoted o n) ++ (b':' ∷ b'[' ∷ []))
          s
          (array_in_object i o n s)
  unfolding array_in_object
  array_in_object-Constructed o n =
      Constructed-write _ (Constructed-write (quoted o n) (construct-Constructed i _ s l))

  pub object_in_object-Constructed :
      (o : Overload) (n : Bytes)
      → Constructed i
          (b'}' ∷ [])
          ((separator i s ++ quoted o n) ++ (b':' ∷ b'{' ∷ []))
          s
          (object_in_object i o n s)
  unfolding object_in_object
  object_in_object-Constructed o n =
      Constructed-write _ (Constructed-write (quoted o n) (construct-Constructed i _ s l))

mutual
  unfolding write_in_array print

  pub write_in_array-Wrote :
      (v : Value) (i : ℕ) (s : Store)
      → Writable v
      → IsIdle i s
      → Wrote i 1 (separator i s ++ print v) s (write_in_array i v s)
  write_in_array-Wrote (token t) i s h d = write_element-Wrote i t s
  write_in_array-Wrote (text o t) i s h d = write_element-Wrote i (quoted o t) s
  write_in_array-Wrote (arr vs) i s h d =
      let c = array_in_array-Constructed i s d.known in
      let w = write_values-Wrote vs s.fresh true _ h (Constructed-IsIdle c) (first_member c) in
      retext (append_assoc (separator i s) (b'[' ∷ []) _) (close-Wrote d c w.1)
  write_in_array-Wrote (obj fs) i s h d =
      let c = object_in_array-Constructed i s d.known in
      let w = write_fields-Wrote fs s.fresh true _ h (Constructed-IsIdle c) (first_member c) in
      retext (append_assoc (separator i s) (b'{' ∷ []) _) (close-Wrote d c w.1)

  pub write_values-Wrote :
      (vs : Values) (i : ℕ) (first : Bool) (s : Store)
      → WritableValues vs
      → IsIdle i s
      → ((s.nodes i).member_count == 0) ≡ first
      → (k : ℕ) × Wrote i k (print_values first vs) s (write_values i vs s)
  write_values-Wrote no_values i first s h d e = (0, Wrote-nothing i s)
  write_values-Wrote (values v vs) i first s h d e =
      let a = write_in_array-Wrote v i s h.0 d in
      let b =
        write_values-Wrote vs i false (write_in_array i v s) h.1 (IsIdle-Wrote d a)
          (later_member a) in
      (
        1 + b.0,
        retext
            (append_assoc (separator i s) (print v) (print_values false vs)
              ∙ ap (λ f. comma f [] ++ (print v ++ print_values false vs)) e)
            (Wrote-trans a b.1),
      )

  pub write_in_object-Wrote :
      (v : Value) (i : ℕ) (o : Overload) (n : Bytes) (s : Store)
      → HasName o v
      → Writable v
      → IsIdle i s
      → Wrote i 1 (separator i s ++ (quoted o n ++ (b':' ∷ print v))) s (write_in_object i o n v s)
  write_in_object-Wrote (token t) i c_str n s q h d = write_field-Wrote i n t s
  write_in_object-Wrote (token t) i std_string n s q h d = absurd q
  write_in_object-Wrote (text p t) i c_str n s q h d = write_field-Wrote i n (quoted p t) s
  write_in_object-Wrote (text p t) i std_string n s q h d = absurd q
  write_in_object-Wrote (arr vs) i o n s q h d =
      let c = array_in_object-Constructed i s d.known o n in
      let w = write_values-Wrote vs s.fresh true _ h (Constructed-IsIdle c) (first_member c) in
      retext (simp append_assoc) (close-Wrote d c w.1)
  write_in_object-Wrote (obj fs) i o n s q h d =
      let c = object_in_object-Constructed i s d.known o n in
      let w = write_fields-Wrote fs s.fresh true _ h (Constructed-IsIdle c) (first_member c) in
      retext (simp append_assoc) (close-Wrote d c w.1)

  pub write_fields-Wrote :
      (fs : Fields) (i : ℕ) (first : Bool) (s : Store)
      → WritableFields fs
      → IsIdle i s
      → ((s.nodes i).member_count == 0) ≡ first
      → (k : ℕ) × Wrote i k (print_fields first fs) s (write_fields i fs s)
  write_fields-Wrote no_fields i first s h d e = (0, Wrote-nothing i s)
  write_fields-Wrote (fields o n v fs) i first s h d e =
      let a = write_in_object-Wrote v i o n s h.0 h.1 d in
      let b =
        write_fields-Wrote fs i false (write_in_object i o n v s) h.2 (IsIdle-Wrote d a)
          (later_member a) in
      (
        1 + b.0,
        retext
            (simp append_assoc (
              ap (λ f. comma f [] ++ (quoted o n ++ (b':' ∷ (print v ++ print_fields false fs))))
                e))
            (Wrote-trans a b.1),
      )

pub init_new-IsIdle : (s : Store) → 0 < s.fresh → IsIdle 0 (init_new s)
unfolding init_new
init_new-IsIdle s l = record { known = l; live = refl; childless = refl }

pub init_new_start :
    (s : Store) → ((init_new s).dump ≡ b'{' ∷ []) × ((init_new s).nodes 0 ≡ root_node)
unfolding init_new
init_new_start s = (refl, refl)

-- Closing a formatter behind members that were written to it.
pub close-Wrote_root :
    (k : ℕ) (a : Bytes) (s t : Store)
    → 0 < s.fresh
    → Wrote 0 k a (init_new s) t
    → (close 0 t).dump ≡ b'{' ∷ (a ++ (b'}' ∷ []))
close-Wrote_root k a s t l w =
    let (d, n) = init_new_start s in
    let e : t.nodes 0 ≡ record root_node { member_count = k } = w.self ∙ ground (arith, n) in
    let after = IsIdle-Wrote (init_new-IsIdle s l) w in
    let r =
      close-Closes t 0 [] (λ p q. ground (arith, e)) (after.live, after.childless, after.known) in
    r.dump ∙ ap₂ (◌++◌) (w.dump ∙ ap (λ x. x ++ a) d) (ap (λ (x : Node). x.close_tag) e)

-- Closing it once more changes nothing.
pub close_twice-Wrote :
    (k : ℕ) (a : Bytes) (s t : Store)
    → 0 < s.fresh
    → Wrote 0 k a (init_new s) t
    → close 0 (close 0 t) ≡ close 0 t
close_twice-Wrote k a s t l w =
    let (d, n) = init_new_start s in
    let e : t.nodes 0 ≡ record root_node { member_count = k } = w.self ∙ ground (arith, n) in
    let after = IsIdle-Wrote (init_new-IsIdle s l) w in
    close_twice t 0 [] (λ p q. ground (arith, e)) (after.live, after.childless, after.known)

pub close_twice-write_fields :
    (fs : Fields) (s : Store)
    → WritableFields fs
    → 0 < s.fresh
    → close 0 (close 0 (write_fields 0 fs (init_new s))) ≡ close 0 (write_fields 0 fs (init_new s))
close_twice-write_fields fs s h l =
    let (d, n) = init_new_start s in
    let (k, w) =
      write_fields-Wrote fs 0 true (init_new s) h (init_new-IsIdle s l)
        (ap (λ (x : Node). x.member_count == 0) n) in
    close_twice-Wrote k (print_fields true fs) s (write_fields 0 fs (init_new s)) l w

-- Writing the members of a document to a formatter that was just constructed, or initialised
-- again after any use, and then closing it by `GetStream` leaves the document's text in the
-- stream, and nothing else. The conditions: at least the formatter was constructed, and the names
-- of the values that are no containers are written as `const char *`.
pub get_stream-print :
    (fs : Fields) (s : Store)
    → WritableFields fs
    → 0 < s.fresh
    → (get_stream (write_fields 0 fs (init_new s))).dump ≡ print (obj fs)
unfolding get_stream print
get_stream-print fs s h l =
    let (d, n) = init_new_start s in
    let idle = init_new-IsIdle s l in
    let (k, w) =
      write_fields-Wrote fs 0 true (init_new s) h idle (ap (λ (x : Node). x.member_count == 0) n) in
    close-Wrote_root k (print_fields true fs) s (write_fields 0 fs (init_new s)) l w
