-- ===== src/Server/ValueTable/Format.antt =====
-- A value table in the reply of a server, and its index operator.
use lib_abk.Common.{
  ℕ, suc, ◌+◌, ◌<◌, Bool, ◌≡◌, refl, ap, ◌∙◌, arith, List, [], ◌∷◌, ◌++◌, Bytes, some, length,
  get_elem?, ltb, if◌then◌else◌, pos, negsuc, as_int-small, zero, Bool-cases, inl, inr,
  length-append,
}
use lib_abk.Json.Escape.{c_str}
use lib_abk.Json.Document.{Fields}
use lib_abk.Json.Stream.{Store, array_in_object, object_in_array, close}
use lib_abk.Json.Stream.Writer.{write_fields, write_values}
use lib_abk.Server.ValueTable.{
  Doubles, Entity, Table, format_entity, format_entities, format_table, entity_fields,
  entity_values, table_fields, check_index, at_index, add_entity, get_count,
}

module _ (D : Doubles) (experimental : Bool) where
  format_entity-write_fields :
      (i : ℕ) (e : Entity D) (s : Store)
      → format_entity D experimental i e s ≡ write_fields i (entity_fields D experimental e) s
  unfolding format_entity write_fields
  format_entity-write_fields i e s = elim (Bool-cases experimental) [
    | inl x ↦ elim (Bool-cases e.text_valid) [ inl v ↦ rw (x, v) refl | inr v ↦ rw (x, v) refl ]
    | inr x ↦ elim (Bool-cases e.text_valid) [ inl v ↦ rw (x, v) refl | inr v ↦ rw (x, v) refl ]
  ]

  format_entities-write_values :
      (a : ℕ) (es : List (Entity D)) (s : Store)
      → format_entities D experimental a es s ≡ write_values a (entity_values D experimental es) s
  unfolding format_entities write_fields
  format_entities-write_values a [] s = refl
  format_entities-write_values a (e ∷ es) s =
      ap (λ t. format_entities D experimental a es (close s.fresh t))
        (format_entity-write_fields s.fresh e (object_in_array a s))
      ∙ format_entities-write_values a es _

  -- Formatting a value table into an object writes the array with one object for each entity, in
  -- the table's order, and then the fall-back text, if there is one, and nothing else; whatever is
  -- written behind it.
  pub format_table-write_fields :
      (i : ℕ) (t : Table D) (name : Bytes) (fs : Fields) (s : Store)
      → write_fields i fs (format_table D experimental i t name s)
        ≡ write_fields i (table_fields D experimental t name fs) s
  unfolding format_table write_fields
  format_table-write_fields i t name fs s = elim (Bool-cases t.fallback.text_valid) [
    | inl v ↦
        rw (v, format_entities-write_values s.fresh t.entities (array_in_object i c_str name s))
          refl
    | inr v ↦
        rw (v, format_entities-write_values s.fresh t.entities (array_in_object i c_str name s))
          refl
  ]

module _ (D : Doubles) where
  -- The entity at a place of a list, or another one behind its end.
  abbrev pub entity_or : Entity D → List (Entity D) → ℕ → Entity D
  entity_or d [] i = d
  entity_or d (e ∷ es) zero = e
  entity_or d (e ∷ es) (suc i) = entity_or d es i

  get_elem?-entity_or :
      (d : Entity D) (es : List (Entity D)) (i : ℕ)
      → (if ltb i (length es) then get_elem? es i else some d) ≡ some (entity_or d es i)
  get_elem?-entity_or d [] i = ground arith
  get_elem?-entity_or d (e ∷ es) zero = ground arith
  get_elem?-entity_or d (e ∷ es) (suc i) = ground (arith, get_elem?-entity_or d es i)

  check_index-small :
      (t : Table D) (i : ℕ)
      → length t.entities < 2147483648
      → check_index D t (pos i) ≡ ltb i (length t.entities)
  unfolding check_index
  check_index-small t i h = ground (arith, as_int-small (length t.entities) h)

  -- `operator[]` of a table with less than 2³¹ entities never leaves the vector: it gives the
  -- entity at the index, and the fall-back for an index that is negative or too large.
  at_index-entity_or :
      (t : Table D) (i : ℕ)
      → length t.entities < 2147483648
      → (at_index D t (pos i) ≡ some (entity_or t.fallback t.entities i))
        × (at_index D t (negsuc i) ≡ some t.fallback)
  unfolding at_index check_index
  at_index-entity_or t i h = (
    ap (λ b. if b then get_elem? t.entities i else some t.fallback) (check_index-small t i h)
        ∙ get_elem?-entity_or t.fallback t.entities i,
    refl,
  )

  entity_or-append :
      (d e : Entity D) (es : List (Entity D)) → entity_or d (es ++ (e ∷ [])) (length es) ≡ e
  entity_or-append d e [] = refl
  entity_or-append d e (f ∷ es) = entity_or-append d e es

  -- `Add` puts the entity behind the others: the index that was the count before gives it, if
  -- less than 2³¹ entities are in the table behind it.
  at_index-add_entity :
      (t : Table D) (e : Entity D)
      → length t.entities + 1 < 2147483648
      → at_index D (add_entity D e t) (pos (get_count D t)) ≡ some e
  unfolding add_entity get_count
  at_index-add_entity t e h =
      (at_index-entity_or (record t { entities = t.entities ++ (e ∷ []) }) (length t.entities)
        (omega (arith, h, length-append t.entities (e ∷ [])))).0
      ∙ ap some (entity_or-append t.fallback e t.entities)
