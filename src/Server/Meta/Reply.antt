-- ===== src/Server/Meta/Reply.antt =====
-- A reply with the meta data of a variable, from the server's formatter to the client's parser.
use lib_abk.Common.{
  ℕ, zero, suc, ◌+◌, ◌<◌, ◌≤◌, Bool, ◌≡◌, ap, ◌∙◌, subst, arith, List, [], ◌∷◌, ◌++◌, Bytes, codes,
  ℤ, Bool-cases, inl, inr,
}
use lib_abk.Json.Escape.{c_str, std_string}
use lib_abk.Json.Unescape.{Ptr}
use lib_abk.Json.Parser.{restart}
use lib_abk.Json.Document.{
  Value, token, text, arr, obj, Values, Fields, no_fields, fields, print, depth, depth_fields,
  depth_values, WellFormed,
}
use lib_abk.Json.Stream.{Store, init_new, get_stream}
use lib_abk.Json.Stream.Writer.{
  write_fields, Writable, WritableFields, WritableValues, get_stream-print,
}
use lib_abk.Json.Reading.{inner}
use lib_abk.Json.Reading.RoundTrip.{ReadsDocument, read_document}
use lib_abk.Server.ValueTable.{
  number, Doubles, Entity, Table, entity_values, entity_fields, text_fields, table_fields,
  fallback_name, text_name,
}
use lib_abk.Server.Meta.{
  Flags, Meta, Cell, string_cell, double_cell, array_cell, int_cell, Row, seritable,
  format_meta_as_json, new_meta, valuetable,
}
use lib_abk.Server.Meta.Format.{
  double_values, cell_value, member_if, row_fields, meta_fields, valid_table, row_fields-seritable,
  format_meta-write_fields,
}

-- Every name is a `const char *`, and no more than `b` containers stand in one another.
abbrev IsFlat : ℕ → Value → Type 0
IsFlat b v = Writable v × (depth v ≤ b)

abbrev AreFlat : ℕ → Fields → Type 0
AreFlat b fs = WritableFields fs × (depth_fields fs ≤ b)

abbrev AreFlatValues : ℕ → Values → Type 0
AreFlatValues b vs = WritableValues vs × (depth_values vs ≤ b)

fields-AreFlat :
    {b : ℕ} (n : Bytes) (v : Value) (fs : Fields)
    → IsFlat b v
    → AreFlat b fs
    → AreFlat b (fields c_str n v fs)
unfolding depth
fields-AreFlat n v fs h k = ((tt, h.0, k.0), omega (arith, h.1, k.1))

no_fields-AreFlat : {b : ℕ} → AreFlat b no_fields
unfolding depth
no_fields-AreFlat = (tt, omega arith)

token-IsFlat : {b : ℕ} (t : Bytes) → IsFlat b (token t)
unfolding depth
token-IsFlat t = (tt, omega arith)

text-IsFlat : {b : ℕ} (t : Bytes) → IsFlat b (text std_string t)
unfolding depth
text-IsFlat t = (tt, omega arith)

module _ (D : Doubles) (experimental : Bool) where
  text_fields-AreFlat :
      {b : ℕ} (n : Bytes) (e : Entity D) (fs : Fields)
      → AreFlat b fs
      → AreFlat b (text_fields D experimental n e fs)
  text_fields-AreFlat n e fs h = elim (Bool-cases e.text_valid) [
    | inl v ↦ rw v (fields-AreFlat n (text std_string e.str_text) fs (text-IsFlat e.str_text) h)
    | inr v ↦ rw v h
  ]

  entity_fields-AreFlat : (e : Entity D) → AreFlat 0 (entity_fields D experimental e)
  entity_fields-AreFlat e =
      let h = text_fields-AreFlat {b = 0} text_name e no_fields no_fields-AreFlat in
      elim (Bool-cases experimental) [
        | inl x ↦
            rw x (fields-AreFlat _ _ _ (token-IsFlat _) (fields-AreFlat _ _ _ (token-IsFlat _) h))
        | inr x ↦ rw x (fields-AreFlat _ _ _ (token-IsFlat _) h)
      ]

  entity_values-AreFlat : (es : List (Entity D)) → AreFlatValues 1 (entity_values D experimental es)
  unfolding depth
  entity_values-AreFlat [] = (tt, omega arith)
  entity_values-AreFlat (e ∷ es) =
      let h = entity_values-AreFlat es in
      let k = entity_fields-AreFlat e in ((k.0, h.0), omega (arith, h.1, k.1))

  table_fields-AreFlat :
      (t : Table D) (n : Bytes) → AreFlat 2 (table_fields D experimental t n no_fields)
  unfolding depth
  table_fields-AreFlat t n =
      let h = entity_values-AreFlat t.entities in
      fields-AreFlat n (arr (entity_values D experimental t.entities)) _ (h.0, omega (arith, h.1))
        (text_fields-AreFlat fallback_name t.fallback no_fields no_fields-AreFlat)

module _ (D : Doubles) (experimental : Bool) (show_int : ℤ → Bytes) where
  double_values-AreFlat :
      (n j : ℕ) (ds : ℕ → D.Double) → AreFlatValues 0 (double_values D experimental show_int n j ds)
  unfolding depth
  double_values-AreFlat zero j ds = (tt, omega arith)
  double_values-AreFlat (suc n) j ds =
      let h = double_values-AreFlat n (j + 1) ds in ((tt, h.0), omega (arith, h.1))

  cell_value-IsFlat : (c : Cell D) → IsFlat 2 (cell_value D experimental show_int c)
  unfolding depth
  cell_value-IsFlat (string_cell t) = text-IsFlat t
  cell_value-IsFlat (double_cell d) = token-IsFlat (number D d)
  cell_value-IsFlat (array_cell ds n) =
      let h = double_values-AreFlat n 0 ds in (h.0, omega (arith, h.1))
  cell_value-IsFlat (int_cell n) = token-IsFlat (show_int n)

  row_fields-AreFlat :
      (valid : Flags) (rs : List (Row D)) (fs : Fields)
      → AreFlat 2 fs
      → AreFlat 2 (row_fields D experimental show_int valid rs fs)
  unfolding row_fields member_if
  row_fields-AreFlat valid [] fs h = h
  row_fields-AreFlat valid (r ∷ rs) fs h =
      let k = row_fields-AreFlat valid rs fs h in
      elim (Bool-cases (valid r.flag)) [
        | inl v ↦ rw v (
            fields-AreFlat r.field_name (cell_value D experimental show_int r.cell) _
              (cell_value-IsFlat r.cell) k)
        | inr v ↦ rw v k
      ]

  valid_table-AreFlat : (m : Meta D) → AreFlat 2 (valid_table D experimental show_int m)
  valid_table-AreFlat m = elim (Bool-cases (m.valid valuetable)) [
    | inl v ↦ rw v (table_fields-AreFlat D experimental m.table (codes "Text"))
    | inr v ↦ rw v no_fields-AreFlat
  ]

  meta_fields-AreFlat : (m : Meta D) → AreFlat 2 (meta_fields D experimental show_int m)
  meta_fields-AreFlat m = subst (AreFlat 2) (row_fields-seritable D experimental show_int m) (
      row_fields-AreFlat m.valid (seritable m) (valid_table D experimental show_int m)
        (valid_table-AreFlat m))

  -- The reply for one variable: its name, and the meta data that `OnGetMeta` gave.
  abbrev pub reply_fields : (Meta D → Meta D) → Bytes → Fields
  reply_fields on_get_meta name =
      fields c_str (codes "Name") (text std_string name)
        (meta_fields D experimental show_int (on_get_meta (new_meta D)))

  reply_fields-AreFlat :
      (on_get_meta : Meta D → Meta D) (name : Bytes) → AreFlat 2 (reply_fields on_get_meta name)
  reply_fields-AreFlat on_get_meta name =
      fields-AreFlat (codes "Name") (text std_string name) _ (text-IsFlat name)
        (meta_fields-AreFlat (on_get_meta (new_meta D)))

  -- `FormatMetaAsJson` into a formatter that was initialised, whatever `OnGetMeta` does to the
  -- default meta data, and closing it, leaves the object with the variable's name and then just
  -- the members that are marked as valid, in the order of the table, the value table last. The
  -- condition: at least the formatter was constructed.
  pub format_meta_as_json-print :
      (on_get_meta : Meta D → Meta D) (name : Bytes) (s : Store)
      → 0 < s.fresh
      → (get_stream
          (format_meta_as_json D experimental show_int on_get_meta 0 name (init_new s))).dump
        ≡ print (obj (reply_fields on_get_meta name))
  unfolding format_meta_as_json write_fields
  format_meta_as_json-print on_get_meta name s l =
      ap (λ t. (get_stream t).dump)
        (format_meta-write_fields D experimental show_int 0 (on_get_meta (new_meta D)) _)
      ∙ get_stream-print (reply_fields on_get_meta name) s (reply_fields-AreFlat on_get_meta name).0
          l

  -- A client's parser reads the object that `FormatMetaAsJson` wrote into an initialised
  -- formatter back, member by member, if no text in it holds a NUL, every number in it was shown
  -- as a token, and at least the formatter was constructed.
  format_meta_as_json-ReadsDocument :
      (on_get_meta : Meta D → Meta D) (name : Bytes) (s : Store) (old : ℕ → Bool) (rest : Ptr)
      → 0 < s.fresh
      → WellFormed (obj (reply_fields on_get_meta name))
      → ReadsDocument
          (restart old (
            (get_stream
              (format_meta_as_json D experimental show_int on_get_meta 0 name (init_new s))).dump
            ++ rest))
          (inner (obj (reply_fields on_get_meta name)))
          rest
  unfolding depth
  format_meta_as_json-ReadsDocument on_get_meta name s old rest l w =
      rw (format_meta_as_json-print on_get_meta name s l) (
        read_document (obj (reply_fields on_get_meta name)) old rest tt w
          (omega (arith, (reply_fields-AreFlat on_get_meta name).1)))
