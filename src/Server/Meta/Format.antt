-- ===== src/Server/Meta/Format.antt =====
-- The meta data that a server replies: only what is marked as valid, in a fixed order.
use lib_abk.Common.{
  ℕ, zero, suc, ◌+◌, Bool, ◌≡◌, refl, ap, ◌∙◌, List, [], ◌∷◌, Bytes, codes, ℤ, if◌then◌else◌,
  Bool-cases, inl, inr,
}
use lib_abk.Json.Escape.{c_str, std_string}
use lib_abk.Json.Document.{
  Value, token, text, arr, Values, no_values, values, Fields, no_fields, fields,
}
use lib_abk.Json.Stream.{Store, array_in_object, close}
use lib_abk.Json.Stream.Writer.{write_fields, write_values}
use lib_abk.Server.ValueTable.{Doubles, number, format_table, table_fields}
use lib_abk.Server.ValueTable.Format.{format_table-write_fields}
use lib_abk.Server.Meta.{
  Flag, dispname, comment, unit, symbol, tags, range, factoffs, thresholds, fractdigits, obj_url,
  obj_mime, valuetable, Flags, Meta, Cell, string_cell, double_cell, array_cell, int_cell, Row,
  seritable, write_doubles, write_cell, serialize, format_meta, threshold_count,
}

module _ (D : Doubles) (experimental : Bool) (show_int : ℤ → Bytes) where
  abbrev pub double_values : ℕ → ℕ → (ℕ → D.Double) → Values
  double_values zero j ds = no_values
  double_values (suc n) j ds = values (token (number D (ds j))) (double_values n (j + 1) ds)

  abbrev pub cell_value : Cell D → Value
  cell_value (string_cell t) = text std_string t
  cell_value (double_cell d) = token (number D d)
  cell_value (array_cell ds n) = arr (double_values n 0 ds)
  cell_value (int_cell n) = token (show_int n)

  -- A member that is there if its flag is set.
  unfoldable pub member_if : Bool → Bytes → Value → Fields → Fields
  member_if b name v fs = if b then fields c_str name v fs else fs

  unfoldable pub row_fields : Flags → List (Row D) → Fields → Fields
  row_fields valid [] fs = fs
  row_fields valid (r ∷ rs) fs =
      member_if (valid r.flag) r.field_name (cell_value r.cell) (row_fields valid rs fs)

  -- The meta data as members of an object.
  unfoldable pub meta_fields : Meta D → Fields
  meta_fields m =
      let v = m.valid in
      let string = λ (f : Flag) (n t : Bytes). member_if (v f) n (text std_string t) in
      let double =
        λ (f : Flag) (n : Bytes) (d : D.Double). member_if (v f) n (token (number D d)) in
      string dispname (codes "DisplayName") m.disp_name (
        string comment (codes "Comment") m.comment_text (
          string unit (codes "Unit") m.unit_text (
            string symbol (codes "Symbol") m.symbol_text (
              string tags (codes "Tags") m.tags_text (
                double range (codes "RangeMin") m.range_min (
                  double range (codes "RangeMax") m.range_max (
                    double factoffs (codes "Factor") m.factor (
                      double factoffs (codes "Offset") m.offset (
                        member_if (v thresholds) (codes "Thresholds")
                          (arr (double_values threshold_count 0 m.threshold_values))
                          (member_if (v fractdigits) (codes "FractionalDigits")
                            (token (show_int m.fract_digits))
                            (string obj_url (codes "ObjUrl") m.obj_url_text (
                              string obj_mime (codes "ObjMime") m.obj_mime_text (
                                if v valuetable
                                then table_fields D experimental m.table (codes "Text") no_fields
                                else no_fields)))))))))))))

  write_doubles-write_values :
      (a n j : ℕ) (ds : ℕ → D.Double) (s : Store)
      → write_doubles D experimental show_int a n j ds s ≡ write_values a (double_values n j ds) s
  unfolding write_doubles write_fields
  write_doubles-write_values a zero j ds s = refl
  write_doubles-write_values a (suc n) j ds s = write_doubles-write_values a n (j + 1) ds _

  write_cell-write_fields :
      (i : ℕ) (name : Bytes) (c : Cell D) (fs : Fields) (s : Store)
      → write_fields i fs (write_cell D experimental show_int i name c s)
        ≡ write_fields i (fields c_str name (cell_value c) fs) s
  unfolding write_cell write_fields
  write_cell-write_fields i name (string_cell t) fs s = refl
  write_cell-write_fields i name (double_cell d) fs s = refl
  write_cell-write_fields i name (array_cell ds n) fs s =
      ap (λ t. write_fields i fs (close s.fresh t))
        (write_doubles-write_values s.fresh n 0 ds (array_in_object i c_str name s))
  write_cell-write_fields i name (int_cell n) fs s = refl

  serialize-write_fields :
      (i : ℕ) (valid : Flags) (rs : List (Row D)) (fs : Fields) (s : Store)
      → write_fields i fs (serialize D experimental show_int i valid rs s)
        ≡ write_fields i (row_fields valid rs fs) s
  unfolding serialize row_fields member_if
  serialize-write_fields i valid [] fs s = refl
  serialize-write_fields i valid (r ∷ rs) fs s = elim (Bool-cases (valid r.flag)) [
    | inl v ↦ rw v (
        serialize-write_fields i valid rs fs
          (write_cell D experimental show_int i r.field_name r.cell s)
        ∙ write_cell-write_fields i r.field_name r.cell (row_fields valid rs fs) s)
    | inr v ↦ rw v (serialize-write_fields i valid rs fs s)
  ]

  -- The members of the value table, if it is valid.
  abbrev pub valid_table : Meta D → Fields
  valid_table m =
      if m.valid valuetable
      then table_fields D experimental m.table (codes "Text") no_fields
      else no_fields

  pub row_fields-seritable :
      (m : Meta D) → row_fields m.valid (seritable m) (valid_table m) ≡ meta_fields m
  unfolding row_fields meta_fields
  row_fields-seritable m = refl

  write_fields-valid_table :
      (i : ℕ) (m : Meta D) (s : Store)
      → (if m.valid valuetable then format_table D experimental i m.table (codes "Text") s else s)
        ≡ write_fields i (valid_table m) s
  unfolding write_fields
  write_fields-valid_table i m s = elim (Bool-cases (m.valid valuetable)) [
    | inl v ↦ rw v (format_table-write_fields D experimental i m.table (codes "Text") no_fields s)
    | inr v ↦ rw v refl
  ]

  -- `FormatAsJson` writes just the members that are marked as valid, in this order.
  pub format_meta-write_fields :
      (i : ℕ) (m : Meta D) (s : Store)
      → format_meta D experimental show_int i m s ≡ write_fields i (meta_fields m) s
  unfolding format_meta
  format_meta-write_fields i m s =
      write_fields-valid_table i m (serialize D experimental show_int i m.valid (seritable m) s)
      ∙ serialize-write_fields i m.valid (seritable m) (valid_table m) s
      ∙ ap (λ fs. write_fields i fs s) (row_fields-seritable m)
