-- ===== src/Server/Meta.antt =====
-- The meta data of a variable, `CMeta` of ServerLib/VarRef, and `CVarRef::FormatMetaAsJson`. The
-- text form of an `int` is a parameter.
pub mod Format
pub mod Reply
use lib_abk.Common.{
  ℕ, zero, suc, ◌+◌, Bool, true, false, not, ◌&&◌, ◌||◌, ◌==◌, List, [], ◌∷◌, Bytes, codes, Option,
  none, some, ℤ, pos, if◌then◌else◌,
}
use lib_abk.Json.Escape.{c_str, std_string, quoted}
use lib_abk.Json.Parser.{null_pointer, Result, ok, fault}
use lib_abk.Json.Stream.{Store, array_in_object, close, write_field, write_element}
use lib_abk.Server.ValueTable.{Doubles, Table, new_table, number, format_table}

-- The bits of `m_dwValidMemberFlags`.
pub data Flag : Type 0 where
  dispname comment unit symbol tags range factoffs thresholds fractdigits obj_url obj_mime
        valuetable :
      Flag

abbrev pub mask : Flag → ℕ
mask dispname = 1
mask comment = 2
mask unit = 4
mask symbol = 8
mask tags = 16
mask range = 32
mask factoffs = 64
mask thresholds = 128
mask fractdigits = 256
mask obj_url = 512
mask obj_mime = 1024
mask valuetable = 2048

-- A word of flags, as the set of its bits.
abbrev pub Flags : Type 0
Flags = Flag → Bool

abbrev pub set_flag : Flag → Flags → Flags
set_flag f s g = mask g == mask f || s g

abbrev pub clear_flag : Flag → Flags → Flags
clear_flag f s g = not (mask g == mask f) && s g

-- `CMeta`. Of `threshold_values` the first five exist.
pub record Meta (D : Doubles) : Type 0 where
  pub valid : Flags
  pub disp_name : Bytes
  pub comment_text : Bytes
  pub unit_text : Bytes
  pub symbol_text : Bytes
  pub tags_text : Bytes
  pub range_min : D.Double
  pub range_max : D.Double
  pub factor : D.Double
  pub offset : D.Double
  pub threshold_values : ℕ → D.Double
  pub fract_digits : ℤ
  pub obj_url_text : Bytes
  pub obj_mime_text : Bytes
  pub table : Table D

abbrev pub threshold_count : ℕ
threshold_count = 5

module _ (D : Doubles) where
  unfoldable pub new_meta : Meta D
  unfolding new_table
  new_meta = record {
    valid = λ f. false;
    disp_name = [];
    comment_text = [];
    unit_text = [];
    symbol_text = [];
    tags_text = [];
    range_min = D.zero_point;
    range_max = D.hundred_point;
    factor = D.one_point;
    offset = D.zero_point;
    threshold_values = λ j. D.zero_point;
    fract_digits = pos 2;
    obj_url_text = [];
    obj_mime_text = [];
    table = new_table D;
  }

  unfoldable pub set_disp_name : Bytes → Meta D → Meta D
  set_disp_name s m = record m { disp_name = s; valid = set_flag dispname m.valid }

  unfoldable pub set_comment : Bytes → Meta D → Meta D
  set_comment s m = record m { comment_text = s; valid = set_flag comment m.valid }

  unfoldable pub set_unit : Bytes → Meta D → Meta D
  set_unit s m = record m { unit_text = s; valid = set_flag unit m.valid }

  unfoldable pub set_symbol : Bytes → Meta D → Meta D
  set_symbol s m = record m { symbol_text = s; valid = set_flag symbol m.valid }

  unfoldable pub set_tags : Bytes → Meta D → Meta D
  set_tags s m = record m { tags_text = s; valid = set_flag tags m.valid }

  unfoldable pub set_range : D.Double → D.Double → Meta D → Meta D
  set_range a b m = record m { range_min = a; range_max = b; valid = set_flag range m.valid }

  unfoldable pub set_factor_offset : D.Double → D.Double → Meta D → Meta D
  set_factor_offset a b m = record m { factor = a; offset = b; valid = set_flag factoffs m.valid }

  unfoldable pub set_fract_digits : ℤ → Meta D → Meta D
  set_fract_digits n m = record m { fract_digits = n; valid = set_flag fractdigits m.valid }

  unfoldable pub set_thresholds : (ℕ → D.Double) → Meta D → Meta D
  set_thresholds ds m = record m { threshold_values = ds; valid = set_flag thresholds m.valid }

  -- `SetObject`: a `std::string` takes no NULL.
  unfoldable pub set_object : Option Bytes → Option Bytes → Meta D → Result (Meta D)
  set_object (some url) (some mime) m = ok (record m {
    valid = set_flag obj_mime (set_flag obj_url m.valid);
    obj_url_text = url;
    obj_mime_text = mime;
  })
  set_object (some url) none m = fault null_pointer
  set_object none mime m = ok (record m {
    valid = clear_flag obj_mime (clear_flag obj_url m.valid);
    obj_url_text = [];
    obj_mime_text = [];
  })

  unfoldable pub set_value_table : Table D → Meta D → Meta D
  set_value_table t m = record m { table = t; valid = set_flag valuetable m.valid }

-- A row of `seritable`: which of its pointers is not NULL.
pub data Cell (D : Doubles) : Type 0 where
  string_cell : Bytes → Cell D
  double_cell : D.Double → Cell D
  array_cell : (ℕ → D.Double) → ℕ → Cell D
  int_cell : ℤ → Cell D

pub record Row (D : Doubles) : Type 0 where
  pub flag : Flag
  pub field_name : Bytes
  pub cell : Cell D

abbrev pub row : {D : Doubles} → Flag → Bytes → Cell D → Row D
row f n c = record { flag = f; field_name = n; cell = c }

-- `seritable`.
abbrev pub seritable : {D : Doubles} → Meta D → List (Row D)
seritable m =
    row dispname (codes "DisplayName") (string_cell m.disp_name)
    ∷ row comment (codes "Comment") (string_cell m.comment_text)
    ∷ row unit (codes "Unit") (string_cell m.unit_text)
    ∷ row symbol (codes "Symbol") (string_cell m.symbol_text)
    ∷ row tags (codes "Tags") (string_cell m.tags_text)
    ∷ row range (codes "RangeMin") (double_cell m.range_min)
    ∷ row range (codes "RangeMax") (double_cell m.range_max)
    ∷ row factoffs (codes "Factor") (double_cell m.factor)
    ∷ row factoffs (codes "Offset") (double_cell m.offset)
    ∷ row thresholds (codes "Thresholds") (array_cell m.threshold_values threshold_count)
    ∷ row fractdigits (codes "FractionalDigits") (int_cell m.fract_digits)
    ∷ row obj_url (codes "ObjUrl") (string_cell m.obj_url_text)
    ∷ row obj_mime (codes "ObjMime") (string_cell m.obj_mime_text)
    ∷ []

module _ (D : Doubles) (experimental : Bool) (show_int : ℤ → Bytes) where
  -- The loop over an array, from the index `j` on, `n` members.
  unfoldable pub write_doubles : ℕ → ℕ → ℕ → (ℕ → D.Double) → Store → Store
  write_doubles a zero j ds s = s
  write_doubles a (suc n) j ds s =
      write_doubles a n (j + 1) ds (write_element a (number D (ds j)) s)

  unfoldable pub write_cell : ℕ → Bytes → Cell D → Store → Store
  unfolding write_doubles
  write_cell i name (string_cell t) s = write_field i name (quoted std_string t) s
  write_cell i name (double_cell d) s = write_field i name (number D d) s
  write_cell i name (array_cell ds n) s =
      close s.fresh (write_doubles s.fresh n 0 ds (array_in_object i c_str name s))
  write_cell i name (int_cell n) s = write_field i name (show_int n) s

  unfoldable pub serialize : ℕ → Flags → List (Row D) → Store → Store
  unfolding write_cell
  serialize i valid [] s = s
  serialize i valid (r ∷ rs) s =
      serialize i valid rs (if valid r.flag then write_cell i r.field_name r.cell s else s)

  -- `CMeta::FormatAsJson`.
  unfoldable pub format_meta : ℕ → Meta D → Store → Store
  unfolding serialize
  format_meta i m s =
      let t = serialize i m.valid (seritable m) s in
      if m.valid valuetable then format_table D experimental i m.table (codes "Text") t else t

  -- `CVarRef::FormatMetaAsJson`; the virtual `OnGetMeta` is an argument.
  unfoldable pub format_meta_as_json : (Meta D → Meta D) → ℕ → Bytes → Store → Store
  unfolding format_meta new_meta
  format_meta_as_json on_get_meta i name s =
      format_meta i (on_get_meta (new_meta D))
        (write_field i (codes "Name") (quoted std_string name) s)
