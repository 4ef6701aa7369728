-- ===== src/Server/ValueList.antt =====
-- ServerLib/Daq: the lists of variables that a client ordered, `CDaqValues`, `CDaqList` and
-- `CDaqMAM`. The virtual functions of a variable are what they write: the text of `OnFormatValue`
-- and the values of `OnFormatMAM`. Whether the lock was obtained is an argument.
use lib_abk.Common.{
  ℕ, Bool, true, false, ◌≡◌, refl, ap, ◌∙◌, List, [], ◌∷◌, ◌++◌, Bytes, codes, length,
  if◌then◌else◌, ℤ, as_int,
}
use lib_abk.Json.Escape.{std_string, quoted}
use lib_abk.Json.Document.{Value, token, arr, obj, Values, no_values, values, no_fields, fields}
use lib_abk.Json.Stream.{
  Store, array_in_object, array_in_array, object_in_array, close, write_element, write_field,
}
use lib_abk.Json.Stream.Writer.{write_in_array, write_in_object, write_values}

pub record Variable : Type 0 where
  pub value_text : Bytes
  pub mam_values : Values

-- `CDaqValues`: `m_strName`, `m_nCycleMs` and `m_lstVars`.
pub record ValueList : Type 0 where
  pub list_name : Bytes
  pub cycle_ms : ℤ
  pub variables : List Variable

-- Which class the list is of: `CDaqList` or `CDaqMAM`.
pub data Kind : Type 0 where
  daq_list daq_mam : Kind

-- `CDaqValues::AddVar`.
unfoldable pub add_var : Bool → Variable → ValueList → Bool × ValueList
add_var locked v l =
    if locked then (true, record l { variables = l.variables ++ (v ∷ []) }) else (false, l)

-- `CDaqValues::ClearList`.
unfoldable pub clear_list : Bool → ValueList → ValueList
clear_list locked l = if locked then record l { variables = [] } else l

-- `CDaqValues::FormatStatistics`, where `show_int` is the text form of an `int`.
unfoldable pub format_statistics : (ℤ → Bytes) → Bool → ℕ → ValueList → Store → Store
format_statistics show_int locked i l s =
    if locked
    then write_field i (codes "VariableCount") (show_int (as_int (length l.variables))) (
        write_field i (codes "Cycle") (show_int l.cycle_ms)
          (write_field i (codes "Name") (quoted std_string l.list_name) s))
    else s

-- The loop body of the two classes, into the array `a`. `BeginMember` and the value's text are
-- those of `write_element`.
unfoldable pub format_variable : Kind → ℕ → Variable → Store → Store
format_variable daq_list a v s = write_element a v.value_text s
format_variable daq_mam a v s =
    close s.fresh (write_values s.fresh v.mam_values (array_in_array a s))

unfoldable pub format_variables : Kind → ℕ → List Variable → Store → Store
unfolding format_variable
format_variables k a [] s = s
format_variables k a (v ∷ vs) s = format_variables k a vs (format_variable k a v s)

-- `FormatAllData` into the object `i`.
unfoldable pub format_list : Kind → ℕ → ValueList → Store → Store
unfolding format_variables
format_list k i l s =
    close s.fresh
      (format_variables k s.fresh l.variables (array_in_object i std_string l.list_name s))

-- `FormatAllData` into the array `a`.
unfoldable pub format_list_element : Kind → ℕ → ValueList → Store → Store
unfolding format_list
format_list_element k a l s = close s.fresh (format_list k s.fresh l (object_in_array a s))

-- The loop over all lists of a client.
unfoldable pub format_lists : Kind → ℕ → List ValueList → Store → Store
unfolding format_list_element
format_lists k a [] s = s
format_lists k a (l ∷ ls) s = format_lists k a ls (format_list_element k a l s)

-- What stands for a variable, a list of variables and a list of lists.
abbrev pub variable_value : Kind → Variable → Value
variable_value daq_list v = token v.value_text
variable_value daq_mam v = arr v.mam_values

abbrev pub variable_values : Kind → List Variable → Values
variable_values k [] = no_values
variable_values k (v ∷ vs) = values (variable_value k v) (variable_values k vs)

abbrev pub list_value : Kind → ValueList → Value
list_value k l = obj (fields std_string l.list_name (arr (variable_values k l.variables)) no_fields)

abbrev pub list_values : Kind → List ValueList → Values
list_values k [] = no_values
list_values k (l ∷ ls) = values (list_value k l) (list_values k ls)

format_variable-write_in_array :
    (k : Kind) (a : ℕ) (v : Variable) (s : Store)
    → format_variable k a v s ≡ write_in_array a (variable_value k v) s
unfolding format_variable write_in_array
format_variable-write_in_array daq_list a v s = refl
format_variable-write_in_array daq_mam a v s = refl

format_variables-write_values :
    (k : Kind) (a : ℕ) (vs : List Variable) (s : Store)
    → format_variables k a vs s ≡ write_values a (variable_values k vs) s
unfolding format_variables write_in_array
format_variables-write_values k a [] s = refl
format_variables-write_values k a (v ∷ vs) s =
    ap (format_variables k a vs) (format_variable-write_in_array k a v s)
    ∙ format_variables-write_values k a vs (write_in_array a (variable_value k v) s)

pub format_list-write_in_object :
    (k : Kind) (i : ℕ) (l : ValueList) (s : Store)
    → format_list k i l s
      ≡ write_in_object i std_string l.list_name (arr (variable_values k l.variables)) s
unfolding format_list write_in_object
format_list-write_in_object k i l s = ap (close s.fresh) (
    format_variables-write_values k s.fresh l.variables
      (array_in_object i std_string l.list_name s))

format_list_element-write_in_array :
    (k : Kind) (a : ℕ) (l : ValueList) (s : Store)
    → format_list_element k a l s ≡ write_in_array a (list_value k l) s
unfolding format_list_element format_list write_in_array
format_list_element-write_in_array k a l s =
    ap (λ t. close s.fresh (close (object_in_array a s).fresh t))
      (format_variables-write_values k (object_in_array a s).fresh l.variables
        (array_in_object s.fresh std_string l.list_name (object_in_array a s)))

-- Formatting lists of variables into an array writes one object for each list, in order, whose one
-- member has the list's name and is the array of the variables in the list's order: of their
-- values for a `CDaqList`, and of one array for each variable for a `CDaqMAM`.
pub format_lists-write_values :
    (k : Kind) (a : ℕ) (ls : List ValueList) (s : Store)
    → format_lists k a ls s ≡ write_values a (list_values k ls) s
unfolding format_lists write_in_array
format_lists-write_values k a [] s = refl
format_lists-write_values k a (l ∷ ls) s =
    ap (format_lists k a ls) (format_list_element-write_in_array k a l s)
    ∙ format_lists-write_values k a ls (write_in_array a (list_value k l) s)
