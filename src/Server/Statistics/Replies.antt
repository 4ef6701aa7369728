-- ===== src/Server/Statistics/Replies.antt =====
-- The lists that the server replies are documents.
use lib_abk.Common.{
  ℕ, Bool, true, ◌≡◌, refl, ap, ◌∙◌, arith, List, [], ◌∷◌, Bytes, codes, length, ℤ, pos, as_int,
  Bool-cases, inl, inr, if◌then◌else◌,
}
use lib_abk.Json.Escape.{c_str, std_string}
use lib_abk.Json.Document.{
  token, text, arr, obj, Values, no_values, values, Fields, no_fields, fields, print,
}
use lib_abk.Json.Stream.{
  Store, formatter, root_node, get_stream, array_in_object, object_in_array, close,
}
use lib_abk.Json.Stream.Writer.{
  write_values, write_fields, WritableValues, WritableFields, get_stream-print, init_new-IsIdle,
  write_fields-Wrote,
}
use lib_abk.Json.Stream.Wrote.{IsIdle-Wrote}
use lib_abk.Json.Stream.OpenChild.{get_stream-open_array}
use lib_abk.Server.ValueList.{format_statistics}
use lib_abk.Server.Daq.{Source, listed, trended, DaqMap}
use lib_abk.Server.Sessions.{Session, SessionMap, Sessions}
use lib_abk.Server.Requests.{Response}
use lib_abk.Server.Statistics.{
  write_names, get_var_list, format_source_statistics, format_daqs, format_session, format_sessions,
  interface_statistic,
}

abbrev pub name_values : List Bytes → Values
name_values [] = no_values
name_values (n ∷ ns) = values (text c_str n) (name_values ns)

write_names-write_values :
    (a : ℕ) (ns : List Bytes) (s : Store) → write_names a ns s ≡ write_values a (name_values ns) s
unfolding write_names write_values
write_names-write_values a [] s = refl
write_names-write_values a (n ∷ ns) s = write_names-write_values a ns _

name_values-WritableValues : (ns : List Bytes) → WritableValues (name_values ns)
name_values-WritableValues [] = tt
name_values-WritableValues (n ∷ ns) = (tt, name_values-WritableValues ns)

abbrev ok_text : Bytes → Response
ok_text t = record { status = 200; body_text = t }

abbrev reply : Store → Response
reply s = ok_text s.dump

-- The reply to a request for the list of variables is the document with their names, in order.
pub get_var_list-print :
    (names : List Bytes)
    → get_var_list names ≡ record {
      status = 200;
      body_text = print (obj (fields c_str (codes "VarList") (arr (name_values names)) no_fields));
    }
unfolding get_var_list formatter write_fields
get_var_list-print names =
    let s : Store = record { nodes = λ _. root_node; fresh = 1; dump = [] } in
    let writable = name_values-WritableValues names in
    ap reply (
      ap get_stream (
        write_names-write_values formatter.fresh names
          (array_in_object 0 c_str (codes "VarList") formatter))
      ∙ get_stream-open_array c_str (codes "VarList") (name_values names) formatter
          (init_new-IsIdle s (omega arith)) writable)
    ∙ ap ok_text (
        get_stream-print (fields c_str (codes "VarList") (arr (name_values names)) no_fields) s
          (tt, writable, tt) (omega arith))

module _ (show_int : ℤ → Bytes) (locked : Bytes → Bool) where
  abbrev list_fields : Source → Fields
  list_fields (listed k l) =
      if locked l.list_name
      then fields c_str (codes "Name") (text std_string l.list_name) (
          fields c_str (codes "Cycle") (token (show_int l.cycle_ms)) (
            fields c_str (codes "VariableCount") (token (show_int (as_int (length l.variables))))
              no_fields))
      else no_fields
  list_fields (trended t) = no_fields

  abbrev pub daq_values : DaqMap → Values
  daq_values [] = no_values
  daq_values ((n, d) ∷ m) = values (obj (list_fields d.source)) (daq_values m)

  abbrev session_fields : Session → Fields
  session_fields p = fields c_str (codes "Id") (token (show_int (pos p.client.session))) (
      fields c_str (codes "ClientAddr") (text std_string p.client.address) (
        fields c_str (codes "Class") (text std_string p.client.class_name) (
          fields c_str (codes "Type") (text std_string p.client.type_name) (
            fields c_str (codes "Serial") (text std_string p.client.serial) (
              fields c_str (codes "Expires") (token (show_int (pos p.remaining)))
                (fields c_str (codes "DataLists") (arr (daq_values p.daqs)) no_fields))))))

  abbrev session_values : SessionMap → Values
  session_values [] = no_values
  session_values ((id, p) ∷ m) = values (obj (session_fields p)) (session_values m)

  abbrev counts : Sessions → Fields
  counts st =
      fields c_str (codes "NextSessionId") (token (show_int (pos st.next_id)))
        (fields c_str (codes "SessionCount") (token (show_int (as_int (length st.map)))) no_fields)

  -- The document of the statistics.
  abbrev pub statistics_fields : Sessions → Fields
  statistics_fields st = fields c_str (codes "NextSessionId") (token (show_int (pos st.next_id))) (
      fields c_str (codes "SessionCount") (token (show_int (as_int (length st.map))))
        (fields c_str (codes "Sessions") (arr (session_values st.map)) no_fields))

  source-write_fields :
      (i : ℕ) (c : Source) (s : Store)
      → format_source_statistics show_int locked i c s ≡ write_fields i (list_fields c) s
  unfolding format_statistics write_fields
  source-write_fields i (listed k l) s = elim (Bool-cases (locked l.list_name)) [
    | inl h ↦ rw h refl
    | inr h ↦ rw h refl
  ]
  source-write_fields i (trended t) s = refl

  daqs-write_values :
      (a : ℕ) (m : DaqMap) (s : Store)
      → format_daqs show_int locked a m s ≡ write_values a (daq_values m) s
  unfolding format_daqs write_values
  daqs-write_values a [] s = refl
  daqs-write_values a ((n, d) ∷ m) s =
      ap (λ t. format_daqs show_int locked a m (close s.fresh t))
        (source-write_fields s.fresh d.source (object_in_array a s))
      ∙ daqs-write_values a m _

  session-write_fields :
      (i : ℕ) (p : Session) (s : Store)
      → format_session show_int locked i p s ≡ write_fields i (session_fields p) s
  unfolding format_session write_fields
  session-write_fields i p s = ap (close _) (daqs-write_values _ p.daqs _)

  sessions-write_values :
      (a : ℕ) (m : SessionMap) (s : Store)
      → format_sessions show_int locked a m s ≡ write_values a (session_values m) s
  unfolding format_sessions write_values
  sessions-write_values a [] s = refl
  sessions-write_values a ((id, p) ∷ m) s =
      ap (λ t. format_sessions show_int locked a m (close s.fresh t))
        (session-write_fields s.fresh p (object_in_array a s))
      ∙ sessions-write_values a m _

  list_fields-WritableFields : (c : Source) → WritableFields (list_fields c)
  list_fields-WritableFields (listed k l) = elim (Bool-cases (locked l.list_name)) [
    | inl h ↦ rw h (tt, tt, (tt, tt, (tt, tt, tt)))
    | inr h ↦ rw h tt
  ]
  list_fields-WritableFields (trended t) = tt

  daq_values-WritableValues : (m : DaqMap) → WritableValues (daq_values m)
  daq_values-WritableValues [] = tt
  daq_values-WritableValues ((n, d) ∷ m) =
      (list_fields-WritableFields d.source, daq_values-WritableValues m)

  session_values-WritableValues : (m : SessionMap) → WritableValues (session_values m)
  session_values-WritableValues [] = tt
  session_values-WritableValues ((id, p) ∷ m) =
      let lists = daq_values-WritableValues p.daqs in
      (
        (tt, tt, (tt, tt, (tt, tt, (tt, tt, (tt, tt, (tt, tt, (tt, lists, tt))))))),
        session_values-WritableValues m,
      )

  -- The reply to a request for the statistics is the document with the number of the next session,
  -- the number of sessions, and for each session, in the order of the map, its client, its
  -- remaining time and its lists, of which those that could be locked show their properties and
  -- the others, as the trends, nothing.
  pub interface_statistic-print :
      (st : Sessions)
      → interface_statistic show_int locked st
        ≡ record { status = 200; body_text = print (obj (statistics_fields st)) }
  unfolding interface_statistic formatter write_fields
  interface_statistic-print st =
      let s : Store = record { nodes = λ _. root_node; fresh = 1; dump = [] } in
      let writable = session_values-WritableValues st.map in
      let head = write_fields 0 (counts st) formatter in
      let (k, w) =
        write_fields-Wrote (counts st) 0 true formatter (tt, tt, (tt, tt, tt))
          (init_new-IsIdle s (omega arith)) refl in
      ap reply (
        ap get_stream (
          sessions-write_values head.fresh st.map (array_in_object 0 c_str (codes "Sessions") head))
        ∙ get_stream-open_array c_str (codes "Sessions") (session_values st.map) head
            (IsIdle-Wrote (init_new-IsIdle s (omega arith)) w) writable)
      ∙ ap ok_text (
          get_stream-print (statistics_fields st) s (tt, tt, (tt, tt, (tt, writable, tt)))
            (omega arith))
