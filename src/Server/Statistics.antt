-- ===== src/Server/Statistics.antt =====
-- Replies that list what the server has: `Handle_GetVarList` and `Handle_InterfaceStatistic` of
-- ServerLib/LoggerIf.cpp, with `FormatStatistics` of a client, of a session and of its lists. The
-- text form of an `int` is a parameter, and so is which list could be locked. Each handler takes the
-- text of its formatter while its array is still open.
pub mod Replies
use lib_abk.Common.{ℕ, Bool, List, [], ◌∷◌, Bytes, codes, length, ℤ, pos, as_int}
use lib_abk.Json.Escape.{c_str, std_string, quoted}
use lib_abk.Json.Stream.{
  Store, array_in_object, object_in_array, close, write_element, write_field, formatter, get_stream,
}
use lib_abk.Server.ValueList.{format_statistics}
use lib_abk.Server.Daq.{Source, listed, trended, Daq, DaqMap}
use lib_abk.Server.Sessions.{Client, Session, SessionMap, Sessions}
use lib_abk.Server.Requests.{Response}

-- The loop of `Handle_GetVarList`, into the array `a`.
unfoldable pub write_names : ℕ → List Bytes → Store → Store
unfolding write_element
write_names a [] s = s
write_names a (n ∷ ns) s = write_names a ns (write_element a (quoted c_str n) s)

-- `Handle_GetVarList`, for the names of the variables of a list.
unfoldable pub get_var_list : List Bytes → Response
unfolding write_names array_in_object formatter get_stream
get_var_list names =
    let list =
      write_names formatter.fresh names (array_in_object 0 c_str (codes "VarList") formatter) in
    record { status = 200; body_text = (get_stream list).dump }

module _ (show_int : ℤ → Bytes) (locked : Bytes → Bool) where
  -- The virtual `FormatStatistics` of a `CDaq`; that of a trend is empty.
  abbrev pub format_source_statistics : ℕ → Source → Store → Store
  format_source_statistics i (listed k l) s = format_statistics show_int (locked l.list_name) i l s
  format_source_statistics i (trended t) s = s

  -- The loop of `CSession::FormatStatistics`, into the array `a`.
  unfoldable pub format_daqs : ℕ → DaqMap → Store → Store
  unfolding format_statistics object_in_array close
  format_daqs a [] s = s
  format_daqs a ((n, d) ∷ m) s =
      format_daqs a m
        (close s.fresh (format_source_statistics s.fresh d.source (object_in_array a s)))

  -- `CClientUid::FormatStatistics`.
  unfoldable pub format_client : ℕ → Client → Store → Store
  unfolding write_field
  format_client i c s = write_field i (codes "Serial") (quoted std_string c.serial) (
      write_field i (codes "Type") (quoted std_string c.type_name) (
        write_field i (codes "Class") (quoted std_string c.class_name) (
          write_field i (codes "ClientAddr") (quoted std_string c.address)
            (write_field i (codes "Id") (show_int (pos c.session)) s))))

  -- `CSession::FormatStatistics`.
  unfoldable pub format_session : ℕ → Session → Store → Store
  unfolding format_client format_daqs array_in_object
  format_session i p s =
      let t =
        write_field i (codes "Expires") (show_int (pos p.remaining)) (format_client i p.client s) in
      close t.fresh (format_daqs t.fresh p.daqs (array_in_object i c_str (codes "DataLists") t))

  -- The loop of `Handle_InterfaceStatistic`, into the array `a`.
  unfoldable pub format_sessions : ℕ → SessionMap → Store → Store
  unfolding format_session
  format_sessions a [] s = s
  format_sessions a ((id, p) ∷ m) s =
      format_sessions a m (close s.fresh (format_session s.fresh p (object_in_array a s)))

  -- `Handle_InterfaceStatistic`.
  unfoldable pub interface_statistic : Sessions → Response
  unfolding format_sessions formatter get_stream
  interface_statistic st =
      let head =
        write_field 0 (codes "SessionCount") (show_int (as_int (length st.map)))
          (write_field 0 (codes "NextSessionId") (show_int (pos st.next_id)) formatter) in
      let all =
        format_sessions head.fresh st.map (array_in_object 0 c_str (codes "Sessions") head) in
      record { status = 200; body_text = (get_stream all).dump }
