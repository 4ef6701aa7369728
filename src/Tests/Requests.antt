-- ===== src/Tests/Requests.antt =====
-- Requests that the logger interface dispatches.
use lib_abk.Common.{false, arith, true, Bool, Bytes, ℤ, pos, some}
use lib_abk.Json.Escape.{c_str}
use lib_abk.Json.Scan.{ends_numeric}
use lib_abk.Json.Parser.{ok}
use lib_abk.Json.Document.{token, text, obj, Fields, no_fields, fields, print}
use lib_abk.Server.Sessions.{no_sessions, generate_session}
use lib_abk.Server.Query.{decode_uri_value, decode_uri_value-part}
use lib_abk.Server.Requests.{no_session_request, post_session}
use lib_abk.Server.Requests.Replies.{session_request, session_reply, client_of, post_session-answer}
use lib_abk.Server.Requests.Answer.{ServerInfo, answer_search, answer_fields, answer_search_lem}
use lib_abk.Common.{ℕ, ◌≡◌, refl, List, [], ◌∷◌, codes}
use lib_abk.Server.Dispatch.{Key, Entry, found, find_handler, method_get, method_delete}
use lib_abk.Server.Dispatch.Search.{find_handler-lookup}
use lib_abk.Server.Dispatch.Table.{
  get_form, unanswered, calls, handle_http_request, handle_http_request-action,
  handle_event_polling,
}

abbrev server_event : Key
server_event = record { uri = codes "/abk/events/server_event"; method = method_get }

-- A table out of order, with handlers that are numbers.
abbrev small_table : List (Entry ℕ)
small_table =
    record { key = record { uri = codes "/b"; method = 2 }; handler = 7 }
    ∷ record { key = record { uri = codes "/b"; method = 1 }; handler = 8 }
    ∷ record { key = record { uri = codes "/a"; method = 4 }; handler = 9 }
    ∷ []

small_search : find_handler small_table (record { uri = codes "/b"; method = 1 }) ≡ found 8
small_search =
    find_handler-lookup small_table (record { uri = codes "/b"; method = 1 })
      (refl, (refl, (refl, tt)))

handle_http_request-action_example :
    handle_http_request server_event.uri method_get ≡ calls (found handle_event_polling)
handle_http_request-action_example = handle_http_request-action server_event.uri method_get

form_deleted : handle_http_request (codes "/abk/forms/login.htm") method_delete ≡ unanswered
unfolding handle_http_request
form_deleted = refl

form_read :
    handle_http_request (codes "/abk/forms/login.htm") method_get ≡ get_form (codes "login.htm")
unfolding handle_http_request
form_read = refl

-- A display asks for a session, and for servers.
abbrev posted : Fields
posted = fields c_str (codes "Class") (text c_str (codes "display")) (
    fields c_str (codes "Version") (token (codes "2"))
      (fields c_str (codes "Type") (text c_str (codes "a/b")) no_fields))

abbrev show_int : ℤ → Bytes
show_int n = codes "1"

post_session-answer_example :
    post_session show_int (print (obj posted)) no_sessions
    ≡ ok (
        some (
          record { status = 200; body_text = session_reply show_int 1 },
          (generate_session (client_of (session_request posted no_session_request)) no_sessions).1,
        ))
unfolding ends_numeric
post_session-answer_example =
    post_session-answer show_int posted no_sessions (omega arith, tt) tt (ground arith)

-- Without a type.
abbrev incomplete : Fields
incomplete = fields c_str (codes "Class") (text c_str (codes "display")) no_fields

refused :
    post_session show_int (print (obj incomplete)) no_sessions
    ≡ ok (
        some
          (record { status = 400; body_text = codes "No client type was specified" }, no_sessions))
refused = post_session-answer show_int incomplete no_sessions (omega arith, tt) tt (ground arith)

abbrev searched : Fields
searched =
    fields c_str (codes "Key") (text c_str (codes "AbkSearchForServer"))
      (fields c_str (codes "Serial") (text c_str (codes "12")) posted)

abbrev logger : ServerInfo
logger = record {
  port = pos 8080;
  server_class = codes "Logger";
  server_type = codes "Super";
  server_name = codes "P";
  server_serial = codes "7";
  desc_url = [];
}

abbrev prefers : Bytes → Bytes → Bytes → Bool
prefers class type serial = true

answer_search_lem_example :
    answer_search show_int prefers logger (codes "10.0.0.1") 0 (print (obj searched))
    ≡ ok (some (some (print (obj (answer_fields show_int prefers logger (codes "10.0.0.1") true)))))
unfolding ends_numeric
answer_search_lem_example =
    answer_search_lem show_int prefers logger (codes "10.0.0.1") 0 searched tt (ground arith)

decode_uri_value-part_example :
    decode_uri_value (codes "a=1?SessionId=17?b=2") (codes "SessionId") [] ≡ (codes "17", true)
decode_uri_value-part_example =
    decode_uri_value-part (codes "a=1?") (codes "SessionId") (codes "17") (codes "?b=2") []
      (refl, (refl, (refl, (refl, tt)))) (refl, (refl, tt)) refl

not_found_behind_and :
    decode_uri_value (codes "a=1&SessionId=17") (codes "SessionId") [] ≡ ([], false)
unfolding decode_uri_value
not_found_behind_and = refl

-- The first place at which the key occurs is a part of another name.
not_found_behind :
    decode_uri_value (codes "XSessionId=1?SessionId=17") (codes "SessionId") [] ≡ ([], false)
unfolding decode_uri_value
not_found_behind = refl
