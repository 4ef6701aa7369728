-- ===== src/Tests/Http.antt =====
-- Requests to the HTTP server, at concrete texts.
use lib_abk.Common.{
  length, ◌<◌, true, false, ◌≡◌, refl, sym, ap, ◌∙◌, List, [], ◌∷◌, ◌++◌, Bytes, Option, none, some,
  codes, equal, equal_iff, if◌then◌else◌, arith, ◌⊎◌,
}
use lib_abk.Http.Text.{lacks-Lacks}
use lib_abk.Http.Escape.{unescape_string}
use lib_abk.Http.Escape.RoundTrip.{
  percent_encode, unescape_string-percent_encode, nothing, itself, coded,
}
use lib_abk.Http.Options.{HttpRequest, HttpResponse, UrlOptions, UserHandler, find_url_option}
use lib_abk.Http.Options.Calls.{OptionCall, run_option_calls, configured, find_url_option-run_calls}
use lib_abk.Http.Options.Longest.{longest_start}
use lib_abk.Http.Files.{Disk, handle_file_request, allow_write, allows}
use lib_abk.Http.Files.Storing.{
  ask, KeepsFiles, handle_file_request-put_get, handle_file_request-unchanged,
}
use lib_abk.Http.Message.{
  compose_response, response_header, parse_and_handle_request, parse_request, unhandled,
  keep_alive_asked,
}
use lib_abk.Common.{take}
use lib_abk.Http.Connection.{sent, would_block, send, Connection, connection_thread, new_connection}
use lib_abk.Http.Connection.Exchange.Delivery.{Delivers, at_once, in_parts}
use lib_abk.Http.Connection.Exchange.Messages.{Message, IsFramed, all_wakes}
use lib_abk.Http.Server.{server_handler, handled, no_more, one_more, connection_thread-Answers}
use lib_abk.Http.Message.Parts.{parse_request-written}
use lib_abk.Http.Message.Handling.{
  Asked, IsWritten, request_text, parse_and_handle_request-user, parse_and_handle_request-unknown,
}

unescape_string-percent_encode_example :
    unescape_string false (percent_encode (codes "a b%+")) ≡ codes "a b%+"
unescape_string-percent_encode_example =
    unescape_string-percent_encode false (codes "a b%+")
      (omega arith, (omega arith, (omega arith, (omega arith, (omega arith, tt)))))

-- A disk that holds one file.
abbrev OneFile : Type 0
OneFile = Option (Bytes × Bytes)

abbrev read_one : Bytes → OneFile → Option Bytes
read_one path none = none
read_one path (some (name, content)) = if equal name path then some content else none

abbrev one_file : Disk OneFile
one_file = record {
  read_file = read_one;
  make_dir = λ path w. w;
  open_write = λ path w. some w;
  write_file = λ path content w. (true, some (path, content));
}

one_file-KeepsFiles : KeepsFiles one_file
one_file-KeepsFiles path content w opened after e f =
    ap (read_one path) (sym (ap (λ x. x.1) f))
    ∙ ap (λ b. if b then some content else none) ((equal_iff path path).1 refl)

-- Options whose handler answers with the data of the request.
abbrev echo : UserHandler OneFile
echo object q r dir flags w = (record r { vect_data = q.str_data; status_code = 200 }, w)

abbrev option_calls : List (OptionCall OneFile)
option_calls =
    record {
      url = codes "/";
      object = 0;
      handler = none;
      local_dir = some (codes "C:\\www");
      default_file = none;
      flags = 3;
    }
    ∷ record {
      url = codes "/abk";
      object = 7;
      handler = some echo;
      local_dir = none;
      default_file = none;
      flags = 0;
    }
    ∷ []

abbrev root_options : UrlOptions OneFile
root_options = record {
  url = codes "/";
  object = 0;
  handler = none;
  local_dir = codes "C:\\www\\";
  default_file = codes "index.html";
  flags = 3;
}

abbrev abk_options : UrlOptions OneFile
abk_options = record {
  url = codes "/abk/";
  object = 7;
  handler = some echo;
  local_dir = [];
  default_file = codes "index.html";
  flags = 0;
}

find_url_option-run_calls_example :
    find_url_option (codes "/abk/events") (run_option_calls option_calls)
    ≡ longest_start (configured option_calls) (codes "/abk/events")
find_url_option-run_calls_example = find_url_option-run_calls option_calls (codes "/abk/events")

abk_found : longest_start (configured option_calls) (codes "/abk/events") ≡ some abk_options
abk_found = refl

abbrev empty_response : HttpResponse
empty_response = unhandled true

put_a :
    handle_file_request one_file
      (ask (codes "PUT") (codes "/d/a.css") (codes "p{}"))
      empty_response
      root_options
      none
    ≡ some
        (record empty_response { status_code = 201 }, some (codes "C:\\www\\d\\a.css", codes "p{}"))
unfolding handle_file_request
put_a = refl

handle_file_request-put_get_example :
    (b : HttpResponse) × (handle_file_request one_file
        (ask (codes "GET") (codes "/d/a.css") [])
        empty_response
        root_options
        (some (codes "C:\\www\\d\\a.css", codes "p{}"))
      ≡ some (b, some (codes "C:\\www\\d\\a.css", codes "p{}")))
    × (b.status_code ≡ 200)
    × (b.vect_data ≡ codes "p{}")
handle_file_request-put_get_example =
    handle_file_request-put_get one_file one_file-KeepsFiles root_options (codes "/d/a.css")
      (codes "p{}") empty_response empty_response (record empty_response { status_code = 201 }) none
      (some (codes "C:\\www\\d\\a.css", codes "p{}")) true refl refl refl refl refl put_a refl

refused_delete :
    handle_file_request one_file
      (ask (codes "DELETE") (codes "/a") [])
      empty_response
      root_options
      none
    ≡ some (record empty_response { status_code = 403 }, none)
unfolding handle_file_request
refused_delete = refl

handle_file_request-unchanged_example :
    (◌≡◌ {A = OneFile} none none)
    ⊎ ((codes "DELETE" ≡ codes "PUT")
        × (allows allow_write root_options.flags ≡ true)
        × ¬ (root_options.local_dir ≡ []))
handle_file_request-unchanged_example =
    handle_file_request-unchanged one_file (ask (codes "DELETE") (codes "/a") []) empty_response
      (record empty_response { status_code = 403 }) root_options none none refused_delete

-- A client posts to `/abk`, with a space and a slash in the query.
abbrev line_end : Bytes
line_end = b'\r' ∷ b'\n' ∷ []

abbrev posted : Asked
posted = record {
  method = codes "POST";
  path = codes "/abk/%65";
  query_text = some (codes "s=%2f");
  url = codes "/abk/e";
  query = codes "s=/";
  headers = codes "HTTP/1.1" ++ (line_end ++ (codes "Content-Length: 2" ++ (line_end ++ line_end)));
  body = codes "ok";
}

posted-IsWritten : IsWritten posted
posted-IsWritten = record {
  method = lacks-Lacks b' ' (codes "POST") refl;
  url = lacks-Lacks b' ' (codes "/abk/%65?s=%2f") refl;
  path = lacks-Lacks b'?' (codes "/abk/%65") refl;
  escaped = itself b'/' refl (
      itself b'a' refl
        (itself b'b' refl (itself b'k' refl (itself b'/' refl (coded b'6' b'5' refl nothing)))));
  escaped_query = itself b's' refl (itself b'=' refl (coded b'2' b'f' refl nothing));
}

abbrev posted_request : HttpRequest
posted_request = record {
  method = codes "POST";
  url = codes "/abk/e";
  query = codes "s=/";
  client_addr = codes "1.2.3.4";
  str_data = codes "ok";
}

parse_request-written_example :
    parse_request 51 (codes "1.2.3.4") (request_text posted) ≡ some (posted_request, 19)
parse_request-written_example =
    parse_request-written (codes "POST") (codes "/abk/%65") (codes "/abk/e") (codes "s=/")
      posted.headers (codes "ok") (codes "1.2.3.4") (some (codes "s=%2f")) posted-IsWritten.method
      posted-IsWritten.url posted-IsWritten.path posted-IsWritten.escaped
      posted-IsWritten.escaped_query

abbrev echoed : HttpResponse
echoed = record empty_response { vect_data = codes "ok"; status_code = 200 }

echoed-fits : length (response_header echoed) < 1024
unfolding response_header
echoed-fits = omega arith

parse_and_handle_request-user_example :
    parse_and_handle_request one_file
      (run_option_calls option_calls)
      (request_text posted)
      51
      (codes "1.2.3.4")
      []
      true
      none
    ≡ some (response_header echoed ++ echoed.vect_data, none)
unfolding keep_alive_asked
parse_and_handle_request-user_example =
    parse_and_handle_request-user one_file option_calls posted (codes "1.2.3.4") [] true none none
      echoed abk_options echo posted-IsWritten refl refl refl refl echoed-fits

echoed_text :
    compose_response [] echoed
    ≡ codes "HTTP/1.1 200 OK"
      ++ (line_end
          ++ (codes "Content-Length: 2"
              ++ (line_end
                  ++ (codes "Connection: keep-alive" ++ (line_end ++ (line_end ++ codes "ok"))))))
unfolding compose_response
echoed_text = refl

parse_and_handle_request-unknown_example :
    parse_and_handle_request one_file
      (run_option_calls [])
      (request_text posted)
      51
      (codes "1.2.3.4")
      []
      true
      none
    ≡ some (compose_response [] (record empty_response { status_code = 404 }), none)
unfolding keep_alive_asked
parse_and_handle_request-unknown_example =
    parse_and_handle_request-unknown one_file [] posted (codes "1.2.3.4") [] true none
      posted-IsWritten refl

-- The same request over a connection, in two pieces, with a response in two parts.
abbrev posted_message : Message
posted_message = record {
  front = codes "POST /abk/%65?s=%2f HTTP/1.1" ++ line_end;
  more = [];
  body = codes "ok";
  pieces = codes "POST /a" ∷ [];
  first = b'b';
  last =
      codes "k/%65?s=%2f HTTP/1.1"
      ++ (line_end ++ (codes "Content-Length: 2" ++ (line_end ++ (line_end ++ codes "ok"))));
  answers = sent 40 ∷ would_block ∷ [];
  deferred = (sent 24 ∷ []) ∷ [];
}

posted_message-IsFramed : IsFramed posted_message
posted_message-IsFramed = record {
  key_first = refl;
  ends = refl;
  mark_first = refl;
  small = omega arith;
  whole = refl;
}

echoed-Delivers :
    Delivers
      (response_header echoed ++ echoed.vect_data)
      0
      posted_message.answers
      posted_message.deferred
unfolding send response_header
echoed-Delivers =
    in_parts
      (record {
        success = true;
        advance = 40;
        bytes = take 40 (response_header echoed ++ echoed.vect_data);
        counted = 40;
      })
      refl refl (omega arith) (at_once refl)

posted-handled :
    handled one_file option_calls (codes "1.2.3.4") abk_options echo posted none ≡ (echoed, none)
unfolding keep_alive_asked
posted-handled = refl

connection_thread-Answers_example :
    (c : Connection) × (connection_thread
        (server_handler one_file option_calls (codes "1.2.3.4"))
        (all_wakes (posted_message ∷ []))
        new_connection
        none
      ≡ some (c, none))
    × (c.outgoing ≡ (response_header echoed ++ echoed.vect_data) ++ [])
    × (c.send_advance ≡ 0)
connection_thread-Answers_example =
    connection_thread-Answers one_file option_calls (codes "1.2.3.4") (posted_message ∷ []) none
      none ((response_header echoed ++ echoed.vect_data) ++ [])
      (one_more posted abk_options echo echoed posted_message-IsFramed posted-IsWritten refl refl
        refl refl posted-handled refl echoed-fits echoed-Delivers no_more)
