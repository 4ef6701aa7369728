-- ===== src/Http/Message/Handling.antt =====
-- Who handles a request, from the bytes that its client wrote to the bytes of the response.
use lib_abk.Common.{
  ℕ, suc, ◌+◌, ◌<◌, leb, arith, Bool, true, false, ◌≡◌, refl, sym, ap, ◌∙◌, ◌∷◌, ◌++◌, ◌==◌, List,
  Bytes, Option, none, some, length,
}
use lib_abk.Http.Text.{drop, drop-append, drop_behind, drop-drop, Lacks}
use lib_abk.Http.Escape.RoundTrip.{Escapes}
use lib_abk.Http.Options.{HttpRequest, HttpResponse, UserHandler, UrlOptions}
use lib_abk.Http.Options.Calls.{OptionCall, run_option_calls, configured, find_url_option-run_calls}
use lib_abk.Http.Options.Longest.{longest_start}
use lib_abk.Http.Files.{Disk}
use lib_abk.Http.Message.{
  keep_alive_asked, compose_response, response_header, respond, unhandled, parse_and_handle_request,
}
use lib_abk.Http.Message.Parts.{target, written, data_start, EscapesQuery, parse_request-written}

-- What a client asks for: the parts that it writes, and what its url and its query stand for.
pub record Asked : Type 0 where
  pub method : Bytes
  pub path : Bytes
  pub query_text : Option Bytes
  pub url : Bytes
  pub query : Bytes
  pub headers : Bytes
  pub body : Bytes

-- The method and the url hold no space and the path no question mark, and the texts stand for the
-- url and the query.
pub record IsWritten (a : Asked) : Type 0 where
  pub method : Lacks b' ' a.method
  pub url : Lacks b' ' (target a.path a.query_text)
  pub path : Lacks b'?' a.path
  pub escaped : Escapes true a.path a.url
  pub escaped_query : EscapesQuery a.query_text a.query

abbrev pub request_text : Asked → Bytes
request_text a = written a.method (target a.path a.query_text) a.headers a.body

abbrev pub request_start : Asked → ℕ
request_start a = data_start a.method (target a.path a.query_text) a.headers

abbrev pub request_of : Asked → Bytes → HttpRequest
request_of a addr = record {
  method = a.method;
  url = a.url;
  query = a.query;
  client_addr = addr;
  str_data = a.body;
}

-- What stands behind the url.
abbrev pub behind_url : Asked → Bytes
behind_url a = b' ' ∷ (a.headers ++ a.body)

drop-behind_url :
    (a : Asked)
    → drop (suc (length a.method) + length (target a.path a.query_text)) (request_text a)
      ≡ behind_url a
drop-behind_url a =
    sym (drop-drop (suc (length a.method)) (length (target a.path a.query_text)) (request_text a))
    ∙ ap (drop (length (target a.path a.query_text)))
        (drop_behind b' ' a.method (target a.path a.query_text ++ behind_url a))
    ∙ drop-append (target a.path a.query_text) (behind_url a)

compose_response-fits :
    (old : Bytes) (r : HttpResponse)
    → length (response_header r) < 1024
    → compose_response old r ≡ response_header r ++ r.vect_data
unfolding compose_response
compose_response-fits old r l = rw (above (length (response_header r)) l, compose_response) refl
  where
    above : (n : ℕ) → n < 1024 → leb 1024 n ≡ false
    above n l = ground arith

module _ {World : Type 0} (disk : Disk World) (cs : List (OptionCall World)) where
  parse_and_handle_request-respond :
      (a : Asked) (addr old : Bytes) (keep : Bool) (w w' : World) (answer : HttpResponse)
      → IsWritten a
      → respond disk
          (run_option_calls cs)
          (request_of a addr)
          (unhandled (keep_alive_asked (behind_url a) keep))
          w
        ≡ some (answer, w')
      → parse_and_handle_request disk
          (run_option_calls cs)
          (request_text a)
          (request_start a)
          addr
          old
          keep
          w
        ≡ some (compose_response old answer, w')
  unfolding parse_and_handle_request
  parse_and_handle_request-respond a addr old keep w w' answer i e =
      rw
        (
          parse_request-written a.method a.path a.url a.query a.headers a.body addr a.query_text
              i.method i.url i.path i.escaped i.escaped_query,
          ap
                (λ b.
                  respond disk (run_option_calls cs) (request_of a addr)
                    (unhandled (keep_alive_asked b keep)) w)
                (drop-behind_url a)
              ∙ e,
          parse_and_handle_request,
        )
        refl

  pub parse_and_handle_request-user :
      (a : Asked) (addr old : Bytes) (keep : Bool) (w w' : World) (answer : HttpResponse)
      (o : UrlOptions World) (h : UserHandler World)
      → IsWritten a
      → longest_start (configured cs) a.url ≡ some o
      → o.handler ≡ some h
      → h o.object
          (request_of a addr)
          (unhandled (keep_alive_asked (behind_url a) keep))
          o.local_dir
          o.flags
          w
        ≡ (answer, w')
      → (answer.status_code == 0) ≡ false
      → length (response_header answer) < 1024
      → parse_and_handle_request disk
          (run_option_calls cs)
          (request_text a)
          (request_start a)
          addr
          old
          keep
          w
        ≡ some (response_header answer ++ answer.vect_data, w')
  unfolding respond
  parse_and_handle_request-user a addr old keep w w' answer o h i found user handled set fits =
      parse_and_handle_request-respond a addr old keep w w' answer i
        (rw (find_url_option-run_calls cs a.url ∙ found, user, handled, set, respond) refl)
      ∙ ap (λ r. some (r, w')) (compose_response-fits old answer fits)

  pub parse_and_handle_request-unknown :
      (a : Asked) (addr old : Bytes) (keep : Bool) (w : World)
      → IsWritten a
      → longest_start (configured cs) a.url ≡ none
      → parse_and_handle_request disk
          (run_option_calls cs)
          (request_text a)
          (request_start a)
          addr
          old
          keep
          w
        ≡ some (
          compose_response old
              (record (unhandled (keep_alive_asked (behind_url a) keep)) { status_code = 404 }),
          w,
        )
  unfolding respond
  parse_and_handle_request-unknown a addr old keep w i missing =
      parse_and_handle_request-respond a addr old keep w w _ i
        (rw (find_url_option-run_calls cs a.url ∙ missing, respond) refl)
