-- ===== src/Http/Server.antt =====
-- The HTTP server of HttpServerLib/HttpServer.cpp from the bytes of a connection to its bytes: the
-- thread of a connection with `ParseAndHandleRequest` as its handler.
use lib_abk.Common.{
  ◌+◌, ◌<◌, true, false, ◌≡◌, ap, ◌∙◌, [], ◌∷◌, ◌++◌, ◌==◌, List, Bytes, some, length,
}
use lib_abk.Http.Options.{HttpResponse, UserHandler, UrlOptions}
use lib_abk.Http.Options.Calls.{OptionCall, run_option_calls, configured}
use lib_abk.Http.Options.Longest.{longest_start}
use lib_abk.Http.Files.{Disk}
use lib_abk.Http.Message.{keep_alive_asked, response_header, unhandled, parse_and_handle_request}
use lib_abk.Http.Message.Handling.{
  Asked, IsWritten, request_text, request_start, request_of, behind_url,
  parse_and_handle_request-user,
}
use lib_abk.Http.Connection.{RequestHandler, Connection, connection_thread, new_connection}
use lib_abk.Http.Connection.Exchange.Delivery.{Delivers}
use lib_abk.Http.Connection.Exchange.Messages.{
  Message, IsFramed, text_of, head_of, all_wakes, Serves, nothing, next,
}
use lib_abk.Http.Connection.Exchange.Service.{connection_thread-Serves}

-- The header and the data of a response.
abbrev pub whole_response : HttpResponse → Bytes
whole_response r = response_header r ++ r.vect_data

module _ {World : Type 0} (disk : Disk World) (cs : List (OptionCall World)) (addr : Bytes) where
  -- What the thread calls for a complete request of the client.
  abbrev pub server_handler : RequestHandler World
  server_handler request start old keep w =
      parse_and_handle_request disk (run_option_calls cs) request start addr old keep w

  -- What the handler of some options does with what a client asks for.
  abbrev pub handled : UrlOptions World → UserHandler World → Asked → World → HttpResponse × World
  handled o h a w =
      h o.object (request_of a addr) (unhandled (keep_alive_asked (behind_url a) true)) o.local_dir
        o.flags w

  -- Messages that hold the requests of a client, with the handlers of the longest starts of their
  -- urls, which all set a status and no headers beyond the size of the buffer, and their responses.
  pub data Answers : List Message → Bytes → World → Bytes → World → Type 0 where
    no_more : {old : Bytes} {w : World} → Answers [] old w [] w
    one_more :
        {m : Message} {ms : List Message} {old out : Bytes} {w w' w'' : World} (a : Asked)
        (o : UrlOptions World) (h : UserHandler World) (answer : HttpResponse)
        → IsFramed m
        → IsWritten a
        → text_of m ≡ request_text a
        → length (head_of m) + 4 ≡ request_start a
        → longest_start (configured cs) a.url ≡ some o
        → o.handler ≡ some h
        → handled o h a w ≡ (answer, w')
        → (answer.status_code == 0) ≡ false
        → length (response_header answer) < 1024
        → Delivers (whole_response answer) 0 m.answers m.deferred
        → Answers ms (whole_response answer) w' out w''
        → Answers (m ∷ ms) old w (whole_response answer ++ out) w''

  Answers-Serves :
      (ms : List Message) (old out : Bytes) (w w' : World)
      → Answers ms old w out w'
      → Serves server_handler ms old w out w'
  Answers-Serves _ old _ w _ no_more = nothing
  Answers-Serves _ old _ w _
        (one_more {m} {ms} {out} {w'} {w''} a o h answer f i t s found user gives set fits d rest) =
      next f
        (ap (λ x. server_handler x (length (head_of m) + 4) old true w) t
          ∙ ap (λ k. server_handler (request_text a) k old true w) s
          ∙ parse_and_handle_request-user disk cs a addr old true w w' answer o h i found user gives
              set fits)
        d (Answers-Serves ms (whole_response answer) out w' w'' rest)

  -- Requests that a client wrote, of any methods, urls, queries and data, come over a new connection
  -- in any pieces, each once the response before it is sent. Then each of them is given to the
  -- handler that was set for the longest start of its url, in this order, with the parts that the
  -- client wrote, and exactly the headers and data of the responses of the handlers go out, one
  -- behind the other. The conditions: each request tells the length of its data, each handler sets a
  -- status and a header of less than 1024 bytes, and of each response a first part at least is sent
  -- at once, and the rest as the client makes room for it. A url that options are set for counts with
  -- the slash that `AddUrlOption` puts behind it.
  pub connection_thread-Answers :
      (ms : List Message) (w w' : World) (out : Bytes)
      → Answers ms [] w out w'
      → (c : Connection) × (connection_thread server_handler (all_wakes ms) new_connection w
          ≡ some (c, w'))
        × (c.outgoing ≡ out)
        × (c.send_advance ≡ 0)
  connection_thread-Answers ms w w' out a =
      connection_thread-Serves server_handler ms w w' out (Answers-Serves ms [] out w w' a)
