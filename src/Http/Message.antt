-- ===== src/Http/Message.antt =====
-- `ParseAndHandleRequest` of HttpServerLib/HttpServer.cpp: the parts of a request, who handles it,
-- and the bytes of the response.
pub mod Parts
pub mod Handling
use mathlib.Core.Option
use lib_abk.Common.{
  ℕ, suc, ◌+◌, ◌-◌, Bool, true, false, [], ◌∷◌, ◌++◌, ◌==◌, leb, Bytes, codes, Option, none, some,
  if◌then◌else◌, ℤ, pos, negsuc, as_int, length, take,
}
use lib_abk.Http.Text.{find, find_from, drop, until_nul}
use lib_abk.Http.Escape.{unescape_string}
use lib_abk.Http.Options.{
  HttpRequest, HttpResponse, UserHandler, UrlOptions, UrlOptionsMap, find_url_option,
}
use lib_abk.Http.Numbers.{decimal}
use lib_abk.Http.Status.{status_text}
use lib_abk.Http.Files.{Disk, handle_file_request}

-- The url and the query of what stands between the first two spaces.
abbrev pub split_query : Bytes → Bytes × Bytes
split_query target = elim (find (codes "?") target) [
  | none ↦ (unescape_string true target, [])
  | some at ↦ (unescape_string true (take at target), unescape_string false (drop (suc at) target))
]

-- The request whose method ends at the first position and whose url at the second one.
abbrev pub request_at : ℕ → ℕ → ℕ → Bytes → Bytes → HttpRequest
request_at end_of_method end_of_url start addr request =
    let target = take (end_of_url - end_of_method - 1) (drop (suc end_of_method) request) in
    record {
      method = take end_of_method request;
      url = (split_query target).0;
      query = (split_query target).1;
      client_addr = addr;
      str_data = drop start request;
    }

-- The request, and the position of the end of its url.
unfoldable pub parse_request : ℕ → Bytes → Bytes → Option (HttpRequest × ℕ)
unfolding unescape_string
parse_request start addr request = elim (find (codes " ") request) [
  | none ↦ none
  | some end_of_method ↦ elim (find_from (codes " ") (suc end_of_method) request) [
    | none ↦ none
    | some end_of_url ↦ some (request_at end_of_method end_of_url start addr request, end_of_url)
  ]
]

abbrev crlf : Bytes
crlf = b'\r' ∷ b'\n' ∷ []

abbrev occurs : Bytes → Bytes → Bool
occurs needle s = elim (find needle s) [ none ↦ false | some at ↦ true ]

-- What the headers behind the url say about keeping the connection.
unfoldable pub keep_alive_asked : Bytes → Bool → Bool
keep_alive_asked behind before =
    if occurs (crlf ++ codes "Connection: close") behind
    then false
    else if occurs (crlf ++ codes "Connection: keep-alive") behind
    then true
    else before

abbrev print_int : ℤ → Bytes
print_int (pos n) = decimal n
print_int (negsuc n) = b'-' ∷ decimal (suc n)

abbrev pub connection_text : Bool → Bytes
connection_text true = codes "keep-alive"
connection_text false = codes "close"

-- The header of a response.
unfoldable pub response_header : HttpResponse → Bytes
unfolding status_text as_int
response_header r =
    codes "HTTP/1.1 "
    ++ (decimal r.status_code
        ++ (codes " "
            ++ (status_text r.status_code
                ++ (crlf
                    ++ (codes "Content-Length: "
                        ++ (print_int (as_int (length r.vect_data))
                            ++ (crlf
                                ++ (codes "Connection: "
                                    ++ (connection_text r.keep_alive
                                        ++ (crlf ++ (until_nul r.extra_headers ++ crlf)))))))))))

-- The raw response; where the header does not fit its buffer, the old one stays.
unfoldable pub compose_response : Bytes → HttpResponse → Bytes
unfolding response_header
compose_response old r =
    if leb 1024 (length (response_header r)) then old else response_header r ++ r.vect_data

-- The response before anyone has handled the request.
abbrev pub unhandled : Bool → HttpResponse
unhandled keep = record { extra_headers = []; vect_data = []; keep_alive = keep; status_code = 0 }

module _ {World : Type 0} (disk : Disk World) (options : UrlOptionsMap World) where
  -- `HandleUserRequest`.
  abbrev pub handle_user_request :
      HttpRequest → HttpResponse → UrlOptions World → World → HttpResponse × World
  handle_user_request q r o w = elim o.handler [
    | none ↦ (r, w)
    | some handler ↦ handler o.object q r o.local_dir o.flags w
  ]

  -- The options for the url, the handler of the user, and else the file.
  unfoldable pub respond : HttpRequest → HttpResponse → World → Option (HttpResponse × World)
  unfolding find_url_option handle_file_request
  respond q r w = elim (find_url_option q.url options) [
    | none ↦ some (record r { status_code = 404 }, w)
    | some o ↦
        let (answer, w') = handle_user_request q r o w in
        if answer.status_code == 0
        then handle_file_request disk q answer o w'
        else some (answer, w')
  ]

  -- `ParseAndHandleRequest`, with the response that it leaves; none where the file handling reads
  -- in front of a path.
  unfoldable pub parse_and_handle_request :
      Bytes → ℕ → Bytes → Bytes → Bool → World → Option (Bytes × World)
  unfolding parse_request respond compose_response keep_alive_asked
  parse_and_handle_request request start addr old keep w = elim (parse_request start addr request) [
    | none ↦ some (old, w)
    | some (q, end_of_url) ↦
        elim (respond q (unhandled (keep_alive_asked (drop end_of_url request) keep)) w) [
          | none ↦ none
          | some (answer, w') ↦ some (compose_response old answer, w')
        ]
  ]
