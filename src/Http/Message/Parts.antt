-- ===== src/Http/Message/Parts.antt =====
-- The parts of a request are what its client wrote.
use lib_abk.Common.{
  ℕ, suc, ◌+◌, ◌-◌, true, false, ◌≡◌, refl, sym, ap, ap₂, ◌∙◌, arith, [], ◌∷◌, ◌++◌, Bytes, Option,
  none, some, length, take, append_assoc,
}
use lib_abk.Http.Text.{
  find_from, drop, drop-append, take-append, Lacks, find_byte, find-none, drop_behind,
}
use lib_abk.Http.Escape.RoundTrip.{Escapes, unescape_string-Escapes}
use lib_abk.Http.Message.{split_query, parse_request}

-- The url and the query as a client writes them; without a query there is no question mark.
abbrev pub target : Bytes → Option Bytes → Bytes
target path none = path
target path (some query) = path ++ (b'?' ∷ query)

-- A request as a client writes it: its first line up to the url, the rest of the headers with the
-- mark at their end, and its data.
abbrev pub written : Bytes → Bytes → Bytes → Bytes → Bytes
written method url headers body = method ++ (b' ' ∷ (url ++ (b' ' ∷ (headers ++ body))))

abbrev pub EscapesQuery : Option Bytes → Bytes → Type 0
EscapesQuery none query = query ≡ []
EscapesQuery (some text) query = Escapes false text query

split_query-target :
    (path url query : Bytes) (q : Option Bytes)
    → Lacks b'?' path
    → Escapes true path url
    → EscapesQuery q query
    → split_query (target path q) ≡ (url, query)
split_query-target path url query none l e f =
    rw (find-none b'?' path l, split_query)
      (ap₂ (λ a b. (a, b)) (unescape_string-Escapes true path url e) (sym f))
split_query-target path url query (some text) l e f =
    rw
      (
        find_byte b'?' path text l,
        take-append path (b'?' ∷ text),
        drop_behind b'?' path text,
        split_query,
      )
      (ap₂ (λ a b. (a, b)) (unescape_string-Escapes true path url e)
        (unescape_string-Escapes false text query f))

-- Where the data of a written request starts.
abbrev pub data_start : Bytes → Bytes → Bytes → ℕ
data_start method url headers = length (method ++ (b' ' ∷ (url ++ (b' ' ∷ headers))))

drop-data :
    (method url headers body : Bytes)
    → drop (data_start method url headers) (written method url headers body) ≡ body
drop-data method url headers body =
    ap (drop (data_start method url headers)) (
      sym (
        append_assoc method (b' ' ∷ (url ++ (b' ' ∷ headers))) body
        ∙ ap (λ s. method ++ (b' ' ∷ s)) (append_assoc url (b' ' ∷ headers) body)))
    ∙ drop-append (method ++ (b' ' ∷ (url ++ (b' ' ∷ headers)))) body

take-target :
    (method url rest : Bytes)
    → take
        ((suc (length method) + length url) - length method - 1)
        (drop (suc (length method)) (method ++ (b' ' ∷ (url ++ rest))))
      ≡ url
take-target method url rest =
    ap₂ take width (drop_behind b' ' method (url ++ rest)) ∙ take-append url rest
  where
    width : (suc (length method) + length url) - length method - 1 ≡ length url
    width = omega arith

-- The parts of a request that a client wrote are taken apart again: the method, the url and the
-- query in any of their escaped forms, and the data, if the method and the url hold no space and
-- the url no question mark in front of its query.
pub parse_request-written :
    (method path url query headers body addr : Bytes) (q : Option Bytes)
    → Lacks b' ' method
    → Lacks b' ' (target path q)
    → Lacks b'?' path
    → Escapes true path url
    → EscapesQuery q query
    → parse_request
        (data_start method (target path q) headers)
        addr
        (written method (target path q) headers body)
      ≡ some (
        record { method = method; url = url; query = query; client_addr = addr; str_data = body },
        suc (length method) + length (target path q),
      )
unfolding parse_request
parse_request-written method path url query headers body addr q m t p e f =
    rw
      (
        find_byte b' ' method (target path q ++ (b' ' ∷ (headers ++ body))) m,
        drop_behind b' ' method (target path q ++ (b' ' ∷ (headers ++ body))),
        find_byte b' ' (target path q) (headers ++ body) t,
        take-append method (b' ' ∷ (target path q ++ (b' ' ∷ (headers ++ body)))),
        take-target method (target path q) (b' ' ∷ (headers ++ body)),
        split_query-target path url query q p e f,
        drop-data method (target path q) headers body,
        parse_request,
        find_from,
      )
      refl
