-- ===== src/Http/Status.antt =====
-- The texts of the status codes in HttpServerLib/HttpServer.cpp: `m_mapStatusText` and
-- `GetHttpStatusText`.
use lib_abk.Common.{ℕ, [], ◌∷◌, ◌==◌, List, Bytes, codes, Option, none, some, if◌then◌else◌}

-- What the constructor puts into the map.
unfoldable pub status_texts : List (ℕ × Bytes)
status_texts =
    (100, codes "Continue")
    ∷ (101, codes "Switching Protocols")
    ∷ (102, codes "Processing")
    ∷ (118, codes "Connection timed out")
    ∷ (200, codes "OK")
    ∷ (201, codes "Created")
    ∷ (202, codes "Accepted")
    ∷ (203, codes "Non-Authoritative Information")
    ∷ (204, codes "No Content")
    ∷ (205, codes "Reset Content")
    ∷ (206, codes "Partial Content")
    ∷ (207, codes "Multi-Status")
    ∷ (300, codes "Multiple Choices")
    ∷ (301, codes "Moved Permanently")
    ∷ (302, codes "Found")
    ∷ (303, codes "See Other")
    ∷ (304, codes "Not Modified")
    ∷ (305, codes "Use Proxy")
    ∷ (307, codes "Temporary Redirect")
    ∷ (400, codes "Bad HttpRequest")
    ∷ (401, codes "Unauthorized")
    ∷ (402, codes "Payment Required")
    ∷ (403, codes "Forbidden")
    ∷ (404, codes "Not Found")
    ∷ (405, codes "Method Not Allowed")
    ∷ (406, codes "Not Acceptable")
    ∷ (407, codes "Proxy Authentication Required")
    ∷ (408, codes "HttpRequest Time-out")
    ∷ (409, codes "Conflict")
    ∷ (410, codes "Gone")
    ∷ (411, codes "Length Required")
    ∷ (412, codes "Precondition Failed")
    ∷ (413, codes "HttpRequest Entity Too Large")
    ∷ (414, codes "HttpRequest-URL Too Long")
    ∷ (415, codes "Unsupported Media Type")
    ∷ (416, codes "Requested range not satisfiable")
    ∷ (417, codes "Expectation Failed")
    ∷ (418, codes "Im a teapot")
    ∷ (421, codes "There are too many connections from your internet address")
    ∷ (422, codes "Unprocessable Entity")
    ∷ (423, codes "Locked")
    ∷ (424, codes "Failed Dependency")
    ∷ (425, codes "Unordered Collection")
    ∷ (426, codes "Upgrade Required")
    ∷ (500, codes "Internal Server Error")
    ∷ (501, codes "Not Implemented")
    ∷ (502, codes "Bad Gateway")
    ∷ (503, codes "Service Unavailable")
    ∷ (504, codes "Gateway Time-out")
    ∷ (505, codes "HTTP Version not supported")
    ∷ (506, codes "Variant Also Negotiates")
    ∷ (507, codes "Insufficient Storage")
    ∷ (509, codes "Bandwidth Limit Exceeded")
    ∷ (510, codes "Not Extended")
    ∷ []

abbrev find_text : ℕ → List (ℕ × Bytes) → Option Bytes
find_text code [] = none
find_text code ((c, t) ∷ m) = let later = find_text code m in if c == code then some t else later

-- `GetHttpStatusText`, and the empty text where it gives none.
unfoldable pub status_text : ℕ → Bytes
unfolding status_texts
status_text code = elim (find_text code status_texts) [ none ↦ [] | some t ↦ t ]
