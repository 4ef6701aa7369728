-- ===== src/Json/RoundTrip.antt =====
-- The stream classes against the parser: a document that was written is read back.
use lib_abk.Common.{ℕ, ◌≤◌, ◌<◌, Bool, ◌++◌}
use lib_abk.Json.Unescape.{Ptr}
use lib_abk.Json.Parser.{restart}
use lib_abk.Json.Document.{Fields, obj, WellFormed, depth}
use lib_abk.Json.Stream.{Store, init_new, get_stream}
use lib_abk.Json.Stream.Writer.{WritableFields, write_fields, get_stream-print}
use lib_abk.Json.Reading.{inner}
use lib_abk.Json.Reading.RoundTrip.{ReadsDocument, read_document}

-- A document that was written to a formatter by its stream objects, and closed, is read back by
-- the parser item by item: the names and texts come back unescaped as they were written, and the
-- tokens byte by byte, whichever overloads wrote them. The conditions: no NUL in a name or text,
-- every token a token, at most nine containers in one another, the names of the values that are
-- no containers written as `const char *`, and at least the formatter constructed.
pub restart-get_stream :
    (fs : Fields) (s : Store) (old : ℕ → Bool) (rest : Ptr)
    → WritableFields fs
    → WellFormed (obj fs)
    → depth (obj fs) ≤ 9
    → 0 < s.fresh
    → ReadsDocument
        (restart old ((get_stream (write_fields 0 fs (init_new s))).dump ++ rest))
        (inner (obj fs))
        rest
restart-get_stream fs s old rest h w m l =
    rw (get_stream-print fs s h l) (read_document (obj fs) old rest tt w m)
