-- ===== src/Server/Requests/Replies.antt =====
-- What a client's request for a session comes to.
use lib_abk.Common.{
  ℕ, suc, ◌+◌, ◌||◌, ◌≡◌, refl, sym, ap, ap₂, ◌∙◌, ==_iff, arith, [], ◌∷◌, ◌++◌, Bytes, codes,
  Option, none, some, if◌then◌else◌, ℤ, pos,
}
use lib_abk.Json.Parser.{Result, ok, ◌>>=◌}
use lib_abk.Json.Document.{token, obj, Fields, no_fields, fields, WellFormedFields, print}
use lib_abk.Json.Escape.{c_str}
use lib_abk.Json.Stream.{formatter, write_field, get_stream, root_node}
use lib_abk.Json.Stream.Writer.{write_fields, get_stream-print}
use lib_abk.Server.Sessions.{
  Client, Session, SessionMap, Sessions, new_session, generate_session, get_session, refresh,
  change_session, insert_session,
}
use lib_abk.Server.Sessions.Invariant.{AreLive, IsValid, get_session_state, ltb-above, ==-above}
use lib_abk.Server.Requests.{
  SessionRequest, no_session_request, session_item, open_session, post_session, Response,
  is_missing, class_error, type_error,
}
use lib_abk.Server.Requests.Picked.{picked, extract-picked, last_text}
use lib_abk.Server.Requests.Members.{
  IsFlat, Effect, text_of, effects, Follows, decode_items-effects,
}

-- The effect of a member on a request for a session.
abbrev pub session_effect : Effect SessionRequest
session_effect n t r = record {
  class_text = (picked (codes "Class") n t r.class_text).0;
  type_text = (picked (codes "Type") n t r.type_text).0;
  serial_text = (picked (codes "Serial") n t r.serial_text).0;
  fw_version = (picked (codes "FwVersion") n t r.fw_version).0;
  hw_version = (picked (codes "HwVersion") n t r.hw_version).0;
}

session_item-Follows : Follows session_item session_effect
unfolding session_item
session_item-Follows q n v r h c g =
    rw
      (
        extract-picked (codes "Class") n r.class_text q v (ground arith) h c g,
        extract-picked (codes "Type") n r.type_text q v (ground arith) h c g,
        extract-picked (codes "Serial") n r.serial_text q v (ground arith) h c g,
        extract-picked (codes "FwVersion") n r.fw_version q v (ground arith) h c g,
        extract-picked (codes "HwVersion") n r.hw_version q v (ground arith) h c g,
      )
      refl

abbrev pub session_request : Fields → SessionRequest → SessionRequest
session_request fs r = record {
  class_text = last_text (codes "Class") fs r.class_text;
  type_text = last_text (codes "Type") fs r.type_text;
  serial_text = last_text (codes "Serial") fs r.serial_text;
  fw_version = last_text (codes "FwVersion") fs r.fw_version;
  hw_version = last_text (codes "HwVersion") fs r.hw_version;
}

session_effects :
    (fs : Fields) (r : SessionRequest) → effects session_effect fs r ≡ session_request fs r
session_effects no_fields r = refl
session_effects (fields o n v fs) r = session_effects fs (session_effect n (text_of v) r)

-- A client of this class, type and serial number, and the reply that names its session.
abbrev pub client_of : SessionRequest → Client
client_of r = record {
  session = 0;
  address = [];
  class_name = r.class_text;
  type_name = r.type_text;
  serial = r.serial_text;
}

abbrev pub session_reply : (ℤ → Bytes) → ℕ → Bytes
session_reply show_int id =
    print (obj (fields c_str (codes "SessionId") (token (show_int (pos id))) no_fields))

abbrev pub session_answer : (ℤ → Bytes) → SessionRequest → Sessions → Response × Sessions
session_answer show_int r st =
    if is_missing r.class_text || is_missing r.type_text
    then (record { status = 400; body_text = class_error r ++ type_error r }, st)
    else (
      record { status = 200; body_text = session_reply show_int st.next_id },
      (generate_session (client_of r) st).1,
    )

refresh-inserted :
    (low high : ℕ) (s : Session) (m : SessionMap)
    → AreLive low high m
    → s ≡ refresh s
    → change_session high refresh (insert_session high s m) ≡ insert_session high s m
refresh-inserted low high s [] h e =
    rw ((==_iff high high).1 refl) (ap (λ x. (high, x) ∷ []) (sym e))
refresh-inserted low high s ((i, t) ∷ m) (a, b, c, h) e =
    rw (ltb-above high i b, ==-above high i b, ==-above high i b)
      (ap (λ r. (i, t) ∷ r) (refresh-inserted (suc i) high s m h e))

refresh-generate :
    (c : Client) (st : Sessions)
    → IsValid st
    → (get_session st.next_id (generate_session c st).1).1 ≡ (generate_session c st).1
unfolding generate_session new_session
refresh-generate c st (n, h) =
    get_session_state st.next_id (generate_session c st).1
    ∙ ap (λ m. record { map = m; next_id = st.next_id + 1 })
        (refresh-inserted 0 st.next_id (new_session (record c { session = st.next_id })) st.map h
          refl)

session_reply_text :
    (show_int : ℤ → Bytes) (id : ℕ)
    → (get_stream (write_field 0 (codes "SessionId") (show_int (pos id)) formatter)).dump
      ≡ session_reply show_int id
unfolding formatter write_fields
session_reply_text show_int id =
    get_stream-print (fields c_str (codes "SessionId") (token (show_int (pos id))) no_fields)
      (record { nodes = λ _. root_node; fresh = 1; dump = [] }) (tt, tt, tt) (omega arith)

open_session-answer :
    (show_int : ℤ → Bytes) (r : SessionRequest) (st : Sessions)
    → IsValid st
    → open_session show_int r st ≡ session_answer show_int r st
unfolding open_session
open_session-answer show_int r st h =
    ap₂
      (λ b after.
        if is_missing r.class_text || is_missing r.type_text
        then (record { status = 400; body_text = class_error r ++ type_error r }, st)
        else (record { status = 200; body_text = b }, after))
      (session_reply_text show_int st.next_id) (refresh-generate (client_of r) st h)

-- A request for a session, in a valid state, from a client that sends a flat JSON object: it is
-- answered by status 400 and a text, and changes nothing, when the last text under "Class" or
-- "Type" is missing or empty; otherwise a session with the next id is generated for a client of
-- the last texts under "Class", "Type" and "Serial", and the reply is a document with this id. The
-- conditions: no member is an array or an object, no name or text holds a NUL, and every token is
-- a token.
pub post_session-answer :
    (show_int : ℤ → Bytes) (fs : Fields) (st : Sessions)
    → IsValid st
    → IsFlat fs
    → WellFormedFields fs
    → post_session show_int (print (obj fs)) st
      ≡ ok (some (session_answer show_int (session_request fs no_session_request) st))
unfolding post_session
post_session-answer show_int fs st h g w =
    let r = session_request fs no_session_request in
    ap
      (λ x. x >>= λ found. elim found as (λ _. Result (Option (Response × Sessions))) [
        | none ↦ ok none
        | some r ↦ ok (some (open_session show_int r st))
      ])
      (decode_items-effects session_item session_effect fs no_session_request session_item-Follows g
          w
        ∙ ap (λ r. ok (some r)) (session_effects fs no_session_request))
    ∙ ap (λ a. ok (some a)) (open_session-answer show_int r st h)
