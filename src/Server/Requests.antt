-- ===== src/Server/Requests.antt =====
-- Requests that carry a JSON text: `Handle_PostSession` of ServerLib/LoggerIf.cpp, and the request
-- of ServerLib/DiscoveryServer.cpp. The loop of both is on fuel, `none` when it runs out. The text
-- form of an `int` is a parameter.
pub mod Members
pub mod Picked
pub mod Replies
pub mod Discovery
pub mod Answer
use lib_abk.Common.{
  ℕ, zero, suc, Bool, true, false, ◌&&◌, ◌||◌, [], ◌∷◌, ◌++◌, Bytes, codes, equal, length,
  if◌then◌else◌, Option, none, some, ℤ, pos,
}
use lib_abk.Json.Parser.{Result, ok, fault, ◌>>=◌, Parser, restart, iterate, is_done}
use lib_abk.Json.Item.{extract_named, extract_string, skip_item}
use lib_abk.Json.Stream.{formatter, write_field, get_stream}
use lib_abk.Server.Sessions.{Client, Sessions, generate_session, get_session}

-- What the body of a loop over the items leaves.
abbrev pub Body : Type 0 → Type 0
Body A = Parser → A → Result (Option (Parser × A))

-- `for(;!parser.IsDone();++parser)`.
unfoldable pub each_item : {A : Type 0} → Body A → ℕ → Parser → A → Result (Option A)
each_item body zero p a = ok none
each_item body (suc fuel) p a = elim (is_done p) [
  | true ↦ ok (some a)
  | false ↦ body p a >>= λ x. elim x [
    | none ↦ ok none
    | some y ↦ iterate y.0 >>= λ r. each_item body fuel r y.1
  ]
]

-- The members that `Handle_PostSession` looks for.
pub record SessionRequest : Type 0 where
  pub class_text : Bytes
  pub type_text : Bytes
  pub serial_text : Bytes
  pub fw_version : Bytes
  pub hw_version : Bytes

abbrev pub no_session_request : SessionRequest
no_session_request = record {
  class_text = [];
  type_text = [];
  serial_text = [];
  fw_version = [];
  hw_version = [];
}

-- The body of its loop.
unfoldable pub session_item : Body SessionRequest
unfolding extract_named extract_string
session_item p r = do
  (c, _) ← extract_named extract_string p (codes "Class") r.class_text
  (t, _) ← extract_named extract_string p (codes "Type") r.type_text
  (s, _) ← extract_named extract_string p (codes "Serial") r.serial_text
  (f, _) ← extract_named extract_string p (codes "FwVersion") r.fw_version
  (h, _) ← extract_named extract_string p (codes "HwVersion") r.hw_version
  ok (
      some (
        p,
        record { class_text = c; type_text = t; serial_text = s; fw_version = f; hw_version = h },
      ))

-- `CJsonParser parser(text)` and the loop; there is no more than one item for each byte.
unfoldable pub decode_items : {A : Type 0} → Body A → Bytes → A → Result (Option A)
unfolding each_item
decode_items body text a =
    restart (λ j. false) text >>= λ p. each_item body (suc (suc (length text))) p a

-- `HTTP_RESPONSE`.
pub record Response : Type 0 where
  pub status : ℕ
  pub body_text : Bytes

abbrev pub is_missing : Bytes → Bool
is_missing [] = true
is_missing (c ∷ s) = false

abbrev pub class_error : SessionRequest → Bytes
class_error r = if is_missing r.class_text then codes "No class of the client was specified" else []

abbrev pub type_error : SessionRequest → Bytes
type_error r = if is_missing r.type_text then codes "No client type was specified" else []

-- The part of `Handle_PostSession` behind the loop. `OnClientConnected` changes nothing here.
unfoldable pub open_session : (ℤ → Bytes) → SessionRequest → Sessions → Response × Sessions
unfolding generate_session get_session
open_session show_int r st =
    let client : Client = record {
      session = 0;
      address = [];
      class_name = r.class_text;
      type_name = r.type_text;
      serial = r.serial_text;
    } in
    let (id, made) = generate_session client st in
    let refreshed = (get_session id made).1 in
    let reply =
      (get_stream (write_field 0 (codes "SessionId") (show_int (pos id)) formatter)).dump in
    if is_missing r.class_text || is_missing r.type_text
    then (record { status = 400; body_text = class_error r ++ type_error r }, st)
    else (record { status = 200; body_text = reply }, refreshed)

unfoldable pub post_session : (ℤ → Bytes) → Bytes → Sessions → Result (Option (Response × Sessions))
unfolding decode_items session_item open_session
post_session show_int post st = do
  found ← decode_items session_item post no_session_request
  elim found as (λ _. Result (Option (Response × Sessions))) [
    | none ↦ ok none
    | some r ↦ ok (some (open_session show_int r st))
  ]

-- `SRequest`, and the variables of `Decode`.
pub record Search : Type 0 where
  pub key : Bytes
  pub client_class : Bytes
  pub client_type : Bytes
  pub client_serial : Bytes
  pub class_decoded : Bool
  pub type_decoded : Bool
  pub serial_decoded : Bool

abbrev pub no_search : Search
no_search = record {
  key = [];
  client_class = [];
  client_type = [];
  client_serial = [];
  class_decoded = false;
  type_decoded = false;
  serial_decoded = false;
}

-- The body of the loop of `Decode`, with as much fuel for `SkipItem`.
unfoldable pub search_item : ℕ → Body Search
unfolding extract_named extract_string skip_item
search_item fuel p r = do
  (k, _) ← extract_named extract_string p (codes "Key") r.key
  (c, x) ← extract_named extract_string p (codes "Class") r.client_class
  (t, y) ← extract_named extract_string p (codes "Type") r.client_type
  (s, z) ← extract_named extract_string p (codes "Serial") r.client_serial
  skipped ← skip_item fuel none p
  elim skipped as (λ _. Result (Option (Parser × Search))) [
    | none ↦ ok none
    | some (_, q) ↦ ok (
        some (
          q,
          record {
            key = k;
            client_class = c;
            client_type = t;
            client_serial = s;
            class_decoded = r.class_decoded || x;
            type_decoded = r.type_decoded || y;
            serial_decoded = r.serial_decoded || z;
          },
        ))
  ]

abbrev pub accepted : Search → Bool
accepted r =
    r.serial_decoded
    && (r.type_decoded && (r.class_decoded && equal r.key (codes "AbkSearchForServer")))

-- `SRequest::Decode`: whether the request is accepted, and what it holds.
unfoldable pub decode_search : ℕ → Bytes → Result (Option (Bool × Search))
unfolding decode_items search_item
decode_search fuel text = do
  found ← decode_items (search_item fuel) text no_search
  elim found as (λ _. Result (Option (Bool × Search))) [
    | none ↦ ok none
    | some r ↦ ok (some (accepted r, r))
  ]
