-- ===== src/Server/Requests/Answer.antt =====
-- The answer to a client's search for servers: `FormatAnswer` and the loop of `Run`, in
-- ServerLib/DiscoveryServer.cpp, without its sockets. The virtual `OnGetConnectionPreference` and
-- the text form of an `int` are parameters.
use lib_abk.Common.{
  ℕ, Bool, ◌≡◌, refl, ap, ◌∙◌, arith, [], Bytes, codes, Option, none, some, if◌then◌else◌,
  Bool-cases, inl, inr, ℤ,
}
use lib_abk.Json.Escape.{c_str, std_string, quoted}
use lib_abk.Json.Parser.{Result, ok, ◌>>=◌}
use lib_abk.Json.Document.{token, text, obj, Fields, no_fields, fields, WellFormedFields, print}
use lib_abk.Json.Stream.{Store, formatter, root_node, write_field, close, get_stream}
use lib_abk.Json.Stream.Text.{format_bool}
use lib_abk.Json.Stream.Writer.{
  write_fields, WritableFields, get_stream-print, close_twice-write_fields,
}
use lib_abk.Server.Requests.{no_search, accepted, decode_search, is_missing}
use lib_abk.Server.Requests.Members.{IsFlat}
use lib_abk.Server.Requests.Discovery.{search_of, decode_search-accepted}

-- `SServerInfo`.
pub record ServerInfo : Type 0 where
  pub port : ℤ
  pub server_class : Bytes
  pub server_type : Bytes
  pub server_name : Bytes
  pub server_serial : Bytes
  pub desc_url : Bytes

module _ (show_int : ℤ → Bytes) (prefers : Bytes → Bytes → Bytes → Bool) where
  -- `FormatAnswer`.
  unfoldable pub format_answer : ServerInfo → Bytes → Bool → Store → Store
  format_answer info local preferred s =
      let named =
        λ (name value : Bytes) (s : Store). write_field 0 name (quoted std_string value) s in
      let a = write_field 0 (codes "Key") (quoted c_str (codes "AbkServer")) s in
      let b = named (codes "Address") local a in
      let c = write_field 0 (codes "Port") (show_int info.port) b in
      let d = named (codes "Class") info.server_class c in
      let e = named (codes "Type") info.server_type d in
      let f = named (codes "Serial") info.server_serial e in
      let g = named (codes "Name") info.server_name f in
      let h = write_field 0 (codes "Preferred") (format_bool preferred) g in
      close 0
        (if is_missing info.desc_url then h else named (codes "DescriptionUrl") info.desc_url h)

  -- What `Run` sends for a text that it received, if it sends anything.
  unfoldable pub answer_search : ServerInfo → Bytes → ℕ → Bytes → Result (Option (Option Bytes))
  unfolding format_answer decode_search
  answer_search info local fuel received = do
    found ← decode_search fuel received
    elim found as (λ _. Result (Option (Option Bytes))) [
      | none ↦ ok none
      | some (valid, r) ↦
          let preferred = prefers r.client_class r.client_type r.client_serial in
          let reply = (get_stream (format_answer info local preferred formatter)).dump in
          ok (some (if valid then some reply else none))
    ]

  abbrev pub last_field : ServerInfo → Fields
  last_field info =
      if is_missing info.desc_url
      then no_fields
      else fields c_str (codes "DescriptionUrl") (text std_string info.desc_url) no_fields

  abbrev pub answer_fields : ServerInfo → Bytes → Bool → Fields
  answer_fields info local preferred = fields c_str (codes "Key") (text c_str (codes "AbkServer")) (
      fields c_str (codes "Address") (text std_string local) (
        fields c_str (codes "Port") (token (show_int info.port)) (
          fields c_str (codes "Class") (text std_string info.server_class) (
            fields c_str (codes "Type") (text std_string info.server_type) (
              fields c_str (codes "Serial") (text std_string info.server_serial) (
                fields c_str (codes "Name") (text std_string info.server_name) (
                  fields c_str (codes "Preferred") (token (format_bool preferred))
                    (last_field info))))))))

  last_field-WritableFields : (info : ServerInfo) → WritableFields (last_field info)
  last_field-WritableFields info = elim (Bool-cases (is_missing info.desc_url)) [
    | inl y ↦ rw y tt
    | inr y ↦ rw y (tt, tt, tt)
  ]

  format_answer-write_fields :
      (info : ServerInfo) (local : Bytes) (preferred : Bool) (s : Store)
      → format_answer info local preferred s
        ≡ close 0 (write_fields 0 (answer_fields info local preferred) s)
  unfolding format_answer write_fields
  format_answer-write_fields info local preferred s = elim (Bool-cases (is_missing info.desc_url)) [
    | inl y ↦ rw y refl
    | inr y ↦ rw y refl
  ]

  answer_text :
      (info : ServerInfo) (local : Bytes) (preferred : Bool)
      → (get_stream (format_answer info local preferred formatter)).dump
        ≡ print (obj (answer_fields info local preferred))
  unfolding get_stream formatter
  answer_text info local preferred =
      let s : Store = record { nodes = λ _. root_node; fresh = 1; dump = [] } in
      let fs = answer_fields info local preferred in
      let w = last_field-WritableFields info in
      let writable : WritableFields fs =
        (tt, tt, (tt, tt, (tt, tt, (tt, tt, (tt, tt, (tt, tt, (tt, tt, (tt, tt, w)))))))) in
      ap (λ t. (close 0 t).dump) (format_answer-write_fields info local preferred formatter)
      ∙ ap (λ t. t.dump) (close_twice-write_fields fs s writable (omega arith))
      ∙ get_stream-print fs s writable (omega arith)

  pub answer_search_lem :
      (info : ServerInfo) (local : Bytes) (fuel : ℕ) (fs : Fields)
      → IsFlat fs
      → WellFormedFields fs
      → answer_search info local fuel (print (obj fs))
        ≡ ok (
            some (
              let r = search_of fs no_search in
              if accepted r
              then some (
                  print (
                    obj (
                      answer_fields info local
                        (prefers r.client_class r.client_type r.client_serial))))
              else none))
  unfolding answer_search
  answer_search_lem info local fuel fs g w =
      let r = search_of fs no_search in
      let preferred = prefers r.client_class r.client_type r.client_serial in
      ap
        (λ x. x >>= λ found. elim found as (λ _. Result (Option (Option Bytes))) [
          | none ↦ ok none
          | some (valid, r) ↦
              let preferred = prefers r.client_class r.client_type r.client_serial in
              let reply = (get_stream (format_answer info local preferred formatter)).dump in
              ok (some (if valid then some reply else none))
        ])
        (decode_search-accepted fuel fs g w)
      ∙ ap (λ x. ok (some (if accepted r then some x else none))) (answer_text info local preferred)
