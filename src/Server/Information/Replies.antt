-- ===== src/Server/Information/Replies.antt =====
-- The replies about the server are documents.
use lib_abk.Common.{◌++◌, sym, ◌≡◌, refl, ap, ◌∙◌, arith, [], Bytes, codes, Option, none, some}
use lib_abk.Json.Escape.{c_str, std_string}
use lib_abk.Json.Document.{token, text, obj, Fields, no_fields, fields, print}
use lib_abk.Json.Stream.{Store, formatter, root_node}
use lib_abk.Json.Stream.Writer.{write_fields, WritableFields, get_stream-print}
use lib_abk.Server.Information.{
  set_reply, client_address, current_time, LoggerInfo, write_known, server_info, storage_info,
  protocol_version, if_version,
}

set_reply-print :
    (fs : Fields)
    → WritableFields fs
    → set_reply (write_fields 0 fs formatter) ≡ record { status = 200; body_text = print (obj fs) }
unfolding formatter
set_reply-print fs w =
    ap (λ t. record { status = 200; body_text = t })
      (get_stream-print fs (record { nodes = λ _. root_node; fresh = 1; dump = [] }) w
        (omega arith))

abbrev known_field : Bytes → Option Bytes → Fields → Fields
known_field name none fs = fs
known_field name (some t) fs = fields c_str name (text std_string t) fs

known_field-WritableFields :
    (name : Bytes) (o : Option Bytes) (fs : Fields)
    → WritableFields fs
    → WritableFields (known_field name o fs)
known_field-WritableFields name none fs w = w
known_field-WritableFields name (some t) fs w = (tt, tt, w)

write_known-known_field :
    (name : Bytes) (o : Option Bytes) (fs : Fields) (s : Store)
    → write_fields 0 (known_field name o fs) s ≡ write_fields 0 fs (write_known name o s)
unfolding write_fields
write_known-known_field name none fs s = refl
write_known-known_field name (some t) fs s = refl

-- What the logger knows of itself, in the order in which it is asked.
abbrev pub known_fields : LoggerInfo → Fields
known_fields i = known_field (codes "FwVersion") i.fw_version (
    known_field (codes "HwVersion") i.hw_version (
      known_field (codes "Name") i.logger_name (
        known_field (codes "Type") i.logger_type
          (known_field (codes "DescriptionUrl") i.description_url no_fields))))

abbrev pub info_fields : LoggerInfo → Fields
info_fields i =
    fields c_str (codes "AbkProtocolVersion") (text c_str protocol_version)
      (fields c_str (codes "InterfaceVersion") (text c_str if_version) (known_fields i))

known_fields-WritableFields : (i : LoggerInfo) → WritableFields (known_fields i)
known_fields-WritableFields i = known_field-WritableFields _ i.fw_version _ (
    known_field-WritableFields _ i.hw_version _ (
      known_field-WritableFields _ i.logger_name _ (
        known_field-WritableFields _ i.logger_type _
          (known_field-WritableFields _ i.description_url _ tt))))

-- The reply to a request for the server's information is the document with the versions and with
-- what the logger knows of itself, and without the rest.
pub server_info-print :
    (i : LoggerInfo)
    → server_info i ≡ record { status = 200; body_text = print (obj (info_fields i)) }
unfolding server_info write_fields
server_info-print i =
    ap set_reply (
      sym (
        write_known-known_field _ i.fw_version _ _
        ∙ write_known-known_field _ i.hw_version _ _
        ∙ write_known-known_field _ i.logger_name _ _
        ∙ write_known-known_field _ i.logger_type _ _
        ∙ write_known-known_field _ i.description_url no_fields _))
    ∙ set_reply-print (info_fields i) (tt, tt, (tt, tt, known_fields-WritableFields i))

-- The reply to a request for the storage is the document with the total and the free space where
-- the logger knows them, and the status 501 where it does not.
storage_info-print :
    (known : Option (Bytes × Bytes)) (query : Bytes)
    → storage_info known query ≡ elim known [
      | none ↦ record {
        status = 501;
        body_text = codes "Storage information not supported" ++ query;
      }
      | some (total, free) ↦ record {
        status = 200;
        body_text = print (
            obj (
              fields c_str
                (codes "Total")
                (token total)
                (fields c_str (codes "Free") (token free) no_fields)));
      }
    ]
unfolding storage_info write_fields
storage_info-print none query = refl
storage_info-print (some (total, free)) query =
    set_reply-print
      (fields c_str (codes "Total") (token total)
        (fields c_str (codes "Free") (token free) no_fields))
      (tt, tt, (tt, tt, tt))

-- The client's address as the server sees it.
client_address-print :
    (address : Bytes)
    → client_address address ≡ record {
      status = 200;
      body_text = print (obj (fields c_str (codes "Address") (text std_string address) no_fields));
    }
unfolding client_address write_fields
client_address-print address =
    set_reply-print (fields c_str (codes "Address") (text std_string address) no_fields)
      (tt, tt, tt)

current_time-print :
    (time_text : Bytes)
    → current_time time_text ≡ record {
      status = 200;
      body_text = print (obj (fields c_str (codes "Time") (token time_text) no_fields));
    }
unfolding current_time write_fields
current_time-print time_text =
    set_reply-print (fields c_str (codes "Time") (token time_text) no_fields) (tt, tt, tt)
