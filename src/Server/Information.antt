-- ===== src/Server/Information.antt =====
-- Replies about the server of ServerLib/LoggerIf.cpp: `Handle_GetClientAddress`,
-- `Handle_GetServerInfo`, `Handle_GetCurrentTime` and `Handle_GetStorageInfo`. What the virtual
-- functions `OnGetLogger...` and `OnGetStorageInfo` give is an argument, none where they return
-- false. The text forms of a time and of a floating-point number are arguments too.
pub mod Replies
use lib_abk.Common.{ℕ, [], ◌∷◌, ◌++◌, List, Bytes, codes, Option, none, some}
use lib_abk.Json.Escape.{c_str, std_string, quoted}
use lib_abk.Json.Stream.{Store, write_field, formatter, get_stream}
use lib_abk.Server.Requests.{Response}

-- `HTTP_RESPONSE::Set` of a formatter.
abbrev pub set_reply : Store → Response
set_reply s = record { status = 200; body_text = (get_stream s).dump }

unfoldable pub client_address : Bytes → Response
unfolding write_field formatter get_stream
client_address address =
    set_reply (write_field 0 (codes "Address") (quoted std_string address) formatter)

unfoldable pub current_time : Bytes → Response
unfolding write_field formatter get_stream
current_time time_text = set_reply (write_field 0 (codes "Time") time_text formatter)

-- What the logger tells about itself.
pub record LoggerInfo : Type 0 where
  pub fw_version : Option Bytes
  pub hw_version : Option Bytes
  pub logger_name : Option Bytes
  pub logger_type : Option Bytes
  pub description_url : Option Bytes

-- A member that is written if the logger has it.
abbrev pub write_known : Bytes → Option Bytes → Store → Store
write_known name none s = s
write_known name (some t) s = write_field 0 name (quoted std_string t) s

-- `ABK_PROTOCOL_VERSION` and `IF_VERSION`.
abbrev pub protocol_version : Bytes
protocol_version = codes "1.0"

abbrev pub if_version : Bytes
if_version = codes "1.0"

-- `Handle_GetServerInfo`.
unfoldable pub server_info : LoggerInfo → Response
unfolding write_field formatter get_stream
server_info i = set_reply (
    write_known (codes "DescriptionUrl") i.description_url (
      write_known (codes "Type") i.logger_type (
        write_known (codes "Name") i.logger_name (
          write_known (codes "HwVersion") i.hw_version (
            write_known (codes "FwVersion") i.fw_version (
              write_field 0 (codes "InterfaceVersion") (quoted c_str if_version) (
                write_field 0 (codes "AbkProtocolVersion") (quoted c_str protocol_version)
                  formatter)))))))

-- `Handle_GetStorageInfo`, for the total and the free space as they are written and the query.
unfoldable pub storage_info : Option (Bytes × Bytes) → Bytes → Response
unfolding write_field formatter get_stream
storage_info none query = record {
  status = 501;
  body_text = codes "Storage information not supported" ++ query;
}
storage_info (some (total, free)) query =
    set_reply (write_field 0 (codes "Free") free (write_field 0 (codes "Total") total formatter))
