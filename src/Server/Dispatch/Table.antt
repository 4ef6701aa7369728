-- ===== src/Server/Dispatch/Table.antt =====
-- The handler table of ServerLib/LoggerIf.cpp, and `HandleHttpRequest` up to the call of the
-- handler. A handler is named here; the lazy call for the variable lists is not part of this.
use lib_abk.Common.{
  ℕ, Bool, true, false, ◌&&◌, ◌≡◌, Option-cases, arith, refl, ap, List, [], ◌∷◌, ◌==◌, Bytes, codes,
  Option, none, some, if◌then◌else◌, Bool-cases, inl, inr,
}
use lib_abk.Json.Unescape.{Ptr}
use lib_abk.Server.Dispatch.{
  Entry, Outcome, find_handler, method_get, method_post, method_put, method_delete,
}
use lib_abk.Server.Dispatch.Sorting.{lookup, AreDistinct}
use lib_abk.Server.Dispatch.Search.{answer, find_handler-lookup}

-- The member functions `Handle_...`.
pub data Handler : Type 0 where
  handle_get_client_address handle_put_client_event handle_put_daq_list_meas
        handle_put_daq_list_mailbox handle_put_daq_list_mam handle_delete_daq_list
        handle_put_daq_trend handle_event_polling handle_post_session handle_delete_session
        handle_get_var_list_meas handle_get_var_list_mailbox handle_post_var_meta_meas
        handle_post_var_meta_mailbox handle_interface_statistic handle_get_server_info
        handle_get_current_time handle_get_storage_info handle_post_var_value_meas
        handle_put_var_value_meas handle_post_mam_values handle_post_var_value_mailbox
        handle_put_var_value_mailbox handle_post_firmware_info handle_post_client_config_info
        handle_put_audio_rec_header handle_put_audio_rec_data handle_put_audio_rec_footer :
      Handler

abbrev entry : Bytes → ℕ → Handler → Entry Handler
entry url m h = record { key = record { uri = url; method = m }; handler = h }

-- `m_tblResponse`, as it is declared.
abbrev pub response_table : List (Entry Handler)
response_table =
    entry (codes "/abk/system_information/client_address") method_get handle_get_client_address
    ∷ entry (codes "/abk/events/client_event") method_put handle_put_client_event
    ∷ entry (codes "/abk/variables/daq_list") method_put handle_put_daq_list_meas
    ∷ entry (codes "/abk/variables/mailbox_daq_list") method_put handle_put_daq_list_mailbox
    ∷ entry (codes "/abk/variables/mam_daq_list") method_put handle_put_daq_list_mam
    ∷ entry (codes "/abk/variables/daq_list") method_delete handle_delete_daq_list
    ∷ entry (codes "/abk/variables/mailbox_daq_list") method_delete handle_delete_daq_list
    ∷ entry (codes "/abk/variables/mam_daq_list") method_delete handle_delete_daq_list
    ∷ entry (codes "/abk/variables/daq_trend") method_put handle_put_daq_trend
    ∷ entry (codes "/abk/variables/daq_trend") method_delete handle_delete_daq_list
    ∷ entry (codes "/abk/events/server_event") method_get handle_event_polling
    ∷ entry (codes "/abk/system_information/session_id") method_post handle_post_session
    ∷ entry (codes "/abk/system_information/session_id") method_delete handle_delete_session
    ∷ entry (codes "/abk/variables/var_list") method_get handle_get_var_list_meas
    ∷ entry (codes "/abk/variables/mailbox_list") method_get handle_get_var_list_mailbox
    ∷ entry (codes "/abk/variables/var_meta") method_post handle_post_var_meta_meas
    ∷ entry (codes "/abk/variables/mailbox_meta") method_post handle_post_var_meta_mailbox
    ∷ entry (codes "/abk/system_information/interface_statistic") method_get
        handle_interface_statistic
    ∷ entry (codes "/abk/system_information/server_info") method_get handle_get_server_info
    ∷ entry (codes "/abk/system_information/current_time") method_get handle_get_current_time
    ∷ entry (codes "/abk/system_information/storage_info") method_get handle_get_storage_info
    ∷ entry (codes "/abk/variables/var_value") method_post handle_post_var_value_meas
    ∷ entry (codes "/abk/variables/var_value") method_put handle_put_var_value_meas
    ∷ entry (codes "/abk/variables/mam_values") method_post handle_post_mam_values
    ∷ entry (codes "/abk/variables/mailbox_value") method_post handle_post_var_value_mailbox
    ∷ entry (codes "/abk/variables/mailbox_value") method_put handle_put_var_value_mailbox
    ∷ entry (codes "/abk/system_information/client_firmware") method_post handle_post_firmware_info
    ∷ entry (codes "/abk/client_config/info") method_post handle_post_client_config_info
    ∷ entry (codes "/abk/audio_rec/header") method_put handle_put_audio_rec_header
    ∷ entry (codes "/abk/audio_rec/data") method_put handle_put_audio_rec_data
    ∷ entry (codes "/abk/audio_rec/footer") method_put handle_put_audio_rec_footer
    ∷ []

-- `strncmp` with the whole of a text: what is behind it.
abbrev pub behind_prefix : Bytes → Ptr → Option Ptr
behind_prefix [] p = some p
behind_prefix (c ∷ s) [] = none
behind_prefix (c ∷ s) (d ∷ p) = if c == d then behind_prefix s p else none

-- The name of a form, if a form is asked for.
abbrev pub form_name : Ptr → Option Ptr
form_name url = elim (behind_prefix (codes "/abk/forms") url) [
  | none ↦ none
  | some [] ↦ none
  | some (◌∷◌ c p) ↦ if c == b'/' then some p else none
]

-- What a request comes to: a form, no answer at all, or a search for a handler.
pub data Action : Type 0 where
  get_form put_form : Ptr → Action
  unanswered : Action
  calls : Outcome Handler → Action

unfoldable pub handle_http_request : Bytes → ℕ → Action
handle_http_request url m = elim (form_name url) [
  | some name ↦
      if m == method_get
      then get_form name
      else if m == method_put
      then put_form name
      else unanswered
  | none ↦ calls (find_handler response_table (record { uri = url; method = m }))
]

abbrev is_none : {A : Type 0} → Option A → Bool
is_none none = true
is_none (some a) = false

is_none-eq : {A : Type 0} (o : Option A) → is_none o ≡ true → o ≡ none
is_none-eq none h = refl
is_none-eq (some a) h = ground arith

-- The test of the constructor, for pairs that are not neighbours too.
are_distinct : List (Entry Handler) → Bool
are_distinct [] = true
are_distinct (e ∷ t) = is_none (lookup t e.key) && are_distinct t

conflict : {b : Bool} → b ≡ false → false ≡ true → ⊥
conflict n h = ground arith

are_distinct-AreDistinct : (t : List (Entry Handler)) → are_distinct t ≡ true → AreDistinct t
unfolding are_distinct
are_distinct-AreDistinct [] h = tt
are_distinct-AreDistinct (e ∷ t) h = elim (Bool-cases (is_none (lookup t e.key))) [
  | inl n ↦ (is_none-eq (lookup t e.key) n, are_distinct-AreDistinct t (rw n at h))
  | inr n ↦ absurd (conflict n (rw n at h))
]

response_table-AreDistinct : AreDistinct response_table
unfolding are_distinct
response_table-AreDistinct = are_distinct-AreDistinct response_table refl

-- What a request comes to, told by the table as it is declared.
abbrev pub action : Bytes → ℕ → Action
action url m = elim (form_name url) [
  | some name ↦
      if m == method_get
      then get_form name
      else if m == method_put
      then put_form name
      else unanswered
  | none ↦ calls (answer (lookup response_table (record { uri = url; method = m })))
]

-- Which handler a request reaches: forms go their own way; any other address and method reaches
-- the handler of its entry in the table as it is declared, or the answer "not implemented". The
-- sorting and the binary search stop, and read nothing outside of the table.
pub handle_http_request-action : (url : Bytes) (m : ℕ) → handle_http_request url m ≡ action url m
unfolding handle_http_request
handle_http_request-action url m = elim (Option-cases (form_name url)) [
  | inl e ↦ rw e (
      ap calls (
        find_handler-lookup response_table (record { uri = url; method = m })
          response_table-AreDistinct))
  | inr (name, e) ↦ rw e refl
]
