-- ===== src/Tests/Sessions.antt =====
-- Sessions of two displays and a keyboard.
use lib_abk.Common.{◌≡◌, refl, arith, List, [], ◌∷◌, Bytes, codes, some, false, true, ◌↔◌}
use lib_abk.Server.Sessions.{
  Client, Session, Sessions, no_sessions, new_session, generate_session, expire, get_client_role,
  delete_all_sessions, Call, posts, addresses, expires, deletes, begins_request, run_calls,
}
use lib_abk.Server.Sessions.Invariant.{IsValid}
use lib_abk.Server.Sessions.Lifetime.{
  time_left, all_leave_alone, seconds, elapse, time_left-run_calls,
}
use lib_abk.Server.Sessions.Roles.{IsFirst, get_client_role-IsFirst}
use lib_abk.Server.Sessions.Removal.{from_busy, none_left, delete_all_sessions_lem}
use lib_abk.Common.{ℤ, ℕ}
use lib_abk.Json.Escape.{quoted}
use lib_abk.Json.Document.{obj, print}
use lib_abk.Server.Requests.{SessionRequest}
use lib_abk.Server.Statistics.{get_var_list, interface_statistic}
use lib_abk.Server.Statistics.Replies.{statistics_fields, interface_statistic-print}
use lib_abk.Server.Poll.{Event}
use lib_abk.Server.System.{
  Deed, asks, polls, runs_out, ends, counts_down, reflects, act_all, act_all-IsValid,
}
use lib_abk.Server.Sessions.Succession.{primary-run_calls}

abbrev display : Bytes → Client
display serial = record {
  session = 0;
  address = codes "10.0.0.7";
  class_name = codes "display";
  type_name = codes "panel";
  serial = serial;
}

-- Two displays come, and the first one goes.
abbrev calls : List Call
calls =
    posts (display (codes "A"))
    ∷ posts (display (codes "B"))
    ∷ addresses 2
    ∷ deletes 1
    ∷ expires 2
    ∷ []

no_sessions-IsValid : IsValid no_sessions
no_sessions-IsValid = (omega arith, tt)

abbrev one_display : Sessions
one_display = record {
  map =
      (
        1,
        record (new_session (display (codes "A"))) {
          client = record (display (codes "A")) { session = 1 };
        },
      )
      ∷ [];
  next_id = 2;
}

one_display-IsValid : IsValid one_display
unfolding new_session
one_display-IsValid = (omega arith, (omega arith, omega arith, (refl, omega arith), tt))

abbrev idle_calls : List Call
idle_calls =
    expires 1
    ∷ posts (display (codes "B"))
    ∷ begins_request 1
    ∷ addresses 2
    ∷ expires 1
    ∷ expires 2
    ∷ []

time_left-run_calls_example : time_left 1 (run_calls idle_calls one_display) ≡ some 118
unfolding time_left new_session seconds elapse all_leave_alone
time_left-run_calls_example =
    time_left-run_calls 1 idle_calls one_display one_display-IsValid (omega arith) refl

get_client_role-IsFirst_example :
    get_client_role 1 (codes "display") one_display ≡ codes "primary"
    ↔ IsFirst 1 (codes "display") one_display.map
get_client_role-IsFirst_example =
    get_client_role-IsFirst 1 (codes "display") one_display one_display-IsValid

abbrev first_again : Session
first_again = record (new_session (display (codes "A"))) {
  client = record (display (codes "A")) { session = 1 };
  remaining = 119;
}

primary-run_calls_example :
    get_client_role 1
      (codes "display")
      (run_calls (posts (display (codes "B")) ∷ expires 1 ∷ []) one_display)
    ≡ codes "primary"
unfolding run_calls generate_session new_session get_client_role expire
primary-run_calls_example =
    primary-run_calls 1 (codes "display") (posts (display (codes "B")) ∷ expires 1 ∷ []) one_display
      first_again one_display-IsValid refl refl

abbrev busy_first : Sessions
busy_first = record {
  map = (1, record (new_session (display (codes "A"))) { request_in_progress = true }) ∷ [];
  next_id = 2;
}

delete_all_sessions_lem_example :
    delete_all_sessions one_display ≡ (true, record one_display { map = [] })
unfolding none_left from_busy new_session
delete_all_sessions_lem_example = delete_all_sessions_lem one_display

stops_at_busy : delete_all_sessions busy_first ≡ (false, busy_first)
unfolding delete_all_sessions new_session
stops_at_busy = refl

-- Two displays come, and the first one polls. The second one is counted down, sends itself an event
-- before the thread goes on, and runs out.
abbrev asked : Bytes → SessionRequest
asked serial_text = record {
  class_text = codes "display";
  type_text = codes "panel";
  serial_text = serial_text;
  fw_version = [];
  hw_version = [];
}

abbrev hello : Event
hello = record {
  sender = codes "2";
  sent = [];
  event_type = codes "hello";
  text_param = [];
  param_1 = codes "0";
  param_2 = codes "0";
}

abbrev done : List Deed
done =
    asks (asked (codes "A"))
    ∷ asks (asked (codes "B"))
    ∷ polls 1
    ∷ counts_down 2
    ∷ reflects 2 0 hello
    ∷ runs_out 2
    ∷ ends 7
    ∷ []

abbrev show_int : ℤ → Bytes
show_int n = codes "1"

abbrev show_time : ℕ → Bytes
show_time n = codes "12"

act_all-IsValid_example : IsValid (act_all show_int show_time done no_sessions)
act_all-IsValid_example = act_all-IsValid show_int show_time done no_sessions no_sessions-IsValid

-- The statistics of two displays, with numbers that are all written as `1`.
abbrev two_displays : Sessions
two_displays =
    (generate_session (display (codes "B"))
      (generate_session (display (codes "A")) no_sessions).1).1

interface_statistic-print_example :
    interface_statistic (λ n. codes "1") (λ name. true) two_displays ≡ record {
      status = 200;
      body_text = print (obj (statistics_fields (λ n. codes "1") (λ name. true) two_displays));
    }
interface_statistic-print_example =
    interface_statistic-print (λ n. codes "1") (λ name. true) two_displays

var_list_text :
    get_var_list (codes "Speed" ∷ codes "Oil" ∷ [])
    ≡ record { status = 200; body_text = codes "{\"VarList\":[\"Speed\",\"Oil\"]}" }
unfolding get_var_list quoted
var_list_text = refl
