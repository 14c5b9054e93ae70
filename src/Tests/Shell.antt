-- ===== src/Tests/Shell.antt =====
-- Runs of the shell connmanctl.
use libcppconnman.Prelude.{
  ◌≡◌, refl, ◌↔◌, String, true, none, some, [], ◌∷◌, List, All, arith, out_of_range, false, ok,
}
use libcppconnman.GVariant.{ℤ}
use libcppconnman.Manager.Lists.{Object}
use libcppconnman.Manager.Defs.{Manager}
use libcppconnman.Service.Enums.{ServState, ServType}
use libcppconnman.Service.Props.{ServProperties, serv_init}
use libcppconnman.Technology.Enums.{TechType}
use libcppconnman.Technology.Props.{TechProperties, tech_init, tech_update}
use libcppconnman.Connmanctl.Words.{trim, next_word, last_segment}
use libcppconnman.Connmanctl.Messages.{
  Report, Screen, Seen, screen_init, start, step, written, flagged, write_message, set_flag,
  event_hook_messages,
}
use libcppconnman.Connmanctl.Actions.{
  Call, Action, Next, Run, ◌and_then◌, when◌act◌otherwise◌, on_found,
}
use libcppconnman.Connmanctl.Shell.{Shell, services_changed}
use libcppconnman.Connmanctl.Loop.{run_line}
use libcppconnman.Connmanctl.Screen.{event_hook_messages-shown}
use libcppconnman.Connmanctl.Justified.{Justified, play-Justified}
use libcppconnman.Connmanctl.Completion.{begins_with, calls}
use libcppconnman.Connmanctl.Candidates.{Begins, calls-beginning}
use libcppconnman.Connmanctl.Power.{requests_of, tech_request, with_powered, power_line-switches}
use libcppconnman.Proxy.Requests.{MethodCall, echo}
use libcppconnman.Tests.Values.{Var, var, var_laws}
use libcppconnman.Tests.Requests.{fresh}
use libcppconnman.Connmanctl.Session.{Event, play}

abbrev pub number : ℤ → String
number n = "0"

abbrev pub wifi : Object TechProperties
wifi = record {
  path = "/net/connman/technology/wifi";
  props = record (tech_init TechType.wifi) { name = "WiFi" };
}

abbrev pub home : Object ServProperties
home = record {
  path = "/net/connman/service/wifi_1";
  props = record serv_init { name = "home"; type = ServType.wifi; state = ServState.online };
}

abbrev pub listed : Manager
listed = record {
  services = 0 ∷ [];
  technologies = 0 ∷ [];
  service_store = home ∷ [];
  technology_store = wifi ∷ [];
  services_changed_cb = none;
  technologies_changed_cb = none;
  events = [];
}

abbrev pub shell : Shell
shell = record {
  services_container = "wifi_1" ∷ "home" ∷ [];
  technologies_container = "wifi" ∷ [];
  passphrase = "";
  connecting_name = "";
  connecting = false;
  history = [];
}

abbrev run : String → Run
run line = run_line number [] shell listed line

segment : last_segment home.path ≡ "wifi_1"
unfolding last_segment
segment = refl

containers : (services_changed (home ∷ []) shell).services_container ≡ shell.services_container
unfolding services_changed
containers = refl

power_on : run "  enable \t wifi " ≡ (
  Action.print ("Enabling" ∷ " technology: " ∷ "wifi" ∷ "\n" ∷ [])
      ∷ Action.print ("Enabling " ∷ "WiFi" ∷ "...\n" ∷ [])
      ∷ Action.tech_call 0 (Call.set_powered true) (some (Report.powered "WiFi" true))
      ∷ [],
  Next.continue,
)
unfolding run_line ◌and_then◌ when◌act◌otherwise◌ on_found
power_on = refl

hang_up : run "disconnect wifi_1" ≡ (
  Action.print ("Disconnecting" ∷ " to service: " ∷ "home" ∷ "\n" ∷ [])
      ∷ Action.serv_call 0 Call.disconnect (some (Report.connected "home" false))
      ∷ [],
  Next.continue,
)
unfolding run_line ◌and_then◌ when◌act◌otherwise◌ on_found
hang_up = refl

-- A passphrase of seven bytes is refused when the identifier has already been set.
short_run : run "tether wifi on net 1234567" ≡ (
  Action.tech_call 0 (Call.set_tethering_identifier "net") none
      ∷ Action.print (
          "Error setting wifi passphrase\n" ∷ "Passphrase must be at least " ∷ "8"
          ∷ " characters long\n" ∷ [])
      ∷ [],
  Next.continue,
)
unfolding run_line ◌and_then◌ when◌act◌otherwise◌ on_found
short_run = refl

-- `tether wifi off` sets an empty identifier.
off_run : run "tether wifi off" ≡ (
  Action.tech_call 0 (Call.set_tethering_identifier "") none
      ∷ Action.print ("Disabling" ∷ " tethering on " ∷ "wifi" ∷ "\n" ∷ [])
      ∷ Action.tech_call 0 (Call.set_tethering false) (some (Report.tethered "wifi" false))
      ∷ [],
  Next.continue,
)
unfolding run_line ◌and_then◌ when◌act◌otherwise◌ on_found
off_run = refl

-- A frequency beyond an `int` leaves `main`.
freq_run : (run "tether wifi on net 12345678 2147483648").1 ≡ Next.thrown out_of_range
unfolding run_line ◌and_then◌ when◌act◌otherwise◌ on_found
freq_run = refl

-- A command, a passphrase for a question, and a command again.
abbrev session : List Event
session =
    Event.typed listed "tether wifi on net 12345678 2412"
    ∷ Event.asked "home"
    ∷ Event.typed listed "remove wifi_1"
    ∷ Event.typed listed "disconnect home"
    ∷ []

play-Justified_example : All (Justified session) (play number [] shell session).1.0
play-Justified_example = play-Justified number [] shell session

abbrev scanned : Report
scanned = Report.scanned "WiFi"

abbrev written_screen : Screen
written_screen = write_message scanned true screen_init

scan-Seen :
    Seen ("Technology " ∷ "WiFi" ∷ " scanned successfully.\n" ∷ []) (set_flag written_screen)
unfolding write_message
scan-Seen =
    step _ written_screen (set_flag written_screen) (flagged written_screen 0 refl)
      (step [] screen_init written_screen (written screen_init scanned true) start)

event_hook_messages-shown_example :
    (event_hook_messages (set_flag written_screen)).shown
    ≡ "Technology " ∷ "WiFi" ∷ " scanned successfully.\n" ∷ []
unfolding write_message set_flag
event_hook_messages-shown_example =
    event_hook_messages-shown ("Technology " ∷ "WiFi" ∷ " scanned successfully.\n" ∷ [])
      (set_flag written_screen) scan-Seen refl refl

calls-beginning_example :
    (calls 3 "en" ("enable" ∷ "scan" ∷ "enter" ∷ []) ≡ "enable" ∷ "enter" ∷ [])
    × ((begins_with "en" "enable" ≡ true) ↔ Begins "en" "enable")
calls-beginning_example =
    calls-beginning 3 "en" ("enable" ∷ "scan" ∷ "enter" ∷ []) "enable" (omega arith)

power_line-switches_example :
    (requests_of (run " enable wifi").0
      ≡ Action.tech_call 0 (Call.set_powered true) (some (Report.powered "WiFi" true)) ∷ [])
    × ((call : MethodCall Var) × (tech_request
            (Call.set_powered true)
            none
            (fresh (tech_init TechType.wifi))
          ≡ some call)
        × (echo tech_update call wifi.props ≡ ok (record wifi.props { powered = true })))
    × (requests_of (run_line number [] shell (with_powered true 0 wifi listed) " enable wifi").0
        ≡ [])
unfolding next_word trim
power_line-switches_example =
    power_line-switches number [] var_laws none (fresh (tech_init TechType.wifi)) shell listed
      " enable wifi" true 0 wifi refl refl refl refl
