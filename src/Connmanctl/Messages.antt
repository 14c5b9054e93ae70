-- ===== src/Connmanctl/Messages.antt =====
-- The messages of the callbacks and how they reach the screen: `message`, `has_message` and event_hook
-- of examples/connmanctl.cpp. The callbacks run on the thread of the loop, event_hook on that of
-- readline.
use libcppconnman.Prelude.{
  ℕ, zero, suc, ◌≡◌, String, Bool, true, false, [], ◌∷◌, ◌++◌, str_eq, if◌then◌else◌,
}
use libcppconnman.Print.{Output}

-- The callback of a request, by what it captures.
pub data Report : Type 0 where
  agent : String → Report  -- `arg`
  scanned removed : String → Report  -- the name
  powered tethered connected : String → Bool → Report  -- the name and what was asked for

-- What each callback writes to `message`.
abbrev pub agent_report : String → Bool → Output
agent_report arg true =
    "Agent " ∷ (if str_eq arg "on" then "registered" else "unregistered") ∷ "\n" ∷ []
agent_report arg false = []

abbrev pub scan_report : String → Bool → Output
scan_report name true = "Technology " ∷ name ∷ " scanned successfully.\n" ∷ []
scan_report name false = "Failed to scan technology " ∷ name ∷ ".\n" ∷ []

abbrev pub power_report : String → Bool → Bool → Output
power_report name enable true =
    "Technology " ∷ name ∷ (if enable then " enabled" else " disabled") ∷ " successfully.\n" ∷ []
power_report name enable false =
    "Failed to  " ∷ (if enable then " enable" else " disable") ∷ " technology " ∷ name ∷ "\n" ∷ []

abbrev pub tether_report : String → Bool → Bool → Output
tether_report arg enable true =
    "Tethering on technology "
    ∷ arg
    ∷ (if enable then " enabled" else " disabled")
    ∷ " successfully.\n"
    ∷ []
tether_report arg enable false =
    "Failed to"
    ∷ (if enable then " enable" else " disable")
    ∷ " tethering on technology "
    ∷ arg
    ∷ "\n"
    ∷ []

abbrev pub connect_report : String → Bool → Bool → Output
connect_report name connect true =
    "Service "
    ∷ name
    ∷ (if connect then " connected" else " disconnected")
    ∷ " successfully.\n"
    ∷ []
connect_report name connect false =
    "Failed to "
    ∷ (if connect then " connect" else " disconnect")
    ∷ " to service "
    ∷ name
    ∷ "\n"
    ∷ []

abbrev pub remove_report : String → Bool → Output
remove_report name true = "Service " ∷ name ∷ " removed successfully.\n" ∷ []
remove_report name false = "Failed to remove service " ∷ name ∷ "\n" ∷ []

abbrev pub report_text : Report → Bool → Output
report_text (Report.agent arg) success = agent_report arg success
report_text (Report.scanned name) success = scan_report name success
report_text (Report.removed name) success = remove_report name success
report_text (Report.powered name enable) success = power_report name enable success
report_text (Report.tethered arg enable) success = tether_report arg enable success
report_text (Report.connected name connect) success = connect_report name connect success

-- `posting` counts the callbacks that have written their text and not yet set the flag, `taking` that
-- event_hook has cleared the flag and not yet taken the text.
pub record Screen : Type 0 where
  pub message : Output
  pub has_message : Bool
  pub posting : ℕ
  pub taking : Bool
  pub shown : Output

-- The two halves of a callback, each under its lock or atomic, and of event_hook. event_hook takes the
-- text only if the exchange found the flag set.
unfoldable pub write_message : Report → Bool → Screen → Screen
write_message report success s = record s {
  message = s.message ++ report_text report success;
  posting = suc s.posting;
}

abbrev pub pred : ℕ → ℕ
pred zero = zero
pred (suc n) = n

unfoldable pub set_flag : Screen → Screen
set_flag s = record s { has_message = true; posting = pred s.posting }

unfoldable pub exchange_flag : Screen → Screen
exchange_flag s = record s { has_message = false; taking = s.has_message }

unfoldable pub take_message : Screen → Screen
take_message s = record s { shown = s.shown ++ s.message; message = []; taking = false }

-- The first half of event_hook, undisturbed.
unfoldable pub event_hook_messages : Screen → Screen
unfolding exchange_flag take_message
event_hook_messages s = let s' = exchange_flag s in if s'.taking then take_message s' else s'

-- The steps of both threads, in any order. A callback sets the flag after it has written, and
-- event_hook is not entered twice.
pub data ScreenStep : Screen → Screen → Type 0 where
  written :
      (s : Screen) (report : Report) (success : Bool)
      → ScreenStep s (write_message report success s)
  flagged : (s : Screen) (n : ℕ) → s.posting ≡ suc n → ScreenStep s (set_flag s)
  exchanged : (s : Screen) → s.taking ≡ false → ScreenStep s (exchange_flag s)
  taken : (s : Screen) → s.taking ≡ true → ScreenStep s (take_message s)

-- What a step adds to the texts that were written.
abbrev pub written_by : {s t : Screen} → ScreenStep s t → Output
written_by (written s report success) = report_text report success
written_by (flagged s n h) = []
written_by (exchanged s h) = []
written_by (taken s h) = []

abbrev pub screen_init : Screen
screen_init = record { message = []; has_message = false; posting = 0; taking = false; shown = [] }

-- The screens that are reached, with all the texts that were written on the way.
pub data Seen : Output → Screen → Type 0 where
  start : Seen [] screen_init
  step :
      (all : Output) (s t : Screen) (last : ScreenStep s t)
      → Seen all s
      → Seen (all ++ written_by last) t
