-- ===== src/Connmanctl/Tethering.antt =====
-- The command `tether` in `main` of examples/connmanctl.cpp.
use Prim.Native.String.{len}
use libcppconnman.Prelude.{
  ℕ, ◌^◌, String, Bool, ◌&&◌, ◌||◌, not, none, some, List, [], ◌∷◌, str_eq, ltb, if◌then◌else◌,
  out_of_range,
}
use libcppconnman.Manager.Defs.{Manager}
use libcppconnman.Technology.Enums.{TechType}
use libcppconnman.Connmanctl.Words.{Text, chars, next_word, all_digits, digits_value}
use libcppconnman.Connmanctl.Commands.{tech_map, print_container}
use libcppconnman.Connmanctl.Messages.{Report}
use libcppconnman.Connmanctl.Technologies.{find_tech, unlisted}
use libcppconnman.Connmanctl.Actions.{
  Call, Action, Next, Run, say, one_request, nothing, ◌and_then◌, when◌act◌otherwise◌, on_found,
}

-- `MIN_WIFI_PASSPHRASE_LENGTH`, in bytes.
abbrev pub min_wifi_passphrase_length : ℕ
min_wifi_passphrase_length = 8

-- `std::stoi` throws beyond `INT_MAX`.
unfoldable pub set_freq : ℕ → String → Run
unfolding digits_value
set_freq a arg4 =
    when not (str_eq arg4 "") && all_digits (chars arg4)
    act (when ltb (digits_value (chars arg4)) (2 ^ 31)
        act one_request
            (Action.tech_call a (Call.set_tethering_freq (digits_value (chars arg4))) none)
        otherwise ([], Next.thrown out_of_range))
    otherwise nothing

-- `setTethering` with the message before it.
unfoldable pub tether_switch : ℕ → String → Bool → Run
tether_switch a arg enable =
    say ((if enable then "Enabling" else "Disabling") ∷ " tethering on " ∷ arg ∷ "\n" ∷ [])
    and_then one_request
        (Action.tech_call a (Call.set_tethering enable) (some (Report.tethered arg enable)))

-- The part for Wi-Fi, and then `rest`: `arg2` is the SSID, `arg3` the passphrase and `arg4` the
-- frequency. A short passphrase ends the command.
unfoldable pub tether_wifi : ℕ → String → String → String → Run → Run
unfolding set_freq
tether_wifi a arg2 arg3 arg4 rest =
    one_request (Action.tech_call a (Call.set_tethering_identifier arg2) none)
    and_then (when str_eq arg3 ""
        act (set_freq a arg4 and_then rest)
        otherwise (when ltb (len arg3) min_wifi_passphrase_length
            act say (
                "Error setting wifi passphrase\n" ∷ "Passphrase must be at least " ∷ "8"
                ∷ " characters long\n" ∷ [])
            otherwise (one_request (Action.tech_call a (Call.set_tethering_passphrase arg3) none)
                and_then set_freq a arg4
                and_then rest)))

-- What is done with the technology that was found; `arg3` and `arg4` are read from what is left of the
-- line.
unfoldable pub tether_found : ℕ → String → String → String → Text → Run
unfolding next_word tether_wifi tether_switch
tether_found a arg arg1 arg2 iss =
    let (arg3, iss3) = next_word iss in
    let (arg4, iss4) = next_word iss3 in
    let rest = tether_switch a arg (str_eq arg1 "on") in
    when str_eq arg (tech_map TechType.wifi) act tether_wifi a arg2 arg3 arg4 rest otherwise rest

-- The command is refused with the usage.
abbrev pub tether_refused : List String → String → String → String → Bool
tether_refused container arg arg1 arg2 =
    unlisted container arg
    || str_eq arg1 ""
    || (not (str_eq arg1 "on") && not (str_eq arg1 "off"))
    || (str_eq arg (tech_map TechType.wifi) && str_eq arg1 "on" && str_eq arg2 "")

unfoldable pub tether_command : List String → Manager → String → Text → Run
unfolding next_word tether_found
tether_command container m arg iss =
    let (arg1, iss1) = next_word iss in
    let (arg2, iss2) = next_word iss1 in
    when tether_refused container arg arg1 arg2
    act say (
        "Usage: tether  <technology> "
        ∷ "on"
        ∷ "/"
        ∷ "off"
        ∷ " <SSID> <PASSPHRASE> <FREQUENCY>\n"
        ∷ "Available technologies:"
        ∷ print_container container)
    otherwise on_found (find_tech arg m) nothing (λ (a, tech). tether_found a arg arg1 arg2 iss2)
