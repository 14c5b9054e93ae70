-- ===== src/Tests/Histories.antt =====
-- A history of the manager: a reply, a change and a signal.
use libcppconnman.Prelude.{◌≡◌, refl, String, Option, none, some, [], ◌∷◌, List, eq_iff, arith}
use libcppconnman.Props.{update_properties}
use libcppconnman.Service.Props.{ServProperties, serv_init, serv_update}
use libcppconnman.Technology.Enums.{TechType}
use libcppconnman.Manager.Lists.{set_props}
use libcppconnman.Manager.Proxies.{dict_to_path_prop}
use libcppconnman.Manager.Defs.{Manager}
use libcppconnman.Manager.Untouched.{services_view}
use libcppconnman.Manager.History.{
  Signal, services_changed, services_reply, technology_signal, handle_all,
}
use libcppconnman.Manager.Histories.{promised_all, handle_all-promised}
use libcppconnman.Tests.Values.{Var, var, text, number, dict, tuple, array, strings, cons, nil}

abbrev always_made : String → Option String
always_made path = none

abbrev empty_manager : Manager
empty_manager = record {
  services = [];
  technologies = [];
  service_store = [];
  technology_store = [];
  services_changed_cb = none;
  technologies_changed_cb = none;
  events = [];
}

abbrev entry : String → Var → Var
entry path props = tuple (cons (text path) (cons props nil))

-- Two services are listed; then one is removed, one is changed, and one is new.
abbrev signals : List (Signal Var)
signals =
    services_reply (
      some (
        array "a(oa{sv})" (
          cons (entry "/a" (dict (("Name", text "home") ∷ [])))
            (cons (entry "/b" (dict (("Name", text "cafe") ∷ []))) nil))))
    ∷ technology_signal "TechnologyAdded" (text "/t")
    ∷ services_changed (
        tuple (
          cons
            (array "a(oa{sv})" (
              cons (entry "/c" (dict []))
                (cons (entry "/b" (dict (("Strength", number 70) ∷ []))) nil)))
            (cons (strings ("/a" ∷ [])) nil)))
    ∷ []

abbrev seen : List (String × ServProperties)
seen = ("/c", serv_init) ∷ ("/b", record serv_init { name = "cafe"; strength = 70 }) ∷ []

abbrev after_signals : Manager
after_signals = (handle_all always_made TechType.wifi signals empty_manager).0

seen_run : services_view after_signals ≡ seen
unfolding handle_all update_properties serv_update set_props
seen_run = refl

promised_run : promised_all signals (services_view empty_manager) ≡ seen
unfolding update_properties serv_update dict_to_path_prop
promised_run = refl

handle_all-promised_example :
    services_view after_signals ≡ promised_all signals (services_view empty_manager)
unfolding handle_all update_properties serv_update set_props
handle_all-promised_example =
    handle_all-promised always_made TechType.wifi signals empty_manager after_signals
      (record { services = tt; technologies = tt })
      (
        (((λ q. ground (arith, eq_iff "/a" "/b", q)), tt), (tt, tt)),
        (tt, ((((λ q. ground (arith, eq_iff "/c" "/b", q)), tt), (tt, tt)), tt)),
      )
      refl
