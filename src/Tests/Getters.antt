-- ===== src/Tests/Getters.antt =====
-- Dictionaries of documented types, read with a GLib that answers carelessly for other types.
use libcppconnman.Prelude.{◌≡◌, refl, true, List, [], ◌∷◌, All, inl, inr}
use libcppconnman.Props.{update_properties}
use libcppconnman.Technology.Enums.{TechType}
use libcppconnman.Technology.Props.{tech_init, tech_update}
use libcppconnman.Clock.Props.{clock_init, clock_update}
use libcppconnman.Manager.Props.{mana_init, mana_update}
use libcppconnman.Service.Props.{serv_init, serv_update}
use libcppconnman.Signatures.Getters.{Typed, Entry}
use libcppconnman.Signatures.Plain.{technology_types, clock_types, manager_types}
use libcppconnman.Signatures.Blocks.{ipv6_types}
use libcppconnman.Signatures.Services.{ServiceTyped}
use libcppconnman.Signatures.Reads.{update_properties-Typed}
use libcppconnman.Tests.Careless.{Fits, careless, careless-Agree}
use libcppconnman.Tests.Values.{Var, var, text, boolean, number, items, dict, strings}

abbrev radio : List Var
radio = items (dict (("Type", text "wifi") ∷ ("Powered", boolean true) ∷ []))

radio-Typed : All (Entry var Fits (Typed Fits technology_types)) radio
radio-Typed = ((refl, inr ("s", refl, refl)), ((refl, inr ("b", refl, refl)), tt))

abbrev hours : List Var
hours = items (dict (("Time", number 1700000000) ∷ ("Timeservers", strings ("a" ∷ [])) ∷ []))

hours-Typed : All (Entry var Fits (Typed Fits clock_types)) hours
hours-Typed = ((refl, inr ("t", refl, refl)), ((refl, inr ("as", refl, refl)), tt))

abbrev modes : List Var
modes = items (dict (("OfflineMode", boolean true) ∷ ("State", text "idle") ∷ []))

modes-Typed : All (Entry var Fits (Typed Fits manager_types)) modes
modes-Typed = ((refl, inr ("b", refl, refl)), ((refl, inr ("s", refl, refl)), tt))

abbrev network : List Var
network = items (
    dict (
      ("Strength", number 70)
      ∷ ("Security", strings ("psk" ∷ []))
      ∷ ("IPv6", dict (("Method", text "auto") ∷ ("PrefixLength", number 64) ∷ []))
      ∷ ("LastAddressConflict", text "")
      ∷ []))

ipv6-Typed :
    All
      (Entry var Fits (Typed Fits ipv6_types))
      (items (dict (("Method", text "auto") ∷ ("PrefixLength", number 64) ∷ [])))
ipv6-Typed = ((refl, inr ("s", refl, refl)), ((refl, inr ("y", refl, refl)), tt))

network-Typed : All (Entry var Fits (ServiceTyped var Fits)) network
network-Typed = (
  (refl, (inr ("y", refl, refl), inl refl)),
  (
    (refl, (inr ("as", refl, refl), inl refl)),
    (
      (refl, (inr ("a{sv}", refl, refl), inr (ipv6_types, refl, ipv6-Typed))),
      ((refl, (inl refl, inl refl)), tt),
    ),
  ),
)

update_properties-Typed_example :
    (update_properties (tech_update) radio (tech_init TechType.ethernet)
      ≡ update_properties ⦃g = careless⦄
          (tech_update ⦃g = careless⦄)
          radio
          (tech_init TechType.ethernet))
    × (update_properties clock_update hours clock_init
        ≡ update_properties ⦃g = careless⦄ (clock_update ⦃g = careless⦄) hours clock_init)
    × (update_properties mana_update modes mana_init
        ≡ update_properties ⦃g = careless⦄ (mana_update ⦃g = careless⦄) modes mana_init)
    × (update_properties serv_update network serv_init
        ≡ update_properties ⦃g = careless⦄ (serv_update ⦃g = careless⦄) network serv_init)
update_properties-Typed_example =
    update_properties-Typed careless-Agree radio hours modes network (tech_init TechType.ethernet)
      clock_init mana_init serv_init radio-Typed hours-Typed modes-Typed network-Typed
