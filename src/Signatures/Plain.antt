-- ===== src/Signatures/Plain.antt =====
-- Which getter reads which property: the `update` of a technology, of the clock and of the manager
-- (src/dbus/gconnman_technology.cpp, gconnman_clock.cpp, gconnman_manager.cpp), against the types that
-- connman's documents give their properties.
use libcppconnman.Prelude.{◌≡◌, refl, String, List, [], ◌∷◌}
use libcppconnman.GVariant.{GVariant}
use libcppconnman.Technology.Props.{TechProperties, tech_cases, tech_update}
use libcppconnman.Clock.Props.{ClockProperties, clock_cases, clock_update}
use libcppconnman.Manager.Props.{ManaProperties, mana_cases, mana_update}
use libcppconnman.Signatures.Getters.{
  Agree, Aligned, ◌also◌, no_branch, cases-eq, Typed, string_at, boolean_at, int32_at, uint64_at,
  strings_at,
}

abbrev pub technology_types : List (String × String)
technology_types =
    ("Name", "s")
    ∷ ("Type", "s")
    ∷ ("Powered", "b")
    ∷ ("Connected", "b")
    ∷ ("Tethering", "b")
    ∷ ("TetheringFreq", "i")
    ∷ ("TetheringIdentifier", "s")
    ∷ ("TetheringPassphrase", "s")
    ∷ []

abbrev pub clock_types : List (String × String)
clock_types =
    ("Time", "t")
    ∷ ("TimeUpdates", "s")
    ∷ ("Timezone", "s")
    ∷ ("TimezoneUpdates", "s")
    ∷ ("Timeservers", "as")
    ∷ ("TimeserverSynced", "b")
    ∷ []

abbrev pub manager_types : List (String × String)
manager_types = ("State", "s") ∷ ("OfflineMode", "b") ∷ ("SessionMode", "b") ∷ []

module _ {V : Type 0} {HasType : V → String → Type 0} {g h : GVariant V}
    (agree : Agree HasType g h) where
  tech_cases-Aligned :
      Aligned (Typed HasType technology_types) (tech_cases ⦃g = g⦄) (tech_cases ⦃g = h⦄)
  tech_cases-Aligned =
      let string = string_at agree technology_types in
      let boolean = boolean_at agree technology_types in
      (λ v p r. cc (string "Name" v refl r))
      also (λ v p r. cc (string "Type" v refl r))
      also (λ v p r. cc (boolean "Powered" v refl r))
      also (λ v p r. cc (boolean "Connected" v refl r))
      also (λ v p r. cc (boolean "Tethering" v refl r))
      also (λ v p r. cc (int32_at agree technology_types "TetheringFreq" v refl r))
      also (λ v p r. cc (string "TetheringIdentifier" v refl r))
      also (λ v p r. cc (string "TetheringPassphrase" v refl r))
      also no_branch

  clock_cases-Aligned :
      Aligned (Typed HasType clock_types) (clock_cases ⦃g = g⦄) (clock_cases ⦃g = h⦄)
  clock_cases-Aligned =
      let string = string_at agree clock_types in
      (λ v p r. cc (uint64_at agree clock_types "Time" v refl r))
      also (λ v p r. cc (string "TimeUpdates" v refl r))
      also (λ v p r. cc (string "Timezone" v refl r))
      also (λ v p r. cc (string "TimezoneUpdates" v refl r))
      also (λ v p r. cc (strings_at agree clock_types "Timeservers" v refl r))
      also (λ v p r. cc (boolean_at agree clock_types "TimeserverSynced" v refl r))
      also no_branch

  mana_cases-Aligned :
      Aligned (Typed HasType manager_types) (mana_cases ⦃g = g⦄) (mana_cases ⦃g = h⦄)
  mana_cases-Aligned =
      (λ v p r. cc (boolean_at agree manager_types "OfflineMode" v refl r))
      also (λ v p r. cc (string_at agree manager_types "State" v refl r))
      also no_branch

  pub tech_update-eq :
      (key : String) (v : V) (p : TechProperties)
      → Typed HasType technology_types key v
      → tech_update ⦃g = g⦄ key v p ≡ tech_update ⦃g = h⦄ key v p
  unfolding tech_update
  tech_update-eq = cases-eq tech_cases-Aligned

  pub clock_update-eq :
      (key : String) (v : V) (p : ClockProperties)
      → Typed HasType clock_types key v
      → clock_update ⦃g = g⦄ key v p ≡ clock_update ⦃g = h⦄ key v p
  unfolding clock_update
  clock_update-eq = cases-eq clock_cases-Aligned

  pub mana_update-eq :
      (key : String) (v : V) (p : ManaProperties)
      → Typed HasType manager_types key v
      → mana_update ⦃g = g⦄ key v p ≡ mana_update ⦃g = h⦄ key v p
  unfolding mana_update
  mana_update-eq = cases-eq mana_cases-Aligned
