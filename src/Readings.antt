-- ===== src/Readings.antt =====
-- What a dictionary makes of a technology, of the clock and of the manager
-- (src/dbus/gconnman_technology.cpp, gconnman_clock.cpp, gconnman_manager.cpp). That of a service stands
-- in Service/Reading.
use libcppconnman.Prelude.{◌≡◌, List, none}
use libcppconnman.GVariant.{GVariant}
use libcppconnman.Props.{update_properties}
use libcppconnman.Technology.Props.{TechProperties, tech_update}
use libcppconnman.Technology.Reading.{TechReads, update_properties-TechReads}
use libcppconnman.Clock.Props.{ClockProperties, clock_update}
use libcppconnman.Clock.Reading.{ClockReads, update_properties-ClockReads}
use libcppconnman.Manager.Props.{ManaProperties, mana_update}
use libcppconnman.Manager.Reading.{ManaReads, update_properties-ManaReads}

module _ {V : Type 0} ⦃g : GVariant V⦄ where
  -- When updateProperties of a technology, of the clock and of the manager each read a dictionary
  -- without an exception: each of the eight fields of the technology, of the six of the clock and of
  -- the two of the manager holds what the last entry under its key decodes to, and its old value where
  -- no entry has the key.
  pub update_properties-Reads :
      (dt dc dm : List V) (t t' : TechProperties) (c c' : ClockProperties) (m m' : ManaProperties)
      → update_properties tech_update dt t ≡ (t', none)
      → update_properties clock_update dc c ≡ (c', none)
      → update_properties mana_update dm m ≡ (m', none)
      → TechReads dt t t' × ClockReads dc c c' × ManaReads dm m m'
  update_properties-Reads dt dc dm t t' c c' m m' ht hc hm = (
    update_properties-TechReads dt t t' ht,
    update_properties-ClockReads dc c c' hc,
    update_properties-ManaReads dm m m' hm,
  )
