-- ===== src/Signatures/Reads.antt =====
-- That updateProperties (include/amarula/dbus/gproxy.hpp) of every class reads each property with the
-- getter of its type.
use libcppconnman.Prelude.{◌≡◌, String, List, All}
use libcppconnman.GVariant.{GVariant}
use libcppconnman.Props.{update_properties}
use libcppconnman.Technology.Props.{TechProperties, tech_update}
use libcppconnman.Clock.Props.{ClockProperties, clock_update}
use libcppconnman.Manager.Props.{ManaProperties, mana_update}
use libcppconnman.Service.Props.{ServProperties, serv_update}
use libcppconnman.Signatures.Getters.{Agree, Typed, Entry, update_properties-eq}
use libcppconnman.Signatures.Plain.{
  technology_types, clock_types, manager_types, tech_update-eq, clock_update-eq, mana_update-eq,
}
use libcppconnman.Signatures.Services.{ServiceTyped, serv_update-eq}

-- Let two interfaces to GVariants answer alike wherever GLib documents an answer: a getter for a value
-- of its type, the parts of a container, the test of a type. Then from dictionaries whose documented
-- keys have values of their documented types, and for a service's dictionaries also their members, with a
-- text under the key `Url` that the code looks for, updateProperties of a technology, of the clock, of the manager and of a service gives the same object
-- and the same exception through either: what a getter answers for a value of another type is never
-- used.
pub update_properties-Typed :
    {V : Type 0} {HasType : V → String → Type 0} {g h : GVariant V}
    → Agree HasType g h
    → (dt dc dm ds : List V) (t : TechProperties) (c : ClockProperties) (m : ManaProperties)
      (s : ServProperties)
    → All (Entry g HasType (Typed HasType technology_types)) dt
    → All (Entry g HasType (Typed HasType clock_types)) dc
    → All (Entry g HasType (Typed HasType manager_types)) dm
    → All (Entry g HasType (ServiceTyped g HasType)) ds
    → (update_properties ⦃g = g⦄ (tech_update ⦃g = g⦄) dt t
        ≡ update_properties ⦃g = h⦄ (tech_update ⦃g = h⦄) dt t)
      × (update_properties ⦃g = g⦄ (clock_update ⦃g = g⦄) dc c
          ≡ update_properties ⦃g = h⦄ (clock_update ⦃g = h⦄) dc c)
      × (update_properties ⦃g = g⦄ (mana_update ⦃g = g⦄) dm m
          ≡ update_properties ⦃g = h⦄ (mana_update ⦃g = h⦄) dm m)
      × (update_properties ⦃g = g⦄ (serv_update ⦃g = g⦄) ds s
          ≡ update_properties ⦃g = h⦄ (serv_update ⦃g = h⦄) ds s)
update_properties-Typed agree dt dc dm ds t c m s at ac am as_ = (
  update_properties-eq agree _ _ _ (tech_update-eq agree) dt t at,
  update_properties-eq agree _ _ _ (clock_update-eq agree) dc c ac,
  update_properties-eq agree _ _ _ (mana_update-eq agree) dm m am,
  update_properties-eq agree _ _ _ (serv_update-eq agree) ds s as_,
)
