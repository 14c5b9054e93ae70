-- ===== src/Props.antt =====
-- How a dictionary of properties is read: the loops of GVariantParser::parse
-- (src/dbus/gconnman_service.cpp) and of DBusProxy::update_property and updateProperties
-- (include/amarula/dbus/gproxy.hpp), and the if-else chain on the key that every `update` is.
pub mod Fields
pub mod Invariants
use libcppconnman.Prelude.{
  String, List, [], ◌∷◌, Option, none, some, Result, ok, throw, Exception, ◌>>=◌, str_eq,
  if◌then◌else◌,
}
use libcppconnman.GVariant.{GVariant}

-- `update (key, value)` of a properties class: the new object, or what is thrown before it changes.
abbrev pub Update : Type 0 → Type 0 → Type 0
Update V P = String → V → P → Result P

module _ {V P : Type 0} where
  -- The first branch whose key is equal is taken; a key of none is only logged.
  abbrev pub cases : List (String × (V → P → Result P)) → Update V P
  cases [] key value p = ok p
  cases ((name, assign) ∷ rest) key value p =
      if str_eq key name then assign value p else cases rest key value p

module _ {V : Type 0} ⦃g : GVariant V⦄ where
  abbrev pub key_of : V → String
  key_of prop = g.get_string (g.get_child_value prop 0)

  abbrev pub value_of : V → V
  value_of prop = g.get_variant (g.get_child_value prop 1)

  module _ {P : Type 0} where
    unfoldable pub update_property : Update V P → V → P → Result P
    update_property update prop p = update (key_of prop) (value_of prop) p

    -- Properties read before one that throws stay read.
    unfoldable pub update_properties : Update V P → List V → P → P × Option Exception
    unfolding update_property
    update_properties update [] p = (p, none)
    update_properties update (prop ∷ rest) p = elim (update_property update prop p) [
      | ok p' ↦ update_properties update rest p'
      | throw e ↦ (p, some e)
    ]

    -- A constructor that throws leaves no object.
    unfoldable pub parse : Update V P → List V → P → Result P
    parse update [] p = ok p
    parse update (prop ∷ rest) p =
        update (key_of prop) (value_of prop) p >>= λ p'. parse update rest p'
