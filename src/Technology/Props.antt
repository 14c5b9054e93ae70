-- ===== src/Technology/Props.antt =====
-- TechProperties of include/amarula/dbus/connman/gtechnology.hpp and its `update`
-- (src/dbus/gconnman_technology.cpp).
use libcppconnman.Prelude.{String, Bool, false, List, [], ◌∷◌, Result, ok, map_ok, ◌==◌}
use libcppconnman.GVariant.{GVariant, ℤ, pos}
use libcppconnman.EnumMap.{from_string}
use libcppconnman.Props.{Update, cases}
use libcppconnman.Names.{
  name_str, type_str, powered_str, connected_str, tethering_str, tetheringfreq_str,
  tetheringidentifier_str, tetheringpassphrase_str,
}
use libcppconnman.Technology.Enums.{TechType, tech_type_map}

pub record TechProperties : Type 0 where
  pub powered : Bool
  pub connected : Bool
  pub tethering : Bool
  pub name : String
  pub tethering_identifier : String
  pub tethering_passphrase : String
  pub type : TechType
  pub tethering_freq : ℤ

-- `type_` has no initializer: what it holds before a "Type" is read is the argument.
abbrev pub tech_init : TechType → TechProperties
tech_init indeterminate = record {
  powered = false;
  connected = false;
  tethering = false;
  name = "";
  tethering_identifier = "";
  tethering_passphrase = "";
  type = indeterminate;
  tethering_freq = pos 0;
}

module _ {V : Type 0} ⦃g : GVariant V⦄ where
  abbrev pub tech_cases : List (String × (V → TechProperties → Result TechProperties))
  tech_cases =
      (name_str, λ value p. ok (record p { name = g.get_string value }))
      ∷ (
        type_str,
        λ value p.
            map_ok (λ x. record p { type = x }) (from_string tech_type_map (g.get_string value)),
      )
      ∷ (powered_str, λ value p. ok (record p { powered = g.get_boolean value == 1 }))
      ∷ (connected_str, λ value p. ok (record p { connected = g.get_boolean value == 1 }))
      ∷ (tethering_str, λ value p. ok (record p { tethering = g.get_boolean value == 1 }))
      ∷ (tetheringfreq_str, λ value p. ok (record p { tethering_freq = g.get_int32 value }))
      ∷ (
        tetheringidentifier_str,
        λ value p. ok (record p { tethering_identifier = g.get_string value }),
      )
      ∷ (
        tetheringpassphrase_str,
        λ value p. ok (record p { tethering_passphrase = g.get_string value }),
      )
      ∷ []

  unfoldable pub tech_update : Update V TechProperties
  tech_update = cases tech_cases
