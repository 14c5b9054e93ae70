-- ===== src/Technology/Print.antt =====
-- `operator<<` of TechProperties (src/dbus/gconnman_technology.cpp).
use libcppconnman.Prelude.{String, [], ◌∷◌, ◌++◌, Result, ok, if◌then◌else◌, ◌==◌}
use libcppconnman.GVariant.{ℤ}
use libcppconnman.EnumMap.{to_string}
use libcppconnman.Names.{
  name_str, type_str, powered_str, connected_str, tethering_str, tetheringfreq_str,
  tetheringidentifier_str, tetheringpassphrase_str,
}
use libcppconnman.Print.{Output, show_bool, line, both, line_ok}
use libcppconnman.Technology.Enums.{TechType, tech_type_map, tech_type_to_int, tech_type_enum}
use libcppconnman.Technology.Props.{TechProperties}

-- `number` is how the stream writes an integer.
module _ (number : ℤ → String) where
  unfoldable pub print_tech : TechProperties → Result Output
  unfolding to_string tech_type_to_int
  print_tech obj = both (ok (line name_str obj.name)) (
      both (line_ok type_str (to_string tech_type_map obj.type)) (
        ok (
          line powered_str (show_bool obj.powered)
          ++ line connected_str (show_bool obj.connected)
          ++ line tethering_str (show_bool obj.tethering)
          ++ (if tech_type_to_int obj.type == tech_type_to_int TechType.wifi
              then line tetheringidentifier_str obj.tethering_identifier
                ++ line tetheringpassphrase_str obj.tethering_passphrase
                ++ tetheringfreq_str ∷ ": " ∷ number obj.tethering_freq ∷ " \n" ∷ []
              else []))))
