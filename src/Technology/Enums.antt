-- ===== src/Technology/Enums.antt =====
-- TechProperties::Type (include/amarula/dbus/connman/gtechnology.hpp) and its table
-- (src/dbus/gconnman_technology.cpp).
use libcppconnman.Prelude.{ℕ, ◌≡◌, [], ◌∷◌, arith}
use libcppconnman.EnumMap.{Enum, EnumStringMap}

pub data TechType : Type 0 where
  ethernet wifi cellular bluetooth vpn wired p2p gps gadget : TechType

unfoldable pub tech_type_to_int : TechType → ℕ
tech_type_to_int TechType.ethernet = 0
tech_type_to_int TechType.wifi = 1
tech_type_to_int TechType.cellular = 2
tech_type_to_int TechType.bluetooth = 3
tech_type_to_int TechType.vpn = 4
tech_type_to_int TechType.wired = 5
tech_type_to_int TechType.p2p = 6
tech_type_to_int TechType.gps = 7
tech_type_to_int TechType.gadget = 8

pub tech_type_to_int_injective : (a b : TechType) → tech_type_to_int a ≡ tech_type_to_int b → a ≡ b
unfolding tech_type_to_int
tech_type_to_int_injective a b h = ground arith

instance abbrev pub tech_type_enum : Enum TechType
tech_type_enum = record { to_int = tech_type_to_int; to_int_injective = tech_type_to_int_injective }

abbrev pub tech_type_map : EnumStringMap TechType
tech_type_map =
    (TechType.ethernet, "ethernet")
    ∷ (TechType.wifi, "wifi")
    ∷ (TechType.cellular, "cellular")
    ∷ (TechType.bluetooth, "bluetooth")
    ∷ (TechType.vpn, "vpn")
    ∷ (TechType.wired, "wired")
    ∷ (TechType.p2p, "p2p")
    ∷ (TechType.gps, "gps")
    ∷ (TechType.gadget, "gadget")
    ∷ []
