-- ===== src/Clock/Enums.antt =====
-- ClockProperties::TimeUpdate, of which TimeZoneUpdate is an alias
-- (include/amarula/dbus/connman/gclock.hpp), and the two tables (src/dbus/gconnman_clock.cpp).
use libcppconnman.Prelude.{ℕ, ◌≡◌, [], ◌∷◌, arith}
use libcppconnman.EnumMap.{Enum, EnumStringMap}

pub data TimeUpdate : Type 0 where
  manual auto : TimeUpdate

unfoldable pub time_update_to_int : TimeUpdate → ℕ
time_update_to_int TimeUpdate.manual = 0
time_update_to_int TimeUpdate.auto = 1

pub time_update_to_int_injective :
    (a b : TimeUpdate) → time_update_to_int a ≡ time_update_to_int b → a ≡ b
unfolding time_update_to_int
time_update_to_int_injective a b h = ground arith

instance abbrev pub time_update_enum : Enum TimeUpdate
time_update_enum = record {
  to_int = time_update_to_int;
  to_int_injective = time_update_to_int_injective;
}

abbrev pub time_update_map : EnumStringMap TimeUpdate
time_update_map = (TimeUpdate.manual, "manual") ∷ (TimeUpdate.auto, "auto") ∷ []

abbrev pub TimeZoneUpdate : Type 0
TimeZoneUpdate = TimeUpdate

abbrev pub time_zone_update_map : EnumStringMap TimeZoneUpdate
time_zone_update_map = (TimeUpdate.manual, "manual") ∷ (TimeUpdate.auto, "auto") ∷ []
