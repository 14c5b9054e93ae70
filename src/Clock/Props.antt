-- ===== src/Clock/Props.antt =====
-- ClockProperties of include/amarula/dbus/connman/gclock.hpp and its `update`
-- (src/dbus/gconnman_clock.cpp).
use libcppconnman.Prelude.{ℕ, String, Bool, false, List, [], ◌∷◌, Result, ok, map_ok, ◌==◌}
use libcppconnman.GVariant.{GVariant}
use libcppconnman.GVariant.Vectors.{as_to_vector}
use libcppconnman.EnumMap.{from_string}
use libcppconnman.Props.{Update, cases}
use libcppconnman.Names.{
  time_str, timeupdates_str, timezone_str, timezoneupdates_str, timeservers_str,
  timeserversynced_str,
}
use libcppconnman.Clock.Enums.{TimeUpdate, TimeZoneUpdate, time_update_map, time_zone_update_map}

pub record ClockProperties : Type 0 where
  pub time : ℕ
  pub time_updates : TimeUpdate
  pub timezone : String
  pub timezone_updates : TimeZoneUpdate
  pub time_servers : List String
  pub time_server_synced : Bool

abbrev pub clock_init : ClockProperties
clock_init = record {
  time = 0;
  time_updates = TimeUpdate.manual;
  timezone = "";
  timezone_updates = TimeUpdate.manual;
  time_servers = [];
  time_server_synced = false;
}

module _ {V : Type 0} ⦃g : GVariant V⦄ where
  abbrev pub clock_cases : List (String × (V → ClockProperties → Result ClockProperties))
  clock_cases =
      (time_str, λ value p. ok (record p { time = g.get_uint64 value }))
      ∷ (
        timeupdates_str,
        λ value p.
            map_ok (λ x. record p { time_updates = x })
              (from_string time_update_map (g.get_string value)),
      )
      ∷ (timezone_str, λ value p. ok (record p { timezone = g.get_string value }))
      ∷ (
        timezoneupdates_str,
        λ value p.
            map_ok (λ x. record p { timezone_updates = x })
              (from_string time_zone_update_map (g.get_string value)),
      )
      ∷ (timeservers_str, λ value p. ok (record p { time_servers = as_to_vector value }))
      ∷ (
        timeserversynced_str,
        λ value p. ok (record p { time_server_synced = g.get_boolean value == 1 }),
      )
      ∷ []

  unfoldable pub clock_update : Update V ClockProperties
  clock_update = cases clock_cases
