-- ===== src/Clock/Print.antt =====
-- `operator<<` of ClockProperties (src/dbus/gconnman_clock.cpp).
use libcppconnman.Prelude.{ℕ, String, Option, none, some, [], ◌∷◌, ◌++◌, Result, ok}
use libcppconnman.GVariant.{ℤ, pos}
use libcppconnman.EnumMap.{to_string}
use libcppconnman.Names.{
  time_str, timeupdates_str, timezone_str, timezoneupdates_str, timeservers_str,
  timeserversynced_str,
}
use libcppconnman.Print.{Output, show_bool, line, spaced, both, line_ok}
use libcppconnman.Clock.Enums.{
  time_update_map, time_zone_update_map, time_update_to_int, time_update_enum,
}
use libcppconnman.Clock.Props.{ClockProperties}

-- `number` is how the stream writes an integer, and `local_time` what localtime_r and
-- `std::put_time` make of a time, if it can be converted.
module _ (number : ℤ → String) (local_time : ℕ → Option String) where
  abbrev local_part : ℕ → Output
  local_part time = elim (local_time time) [ some t ↦ " (" ∷ t ∷ ")" ∷ [] | none ↦ [] ]

  unfoldable pub print_clock : ClockProperties → Result Output
  unfolding to_string time_update_to_int
  print_clock obj =
      both (ok (time_str ∷ ": " ∷ number (pos obj.time) ∷ local_part obj.time ++ "\n" ∷ [])) (
        both (line_ok timeupdates_str (to_string time_update_map obj.time_updates)) (
          both (ok (line timezone_str obj.timezone)) (
            both (line_ok timezoneupdates_str (to_string time_zone_update_map obj.timezone_updates))
              (ok (
                line timeserversynced_str (show_bool obj.time_server_synced)
                ++ timeservers_str ∷ ": " ∷ spaced obj.time_servers
                ++ "\n" ∷ [])))))
