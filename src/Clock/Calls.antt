-- ===== src/Clock/Calls.antt =====
-- The requests of Clock (src/dbus/gconnman_clock.cpp), and what connman's answer makes of them.
use libcppconnman.Prelude.{ℕ, ◌<◌, ◌^◌, String, ◌≡◌, List, Option, Result, ok, ◌>>=◌, map, arith}
use libcppconnman.GVariant.{GVariant, GVariantLaws}
use libcppconnman.GVariant.Vectors.{vector_to_as, as_to_vector-vector_to_as}
use libcppconnman.EnumMap.{to_string, from_string}
use libcppconnman.Names.{
  time_str, timeupdates_str, timezone_str, timezoneupdates_str, timeservers_str,
}
use libcppconnman.Proxy.{System}
use libcppconnman.Proxy.Requests.{
  MethodCall, set_property, request, request_text, echo, update_property-set_property,
}
use libcppconnman.Clock.Enums.{
  TimeUpdate, TimeZoneUpdate, time_update_map, time_zone_update_map, time_update_enum,
  time_update_to_int,
}
use libcppconnman.Clock.Props.{ClockProperties, clock_update}

module _ {V : Type 0} ⦃g : GVariant V⦄ where
  unfoldable pub set_time :
      ℕ → Option ℕ → System ClockProperties → System ClockProperties × MethodCall V
  unfolding request set_property
  set_time time callback s = request (set_property time_str (g.new_uint64 time)) callback s

  unfoldable pub set_time_zone :
      String → Option ℕ → System ClockProperties → System ClockProperties × MethodCall V
  unfolding request set_property
  set_time_zone timezone callback s =
      request (set_property timezone_str (g.new_string timezone)) callback s

  unfoldable pub set_time_updates :
      TimeUpdate
      → Option ℕ
      → System ClockProperties
      → System ClockProperties × Result (MethodCall V)
  unfolding request_text to_string time_update_to_int
  set_time_updates time_updates =
      request_text timeupdates_str (to_string time_update_map time_updates)

  unfoldable pub set_time_zone_updates :
      TimeZoneUpdate
      → Option ℕ
      → System ClockProperties
      → System ClockProperties × Result (MethodCall V)
  unfolding request_text to_string time_update_to_int
  set_time_zone_updates time_zone_updates =
      request_text timezoneupdates_str (to_string time_zone_update_map time_zone_updates)

  unfoldable pub set_time_servers :
      List String → Option ℕ → System ClockProperties → System ClockProperties × MethodCall V
  unfolding request set_property
  set_time_servers servers callback s =
      request
        (set_property timeservers_str (g.build "as" (map (λ server. g.new_string server) servers)))
        callback s

module _ {V : Type 0} ⦃g : GVariant V⦄ (laws : GVariantLaws g) (callback : Option ℕ)
    (s : System ClockProperties) (p : ClockProperties) where
  updates_roundtrip :
      (m : TimeUpdate)
      → (((set_time_updates {V = V} m callback s).1 >>= λ call. echo clock_update call p)
          ≡ ok (record p { time_updates = m }))
        × (((set_time_zone_updates {V = V} m callback s).1 >>= λ call. echo clock_update call p)
            ≡ ok (record p { timezone_updates = m }))
  unfolding set_time_updates set_time_zone_updates clock_update from_string
  updates_roundtrip TimeUpdate.manual = (
    rw (update_property-set_property laws) (rw (laws.get_string-new_string "manual")),
    rw (update_property-set_property laws) (rw (laws.get_string-new_string "manual")),
  )
  updates_roundtrip TimeUpdate.auto = (
    rw (update_property-set_property laws) (rw (laws.get_string-new_string "auto")),
    rw (update_property-set_property laws) (rw (laws.get_string-new_string "auto")),
  )

  -- When connman reports a change with the parameters that a request sent, exactly the property that
  -- was set has the value that it was set to: the time (below 2^64), the time zone, both update modes
  -- and the time servers.
  pub clock_roundtrip :
      (time : ℕ) (zone : String) (m : TimeUpdate) (servers : List String)
      → time < 2 ^ 64
      → (echo clock_update (set_time {V = V} time callback s).1 p ≡ ok (record p { time = time }))
        × (echo clock_update (set_time_zone {V = V} zone callback s).1 p
            ≡ ok (record p { timezone = zone }))
        × (echo clock_update (set_time_servers {V = V} servers callback s).1 p
            ≡ ok (record p { time_servers = servers }))
        × (((set_time_updates {V = V} m callback s).1 >>= λ call. echo clock_update call p)
            ≡ ok (record p { time_updates = m }))
        × (((set_time_zone_updates {V = V} m callback s).1 >>= λ call. echo clock_update call p)
            ≡ ok (record p { timezone_updates = m }))
  unfolding set_time set_time_zone set_time_servers clock_update vector_to_as
  clock_roundtrip time zone m servers h = (
    rw (update_property-set_property laws) (ground (arith, laws.get_uint64-new_uint64 time h)),
    rw (update_property-set_property laws) (ground (arith, laws.get_string-new_string zone)),
    rw (update_property-set_property laws) (ground (arith, as_to_vector-vector_to_as laws servers)),
    (updates_roundtrip m).0,
    (updates_roundtrip m).1,
  )
