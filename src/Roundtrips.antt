-- ===== src/Roundtrips.antt =====
-- What connman's answer makes of a request, over all the properties that can be set
-- (src/dbus/gconnman_clock.cpp, gconnman_technology.cpp, gconnman_service.cpp, gconnman_manager.cpp).
use libcppconnman.Prelude.{ℕ, ◌<◌, ◌^◌, ◌≡◌, String, Bool, List, Option, ok, ◌>>=◌}
use libcppconnman.GVariant.{GVariant, GVariantLaws, ℤ}
use libcppconnman.Proxy.{System}
use libcppconnman.Proxy.Requests.{echo}
use libcppconnman.Clock.Enums.{TimeUpdate}
use libcppconnman.Clock.Props.{ClockProperties, clock_update}
use libcppconnman.Clock.Calls.{
  set_time, set_time_zone, set_time_updates, set_time_zone_updates, set_time_servers,
  clock_roundtrip,
}
use libcppconnman.Technology.Props.{TechProperties, tech_update}
use libcppconnman.Technology.Calls.{
  set_powered, set_tethering, set_tethering_identifier, set_tethering_passphrase,
  set_tethering_freq, tech_roundtrip,
}
use libcppconnman.Service.Props.{ServProperties, serv_update}
use libcppconnman.Service.Calls.{set_autoconnect, set_name_servers, non_empty, serv_roundtrip}
use libcppconnman.Manager.Props.{ManaProperties, mana_update}
use libcppconnman.Manager.Calls.{set_offline_mode, mana_roundtrip}

module _ {V : Type 0} ⦃g : GVariant V⦄ (laws : GVariantLaws g) (callback : Option ℕ) where
  -- When connman reports a change with the parameters that a request sent, exactly the property that was
  -- set has the value that it was set to. Of the clock: the time (below 2^64), the time zone, the time
  -- servers and both update modes; of a technology: powered, tethering, and the identifier, the
  -- passphrase and the frequency of the tethering; of a service: automatic connection, and the
  -- configured name servers, of which an empty list is reported as none; of the manager: the offline
  -- mode.
  pub requests_roundtrip :
      (sc : System ClockProperties) (pc : ClockProperties) (st : System TechProperties)
      (pt : TechProperties) (ss : System ServProperties) (ps : ServProperties)
      (sm : System ManaProperties) (pm : ManaProperties) (time : ℕ) (zone : String) (m : TimeUpdate)
      (servers : List String) (b : Bool) (t : String) (n : ℤ)
      → time < 2 ^ 64
      → (((echo clock_update (set_time {V = V} time callback sc).1 pc
              ≡ ok (record pc { time = time }))
            × (echo clock_update (set_time_zone {V = V} zone callback sc).1 pc
                ≡ ok (record pc { timezone = zone }))
            × (echo clock_update (set_time_servers {V = V} servers callback sc).1 pc
                ≡ ok (record pc { time_servers = servers }))
            × (((set_time_updates {V = V} m callback sc).1 >>= λ call. echo clock_update call pc)
                ≡ ok (record pc { time_updates = m }))
            × (((set_time_zone_updates {V = V} m callback sc).1 >>= λ call.
                  echo clock_update call pc)
                ≡ ok (record pc { timezone_updates = m })))
          × ((echo tech_update (set_powered {V = V} b callback st).1 pt
                ≡ ok (record pt { powered = b }))
              × (echo tech_update (set_tethering {V = V} b callback st).1 pt
                  ≡ ok (record pt { tethering = b }))
              × (echo tech_update (set_tethering_identifier {V = V} t callback st).1 pt
                  ≡ ok (record pt { tethering_identifier = t }))
              × (echo tech_update (set_tethering_passphrase {V = V} t callback st).1 pt
                  ≡ ok (record pt { tethering_passphrase = t }))
              × (echo tech_update (set_tethering_freq {V = V} n callback st).1 pt
                  ≡ ok (record pt { tethering_freq = n })))
          × ((echo serv_update (set_autoconnect {V = V} b callback ss).1 ps
                ≡ ok (record ps { autoconnect = b }))
              × (echo serv_update (set_name_servers {V = V} servers callback ss).1 ps
                  ≡ ok (record ps { name_servers_conf = non_empty servers })))
          × (echo mana_update (set_offline_mode {V = V} b callback sm).1 pm
              ≡ ok (record pm { offline_mode = b })))
  requests_roundtrip sc pc st pt ss ps sm pm time zone m servers b t n h = (
    clock_roundtrip laws callback sc pc time zone m servers h,
    tech_roundtrip laws callback st pt b t n,
    serv_roundtrip laws callback ss ps b servers,
    mana_roundtrip laws callback sm pm b,
  )
