-- ===== src/Tests/Requests.antt =====
-- The requests, at concrete values.
use libcppconnman.Prelude.{◌≡◌, String, true, false, none, some, [], ◌∷◌, ok, ◌>>=◌, arith, List}
use libcppconnman.GVariant.{pos}
use libcppconnman.Proxy.{System}
use libcppconnman.Proxy.Requests.{echo}
use libcppconnman.Service.Props.{serv_init, serv_update}
use libcppconnman.Service.Calls.{set_autoconnect, set_name_servers}
use libcppconnman.Technology.Enums.{TechType}
use libcppconnman.Technology.Props.{TechProperties, tech_init, tech_update}
use libcppconnman.Technology.Calls.{
  set_powered, set_tethering, set_tethering_identifier, set_tethering_passphrase,
  set_tethering_freq,
}
use libcppconnman.Clock.Enums.{TimeUpdate}
use libcppconnman.Clock.Props.{clock_init, clock_update}
use libcppconnman.Clock.Calls.{
  set_time, set_time_zone, set_time_servers, set_time_updates, set_time_zone_updates,
}
use libcppconnman.Manager.Props.{mana_init, mana_update}
use libcppconnman.Manager.Calls.{set_offline_mode}
use libcppconnman.Roundtrips.{requests_roundtrip}
use libcppconnman.Tests.Values.{Var, var, var_laws}

abbrev pub fresh : {P : Type 0} → P → System P
fresh props = record {
  proxy = record {
    callback_counter = 0;
    callbacks = [];
    props = props;
    on_property_changed_user_cb = none;
  };
  bus = record { running = true; pending_calls = 0; loop = true };
  in_flight = [];
  events = [];
  quit = false;
}

abbrev two_servers : List String
two_servers = "1.1.1.1" ∷ "8.8.8.8" ∷ []

abbrev technology : TechProperties
technology = tech_init TechType.wifi

requests_roundtrip_example :
    (((echo clock_update (set_time {V = Var} 1700000000 none (fresh clock_init)).1 clock_init
          ≡ ok (record clock_init { time = 1700000000 }))
        × (echo clock_update
              (set_time_zone {V = Var} "Europe/Rome" none (fresh clock_init)).1
              clock_init
            ≡ ok (record clock_init { timezone = "Europe/Rome" }))
        × (echo clock_update
              (set_time_servers {V = Var} two_servers none (fresh clock_init)).1
              clock_init
            ≡ ok (record clock_init { time_servers = two_servers }))
        × (((set_time_updates {V = Var} TimeUpdate.auto none (fresh clock_init)).1 >>= λ call.
              echo clock_update call clock_init)
            ≡ ok (record clock_init { time_updates = TimeUpdate.auto }))
        × (((set_time_zone_updates {V = Var} TimeUpdate.auto none (fresh clock_init)).1 >>= λ call.
              echo clock_update call clock_init)
            ≡ ok (record clock_init { timezone_updates = TimeUpdate.auto })))
      × ((echo tech_update (set_powered {V = Var} true none (fresh technology)).1 technology
            ≡ ok (record technology { powered = true }))
          × (echo tech_update (set_tethering {V = Var} true none (fresh technology)).1 technology
              ≡ ok (record technology { tethering = true }))
          × (echo tech_update
                (set_tethering_identifier {V = Var} "net" none (fresh technology)).1
                technology
              ≡ ok (record technology { tethering_identifier = "net" }))
          × (echo tech_update
                (set_tethering_passphrase {V = Var} "net" none (fresh technology)).1
                technology
              ≡ ok (record technology { tethering_passphrase = "net" }))
          × (echo tech_update
                (set_tethering_freq {V = Var} (pos 2412) none (fresh technology)).1
                technology
              ≡ ok (record technology { tethering_freq = (pos 2412) })))
      × ((echo serv_update (set_autoconnect {V = Var} true none (fresh serv_init)).1 serv_init
            ≡ ok (record serv_init { autoconnect = true }))
          × (echo serv_update
                (set_name_servers {V = Var} two_servers none (fresh serv_init)).1
                serv_init
              ≡ ok (record serv_init { name_servers_conf = some two_servers })))
      × (echo mana_update (set_offline_mode {V = Var} true none (fresh mana_init)).1 mana_init
          ≡ ok (record mana_init { offline_mode = true })))
requests_roundtrip_example =
    requests_roundtrip var_laws none (fresh clock_init) clock_init (fresh technology) technology
      (fresh serv_init) serv_init (fresh mana_init) mana_init 1700000000 "Europe/Rome"
      TimeUpdate.auto two_servers true "net" (pos 2412) (omega arith)
