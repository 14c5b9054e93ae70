-- ===== src/Tests/Prints.antt =====
-- Runs of the printing of properties.
use libcppconnman.Prelude.{
  ◌≡◌, refl, String, ℕ, true, Option, some, none, [], ◌∷◌, ok, map_ok, ◌==◌, if◌then◌else◌,
}
use libcppconnman.GVariant.{ℤ, pos, negsuc}
use libcppconnman.Print.{Output, both, line_ok}
use libcppconnman.Print.Total.{Returns, prints-Returns}
use libcppconnman.Service.Enums.{ServState, ServType, Security}
use libcppconnman.Service.Props.{ServProperties, serv_init}
use libcppconnman.Service.Print.{print_serv}
use libcppconnman.Technology.Enums.{TechType}
use libcppconnman.Technology.Props.{TechProperties, tech_init}
use libcppconnman.Technology.Print.{print_tech}
use libcppconnman.Clock.Props.{clock_init}
use libcppconnman.Clock.Print.{print_clock}

abbrev number : ℤ → String
number (pos n) = if n == 60 then "60" else "0"
number (negsuc n) = "-1"

abbrev local_time : ℕ → Option String
local_time n = none

abbrev wifi : TechProperties
wifi = record (tech_init TechType.wifi) { name = "WiFi"; powered = true }

abbrev home : ServProperties
home = record serv_init {
  name = "home";
  state = ServState.online;
  type = ServType.wifi;
  strength = 60;
  security = some (Security.psk ∷ Security.wps ∷ []);
  domains = some ("lan" ∷ []);
}

abbrev before : String → String → String
before String.[] t = t
before (String.◌∷◌ c s) t = String.◌∷◌ c (before s t)

abbrev joined : Output → String
joined [] = ""
joined (s ∷ out) = before s (joined out)

wifi_text :
    map_ok joined (print_tech number wifi)
    ≡ ok
        "Name: WiFi\nType: wifi\nPowered: true\nConnected: false\nTethering: false\nTetheringIdentifier: \nTetheringPassphrase: \nTetheringFreq: 0 \n"
unfolding print_tech both line_ok
wifi_text = refl

home_text :
    map_ok joined (print_serv number home)
    ≡ ok
        "State: online\nName: home\nType: wifi\nStrength: 60\nAutoConnect: false\nmDNS: false\nFavorite: false\nImmutable: false\nRoaming: false\nSecurity: psk wps \nDomains: lan \n"
unfolding print_serv both line_ok
home_text = refl

clock_text :
    map_ok joined (print_clock number local_time clock_init)
    ≡ ok
        "Time: 0\nTimeUpdates: manual\nTimezone: \nTimezoneUpdates: manual\nTimeserverSynced: false\nTimeservers: \n"
unfolding print_clock both line_ok
clock_text = refl

prints-Returns_example :
    Returns (print_tech number wifi)
    × Returns (print_serv number home)
    × Returns (print_clock number local_time clock_init)
prints-Returns_example = prints-Returns number local_time wifi home clock_init
