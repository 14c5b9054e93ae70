-- ===== src/Signatures/Requests.antt =====
-- The requests of Clock, Manager, Technology and Service against connman's interfaces
-- (src/dbus/gconnman_*.cpp).
use libcppconnman.Prelude.{
  ℕ, ◌<◌, ◌^◌, ◌≡◌, refl, String, Bool, true, Option, List, [], ◌∷◌, All, map, Result, ok,
}
use libcppconnman.GVariant.{GVariant, ℤ}
use libcppconnman.Proxy.{System}
use libcppconnman.Proxy.Requests.{MethodCall, get_properties}
use libcppconnman.Clock.Enums.{TimeUpdate, TimeZoneUpdate}
use libcppconnman.Clock.Props.{ClockProperties}
use libcppconnman.Clock.Calls.{
  set_time, set_time_zone, set_time_updates, set_time_zone_updates, set_time_servers,
}
use libcppconnman.Manager.Props.{ManaProperties}
use libcppconnman.Manager.Calls.{
  set_offline_mode, register_agent, unregister_agent, get_technologies, get_services,
}
use libcppconnman.Technology.Props.{TechProperties}
use libcppconnman.Technology.Calls.{
  set_powered, set_tethering, set_tethering_identifier, set_tethering_passphrase,
  set_tethering_freq, scan,
}
use libcppconnman.Service.Props.{ServProperties}
use libcppconnman.Service.Calls.{connect, disconnect, remove, set_autoconnect, set_name_servers}
use libcppconnman.Signatures.{GVariantTypes, Interface, Conforms, invokes, sets}

module _ {V : Type 0} ⦃g : GVariant V⦄ (is_object_path : String → Bool) (callback : Option ℕ) where
  -- What the requests send, each for its interface, or the exception that leaves them. A time is an
  -- unsigned integer of 64 bits, and the path of an agent is an object path.
  pub data Sent : Interface → Result (MethodCall V) → Type 1 where
    time :
        (s : System ClockProperties) (time : ℕ)
        → time < 2 ^ 64
        → Sent Interface.clock (ok (set_time {V = V} time callback s).1)
    time_zone :
        (s : System ClockProperties) (zone : String)
        → Sent Interface.clock (ok (set_time_zone {V = V} zone callback s).1)
    time_servers :
        (s : System ClockProperties) (servers : List String)
        → Sent Interface.clock (ok (set_time_servers {V = V} servers callback s).1)
    time_updates :
        (s : System ClockProperties) (mode : TimeUpdate)
        → Sent Interface.clock ((set_time_updates {V = V} mode callback s).1)
    time_zone_updates :
        (s : System ClockProperties) (mode : TimeZoneUpdate)
        → Sent Interface.clock ((set_time_zone_updates {V = V} mode callback s).1)
    offline_mode :
        (s : System ManaProperties) (b : Bool)
        → Sent Interface.manager (ok (set_offline_mode {V = V} b callback s).1)
    agent :
        (s : System ManaProperties) (path : String)
        → is_object_path path ≡ true
        → Sent Interface.manager (ok (register_agent {V = V} path callback s).1)
    no_agent :
        (s : System ManaProperties) (path : String)
        → is_object_path path ≡ true
        → Sent Interface.manager (ok (unregister_agent {V = V} path callback s).1)
    technologies : Sent Interface.manager (ok (get_technologies {V = V}))
    services : Sent Interface.manager (ok (get_services {V = V}))
    powered :
        (s : System TechProperties) (b : Bool)
        → Sent Interface.technology (ok (set_powered {V = V} b callback s).1)
    tethering :
        (s : System TechProperties) (b : Bool)
        → Sent Interface.technology (ok (set_tethering {V = V} b callback s).1)
    identifier :
        (s : System TechProperties) (name : String)
        → Sent Interface.technology (ok (set_tethering_identifier {V = V} name callback s).1)
    passphrase :
        (s : System TechProperties) (secret : String)
        → Sent Interface.technology (ok (set_tethering_passphrase {V = V} secret callback s).1)
    freq :
        (s : System TechProperties) (n : ℤ)
        → Sent Interface.technology (ok (set_tethering_freq {V = V} n callback s).1)
    scanning :
        (s : System TechProperties) → Sent Interface.technology (ok (scan {V = V} callback s).1)
    autoconnect :
        (s : System ServProperties) (b : Bool)
        → Sent Interface.service (ok (set_autoconnect {V = V} b callback s).1)
    name_servers :
        (s : System ServProperties) (servers : List String)
        → Sent Interface.service (ok (set_name_servers {V = V} servers callback s).1)
    connection :
        (s : System ServProperties) → Sent Interface.service (ok (connect {V = V} callback s).1)
    disconnection :
        (s : System ServProperties) → Sent Interface.service (ok (disconnect {V = V} callback s).1)
    removal :
        (s : System ServProperties) → Sent Interface.service (ok (remove {V = V} callback s).1)
    properties :
        {P : Type 0} (i : Interface) (s : System P)
        → Sent i (ok (get_properties {V = V} callback s).1)

module _ {V : Type 0} ⦃g : GVariant V⦄ {is_object_path : String → Bool}
    (types : GVariantTypes is_object_path g) where
  strings-typed :
      (texts : List String) → All (λ v. g.is_of_type v "s" ≡ true) (map (λ s. g.new_string s) texts)
  strings-typed [] = tt
  strings-typed (s ∷ texts) = (types.string s, strings-typed texts)

  string_array-typed :
      (texts : List String)
      → g.is_of_type (g.build "as" (map (λ s. g.new_string s) texts)) "as" ≡ true
  string_array-typed texts = types.array "s" _ (strings-typed texts)

  setting-typed :
      (property : String) (value : V)
      → g.is_of_type (g.new_tuple (g.new_string property ∷ g.new_variant value ∷ [])) "(sv)" ≡ true
  setting-typed property value =
      types.pair (g.new_string property) (g.new_variant value) "s" "v" (types.string property)
        (types.variant value)

  path-typed :
      (path : String)
      → is_object_path path ≡ true
      → g.is_of_type (g.new_tuple (g.new_object_path path ∷ [])) "(o)" ≡ true
  path-typed path h = types.single (g.new_object_path path) "o" (types.object_path path h)

  -- Whatever is requested of the clock, the manager, a technology or a service, a time of 64 bits and, for
  -- an agent, a text that GLib takes for an object path: no exception leaves the request, and what it sends is declared by that interface of connman: a method with arguments of its
  -- types, or SetProperty with a property that may be set and, in a variant, a value of its type.
  pub Sent-Conforms :
      {callback : Option ℕ} {i : Interface} {r : Result (MethodCall V)}
      → Sent is_object_path callback i r
      → (call : MethodCall V) × (r ≡ ok call) × Conforms i call
  unfolding connect disconnect get_properties get_services get_technologies register_agent remove
      scan set_autoconnect set_name_servers set_offline_mode set_powered set_tethering
      set_tethering_freq set_tethering_identifier set_tethering_passphrase set_time set_time_servers
      set_time_updates set_time_zone set_time_zone_updates unregister_agent
  Sent-Conforms (time s n h) =
      (_, refl, sets "Time" (g.new_uint64 n) "t" refl (types.uint64 n h) (setting-typed _ _))
  Sent-Conforms (time_zone s zone) = (
    _,
    refl,
    sets "Timezone" (g.new_string zone) "s" refl (types.string zone) (setting-typed _ _),
  )
  Sent-Conforms (time_servers s servers) =
      (_, refl, sets "Timeservers" _ "as" refl (string_array-typed servers) (setting-typed _ _))
  Sent-Conforms (offline_mode s b) =
      (_, refl, sets "OfflineMode" (g.new_boolean b) "b" refl (types.boolean b) (setting-typed _ _))
  Sent-Conforms (agent s path h) =
      (_, refl, invokes "RegisterAgent" _ "(o)" refl (path-typed path h))
  Sent-Conforms (no_agent s path h) =
      (_, refl, invokes "UnregisterAgent" _ "(o)" refl (path-typed path h))
  Sent-Conforms technologies = (_, refl, invokes "GetTechnologies" _ "()" refl types.unit)
  Sent-Conforms services = (_, refl, invokes "GetServices" _ "()" refl types.unit)
  Sent-Conforms (powered s b) =
      (_, refl, sets "Powered" (g.new_boolean b) "b" refl (types.boolean b) (setting-typed _ _))
  Sent-Conforms (tethering s b) =
      (_, refl, sets "Tethering" (g.new_boolean b) "b" refl (types.boolean b) (setting-typed _ _))
  Sent-Conforms (identifier s name) =
      (_, refl, sets "TetheringIdentifier" _ "s" refl (types.string name) (setting-typed _ _))
  Sent-Conforms (passphrase s secret) =
      (_, refl, sets "TetheringPassphrase" _ "s" refl (types.string secret) (setting-typed _ _))
  Sent-Conforms (freq s n) =
      (_, refl, sets "TetheringFreq" (g.new_int32 n) "i" refl (types.int32 n) (setting-typed _ _))
  Sent-Conforms (scanning s) = (_, refl, invokes "Scan" _ "()" refl types.unit)
  Sent-Conforms (autoconnect s b) =
      (_, refl, sets "AutoConnect" (g.new_boolean b) "b" refl (types.boolean b) (setting-typed _ _))
  Sent-Conforms (name_servers s servers) = (
    _,
    refl,
    sets "Nameservers.Configuration" _ "as" refl (string_array-typed servers) (setting-typed _ _),
  )
  Sent-Conforms (connection s) = (_, refl, invokes "Connect" _ "()" refl types.unit)
  Sent-Conforms (disconnection s) = (_, refl, invokes "Disconnect" _ "()" refl types.unit)
  Sent-Conforms (removal s) = (_, refl, invokes "Remove" _ "()" refl types.unit)
  Sent-Conforms (time_updates s TimeUpdate.manual) = (
    _,
    refl,
    sets "TimeUpdates" (g.new_string "manual") "s" refl (types.string _) (setting-typed _ _),
  )
  Sent-Conforms (time_updates s TimeUpdate.auto) = (
    _,
    refl,
    sets "TimeUpdates" (g.new_string "auto") "s" refl (types.string _) (setting-typed _ _),
  )
  Sent-Conforms (time_zone_updates s TimeUpdate.manual) = (
    _,
    refl,
    sets "TimezoneUpdates" (g.new_string "manual") "s" refl (types.string _) (setting-typed _ _),
  )
  Sent-Conforms (time_zone_updates s TimeUpdate.auto) = (
    _,
    refl,
    sets "TimezoneUpdates" (g.new_string "auto") "s" refl (types.string _) (setting-typed _ _),
  )
  Sent-Conforms (properties Interface.clock s) =
      (_, refl, invokes "GetProperties" _ "()" refl types.unit)
  Sent-Conforms (properties Interface.manager s) =
      (_, refl, invokes "GetProperties" _ "()" refl types.unit)
  Sent-Conforms (properties Interface.technology s) =
      (_, refl, invokes "GetProperties" _ "()" refl types.unit)
  Sent-Conforms (properties Interface.service s) =
      (_, refl, invokes "GetProperties" _ "()" refl types.unit)
