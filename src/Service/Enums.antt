-- ===== src/Service/Enums.antt =====
-- The enumerations of ServProperties (include/amarula/dbus/connman/gservice.hpp) and their tables
-- (src/dbus/gconnman_service.cpp).
use libcppconnman.Prelude.{ℕ, ◌≡◌, [], ◌∷◌, arith}
use libcppconnman.EnumMap.{Enum, EnumStringMap}

pub data ServType : Type 0 where
  ethernet wifi cellular bluetooth vpn wired p2p gps gadget : ServType

unfoldable pub serv_type_to_int : ServType → ℕ
serv_type_to_int ServType.ethernet = 0
serv_type_to_int ServType.wifi = 1
serv_type_to_int ServType.cellular = 2
serv_type_to_int ServType.bluetooth = 3
serv_type_to_int ServType.vpn = 4
serv_type_to_int ServType.wired = 5
serv_type_to_int ServType.p2p = 6
serv_type_to_int ServType.gps = 7
serv_type_to_int ServType.gadget = 8

pub serv_type_to_int_injective : (a b : ServType) → serv_type_to_int a ≡ serv_type_to_int b → a ≡ b
unfolding serv_type_to_int
serv_type_to_int_injective a b h = ground arith

instance abbrev pub serv_type_enum : Enum ServType
serv_type_enum = record { to_int = serv_type_to_int; to_int_injective = serv_type_to_int_injective }

abbrev pub type_map : EnumStringMap ServType
type_map =
    (ServType.ethernet, "ethernet")
    ∷ (ServType.wifi, "wifi")
    ∷ (ServType.cellular, "cellular")
    ∷ (ServType.bluetooth, "bluetooth")
    ∷ (ServType.vpn, "vpn")
    ∷ (ServType.wired, "wired")
    ∷ (ServType.p2p, "p2p")
    ∷ (ServType.gps, "gps")
    ∷ (ServType.gadget, "gadget")
    ∷ []

pub data ServState : Type 0 where
  idle failure ready online disconnect association configuration : ServState

unfoldable pub serv_state_to_int : ServState → ℕ
serv_state_to_int ServState.idle = 0
serv_state_to_int ServState.failure = 1
serv_state_to_int ServState.ready = 2
serv_state_to_int ServState.online = 3
serv_state_to_int ServState.disconnect = 4
serv_state_to_int ServState.association = 5
serv_state_to_int ServState.configuration = 6

pub serv_state_to_int_injective :
    (a b : ServState) → serv_state_to_int a ≡ serv_state_to_int b → a ≡ b
unfolding serv_state_to_int
serv_state_to_int_injective a b h = ground arith

instance abbrev pub serv_state_enum : Enum ServState
serv_state_enum = record {
  to_int = serv_state_to_int;
  to_int_injective = serv_state_to_int_injective;
}

abbrev pub state_map : EnumStringMap ServState
state_map =
    (ServState.association, "association")
    ∷ (ServState.configuration, "configuration")
    ∷ (ServState.disconnect, "disconnect")
    ∷ (ServState.failure, "failure")
    ∷ (ServState.idle, "idle")
    ∷ (ServState.online, "online")
    ∷ (ServState.ready, "ready")
    ∷ []

pub data Security : Type 0 where
  none wep psk ieee8021x wps wps_advertising : Security

unfoldable pub security_to_int : Security → ℕ
security_to_int Security.none = 0
security_to_int Security.wep = 1
security_to_int Security.psk = 2
security_to_int Security.ieee8021x = 3
security_to_int Security.wps = 4
security_to_int Security.wps_advertising = 5

pub security_to_int_injective : (a b : Security) → security_to_int a ≡ security_to_int b → a ≡ b
unfolding security_to_int
security_to_int_injective a b h = ground arith

instance abbrev pub security_enum : Enum Security
security_enum = record { to_int = security_to_int; to_int_injective = security_to_int_injective }

abbrev pub security_map : EnumStringMap Security
security_map =
    (Security.none, "none")
    ∷ (Security.wep, "wep")
    ∷ (Security.psk, "psk")
    ∷ (Security.ieee8021x, "ieee8021x")
    ∷ (Security.wps, "wps")
    ∷ (Security.wps_advertising, "wps_advertising")
    ∷ []

pub data ServError : Type 0 where
  none out_of_range pin_missing dhcp_failed connect_failed login_failed auth_failed invalid_key
        blocked online_check_failed :
      ServError

unfoldable pub serv_error_to_int : ServError → ℕ
serv_error_to_int ServError.none = 0
serv_error_to_int ServError.out_of_range = 1
serv_error_to_int ServError.pin_missing = 2
serv_error_to_int ServError.dhcp_failed = 3
serv_error_to_int ServError.connect_failed = 4
serv_error_to_int ServError.login_failed = 5
serv_error_to_int ServError.auth_failed = 6
serv_error_to_int ServError.invalid_key = 7
serv_error_to_int ServError.blocked = 8
serv_error_to_int ServError.online_check_failed = 9

pub serv_error_to_int_injective :
    (a b : ServError) → serv_error_to_int a ≡ serv_error_to_int b → a ≡ b
unfolding serv_error_to_int
serv_error_to_int_injective a b h = ground arith

instance abbrev pub serv_error_enum : Enum ServError
serv_error_enum = record {
  to_int = serv_error_to_int;
  to_int_injective = serv_error_to_int_injective;
}

abbrev pub error_map : EnumStringMap ServError
error_map =
    (ServError.none, "")
    ∷ (ServError.out_of_range, "out-of-range")
    ∷ (ServError.pin_missing, "pin-missing")
    ∷ (ServError.dhcp_failed, "dhcp-failed")
    ∷ (ServError.connect_failed, "connect-failed")
    ∷ (ServError.login_failed, "login-failed")
    ∷ (ServError.auth_failed, "auth-failed")
    ∷ (ServError.invalid_key, "invalid-key")
    ∷ (ServError.blocked, "blocked")
    ∷ (ServError.online_check_failed, "online-check-failed")
    ∷ []
