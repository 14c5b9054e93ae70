-- ===== src/Service/Methods.antt =====
-- The enumerations of IPv4, IPv6, Ethernet and Proxy (include/amarula/dbus/connman/gservice.hpp) and
-- their tables (src/dbus/gconnman_service.cpp).
use libcppconnman.Prelude.{ℕ, ◌≡◌, [], ◌∷◌, arith}
use libcppconnman.EnumMap.{Enum, EnumStringMap}

pub data Ipv4Method : Type 0 where
  off dhcp manual auto : Ipv4Method

unfoldable pub ipv4_method_to_int : Ipv4Method → ℕ
ipv4_method_to_int Ipv4Method.off = 0
ipv4_method_to_int Ipv4Method.dhcp = 1
ipv4_method_to_int Ipv4Method.manual = 2
ipv4_method_to_int Ipv4Method.auto = 3

pub ipv4_method_to_int_injective :
    (a b : Ipv4Method) → ipv4_method_to_int a ≡ ipv4_method_to_int b → a ≡ b
unfolding ipv4_method_to_int
ipv4_method_to_int_injective a b h = ground arith

instance abbrev pub ipv4_method_enum : Enum Ipv4Method
ipv4_method_enum = record {
  to_int = ipv4_method_to_int;
  to_int_injective = ipv4_method_to_int_injective;
}

abbrev pub ipv4_method_map : EnumStringMap Ipv4Method
ipv4_method_map =
    (Ipv4Method.off, "off")
    ∷ (Ipv4Method.dhcp, "dhcp")
    ∷ (Ipv4Method.manual, "manual")
    ∷ (Ipv4Method.auto, "auto")
    ∷ []

pub data ProxyMethod : Type 0 where
  direct auto manual : ProxyMethod

unfoldable pub proxy_method_to_int : ProxyMethod → ℕ
proxy_method_to_int ProxyMethod.direct = 0
proxy_method_to_int ProxyMethod.auto = 1
proxy_method_to_int ProxyMethod.manual = 2

pub proxy_method_to_int_injective :
    (a b : ProxyMethod) → proxy_method_to_int a ≡ proxy_method_to_int b → a ≡ b
unfolding proxy_method_to_int
proxy_method_to_int_injective a b h = ground arith

instance abbrev pub proxy_method_enum : Enum ProxyMethod
proxy_method_enum = record {
  to_int = proxy_method_to_int;
  to_int_injective = proxy_method_to_int_injective;
}

abbrev pub proxy_method_map : EnumStringMap ProxyMethod
proxy_method_map =
    (ProxyMethod.direct, "direct")
    ∷ (ProxyMethod.manual, "manual")
    ∷ (ProxyMethod.auto, "auto")
    ∷ []

pub data EthernetMethod : Type 0 where
  manual auto : EthernetMethod

unfoldable pub ethernet_method_to_int : EthernetMethod → ℕ
ethernet_method_to_int EthernetMethod.manual = 0
ethernet_method_to_int EthernetMethod.auto = 1

pub ethernet_method_to_int_injective :
    (a b : EthernetMethod) → ethernet_method_to_int a ≡ ethernet_method_to_int b → a ≡ b
unfolding ethernet_method_to_int
ethernet_method_to_int_injective a b h = ground arith

instance abbrev pub ethernet_method_enum : Enum EthernetMethod
ethernet_method_enum = record {
  to_int = ethernet_method_to_int;
  to_int_injective = ethernet_method_to_int_injective;
}

abbrev pub ethernet_method_map : EnumStringMap EthernetMethod
ethernet_method_map = (EthernetMethod.manual, "manual") ∷ (EthernetMethod.auto, "auto") ∷ []

pub data Ipv6Method : Type 0 where
  off k6to4 manual fixed auto : Ipv6Method

unfoldable pub ipv6_method_to_int : Ipv6Method → ℕ
ipv6_method_to_int Ipv6Method.off = 0
ipv6_method_to_int Ipv6Method.k6to4 = 1
ipv6_method_to_int Ipv6Method.manual = 2
ipv6_method_to_int Ipv6Method.fixed = 3
ipv6_method_to_int Ipv6Method.auto = 4

pub ipv6_method_to_int_injective :
    (a b : Ipv6Method) → ipv6_method_to_int a ≡ ipv6_method_to_int b → a ≡ b
unfolding ipv6_method_to_int
ipv6_method_to_int_injective a b h = ground arith

instance abbrev pub ipv6_method_enum : Enum Ipv6Method
ipv6_method_enum = record {
  to_int = ipv6_method_to_int;
  to_int_injective = ipv6_method_to_int_injective;
}

abbrev pub ipv6_method_map : EnumStringMap Ipv6Method
ipv6_method_map =
    (Ipv6Method.off, "off")
    ∷ (Ipv6Method.k6to4, "6to4")
    ∷ (Ipv6Method.manual, "manual")
    ∷ (Ipv6Method.fixed, "fixed")
    ∷ (Ipv6Method.auto, "auto")
    ∷ []

pub data Ipv6Privacy : Type 0 where
  disabled enabled preferred : Ipv6Privacy

unfoldable pub ipv6_privacy_to_int : Ipv6Privacy → ℕ
ipv6_privacy_to_int Ipv6Privacy.disabled = 0
ipv6_privacy_to_int Ipv6Privacy.enabled = 1
ipv6_privacy_to_int Ipv6Privacy.preferred = 2

pub ipv6_privacy_to_int_injective :
    (a b : Ipv6Privacy) → ipv6_privacy_to_int a ≡ ipv6_privacy_to_int b → a ≡ b
unfolding ipv6_privacy_to_int
ipv6_privacy_to_int_injective a b h = ground arith

instance abbrev pub ipv6_privacy_enum : Enum Ipv6Privacy
ipv6_privacy_enum = record {
  to_int = ipv6_privacy_to_int;
  to_int_injective = ipv6_privacy_to_int_injective;
}

abbrev pub ipv6_privacy_map : EnumStringMap Ipv6Privacy
ipv6_privacy_map =
    (Ipv6Privacy.disabled, "disabled")
    ∷ (Ipv6Privacy.enabled, "enabled")
    ∷ (Ipv6Privacy.preferred, "preferred")
    ∷ (Ipv6Privacy.preferred, "prefered")
    ∷ []
