-- ===== src/Names.antt =====
-- src/dbus/gconnman_private.hpp: the bus names, interfaces, keys and methods of connman.
use libcppconnman.Prelude.{String}

abbrev pub service : String
service = "net.connman"

abbrev pub object_path : String
object_path = "/net/connman"

abbrev pub manager_path : String
manager_path = "/"

abbrev pub name_str : String
name_str = "Name"

abbrev pub type_str : String
type_str = "Type"

abbrev pub error_str : String
error_str = "Error"

abbrev pub auto_str : String
auto_str = "auto"

abbrev pub manual_str : String
manual_str = "manual"

abbrev pub timeservers_str : String
timeservers_str = "Timeservers"

abbrev pub clock_interface : String
clock_interface = "net.connman.Clock"

abbrev pub time_str : String
time_str = "Time"

abbrev pub timeupdates_str : String
timeupdates_str = "TimeUpdates"

abbrev pub timezone_str : String
timezone_str = "Timezone"

abbrev pub timezoneupdates_str : String
timezoneupdates_str = "TimezoneUpdates"

abbrev pub timeserversynced_str : String
timeserversynced_str = "TimeserverSynced"

abbrev pub technology_interface : String
technology_interface = "net.connman.Technology"

abbrev pub powered_str : String
powered_str = "Powered"

abbrev pub connected_str : String
connected_str = "Connected"

abbrev pub tethering_str : String
tethering_str = "Tethering"

abbrev pub tetheringidentifier_str : String
tetheringidentifier_str = "TetheringIdentifier"

abbrev pub tetheringpassphrase_str : String
tetheringpassphrase_str = "TetheringPassphrase"

abbrev pub tetheringfreq_str : String
tetheringfreq_str = "TetheringFreq"

abbrev pub scan_str : String
scan_str = "Scan"

abbrev pub service_interface : String
service_interface = "net.connman.Service"

abbrev pub autoconnect_str : String
autoconnect_str = "AutoConnect"

abbrev pub favorite_str : String
favorite_str = "Favorite"

abbrev pub immutable_str : String
immutable_str = "Immutable"

abbrev pub mdns_str : String
mdns_str = "mDNS"

abbrev pub strength_str : String
strength_str = "Strength"

abbrev pub ipv4_str : String
ipv4_str = "IPv4"

abbrev pub ipv6_str : String
ipv6_str = "IPv6"

abbrev pub nameservers_str : String
nameservers_str = "Nameservers"

abbrev pub domains_str : String
domains_str = "Domains"

abbrev pub method_str : String
method_str = "Method"

abbrev pub address_str : String
address_str = "Address"

abbrev pub netmask_str : String
netmask_str = "Netmask"

abbrev pub gateway_str : String
gateway_str = "Gateway"

abbrev pub privacy_str : String
privacy_str = "Privacy"

abbrev pub prefixlength_str : String
prefixlength_str = "PrefixLength"

abbrev pub ethernet_str : String
ethernet_str = "Ethernet"

abbrev pub provider_str : String
provider_str = "Provider"

abbrev pub host_str : String
host_str = "Host"

abbrev pub domain_str : String
domain_str = "Domain"

abbrev pub proxy_str : String
proxy_str = "Proxy"

abbrev pub url_str : String
url_str = "Url"

abbrev pub servers_str : String
servers_str = "Servers"

abbrev pub excludes_str : String
excludes_str = "Excludes"

abbrev pub security_str : String
security_str = "Security"

abbrev pub connect_str : String
connect_str = "Connect"

abbrev pub disconnect_str : String
disconnect_str = "Disconnect"

abbrev pub remove_str : String
remove_str = "Remove"

abbrev pub interface_str : String
interface_str = "Interface"

abbrev pub mtu_str : String
mtu_str = "MTU"

abbrev pub nameservers_configuration_str : String
nameservers_configuration_str = "Nameservers.Configuration"

abbrev pub manager_interface : String
manager_interface = "net.connman.Manager"

abbrev pub offlinemode_str : String
offlinemode_str = "OfflineMode"

abbrev pub gettechnologies_str : String
gettechnologies_str = "GetTechnologies"

abbrev pub getservices_str : String
getservices_str = "GetServices"

abbrev pub state_str : String
state_str = "State"

abbrev pub registeragent_str : String
registeragent_str = "RegisterAgent"

abbrev pub unregisteragent_str : String
unregisteragent_str = "UnregisterAgent"
