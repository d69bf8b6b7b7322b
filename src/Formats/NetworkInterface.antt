-- ===== src/Formats/NetworkInterface.antt =====
-- How the D-Bus values of src/network_interface.hpp become enumerators.
use obmc_yadro_webapp.Prelude.{ℕ, Option, List, [], ◌∷◌, ◌++◌, nat_eq, text_eq}
use obmc_yadro_webapp.Prelude.Text.{Text, text}
use obmc_yadro_webapp.Entity.{FieldType}
use obmc_yadro_webapp.Formats.Base.{format_value_from_dict, raw_string, bool_eq}

pub data IpOrigin : Type 0 where
  static_origin dhcp link_local slaac : IpOrigin

unfoldable pub ip_origin_to_int : IpOrigin → ℕ
ip_origin_to_int IpOrigin.static_origin = 0
ip_origin_to_int IpOrigin.dhcp = 1
ip_origin_to_int IpOrigin.link_local = 2
ip_origin_to_int IpOrigin.slaac = 3

abbrev ip_origin_name : Text → Text
ip_origin_name val = text "xyz.openbmc_project.Network.IP.AddressOrigin." ++ val

unfoldable pub ip_origin_dict : List (Text × IpOrigin)
ip_origin_dict =
    (ip_origin_name (text "Static"), IpOrigin.static_origin)
    ∷ (ip_origin_name (text "DHCP"), IpOrigin.dhcp)
    ∷ (ip_origin_name (text "LinkLocal"), IpOrigin.link_local)
    ∷ (ip_origin_name (text "SLAAC"), IpOrigin.slaac)
    ∷ []

unfoldable pub format_ip_origin : FieldType → Option FieldType
unfolding format_value_from_dict ip_origin_dict ip_origin_to_int
format_ip_origin value =
    format_value_from_dict raw_string ip_origin_to_int ip_origin_dict IpOrigin.static_origin value

pub data IpType : Type 0 where
  ipv4 ipv6 : IpType

unfoldable pub ip_type_to_int : IpType → ℕ
ip_type_to_int IpType.ipv4 = 0
ip_type_to_int IpType.ipv6 = 1

abbrev ip_type_name : Text → Text
ip_type_name val = text "xyz.openbmc_project.Network.IP.Protocol." ++ val

unfoldable pub ip_type_dict : List (Text × IpType)
ip_type_dict =
    (ip_type_name (text "IPv4"), IpType.ipv4) ∷ (ip_type_name (text "IPv6"), IpType.ipv6) ∷ []

unfoldable pub format_ip_type : FieldType → Option FieldType
unfolding format_value_from_dict ip_type_dict ip_type_to_int
format_ip_type value =
    format_value_from_dict raw_string ip_type_to_int ip_type_dict IpType.ipv4 value

pub data EthernetDhcpState : Type 0 where
  both v4 v6 none : EthernetDhcpState

unfoldable pub ethernet_dhcp_state_to_int : EthernetDhcpState → ℕ
ethernet_dhcp_state_to_int EthernetDhcpState.both = 0
ethernet_dhcp_state_to_int EthernetDhcpState.v4 = 1
ethernet_dhcp_state_to_int EthernetDhcpState.v6 = 2
ethernet_dhcp_state_to_int EthernetDhcpState.none = 3

abbrev ethernet_dhcp_state_name : Text → Text
ethernet_dhcp_state_name val = text "xyz.openbmc_project.Network.EthernetInterface.DHCPConf." ++ val

unfoldable pub ethernet_dhcp_state_dict : List (Text × EthernetDhcpState)
ethernet_dhcp_state_dict =
    (ethernet_dhcp_state_name (text "both"), EthernetDhcpState.both)
    ∷ (ethernet_dhcp_state_name (text "v4"), EthernetDhcpState.v4)
    ∷ (ethernet_dhcp_state_name (text "v6"), EthernetDhcpState.v6)
    ∷ (ethernet_dhcp_state_name (text "none"), EthernetDhcpState.none)
    ∷ []

unfoldable pub format_ethernet_dhcp_state : FieldType → Option FieldType
unfolding format_value_from_dict ethernet_dhcp_state_dict ethernet_dhcp_state_to_int
format_ethernet_dhcp_state value =
    format_value_from_dict raw_string ethernet_dhcp_state_to_int ethernet_dhcp_state_dict
      EthernetDhcpState.none value

pub data EthernetLinkConfiguration : Type 0 where
  fallback both v4 v6 none : EthernetLinkConfiguration

unfoldable pub ethernet_link_configuration_to_int : EthernetLinkConfiguration → ℕ
ethernet_link_configuration_to_int EthernetLinkConfiguration.fallback = 0
ethernet_link_configuration_to_int EthernetLinkConfiguration.both = 1
ethernet_link_configuration_to_int EthernetLinkConfiguration.v4 = 2
ethernet_link_configuration_to_int EthernetLinkConfiguration.v6 = 3
ethernet_link_configuration_to_int EthernetLinkConfiguration.none = 4

abbrev ethernet_link_configuration_name : Text → Text
ethernet_link_configuration_name val =
    text "xyz.openbmc_project.Network.EthernetInterface.LinkLocalConf." ++ val

unfoldable pub ethernet_link_configuration_dict : List (Text × EthernetLinkConfiguration)
ethernet_link_configuration_dict =
    (ethernet_link_configuration_name (text "fallback"), EthernetLinkConfiguration.fallback)
    ∷ (ethernet_link_configuration_name (text "both"), EthernetLinkConfiguration.both)
    ∷ (ethernet_link_configuration_name (text "v4"), EthernetLinkConfiguration.v4)
    ∷ (ethernet_link_configuration_name (text "v6"), EthernetLinkConfiguration.v6)
    ∷ (ethernet_link_configuration_name (text "none"), EthernetLinkConfiguration.none)
    ∷ []

unfoldable pub format_ethernet_link_configuration : FieldType → Option FieldType
unfolding format_value_from_dict ethernet_link_configuration_dict ethernet_link_configuration_to_int
format_ethernet_link_configuration value =
    format_value_from_dict raw_string ethernet_link_configuration_to_int
      ethernet_link_configuration_dict EthernetLinkConfiguration.none value
