-- ===== src/Vm/AdapterRows.antt =====
-- A network adapter, and what `UpdateAll` of src/app/vm/VMManager.cpp takes for it from a row of each of its
-- queries. A row is a record of what is read from it.
use hyprv.Prelude.{
  value_or, ℕ, ◌%◌, ◌^◌, Bool, true, false, not, Option, List, [], ◌∷◌, ◌++◌, map, ◌==◌,
  if◌then◌else◌, is_empty, some_of,
}
use hyprv.Prelude.Text.{Text}
use hyprv.Settings.Map.{Map, lookup, insert}
use hyprv.Vm.Texts.{extract_name_property_from_path}

pub record NetworkAdapter : Type 0 where
  pub nic_guid : Text
  pub name : Text
  pub mac_address : Text
  pub dynamic_mac : Bool
  pub switch_name : Text
  pub vlan_id : ℕ
  pub vlan_mode : ℕ
  pub native_vlan_id : ℕ
  pub trunk_vlan_list : List ℕ
  pub primary_vlan_id : ℕ
  pub secondary_vlan_id : ℕ
  pub pvlan_mode : ℕ
  pub secondary_vlan_list : List ℕ
  pub mac_spoofing : Bool
  pub dhcp_guard : Bool
  pub router_guard : Bool
  pub nic_teaming : Bool
  pub port_mirroring : ℕ
  pub ieee_priority_tag : Bool
  pub cluster_monitored : Bool
  pub bandwidth_max_bps : ℕ
  pub bandwidth_min_bps : ℕ
  pub device_naming : Bool
  pub vmq_enabled : Bool
  pub sriov_enabled : Bool
  pub ipsec_offload : Bool
  pub ipsec_offload_max_sa : ℕ
  pub ipv4 : List Text
  pub ipv6 : List Text
  pub connected : Bool

-- The member initializers.
abbrev pub new_adapter : NetworkAdapter
new_adapter = record {
  nic_guid = [];
  name = [];
  mac_address = [];
  dynamic_mac = false;
  switch_name = [];
  vlan_id = 0;
  vlan_mode = 0;
  native_vlan_id = 0;
  trunk_vlan_list = [];
  primary_vlan_id = 0;
  secondary_vlan_id = 0;
  pvlan_mode = 0;
  secondary_vlan_list = [];
  mac_spoofing = false;
  dhcp_guard = false;
  router_guard = false;
  nic_teaming = false;
  port_mirroring = 0;
  ieee_priority_tag = false;
  cluster_monitored = true;
  bandwidth_max_bps = 0;
  bandwidth_min_bps = 0;
  device_naming = false;
  vmq_enabled = false;
  sriov_enabled = false;
  ipsec_offload = false;
  ipsec_offload_max_sa = 512;
  ipv4 = [];
  ipv6 = [];
  connected = false;
}

pub record PortRow : Type 0 where
  pub instance_id : Option Text
  pub element_name : Option Text
  pub address : Option Text
  pub static_mac_address : Option Bool
  pub cluster_monitored : Option Bool
  pub device_naming_enabled : Option Bool

unfoldable pub port_fields : Text → PortRow → NetworkAdapter → NetworkAdapter
port_fields nic r a = record a {
  nic_guid = nic;
  name = value_or [] r.element_name;
  mac_address = value_or [] r.address;
  dynamic_mac = not (value_or true r.static_mac_address);
  cluster_monitored = value_or true r.cluster_monitored;
  device_naming = value_or false r.device_naming_enabled;
}

pub record SwitchRow : Type 0 where
  pub name : Option Text
  pub element_name : Option Text

-- The names of the switches by their identifiers.
unfoldable pub switch_names : List SwitchRow → Map Text → Map Text
switch_names [] names = names
switch_names (r ∷ rs) names =
    let name = value_or [] r.name in
    switch_names rs
      (if is_empty name then names else insert name (value_or [] r.element_name) names)

pub record AllocationRow : Type 0 where
  pub parent : Option Text
  pub enabled_state : Option ℕ
  pub host_resource : List Text

abbrev pub switch_of : Map Text → List Text → Text → Text
switch_of switches [] name = name
switch_of switches (h ∷ hs) name =
    let guid = extract_name_property_from_path h in value_or guid (lookup guid switches)

unfoldable pub allocation_fields : Map Text → AllocationRow → NetworkAdapter → NetworkAdapter
allocation_fields switches r a = record a {
  connected = value_or 0 r.enabled_state == 2;
  switch_name = switch_of switches r.host_resource a.switch_name;
}

pub record VlanRow : Type 0 where
  pub instance_id : Option Text
  pub operation_mode : Option ℕ
  pub access_vlan_id : Option ℕ
  pub native_vlan_id : Option ℕ
  pub trunk_vlan_ids : List ℕ
  pub primary_vlan_id : Option ℕ
  pub secondary_vlan_id : Option ℕ
  pub pvlan_mode : Option ℕ
  pub secondary_vlan_ids : List ℕ

abbrev word16 : ℕ → ℕ
word16 n = n % 2 ^ 16

unfoldable pub vlan_fields : VlanRow → NetworkAdapter → NetworkAdapter
vlan_fields r a =
    let mode = word16 (value_or 0 r.operation_mode) in
    let b = record a { vlan_mode = mode } in
    if mode == 1
    then record b { vlan_id = value_or 0 r.access_vlan_id }
    else if mode == 2
    then record b {
      native_vlan_id = value_or 0 r.native_vlan_id;
      trunk_vlan_list = a.trunk_vlan_list ++ map word16 r.trunk_vlan_ids;
    }
    else if mode == 3
    then record b {
      primary_vlan_id = value_or 0 r.primary_vlan_id;
      secondary_vlan_id = value_or 0 r.secondary_vlan_id;
      pvlan_mode = value_or 0 r.pvlan_mode % 2 ^ 8;
      secondary_vlan_list = a.secondary_vlan_list ++ map word16 r.secondary_vlan_ids;
    }
    else b

pub record SecurityRow : Type 0 where
  pub instance_id : Option Text
  pub allow_mac_spoofing : Option Bool
  pub enable_dhcp_guard : Option Bool
  pub enable_router_guard : Option Bool
  pub allow_teaming : Option Bool
  pub monitor_mode : Option ℕ
  pub allow_ieee_priority_tag : Option Bool

unfoldable pub security_fields : SecurityRow → NetworkAdapter → NetworkAdapter
security_fields r a = record a {
  mac_spoofing = value_or false r.allow_mac_spoofing;
  dhcp_guard = value_or false r.enable_dhcp_guard;
  router_guard = value_or false r.enable_router_guard;
  nic_teaming = value_or false r.allow_teaming;
  port_mirroring = value_or 0 r.monitor_mode % 2 ^ 8;
  ieee_priority_tag = value_or false r.allow_ieee_priority_tag;
}

pub record BandwidthRow : Type 0 where
  pub instance_id : Option Text
  pub limit : Option ℕ
  pub reservation : Option ℕ

unfoldable pub bandwidth_fields : BandwidthRow → NetworkAdapter → NetworkAdapter
bandwidth_fields r a = record a {
  bandwidth_max_bps = value_or 0 r.limit;
  bandwidth_min_bps = value_or 0 r.reservation;
}

pub record OffloadRow : Type 0 where
  pub instance_id : Option Text
  pub vmq_offload_weight : Option ℕ
  pub iov_offload_weight : Option ℕ
  pub ipsec_offload_limit : Option ℕ

unfoldable pub offload_fields : OffloadRow → NetworkAdapter → NetworkAdapter
offload_fields r a =
    let ipsec = value_or 0 r.ipsec_offload_limit in
    record a {
      vmq_enabled = not (value_or 0 r.vmq_offload_weight == 0);
      sriov_enabled = not (value_or 0 r.iov_offload_weight == 0);
      ipsec_offload = not (ipsec == 0);
      ipsec_offload_max_sa = if ipsec == 0 then a.ipsec_offload_max_sa else ipsec;
    }

pub record GuestRow : Type 0 where
  pub instance_id : Option Text
  pub ip_addresses : List Text

-- An address with a colon is one of version 6.
unfoldable pub guest_fields : List Text → NetworkAdapter → NetworkAdapter
guest_fields [] a = a
guest_fields (ip ∷ ips) a = guest_fields ips (
    if is_empty ip
    then a
    else if some_of (λ c. c == 58) ip
    then record a { ipv6 = a.ipv6 ++ ip ∷ [] }
    else record a { ipv4 = a.ipv4 ++ ip ∷ [] })
