-- ===== src/Examples/Adapters.antt =====
-- Concrete runs of the theorems on network adapters: two adapters of one machine, one of them with a VLAN.
use hyprv.Prelude.{ℕ, ◌≡◌, false, none, some, [], ◌∷◌, ◌++◌}
use hyprv.Prelude.Text.{Text, codes}
use hyprv.Vm.AdapterRows.{PortRow, VlanRow}
use hyprv.Vm.Adapters.{Rows, nics_by_vm}
use hyprv.Vm.Adapters.Reference.{adapter_at, own_adapter, nics_by_vm-own}

abbrev machine : Text
machine = codes "11111111-2222-3333-4444-555555555555"

abbrev adapter : Text
adapter = codes "66666666-7777-8888-9999-000000000000"

abbrev second : Text
second = codes "66666666-7777-8888-9999-000000000001"

abbrev id_of : Text → Text
id_of n = codes "Microsoft:" ++ machine ++ 92 ∷ n

abbrev port : Text → PortRow
port n = record {
  instance_id = some (id_of n);
  element_name = some (codes "Network Adapter");
  address = some (codes "00155D013D0F");
  static_mac_address = some false;
  cluster_monitored = none;
  device_naming_enabled = none;
}

abbrev access : Text → ℕ → VlanRow
access n vlan = record {
  instance_id = some (id_of n);
  operation_mode = some 1;
  access_vlan_id = some vlan;
  native_vlan_id = none;
  trunk_vlan_ids = [];
  primary_vlan_id = none;
  secondary_vlan_id = none;
  pvlan_mode = none;
  secondary_vlan_ids = [];
}

abbrev queries : Rows
queries = record {
  ports = port adapter ∷ port second ∷ [];
  switches = record { name = some adapter; element_name = some (codes "Default Switch") } ∷ [];
  allocations = [];
  vlans = access second 7 ∷ access machine 9 ∷ [];
  securities = [];
  bandwidths = [];
  offloads = [];
  guests = record { instance_id = some (id_of adapter); ip_addresses = codes "10.0.0.1" ∷ [] } ∷ [];
}

nics_by_vm-own_example :
    adapter_at machine second (nics_by_vm queries) ≡ own_adapter machine second queries
nics_by_vm-own_example = nics_by_vm-own machine second queries
