-- ===== src/Vm/Adapters.antt =====
-- The network adapters of the machines, put together by `UpdateAll` of src/app/vm/VMManager.cpp from the
-- rows of eight queries: those that were read before a query failed.
use hyprv.Prelude.{
  value_or, ℕ, ◌%◌, ◌^◌, Bool, true, false, not, Option, none, some, List, [], ◌∷◌, ◌++◌, map, ◌==◌,
  if◌then◌else◌, is_empty, some_of,
}
use hyprv.Prelude.Text.{Text}
use hyprv.Settings.Map.{Map, lookup, insert}
use hyprv.Vm.Texts.{find_all_guids_in_instance_id, extract_instance_id_from_path}
use hyprv.Vm.AdapterRows.{
  NetworkAdapter, new_adapter, PortRow, port_fields, SwitchRow, switch_names, AllocationRow,
  allocation_fields, VlanRow, vlan_fields, SecurityRow, security_fields, BandwidthRow,
  bandwidth_fields, OffloadRow, offload_fields, GuestRow, guest_fields,
}
pub mod Reference

abbrev pub Nics : Type 0
Nics = Map (Map NetworkAdapter)

-- The identifiers of the machine and of the adapter, if the row's identifier has both.
abbrev pub two_guids : List Text → Option (Text × Text)
two_guids [] = none
two_guids (v ∷ []) = none
two_guids (v ∷ n ∷ rest) = some (v, n)

abbrev pub adapters_of : Text → Nics → Map NetworkAdapter
adapters_of v nics = value_or [] (lookup v nics)

-- `nicsByVm[v][n]`, made if it is not there.
unfoldable pub put_adapter : Text → Text → (NetworkAdapter → NetworkAdapter) → Nics → Nics
put_adapter v n f nics =
    let m = adapters_of v nics in insert v (insert n (f (value_or new_adapter (lookup n m))) m) nics

-- `nicsByVm[v]`, and `find` in it.
unfoldable pub change_adapter : Text → Text → (NetworkAdapter → NetworkAdapter) → Nics → Nics
change_adapter v n f nics =
    let m = adapters_of v nics in
    insert v (elim (lookup n m) [ none ↦ m | some a ↦ insert n (f a) m ]) nics

unfoldable pub put_ports : List PortRow → Nics → Nics
put_ports [] nics = nics
put_ports (r ∷ rs) nics =
    put_ports rs (elim (two_guids (find_all_guids_in_instance_id (value_or [] r.instance_id))) [
      | none ↦ nics
      | some (v, n) ↦ put_adapter v n (port_fields n r) nics
    ])

-- The walk over the rows of another query.
unfoldable pub stamp_rows {ℓ} :
    {Row : Type ℓ} → (Row → Text) → (Row → NetworkAdapter → NetworkAdapter) → List Row → Nics → Nics
stamp_rows iid fields [] nics = nics
stamp_rows iid fields (r ∷ rs) nics =
    stamp_rows iid fields rs (elim (two_guids (find_all_guids_in_instance_id (iid r))) [
      | none ↦ nics
      | some (v, n) ↦ change_adapter v n (fields r) nics
    ])

pub record Rows : Type 0 where
  pub ports : List PortRow
  pub switches : List SwitchRow
  pub allocations : List AllocationRow
  pub vlans : List VlanRow
  pub securities : List SecurityRow
  pub bandwidths : List BandwidthRow
  pub offloads : List OffloadRow
  pub guests : List GuestRow

abbrev pub allocation_id : AllocationRow → Text
allocation_id r = extract_instance_id_from_path (value_or [] r.parent)

abbrev pub guest_id : GuestRow → Text
guest_id r = value_or [] r.instance_id

abbrev pub offload_id : OffloadRow → Text
offload_id r = value_or [] r.instance_id

abbrev pub bandwidth_id : BandwidthRow → Text
bandwidth_id r = value_or [] r.instance_id

abbrev pub security_id : SecurityRow → Text
security_id r = value_or [] r.instance_id

abbrev pub vlan_id : VlanRow → Text
vlan_id r = value_or [] r.instance_id

-- The queries in their order.
unfoldable pub nics_by_vm : Rows → Nics
nics_by_vm q =
    stamp_rows guest_id (λ r. guest_fields r.ip_addresses) q.guests
      (stamp_rows offload_id offload_fields q.offloads (
        stamp_rows bandwidth_id bandwidth_fields q.bandwidths (
          stamp_rows security_id security_fields q.securities (
            stamp_rows vlan_id vlan_fields q.vlans (
              stamp_rows allocation_id (allocation_fields (switch_names q.switches []))
                q.allocations (put_ports q.ports []))))))
