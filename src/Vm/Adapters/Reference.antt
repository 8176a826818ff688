-- ===== src/Vm/Adapters/Reference.antt =====
-- The adapters of `UpdateAll`, one at a time: what each is made of.
use hyprv.Prelude.{
  value_or, ◌≡◌, refl, sym, ap, ◌∙◌, Bool, true, false, ◌&&◌, Option, none, some, List, [], ◌∷◌,
  if◌then◌else◌, Bool-cases, inl, inr,
}
use hyprv.Prelude.Text.{Text, text_eq, eq_of_text_eq}
use hyprv.Settings.Map.{Map, lookup, insert, lookup-insert}
use hyprv.Vm.Texts.{find_all_guids_in_instance_id}
use hyprv.Vm.AdapterRows.{
  NetworkAdapter, new_adapter, PortRow, port_fields, guest_fields, offload_fields, bandwidth_fields,
  security_fields, vlan_fields, allocation_fields, switch_names,
}
use hyprv.Vm.Adapters.{
  Nics, two_guids, adapters_of, put_adapter, change_adapter, put_ports, stamp_rows, Rows,
  nics_by_vm, guest_id, offload_id, bandwidth_id, security_id, vlan_id, allocation_id,
}

abbrev pub adapter_at : Text → Text → Nics → Option NetworkAdapter
adapter_at v n nics = lookup n (adapters_of v nics)

-- Does an identifier name the machine and the adapter?
abbrev pub names : Text → Text → Text → Bool
names v n iid = elim (two_guids (find_all_guids_in_instance_id iid)) [
  | none ↦ false
  | some (v', n') ↦ text_eq v' v && text_eq n' n
]

abbrev pub mapped {ℓ} : {A : Type ℓ} → (A → A) → Option A → Option A
mapped f none = none
mapped f (some a) = some (f a)

module _ {ℓ} {Row : Type ℓ} (iid : Row → Text)
    (fields : Row → NetworkAdapter → NetworkAdapter) where
  -- The rows of one adapter, in their order.
  unfoldable pub own_rows : Text → Text → List Row → NetworkAdapter → NetworkAdapter
  own_rows v n [] a = a
  own_rows v n (r ∷ rs) a = own_rows v n rs (if names v n (iid r) then fields r a else a)

-- The adapter after the adapters of one machine are written.
insert_lem :
    (v n v' : Text) (m : Map NetworkAdapter) (nics : Nics)
    → adapter_at v n (insert v' m nics) ≡ (if text_eq v' v then lookup n m else adapter_at v n nics)
insert_lem v n v' m nics =
    ap (λ o. lookup n (value_or [] o)) (lookup-insert v' v m nics)
    ∙ elim (Bool-cases (text_eq v' v)) [ inl e ↦ rw (e) refl | inr e ↦ rw (e) refl ]

changed : Text → (NetworkAdapter → NetworkAdapter) → Map NetworkAdapter → Map NetworkAdapter
changed n' f m = elim (lookup n' m) [ none ↦ m | some a ↦ insert n' (f a) m ]

lookup-changed :
    (n n' : Text) (f : NetworkAdapter → NetworkAdapter) (m : Map NetworkAdapter)
    → lookup n (changed n' f m) ≡ (if text_eq n' n then mapped f (lookup n m) else lookup n m)
unfolding changed
lookup-changed n n' f m = of_found (lookup n' m) refl
  where
    of_found :
        (o : Option NetworkAdapter)
        → lookup n' m ≡ o
        → lookup n (elim o [ none ↦ m | some a ↦ insert n' (f a) m ])
          ≡ (if text_eq n' n then mapped f (lookup n m) else lookup n m)
    of_found none h = elim (Bool-cases (text_eq n' n)) [
      | inl e ↦ rw (e, sym (eq_of_text_eq n' n e), h) refl
      | inr e ↦ rw (e) refl
    ]
    of_found (some a) h = elim (Bool-cases (text_eq n' n)) [
      | inl e ↦ rw (lookup-insert n' n (f a) m, e, sym (eq_of_text_eq n' n e), h) refl
      | inr e ↦ rw (lookup-insert n' n (f a) m, e) refl
    ]

change_lem :
    (v n v' n' : Text) (f : NetworkAdapter → NetworkAdapter) (nics : Nics)
    → adapter_at v n (change_adapter v' n' f nics) ≡ (
        if text_eq v' v && text_eq n' n
        then mapped f (adapter_at v n nics)
        else adapter_at v n nics)
unfolding change_adapter changed
change_lem v n v' n' f nics = elim (Bool-cases (text_eq v' v)) [
  | inl e ↦
      rw (insert_lem v n v' (changed n' f (adapters_of v' nics)) nics, e, eq_of_text_eq v' v e)
        (lookup-changed n n' f (adapters_of v nics))
  | inr e ↦ rw (insert_lem v n v' (changed n' f (adapters_of v' nics)) nics, e) refl
]

put_lem :
    (v n v' n' : Text) (f : NetworkAdapter → NetworkAdapter) (nics : Nics)
    → adapter_at v n (put_adapter v' n' f nics) ≡ (
        if text_eq v' v && text_eq n' n
        then some (f (value_or new_adapter (adapter_at v n nics)))
        else adapter_at v n nics)
unfolding put_adapter
put_lem v n v' n' f nics = elim (Bool-cases (text_eq v' v)) [
  | inl e ↦
      rw (insert_lem v n v' (insert n' new (adapters_of v' nics)) nics, e, eq_of_text_eq v' v e)
        in_machine
  | inr e ↦ rw (insert_lem v n v' (insert n' new (adapters_of v' nics)) nics, e) refl
]
  where
    new : NetworkAdapter
    new = f (value_or new_adapter (adapter_at v' n' nics))

    in_machine :
        lookup n (insert n' (f (value_or new_adapter (adapter_at v n' nics))) (adapters_of v nics))
        ≡ (if text_eq n' n
            then some (f (value_or new_adapter (adapter_at v n nics)))
            else adapter_at v n nics)
    in_machine = elim (Bool-cases (text_eq n' n)) [
      | inl e ↦
          rw
            (
              lookup-insert n' n (f (value_or new_adapter (adapter_at v n' nics)))
                  (adapters_of v nics),
              e,
              eq_of_text_eq n' n e,
            )
            refl
      | inr e ↦
          rw
            (
              lookup-insert n' n (f (value_or new_adapter (adapter_at v n' nics)))
                  (adapters_of v nics),
              e,
            )
            refl
    ]

-- What the port rows make of an adapter: only those that name it, if there are any.
unfoldable pub ports_at : Text → Text → List PortRow → Option NetworkAdapter → Option NetworkAdapter
ports_at v n [] o = o
ports_at v n (r ∷ rs) o = ports_at v n rs (
    if names v n (value_or [] r.instance_id)
    then some (port_fields n r (value_or new_adapter o))
    else o)

pub put_ports-at :
    (v n : Text) (rs : List PortRow) (nics : Nics)
    → adapter_at v n (put_ports rs nics) ≡ ports_at v n rs (adapter_at v n nics)
unfolding put_ports ports_at
put_ports-at v n [] nics = refl
put_ports-at v n (r ∷ rs) nics =
    put_ports-at v n rs
      (elim (two_guids (find_all_guids_in_instance_id (value_or [] r.instance_id))) [
        | none ↦ nics
        | some (v', n') ↦ put_adapter v' n' (port_fields n' r) nics
      ])
    ∙ ap (ports_at v n rs)
        (of_guids (two_guids (find_all_guids_in_instance_id (value_or [] r.instance_id))))
  where
    of_guids :
        (o : Option (Text × Text))
        → adapter_at v n
            (elim o [ none ↦ nics | some (v', n') ↦ put_adapter v' n' (port_fields n' r) nics ])
          ≡ (if elim o [ none ↦ false | some (v', n') ↦ text_eq v' v && text_eq n' n ]
              then some (port_fields n r (value_or new_adapter (adapter_at v n nics)))
              else adapter_at v n nics)
    of_guids none = refl
    of_guids (some (v', n')) = elim (Bool-cases (text_eq n' n)) [
      | inl e ↦ rw (put_lem v n v' n' (port_fields n' r) nics, eq_of_text_eq n' n e) refl
      | inr e ↦
          put_lem v n v' n' (port_fields n' r) nics
          ∙ elim (Bool-cases (text_eq v' v)) [ inl g ↦ rw (g, e) refl | inr g ↦ rw (g) refl ]
    ]

mapped_self {ℓ} : {A : Type ℓ} (o : Option A) → o ≡ mapped (λ a. a) o
mapped_self none = refl
mapped_self (some a) = refl

mapped_if {ℓ} :
    {A : Type ℓ} (b : Bool) (f g : A → A) (o : Option A)
    → mapped g (if b then mapped f o else o) ≡ mapped (λ a. g (if b then f a else a)) o
mapped_if true f g none = refl
mapped_if true f g (some a) = refl
mapped_if false f g none = refl
mapped_if false f g (some a) = refl

pub stamp_rows-at {ℓ} :
    {Row : Type ℓ} (iid : Row → Text) (fields : Row → NetworkAdapter → NetworkAdapter)
    → (v n : Text) (rs : List Row) (nics : Nics)
    → adapter_at v n (stamp_rows iid fields rs nics)
      ≡ mapped (own_rows iid fields v n rs) (adapter_at v n nics)
unfolding stamp_rows own_rows
stamp_rows-at iid fields v n [] nics = mapped_self (adapter_at v n nics)
stamp_rows-at iid fields v n (r ∷ rs) nics =
    stamp_rows-at iid fields v n rs (elim (two_guids (find_all_guids_in_instance_id (iid r))) [
      | none ↦ nics
      | some (v', n') ↦ change_adapter v' n' (fields r) nics
    ])
    ∙ ap (mapped (own_rows iid fields v n rs))
        (of_guids (two_guids (find_all_guids_in_instance_id (iid r))))
    ∙ mapped_if (names v n (iid r)) (fields r) (own_rows iid fields v n rs) (adapter_at v n nics)
  where
    of_guids :
        (o : Option (Text × Text))
        → adapter_at v n
            (elim o [ none ↦ nics | some (v', n') ↦ change_adapter v' n' (fields r) nics ])
          ≡ (if elim o [ none ↦ false | some (v', n') ↦ text_eq v' v && text_eq n' n ]
              then mapped (fields r) (adapter_at v n nics)
              else adapter_at v n nics)
    of_guids none = refl
    of_guids (some (v', n')) = change_lem v n v' n' (fields r) nics

-- An adapter as its own rows make it.
unfoldable pub own_adapter : Text → Text → Rows → Option NetworkAdapter
own_adapter v n q = mapped (own_rows guest_id (λ r. guest_fields r.ip_addresses) v n q.guests) (
    mapped (own_rows offload_id offload_fields v n q.offloads) (
      mapped (own_rows bandwidth_id bandwidth_fields v n q.bandwidths) (
        mapped (own_rows security_id security_fields v n q.securities) (
          mapped (own_rows vlan_id vlan_fields v n q.vlans) (
            mapped
              (own_rows allocation_id (allocation_fields (switch_names q.switches [])) v n
                q.allocations)
              (ports_at v n q.ports none))))))

on_top {ℓ} :
    {Row : Type ℓ} (iid : Row → Text) (fields : Row → NetworkAdapter → NetworkAdapter) (v n : Text)
    → (rs : List Row) (nics : Nics) {o : Option NetworkAdapter} → adapter_at v n nics ≡ o
    → adapter_at v n (stamp_rows iid fields rs nics) ≡ mapped (own_rows iid fields v n rs) o
on_top iid fields v n rs nics h =
    stamp_rows-at iid fields v n rs nics ∙ ap (mapped (own_rows iid fields v n rs)) h

-- For every machine and adapter and all rows: what the queries together leave of the adapter is what its
-- own rows make of it, taken alone: the port rows that name it, and then, if there is one, the rows of each
-- other query that name it, in the order of the queries.
pub nics_by_vm-own : (v n : Text) (q : Rows) → adapter_at v n (nics_by_vm q) ≡ own_adapter v n q
unfolding nics_by_vm own_adapter lookup
nics_by_vm-own v n q =
    on_top guest_id (λ r. guest_fields r.ip_addresses) v n q.guests _
      (on_top offload_id offload_fields v n q.offloads _ (
        on_top bandwidth_id bandwidth_fields v n q.bandwidths _ (
          on_top security_id security_fields v n q.securities _ (
            on_top vlan_id vlan_fields v n q.vlans _ (
              on_top allocation_id (allocation_fields (switch_names q.switches [])) v n
                q.allocations _ (put_ports-at v n q.ports []))))))
