-- ===== src/State/HomeLab.antt =====
-- `ApplyConnectorHomeLab` of internal/state/current.go: a connector's report replaces the nodes and
-- services that it owns.
use homepi_mon.Common.{
  ℕ, suc, ◌+◌, String, Bool, true, false, not, ◌&&◌, ◌||◌, List, [], ◌∷◌, Option, none, some, ltb,
  str_eq, text_mem, length, map, if◌then◌else◌, Result, ok, err, ◌>>◌, refuse,
}
use homepi_mon.Common.Table.{Table, lookup, insert, delete}
use homepi_mon.Protocol.Snapshot.{HomeLabNode, HomeLabService, HomeLabReport}
use homepi_mon.Protocol.Validate.{
  Check, validate_node, validate_service, validate_each, max_homelab_nodes, max_homelab_services,
}
use homepi_mon.State.Current.{
  Current, StateError, no_connector, too_many_entities, invalid, owned_elsewhere, bump,
}

abbrev pub or_previous {ℓ} : {A : Type ℓ} → Option A → Option A → Option A
or_previous none previous = previous
or_previous (some a) previous = some a

-- Values that an offline node does not report stay as they were.
unfoldable pub inherit_node_values : HomeLabNode → HomeLabNode → HomeLabNode
inherit_node_values next previous = record next {
  cpu_percent = or_previous next.cpu_percent previous.cpu_percent;
  memory_percent = or_previous next.memory_percent previous.memory_percent;
  disk_percent = or_previous next.disk_percent previous.disk_percent;
  network_receive_bps = or_previous next.network_receive_bps previous.network_receive_bps;
  network_transmit_bps = or_previous next.network_transmit_bps previous.network_transmit_bps;
}

abbrev pub is_offline : Option Bool → Bool
is_offline (some false) = true
is_offline _ = false

abbrev pub merged : HomeLabNode → Option HomeLabNode → HomeLabNode
merged node none = node
merged node (some previous) =
    if is_offline node.online then inherit_node_values node previous else node

unfoldable pub count_owned : String → List (String × String) → ℕ
count_owned connector [] = 0
count_owned connector ((id, owner) ∷ owners) =
    let n = count_owned connector owners in if str_eq owner connector then suc n else n

abbrev pub foreign : String → Option String → Bool
foreign connector none = false
foreign connector (some owner) = not (str_eq owner connector)

-- The first id of the report that another connector owns.
unfoldable pub owned_by_other : String → Table String → List String → Option String
owned_by_other connector owners [] = none
owned_by_other connector owners (id ∷ ids) =
    if foreign connector (lookup id owners) then some id else owned_by_other connector owners ids

-- The entries of a map whose owner is the connector and which the report lacks go.
unfoldable pub drop_absent {ℓ} :
    {A : Type ℓ} → String → List String → List (String × String) → Table A → Table A
drop_absent connector seen [] t = t
drop_absent connector seen ((id, owner) ∷ owners) t =
    drop_absent connector seen owners
      (if str_eq owner connector && not (text_mem id seen) then delete id t else t)

unfoldable pub insert_nodes : List HomeLabNode → Table HomeLabNode → Table HomeLabNode
unfolding inherit_node_values
insert_nodes [] t = t
insert_nodes (n ∷ ns) t = insert_nodes ns (insert n.id (merged n (lookup n.id t)) t)

unfoldable pub insert_services : List HomeLabService → Table HomeLabService → Table HomeLabService
insert_services [] t = t
insert_services (s ∷ ss) t = insert_services ss (insert s.id s t)

unfoldable pub own_all : String → List String → Table String → Table String
own_all connector [] t = t
own_all connector (id ∷ ids) t = own_all connector ids (insert id connector t)

abbrev pub Verdict : Type 0
Verdict = Result StateError (Unit {0})

abbrev pub as_verdict : Check → Verdict
as_verdict (ok _) = ok tt
as_verdict (err field) = err (invalid field)

abbrev pub not_foreign : Option String → Verdict
not_foreign none = ok tt
not_foreign (some id) = err (owned_elsewhere id)

-- `len(c.nodes) - owned + len(report) > limit`, with the subtraction on the other side.
abbrev pub over_limit : ℕ → ℕ → ℕ → ℕ → Bool
over_limit limit held owned reported = ltb (limit + owned) (held + reported)

-- Every check comes before the first change.
unfoldable pub check_report : Current → String → HomeLabReport → Verdict
check_report c connector r = do
  refuse (str_eq connector "") no_connector
  refuse (ltb max_homelab_nodes (length r.nodes) || ltb max_homelab_services (length r.services))
      too_many_entities
  as_verdict (validate_each validate_node (λ n. n.id) "nodes" [] r.nodes)
  as_verdict (validate_each validate_service (λ s. s.id) "services" [] r.services)
  refuse
      (over_limit max_homelab_nodes (length c.nodes) (count_owned connector c.node_owners)
          (length r.nodes)
        || over_limit max_homelab_services (length c.services)
            (count_owned connector c.service_owners) (length r.services))
      too_many_entities
  not_foreign (owned_by_other connector c.node_owners (map (λ n. n.id) r.nodes))
  not_foreign (owned_by_other connector c.service_owners (map (λ s. s.id) r.services))

unfoldable pub replace_owned : Current → String → HomeLabReport → Current
replace_owned c connector r =
    let node_ids = map (λ n. n.id) r.nodes in
    let service_ids = map (λ s. s.id) r.services in
    record c {
      nodes = insert_nodes r.nodes (drop_absent connector node_ids c.node_owners c.nodes);
      node_owners =
          own_all connector node_ids (drop_absent connector node_ids c.node_owners c.node_owners);
      services =
          insert_services r.services
            (drop_absent connector service_ids c.service_owners c.services);
      service_owners =
          own_all connector service_ids
            (drop_absent connector service_ids c.service_owners c.service_owners);
      version = bump c.version;
    }

abbrev pub after_check : Current → String → HomeLabReport → Verdict → Current × Verdict
after_check c connector r (err e) = (c, err e)
after_check c connector r (ok _) = (replace_owned c connector r, ok tt)

unfoldable pub apply_connector_homelab : Current → String → HomeLabReport → Current × Verdict
apply_connector_homelab c connector r = after_check c connector r (check_report c connector r)
