-- ===== src/State/Ownership.antt =====
-- Nodes and services of other connectors in `ApplyConnectorHomeLab` of internal/state/current.go.
use homepi_mon.Common.{◌≡◌, String, Bool, true, not, ◌&&◌, List, [], ◌∷◌, str_eq}
use homepi_mon.Common.Table.{Table, lookup}
use homepi_mon.State.Current.{Current}

-- No entry gives the id to the connector.
abbrev unowned : String → String → List (String × String) → Bool
unowned connector id [] = true
unowned connector id ((other, owner) ∷ owners) =
    not (str_eq other id && str_eq owner connector) && unowned connector id owners

-- The node with an id and its owner are the same in two states.
pub record SameNode (id : String) (c d : Current) : Type 0 where
  pub node : lookup id d.nodes ≡ lookup id c.nodes
  pub owner : lookup id d.node_owners ≡ lookup id c.node_owners

pub record SameService (id : String) (c d : Current) : Type 0 where
  pub service : lookup id d.services ≡ lookup id c.services
  pub owner : lookup id d.service_owners ≡ lookup id c.service_owners
