-- ===== src/CommandBus/Steps.antt =====
-- The calls of internal/commandbus/bus.go and the lifecycle of Lifecycle.antt.
use homepi_mon.Common.{List}
use homepi_mon.CommandBus.Entries.{Entry}
use homepi_mon.CommandBus.Lifecycle.{Evolves}
use homepi_mon.CommandBus.{Recording, recorded}

abbrev Records : List Entry → Recording → Type 0
Records es (recorded e fs first) = Evolves es fs
Records es _ = Unit {0}
