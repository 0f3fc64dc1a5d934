-- ===== src/CommandBus/Acceptance.antt =====
-- The node's check of a request (`ValidateCommandRequest`) against the display's check of the command
-- (`DisplayCommand.Validate`), through `Publish` of internal/commandbus/bus.go.
use homepi_mon.Common.{◌≡◌, false, not, ◌||◌, ok}
use homepi_mon.Common.Int.{pos, ltb_ℤ}
use homepi_mon.Protocol.Enums.{command_kind_valid, priority_valid, priority_same}
use homepi_mon.Protocol.Command.{CommandRequest, validate_command_params, default_priority}

record ValidRequest (r : CommandRequest) : Type 0 where
  kind : not (command_kind_valid r.kind) ≡ false
  priority : not (priority_valid r.priority) ≡ false
  same : not (priority_same r.priority (default_priority r.kind)) ≡ false
  ttl : (ltb_ℤ r.ttl_seconds (pos 5) || ltb_ℤ (pos 300) r.ttl_seconds) ≡ false
  params : validate_command_params r.kind r.params ≡ ok tt
