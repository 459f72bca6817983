-- ===== src/Commands/Policy/Selected.antt =====
-- The policy commands as src/tpm/commands/mod.rs selects them.
use swtrust.Crypto.Hash.{Crypto}
use swtrust.Pcr.Banks.{PcrBanks}
use swtrust.Commands.Request.{Request}
use swtrust.Commands.Policy.Frame.{Handler}
use swtrust.Commands.Policy.Handlers.{
  policy_restart, policy_or, policy_pcr, policy_locality, policy_command_code,
  policy_physical_presence, policy_cp_hash, policy_name_hash, policy_duplication_select,
  policy_auth_value, policy_password, policy_get_digest, policy_nv_written, policy_template,
  policy_parameters,
}

-- The commands whose handlers Commands/Policy/Handlers has: fifteen of the rows from PolicyRestart to
-- PolicyParameters. The rows between them of PolicySigned, PolicySecret, PolicyTicket, PolicyNV,
-- PolicyCounterTimer, PolicyAuthorize, PolicyAuthorizeNV and PolicyCapability have no constructor.
pub data PolicyCommand : Type 0 where
  restart : PolicyCommand
  or_branches : PolicyCommand
  pcr : PolicyCommand
  locality : PolicyCommand
  command_code : PolicyCommand
  physical_presence : PolicyCommand
  cp_hash : PolicyCommand
  name_hash : PolicyCommand
  duplication_select : PolicyCommand
  auth_value : PolicyCommand
  password : PolicyCommand
  get_digest : PolicyCommand
  nv_written : PolicyCommand
  template : PolicyCommand
  parameters : PolicyCommand

-- Their rows in `dispatch` of src/tpm/commands/mod.rs.
unfoldable pub run : Crypto → PcrBanks → PolicyCommand → Request → Handler
run c banks restart request = policy_restart c request
run c banks or_branches request = policy_or c request
run c banks pcr request = policy_pcr c banks request
run c banks locality request = policy_locality c request
run c banks command_code request = policy_command_code c request
run c banks physical_presence request = policy_physical_presence c request
run c banks cp_hash request = policy_cp_hash c request
run c banks name_hash request = policy_name_hash c request
run c banks duplication_select request = policy_duplication_select c request
run c banks auth_value request = policy_auth_value c request
run c banks password request = policy_password c request
run c banks get_digest request = policy_get_digest request
run c banks nv_written request = policy_nv_written c request
run c banks template request = policy_template c request
run c banks parameters request = policy_parameters c request
