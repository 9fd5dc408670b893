-- ===== src/Attempt/Samples.antt =====
-- The data of the runs of the journal of attempts: a capability, its safety cycle, a call and its attempt.
use Prim.Native.String.{◌++◌}
use drive_sanitization_manag.Prelude.{[], ◌∷◌, some, true, false, ok}
use drive_sanitization_manag.Value.{Value}
use drive_sanitization_manag.Files.{Disk, private_stat}
use drive_sanitization_manag.Store.Document.{document}
use drive_sanitization_manag.Samples.{zeros, platform, no_faults}
use drive_sanitization_manag.Executor.Samples.{
  lease_id, authorization_id, identity, private_directory, reserved,
}
use drive_sanitization_manag.Attempt.Record.{ExecutionAttemptRecord, layout}
use drive_sanitization_manag.Attempt.Operations.{Capability, Cycle, build_record}
use drive_sanitization_manag.Attempt.Once.{AttemptCall}

abbrev pub capability : Capability
capability = record {
  active = true;
  execution_authorized = false;
  execution_supported = false;
  executor_eligible = false;
  execution_performed = false;
  lease_consumed = true;
  requires_future_executor = true;
  lease_scope_entered = true;
  authorization_scope_entered = true;
  claim_scope_entered = true;
  lease_is_consumed = true;
  lease_intact = true;
  lease_identity = identity;
  identity = identity;
  lease_binding_id = lease_id;
  authorization_id = authorization_id;
}

abbrev pub cycle : Cycle
cycle = record {
  observed = some "8:0";
  checks_pass = true;
  observed_after = some "8:0";
  current_identity = some identity;
  still_consumed = true;
  still_intact = true;
}

abbrev pub call : AttemptCall
call = record {
  capability = capability;
  cycle = cycle;
  token = zeros;
  now = 0;
  before = ok reserved;
  after = ok reserved;
  faults = no_faults;
  faults_again = no_faults;
}

abbrev pub attempt : ExecutionAttemptRecord
attempt = build_record platform 1000 reserved ("xeattempt_" ++ zeros) 0

-- The directory after the attempt.
abbrev pub attempted_disk : Disk Value
attempted_disk = record private_directory {
  file = some (private_stat 1000, document platform (layout platform) (attempt ∷ []));
}
