-- ===== src/Executor/Samples.antt =====
-- The data of the runs of the store of authorizations: a completed gate, its handoff, a lease and calls.
use Prim.Native.String.{◌++◌}
use drive_sanitization_manag.Prelude.{[], ◌∷◌, some, String}
use drive_sanitization_manag.Value.{Value, pos}
use drive_sanitization_manag.Files.{Kind, Disk, private_stat}
use drive_sanitization_manag.Auth.Types.{DurableExecutionGateJournalEntry}
use drive_sanitization_manag.Auth.Journal
use drive_sanitization_manag.Auth.Journal.Document.{document}
use drive_sanitization_manag.Samples.{zeros, hash, early, platform, no_faults, directory}
use drive_sanitization_manag.Executor.Record.{ExecutorAuthorizationRecord}
use drive_sanitization_manag.Executor.Operations.{
  Provenance, Identity, authorized_record, reserved_record,
}
use drive_sanitization_manag.Executor.Live.{Handoff, Scope, provenance_of}
use drive_sanitization_manag.Executor.Once.{StoreCall, authorize_call, reserve_call}

abbrev pub lease_id : String
lease_id = "xeli_" ++ zeros

abbrev pub authorization_id : String
authorization_id = "xeauth_" ++ zeros

abbrev pub identity : Identity
identity = record {
  handoff_id = "handoff-1";
  target_path = "/dev/sdx";
  target_major_minor = "8:0";
  target_binding_hash = hash;
}

abbrev pub scope : Scope
scope = record { identity = identity; lease_binding_id = lease_id }

abbrev pub handoff : Handoff
handoff = record {
  handoff_id = "handoff-1";
  gate_id = "xgate_" ++ zeros;
  binding_id = "xeb_" ++ zeros;
  journal_policy_version = Journal.policy_version;
  journal_schema_version = pos 1;
  journal_state = Journal.state_completed;
  journal_entry_hash = hash;
  approval_id = "approval-1";
  request_id = "request-1";
  request_hash = hash;
  record_snapshot_hash = hash;
  internal_record_id = "record-1";
  method_profile_id = "profile";
  operation = "clear";
  target_binding_hash = hash;
}

abbrev pub completed : DurableExecutionGateJournalEntry
completed = record {
  binding_id = "xeb_" ++ zeros;
  request_hash = hash;
  record_snapshot_hash = hash;
  target_binding_hash = hash;
  state = Journal.state_completed;
  reserved_at_utc = early;
  completed_at_utc = some early;
  gate_id = some ("xgate_" ++ zeros);
  entry_hash = hash;
}

-- The directory of the gate's journal, and an empty private one.
abbrev pub journal : Disk Value
journal = record directory { file = some (private_stat 1000, document platform (completed ∷ [])) }

abbrev pub private_directory : Disk Value
private_directory = record directory {
  parent = some (record { kind = Kind.directory; uid = 1000; nlink = 2; mode = 0o700 });
}

abbrev pub provenance : Provenance
provenance = provenance_of handoff scope

abbrev pub authorizing_call : StoreCall
authorizing_call = authorize_call provenance (zeros ∷ []) (some 0) no_faults

abbrev pub reserving_call : StoreCall
reserving_call = reserve_call authorization_id lease_id identity (some 60000000) no_faults

abbrev pub authorized : ExecutorAuthorizationRecord
authorized = authorized_record platform 1000 provenance authorization_id 0

abbrev pub reserved : ExecutorAuthorizationRecord
reserved = reserved_record platform 1000 authorized 60000000
