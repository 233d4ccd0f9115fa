-- ===== src/State/Records.antt =====
-- internal/state/store.go and schema.go: the persistent envelopes. A Go map is the list of its entries in the
-- order of its keys; a slice that is nil and one that is empty are one list; a time is nil, or its
-- instant. What the code calls of encoding/json, crypto/sha256 and internal/strictjson is a record of parameters.
use mydocker.Base.{
  ℕ, Bool, true, false, not, List, [], Option, none, Result, ok, err, Eq, discrete_eq,
  if◌then◌else◌,
}
use mydocker.Base.Int.{ℤ}
use mydocker.Text.{Text, Text-discrete}
use mydocker.Domain.Sandbox.{Sandbox}
use mydocker.Domain.Container.{ContainerAttempt}
use mydocker.Operation.Target.{OperationId, Target}
use mydocker.Operation.Record.{Operation}
use mydocker.Rollback.Diagnostic.{Cause}
use mydocker.Rollback.Record.{Record}
use mydocker.Ownership.Receipt.{OwnerKey, Receipt, Release}
use mydocker.Provider.Oom.{OomSnapshot}
use mydocker.State.Errors.{Error, invalid_record}

-- The JSON and the digests that the checks of a record compute.
pub record Codec : Type 0 where
  pub token : OperationId → Target → ℕ → Text
  pub encode_receipt : Receipt → Text
  pub decode_receipt : Text → Option Receipt
  pub decodes : Text → Bool
  pub oom_digest : OwnerKey → Text → ℕ → ℕ → ℕ → Text
  pub id_digest : OperationId → Text

abbrev pub schema_version_v1 : ℕ
schema_version_v1 = 1

-- A string in Go: the last constructor stands for the spellings outside the vocabulary.
pub data HostProfile : Type 0 where
  abstract_m1 linux_m2 : HostProfile
  other_profile : Text → HostProfile

unfoldable pub HostProfile-discrete : Discrete HostProfile
unfolding Text-discrete
HostProfile-discrete = hlevel Text-discrete

instance abbrev pub profile_eq : Eq HostProfile
profile_eq = discrete_eq HostProfile-discrete

unfoldable pub is_profile : HostProfile → Bool
is_profile (other_profile _) = false
is_profile _ = true

pub record SandboxRecord : Type 0 where
  pub version : ℕ
  pub revision : ℕ
  pub sandbox : Sandbox
  pub host_resources : List Receipt

pub record ContainerAttemptRecord : Type 0 where
  pub version : ℕ
  pub revision : ℕ
  pub pair : ContainerAttempt
  pub host_resources : List Receipt

pub record OperationRecord : Type 0 where
  pub version : ℕ
  pub revision : ℕ
  pub profile : HostProfile
  pub operation : Operation
  pub cause : Option Cause
  pub oom_baseline : Option OomSnapshot
  pub deadline : Option (Option ℤ)
  pub rollback : List Record
  pub receipts : List Receipt
  pub releases : List Release

abbrev pub new_sandbox_record : Sandbox → SandboxRecord
new_sandbox_record s = record {
  version = schema_version_v1;
  revision = 0;
  sandbox = s;
  host_resources = [];
}

abbrev pub new_container_attempt_record : ContainerAttempt → ContainerAttemptRecord
new_container_attempt_record p = record {
  version = schema_version_v1;
  revision = 0;
  pair = p;
  host_resources = [];
}

abbrev pub new_operation_record : Operation → OperationRecord
new_operation_record o = record {
  version = schema_version_v1;
  revision = 0;
  profile = abstract_m1;
  operation = o;
  cause = none;
  oom_baseline = none;
  deadline = none;
  rollback = [];
  receipts = [];
  releases = [];
}

unfoldable pub new_operation_record_for_profile :
    Operation → HostProfile → Result Error OperationRecord
unfolding is_profile
new_operation_record_for_profile o p =
    if not (is_profile p)
    then err (invalid_record "host profile")
    else ok (record (new_operation_record o) { profile = p })
