-- ===== src/Domain/SandboxSpec.antt =====
-- internal/domain/model.go, the create-time description of a Sandbox. A map of labels is a list of
-- its entries: each iteration order gives the same answer.
use mydocker.Base.{
  ℕ, ◌+◌, not, ◌||◌, List, [], ◌∷◌, ok, fail_if, ◌>>◌, is_empty, length, ltb, if◌then◌else◌,
}
use mydocker.Text.{Text, contains_nul, valid_utf8}
use mydocker.Text.Trim.{is_blank}
use mydocker.Text.Address.{is_ip}
use mydocker.Domain.Errors.{ErrorCode, Field, Check, invalid, new_error}
use mydocker.Domain.Resources.{Resources, validate_resources}

pub record NetworkIntent : Type 0 where
  pub mode : Text
  pub attachments : List Text

-- The loop over the attachments, with the index of the next one.
abbrev pub validate_attachments : ℕ → List Text → Check
validate_attachments index [] = ok tt
validate_attachments index (a ∷ rest) = do
  fail_if (is_blank a || contains_nul a)
      (new_error ErrorCode.invalid_argument (Field.indexed "network.attachments" index))
  validate_attachments (index + 1) rest

unfoldable pub validate_network : NetworkIntent → Check
validate_network n = do
  fail_if (contains_nul n.mode) (invalid "network.mode")
  validate_attachments 0 n.attachments

pub record SandboxSpec : Type 0 where
  pub hostname : Text
  pub dns : List Text
  pub labels : List (Text × Text)
  pub network : NetworkIntent
  pub resources : Resources

abbrev pub max_sandbox_hostname_bytes : ℕ
max_sandbox_hostname_bytes = 64

abbrev pub max_sandbox_dns_servers : ℕ
max_sandbox_dns_servers = 3

unfoldable pub validate_sandbox_hostname : Text → Check
validate_sandbox_hostname hostname =
    if is_empty hostname
    then ok tt
    else fail_if
        (ltb max_sandbox_hostname_bytes (length hostname)
          || not (valid_utf8 hostname)
          || contains_nul hostname)
        (invalid "hostname")

-- The loop over the servers, with the index of the next one.
abbrev pub validate_servers : ℕ → List Text → Check
validate_servers index [] = ok tt
validate_servers index (s ∷ ss) = do
  fail_if (not (is_ip s)) (new_error ErrorCode.invalid_argument (Field.indexed "dns" index))
  validate_servers (index + 1) ss

unfoldable pub validate_sandbox_dns : List Text → Check
validate_sandbox_dns servers = do
  fail_if (ltb max_sandbox_dns_servers (length servers)) (invalid "dns")
  validate_servers 0 servers

abbrev pub validate_labels : List (Text × Text) → Check
validate_labels [] = ok tt
validate_labels ((key, value) ∷ labels) = do
  fail_if (is_blank key || contains_nul key || contains_nul value) (invalid "labels")
  validate_labels labels

unfoldable pub validate_spec : SandboxSpec → Check
unfolding validate_sandbox_hostname validate_sandbox_dns validate_network
validate_spec s = do
  validate_sandbox_hostname s.hostname
  validate_sandbox_dns s.dns
  validate_labels s.labels
  validate_network s.network
  validate_resources s.resources
