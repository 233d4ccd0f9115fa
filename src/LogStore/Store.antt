-- ===== src/LogStore/Store.antt =====
-- internal/logstore/store.go, newFrame and Append. The file is the list of its bytes. Whether the writes and
-- synchronizations of an append succeed is an argument; the locks are not modelled, and a number of bytes is a
-- natural number, with the bound of int64 written out.
pub mod Crash
use mydocker.Base.{
  ℕ, ◌+◌, ◌-◌, ◌^◌, Bool, true, false, not, ◌||◌, List, [], ◌∷◌, ◌++◌, Result, ok, err, fail_if,
  ◌>>◌, ◌>>=◌, length, take, ltb, nat_beq, is_empty,
}
use mydocker.LogStore.Frame.{
  Error, invalid_frame, closed_store, append_unavailable, exhausted, Stream, stdout, stderr,
  other_stream, is_stream, Identity, Frame, encode_hex, log_schema_version, max_payload_bytes,
}
use mydocker.LogStore.Codec.{encode_frame, frame_commit_bytes}
use mydocker.LogStore.Scan.{max_uint64}

pub record Store : Type 0 where
  pub identity : Identity
  pub file : List ℕ
  pub last_cursor : ℕ
  pub last_stdout : ℕ
  pub last_stderr : ℕ
  pub confirmed_size : ℕ
  pub closed : Bool
  pub poisoned : Bool

abbrev pub stored_sequence : Store → Stream → ℕ
stored_sequence s stdout = s.last_stdout
stored_sequence s stderr = s.last_stderr
stored_sequence s (other_stream _) = 0

abbrev pub with_stored_sequence : Store → Stream → ℕ → Store
with_stored_sequence s stdout n = record s { last_stdout = n }
with_stored_sequence s stderr n = record s { last_stderr = n }
with_stored_sequence s (other_stream _) n = s

-- All writes and synchronizations succeed; or one fails once so many bytes of the record are in the file; or one
-- behind the body fails, and these bytes stand in the file in place of the commit marker.
pub data Landing : Type 0 where
  lands : Landing
  fails_after : ℕ → Landing
  damages : List ℕ → Landing

module _ (sha256 : List ℕ → List ℕ) where
  abbrev pub new_frame : Identity → Stream → ℕ → ℕ → List ℕ → Frame
  new_frame identity stream cursor sequence payload = record {
    version = log_schema_version;
    identity = identity;
    stream = stream;
    cursor = cursor;
    sequence = sequence;
    payload = payload;
    payload_sha256 = encode_hex (sha256 payload);
  }

  abbrev pub next_frame : Store → Stream → List ℕ → Frame
  next_frame s stream payload =
      new_frame s.identity stream (s.last_cursor + 1) (stored_sequence s stream + 1) payload

  -- Append up to its first write: the bytes of the record.
  unfoldable pub check_append : Store → Stream → List ℕ → Result Error (List ℕ)
  unfolding encode_frame encode_hex
  check_append s stream payload = do
    fail_if s.closed closed_store
    fail_if s.poisoned append_unavailable
    fail_if (not (is_stream stream)) (invalid_frame "stream")
    fail_if (is_empty payload) (invalid_frame "payload")
    fail_if (ltb max_payload_bytes (length payload)) (invalid_frame "payload")
    fail_if (nat_beq s.last_cursor max_uint64 || nat_beq (stored_sequence s stream) max_uint64)
        exhausted
    encoded ← encode_frame sha256 (next_frame s stream payload)
    fail_if (ltb (2 ^ 63 - 1 - length encoded) s.confirmed_size) exhausted
    ok encoded

  unfoldable pub write_record : Store → Frame → List ℕ → Landing → Store × Result Error Frame
  write_record s frame encoded (fails_after count) =
      (record s { file = s.file ++ take count encoded; poisoned = true }, err append_unavailable)
  write_record s frame encoded (damages commit) = (
    record s {
      file = s.file ++ (take (length encoded - frame_commit_bytes) encoded ++ commit);
      poisoned = true;
    },
    err append_unavailable,
  )
  write_record s frame encoded lands = (
    with_stored_sequence
        (record s {
          file = s.file ++ encoded;
          last_cursor = frame.cursor;
          confirmed_size = s.confirmed_size + length encoded;
        })
        frame.stream frame.sequence,
    ok frame,
  )

  unfoldable pub append_frame : Store → Stream → List ℕ → Landing → Store × Result Error Frame
  unfolding check_append write_record
  append_frame s stream payload landing = elim (check_append s stream payload) [
    | err e ↦ (s, err e)
    | ok encoded ↦ write_record s (next_frame s stream payload) encoded landing
  ]
