-- ===== src/LogStore/Codec.antt =====
-- internal/logstore/format.go. The bytes are laid out one after the other, at the offsets where the code copies them; the
-- three reserved ones are zero. SHA-256 of a payload and of a record is the parameter `sha256`.
pub mod RoundTrip
pub mod Laws
use mydocker.Base.{
  ◌*◌, ℕ, ◌+◌, ◌-◌, ◌^◌, Bool, true, false, not, ◌||◌, ◌==◌, List, [], ◌∷◌, ◌++◌, Result, ok, err,
  fail_if, ◌>>◌, ◌>>=◌, length, drop, take, if◌then◌else◌, ltb, nat_beq,
}
use mydocker.Text.{Text, text_eq, bytes}
use mydocker.LogStore.Bytes.{put_uint, get_uint, slice}
use mydocker.LogStore.Frame.{
  Error, unsupported_schema, corrupt, invalid_frame, Check, Stream, stdout, stderr, other_stream,
  Frame, log_schema_version, max_payload_bytes, encode_hex, validate_frame,
}

abbrev pub frame_fixed_bytes : ℕ
frame_fixed_bytes = 68

abbrev pub frame_prefix_bytes : ℕ
frame_prefix_bytes = 48

abbrev pub frame_commit_bytes : ℕ
frame_commit_bytes = 40

abbrev pub max_identity_bytes : ℕ
max_identity_bytes = 128

abbrev pub frame_magic : List ℕ
frame_magic = bytes "MDLG"

abbrev pub frame_commit_magic : List ℕ
frame_commit_magic = bytes "MDLGCMT1"

unfoldable pub encode_stream : Stream → Result Error ℕ
encode_stream stdout = ok 1
encode_stream stderr = ok 2
encode_stream (other_stream _) = err (invalid_frame "stream")

unfoldable pub decode_stream : ℕ → Result Error Stream
decode_stream code =
    if nat_beq code 1
    then ok stdout
    else if nat_beq code 2
    then ok stderr
    else err (corrupt "stream")

abbrev pub body_length : Frame → ℕ
body_length frame =
    frame_fixed_bytes
    + length frame.identity.container_id
    + length frame.identity.attempt_id
    + length frame.payload

abbrev pub max_frame_body_bytes : ℕ
max_frame_body_bytes = frame_fixed_bytes + 2 * max_identity_bytes + max_payload_bytes

-- An identity of a length that the format has.
abbrev pub is_identity_length : ℕ → Bool
is_identity_length n = not (nat_beq n 0 || ltb max_identity_bytes n)

abbrev pub length_prefix : ℕ → List ℕ
length_prefix n = put_uint 8 n ++ put_uint 8 (2 ^ 64 - 1 - n)

module _ (sha256 : List ℕ → List ℕ) where
  unfoldable pub encode_body : Frame → ℕ → List ℕ
  unfolding put_uint
  encode_body frame code =
      frame_magic
      ++ put_uint 4 frame.version
      ++ put_uint 2 (length frame.identity.container_id)
      ++ put_uint 2 (length frame.identity.attempt_id)
      ++ (code ∷ 0 ∷ 0 ∷ 0 ∷ [])
      ++ put_uint 8 frame.cursor
      ++ put_uint 8 frame.sequence
      ++ put_uint 4 (length frame.payload)
      ++ sha256 frame.payload
      ++ (frame.identity.container_id ++ (frame.identity.attempt_id ++ frame.payload))

  -- digestRecord
  abbrev pub digest_record : List ℕ → List ℕ → List ℕ
  digest_record prefix body = sha256 (prefix ++ body)

  -- The prefix, the body and the commit of a record.
  abbrev pub record_bytes : List ℕ → List ℕ → List ℕ
  record_bytes prefix body =
      prefix
      ++ (digest_record prefix body ++ (body ++ (frame_commit_magic ++ digest_record prefix body)))

  unfoldable pub encode_frame : Frame → Result Error (List ℕ)
  unfolding validate_frame encode_stream encode_body put_uint
  encode_frame frame = do
    validate_frame sha256 frame
    code ← encode_stream frame.stream
    ok (record_bytes (length_prefix (body_length frame)) (encode_body frame code))

-- What decodeFrame reads of a body that has the fixed bytes, and the bytes behind these.
pub record Fields : Type 0 where
  pub size : ℕ
  pub magic : List ℕ
  pub schema : ℕ
  pub container_length : ℕ
  pub attempt_length : ℕ
  pub code : ℕ
  pub reserved : List ℕ
  pub cursor : ℕ
  pub sequence : ℕ
  pub payload_length : ℕ
  pub digest : List ℕ
  pub rest : List ℕ

unfoldable pub read_fields : List ℕ → Fields
unfolding get_uint
read_fields body = record {
  size = length body;
  magic = slice 0 4 body;
  schema = get_uint (slice 4 8 body);
  container_length = get_uint (slice 8 10 body);
  attempt_length = get_uint (slice 10 12 body);
  code = get_uint (slice 12 13 body);
  reserved = slice 13 16 body;
  cursor = get_uint (slice 16 24 body);
  sequence = get_uint (slice 24 32 body);
  payload_length = get_uint (slice 32 36 body);
  digest = slice 36 68 body;
  rest = drop frame_fixed_bytes body;
}

abbrev pub or_corrupt : Check → Check
or_corrupt (ok _) = ok tt
or_corrupt (err _) = err (corrupt "frame")

module _ (sha256 : List ℕ → List ℕ) where
  -- The frame of the fields and the three pieces of the rest.
  unfoldable pub assemble : Fields → Stream → Text → Text → List ℕ → Result Error Frame
  unfolding encode_hex validate_frame
  assemble fields stream container attempt payload = do
    fail_if (not (fields.digest == sha256 payload)) (corrupt "payload checksum")
    let frame : Frame = record {
      version = log_schema_version;
      identity = record { container_id = container; attempt_id = attempt };
      stream = stream;
      cursor = fields.cursor;
      sequence = fields.sequence;
      payload = payload;
      payload_sha256 = encode_hex (sha256 payload);
    }
    or_corrupt (validate_frame sha256 frame)
    ok frame

  unfoldable pub decode_fields : Fields → Result Error Frame
  unfolding decode_stream assemble
  decode_fields fields = do
    fail_if (not (fields.magic == frame_magic)) (corrupt "frame magic")
    fail_if (not (nat_beq fields.schema log_schema_version)) unsupported_schema
    fail_if
        (not (is_identity_length fields.container_length)
          || not (is_identity_length fields.attempt_length))
        (corrupt "identity length")
    fail_if (not (fields.reserved == 0 ∷ 0 ∷ 0 ∷ [])) (corrupt "reserved header")
    stream ← decode_stream fields.code
    fail_if (nat_beq fields.payload_length 0 || ltb max_payload_bytes fields.payload_length)
        (corrupt "payload length")
    fail_if
        (not (
          nat_beq fields.size (
            frame_fixed_bytes + fields.container_length + fields.attempt_length
            + fields.payload_length)))
        (corrupt "frame body length")
    assemble fields stream (take fields.container_length fields.rest)
        (take fields.attempt_length (drop fields.container_length fields.rest))
        (drop fields.attempt_length (drop fields.container_length fields.rest))

  unfoldable pub decode_frame : List ℕ → Result Error Frame
  unfolding read_fields decode_fields
  decode_frame body = do
    fail_if (ltb (length body) frame_fixed_bytes) (corrupt "frame body")
    decode_fields (read_fields body)
