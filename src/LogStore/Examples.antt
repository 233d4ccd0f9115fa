-- ===== src/LogStore/Examples.antt =====
-- The theorem of the format at a concrete frame, with a digest of constant bytes.
use mydocker.Base.{ℕ, ◌+◌, ◌≡◌, refl, List, ok, length, arith, contains}
use mydocker.Text.{bytes, is_control, Text-discrete}
use mydocker.Text.Trim.{trim_space}
use mydocker.Domain.Identity.{validate_id}
use mydocker.LogStore.Bytes.{get_uint, slice}
use mydocker.LogStore.Frame.{Frame, stdout, encode_hex, validate_frame}
use mydocker.LogStore.Codec.{
  encode_stream, encode_body, encode_frame, decode_frame, body_length, length_prefix, record_bytes,
}
use mydocker.LogStore.Codec.Laws.{decode_frame-encode_frame}

abbrev sha256 : List ℕ → List ℕ
sha256 payload = bytes "0123456789abcdef0123456789abcdef"

abbrev line : Frame
line = record {
  version = 1;
  identity = record { container_id = bytes "web"; attempt_id = bytes "web-1" };
  stream = stdout;
  cursor = 7;
  sequence = 4;
  payload = bytes "ready";
  payload_sha256 = bytes "3031323334353637383961626364656630313233343536373839616263646566";
}

abbrev written : List ℕ
written = record_bytes sha256 (length_prefix (body_length line)) (encode_body sha256 line 1)

decode_frame-encode_frame_example :
    (decode_frame sha256 (slice 48 (48 + body_length line) written) ≡ ok line)
    × (length written ≡ 48 + body_length line + 40)
    × (get_uint (slice 0 8 written) ≡ body_length line)
unfolding encode_frame encode_stream validate_frame validate_id encode_hex trim_space is_control
    contains Text-discrete
decode_frame-encode_frame_example =
    decode_frame-encode_frame sha256 (λ _. refl) line written (omega arith) (omega arith) refl
