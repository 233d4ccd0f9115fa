-- ===== src/LogStore/ScanExamples.antt =====
-- The theorems of the walk and of an append at a file of two frames and an interrupted third one.
use mydocker.Base.{
  ap, length, ◌-◌, ℕ, refl, true, false, List, [], ◌∷◌, ◌++◌, take, arith, contains,
}
use mydocker.Text.{bytes, is_control, Text-discrete}
use mydocker.Text.Trim.{trim_space}
use mydocker.Domain.Identity.{validate_id}
use mydocker.LogStore.Bytes.{put_uint}
use mydocker.LogStore.Frame.{Identity, Frame, Stream, stdout, stderr, encode_hex, validate_frame}
use mydocker.LogStore.Codec.{
  encode_stream, encode_body, encode_frame, body_length, length_prefix, record_bytes,
}
use mydocker.LogStore.Scan.{Walk}
use mydocker.LogStore.Store.{Store, next_frame, append_frame, damages}
use mydocker.LogStore.Store.Crash.{Holds, Recovered, append_frame-Recovered}
use mydocker.LogStore.Scan.Recovery.{Torn, marked}
use mydocker.LogStore.Scan.Log.{Log, ends, then_stdout, then_stderr}
use mydocker.LogStore.Scan.Collected.{Reads, scan_frame_page-Log}

abbrev sha256 : List ℕ → List ℕ
sha256 payload = bytes "0123456789abcdef0123456789abcdef"

abbrev web : Identity
web = record { container_id = bytes "web"; attempt_id = bytes "web-1" }

abbrev whole_log : Walk
whole_log = record { identity = web; after = 0; limit = 0; collect = true; recover_tail = true }

abbrev line : Stream → ℕ → ℕ → Frame
line stream cursor sequence = record {
  version = 1;
  identity = web;
  stream = stream;
  cursor = cursor;
  sequence = sequence;
  payload = bytes "ready";
  payload_sha256 = bytes "3031323334353637383961626364656630313233343536373839616263646566";
}

abbrev written : Frame → ℕ → List ℕ
written frame code =
    record_bytes sha256 (length_prefix (body_length frame)) (encode_body sha256 frame code)

abbrev first : Frame
first = line stdout 1 1

abbrev second : Frame
second = line stderr 2 1

abbrev third : Frame
third = line stdout 3 2

two_logged :
    Log sha256 web 0 0 0 (first ∷ second ∷ []) (written first 1 ++ (written second 2 ++ []))
unfolding encode_frame encode_body encode_stream validate_frame validate_id encode_hex trim_space
    is_control contains Text-discrete put_uint
two_logged =
    then_stdout 0 0 0 first (written first 1) (second ∷ []) (written second 2 ++ []) refl refl refl
      refl refl (omega arith) (omega arith)
      (then_stderr 1 1 0 second (written second 2) [] [] refl refl refl refl refl (omega arith)
        (omega arith) (ends 2 1 1))

-- A marker of zeros.
abbrev zeros : List ℕ
zeros = put_uint 40 0

third-Torn :
    Torn sha256
      (λ _. refl)
      whole_log
      (take (length (written third 1) - 40) (written third 1) ++ zeros)
unfolding encode_frame encode_body encode_stream validate_frame validate_id encode_hex trim_space
    is_control contains Text-discrete put_uint
third-Torn =
    marked third (written third 1) zeros refl (omega arith) (omega arith) refl refl
      (λ e. let first_byte = ap (take 1) e in cc)

scan_frame_page-Log_example :
    Reads sha256
      (λ _. refl)
      whole_log
      ((written first 1 ++ (written second 2 ++ []))
        ++ (take (length (written third 1) - 40) (written third 1) ++ zeros))
      (first ∷ second ∷ [])
      (length (written first 1 ++ (written second 2 ++ [])))
scan_frame_page-Log_example =
    scan_frame_page-Log sha256 (λ _. refl) whole_log (first ∷ second ∷ [])
      (written first 1 ++ (written second 2 ++ []))
      (take (length (written third 1) - 40) (written third 1) ++ zeros) two_logged third-Torn
      (omega arith)

abbrev log : Store
log = record {
  identity = web;
  file = written first 1 ++ (written second 2 ++ []);
  last_cursor = 2;
  last_stdout = 1;
  last_stderr = 1;
  confirmed_size = 338;
  closed = false;
  poisoned = false;
}

log-Holds : Holds sha256 (λ _. refl) whole_log log (first ∷ second ∷ [])
log-Holds = record {
  logged = two_logged;
  cursor = refl;
  out = refl;
  errors = refl;
  same = refl;
  whole = refl;
  bound = (omega arith, omega arith, omega arith);
}

append_frame-Recovered_example :
    Recovered sha256
      (λ _. refl)
      whole_log
      log
      (first ∷ second ∷ [])
      (next_frame sha256 log stdout (bytes "ready"))
      (append_frame sha256 log stdout (bytes "ready") (damages zeros))
unfolding put_uint
append_frame-Recovered_example =
    append_frame-Recovered sha256 (λ _. refl) whole_log log (first ∷ second ∷ []) stdout
      (bytes "ready") (damages zeros) log-Holds (refl, refl)
