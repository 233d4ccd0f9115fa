-- ===== src/LogStore/Scan.antt =====
-- internal/logstore/store.go, scanFramePage: the walk over the frames of a file, whose bytes are a list. Reads and the
-- inspection of the file do not fail, and no other process changes it during the walk. One turn of the loop is
-- `scan_step`, and `scan_frames` takes turns on fuel; a turn that continues leaves fewer bytes.
pub mod Step
pub mod Marked
pub mod Log
pub mod Collected
pub mod Recovery
use mydocker.Base.{
  ℕ, zero, suc, ◌+◌, ◌-◌, ◌^◌, Bool, true, false, not, ◌&&◌, ◌||◌, ◌==◌, List, [], ◌∷◌, ◌++◌,
  Result, ok, err, fail_if, ◌>>◌, ◌>>=◌, length, drop, take, ltb, nat_beq, is_empty, if◌then◌else◌,
}
use mydocker.Text.{Text, text_eq}
use mydocker.LogStore.Bytes.{get_uint, slice}
use mydocker.LogStore.Frame.{
  Error, corrupt, identity_mismatch, cursor_gap, Stream, stdout, stderr, other_stream, Identity,
  Frame,
}
use mydocker.LogStore.Codec.{
  frame_prefix_bytes, frame_fixed_bytes, frame_commit_bytes, frame_commit_magic, digest_record,
  decode_frame, max_frame_body_bytes,
}

-- scanResult, with the sequences of the two streams.
pub record Scan : Type 0 where
  pub frames : List Frame
  pub last_cursor : ℕ
  pub last_stdout : ℕ
  pub last_stderr : ℕ
  pub valid_size : ℕ

abbrev pub empty_scan : Scan
empty_scan = record {
  frames = [];
  last_cursor = 0;
  last_stdout = 0;
  last_stderr = 0;
  valid_size = 0;
}

-- The arguments of a walk; no limit is 0.
pub record Walk : Type 0 where
  pub identity : Identity
  pub after : ℕ
  pub limit : ℕ
  pub collect : Bool
  pub recover_tail : Bool

abbrev pub last_sequence : Scan → Stream → ℕ
last_sequence s stdout = s.last_stdout
last_sequence s stderr = s.last_stderr
last_sequence s (other_stream _) = 0

abbrev pub with_sequence : Scan → Stream → ℕ → Scan
with_sequence s stdout n = record s { last_stdout = n }
with_sequence s stderr n = record s { last_stderr = n }
with_sequence s (other_stream _) n = s

abbrev pub is_kept : Walk → Scan → Frame → Bool
is_kept w s frame =
    w.collect && ltb w.after frame.cursor && (nat_beq w.limit 0 || ltb (length s.frames) w.limit)

-- The result behind a frame of so many bytes.
unfoldable pub advance : Walk → Scan → Frame → ℕ → Scan
advance w s frame size =
    with_sequence
      (record s {
        frames = if is_kept w s frame then s.frames ++ frame ∷ [] else s.frames;
        last_cursor = frame.cursor;
        valid_size = s.valid_size + size;
      })
      frame.stream frame.sequence

-- The prefix of a record, and the bytes behind it.
pub record Head : Type 0 where
  pub size : ℕ
  pub declared : ℕ
  pub complement : ℕ
  pub length_bytes : List ℕ
  pub stored : List ℕ
  pub behind : List ℕ

unfoldable pub read_head : List ℕ → Head
unfolding get_uint
read_head bytes = record {
  size = length bytes;
  declared = get_uint (slice 0 8 bytes);
  complement = get_uint (slice 8 16 bytes);
  length_bytes = slice 0 16 bytes;
  stored = slice 16 48 bytes;
  behind = drop 48 bytes;
}

-- The walk ends at this offset, or goes on behind the record.
pub data Turn : Type 0 where
  stops : Turn
  goes_on : Scan → List ℕ → Turn

abbrev pub total_length : ℕ → ℕ
total_length declared = frame_prefix_bytes + declared + frame_commit_bytes

abbrev pub max_uint64 : ℕ
max_uint64 = 2 ^ 64 - 1

unfoldable pub check_order : Walk → Scan → Frame → Result Error (Unit {0})
check_order w s frame = do
  fail_if
      (not (frame.identity.container_id == w.identity.container_id)
        || not (frame.identity.attempt_id == w.identity.attempt_id))
      identity_mismatch
  fail_if (nat_beq s.last_cursor max_uint64 || not (nat_beq frame.cursor (s.last_cursor + 1)))
      (corrupt "cursor")
  fail_if
      (nat_beq (last_sequence s frame.stream) max_uint64
        || not (nat_beq frame.sequence (last_sequence s frame.stream + 1)))
      (corrupt "sequence")

module _ (sha256 : List ℕ → List ℕ) (w : Walk) where
  abbrev pub is_committed : Head → List ℕ → List ℕ → Bool
  is_committed head body commit =
      take 8 commit == frame_commit_magic
      && slice 8 40 commit == digest_record sha256 head.length_bytes body

  -- A complete record: its body, its commit and the bytes behind it.
  unfoldable pub scan_record : Scan → Head → List ℕ → List ℕ → List ℕ → Result Error Turn
  unfolding decode_frame advance check_order
  scan_record s head body commit next = do
    frame ← decode_frame sha256 body
    fail_if (not (head.stored == digest_record sha256 head.length_bytes body))
        (corrupt "frame digest")
    if not (is_committed head body commit)
        then if w.recover_tail && nat_beq (total_length head.declared) head.size
          then ok stops
          else err (corrupt "commit marker")
        else do
          check_order w s frame
          ok (goes_on (advance w s frame (total_length head.declared)) next)

  unfoldable pub scan_head : Scan → Head → Result Error Turn
  unfolding scan_record
  scan_head s head = do
    fail_if (not (nat_beq head.complement (max_uint64 - head.declared)))
        (corrupt "frame length check")
    fail_if (ltb head.declared frame_fixed_bytes || ltb max_frame_body_bytes head.declared)
        (corrupt "frame length")
    if ltb head.size (total_length head.declared)
        then ok stops
        else scan_record s head (take head.declared head.behind)
            (take frame_commit_bytes (drop head.declared head.behind))
            (drop frame_commit_bytes (drop head.declared head.behind))

  unfoldable pub scan_step : Scan → List ℕ → Result Error Turn
  unfolding read_head scan_head
  scan_step s bytes =
      if ltb (length bytes) frame_prefix_bytes then ok stops else scan_head s (read_head bytes)

  unfoldable pub scan_frames : ℕ → Scan → List ℕ → Result Error Scan
  unfolding scan_step
  scan_frames zero s bytes = err (corrupt "fuel")
  scan_frames (suc fuel) s bytes = if is_empty bytes then ok s else do
    turn ← scan_step s bytes
    elim turn [ stops ↦ ok s | goes_on t next ↦ scan_frames fuel t next ]

  -- The walk over a whole file, and its last check.
  unfoldable pub scan_frame_page : List ℕ → Result Error Scan
  unfolding scan_frames
  scan_frame_page bytes = do
    s ← scan_frames (suc (length bytes)) empty_scan bytes
    fail_if (ltb s.last_cursor w.after) (cursor_gap w.after s.last_cursor)
    ok s
