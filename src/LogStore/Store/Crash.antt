-- ===== src/LogStore/Store/Crash.antt =====
-- What recovery reads of a file after an append, wherever it was interrupted.
use mydocker.Base.{
  take-drop, take_all, append_nil, drop, beq→eq, ℕ, ◌+◌, ◌-◌, ◌^◌, ◌≤◌, ◌<◌, ◌≡◌, ◌⊎◌, inl, inr,
  refl, sym, ap, subst, ◌∙◌, Bool, true, false, not, ◌||◌, List, [], ◌∷◌, ◌++◌, Result, ok, ◌==◌,
  is_ok, eq→beq, fail_if, length, take, arith, ltb, nat_beq, >>-eq-ok, >>=-eq-ok, ok_injective,
  Bool-cases, Result-cases, is_empty, fail_if-eq-ok,
}
use mydocker.LogStore.Frame.{
  closed_store, append_unavailable, exhausted, invalid_frame, max_payload_bytes, Error, Stream,
  stdout, stderr, other_stream, is_stream, Frame,
}
use mydocker.Text.{text_eq}
use mydocker.LogStore.Codec.{encode_frame}
use mydocker.LogStore.Scan.{Walk, max_uint64}
use mydocker.LogStore.Scan.Recovery.{intact, torn, marked, Torn}
use mydocker.LogStore.Scan.Log.{Log, IsNext, Log-snoc, stdout_count, stderr_count}
use mydocker.LogStore.Scan.Collected.{Reads, scan_frame_page-Log}
use mydocker.LogStore.Store.{
  Store, with_stored_sequence, stored_sequence, Landing, lands, fails_after, damages, next_frame,
  check_append, write_record, append_frame,
}

neither : (a b : Bool) → (a || b) ≡ false → (a ≡ false) × (b ≡ false)
neither a b h = ground arith

below_max : (n : ℕ) → nat_beq n max_uint64 ≡ false → n < 2 ^ 64 → n + 1 < 2 ^ 64
below_max n room small = ground arith

is_below : (a b : ℕ) → ltb a b ≡ true → a < b
is_below a b h = ground arith

is_above : (a b : ℕ) → ltb a b ≡ false → b ≤ a
is_above a b h = ground arith

file_lands :
    (s : Store) (stream : Stream) (frame : Frame) (encoded : List ℕ)
    → (with_stored_sequence
        (record s {
          file = s.file ++ encoded;
          last_cursor = frame.cursor;
          confirmed_size = s.confirmed_size + length encoded;
        })
        stream
        frame.sequence).file
      ≡ s.file ++ encoded
file_lands s stdout frame encoded = refl
file_lands s stderr frame encoded = refl
file_lands s (other_stream _) frame encoded = refl

module _ (sha256 : List ℕ → List ℕ)
    (digest_size : (payload : List ℕ) → length (sha256 payload) ≡ 32) (w : Walk) where
  -- An open store whose file holds these frames, and whose index is theirs. A cursor and a sequence are uint64, and
  -- recovery reads from the start.
  pub record Holds (s : Store) (frames : List Frame) : Type 0 where
    pub logged : Log sha256 w.identity 0 0 0 frames s.file
    pub cursor : s.last_cursor ≡ length frames
    pub out : s.last_stdout ≡ stdout_count frames
    pub errors : s.last_stderr ≡ stderr_count frames
    pub same : s.identity ≡ w.identity
    pub whole : w.after ≡ 0
    pub bound : (s.last_cursor < 2 ^ 64) × (s.last_stdout < 2 ^ 64) × (s.last_stderr < 2 ^ 64)

  -- Where a damaged marker may stand: it has the bytes of one, and the walk recovers the tail.
  abbrev pub IsPossible : Landing → Type 0
  IsPossible (damages commit) = (length commit ≡ 40) × (w.recover_tail ≡ true)
  IsPossible _ = Unit

  sequence_bound :
      (s : Store) (frames : List Frame)
      → Holds s frames
      → (stream : Stream) → stored_sequence s stream < 2 ^ 64
  sequence_bound s frames h stdout = h.bound.1
  sequence_bound s frames h stderr = h.bound.2
  sequence_bound s frames h (other_stream _) = omega arith

  next_frame-IsNext :
      (s : Store) (frames : List Frame) (stream : Stream) (payload : List ℕ)
      → Holds s frames
      → is_stream stream ≡ true
      → s.last_cursor + 1 < 2 ^ 64
      → stored_sequence s stream + 1 < 2 ^ 64
      → IsNext 0 0 0 frames (next_frame sha256 s stream payload)
  next_frame-IsNext s frames stdout payload holds known room space =
      let cursor = holds.cursor in
      let out = holds.out in (omega arith, omega arith, inl (refl, omega arith, omega arith))
  next_frame-IsNext s frames stderr payload holds known room space =
      let cursor = holds.cursor in
      let errors = holds.errors in (omega arith, omega arith, inr (refl, omega arith, omega arith))
  next_frame-IsNext s frames (other_stream _) payload holds known room space = absurd (ground arith)

  -- The record that passes the checks of an append comes behind the frames of the file.
  append_follows :
      (s : Store) (frames : List Frame) (stream : Stream) (payload encoded : List ℕ)
      → Holds s frames
      → check_append sha256 s stream payload ≡ ok encoded
      → (encode_frame sha256 (next_frame sha256 s stream payload) ≡ ok encoded)
        × IsNext 0 0 0 frames (next_frame sha256 s stream payload)
        × (s.last_cursor + 1 < 2 ^ 64)
        × (stored_sequence s stream + 1 < 2 ^ 64)
  unfolding check_append
  append_follows s frames stream payload encoded holds h =
      let (_, a) = >>-eq-ok (fail_if s.closed closed_store) _ h in
      let (_, b) = >>-eq-ok (fail_if s.poisoned append_unavailable) _ a in
      let (known, c) = >>-eq-ok (fail_if (not (is_stream stream)) (invalid_frame "stream")) _ b in
      let (_, d) = >>-eq-ok (fail_if (is_empty payload) (invalid_frame "payload")) _ c in
      let (_, e) =
        >>-eq-ok (fail_if (ltb max_payload_bytes (length payload)) (invalid_frame "payload")) _ d in
      let full =
        nat_beq s.last_cursor max_uint64 || nat_beq (stored_sequence s stream) max_uint64 in
      let (free, f) = >>-eq-ok (fail_if full exhausted) _ e in
      let (bytes, g, coded) =
        >>=-eq-ok (encode_frame sha256 (next_frame sha256 s stream payload)) _ f in
      let (_, made) =
        >>-eq-ok (fail_if (ltb (2 ^ 63 - 1 - length bytes) s.confirmed_size) exhausted) _ g in
      let (room, space) =
        neither (nat_beq s.last_cursor max_uint64) (nat_beq (stored_sequence s stream) max_uint64)
          (fail_if-eq-ok full exhausted free) in
      let last = below_max s.last_cursor room holds.bound.0 in
      let sequence =
        below_max (stored_sequence s stream) space (sequence_bound s frames holds stream) in
      (
        coded ∙ ap (λ x. ok x) (ok_injective made),
        next_frame-IsNext s frames stream payload holds (ground arith) last sequence,
        last,
        sequence,
      )

  -- What recovery gives after an append: the frames from before it, and with the frame of the append behind them where its
  -- record is complete in the file. An append that is confirmed is one of these.
  abbrev pub Recovered : Store → List Frame → Frame → Store × Result Error Frame → Type 0
  Recovered s frames frame r =
      (Reads sha256 digest_size w r.0.file frames (length s.file) × (is_ok r.1 ≡ false))
      ⊎ ((encoded : List ℕ) × (encode_frame sha256 frame ≡ ok encoded)
          × Reads sha256 digest_size w r.0.file (frames ++ frame ∷ []) (length (s.file ++ encoded)))

  Reads-Log :
      (frames : List Frame) (bytes : List ℕ)
      → w.after ≡ 0
      → Log sha256 w.identity 0 0 0 frames bytes
      → Reads sha256 digest_size w bytes frames (length bytes)
  Reads-Log frames bytes whole logged =
      subst (λ b. Reads sha256 digest_size w b frames (length bytes)) (append_nil bytes)
        (scan_frame_page-Log sha256 digest_size w frames bytes [] logged intact (omega arith))

  module _ (s : Store) (frames : List Frame) (stream : Stream) (payload encoded : List ℕ)
      (holds : Holds s frames) (accepted : check_append sha256 s stream payload ≡ ok encoded) where
    abbrev frame : Frame
    frame = next_frame sha256 s stream payload

    -- The whole record is in the file.
    record_there :
        Reads sha256 digest_size w
          (s.file ++ encoded)
          (frames ++ frame ∷ [])
          (length (s.file ++ encoded))
    record_there =
        let (coded, next, _, _) = append_follows s frames stream payload encoded holds accepted in
        Reads-Log (frames ++ frame ∷ []) (s.file ++ encoded) holds.whole (
          Log-snoc sha256 w.identity frame encoded coded holds.same 0 0 0 frames s.file holds.logged
            next)

    -- Something else of it is.
    tail_there :
        (tail : List ℕ)
        → Torn sha256 digest_size w tail
        → Reads sha256 digest_size w (s.file ++ tail) frames (length s.file)
    tail_there tail end =
        scan_frame_page-Log sha256 digest_size w frames s.file tail holds.logged end
          (omega (arith, holds.whole))

    write-Recovered :
        (landing : Landing)
        → IsPossible landing
        → Recovered s frames frame (write_record sha256 s frame encoded landing)
    unfolding write_record
    write-Recovered lands possible =
        let (coded, _, _, _) = append_follows s frames stream payload encoded holds accepted in
        inr (
          encoded,
          coded,
          subst
              (λ b.
                Reads sha256 digest_size w b (frames ++ frame ∷ []) (length (s.file ++ encoded)))
              (sym (file_lands s stream frame encoded)) record_there,
        )
    write-Recovered (fails_after count) possible =
        let (coded, _, _, _) = append_follows s frames stream payload encoded holds accepted in
        elim (Bool-cases (ltb count (length encoded))) [
          | inl short ↦ inl (
            tail_there (take count encoded)
                (torn frame encoded count coded (is_below count (length encoded) short)),
            refl,
          )
          | inr long ↦ inr (
            encoded,
            coded,
            subst
                (λ b.
                  Reads sha256 digest_size w (s.file ++ b) (frames ++ frame ∷ [])
                    (length (s.file ++ encoded)))
                (sym (take_all count encoded (is_above count (length encoded) long))) record_there,
          )
        ]
    write-Recovered (damages commit) (size, recovers) =
        let (coded, _, cursor, sequence) =
          append_follows s frames stream payload encoded holds accepted in
        let front : List ℕ = take (length encoded - 40) encoded in
        elim (Bool-cases (commit == drop (length encoded - 40) encoded)) [
          | inl same ↦
              let real = beq→eq commit (drop (length encoded - 40) encoded) same in
              let whole : front ++ commit ≡ encoded =
                ap (λ l. front ++ l) real ∙ take-drop (length encoded - 40) encoded in
              inr (
                encoded,
                coded,
                subst
                    (λ b.
                      Reads sha256 digest_size w (s.file ++ b) (frames ++ frame ∷ [])
                        (length (s.file ++ encoded)))
                    (sym whole) record_there,
              )
          | inr apart ↦ inl (
            tail_there (front ++ commit) (
                marked frame encoded commit coded cursor sequence recovers size
                  (λ e. let t = eq→beq commit (drop (length encoded - 40) encoded) e in cc)),
            refl,
          )
        ]

  -- For a store whose file holds whole records and whose index is theirs, and wherever an append is interrupted, also
  -- where other bytes stand in place of its marker and the walk recovers the tail: a walk from the start of the
  -- file reads either exactly the frames from before the append, and then it was not confirmed, or these and
  -- behind them the frame of the append.
  pub append_frame-Recovered :
      (s : Store) (frames : List Frame) (stream : Stream) (payload : List ℕ) (landing : Landing)
      → Holds s frames
      → IsPossible landing
      → Recovered s frames
          (next_frame sha256 s stream payload)
          (append_frame sha256 s stream payload landing)
  unfolding append_frame write_record
  append_frame-Recovered s frames stream payload landing holds possible =
      elim (Result-cases (check_append sha256 s stream payload)) [
        | inr (e, refused) ↦
            rw (append_frame, refused)
              (inl (Reads-Log frames s.file holds.whole holds.logged, refl))
        | inl (encoded, accepted) ↦
            rw (append_frame, accepted)
              (write-Recovered s frames stream payload encoded holds accepted landing possible)
      ]
