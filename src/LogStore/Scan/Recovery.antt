-- ===== src/LogStore/Scan/Recovery.antt =====
-- The walk over the records of appended frames, behind which the last append may have been interrupted.
use mydocker.Base.{
  ℕ, zero, suc, ◌+◌, ◌-◌, ◌^◌, ◌≤◌, ◌<◌, ◌≡◌, ◌≢◌, inl, inr, refl, sym, ap, ◌∙◌, true, false, ◌||◌,
  List, [], ◌∷◌, ◌++◌, ok, length, length-append, length-take, drop, take, arith, ltb, nat_beq,
  nat_beq_iff, >>-eq-ok, >>=-eq-ok, ok_injective, Bool-cases, is_empty,
}
use mydocker.LogStore.Bytes.{
  put_uint, get_uint, get_uint_from, get_uint-put_uint, take-append, drop-append,
}
use mydocker.LogStore.Frame.{Frame, validate_frame}
use mydocker.LogStore.Scan.Marked.{marked_stops}
use mydocker.LogStore.Codec.{
  frame_commit_magic, digest_record, encode_stream, encode_body, encode_frame, body_length,
  length_prefix, record_bytes, max_frame_body_bytes,
}
use mydocker.LogStore.Codec.RoundTrip.{size_read, decode-encode_body}
use mydocker.LogStore.Codec.Laws.{record_size}
use mydocker.LogStore.Scan.{
  Scan, Walk, Head, stops, goes_on, empty_scan, read_head, advance, check_order, scan_head,
  scan_step, scan_frames, scan_frame_page, total_length,
}
use mydocker.LogStore.Scan.Step.{step_turn, step_goes_on, frame_bounds, within, append_assoc}

module _ {ℓ} {A : Type ℓ} where
  take-take : (a k : ℕ) (xs : List A) → a ≤ k → take a (take k xs) ≡ take a xs
  take-take zero k xs h = refl
  take-take (suc a) zero xs h = absurd (omega arith)
  take-take (suc a) (suc k) [] h = refl
  take-take (suc a) (suc k) (x ∷ xs) h = ap (λ l. x ∷ l) (take-take a k xs (omega arith))

  take_nil : (k : ℕ) → take {A = A} k [] ≡ []
  take_nil zero = refl
  take_nil (suc k) = refl

  drop-take : (a k m : ℕ) (xs : List A) → m ≡ a + k → drop a (take m xs) ≡ take k (drop a xs)
  drop-take zero k m xs h = let same : m ≡ k = omega arith in ap (λ j. take j xs) same
  drop-take (suc a) k zero xs h = absurd (omega arith)
  drop-take (suc a) k (suc m) [] h = sym (take_nil k)
  drop-take (suc a) k (suc m) (x ∷ xs) h = drop-take a k m xs (omega arith)

under : (a b : ℕ) → a < b → ltb a b ≡ true
under a b h = ground arith

not_behind : (a b : ℕ) → b ≤ a → ltb a b ≡ false
not_behind a b h = ground arith

module _ (sha256 : List ℕ → List ℕ)
    (digest_size : (payload : List ℕ) → length (sha256 payload) ≡ 32) (w : Walk) where
  -- The bytes of frames appended one after the other, from the result of a walk to that behind them.
  pub data Appended : Scan → List ℕ → Scan → Type 0 where
    no_more : (s : Scan) → Appended s [] s
    then_frame :
        (s : Scan) (frame : Frame) (written more : List ℕ) (t : Scan)
        → encode_frame sha256 frame ≡ ok written
        → frame.cursor < 2 ^ 64
        → frame.sequence < 2 ^ 64
        → check_order w s frame ≡ ok tt
        → Appended (advance w s frame (length written)) more t
        → Appended s (written ++ more) t

  -- What an interrupted append leaves: nothing, or the first bytes of a record, but not all of them, or, for a walk that
  -- recovers the tail, a record with other bytes in place of its 40 bytes of commit marker.
  pub data Torn : List ℕ → Type 0 where
    intact : Torn []
    torn :
        (frame : Frame) (written : List ℕ) (count : ℕ)
        → encode_frame sha256 frame ≡ ok written
        → count < length written
        → Torn (take count written)
    marked :
        (frame : Frame) (written commit : List ℕ)
        → encode_frame sha256 frame ≡ ok written
        → frame.cursor < 2 ^ 64
        → frame.sequence < 2 ^ 64
        → w.recover_tail ≡ true
        → length commit ≡ 40
        → commit ≢ drop (length written - 40) written
        → Torn (take (length written - 40) written ++ commit)

  head_stops :
      (s : Scan) (head : Head)
      → nat_beq head.complement (2 ^ 64 - 1 - head.declared) ≡ true
      → (ltb head.declared 68 || ltb max_frame_body_bytes head.declared) ≡ false
      → ltb head.size (total_length head.declared) ≡ true
      → scan_head sha256 w s head ≡ ok stops
  unfolding scan_head
  head_stops s head complement bounds size = rw (complement, bounds, size) refl

  step_short :
      (s : Scan) (bytes : List ℕ)
      → ltb (length bytes) 48 ≡ true
      → scan_step sha256 w s bytes ≡ ok stops
  unfolding scan_step
  step_short s bytes size = rw size refl

  frames_stop :
      (fuel : ℕ) (s : Scan) (bytes : List ℕ)
      → scan_step sha256 w s bytes ≡ ok stops
      → scan_frames sha256 w (suc fuel) s bytes ≡ ok s
  unfolding scan_frames
  frames_stop fuel s [] h = refl
  frames_stop fuel s (b ∷ bytes) h = rw h refl

  frames_go_on :
      (fuel : ℕ) (s t : Scan) (bytes next : List ℕ)
      → is_empty bytes ≡ false
      → scan_step sha256 w s bytes ≡ ok (goes_on t next)
      → scan_frames sha256 w (suc fuel) s bytes ≡ scan_frames sha256 w fuel t next
  unfolding scan_frames
  frames_go_on fuel s t bytes next full h = rw (full, h) refl

  nonempty : (bytes : List ℕ) → 0 < length bytes → is_empty bytes ≡ false
  nonempty [] h = absurd (omega arith)
  nonempty (b ∷ bytes) h = refl

  module _ (n : ℕ) (body : List ℕ) (size : length body ≡ n) (low : 68 ≤ n)
      (high : n ≤ max_frame_body_bytes) (count : ℕ) (short : count < total_length n) where
    abbrev whole : List ℕ
    whole = record_bytes sha256 (length_prefix n) body

    abbrev part : List ℕ
    part = take count whole

    declared_read : 48 ≤ count → (read_head part).declared ≡ n
    unfolding read_head put_uint get_uint get_uint_from
    declared_read long =
        ap get_uint (take-take 8 count whole (omega arith)) ∙ get_uint-put_uint 8 n (omega arith)

    complement_read : 48 ≤ count → (read_head part).complement ≡ 2 ^ 64 - 1 - n
    unfolding read_head put_uint get_uint get_uint_from
    complement_read long =
        ap (λ l. get_uint (take 8 l)) (drop-take 8 (count - 8) count whole (omega arith))
        ∙ ap get_uint (take-take 8 (count - 8) (drop 8 whole) (omega arith))
        ∙ get_uint-put_uint 8 (2 ^ 64 - 1 - n) (omega arith)

    head_size : (read_head part).size ≡ length part
    unfolding read_head
    head_size = refl

    part_stops : (s : Scan) → scan_step sha256 w s part ≡ ok stops
    part_stops s = elim (Bool-cases (ltb (length part) 48)) [
      | inl t ↦ step_short s part t
      | inr f ↦
          let size_le = length-take count whole in
          let long : 48 ≤ count = ground (arith, size_le) in
          let declared = declared_read long in
          step_goes_on sha256 w s part f
          ∙ head_stops s (read_head part)
              ((nat_beq_iff (read_head part).complement (2 ^ 64 - 1 - (read_head part).declared)).1
                (complement_read long ∙ ap (λ d. 2 ^ 64 - 1 - d) (sym declared)))
              (within (read_head part).declared (omega arith) (omega arith))
              (under (read_head part).size (total_length (read_head part).declared)
                (omega (arith, head_size, size_le, declared, short)))
    ]

  -- How a record is made.
  encoded_parts :
      (frame : Frame) (written : List ℕ)
      → encode_frame sha256 frame ≡ ok written
      → (code : ℕ) × (validate_frame sha256 frame ≡ ok tt)
        × (encode_stream frame.stream ≡ ok code)
        × (record_bytes sha256 (length_prefix (body_length frame)) (encode_body sha256 frame code)
            ≡ written)
  unfolding encode_frame
  encoded_parts frame written h =
      let (valid, a) = >>-eq-ok (validate_frame sha256 frame) _ h in
      let (code, made, coded) = >>=-eq-ok (encode_stream frame.stream) _ a in
      (code, valid, coded, ok_injective made)

  pub encoded_size :
      (frame : Frame) (written : List ℕ)
      → encode_frame sha256 frame ≡ ok written
      → length written ≡ total_length (body_length frame)
  encoded_size frame written h =
      let (code, valid, coded, made) = encoded_parts frame written h in
      ap length (sym made)
      ∙ record_size sha256 digest_size (body_length frame) (encode_body sha256 frame code)
          (size_read sha256 digest_size frame code)

  module _ (frame : Frame) (code : ℕ) where
    abbrev body : List ℕ
    body = encode_body sha256 frame code

    abbrev front : List ℕ
    front =
        length_prefix (body_length frame)
        ++ (digest_record sha256 (length_prefix (body_length frame)) body ++ body)

    abbrev marker : List ℕ
    marker = frame_commit_magic ++ digest_record sha256 (length_prefix (body_length frame)) body

    -- A record is its front and its marker.
    front_marker :
        (commit : List ℕ)
        → front ++ commit
          ≡ length_prefix (body_length frame)
            ++ (digest_record sha256 (length_prefix (body_length frame)) body ++ (body ++ commit))
    front_marker commit =
        append_assoc (length_prefix (body_length frame))
          (digest_record sha256 (length_prefix (body_length frame)) body ++ body) commit
        ∙ ap (λ l. length_prefix (body_length frame) ++ l)
            (append_assoc (digest_record sha256 (length_prefix (body_length frame)) body) body
              commit)

    marker_size : length marker ≡ 40
    marker_size = omega (arith, digest_size (length_prefix (body_length frame) ++ body))

    split :
        (written : List ℕ)
        → front ++ marker ≡ written
        → (take (length written - 40) written ≡ front)
          × (drop (length written - 40) written ≡ marker)
    split written made =
        let sizes = length-append front marker in
        let whole = ap length made in
        let place : length written - 40 ≡ length front = omega (arith, marker_size) in
        (
          ap (λ k. take k written) place
              ∙ ap (take (length front)) (sym made)
              ∙ take-append front marker,
          ap (λ k. drop k written) place
              ∙ ap (drop (length front)) (sym made)
              ∙ drop-append front marker,
        )

  Torn-stops : (s : Scan) (tail : List ℕ) → Torn tail → scan_step sha256 w s tail ≡ ok stops
  Torn-stops s _ intact = step_short s [] refl
  Torn-stops s _ (torn frame written count h short) =
      let (code, valid, coded, made) = encoded_parts frame written h in
      let (low, high, _) = frame_bounds sha256 digest_size frame code valid in
      let size = encoded_size frame written h in
      ap (λ b. scan_step sha256 w s (take count b)) (sym made)
      ∙ part_stops (body_length frame) (encode_body sha256 frame code)
          (size_read sha256 digest_size frame code) low high count (omega arith) s
  Torn-stops s _ (marked frame written commit h cursor sequence recovers size other) =
      let (code, valid, coded, made) = encoded_parts frame written h in
      let (low, high, _) = frame_bounds sha256 digest_size frame code valid in
      let (before, behind) =
        split frame code written (front_marker frame code (marker frame code) ∙ made) in
      ap (λ b. scan_step sha256 w s (b ++ commit)) before
      ∙ ap (scan_step sha256 w s) (front_marker frame code commit)
      ∙ marked_stops sha256 digest_size w (body_length frame) (encode_body sha256 frame code) commit
          (size_read sha256 digest_size frame code) size s frame low high
          (decode-encode_body sha256 digest_size frame code valid coded cursor sequence)
          (λ e. other (e ∙ sym behind)) recovers

  turn_goes_on :
      (s : Scan) (frame : Frame) (written rest : List ℕ)
      → encode_frame sha256 frame ≡ ok written
      → frame.cursor < 2 ^ 64
      → frame.sequence < 2 ^ 64
      → check_order w s frame ≡ ok tt
      → scan_step sha256 w s (written ++ rest)
        ≡ ok (goes_on (advance w s frame (length written)) rest)
  turn_goes_on s frame written rest h cursor sequence follows =
      let (code, valid, coded, made) = encoded_parts frame written h in
      ap (λ b. scan_step sha256 w s (b ++ rest)) (sym made)
      ∙ step_turn sha256 digest_size w s frame code rest valid coded cursor sequence follows
      ∙ ap (λ n. ok (goes_on (advance w s frame n) rest)) (sym (encoded_size frame written h))

  -- Fuel above the count of the bytes is enough.
  frames_read :
      (fuel : ℕ) (s t : Scan) (bytes tail : List ℕ)
      → Appended s bytes t
      → Torn tail
      → length (bytes ++ tail) < fuel
      → scan_frames sha256 w fuel s (bytes ++ tail) ≡ ok t
  frames_read zero s t bytes tail a end enough = absurd (omega arith)
  frames_read (suc fuel) s t _ tail (no_more _) end enough =
      frames_stop fuel s tail (Torn-stops s tail end)
  frames_read (suc fuel) s t _ tail (then_frame _ frame written more _ h c q follows rest) end
        enough =
      let behind : List ℕ = more ++ tail in
      let size = encoded_size frame written h in
      let joined = append_assoc written more tail in
      let sum = length-append written behind in
      let all : length ((written ++ more) ++ tail) ≡ length written + length behind =
        ap length joined ∙ sum in
      ap (scan_frames sha256 w (suc fuel) s) joined
      ∙ frames_go_on fuel s (advance w s frame (length written)) (written ++ behind) behind
          (nonempty (written ++ behind) (omega arith))
          (turn_goes_on s frame written behind h c q follows)
      ∙ frames_read fuel (advance w s frame (length written)) t more tail rest end (omega arith)

  -- The walk over a file of appended frames, behind which an append may have been interrupted, takes these turns and
  -- ends. The position asked for is not behind the last cursor.
  pub scan_frame_page-Appended :
      (bytes tail : List ℕ) (t : Scan)
      → Appended empty_scan bytes t
      → Torn tail
      → w.after ≤ t.last_cursor
      → scan_frame_page sha256 w (bytes ++ tail) ≡ ok t
  unfolding scan_frame_page
  scan_frame_page-Appended bytes tail t appended end known =
      let read =
        frames_read (suc (length (bytes ++ tail))) empty_scan t bytes tail appended end
          (omega arith) in
      rw (read, not_behind t.last_cursor w.after known) refl
