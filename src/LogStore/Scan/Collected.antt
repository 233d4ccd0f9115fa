-- ===== src/LogStore/Scan/Collected.antt =====
-- What the walk gives of a file of frames.
use mydocker.Base.{
  take_all, append_nil, subst, bool_eq, ℕ, zero, suc, ◌+◌, ◌^◌, ◌≤◌, ◌<◌, ◌≡◌, refl, sym, ap, ◌∙◌,
  Bool, true, false, ◌&&◌, ◌||◌, ◌==◌, List, [], ◌∷◌, ◌++◌, ok, length, length-append, take, arith,
  ltb, nat_beq, nat_beq_iff, Bool-cases, inl, inr, eq→beq, if◌then◌else◌,
}
use mydocker.Text.{text_eq}
use mydocker.LogStore.Frame.{Frame, stdout, stderr}
use mydocker.LogStore.Scan.{
  Scan, Walk, advance, check_order, last_sequence, empty_scan, scan_frame_page, is_kept, max_uint64,
}
use mydocker.LogStore.Scan.Step.{append_assoc}
use mydocker.LogStore.Scan.Recovery.{Torn, scan_frame_page-Appended, Appended, no_more, then_frame}
use mydocker.LogStore.Scan.Log.{
  Log, ends, then_stdout, then_stderr, one_if_stdout, one_if_stderr, first_of, wanted, IsRead,
  IsWithin,
}

order_ok :
    (w : Walk) (t : Scan) (frame : Frame)
    → (frame.identity.container_id == w.identity.container_id) ≡ true
    → (frame.identity.attempt_id == w.identity.attempt_id) ≡ true
    → nat_beq t.last_cursor max_uint64 ≡ false
    → nat_beq frame.cursor (t.last_cursor + 1) ≡ true
    → nat_beq (last_sequence t frame.stream) max_uint64 ≡ false
    → nat_beq frame.sequence (last_sequence t frame.stream + 1) ≡ true
    → check_order w t frame ≡ ok tt
unfolding check_order
order_ok w t frame c a room cursor space sequence = rw (c, a, room, cursor, space, sequence) refl

not_last : (n : ℕ) → n + 1 < 2 ^ 64 → nat_beq n max_uint64 ≡ false
not_last n h = ground arith

-- A frame that has the next cursor and the next sequence passes the checks of the walk.
follows :
    (w : Walk) (s : Scan) (frame : Frame)
    → frame.identity ≡ w.identity
    → frame.cursor ≡ s.last_cursor + 1
    → frame.sequence ≡ last_sequence s frame.stream + 1
    → s.last_cursor + 1 < 2 ^ 64
    → last_sequence s frame.stream + 1 < 2 ^ 64
    → check_order w s frame ≡ ok tt
follows w s frame same cursor sequence room space =
    order_ok w s frame
      (eq→beq frame.identity.container_id w.identity.container_id (ap (λ x. x.container_id) same))
      (eq→beq frame.identity.attempt_id w.identity.attempt_id (ap (λ x. x.attempt_id) same))
      (not_last s.last_cursor room) ((nat_beq_iff frame.cursor (s.last_cursor + 1)).1 cursor)
      (not_last (last_sequence s frame.stream) space)
      ((nat_beq_iff frame.sequence (last_sequence s frame.stream + 1)).1 sequence)

-- The frames behind a turn.
abbrev collected : Walk → Scan → Frame → List Frame
collected w s frame = if is_kept w s frame then s.frames ++ frame ∷ [] else s.frames

advance_stdout :
    (w : Walk) (s : Scan) (frame : Frame) (size : ℕ)
    → frame.stream ≡ stdout
    → advance w s frame size ≡ record {
      frames = collected w s frame;
      last_cursor = frame.cursor;
      last_stdout = frame.sequence;
      last_stderr = s.last_stderr;
      valid_size = s.valid_size + size;
    }
unfolding advance
advance_stdout w s frame size h = rw h refl

advance_stderr :
    (w : Walk) (s : Scan) (frame : Frame) (size : ℕ)
    → frame.stream ≡ stderr
    → advance w s frame size ≡ record {
      frames = collected w s frame;
      last_cursor = frame.cursor;
      last_stdout = s.last_stdout;
      last_stderr = frame.sequence;
      valid_size = s.valid_size + size;
    }
unfolding advance
advance_stderr w s frame size h = rw h refl

take_within : (n : ℕ) (xs ys : List Frame) → n ≤ length xs → take n (xs ++ ys) ≡ take n xs
take_within zero xs ys h = refl
take_within (suc n) [] ys h = absurd (omega arith)
take_within (suc n) (x ∷ xs) ys h = ap (λ l. x ∷ l) (take_within n xs ys (omega arith))

not_zero : (n : ℕ) → nat_beq (suc n) 0 ≡ false
not_zero n = ground arith

-- The turn keeps the page that is to come.
page_step :
    (limit : ℕ) (have rest : List Frame) (frame : Frame) (want : Bool)
    → first_of limit (
        (if want && (nat_beq limit 0 || ltb (length have) limit) then have ++ frame ∷ [] else have)
        ++ rest)
      ≡ first_of limit (have ++ (if want then frame ∷ rest else rest))
page_step limit have rest frame false = refl
page_step zero have rest frame true = append_assoc have (frame ∷ []) rest
page_step (suc n) have rest frame true = elim (Bool-cases (ltb (length have) (suc n))) [
  | inl t ↦ rw (not_zero n, t) (ap (take (suc n)) (append_assoc have (frame ∷ []) rest))
  | inr f ↦
      let full : suc n ≤ length have = ground arith in
      rw (not_zero n, f)
        (take_within (suc n) have rest full ∙ sym (take_within (suc n) have (frame ∷ rest) full))
]

IsWithin-step :
    (limit : ℕ) (have : List Frame) (frame : Frame) (want : Bool)
    → IsWithin limit have
    → IsWithin limit
        (if want && (nat_beq limit 0 || ltb (length have) limit) then have ++ frame ∷ [] else have)
IsWithin-step limit have frame false h = h
IsWithin-step limit have frame true h =
    elim (Bool-cases (nat_beq limit 0 || ltb (length have) limit)) [
      | inl t ↦ rw t (ground (arith, length-append have (frame ∷ [])))
      | inr f ↦ rw f h
    ]

no_frames : (limit : ℕ) → IsWithin limit []
no_frames limit = ground arith

page_end :
    (limit : ℕ) (have : List Frame) → IsWithin limit have → have ≡ first_of limit (have ++ [])
page_end zero have h = sym (append_nil have)
page_end (suc n) have h =
    sym (ap (take (suc n)) (append_nil have) ∙ take_all (suc n) have (ground arith))

module _ (w : Walk) (s : Scan) (frame : Frame) where
  page_on :
      (rest : List Frame)
      → first_of w.limit (collected w s frame ++ wanted w rest)
        ≡ first_of w.limit (s.frames ++ wanted w (frame ∷ rest))
  page_on rest =
      page_step w.limit s.frames (wanted w rest) frame (w.collect && ltb w.after frame.cursor)

  IsWithin-on : IsWithin w.limit s.frames → IsWithin w.limit (collected w s frame)
  IsWithin-on h = IsWithin-step w.limit s.frames frame (w.collect && ltb w.after frame.cursor) h

  module _ (written more : List ℕ) (frames : List Frame) (t : Scan)
      (cursor : frame.cursor ≡ s.last_cursor + 1) where
    stdout-IsRead :
        frame.stream ≡ stdout
        → frame.sequence ≡ s.last_stdout + 1
        → IsRead w (advance w s frame (length written)) frames (length more) t
        → IsRead w s (frame ∷ frames) (length (written ++ more)) t
    stdout-IsRead stream sequence rest =
        let r =
          subst (λ x. IsRead w x frames (length more) t)
            (advance_stdout w s frame (length written) stream) rest in
        let out_one = ap one_if_stdout stream in
        let err_one = ap one_if_stderr stream in
        record {
          page = r.page ∙ page_on frames;
          cursor = omega (arith, r.cursor);
          out = omega (arith, r.out);
          errors = omega (arith, r.errors);
          bytes = omega (arith, r.bytes, length-append written more);
        }

    stderr-IsRead :
        frame.stream ≡ stderr
        → frame.sequence ≡ s.last_stderr + 1
        → IsRead w (advance w s frame (length written)) frames (length more) t
        → IsRead w s (frame ∷ frames) (length (written ++ more)) t
    stderr-IsRead stream sequence rest =
        let r =
          subst (λ x. IsRead w x frames (length more) t)
            (advance_stderr w s frame (length written) stream) rest in
        let out_one = ap one_if_stdout stream in
        let err_one = ap one_if_stderr stream in
        record {
          page = r.page ∙ page_on frames;
          cursor = omega (arith, r.cursor);
          out = omega (arith, r.out);
          errors = omega (arith, r.errors);
          bytes = omega (arith, r.bytes, length-append written more);
        }

module _ (sha256 : List ℕ → List ℕ)
    (digest_size : (payload : List ℕ) → length (sha256 payload) ≡ 32) (w : Walk) where
  -- What the turns of the walk give.
  abbrev Turns : Scan → List Frame → List ℕ → Type 0
  Turns s frames bytes =
      (t : Scan) × Appended sha256 digest_size w s bytes t × IsRead w s frames (length bytes) t

  Log-Turns :
      (c o e : ℕ) (frames : List Frame) (bytes : List ℕ) (s : Scan)
      → Log sha256 w.identity c o e frames bytes
      → s.last_cursor ≡ c
      → s.last_stdout ≡ o
      → s.last_stderr ≡ e
      → IsWithin w.limit s.frames
      → Turns s frames bytes
  Log-Turns c o e _ _ s (ends _ _ _) hc ho he within = (
    s,
    no_more s,
    record {
      page = page_end w.limit s.frames within;
      cursor = omega arith;
      out = omega arith;
      errors = omega arith;
      bytes = omega arith;
    },
  )
  Log-Turns c o e _ _ s
        (then_stdout _ _ _ frame written frames more coded same stream cursor sequence room space
          rest)
        hc ho he within =
      let next = advance w s frame (length written) in
      let after = advance_stdout w s frame (length written) stream in
      let last = ap (last_sequence s) stream in
      let (t, turns, read) =
        Log-Turns (c + 1) (o + 1) e frames more next rest
          (ap (λ (x : Scan). x.last_cursor) after ∙ cursor)
          (ap (λ (x : Scan). x.last_stdout) after ∙ sequence)
          (ap (λ (x : Scan). x.last_stderr) after ∙ he)
          (subst (λ (x : Scan). IsWithin w.limit x.frames) (sym after)
            (IsWithin-on w s frame within)) in
      (
        t,
        then_frame s frame written more t coded (omega arith) (omega arith)
            (follows w s frame same (omega arith) (omega (arith, last)) (omega arith)
              (omega (arith, last)))
            turns,
        stdout-IsRead w s frame written more frames t (omega arith) stream (omega arith) read,
      )
  Log-Turns c o e _ _ s
        (then_stderr _ _ _ frame written frames more coded same stream cursor sequence room space
          rest)
        hc ho he within =
      let next = advance w s frame (length written) in
      let after = advance_stderr w s frame (length written) stream in
      let last = ap (last_sequence s) stream in
      let (t, turns, read) =
        Log-Turns (c + 1) o (e + 1) frames more next rest
          (ap (λ (x : Scan). x.last_cursor) after ∙ cursor)
          (ap (λ (x : Scan). x.last_stdout) after ∙ ho)
          (ap (λ (x : Scan). x.last_stderr) after ∙ sequence)
          (subst (λ (x : Scan). IsWithin w.limit x.frames) (sym after)
            (IsWithin-on w s frame within)) in
      (
        t,
        then_frame s frame written more t coded (omega arith) (omega arith)
            (follows w s frame same (omega arith) (omega (arith, last)) (omega arith)
              (omega (arith, last)))
            turns,
        stderr-IsRead w s frame written more frames t (omega arith) stream (omega arith) read,
      )

  -- A walk over this file ends with what these frames, in so many bytes, give.
  abbrev pub Reads : List ℕ → List Frame → ℕ → Type 0
  Reads file frames size =
      (t : Scan) × (scan_frame_page sha256 w file ≡ ok t) × IsRead w empty_scan frames size t

  -- The walk over a file of logged frames, behind which an append may have been interrupted, ends without an error.
  -- It gives the frames behind the position asked for, up to the limit, where it collects; the number of frames
  -- as the last cursor, the number of frames of each stream as its last sequence, and the bytes of the whole
  -- records as the valid size: of the interrupted record it gives nothing, be it the first bytes of the
  -- record or, where the walk recovers the tail, all of it but a wrong marker. The position is not behind
  -- the last frame.
  pub scan_frame_page-Log :
      (frames : List Frame) (bytes tail : List ℕ)
      → Log sha256 w.identity 0 0 0 frames bytes
      → Torn sha256 digest_size w tail
      → w.after ≤ length frames
      → Reads (bytes ++ tail) frames (length bytes)
  scan_frame_page-Log frames bytes tail logged end known =
      let (t, turns, read) =
        Log-Turns 0 0 0 frames bytes empty_scan logged refl refl refl (no_frames w.limit) in
      (
        t,
        scan_frame_page-Appended sha256 digest_size w bytes tail t turns end
            (omega (arith, read.cursor)),
        read,
      )
