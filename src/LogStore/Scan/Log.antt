-- ===== src/LogStore/Scan/Log.antt =====
-- What a file of frames holds, said without the walk.
use mydocker.Base.{
  append_nil, ◌⊎◌, subst, bool_eq, ℕ, zero, suc, ◌+◌, ◌^◌, ◌<◌, ◌≡◌, sym, ap, true, false, ◌&&◌,
  ◌||◌, ◌==◌, List, [], ◌∷◌, ◌++◌, ok, length, take, keep, arith, ltb, nat_beq, inl, inr,
}
use mydocker.Text.{text_eq}
use mydocker.LogStore.Frame.{Frame, Identity, Stream, stdout, stderr}
use mydocker.LogStore.Codec.{encode_frame}
use mydocker.LogStore.Scan.{Scan, Walk}
use mydocker.LogStore.Scan.Step.{append_assoc}

module _ (sha256 : List ℕ → List ℕ) (identity : Identity) where
  -- The records of frames of one identity, one behind the other, with the last cursor and the last sequences of
  -- stdout and stderr before them: each frame has the next cursor and the next sequence of its stream.
  pub data Log : ℕ → ℕ → ℕ → List Frame → List ℕ → Type 0 where
    ends : (c o e : ℕ) → Log c o e [] []
    then_stdout :
        (c o e : ℕ) (frame : Frame) (written : List ℕ) (frames : List Frame) (more : List ℕ)
        → encode_frame sha256 frame ≡ ok written
        → frame.identity ≡ identity
        → frame.stream ≡ stdout
        → frame.cursor ≡ c + 1
        → frame.sequence ≡ o + 1
        → c + 1 < 2 ^ 64
        → o + 1 < 2 ^ 64
        → Log (c + 1) (o + 1) e frames more
        → Log c o e (frame ∷ frames) (written ++ more)
    then_stderr :
        (c o e : ℕ) (frame : Frame) (written : List ℕ) (frames : List Frame) (more : List ℕ)
        → encode_frame sha256 frame ≡ ok written
        → frame.identity ≡ identity
        → frame.stream ≡ stderr
        → frame.cursor ≡ c + 1
        → frame.sequence ≡ e + 1
        → c + 1 < 2 ^ 64
        → e + 1 < 2 ^ 64
        → Log (c + 1) o (e + 1) frames more
        → Log c o e (frame ∷ frames) (written ++ more)

-- How many of the frames are of stdout, and of stderr.
abbrev pub one_if_stdout : Stream → ℕ
one_if_stdout stdout = 1
one_if_stdout _ = 0

abbrev pub one_if_stderr : Stream → ℕ
one_if_stderr stderr = 1
one_if_stderr _ = 0

abbrev pub stdout_count : List Frame → ℕ
stdout_count [] = 0
stdout_count (frame ∷ frames) = one_if_stdout frame.stream + stdout_count frames

abbrev pub stderr_count : List Frame → ℕ
stderr_count [] = 0
stderr_count (frame ∷ frames) = one_if_stderr frame.stream + stderr_count frames

-- A frame that comes behind the others.
abbrev pub IsNext : ℕ → ℕ → ℕ → List Frame → Frame → Type 0
IsNext c o e frames frame =
    (frame.cursor ≡ c + length frames + 1)
    × (c + length frames + 1 < 2 ^ 64)
    × (((frame.stream ≡ stdout)
          × (frame.sequence ≡ o + stdout_count frames + 1)
          × (o + stdout_count frames + 1 < 2 ^ 64))
        ⊎ ((frame.stream ≡ stderr)
            × (frame.sequence ≡ e + stderr_count frames + 1)
            × (e + stderr_count frames + 1 < 2 ^ 64)))

IsNext-shift :
    (c c' o o' e e' : ℕ) (long short : List Frame) (frame : Frame)
    → c + length long ≡ c' + length short
    → o + stdout_count long ≡ o' + stdout_count short
    → e + stderr_count long ≡ e' + stderr_count short
    → IsNext c o e long frame
    → IsNext c' o' e' short frame
IsNext-shift c c' o o' e e' long short frame hc ho he
      (cursor, room, inl (stream, sequence, space)) =
    (omega arith, omega arith, inl (stream, omega arith, omega arith))
IsNext-shift c c' o o' e e' long short frame hc ho he
      (cursor, room, inr (stream, sequence, space)) =
    (omega arith, omega arith, inr (stream, omega arith, omega arith))

module _ (sha256 : List ℕ → List ℕ) (identity : Identity) (frame : Frame) (written : List ℕ)
    (coded : encode_frame sha256 frame ≡ ok written) (same : frame.identity ≡ identity) where
  pub Log-snoc :
      (c o e : ℕ) (frames : List Frame) (bytes : List ℕ)
      → Log sha256 identity c o e frames bytes
      → IsNext c o e frames frame
      → Log sha256 identity c o e (frames ++ frame ∷ []) (bytes ++ written)
  Log-snoc c o e _ _ (ends _ _ _) (cursor, room, inl (stream, sequence, space)) =
      subst (Log sha256 identity c o e (frame ∷ [])) (append_nil written) (
        then_stdout c o e frame written [] [] coded same stream (omega arith) (omega arith)
          (omega arith) (omega arith) (ends (c + 1) (o + 1) e))
  Log-snoc c o e _ _ (ends _ _ _) (cursor, room, inr (stream, sequence, space)) =
      subst (Log sha256 identity c o e (frame ∷ [])) (append_nil written) (
        then_stderr c o e frame written [] [] coded same stream (omega arith) (omega arith)
          (omega arith) (omega arith) (ends (c + 1) o (e + 1)))
  Log-snoc c o e _ _
        (then_stdout _ _ _ old bytes frames more h i stream cursor sequence room space rest) next =
      let one_out = ap one_if_stdout stream in
      let one_err = ap one_if_stderr stream in
      subst (Log sha256 identity c o e (old ∷ (frames ++ frame ∷ [])))
        (sym (append_assoc bytes more written))
        (then_stdout c o e old bytes (frames ++ frame ∷ []) (more ++ written) h i stream cursor
          sequence room space
          (Log-snoc (c + 1) (o + 1) e frames more rest (
            IsNext-shift c (c + 1) o (o + 1) e e (old ∷ frames) frames frame (omega arith)
              (omega arith) (omega arith) next)))
  Log-snoc c o e _ _
        (then_stderr _ _ _ old bytes frames more h i stream cursor sequence room space rest) next =
      let one_out = ap one_if_stdout stream in
      let one_err = ap one_if_stderr stream in
      subst (Log sha256 identity c o e (old ∷ (frames ++ frame ∷ [])))
        (sym (append_assoc bytes more written))
        (then_stderr c o e old bytes (frames ++ frame ∷ []) (more ++ written) h i stream cursor
          sequence room space
          (Log-snoc (c + 1) o (e + 1) frames more rest (
            IsNext-shift c (c + 1) o o e (e + 1) (old ∷ frames) frames frame (omega arith)
              (omega arith) (omega arith) next)))

-- So many of the frames, from the first; no limit is 0.
abbrev pub first_of : ℕ → List Frame → List Frame
first_of zero frames = frames
first_of (suc n) frames = take (suc n) frames

-- The frames behind the position asked for, where the walk collects.
abbrev pub wanted : Walk → List Frame → List Frame
wanted w frames = keep (λ (frame : Frame). w.collect && ltb w.after frame.cursor) frames

-- What a walk gives of these frames, whose records have so many bytes.
pub record IsRead (w : Walk) (s : Scan) (frames : List Frame) (size : ℕ) (t : Scan) : Type 0 where
  pub page : t.frames ≡ first_of w.limit (s.frames ++ wanted w frames)
  pub cursor : t.last_cursor ≡ s.last_cursor + length frames
  pub out : t.last_stdout ≡ s.last_stdout + stdout_count frames
  pub errors : t.last_stderr ≡ s.last_stderr + stderr_count frames
  pub bytes : t.valid_size ≡ s.valid_size + size

-- No more than the limit, where there is one.
abbrev pub IsWithin : ℕ → List Frame → Type 0
IsWithin limit frames = (nat_beq limit 0 || (ltb limit (length frames) == false)) ≡ true
