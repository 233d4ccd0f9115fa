-- ===== src/LogStore/Scan/Marked.antt =====
-- One turn of the walk over a last record whose commit marker is not the one that belongs to it.
use mydocker.Base.{
  take-drop, length-drop, ℕ, ◌-◌, ◌^◌, ◌≤◌, ◌<◌, ◌≡◌, ◌≢◌, refl, sym, ap, ◌∙◌, Bool, true, false,
  ◌&&◌, ◌==◌, List, [], ◌∷◌, ◌++◌, ok, length, length-append, drop, take, take-length, arith, ltb,
  nat_beq_iff, beq_refl, beq→eq, Bool-cases, inl, inr,
}
use mydocker.Text.{text_eq}
use mydocker.LogStore.Bytes.{
  put_uint, get_uint, get_uint_from, get_uint-put_uint, take-append, drop-append,
}
use mydocker.LogStore.Frame.{Frame}
use mydocker.LogStore.Codec.{
  frame_commit_magic, decode_frame, length_prefix, digest_record, max_frame_body_bytes,
}
use mydocker.LogStore.Scan.{
  Scan, Walk, Head, stops, read_head, is_committed, scan_head, scan_record, scan_step, total_length,
}
use mydocker.LogStore.Scan.Step.{head_goes_on, step_goes_on, within}

both_true : (a b : Bool) → (a && b) ≡ true → (a ≡ true) × (b ≡ true)
both_true a b h = ground arith

nothing : (xs : List ℕ) → length xs ≡ 0 → xs ≡ []
nothing [] h = refl
nothing (x ∷ xs) h = absurd (omega arith)

long_enough : (k : ℕ) → 48 ≤ k → ltb k 48 ≡ false
long_enough k h = ground arith

not_short : (k : ℕ) → ltb k k ≡ false
not_short k = ground arith

module _ (sha256 : List ℕ → List ℕ)
    (digest_size : (payload : List ℕ) → length (sha256 payload) ≡ 32) (w : Walk) (n : ℕ)
    (body commit : List ℕ) (size : length body ≡ n) (commit_size : length commit ≡ 40) where
  abbrev digest : List ℕ
  digest = digest_record sha256 (length_prefix n) body

  -- The record with this marker at its end.
  abbrev pub marked_record : List ℕ
  marked_record = length_prefix n ++ (digest ++ (body ++ commit))

  abbrev head : Head
  head = record {
    size = total_length n;
    declared = n;
    complement = 2 ^ 64 - 1 - n;
    length_bytes = length_prefix n;
    stored = digest;
    behind = body ++ commit;
  }

  thirty_two : 32 ≡ length digest
  thirty_two = sym (digest_size (length_prefix n ++ body))

  all_size : length marked_record ≡ total_length n
  unfolding put_uint
  all_size = omega (
    arith,
    digest_size (length_prefix n ++ body),
    length-append digest (body ++ commit),
    length-append body commit,
  )

  head_read : n < 2 ^ 64 → read_head marked_record ≡ head
  unfolding put_uint get_uint get_uint_from read_head
  head_read small i = record {
    size = all_size i;
    declared = get_uint-put_uint 8 n small i;
    complement = get_uint-put_uint 8 (2 ^ 64 - 1 - n) (omega arith) i;
    length_bytes = length_prefix n;
    stored =
        (ap (λ k. take k (digest ++ (body ++ commit))) thirty_two
            ∙ take-append digest (body ++ commit))
          i;
    behind =
        (ap (λ k. drop k (digest ++ (body ++ commit))) thirty_two
            ∙ drop-append digest (body ++ commit))
          i;
  }

  committed_marker :
      is_committed sha256 w head body commit ≡ true → commit ≡ frame_commit_magic ++ digest
  committed_marker h =
      let (magic, rest) = both_true (take 8 commit == frame_commit_magic) _ h in
      let size_behind = length-drop 8 commit in
      let thirty : length (drop 8 commit) ≡ 32 = omega arith in
      let whole : take 32 (drop 8 commit) ≡ drop 8 commit =
        ap (λ k. take k (drop 8 commit)) (sym thirty) ∙ take-length (drop 8 commit) in
      sym (take-drop 8 commit)
      ∙ ap (λ l. l ++ drop 8 commit) (beq→eq (take 8 commit) frame_commit_magic magic)
      ∙ ap (λ l. frame_commit_magic ++ l) (sym whole ∙ beq→eq (take 32 (drop 8 commit)) digest rest)

  not_committed :
      commit ≢ frame_commit_magic ++ digest → is_committed sha256 w head body commit ≡ false
  not_committed other = elim (Bool-cases (is_committed sha256 w head body commit)) [
    | inl t ↦ absurd (other (committed_marker t))
    | inr f ↦ f
  ]

  record_stops :
      (s : Scan) (frame : Frame)
      → decode_frame sha256 body ≡ ok frame
      → is_committed sha256 w head body commit ≡ false
      → w.recover_tail ≡ true
      → scan_record sha256 w s head body commit [] ≡ ok stops
  unfolding scan_record
  record_stops s frame decoded other recovers =
      rw
        (
          decoded,
          beq_refl digest,
          other,
          recovers,
          (nat_beq_iff (total_length n) (total_length n)).1 refl,
        )
        refl

  pub marked_stops :
      (s : Scan) (frame : Frame)
      → 68 ≤ n
      → n ≤ max_frame_body_bytes
      → decode_frame sha256 body ≡ ok frame
      → commit ≢ frame_commit_magic ++ digest
      → w.recover_tail ≡ true
      → scan_step sha256 w s marked_record ≡ ok stops
  marked_stops s frame low high decoded other recovers =
      let body_there : take n (body ++ commit) ≡ body =
        ap (λ k. take k (body ++ commit)) (sym size) ∙ take-append body commit in
      let commit_there : drop n (body ++ commit) ≡ commit =
        ap (λ k. drop k (body ++ commit)) (sym size) ∙ drop-append body commit in
      let marker : take 40 commit ≡ commit =
        ap (λ k. take k commit) (sym commit_size) ∙ take-length commit in
      let none_behind : drop 40 commit ≡ [] =
        nothing (drop 40 commit) (omega (arith, length-drop 40 commit)) in
      step_goes_on sha256 w s marked_record
        (long_enough (length marked_record) (omega (arith, all_size)))
      ∙ ap (scan_head sha256 w s) (head_read (omega arith))
      ∙ head_goes_on sha256 w s head ((nat_beq_iff (2 ^ 64 - 1 - n) (2 ^ 64 - 1 - n)).1 refl)
          (within n low high) (not_short (total_length n))
      ∙ ap
          (λ b.
            scan_record sha256 w s head b (take 40 (drop n (body ++ commit)))
              (drop 40 (drop n (body ++ commit))))
          body_there
      ∙ ap (λ t. scan_record sha256 w s head body (take 40 t) (drop 40 t)) commit_there
      ∙ ap (λ t. scan_record sha256 w s head body t (drop 40 commit)) marker
      ∙ ap (scan_record sha256 w s head body commit) none_behind
      ∙ record_stops s frame decoded (not_committed other) recovers
