-- ===== src/LogStore/Scan/Step.antt =====
-- One turn of the walk over bytes that begin with an encoded record.
use mydocker.Base.{
  ℕ, ◌+◌, ◌-◌, ◌^◌, ◌≤◌, ◌<◌, ◌≡◌, refl, sym, ap, ◌∙◌, true, false, ◌||◌, List, [], ◌∷◌, ◌++◌, ok,
  length, length-append, drop, take, take-length, arith, ltb, nat_beq, nat_beq_iff, beq_refl,
}
use mydocker.Text.{text_eq}
use mydocker.LogStore.Bytes.{
  put_uint, get_uint, get_uint_from, get_uint-put_uint, take-append, drop-append,
}
use mydocker.LogStore.Frame.{Frame, validate_frame}
use mydocker.LogStore.Codec.{
  frame_commit_magic, encode_stream, encode_body, decode_frame, body_length, length_prefix,
  digest_record, record_bytes, max_frame_body_bytes, is_identity_length,
}
use mydocker.LogStore.Codec.RoundTrip.{size_read, decode-encode_body, valid_parts}
use mydocker.LogStore.Scan.{
  Scan, Walk, Head, goes_on, read_head, advance, check_order, is_committed, scan_record, scan_head,
  scan_step, total_length,
}

pub append_assoc {ℓ} : {A : Type ℓ} (xs ys zs : List A) → (xs ++ ys) ++ zs ≡ xs ++ (ys ++ zs)
append_assoc [] ys zs = refl
append_assoc (x ∷ xs) ys zs = ap (λ l. x ∷ l) (append_assoc xs ys zs)

module _ (sha256 : List ℕ → List ℕ)
    (digest_size : (payload : List ℕ) → length (sha256 payload) ≡ 32) (w : Walk) (n : ℕ)
    (body rest : List ℕ) where
  abbrev digest : List ℕ
  digest = digest_record sha256 (length_prefix n) body

  abbrev behind : List ℕ
  behind = body ++ ((frame_commit_magic ++ digest) ++ rest)

  abbrev head : Head
  head = record {
    size = total_length n + length rest;
    declared = n;
    complement = 2 ^ 64 - 1 - n;
    length_bytes = length_prefix n;
    stored = digest;
    behind = behind;
  }

  same_bytes : (digest ++ (body ++ (frame_commit_magic ++ digest))) ++ rest ≡ digest ++ behind
  same_bytes =
      append_assoc digest (body ++ (frame_commit_magic ++ digest)) rest
      ∙ ap (λ l. digest ++ l) (append_assoc body (frame_commit_magic ++ digest) rest)

  thirty_two : 32 ≡ length digest
  thirty_two = sym (digest_size (length_prefix n ++ body))

  all_size :
      length body ≡ n
      → length (record_bytes sha256 (length_prefix n) body ++ rest) ≡ total_length n + length rest
  unfolding put_uint
  all_size size = omega (
    arith,
    digest_size (length_prefix n ++ body),
    ap length same_bytes,
    length-append digest behind,
    length-append body ((frame_commit_magic ++ digest) ++ rest),
    length-append digest rest,
  )

  head_read :
      length body ≡ n
      → n < 2 ^ 64
      → read_head (record_bytes sha256 (length_prefix n) body ++ rest) ≡ head
  unfolding put_uint get_uint get_uint_from read_head
  head_read size small i = record {
    size = all_size size i;
    declared = get_uint-put_uint 8 n small i;
    complement = get_uint-put_uint 8 (2 ^ 64 - 1 - n) (omega arith) i;
    length_bytes = length_prefix n;
    stored =
        (ap (take 32) same_bytes
            ∙ ap (λ k. take k (digest ++ behind)) thirty_two
            ∙ take-append digest behind)
          i;
    behind =
        (ap (drop 32) same_bytes
            ∙ ap (λ k. drop k (digest ++ behind)) thirty_two
            ∙ drop-append digest behind)
          i;
  }

  commit_read : take 40 ((frame_commit_magic ++ digest) ++ rest) ≡ frame_commit_magic ++ digest
  commit_read =
      ap (λ l. frame_commit_magic ++ l)
        (ap (λ k. take k (digest ++ rest)) thirty_two ∙ take-append digest rest)

  next_read : drop 40 ((frame_commit_magic ++ digest) ++ rest) ≡ rest
  next_read = ap (λ k. drop k (digest ++ rest)) thirty_two ∙ drop-append digest rest

  committed : is_committed sha256 w head body (frame_commit_magic ++ digest) ≡ true
  committed =
      let rest_of : take 32 digest ≡ digest =
        ap (λ k. take k digest) thirty_two ∙ take-length digest in
      rw (beq_refl frame_commit_magic, rest_of, beq_refl digest) refl

-- The turn along its checks.
module _ (sha256 : List ℕ → List ℕ) (w : Walk) (s : Scan) where
  record_goes_on :
      (head : Head) (body commit next : List ℕ) (frame : Frame)
      → decode_frame sha256 body ≡ ok frame
      → head.stored ≡ digest_record sha256 head.length_bytes body
      → is_committed sha256 w head body commit ≡ true
      → check_order w s frame ≡ ok tt
      → scan_record sha256 w s head body commit next
        ≡ ok (goes_on (advance w s frame (total_length head.declared)) next)
  unfolding scan_record
  record_goes_on head body commit next frame decoded stored committed follows =
      rw
        (
          decoded,
          stored,
          beq_refl (digest_record sha256 head.length_bytes body),
          committed,
          follows,
        )
        refl

  pub head_goes_on :
      (head : Head)
      → nat_beq head.complement (2 ^ 64 - 1 - head.declared) ≡ true
      → (ltb head.declared 68 || ltb max_frame_body_bytes head.declared) ≡ false
      → ltb head.size (total_length head.declared) ≡ false
      → scan_head sha256 w s head
        ≡ scan_record sha256 w s head
            (take head.declared head.behind)
            (take 40 (drop head.declared head.behind))
            (drop 40 (drop head.declared head.behind))
  unfolding scan_head
  head_goes_on head complement bounds size = rw (complement, bounds, size) refl

  pub step_goes_on :
      (bytes : List ℕ)
      → ltb (length bytes) 48 ≡ false
      → scan_step sha256 w s bytes ≡ scan_head sha256 w s (read_head bytes)
  unfolding scan_step
  step_goes_on bytes size = rw size refl

pub within :
    (n : ℕ) → 68 ≤ n → n ≤ max_frame_body_bytes → (ltb n 68 || ltb max_frame_body_bytes n) ≡ false
within n low high = ground arith

fits : (n k : ℕ) → ltb (total_length n + k) (total_length n) ≡ false
fits n k = ground arith

fits_prefix : (n k : ℕ) → ltb (total_length n + k) 48 ≡ false
fits_prefix n k = ground arith

identity_bound : (n : ℕ) → is_identity_length n ≡ true → n ≤ 128
identity_bound n h = ground arith

pub frame_bounds :
    (sha256 : List ℕ → List ℕ) (digest_size : (payload : List ℕ) → length (sha256 payload) ≡ 32)
    (frame : Frame) (code : ℕ)
    → validate_frame sha256 frame ≡ ok tt
    → (68 ≤ body_length frame)
      × (body_length frame ≤ max_frame_body_bytes)
      × (body_length frame < 2 ^ 64)
frame_bounds sha256 digest_size frame code valid =
    let (_, c, a, full, bounded, _) = valid_parts sha256 digest_size frame code valid in
    let c_bound = identity_bound (length frame.identity.container_id) c in
    let a_bound = identity_bound (length frame.identity.attempt_id) a in
    (omega arith, omega arith, omega arith)

-- A record that follows what was scanned continues the walk behind it.
module _ (sha256 : List ℕ → List ℕ)
    (digest_size : (payload : List ℕ) → length (sha256 payload) ≡ 32) (w : Walk) (s : Scan)
    (frame : Frame) (code : ℕ) (rest : List ℕ) (valid : validate_frame sha256 frame ≡ ok tt)
    (coded : encode_stream frame.stream ≡ ok code) (cursor : frame.cursor < 2 ^ 64)
    (sequence : frame.sequence < 2 ^ 64) (follows : check_order w s frame ≡ ok tt) where
  abbrev n : ℕ
  n = body_length frame

  abbrev body_bytes : List ℕ
  body_bytes = encode_body sha256 frame code

  record_turn :
      scan_record sha256 w s
        (head sha256 digest_size w n body_bytes rest)
        body_bytes
        (frame_commit_magic ++ digest sha256 digest_size w n body_bytes rest)
        rest
      ≡ ok (goes_on (advance w s frame (total_length n)) rest)
  record_turn =
      record_goes_on sha256 w s (head sha256 digest_size w n body_bytes rest) body_bytes
        (frame_commit_magic ++ digest sha256 digest_size w n body_bytes rest) rest frame
        (decode-encode_body sha256 digest_size frame code valid coded cursor sequence) refl
        (committed sha256 digest_size w n body_bytes rest) follows

  head_turn :
      scan_head sha256 w s (head sha256 digest_size w n body_bytes rest)
      ≡ ok (goes_on (advance w s frame (total_length n)) rest)
  head_turn =
      let (low, high, _) = frame_bounds sha256 digest_size frame code valid in
      let size = size_read sha256 digest_size frame code in
      let tail : List ℕ =
        (frame_commit_magic ++ digest sha256 digest_size w n body_bytes rest) ++ rest in
      let all : List ℕ = behind sha256 digest_size w n body_bytes rest in
      let body_there : take n all ≡ body_bytes =
        ap (λ k. take k all) (sym size) ∙ take-append body_bytes tail in
      let tail_there : drop n all ≡ tail =
        ap (λ k. drop k all) (sym size) ∙ drop-append body_bytes tail in
      head_goes_on sha256 w s (head sha256 digest_size w n body_bytes rest)
        ((nat_beq_iff (2 ^ 64 - 1 - n) (2 ^ 64 - 1 - n)).1 refl) (within n low high)
        (fits n (length rest))
      ∙ ap
          (λ b.
            scan_record sha256 w s (head sha256 digest_size w n body_bytes rest) b
              (take 40 (drop n all)) (drop 40 (drop n all)))
          body_there
      ∙ ap
          (λ t.
            scan_record sha256 w s (head sha256 digest_size w n body_bytes rest) body_bytes
              (take 40 t) (drop 40 t))
          tail_there
      ∙ ap
          (λ c.
            scan_record sha256 w s (head sha256 digest_size w n body_bytes rest) body_bytes c
              (drop 40 tail))
          (commit_read sha256 digest_size w n body_bytes rest)
      ∙ ap
          (λ t.
            scan_record sha256 w s (head sha256 digest_size w n body_bytes rest) body_bytes
              (frame_commit_magic ++ digest sha256 digest_size w n body_bytes rest) t)
          (next_read sha256 digest_size w n body_bytes rest)
      ∙ record_turn

  pub step_turn :
      scan_step sha256 w s (record_bytes sha256 (length_prefix n) body_bytes ++ rest)
      ≡ ok (goes_on (advance w s frame (total_length n)) rest)
  step_turn =
      let (_, _, small) = frame_bounds sha256 digest_size frame code valid in
      let size = size_read sha256 digest_size frame code in
      step_goes_on sha256 w s (record_bytes sha256 (length_prefix n) body_bytes ++ rest) (
        ap (λ k. ltb k 48) (all_size sha256 digest_size w n body_bytes rest size)
        ∙ fits_prefix n (length rest))
      ∙ ap (scan_head sha256 w s) (head_read sha256 digest_size w n body_bytes rest size small)
      ∙ head_turn
