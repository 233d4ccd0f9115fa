-- ===== src/LogStore/Codec/Laws.antt =====
-- The bytes of an encoded record, and what decoding its body gives.
use mydocker.Base.{
  ℕ, ◌+◌, ◌-◌, ◌^◌, ◌<◌, ◌≡◌, sym, ap, subst, ◌∙◌, List, ◌++◌, ok, length, length-append, drop,
  take, arith, >>-eq-ok, >>=-eq-ok, ok_injective,
}
use mydocker.LogStore.Bytes.{
  put_uint, get_uint, get_uint_from, slice, get_uint-put_uint, take-append, drop-append,
}
use mydocker.LogStore.Frame.{Frame, validate_frame}
use mydocker.LogStore.Codec.{
  frame_prefix_bytes, frame_commit_bytes, frame_commit_magic, encode_stream, encode_body,
  encode_frame, decode_frame, body_length, length_prefix, digest_record, record_bytes,
}
use mydocker.LogStore.Codec.RoundTrip.{size_read, decode-encode_body, valid_parts}

module _ (sha256 : List ℕ → List ℕ)
    (digest_size : (payload : List ℕ) → length (sha256 payload) ≡ 32) where
  -- The body of a record, behind its prefix.
  record_body :
      (n : ℕ) (body : List ℕ)
      → length body ≡ n
      → slice frame_prefix_bytes
          (frame_prefix_bytes + n)
          (record_bytes sha256 (length_prefix n) body)
        ≡ body
  unfolding put_uint
  record_body n body size =
      let digest = digest_record sha256 (length_prefix n) body in
      let rest : List ℕ = body ++ (frame_commit_magic ++ digest) in
      let there : drop 32 (digest ++ rest) ≡ rest =
        ap (λ k. drop k (digest ++ rest)) (sym (digest_size (length_prefix n ++ body)))
        ∙ drop-append digest rest in
      let count : 48 + n - 48 ≡ length body = omega arith in
      ap (take (48 + n - 48)) there
      ∙ ap (λ k. take k rest) count
      ∙ take-append body (frame_commit_magic ++ digest)

  pub record_size :
      (n : ℕ) (body : List ℕ)
      → length body ≡ n
      → length (record_bytes sha256 (length_prefix n) body)
        ≡ frame_prefix_bytes + n + frame_commit_bytes
  unfolding put_uint
  record_size n body size =
      let digest = digest_record sha256 (length_prefix n) body in
      let end : List ℕ = frame_commit_magic ++ digest in
      omega (
        arith,
        digest_size (length_prefix n ++ body),
        length-append digest (body ++ end),
        length-append body end,
      )

  length_read :
      (n : ℕ) (body : List ℕ)
      → n < 2 ^ 64
      → get_uint (slice 0 8 (record_bytes sha256 (length_prefix n) body)) ≡ n
  unfolding put_uint get_uint get_uint_from
  length_read n body small = get_uint-put_uint 8 n small

  -- A frame that is encoded gives a record of the prefix, the body and the commit, whose first eight bytes are the
  -- length of the body, and decoding the body gives the frame again. The cursor and the sequence are uint64, and a
  -- digest has 32 bytes.
  pub decode_frame-encode_frame :
      (frame : Frame) (written : List ℕ)
      → frame.cursor < 2 ^ 64
      → frame.sequence < 2 ^ 64
      → encode_frame sha256 frame ≡ ok written
      → (decode_frame sha256
            (slice frame_prefix_bytes (frame_prefix_bytes + body_length frame) written)
          ≡ ok frame)
        × (length written ≡ frame_prefix_bytes + body_length frame + frame_commit_bytes)
        × (get_uint (slice 0 8 written) ≡ body_length frame)
  unfolding encode_frame
  decode_frame-encode_frame frame written cursor sequence h =
      let (valid, a) = >>-eq-ok (validate_frame sha256 frame) _ h in
      let (code, made, coded) = >>=-eq-ok (encode_stream frame.stream) _ a in
      let body = encode_body sha256 frame code in
      let n = body_length frame in
      let size = size_read sha256 digest_size frame code in
      let (_, c, d, _, bounded, _) = valid_parts sha256 digest_size frame code valid in
      subst
        (λ bytes.
          (decode_frame sha256 (slice 48 (48 + n) bytes) ≡ ok frame)
          × (length bytes ≡ 48 + n + 40)
          × (get_uint (slice 0 8 bytes) ≡ n))
        (ok_injective made)
        (
          ap (decode_frame sha256) (record_body n body size)
              ∙ decode-encode_body sha256 digest_size frame code valid coded cursor sequence,
          record_size n body size,
          length_read n body (ground arith),
        )
