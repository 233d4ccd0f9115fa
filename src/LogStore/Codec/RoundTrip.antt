-- ===== src/LogStore/Codec/RoundTrip.antt =====
-- A frame that is encoded and decoded is the same frame.
use mydocker.Base.{
  ℕ, ◌+◌, ◌^◌, ◌≤◌, ◌<◌, ◌≡◌, refl, sym, ap, subst, ◌∙◌, true, false, not, ◌||◌, List, [], ◌∷◌,
  ◌++◌, ok, err, fail_if, length, length-append, drop, take, ltb, nat_beq, arith, >>-eq-ok,
  is_empty, nat_beq_iff, String, fail_if-eq-ok, beq→eq, beq_refl, ok_injective,
}
use mydocker.Text.{Text, text_eq}
use mydocker.Domain.Errors.{Check as DomainCheck}
use mydocker.Domain.Identity.{validate_id, validate_container_id}
use mydocker.LogStore.Bytes.{
  put_uint, get_uint, get_uint_from, get_uint-put_uint, take-append, drop-append,
}
use mydocker.LogStore.Frame as Frames
use mydocker.LogStore.Frame.{
  Error, Check, Stream, Frame, encode_hex, validate_frame, or_invalid, validate_identity,
  max_payload_bytes,
}
use mydocker.LogStore.Codec.{
  Fields, read_fields, encode_stream, decode_stream, encode_body, assemble, decode_fields,
  decode_frame, frame_magic, is_identity_length, body_length,
}

plain : (n : ℕ) → 0 + n ≡ n
plain n = omega arith

decode-encode_stream :
    (stream : Stream) (code : ℕ) → encode_stream stream ≡ ok code → decode_stream code ≡ ok stream
unfolding encode_stream decode_stream
decode-encode_stream Frames.stdout code h =
    subst (λ n. decode_stream n ≡ ok Frames.stdout) (ok_injective h) refl
decode-encode_stream Frames.stderr code h =
    subst (λ n. decode_stream n ≡ ok Frames.stderr) (ok_injective h) refl
decode-encode_stream (Frames.other_stream s) code h = cc

id_length :
    (field : String) (id : Text)
    → validate_id field id ≡ ok tt
    → is_identity_length (length id) ≡ true
unfolding validate_id
id_length field [] h = ground arith
id_length field (b ∷ id) h = ground arith

or_invalid-eq-ok : (r : DomainCheck) (field : String) → or_invalid r field ≡ ok tt → r ≡ ok tt
or_invalid-eq-ok (ok _) field h = refl
or_invalid-eq-ok (err e) field h = cc

positive_length : (xs : List ℕ) → is_empty xs ≡ false → 0 < length xs
positive_length [] h = cc
positive_length (x ∷ xs) h = omega arith

fixed_fits : (c a p : ℕ) → ltb (68 + c + a + p) 68 ≡ false
fixed_fits c a p = ground arith

decode_long :
    (sha256 : List ℕ → List ℕ) (read : List ℕ)
    → ltb (length read) 68 ≡ false
    → decode_frame sha256 read ≡ decode_fields sha256 (read_fields read)
unfolding decode_frame
decode_long sha256 read long = rw long refl

module _ (sha256 : List ℕ → List ℕ)
    (digest_size : (payload : List ℕ) → length (sha256 payload) ≡ 32) (frame : Frame)
    (code : ℕ) where
  abbrev tail : List ℕ
  tail = frame.identity.container_id ++ (frame.identity.attempt_id ++ frame.payload)

  abbrev fields : Fields
  fields = record {
    size = body_length frame;
    magic = frame_magic;
    schema = frame.version;
    container_length = length frame.identity.container_id;
    attempt_length = length frame.identity.attempt_id;
    code = code;
    reserved = 0 ∷ 0 ∷ 0 ∷ [];
    cursor = frame.cursor;
    sequence = frame.sequence;
    payload_length = length frame.payload;
    digest = sha256 frame.payload;
    rest = tail;
  }

  abbrev Fits : Type 0
  Fits =
      (frame.version < 2 ^ 32)
      × (length frame.identity.container_id < 2 ^ 16)
      × (length frame.identity.attempt_id < 2 ^ 16)
      × (frame.cursor < 2 ^ 64)
      × (frame.sequence < 2 ^ 64)
      × (length frame.payload < 2 ^ 32)

  pub size_read : length (encode_body sha256 frame code) ≡ body_length frame
  unfolding encode_body put_uint
  size_read = omega (
    arith,
    digest_size frame.payload,
    length-append (sha256 frame.payload) tail,
    length-append frame.identity.container_id (frame.identity.attempt_id ++ frame.payload),
    length-append frame.identity.attempt_id frame.payload,
  )

  fields_read : Fits → read_fields (encode_body sha256 frame code) ≡ fields
  unfolding read_fields encode_body put_uint get_uint get_uint_from
  fields_read (v, c, a, n, m, p) i = record {
    size = size_read i;
    magic = frame_magic;
    schema = get_uint-put_uint 4 frame.version v i;
    container_length = get_uint-put_uint 2 (length frame.identity.container_id) c i;
    attempt_length = get_uint-put_uint 2 (length frame.identity.attempt_id) a i;
    code = plain code i;
    reserved = 0 ∷ 0 ∷ 0 ∷ [];
    cursor = get_uint-put_uint 8 frame.cursor n i;
    sequence = get_uint-put_uint 8 frame.sequence m i;
    payload_length = get_uint-put_uint 4 (length frame.payload) p i;
    digest =
        (ap (λ k. take k (sha256 frame.payload ++ tail)) (sym (digest_size frame.payload))
            ∙ take-append (sha256 frame.payload) tail)
          i;
    rest =
        (ap (λ k. drop k (sha256 frame.payload ++ tail)) (sym (digest_size frame.payload))
            ∙ drop-append (sha256 frame.payload) tail)
          i;
  }

  payload_read :
      drop (length frame.identity.attempt_id) (drop (length frame.identity.container_id) tail)
      ≡ frame.payload
  payload_read =
      ap (drop (length frame.identity.attempt_id))
        (drop-append frame.identity.container_id (frame.identity.attempt_id ++ frame.payload))
      ∙ drop-append frame.identity.attempt_id frame.payload

  attempt_read :
      take (length frame.identity.attempt_id) (drop (length frame.identity.container_id) tail)
      ≡ frame.identity.attempt_id
  attempt_read =
      ap (take (length frame.identity.attempt_id))
        (drop-append frame.identity.container_id (frame.identity.attempt_id ++ frame.payload))
      ∙ take-append frame.identity.attempt_id frame.payload

  -- What a valid frame has.
  pub valid_parts :
      validate_frame sha256 frame ≡ ok tt
      → (frame.version ≡ 1)
        × (is_identity_length (length frame.identity.container_id) ≡ true)
        × (is_identity_length (length frame.identity.attempt_id) ≡ true)
        × (0 < length frame.payload)
        × (length frame.payload ≤ max_payload_bytes)
        × (frame.payload_sha256 ≡ encode_hex (sha256 frame.payload))
  unfolding validate_frame
  valid_parts h =
      let identity = frame.identity in
      let (version, a) =
        >>-eq-ok (fail_if (not (nat_beq frame.version 1)) Frames.unsupported_schema) _ h in
      let (ids, b) = >>-eq-ok (validate_identity identity) _ a in
      let (c_valid, a_valid) =
        >>-eq-ok (or_invalid (validate_container_id identity.container_id) "log container identity")
          _ ids in
      let (_, c) =
        >>-eq-ok (fail_if (not (Frames.is_stream frame.stream)) (Frames.invalid_frame "stream")) _
          b in
      let (_, d) =
        >>-eq-ok
          (fail_if (nat_beq frame.cursor 0 || nat_beq frame.sequence 0)
            (Frames.invalid_frame "cursor"))
          _ c in
      let (full, e) =
        >>-eq-ok (fail_if (is_empty frame.payload) (Frames.invalid_frame "payload")) _ d in
      let (bounded, checksum) =
        >>-eq-ok
          (fail_if (ltb max_payload_bytes (length frame.payload)) (Frames.invalid_frame "payload"))
          _ e in
      (
        ground arith,
        id_length "container_id" identity.container_id
            (or_invalid-eq-ok _ "log container identity" c_valid),
        id_length "attempt_id" identity.attempt_id
            (or_invalid-eq-ok _ "log attempt identity" a_valid),
        positive_length frame.payload (fail_if-eq-ok _ _ full),
        ground arith,
        beq→eq frame.payload_sha256 (encode_hex (sha256 frame.payload)) (ground arith),
      )

  assembled :
      validate_frame sha256 frame ≡ ok tt
      → assemble sha256 fields frame.stream frame.identity.container_id frame.identity.attempt_id
          frame.payload
        ≡ ok frame
  unfolding assemble
  assembled h =
      let (version, _, _, _, _, hex) = valid_parts h in
      let made : Frame = record frame {
        version = 1;
        payload_sha256 = encode_hex (sha256 frame.payload);
      } in
      let same : made ≡ frame =
        λ i. record frame { version = sym version i; payload_sha256 = sym hex i } in
      rw (beq_refl (sha256 frame.payload), ap (validate_frame sha256) same ∙ h) (ap ok same)

  decoded :
      validate_frame sha256 frame ≡ ok tt
      → encode_stream frame.stream ≡ ok code
      → decode_fields sha256 fields ≡ ok frame
  unfolding decode_fields
  decoded h coded =
      let (version, c, a, full, bounded, hex) = valid_parts h in
      let schema : nat_beq frame.version 1 ≡ true = ground arith in
      let payload : (nat_beq (length frame.payload) 0
            || ltb max_payload_bytes (length frame.payload))
          ≡ false =
        ground arith in
      let zeros : List ℕ = 0 ∷ 0 ∷ 0 ∷ [] in
      rw
        (
          beq_refl frame_magic,
          beq_refl zeros,
          schema,
          c,
          a,
          decode-encode_stream frame.stream code coded,
          payload,
          (nat_beq_iff (body_length frame) (body_length frame)).1 refl,
          take-append frame.identity.container_id (frame.identity.attempt_id ++ frame.payload),
          attempt_read,
          payload_read,
        )
        (assembled h)

  -- A frame whose cursor and sequence fit in a uint64.
  pub decode-encode_body :
      validate_frame sha256 frame ≡ ok tt
      → encode_stream frame.stream ≡ ok code
      → frame.cursor < 2 ^ 64
      → frame.sequence < 2 ^ 64
      → decode_frame sha256 (encode_body sha256 frame code) ≡ ok frame
  decode-encode_body h coded small_cursor small_sequence =
      let (version, c, a, full, bounded, hex) = valid_parts h in
      let read =
        fields_read
          (ground arith, ground arith, ground arith, small_cursor, small_sequence, omega arith) in
      let long : ltb (length (encode_body sha256 frame code)) 68 ≡ false =
        ap (λ n. ltb n 68) size_read
        ∙ fixed_fits (length frame.identity.container_id) (length frame.identity.attempt_id)
            (length frame.payload) in
      decode_long sha256 (encode_body sha256 frame code) long
      ∙ ap (decode_fields sha256) read
      ∙ decoded h coded
