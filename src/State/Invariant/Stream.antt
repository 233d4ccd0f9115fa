-- ===== src/State/Invariant/Stream.antt =====
-- The events of a reachable store are consecutive, and what a resumed read gives of them.
use mydocker.State.Receipts.{unless_ok}
use mydocker.Base.{
  fail_if, List-cases, subst, is_ok, ℕ, zero, suc, ◌+◌, ◌≤◌, ◌<◌, ◌≡◌, inl, inr, refl, sym, ap, ◌∙◌,
  Bool, true, false, not, List, [], ◌∷◌, ok, arith, keep, take, length, leb, nat_beq, >>-eq-ok,
  ok_injective, fail_if-eq-ok, Bool-cases,
}
use mydocker.Base.Int.{ltb_ℤ, ℤ, pos, negsuc}
use mydocker.Text.{Text}
use mydocker.State.Errors.{
  invariant_violation, transaction_closed, invalid_event_limit, event_resume_gap,
}
use mydocker.Operation.Target.{next_sequence, max_sequence}
use mydocker.Operation.Event.{Event, validate_after}
use mydocker.State.Records.{Codec}
use mydocker.State.Store.{MemoryData, events_after, is_gap, page, ensure_open}
use mydocker.State.Retention.{next_available_event_sequence}
use mydocker.State.Whole.{validate_store, validate_suffix, validate_stream, last_sequence}
use mydocker.State.Memory.{MemoryStore, view_of}
use mydocker.State.Reachable.{Reachable}
use mydocker.State.Invariant.Committed.{Reachable-Valid}

-- The sequences from a number on, none left out.
abbrev pub Consecutive : ℕ → List Event → Type 0
Consecutive n [] = Unit
Consecutive n (e ∷ es) = (e.sequence ≡ n) × Consecutive (suc n) es

take-Consecutive : (k n : ℕ) (es : List Event) → Consecutive n es → Consecutive n (take k es)
take-Consecutive zero n es h = tt
take-Consecutive (suc k) n [] h = tt
take-Consecutive (suc k) n (e ∷ es) (here, rest) = (here, take-Consecutive k (suc n) es rest)

page-Consecutive :
    (limit : ℤ) (n : ℕ) (es : List Event) → Consecutive n es → Consecutive n (page limit es)
page-Consecutive (pos zero) n es h = h
page-Consecutive (pos (suc k)) n es h = take-Consecutive (suc k) n es h
page-Consecutive (negsuc k) n es h = h

abbrev pub later : ℕ → List Event → List Event
later after = keep (λ (e : Event). not (leb e.sequence after))

-- Behind a position, what is later is all there is.
later_all : (after n : ℕ) (es : List Event) → Consecutive n es → after < n → later after es ≡ es
later_all after n [] h small = refl
later_all after n (e ∷ es) (here, rest) small =
    let kept : leb e.sequence after ≡ false = ground arith in
    let larger : after < suc n = omega arith in
    rw (kept, later_all after (suc n) es rest larger) refl

-- What is later than a position in the stream, or just before it, starts behind it and ends with the stream.
later-Consecutive :
    (after n : ℕ) (es : List Event)
    → Consecutive n es
    → n ≤ suc after
    → after < n + length es
    → Consecutive (suc after) (later after es)
      × (suc after + length (later after es) ≡ n + length es)
later-Consecutive after n [] h low high = (tt, omega arith)
later-Consecutive after n (e ∷ es) (here, rest) low high =
    elim (Bool-cases (leb e.sequence after)) [
      | inl t ↦
          let below : suc n ≤ suc after = ground arith in
          let inside : after < suc n + length es = omega arith in
          let (behind, size) = later-Consecutive after (suc n) es rest below inside in
          rw t (behind, omega arith)
      | inr f ↦
          let start : n ≡ suc after = ground arith in
          let larger : after < suc n = omega arith in
          rw (f, later_all after (suc n) es rest larger)
            ((here ∙ start, subst (λ m. Consecutive (suc m) es) start rest), omega arith)
    ]

-- The streams that the checks of the whole store accept.
after_sequence :
    (decodes : Text → Bool) (e previous : Event)
    → is_ok (validate_after decodes e previous) ≡ true
    → e.sequence ≡ suc previous.sequence
unfolding validate_after next_sequence
after_sequence decodes e previous h = ground arith

stream-Consecutive :
    (decodes : Text → Bool) (e : Event) (es : List Event)
    → validate_stream decodes (e ∷ es) ≡ ok tt
    → Consecutive e.sequence (e ∷ es) × (last_sequence e es ≡ e.sequence + length es)
unfolding validate_stream
stream-Consecutive decodes e [] h = ((refl, tt), omega arith)
stream-Consecutive decodes e (x ∷ es) h =
    let (here, rest) =
      >>-eq-ok
        (unless_ok (validate_after decodes x e) (invariant_violation "retained event ordering")) _
        h in
    let ok_after : is_ok (validate_after decodes x e) ≡ true = ground arith in
    let next = after_sequence decodes x e ok_after in
    let (stream, last) = stream-Consecutive decodes x es rest in
    ((refl, subst (λ n. Consecutive n (x ∷ es)) next stream), omega arith)

-- The kept stream: it runs from the first to the last sequence that the store names.
abbrev pub IsStream : MemoryData → Type 0
IsStream d =
    Consecutive d.first_event d.events × (d.first_event + length d.events ≡ suc d.last_event)

suffix-IsStream :
    (decodes : Text → Bool) (d : MemoryData)
    → validate_suffix decodes d ≡ ok tt
    → d.last_event < max_sequence
    → IsStream d
unfolding validate_suffix next_available_event_sequence next_sequence
suffix-IsStream decodes d h small = elim (List-cases d.events) [
  | inl empty ↦
      let next : next_sequence d.last_event ≡ ok (d.last_event + 1) = ground arith in
      let start : d.first_event ≡ d.last_event + 1 = ground arith in rw empty (tt, omega arith)
  | inr (e, es, filled) ↦
      let ends : (e.sequence ≡ d.first_event) × (last_sequence e es ≡ d.last_event) =
        (ground arith, ground arith) in
      let ordered : validate_stream decodes (e ∷ es) ≡ ok tt = ground arith in
      let (stream, last) = stream-Consecutive decodes e es ordered in
      rw filled (subst (λ n. Consecutive n (e ∷ es)) ends.0 stream, omega arith)
]

store_suffix :
    (codec : Codec) (d : MemoryData)
    → validate_store codec d ≡ ok tt
    → validate_suffix codec.decodes d ≡ ok tt
unfolding validate_store
store_suffix codec d v =
    let (_, a) =
      >>-eq-ok (fail_if (nat_beq d.first_event 0) (invariant_violation "retention metadata")) _ v in
    let (suffix, _) = >>-eq-ok (validate_suffix codec.decodes d) _ a in suffix

inside_stream :
    (d : MemoryData) (after : ℕ)
    → 0 < after
    → is_gap d after ≡ false
    → (d.first_event ≤ suc after) × (after ≤ d.last_event)
unfolding is_gap
inside_stream d after positive h = (ground arith, ground arith)

-- A read of a reachable store that resumes at a position, and that is not refused, neither skips nor repeats an event: the
-- events that it gives have the sequences behind the position, in their order, and without a limit they
-- reach the last one. The last sequence is not the greatest uint64.
pub events_after-Consecutive :
    (codec : Codec) (s : MemoryStore) (after : ℕ) (limit : ℤ) (es : List Event)
    → Reachable codec s
    → s.contents.last_event < max_sequence
    → 0 < after
    → events_after (view_of codec s false) after limit ≡ ok es
    → Consecutive (suc after) es × (limit ≡ pos 0 → after + length es ≡ s.contents.last_event)
unfolding events_after ensure_open
events_after-Consecutive codec s after limit es reached small positive h =
    let d = s.contents in
    let suffix = store_suffix codec d (Reachable-Valid codec s reached) in
    let (stream, size) = suffix-IsStream codec.decodes d suffix small in
    let (_, a) = >>-eq-ok (fail_if false transaction_closed) _ h in
    let (_, b) = >>-eq-ok (fail_if (ltb_ℤ limit (pos 0)) invalid_event_limit) _ a in
    let (gap, answer) =
      >>-eq-ok (fail_if (is_gap d after) (event_resume_gap after d.first_event d.last_event)) _ b in
    let (low, high) = inside_stream d after positive (fail_if-eq-ok (is_gap d after) _ gap) in
    let inside : after < d.first_event + length d.events = omega arith in
    let (behind, all) = later-Consecutive after d.first_event d.events stream low inside in
    let paged = ok_injective answer in
    (
      subst (Consecutive (suc after)) paged
          (page-Consecutive limit (suc after) (later after d.events) behind),
      λ whole.
          let same : later after d.events ≡ es =
            ap (λ x. page x (later after d.events)) (sym whole) ∙ paged in
          let sized = ap length same in omega arith,
    )
