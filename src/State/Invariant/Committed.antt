-- ===== src/State/Invariant/Committed.antt =====
-- A commit retains, and publishes only what the checks of the whole store accept.
use mydocker.State.Graph.{validate_ownership_graph}
use mydocker.Domain.ActiveAttempt.{scan, validate_one_active_attempt}
use mydocker.Operation.Target.{next_sequence}
use mydocker.Base.{
  inr, inl, ◌≡◌, refl, sym, ap, ◌∙◌, Bool, true, false, some, ok, err, >>-eq-ok, >>=-eq-ok,
  ok_injective, Result-cases,
}
use mydocker.State.Errors.{Error, cancelled, Check}
use mydocker.State.Records.{Codec}
use mydocker.State.Store.{MemoryData, RetentionPolicy, View, new_memory_data}
use mydocker.State.Retention.{next_available_event_sequence, apply_retention, settled}
use mydocker.State.Retention.Laws.{Retains, apply_retention-Retains}
use mydocker.State.Whole.{
  scan_retired, scan_orders, validate_orders, validate_suffix, validate_store,
}
use mydocker.State.Memory.{Callback, MemoryStore, commit_data, publish, update, call, view_of}
use mydocker.State.Reachable.{Reachable-Committed, Reachable}

module _ (codec : Codec) where
  pub commit_data-eq-ok :
      (p : RetentionPolicy) (a b : MemoryData)
      → commit_data codec p a ≡ ok b
      → (validate_store codec b ≡ ok tt) × ((x : MemoryData) × Retains a x × (b ≡ settled p x))
  unfolding commit_data
  commit_data-eq-ok p a b h =
      let ((d, changed), more, retained) = >>=-eq-ok (apply_retention codec.id_digest p a) _ h in
      let (valid, answer) = >>-eq-ok (validate_store codec d) _ more in
      let same : d ≡ b = ok_injective answer in
      let (x, kept, end) = apply_retention-Retains codec.id_digest p a d changed retained in
      (ap (validate_store codec) (sym same) ∙ valid, (x, kept, sym same ∙ end))

  -- What a transaction comes to, by the error of the context before it, what its callback answers with the data
  -- that it leaves, and the error of the context behind it.
  pub data Outcome (s : MemoryStore) (before after : Bool) (answer : Check) (left : MemoryData)
      : MemoryStore × Check → Type 0 where
    cancelled_before : before ≡ true → Outcome s before after answer left (s, err cancelled)
    callback_failed :
        {e : Error}
        → before ≡ false
        → answer ≡ err e
        → Outcome s before after answer left (s, err e)
    cancelled_after :
        before ≡ false
        → answer ≡ ok tt
        → after ≡ true
        → Outcome s before after answer left (s, err cancelled)
    not_retained :
        {e : Error}
        → before ≡ false
        → answer ≡ ok tt
        → after ≡ false
        → apply_retention codec.id_digest s.retention left ≡ err e
        → Outcome s before after answer left (s, err e)
    not_valid :
        {e : Error} {d : MemoryData} {changed : Bool}
        → before ≡ false
        → answer ≡ ok tt
        → after ≡ false
        → apply_retention codec.id_digest s.retention left ≡ ok (d, changed)
        → validate_store codec d ≡ err e
        → Outcome s before after answer left (s, err e)
    published :
        {d : MemoryData} {changed : Bool}
        → before ≡ false
        → answer ≡ ok tt
        → after ≡ false
        → apply_retention codec.id_digest s.retention left ≡ ok (d, changed)
        → validate_store codec d ≡ ok tt
        → Outcome s before after answer left (record s { contents = d }, ok tt)

  module _ (p : RetentionPolicy) (left d : MemoryData) (changed : Bool) (e : Error) where
    commit_refused :
        apply_retention codec.id_digest p left ≡ err e → commit_data codec p left ≡ err e
    unfolding commit_data
    commit_refused h = rw h refl

    commit_invalid :
        apply_retention codec.id_digest p left ≡ ok (d, changed)
        → validate_store codec d ≡ err e
        → commit_data codec p left ≡ err e
    unfolding commit_data
    commit_invalid kept invalid = rw (kept, invalid) refl

  commit_valid :
      (p : RetentionPolicy) (left d : MemoryData) (changed : Bool)
      → apply_retention codec.id_digest p left ≡ ok (d, changed)
      → validate_store codec d ≡ ok tt
      → commit_data codec p left ≡ ok d
  unfolding commit_data
  commit_valid p left d changed kept valid = rw (kept, valid) refl

  publish-Outcome :
      (s : MemoryStore) (after : Bool) (v : View) (answer : Check)
      → Outcome s false after answer v.data_of (publish codec s after (v, answer))
  unfolding publish
  publish-Outcome s after v (err e) = callback_failed refl refl
  publish-Outcome s true v (ok _) = cancelled_after refl refl refl
  publish-Outcome s false v (ok _) =
      elim (Result-cases (apply_retention codec.id_digest s.retention v.data_of)) [
        | inl ((d, changed), kept) ↦ elim (Result-cases (validate_store codec d)) [
          | inl (_, valid) ↦
              rw (publish, commit_valid s.retention v.data_of d changed kept valid)
                (published refl refl refl kept valid)
          | inr (e, invalid) ↦
              rw (publish, commit_invalid s.retention v.data_of d changed e kept invalid)
                (not_valid refl refl refl kept invalid)
        ]
        | inr (e, refused) ↦
            rw (publish, commit_refused s.retention v.data_of s.contents false e refused)
              (not_retained refl refl refl refused)
      ]

  -- Update is atomic. Where the context is cancelled before the callback, or the callback answers an error, or the
  -- context is cancelled behind it, or retention or the checks of the whole store refuse the data that the
  -- callback leaves, Update answers that error, the first of them, and the store is as it was. Otherwise it
  -- answers none, and the store holds the data as retention leaves it, and nothing else of it changes.
  pub update-Outcome :
      (s : MemoryStore) (fn : Callback) (before after : Bool)
      → Outcome s before after
          (call codec fn (view_of codec s true)).1
          (call codec fn (view_of codec s true)).0.data_of
          (update codec s (some fn) before after)
  unfolding update
  update-Outcome s fn true after = cancelled_before refl
  update-Outcome s fn false after =
      let (v, answer) = call codec fn (view_of codec s true) in publish-Outcome s after v answer

  fresh_valid : validate_store codec new_memory_data ≡ ok tt
  unfolding new_memory_data validate_store validate_suffix next_available_event_sequence
      next_sequence validate_orders scan_orders scan_retired validate_one_active_attempt scan
      validate_ownership_graph
  fresh_valid = refl

  -- Every store that transactions reach passes the checks of the whole store.
  pub Reachable-Valid :
      (s : MemoryStore) → Reachable codec s → validate_store codec s.contents ≡ ok tt
  Reachable-Valid s reached =
      Reachable-Committed codec (λ d. validate_store codec d ≡ ok tt)
        (λ p a b h. (commit_data-eq-ok p a b h).0) s reached fresh_valid
