-- ===== src/State/Reachable.antt =====
-- The stores that transactions reach, and how a property of the data is carried along them.
use mydocker.State.Retention.{validate_policy}
use mydocker.Base.{
  ok_injective, subst, >>-eq-ok, ◌≡◌, inl, inr, Bool, true, false, Option, none, some, ok, err,
  Result-cases,
}
use mydocker.State.Errors.{Check}
use mydocker.State.Records.{Codec}
use mydocker.State.Store.{MemoryData, new_memory_data, RetentionPolicy, View}
use mydocker.State.Memory.{
  Callback, MemoryStore, new_memory_store, call, commit_data, publish, update, view_of,
}
use mydocker.State.Write.{Write, Writes, stays, then_writes, call-Writes}

module _ (codec : Codec) where
  pub data Reachable : MemoryStore → Type 0 where
    opens :
        (policy : RetentionPolicy) (s : MemoryStore) → new_memory_store policy ≡ ok s → Reachable s
    updates :
        (s : MemoryStore) (fn : Option Callback) (before after : Bool)
        → Reachable s
        → Reachable (update codec s fn before after).0

  opened :
      (policy : RetentionPolicy) (s : MemoryStore)
      → new_memory_store policy ≡ ok s
      → record { contents = new_memory_data; retention = policy } ≡ s
  unfolding new_memory_store
  opened policy s fresh =
      let (_, made) = >>-eq-ok (validate_policy policy) _ fresh in ok_injective made

  module _ (I : MemoryData → Type 0) (kept : (a b : MemoryData) → Write codec a b → I a → I b)
      (committed : (p : RetentionPolicy) (a b : MemoryData)
        → commit_data codec p a ≡ ok b
        → I a
        → I b) where
    pub Writes-Invariant : (a b : MemoryData) → Writes codec a b → I a → I b
    Writes-Invariant a b (stays _) i = i
    Writes-Invariant a b (then_writes _ x _ w more) i = Writes-Invariant x b more (kept a x w i)

    publish-Invariant :
        (s : MemoryStore) (after : Bool) (v : View) (result : Check)
        → I s.contents
        → I v.data_of
        → I (publish codec s after (v, result)).0.contents
    unfolding publish
    publish-Invariant s after v (err e) i j = i
    publish-Invariant s true v (ok _) i j = i
    publish-Invariant s false v (ok _) i j =
        elim (Result-cases (commit_data codec s.retention v.data_of)) [
          | inl (d, accepted) ↦
              rw (publish, accepted) (committed s.retention v.data_of d accepted j)
          | inr (e, refused) ↦ rw (publish, refused) i
        ]

    pub update-Invariant :
        (s : MemoryStore) (fn : Option Callback) (before after : Bool)
        → I s.contents
        → I (update codec s fn before after).0.contents
    unfolding update
    update-Invariant s none before after i = i
    update-Invariant s (some fn) true after i = i
    update-Invariant s (some fn) false after i =
        let (v, result) = call codec fn (view_of codec s true) in
        publish-Invariant s after v result i
          (Writes-Invariant s.contents v.data_of (call-Writes codec fn (view_of codec s true)) i)

    pub Reachable-Invariant : (s : MemoryStore) → Reachable s → I new_memory_data → I s.contents
    unfolding new_memory_store
    Reachable-Invariant s (opens policy _ fresh) i =
        subst (λ x. I x.contents) (opened policy s fresh) i
    Reachable-Invariant s (updates old fn before after reached) i =
        update-Invariant old fn before after (Reachable-Invariant old reached i)

  -- A property of what a commit publishes, whatever was written.
  module _ (I : MemoryData → Type 0)
      (committed : (p : RetentionPolicy) (a b : MemoryData)
        → commit_data codec p a ≡ ok b
        → I b) where
    publish-Committed :
        (s : MemoryStore) (after : Bool) (v : View) (result : Check)
        → I s.contents
        → I (publish codec s after (v, result)).0.contents
    unfolding publish
    publish-Committed s after v (err e) i = i
    publish-Committed s true v (ok _) i = i
    publish-Committed s false v (ok _) i =
        elim (Result-cases (commit_data codec s.retention v.data_of)) [
          | inl (d, accepted) ↦ rw (publish, accepted) (committed s.retention v.data_of d accepted)
          | inr (e, refused) ↦ rw (publish, refused) i
        ]

    pub Reachable-Committed : (s : MemoryStore) → Reachable s → I new_memory_data → I s.contents
    unfolding update
    Reachable-Committed s (opens policy _ fresh) i =
        subst (λ x. I x.contents) (opened policy s fresh) i
    Reachable-Committed s (updates old none before after reached) i =
        Reachable-Committed old reached i
    Reachable-Committed s (updates old (some fn) true after reached) i =
        Reachable-Committed old reached i
    Reachable-Committed s (updates old (some fn) false after reached) i =
        let (v, result) = call codec fn (view_of codec old true) in
        publish-Committed old after v result (Reachable-Committed old reached i)
