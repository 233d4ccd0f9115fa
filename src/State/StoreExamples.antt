-- ===== src/State/StoreExamples.antt =====
-- The theorems of the store at the concrete stores of Sample.
use mydocker.Operation.Event.{Event}
use mydocker.Base.{
  inl, List, is_ok, ◌==◌, length, arith, ◌≡◌, refl, true, false, [], ◌∷◌, none, some, ok, lookup,
}
use mydocker.Base.Int.{◌≤ℤ◌, pos}
use mydocker.Text.{Text, bytes, text_eq}
use mydocker.State.Sample.{
  codec, empty_store, busy_store, done_store, busy-Reachable, done-Reachable, state_opened, puts,
  finishes, active, answered, owned_store, owned-Reachable, owned_pair, owned_pair-there,
  event_store, event-Reachable, numbered,
}
use mydocker.State.Records.{OperationRecord, new_operation_record}
use mydocker.State.Store.{MemoryData}
use mydocker.State.Memory.{update, view_of, call}
use mydocker.State.Store.{View, RetentionPolicy, events_after}
use mydocker.State.Invariant.Committed.{update-Outcome, Reachable-Valid, Outcome}
use mydocker.State.Invariant.OneActive.{Reachable-OneActive}
use mydocker.State.Invariant.Filed.{Reachable-Filed, Filed}
use mydocker.State.Invariant.Graph.{OwnedPair, Reachable-OwnedPair}
use mydocker.State.Invariant.Stream.{events_after-Consecutive, Consecutive}
use mydocker.State.Invariant.Replay.{update-Replays, Replays}
use mydocker.State.Whole.{validate_store}
use mydocker.State.Progress.{put_operation}
use mydocker.State.Progress.Swap.{put_operation-eq-ok}
use mydocker.State.Retention.Bounds.{identities, apply_retention-bounds}
use mydocker.State.Retention.Newest.{IsNewest, apply_retention-Newest}

update-Outcome_example :
    Outcome codec empty_store false false
      (call codec finishes (view_of codec empty_store true)).1
      (call codec finishes (view_of codec empty_store true)).0.data_of
      (update codec empty_store (some finishes) false false)
update-Outcome_example = update-Outcome codec empty_store finishes false false

Reachable-Valid_example : validate_store codec done_store.contents ≡ ok tt
Reachable-Valid_example = Reachable-Valid codec done_store done-Reachable

abbrev busy_record : OperationRecord
busy_record = record (new_operation_record active) { revision = 1 }

Reachable-OneActive_example : bytes "op-1" ≡ bytes "op-1"
unfolding state_opened
Reachable-OneActive_example =
    Reachable-OneActive codec busy_store busy-Reachable active.target (bytes "op-1") (bytes "op-1")
      busy_record busy_record refl refl refl refl

Reachable-Filed_example : Filed codec done_store.contents
Reachable-Filed_example = Reachable-Filed codec done_store done-Reachable

abbrev done_record : OperationRecord
done_record = record (new_operation_record answered) { revision = 1 }

update-Replays_example :
    Replays codec
      (bytes "op-1")
      answered
      (update codec done_store (some (puts active)) false false).0.contents
unfolding state_opened
update-Replays_example =
    update-Replays codec (bytes "op-1") answered (refl, refl) done_store (some (puts active)) false
      false (inl (done_record, refl, refl))

Reachable-OwnedPair_example : OwnedPair owned_store.contents (bytes "container-demo") owned_pair
unfolding state_opened
Reachable-OwnedPair_example =
    Reachable-OwnedPair codec owned_store owned-Reachable (bytes "container-demo") owned_pair
      owned_pair-there refl

events_after-Consecutive_example :
    Consecutive 2 (numbered 2 ∷ numbered 3 ∷ [])
    × (pos 0 ≡ pos 0 → 3 ≡ event_store.contents.last_event)
unfolding state_opened events_after
events_after-Consecutive_example =
    events_after-Consecutive codec event_store 1 (pos 0) (numbered 2 ∷ numbered 3 ∷ [])
      event-Reachable (omega arith) (omega arith) refl

abbrev small : RetentionPolicy
small = record { terminal_limit = pos 1; identity_limit = pos 4; event_limit = pos 2 }

abbrev shortened : MemoryData
shortened = record (event_store.contents) { events = numbered 2 ∷ numbered 3 ∷ []; first_event = 2 }

apply_retention-bounds_example :
    (pos (length shortened.events) ≤ℤ small.event_limit)
    × (pos (identities shortened) ≤ℤ small.identity_limit)
unfolding state_opened
apply_retention-bounds_example =
    apply_retention-bounds codec.id_digest small event_store.contents shortened true refl

apply_retention-Newest_example :
    (shortened.sandboxes ≡ event_store.contents.sandboxes)
    × (shortened.pairs ≡ event_store.contents.pairs)
    × (shortened.last_event ≡ event_store.contents.last_event)
    × ((id : Text) (r : OperationRecord)
        → lookup id shortened.operations ≡ some r
        → lookup id event_store.contents.operations ≡ some r)
    × IsNewest small.event_limit event_store.contents.events shortened.events
    × ((x : Event) (rest : List Event)
        → shortened.events ≡ x ∷ rest
        → shortened.first_event ≡ x.sequence)
unfolding state_opened
apply_retention-Newest_example =
    apply_retention-Newest codec.id_digest small event_store.contents shortened true refl

abbrev written : View
written = (put_operation codec (view_of codec empty_store true) (new_operation_record active) 0).0

put_operation-eq-ok_example :
    (busy_record ≡ record (new_operation_record active) { revision = 1 })
    × (lookup (bytes "op-1") written.data_of.operations ≡ some busy_record)
    × ((other : Text)
        → (bytes "op-1" == other) ≡ false
        → lookup other written.data_of.operations ≡ none)
    × ((p : OperationRecord)
        → p.operation.id ≡ bytes "op-1"
        → is_ok (put_operation codec written p 0).1 ≡ false)
unfolding state_opened
put_operation-eq-ok_example =
    put_operation-eq-ok codec (view_of codec empty_store true) written (new_operation_record active)
      busy_record 0 refl
