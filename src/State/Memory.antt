-- ===== src/State/Memory.antt =====
-- internal/state/memory.go, View and Update of MemoryStore. A callback is a tree of the calls that it makes: it sees the
-- answer of each write and reads what it likes. The lock makes the calls of View and Update one after the
-- other; the errors of the context before and behind the callback are arguments.
use mydocker.Base.{ℕ, Bool, true, false, Option, none, some, Result, ok, err, fail_if, ◌>>◌, ◌>>=◌}
use mydocker.Text.{Text}
use mydocker.Operation.Event.{Event}
use mydocker.State.Errors.{Error, Check, nil_callback, cancelled}
use mydocker.State.Records.{Codec, SandboxRecord, ContainerAttemptRecord, OperationRecord}
use mydocker.State.Store.{MemoryData, new_memory_data, RetentionPolicy, View}
use mydocker.State.Transaction.{
  put_sandbox, delete_sandbox, put_container_attempt, delete_container_attempt,
}
use mydocker.State.Progress.{put_operation, append_event}
use mydocker.State.Retention.{apply_retention, validate_policy}
use mydocker.State.Whole.{validate_store}

-- func(Tx) error
pub data Callback : Type 0 where
  returns : Check → Callback
  reads : (View → Callback) → Callback
  puts_sandbox : SandboxRecord → ℕ → (Result Error SandboxRecord → Callback) → Callback
  deletes_sandbox : Text → ℕ → (Check → Callback) → Callback
  puts_pair :
      ContainerAttemptRecord → ℕ → (Result Error ContainerAttemptRecord → Callback) → Callback
  deletes_pair : Text → ℕ → (Check → Callback) → Callback
  puts_operation : OperationRecord → ℕ → (Result Error OperationRecord → Callback) → Callback
  appends : Event → (Result Error Event → Callback) → Callback

pub record MemoryStore : Type 0 where
  pub contents : MemoryData
  pub retention : RetentionPolicy

unfoldable pub new_memory_store : RetentionPolicy → Result Error MemoryStore
unfolding validate_policy
new_memory_store policy = do
  validate_policy policy
  ok (record { contents = new_memory_data; retention = policy })

module _ (codec : Codec) where
  unfoldable pub call : Callback → View → View × Check
  call (returns result) v = (v, result)
  call (reads next) v = call (next v) v
  call (puts_sandbox r expected next) v =
      let (after, answer) = put_sandbox codec v r expected in call (next answer) after
  call (deletes_sandbox id expected next) v =
      let (after, answer) = delete_sandbox codec v id expected in call (next answer) after
  call (puts_pair r expected next) v =
      let (after, answer) = put_container_attempt codec v r expected in call (next answer) after
  call (deletes_pair id expected next) v =
      let (after, answer) = delete_container_attempt codec v id expected in call (next answer) after
  call (puts_operation o expected next) v =
      let (after, answer) = put_operation codec v o expected in call (next answer) after
  call (appends e next) v = let (after, answer) = append_event codec v e in call (next answer) after

  -- A view of the data, for reads or for a transaction.
  abbrev pub view_of : MemoryStore → Bool → View
  view_of s writable = record {
    data_of = s.contents;
    writable = writable;
    retention = s.retention;
    closed = false;
  }

  -- MemoryStore.View.
  unfoldable pub view : MemoryStore → Option Callback → Bool → Check
  unfolding call
  view s none cancelled_before = err nil_callback
  view s (some fn) cancelled_before = do
    fail_if cancelled_before cancelled
    (call fn (view_of s false)).1

  -- The checks of a commit, and the data that it publishes.
  unfoldable pub commit_data : RetentionPolicy → MemoryData → Result Error MemoryData
  unfolding apply_retention validate_store
  commit_data policy candidate = do
    (retained, _) ← apply_retention codec.id_digest policy candidate
    validate_store codec retained
    ok retained

  -- Update once the callback has run on a copy.
  unfoldable pub publish : MemoryStore → Bool → View × Check → MemoryStore × Check
  unfolding commit_data
  publish s cancelled_after (v, err e) = (s, err e)
  publish s true (v, ok _) = (s, err cancelled)
  publish s false (v, ok _) = elim (commit_data s.retention v.data_of) [
    | err e ↦ (s, err e)
    | ok contents ↦ (record s { contents = contents }, ok tt)
  ]

  -- MemoryStore.Update.
  unfoldable pub update : MemoryStore → Option Callback → Bool → Bool → MemoryStore × Check
  unfolding call publish
  update s none cancelled_before cancelled_after = (s, err nil_callback)
  update s (some fn) true cancelled_after = (s, err cancelled)
  update s (some fn) false cancelled_after = publish s cancelled_after (call fn (view_of s true))
