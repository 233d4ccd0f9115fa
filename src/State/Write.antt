-- ===== src/State/Write.antt =====
-- The step relation of the data of a transaction, and that a callback only takes these steps.
use mydocker.Base.{ℕ, ◌≡◌, inl, inr, [], ◌∷◌, ◌++◌, Result, ok, Result-cases, insert, remove}
use mydocker.Text.{text_eq, Text}
use mydocker.Operation.Event.{Event}
use mydocker.State.Errors.{Error}
use mydocker.State.Records.{Codec, SandboxRecord, ContainerAttemptRecord, OperationRecord}
use mydocker.State.Store.{MemoryData, View}
use mydocker.State.Transaction.{
  commit, check_sandbox, put_sandbox, check_delete_sandbox, delete_sandbox, check_container_attempt,
  put_container_attempt, check_delete_container_attempt, delete_container_attempt,
}
use mydocker.State.Progress.{check_operation, put_operation, check_event, append_event}
use mydocker.State.Memory.{
  Callback, returns, reads, puts_sandbox, deletes_sandbox, puts_pair, deletes_pair, puts_operation,
  appends, call,
}

-- The data behind each write.
module _ (v : View) where
  abbrev pub with_sandbox : SandboxRecord → ℕ → MemoryData
  with_sandbox r next = record (v.data_of) {
    sandboxes = insert r.sandbox.id (record r { revision = next }) v.data_of.sandboxes;
  }

  abbrev pub with_pair : ContainerAttemptRecord → ℕ → MemoryData
  with_pair r next = record (v.data_of) {
    pairs = insert r.pair.container.id (record r { revision = next }) v.data_of.pairs;
  }

  abbrev pub with_operation : OperationRecord → ℕ → MemoryData
  with_operation o next = record (v.data_of) {
    operations = insert o.operation.id (record o { revision = next }) v.data_of.operations;
  }

  abbrev pub with_event : Event → MemoryData
  with_event stored = record (v.data_of) {
    events = v.data_of.events ++ stored ∷ [];
    last_event = stored.sequence;
  }

module _ (codec : Codec) where
  -- A write that its checks accept.
  pub data Write : MemoryData → MemoryData → Type 0 where
    writes_sandbox :
        (v : View) (r : SandboxRecord) (expected next : ℕ)
        → check_sandbox codec v r expected ≡ ok next
        → Write v.data_of (with_sandbox v r next)
    drops_sandbox :
        (v : View) (id : Text) (expected : ℕ)
        → check_delete_sandbox codec v id expected ≡ ok tt
        → Write v.data_of (record (v.data_of) { sandboxes = remove id v.data_of.sandboxes })
    writes_pair :
        (v : View) (r : ContainerAttemptRecord) (expected next : ℕ)
        → check_container_attempt codec v r expected ≡ ok next
        → Write v.data_of (with_pair v r next)
    drops_pair :
        (v : View) (id : Text) (expected : ℕ)
        → check_delete_container_attempt codec v id expected ≡ ok tt
        → Write v.data_of (record (v.data_of) { pairs = remove id v.data_of.pairs })
    writes_operation :
        (v : View) (o : OperationRecord) (expected next : ℕ)
        → check_operation codec v o expected ≡ ok next
        → Write v.data_of (with_operation v o next)
    writes_event :
        (v : View) (e stored : Event)
        → check_event codec v e ≡ ok stored
        → Write v.data_of (with_event v stored)

  pub data Writes : MemoryData → MemoryData → Type 0 where
    stays : (d : MemoryData) → Writes d d
    then_writes : (a b c : MemoryData) → Write a b → Writes b c → Writes a c

  trans-Writes : (a b c : MemoryData) → Writes a b → Writes b c → Writes a c
  trans-Writes a b c (stays _) rest = rest
  trans-Writes a b c (then_writes _ x _ w more) rest =
      then_writes a x c w (trans-Writes x b c more rest)

  once : (a b : MemoryData) → Write a b → Writes a b
  once a b w = then_writes a b b w (stays b)

  -- A method that commits where its checks pass, and is then one write.
  commit-Writes {ℓ κ} :
      {A : Type ℓ} {B : Type κ} (v : View) (check : Result Error A) (change : A → MemoryData × B)
      → ((a : A) → check ≡ ok a → Write v.data_of (change a).0)
      → Writes v.data_of (commit v check change).0.data_of
  commit-Writes v check change write = elim (Result-cases check) [
    | inl (a, accepted) ↦ rw accepted (once v.data_of (change a).0 (write a accepted))
    | inr (e, refused) ↦ rw refused (stays v.data_of)
  ]

  -- What a callback makes of a view is reached by accepted writes.
  pub call-Writes : (c : Callback) (v : View) → Writes v.data_of (call codec c v).0.data_of
  unfolding call put_sandbox delete_sandbox put_container_attempt delete_container_attempt
      put_operation append_event
  call-Writes (returns result) v = stays v.data_of
  call-Writes (reads next) v = call-Writes (next v) v
  call-Writes (puts_sandbox r expected next) v =
      let (after, answer) = put_sandbox codec v r expected in
      trans-Writes v.data_of after.data_of (call codec (next answer) after).0.data_of
        (commit-Writes v (check_sandbox codec v r expected) _
          (λ n accepted. writes_sandbox v r expected n accepted))
        (call-Writes (next answer) after)
  call-Writes (deletes_sandbox id expected next) v =
      let (after, answer) = delete_sandbox codec v id expected in
      trans-Writes v.data_of after.data_of (call codec (next answer) after).0.data_of
        (commit-Writes v (check_delete_sandbox codec v id expected) _
          (λ n accepted. drops_sandbox v id expected accepted))
        (call-Writes (next answer) after)
  call-Writes (puts_pair r expected next) v =
      let (after, answer) = put_container_attempt codec v r expected in
      trans-Writes v.data_of after.data_of (call codec (next answer) after).0.data_of
        (commit-Writes v (check_container_attempt codec v r expected) _
          (λ n accepted. writes_pair v r expected n accepted))
        (call-Writes (next answer) after)
  call-Writes (deletes_pair id expected next) v =
      let (after, answer) = delete_container_attempt codec v id expected in
      trans-Writes v.data_of after.data_of (call codec (next answer) after).0.data_of
        (commit-Writes v (check_delete_container_attempt codec v id expected) _
          (λ n accepted. drops_pair v id expected accepted))
        (call-Writes (next answer) after)
  call-Writes (puts_operation o expected next) v =
      let (after, answer) = put_operation codec v o expected in
      trans-Writes v.data_of after.data_of (call codec (next answer) after).0.data_of
        (commit-Writes v (check_operation codec v o expected) _
          (λ n accepted. writes_operation v o expected n accepted))
        (call-Writes (next answer) after)
  call-Writes (appends e next) v =
      let (after, answer) = append_event codec v e in
      trans-Writes v.data_of after.data_of (call codec (next answer) after).0.data_of
        (commit-Writes v (check_event codec v e) _
          (λ stored accepted. writes_event v e stored accepted))
        (call-Writes (next answer) after)
