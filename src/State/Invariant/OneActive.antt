-- ===== src/State/Invariant/OneActive.antt =====
-- A target has one active operation at most.
use mydocker.Base.{
  subst, lookup-nil, arith, lookup-insert_cases, ◌≡◌, refl, sym, ap, ◌∙◌, true, ◌&&◌, ◌==◌, some,
  ok, lookup, insert, Dict, inl, inr, beq→eq,
}
use mydocker.Text.{Text, text_eq}
use mydocker.Operation.Target.{Target, target_eq}
use mydocker.Operation.Vocabulary.{is_pending_or_running}
use mydocker.Operation.Record.{Operation}
use mydocker.State.Records.{Codec, OperationRecord}
use mydocker.State.Store.{MemoryData, new_memory_data, RetentionPolicy, holds_target}
use mydocker.State.Memory.{MemoryStore, commit_data}
use mydocker.State.Progress.{other_active}
use mydocker.State.Progress.Parts.{check_operation-eq-ok, other_active-lookup}
use mydocker.State.Write.{
  Write, writes_sandbox, drops_sandbox, writes_pair, drops_pair, writes_operation, writes_event,
}
use mydocker.State.Reachable.{Reachable, Reachable-Invariant}
use mydocker.State.Invariant.Committed.{commit_data-eq-ok}

abbrev pub OneActive : Dict Text OperationRecord → Type 0
OneActive m =
    (target : Target) (a b : Text) (x y : OperationRecord)
    → lookup a m ≡ some x
    → lookup b m ≡ some y
    → holds_target target x ≡ true
    → holds_target target y ≡ true
    → a ≡ b

-- A record that is there, of an active operation on the target of one that may be written, is its own.
conflict :
    (o stored : OperationRecord) (m : Dict Text OperationRecord) (target : Target) (b : Text)
    (y : OperationRecord)
    → stored.operation ≡ o.operation
    → (is_pending_or_running o.operation.state ≡ true → other_active o m ≡ ok tt)
    → holds_target target stored ≡ true
    → lookup b m ≡ some y
    → holds_target target y ≡ true
    → b ≡ o.operation.id
conflict o stored m target b y same free holds at_b holds_b =
    let own : holds_target target o ≡ true =
      ap (λ (p : Operation). is_pending_or_running p.state && p.target == target) (sym same)
      ∙ holds in
    let active : is_pending_or_running o.operation.state ≡ true = ground arith in
    let here : (o.operation.target == target) ≡ true = ground arith in
    let place = beq→eq o.operation.target target here in
    other_active-lookup o m b y (free active) at_b
      (subst (λ t. holds_target t y ≡ true) (sym place) holds_b)

insert-OneActive :
    (o stored : OperationRecord) (m : Dict Text OperationRecord)
    → stored.operation ≡ o.operation
    → (is_pending_or_running o.operation.state ≡ true → other_active o m ≡ ok tt)
    → OneActive m
    → OneActive (insert o.operation.id stored m)
insert-OneActive o stored m same free one target a b x y at_a at_b holds_a holds_b =
    let id = o.operation.id in
    elim (lookup-insert_cases id a stored x m at_a) [
      | inl (here, equal) ↦ elim (lookup-insert_cases id b stored y m at_b) [
        | inl (there, _) ↦ sym here ∙ there
        | inr found ↦
            let holds = ap (holds_target target) equal ∙ holds_a in
            sym here ∙ sym (conflict o stored m target b y same free holds found holds_b)
      ]
      | inr first ↦ elim (lookup-insert_cases id b stored y m at_b) [
        | inl (there, equal) ↦
            let holds = ap (holds_target target) equal ∙ holds_b in
            conflict o stored m target a x same free holds first holds_a ∙ there
        | inr found ↦ one target a b x y first found holds_a holds_b
      ]
    ]

module _ (codec : Codec) where
  Write-OneActive :
      (a b : MemoryData) → Write codec a b → OneActive a.operations → OneActive b.operations
  Write-OneActive a b (writes_sandbox v r expected next h) one = one
  Write-OneActive a b (drops_sandbox v id expected h) one = one
  Write-OneActive a b (writes_pair v r expected next h) one = one
  Write-OneActive a b (drops_pair v id expected h) one = one
  Write-OneActive a b (writes_operation v o expected next h) one =
      let (_, _, _, _, _, free) = check_operation-eq-ok codec v o expected next h in
      insert-OneActive o (record o { revision = next }) v.data_of.operations refl free one
  Write-OneActive a b (writes_event v e stored h) one = one

  commit-OneActive :
      (p : RetentionPolicy) (a b : MemoryData)
      → commit_data codec p a ≡ ok b
      → OneActive a.operations
      → OneActive b.operations
  commit-OneActive p a b h one target c d x y at_c at_d holds_c holds_d =
      let (_, (left, (_, _, _, _, there), end)) = commit_data-eq-ok codec p a b h in
      let kept = ap (λ (m : MemoryData). m.operations) end in
      let first = sym (ap (lookup c) kept) ∙ at_c in
      let second = sym (ap (lookup d) kept) ∙ at_d in
      one target c d x y (there c x first) (there d y second) holds_c holds_d

  -- In every store that transactions reach, two records of operations that are active on one target have one
  -- identity.
  pub Reachable-OneActive :
      (s : MemoryStore)
      → Reachable codec s
      → (target : Target) (a b : Text) (x y : OperationRecord)
      → lookup a s.contents.operations ≡ some x
      → lookup b s.contents.operations ≡ some y
      → holds_target target x ≡ true
      → holds_target target y ≡ true
      → a ≡ b
  unfolding new_memory_data
  Reachable-OneActive s reached =
      Reachable-Invariant codec (λ d. OneActive d.operations) Write-OneActive commit-OneActive s
        reached (λ target a b x y at_a at_b holds_a holds_b. absurd (lookup-nil a x at_a))
