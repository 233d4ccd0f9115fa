-- ===== src/State/Links.antt =====
-- internal/state/memory.go: the inverses of a record against its receipts, and what a receipt, a release and an
-- inventory may become.
use mydocker.Base.{
  ◌+◌, Bool, true, false, not, ◌&&◌, ◌||◌, ◌==◌, List, [], ◌∷◌, ◌++◌, Option, none, some, Result,
  ok, err, Eq, discrete_eq, fail_if, ◌>>◌, ◌>>=◌, is_empty, is_some, is_none, length, any, drop,
  ltb, nat_beq, Dict, lookup, insert, if◌then◌else◌, bool_eq, ℕ_discrete,
}
use mydocker.Text.{Text-discrete}
use mydocker.Operation.Vocabulary as Verbs
use mydocker.Operation.Vocabulary.{state_eq}
use mydocker.Rollback.Record.{Record}
use mydocker.Ownership.Vocabulary
use mydocker.Ownership.Vocabulary.{Kind, Provider-discrete, Kind-discrete, action_of, is_action}
use mydocker.Ownership.Receipt.{Receipt, Release, OwnerKey-discrete}
use mydocker.Ownership.Inverse.{receipt_from_descriptor}
use mydocker.State.Errors.{Error, Check, invalid_record}
use mydocker.State.Records.{Codec, OperationRecord}
use mydocker.State.Receipts.{HostReceiptKey, key_eq, receipt_key}

unfoldable pub Receipt-discrete : Discrete Receipt
unfolding Text-discrete ℕ_discrete Provider-discrete Kind-discrete OwnerKey-discrete
Receipt-discrete =
    hlevel (Text-discrete, ℕ_discrete, Provider-discrete, Kind-discrete, OwnerKey-discrete)

instance abbrev pub receipt_eq : Eq Receipt
receipt_eq = discrete_eq Receipt-discrete

unfoldable pub Release-discrete : Discrete Release
unfolding Text-discrete ℕ_discrete Receipt-discrete
Release-discrete = hlevel (Text-discrete, ℕ_discrete, Receipt-discrete)

instance abbrev pub release_eq : Eq Release
release_eq = discrete_eq Release-discrete

-- The two without the marker of adoption.
unfoldable pub same_receipt_identity : Receipt → Receipt → Bool
same_receipt_identity left right =
    record left { adopted = false } == record right { adopted = false }

unfoldable pub receipt_requires_inverse : Kind → Bool
receipt_requires_inverse Vocabulary.uts_namespace = false
receipt_requires_inverse Vocabulary.ipc_namespace = false
receipt_requires_inverse Vocabulary.network_namespace = false
receipt_requires_inverse Vocabulary.pid_namespace = false
receipt_requires_inverse Vocabulary.mount_namespace = false
receipt_requires_inverse (Vocabulary.other_kind _) = false
receipt_requires_inverse _ = true

unfoldable pub passive_receipt_dependency : Kind → Option Kind
passive_receipt_dependency Vocabulary.uts_namespace = some Vocabulary.keeper_process
passive_receipt_dependency Vocabulary.ipc_namespace = some Vocabulary.keeper_process
passive_receipt_dependency Vocabulary.network_namespace = some Vocabulary.keeper_process
passive_receipt_dependency Vocabulary.pid_namespace = some Vocabulary.init_process
passive_receipt_dependency Vocabulary.mount_namespace = some Vocabulary.init_process
passive_receipt_dependency _ = none

-- The map of the receipts by their slots: a later one takes the place.
unfoldable pub by_slot : Dict HostReceiptKey Receipt → List Receipt → Dict HostReceiptKey Receipt
unfolding receipt_key
by_slot m [] = m
by_slot m (r ∷ rs) = by_slot (insert (receipt_key r) r m) rs

abbrev pub is_journaled : Receipt → Option Receipt → Bool
is_journaled r none = false
is_journaled r (some journaled) = same_receipt_identity r journaled

module _ (codec : Codec) where
  -- The loop over the rollback records; a step that is no inverse of ownership is passed over.
  unfoldable pub link_records :
      Dict HostReceiptKey Receipt
      → Dict HostReceiptKey Record
      → List Record
      → Result Error (Dict HostReceiptKey Record)
  unfolding same_receipt_identity receipt_key
  link_records receipts linked [] = ok linked
  link_records receipts linked (s ∷ steps) =
      if not (is_action (action_of s.descriptor.action))
      then link_records receipts linked steps
      else elim (receipt_from_descriptor codec.token codec.encode_receipt codec.decode_receipt
          s.descriptor) [
            | err _ ↦ err (invalid_record "ownership descriptor")
            | ok (r, _) ↦ do
              fail_if (not (is_journaled r (lookup (receipt_key r) receipts)))
                  (invalid_record "rollback record without receipt")
              fail_if (is_some (lookup (receipt_key r) linked)) (invalid_record "second inverse")
              link_records receipts (insert (receipt_key r) s linked) steps
          ]

  -- The inverse of a slot is there, and has not been run where the operation has succeeded.
  abbrev pub has_inverse : OperationRecord → Option Record → Check
  has_inverse o none = err (invalid_record "receipt without rollback descriptor")
  has_inverse o (some s) =
      fail_if (o.operation.state == Verbs.succeeded && (s.started || s.succeeded))
        (invalid_record "adopted and rolled back")

  abbrev pub owning_slot : Kind → HostReceiptKey
  owning_slot kind = record { provider = Vocabulary.linux; kind = kind }

  abbrev pub validate_link :
      OperationRecord → Dict HostReceiptKey Receipt → Dict HostReceiptKey Record → Receipt → Check
  validate_link o receipts linked r = elim (passive_receipt_dependency r.kind) [
    | some owner ↦ do
      fail_if (is_none (lookup (owning_slot owner) receipts)) (invalid_record "owning receipt")
      has_inverse o (lookup (owning_slot owner) linked)
    | none ↦
        if not (receipt_requires_inverse r.kind)
        then ok tt
        else has_inverse o (lookup (receipt_key r) linked)
  ]

  unfoldable pub validate_links :
      OperationRecord
      → Dict HostReceiptKey Receipt
      → Dict HostReceiptKey Record
      → List Receipt
      → Check
  unfolding passive_receipt_dependency receipt_requires_inverse receipt_key
  validate_links o receipts linked [] = ok tt
  validate_links o receipts linked (r ∷ rs) = do
    validate_link o receipts linked r
    validate_links o receipts linked rs

  -- The inverse descriptors stand in the order of the acquisitions, and none stands besides.
  unfoldable pub validate_order : List Receipt → List Record → Check
  unfolding receipt_requires_inverse same_receipt_identity
  validate_order [] steps = fail_if (not (is_empty steps)) (invalid_record "rollback entries")
  validate_order (r ∷ rs) steps =
      if not (receipt_requires_inverse r.kind) then validate_order rs steps else elim steps [
        | [] ↦ err (invalid_record "no rollback entry")
        | s ∷ rest ↦
            elim (receipt_from_descriptor codec.token codec.encode_receipt codec.decode_receipt
              s.descriptor) [
                | err _ ↦ err (invalid_record "rollback entry")
                | ok (found, _) ↦ do
                  fail_if (not (same_receipt_identity found r)) (invalid_record "rollback entry")
                  validate_order rs rest
              ]
      ]

  unfoldable pub validate_rollback_acquisition_order : OperationRecord → Check
  unfolding validate_order
  validate_rollback_acquisition_order o =
      if is_empty o.receipts then ok tt else validate_order o.receipts o.rollback

  unfoldable pub validate_receipt_rollback_links : OperationRecord → Check
  unfolding by_slot link_records validate_links validate_rollback_acquisition_order
  validate_receipt_rollback_links o = do
    let receipts = by_slot [] o.receipts
    linked ← link_records receipts [] o.rollback
    validate_links o receipts linked o.receipts
    validate_rollback_acquisition_order o

-- The loop over the current receipts; the next ones are no fewer.
unfoldable pub validate_receipts_advance : List Receipt → List Receipt → Check
unfolding same_receipt_identity
validate_receipts_advance [] next = ok tt
validate_receipts_advance (c ∷ current) [] = ok tt
validate_receipts_advance (c ∷ current) (n ∷ next) = do
  fail_if (not (same_receipt_identity c n)) (invalid_record "receipt identity")
  fail_if (c.adopted && not n.adopted) (invalid_record "receipt adoption")
  validate_receipts_advance current next

unfoldable pub validate_receipt_advance :
    List Receipt → List Receipt → List Record → List Record → Check
unfolding validate_receipts_advance
validate_receipt_advance current next current_rollback next_rollback = do
  fail_if (ltb (length next) (length current)) (invalid_record "receipt history")
  fail_if (ltb (length current + 1) (length next)) (invalid_record "receipts at one checkpoint")
  fail_if
      (ltb (length current) (length next)
        && any (λ (s : Record). s.started) (current_rollback ++ next_rollback))
      (invalid_record "receipt after rollback")
  fail_if
      (ltb (length current) (length next)
        && any (λ (r : Receipt). r.adopted) (drop (length current) next))
      (invalid_record "new receipt")
  validate_receipts_advance current next

-- The loop over the current releases; the next ones are no fewer.
unfoldable pub validate_releases_advance : List Release → List Release → Check
validate_releases_advance [] next = ok tt
validate_releases_advance (c ∷ current) [] = ok tt
validate_releases_advance (c ∷ current) (n ∷ next) = do
  fail_if (not (c == n)) (invalid_record "release")
  validate_releases_advance current next

unfoldable pub validate_release_advance : List Release → List Release → Check
unfolding validate_releases_advance
validate_release_advance current next = do
  fail_if (ltb (length next) (length current)) (invalid_record "release history")
  validate_releases_advance current next

-- The receipt that now stands in the slot is another one.
abbrev pub is_rewritten : Receipt → Option Receipt → Bool
is_rewritten r none = false
is_rewritten r (some next) = not (r == next)

unfoldable pub validate_host_resource_advance : List Receipt → List Receipt → Check
unfolding by_slot receipt_key
validate_host_resource_advance current next = do
  fail_if
      (not (is_empty current)
        && not (is_empty next)
        && not (nat_beq (length next) (length current)))
      (invalid_record "host inventory")
  fail_if (any (λ (r : Receipt). is_rewritten r (lookup (receipt_key r) (by_slot [] next))) current)
      (invalid_record "host inventory evidence")
