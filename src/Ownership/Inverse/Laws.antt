-- ===== src/Ownership/Inverse/Laws.antt =====
-- A descriptor and the receipt that it is read back to.
use mydocker.Base.{
  Option-cases, subst, ◌==◌, ◌||◌, if◌then◌else◌, ok_injective, inr, ok_injective, inl, sym, ap,
  ◌∙◌, String, ℕ, ◌≡◌, refl, Bool, true, false, not, List, [], ◌∷◌, ◌++◌, Option, some, ok, arith,
  any, is_empty, >>=-eq-ok, >>-eq-ok, fail_if-eq-ok, beq→eq, beq_refl, Bool-cases, Result-cases,
}
use mydocker.Text.{Text, Rune, runes, decode_rune, is_space, is_control, bytes, text_eq}
use mydocker.Text.Trim.{is_blank, trim_space, trim_space_none}
use mydocker.Text.Json.{json_valid}
use mydocker.Operation.Target.{OperationId, Target, is_lower_hex}
use mydocker.Rollback.Record.{Descriptor, validate_descriptor}
use mydocker.Ownership.Vocabulary
use mydocker.Ownership.Vocabulary.{
  Provider, other_action, Action, is_action, action_text, action_of, valid_for, Kind, is_kind,
  kind_text,
}
use mydocker.Ownership.Receipt.{
  OwnerKey, new_owner_key, Receipt, validate_receipt, validate_owner, validate_opaque, valid_digest,
}
use mydocker.Ownership.Inverse.{
  match_descriptor, descriptor_of, inverse_descriptor, receipt_from_descriptor,
}

any_second :
    {A : Type 0} (p q : A → Bool) (xs : List A)
    → any (λ x. p x || q x) xs ≡ false
    → any q xs ≡ false
any_second p q [] h = refl
any_second p q (x ∷ xs) h = ground (arith, any_second p q xs)

has_space : Text → Bool
has_space s = any (λ (r : Rune). is_space r.value) (runes s)

not_blank : (s : Text) → is_empty s ≡ false → has_space s ≡ false → is_blank s ≡ false
unfolding has_space
not_blank s filled h = rw (trim_space_none s h) filled

-- The text of a known action is not blank, and reads as the action.
action_of-text : (a : Action) → is_action a ≡ true → action_of (action_text a) ≡ a
unfolding is_action action_of action_text
action_of-text Vocabulary.remove_cgroup h = refl
action_of-text Vocabulary.stop_process h = refl
action_of-text Vocabulary.unmount_root h = refl
action_of-text Vocabulary.close_gate h = refl
action_of-text Vocabulary.close_streams h = refl
action_of-text (Vocabulary.other_action s) h = cc

action_filled : (a : Action) → is_action a ≡ true → is_blank (action_text a) ≡ false
unfolding is_action action_text trim_space
action_filled Vocabulary.remove_cgroup h = refl
action_filled Vocabulary.stop_process h = refl
action_filled Vocabulary.unmount_root h = refl
action_filled Vocabulary.close_gate h = refl
action_filled Vocabulary.close_streams h = refl
action_filled (Vocabulary.other_action s) h = cc

-- A kind and a colon before a text bring no white space.
named_space :
    (k : Kind) (id : Text) → is_kind k ≡ true → has_space (kind_text k ++ b':' ∷ id) ≡ has_space id
unfolding has_space is_kind kind_text runes is_space decode_rune
named_space Vocabulary.sandbox_cgroup id h = refl
named_space Vocabulary.attempt_cgroup id h = refl
named_space Vocabulary.keeper_cgroup id h = refl
named_space Vocabulary.keeper_process id h = refl
named_space Vocabulary.uts_namespace id h = refl
named_space Vocabulary.ipc_namespace id h = refl
named_space Vocabulary.network_namespace id h = refl
named_space Vocabulary.init_process id h = refl
named_space Vocabulary.pid_namespace id h = refl
named_space Vocabulary.mount_namespace id h = refl
named_space Vocabulary.rootfs_mount id h = refl
named_space Vocabulary.start_gate id h = refl
named_space Vocabulary.streams id h = refl
named_space (Vocabulary.other_kind s) id h = cc

filled_name : (s id : Text) → is_empty (s ++ b':' ∷ id) ≡ false
filled_name [] id = refl
filled_name (b ∷ s) id = refl

opaque_space :
    (field : String) (value : Text) (n : ℕ)
    → validate_opaque field value n ≡ ok tt
    → has_space value ≡ false
unfolding validate_opaque has_space
opaque_space field value n h =
    let (_, plain) = >>-eq-ok _ _ h in
    any_second (λ (r : Rune). is_control r.value) (λ (r : Rune). is_space r.value) (runes value)
      (fail_if-eq-ok _ _ plain)

hex_space :
    (rs : List Rune)
    → any (λ (r : Rune). not (is_lower_hex r.value)) rs ≡ false
    → any (λ (r : Rune). is_space r.value) rs ≡ false
unfolding is_space
hex_space [] h = refl
hex_space (r ∷ rs) h = ground (arith, hex_space rs)

digest_filled : (value : Text) → valid_digest value ≡ true → is_blank value ≡ false
unfolding valid_digest has_space
digest_filled [] h = absurd (ground arith)
digest_filled (b ∷ value) h =
    not_blank (b ∷ value) refl (hex_space (runes (b ∷ value)) (ground arith))

valid_for-Action :
    (a : Action) (p : Provider) (k : Kind) → valid_for a p k ≡ true → is_action a ≡ true
unfolding valid_for is_action
valid_for-Action a p k h = ground arith

spelled :
    (s word : Text) (a rest : Action)
    → action_text a ≡ word
    → action_text rest ≡ s
    → action_text (if s == word then a else rest) ≡ s
spelled s word a rest here there = elim (Bool-cases (s == word)) [
  | inl t ↦ rw t (here ∙ sym (beq→eq s word t))
  | inr f ↦ rw f there
]

-- The conversion loses nothing.
action_text-of : (s : Text) → action_text (action_of s) ≡ s
unfolding action_text action_of
action_text-of s =
    let streams = if s == bytes "close_streams" then Vocabulary.close_streams else other_action s in
    let gate = if s == bytes "close_gate" then Vocabulary.close_gate else streams in
    let root = if s == bytes "unmount_root" then Vocabulary.unmount_root else gate in
    let process = if s == bytes "stop_process" then Vocabulary.stop_process else root in
    let at_streams =
      spelled s (bytes "close_streams") Vocabulary.close_streams (other_action s) refl refl in
    let at_gate = spelled s (bytes "close_gate") Vocabulary.close_gate streams refl at_streams in
    let at_root = spelled s (bytes "unmount_root") Vocabulary.unmount_root gate refl at_gate in
    let at_process = spelled s (bytes "stop_process") Vocabulary.stop_process root refl at_root in
    spelled s (bytes "remove_cgroup") Vocabulary.remove_cgroup process refl at_process

module _ (token : OperationId → Target → ℕ → Text) (encode : Receipt → Text) where
  inverse_parts :
      (r : Receipt) (a : Action) (d : Descriptor)
      → inverse_descriptor token encode r a ≡ ok d
      → (validate_receipt token r ≡ ok tt)
        × (r.adopted ≡ false)
        × (valid_for a r.provider r.kind ≡ true)
        × (d ≡ descriptor_of token encode r a)
  unfolding inverse_descriptor
  inverse_parts r a d h =
      let (receipt, more) = >>-eq-ok (validate_receipt token r) _ h in
      let (armed, rest) = >>-eq-ok _ _ more in
      let (fits, made) = >>-eq-ok _ _ rest in
      let at_kind = fail_if-eq-ok _ _ fits in
      (receipt, fail_if-eq-ok _ _ armed, ground arith, sym (ok_injective made))

  owner_token :
      (k : OwnerKey)
      → validate_owner token k ≡ ok tt
      → k.token ≡ token k.operation_id k.target k.generation
  unfolding validate_owner new_owner_key
  owner_token k h =
      let same : (k.token == token k.operation_id k.target k.generation) ≡ true = ground arith in
      beq→eq k.token (token k.operation_id k.target k.generation) same

  receipt_parts :
      (r : Receipt)
      → validate_receipt token r ≡ ok tt
      → (is_kind r.kind ≡ true)
        × (validate_opaque "local ID" r.local_id 256 ≡ ok tt)
        × (r.owner.token ≡ token r.owner.operation_id r.owner.target r.owner.generation)
  unfolding validate_receipt validate_owner new_owner_key
  receipt_parts r h = (ground arith, ground arith, owner_token r.owner (ground arith))

  descriptor_Valid :
      (r : Receipt) (a : Action)
      → ((id : OperationId) (target : Target) (generation : ℕ)
          → valid_digest (token id target generation) ≡ true)
      → json_valid (encode r) ≡ true
      → validate_receipt token r ≡ ok tt
      → is_action a ≡ true
      → validate_descriptor (descriptor_of token encode r a) ≡ ok tt
  unfolding validate_descriptor
  descriptor_Valid r a hex json valid action =
      let (kind, local, owner) = receipt_parts r valid in
      let plain =
        named_space r.kind r.local_id kind ∙ opaque_space "local ID" r.local_id 256 local in
      let name =
        not_blank (kind_text r.kind ++ b':' ∷ r.local_id)
          (filled_name (kind_text r.kind) r.local_id) plain in
      let hexed = hex r.owner.operation_id r.owner.target r.owner.generation in
      let target = digest_filled r.owner.token (ap valid_digest owner ∙ hexed) in
      rw (name, action_filled a action, target, json) (ground arith)

  match-inverse_descriptor :
      (r : Receipt) (a : Action) (d : Descriptor)
      → inverse_descriptor token encode r a ≡ ok d
      → match_descriptor token encode d r a ≡ ok (r, a)
  unfolding match_descriptor
  match-inverse_descriptor r a d h =
      let (valid, _, _, _) = inverse_parts r a d h in
      let name = beq_refl d.name in
      let target = beq_refl d.target in rw (valid, h, name, target) refl

  match_parts :
      (d : Descriptor) (r x : Receipt) (a b : Action)
      → match_descriptor token encode d x b ≡ ok (r, a)
      → (x ≡ r)
        × (b ≡ a)
        × ((made : Descriptor) × (inverse_descriptor token encode x b ≡ ok made)
            × (d.name ≡ made.name)
            × (d.target ≡ made.target))
  unfolding match_descriptor
  match_parts d r x a b h =
      let (valid, more) = >>-eq-ok (validate_receipt token x) _ h in
      let (made, rest, inverse) = >>=-eq-ok (inverse_descriptor token encode x b) _ more in
      let (equal, answer) = >>-eq-ok _ _ rest in
      let same = fail_if-eq-ok _ _ equal in
      let names : (d.name == made.name) ≡ true = ground arith in
      let targets : (d.target == made.target) ≡ true = ground arith in
      (
        ap (λ y. y.0) (ok_injective answer),
        ap (λ y. y.1) (ok_injective answer),
        (made, inverse, beq→eq d.name made.name names, beq→eq d.target made.target targets),
      )

  same_descriptor :
      (x y : Descriptor)
      → x.version ≡ y.version
      → x.name ≡ y.name
      → x.action ≡ y.action
      → x.target ≡ y.target
      → x.metadata ≡ y.metadata
      → x ≡ y
  same_descriptor x y version name action target metadata = cc

  known_version : (d : Descriptor) → validate_descriptor d ≡ ok tt → d.version ≡ 1
  unfolding validate_descriptor
  known_version d h = ground arith

  module _ (decode : Text → Option Receipt) where
    -- What InverseDescriptor makes of a receipt and an action, ReceiptFromDescriptor reads back as the two,
    -- where tokens are SHA-256 digests and the JSON of the receipt is valid and decodes to it.
    pub receipt_from-inverse_descriptor :
        (r : Receipt) (a : Action) (d : Descriptor)
        → ((id : OperationId) (target : Target) (generation : ℕ)
            → valid_digest (token id target generation) ≡ true)
        → json_valid (encode r) ≡ true
        → decode (encode r) ≡ some r
        → inverse_descriptor token encode r a ≡ ok d
        → receipt_from_descriptor token encode decode d ≡ ok (r, a)
    unfolding receipt_from_descriptor
    receipt_from-inverse_descriptor r a d hex json back h =
        let (valid, armed, fits, made) = inverse_parts r a d h in
        let action = valid_for-Action a r.provider r.kind fits in
        let well = descriptor_Valid r a hex json valid action in
        let spoken = ap is_action (action_of-text a action) ∙ action in
        let inverse = h ∙ ap ok made in
        subst (λ x. receipt_from_descriptor token encode decode x ≡ ok (r, a)) (sym made)
          (rw (receipt_from_descriptor, well, spoken, back)
            (subst
              (λ b. match_descriptor token encode (descriptor_of token encode r a) r b ≡ ok (r, a))
              (sym (action_of-text a action))
              (match-inverse_descriptor r a (descriptor_of token encode r a) inverse)))

    accepted_parts :
        (d : Descriptor) (answer : Receipt × Action)
        → receipt_from_descriptor token encode decode d ≡ ok answer
        → (validate_descriptor d ≡ ok tt)
          × ((x : Receipt) × (match_descriptor token encode d x (action_of d.action) ≡ ok answer)
              × (decode d.metadata ≡ some x))
    unfolding receipt_from_descriptor
    accepted_parts d answer h = elim (Result-cases (validate_descriptor d)) [
      | inr (e, refused) ↦ absurd (ground arith)
      | inl (u, valid) ↦ elim (Option-cases (decode d.metadata)) [
        | inl missing ↦ absurd (ground arith)
        | inr (x, found) ↦ (valid, (x, ground arith, found))
      ]
    ]

    -- A descriptor that ReceiptFromDescriptor accepts is, but for its metadata, the one that
    -- InverseDescriptor makes of the answer, and its metadata decodes to the receipt.
    pub inverse_descriptor-receipt_from :
        (d : Descriptor) (r : Receipt) (a : Action)
        → receipt_from_descriptor token encode decode d ≡ ok (r, a)
        → (inverse_descriptor token encode r a ≡ ok (record d { metadata = encode r }))
          × (decode d.metadata ≡ some r)
    inverse_descriptor-receipt_from d r a h =
        let (valid, (x, matched, found)) = accepted_parts d (r, a) h in
        let (receipt, action, (made, inverse, name, target)) =
          match_parts d r x a (action_of d.action) matched in
        let (_, _, _, shape) = inverse_parts x (action_of d.action) made inverse in
        let same : made ≡ record d { metadata = encode x } =
          same_descriptor made (record d { metadata = encode x })
            (ap (λ y. y.version) shape ∙ sym (known_version d valid)) (sym name)
            (ap (λ y. y.action) shape ∙ action_text-of d.action) (sym target)
            (ap (λ y. y.metadata) shape) in
        (
          subst (λ y. inverse_descriptor token encode y a ≡ ok (record d { metadata = encode y }))
              receipt
              (subst
                (λ b. inverse_descriptor token encode x b ≡ ok (record d { metadata = encode x }))
                action (inverse ∙ ap ok same)),
          found ∙ ap some receipt,
        )
