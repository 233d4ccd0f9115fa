-- ===== src/Ownership/Profile/Laws.antt =====
-- What a checked acquisition journal is, and that it may be read at every step of the acquisition.
use mydocker.Base.{
  subst, ltb, false, fail_if-eq-ok, ℕ, zero, suc, ◌≤◌, ◌≡◌, refl, List, [], ◌∷◌, Option, none, some,
  ok, arith, length, take, length-take_le, >>=-eq-ok, >>-eq-ok, beq→eq, beq_refl,
}
use mydocker.Operation.Vocabulary.{TargetKind}
use mydocker.Operation.Target.{OperationId, Target}
use mydocker.Text.{Text}
use mydocker.Ownership.Vocabulary.{provider_eq, kind_eq}
use mydocker.Ownership.Receipt.{Receipt, OwnerKey, owner_eq, validate_receipt}
use mydocker.Ownership.Profile.{
  ProfileExpectation, expects, expected_profile, validate_expectations, validate_profile,
  validate_prefix, owner_or, other_owner,
}

-- The place of a receipt in the profile.
abbrev pub slot : Receipt → ProfileExpectation
slot r = expects r.provider r.kind

module _ (token : OperationId → Target → ℕ → Text) where
  -- A valid receipt of one owner.
  abbrev pub OwnedBy : OwnerKey → Receipt → Type 0
  OwnedBy owner r = (validate_receipt token r ≡ ok tt) × (r.owner ≡ owner)

  -- One round of the loop.
  abbrev Read :
      Option OwnerKey
      → Receipt
      → List Receipt
      → ProfileExpectation
      → List ProfileExpectation
      → Type 0
  Read o r rs x xs =
      (validate_receipt token r ≡ ok tt)
      × (slot r ≡ x)
      × (other_owner o r.owner ≡ false)
      × (validate_expectations token (some (owner_or o r.owner)) rs xs ≡ ok tt)

  expectations-Read :
      (o : Option OwnerKey) (r : Receipt) (rs : List Receipt) (x : ProfileExpectation)
      (xs : List ProfileExpectation)
      → validate_expectations token o (r ∷ rs) (x ∷ xs) ≡ ok tt
      → Read o r rs x xs
  unfolding validate_expectations
  expectations-Read o r rs x xs h =
      let (receipt, more) = >>-eq-ok (validate_receipt token r) _ h in
      let (place, rest) = >>-eq-ok _ _ more in
      let (same, later) = >>-eq-ok _ _ rest in
      let at_place = fail_if-eq-ok _ _ place in
      let provider : r.provider ≡ x.provider = beq→eq r.provider x.provider (ground arith) in
      let kind : r.kind ≡ x.kind = beq→eq r.kind x.kind (ground arith) in
      (receipt, cc, fail_if-eq-ok _ _ same, later)

  Read-expectations :
      (o : Option OwnerKey) (r : Receipt) (rs : List Receipt) (xs : List ProfileExpectation)
      → Read o r rs (slot r) xs
      → validate_expectations token o (r ∷ rs) (slot r ∷ xs) ≡ ok tt
  unfolding validate_expectations
  Read-expectations o r rs xs (receipt, _, same, later) =
      let provider = beq_refl r.provider in
      let kind = beq_refl r.kind in rw (receipt, provider, kind, same) later

  expectations-take :
      (n : ℕ) (o : Option OwnerKey) (rs : List Receipt) (xs : List ProfileExpectation)
      → validate_expectations token o rs xs ≡ ok tt
      → validate_expectations token o (take n rs) (take (length (take n rs)) xs) ≡ ok tt
  unfolding validate_expectations
  expectations-take zero o rs xs h = refl
  expectations-take (suc n) o [] xs h = refl
  expectations-take (suc n) o (r ∷ rs) [] h = refl
  expectations-take (suc n) o (r ∷ rs) (x ∷ xs) h =
      let (receipt, place, same, later) = expectations-Read o r rs x xs h in
      let rest = expectations-take n (some (owner_or o r.owner)) rs xs later in
      subst
        (λ y.
          validate_expectations token o (r ∷ take n rs) (y ∷ take (length (take n rs)) xs) ≡ ok tt)
        place
        (Read-expectations o r (take n rs) (take (length (take n rs)) xs)
          (receipt, refl, same, rest))

  -- Every journal that validate_profile accepts was accepted by validate_prefix at each step of its
  -- growth.
  pub validate_prefix-take :
      (kind : TargetKind) (rs : List Receipt) (n : ℕ)
      → validate_profile token kind rs ≡ ok tt
      → validate_prefix token kind (take n rs) ≡ ok tt
  unfolding validate_profile validate_prefix
  validate_prefix-take kind rs n h =
      let (expected, checked, known) = >>=-eq-ok (expected_profile kind) _ h in
      let (size, read) = >>-eq-ok _ _ checked in
      let whole : length rs ≡ length expected = ground arith in
      let fits : length (take n rs) ≤ length expected = omega (arith, length-take_le n rs) in
      let guard : ltb (length expected) (length (take n rs)) ≡ false = ground arith in
      rw (known, guard) (expectations-take n none rs expected read)
