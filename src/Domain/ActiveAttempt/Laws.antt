-- ===== src/Domain/ActiveAttempt/Laws.antt =====
-- At most one active Attempt in a Sandbox.
use mydocker.Base.{
  ℕ, ◌+◌, ◌≡◌, ◌≢◌, refl, ◌↔◌, true, false, ◌&&◌, List, [], ◌∷◌, ok, arith, All, contains,
  if◌then◌else◌,
}
use mydocker.Text.{Text, text_eq}
use mydocker.Domain.Container.{ContainerAttempt}
use mydocker.Domain.ContainerAttempt.{validate}
use mydocker.Domain.ActiveAttempt.{is_active, scan, validate_one_active_attempt}

-- Two pairs of one history: they share no name, and are not both active in one Sandbox.
pub record Apart (p q : ContainerAttempt) : Type 0 where
  pub containers : q.container.id ≢ p.container.id
  pub attempts : q.attempt.id ≢ p.attempt.id
  pub one_active :
      is_active q ≡ true → is_active p ≡ true → q.container.sandbox_id ≢ p.container.sandbox_id

-- Each pair is valid, and any two are apart.
abbrev pub IsHistory : List ContainerAttempt → Type 0
IsHistory [] = Unit
IsHistory (p ∷ pairs) = (validate p ≡ ok tt) × All (Apart p) pairs × IsHistory pairs

-- A pair that the names already seen leave room for.
abbrev Fresh : List Text → List Text → List Text → ContainerAttempt → Type 0
Fresh containers attempts active q =
    (contains q.container.id containers ≡ false)
    × (contains q.attempt.id attempts ≡ false)
    × ((is_active q && contains q.container.sandbox_id active) ≡ false)

module _ (containers attempts active : List Text) (p : ContainerAttempt) where
  abbrev next : List Text
  next = if is_active p then p.container.sandbox_id ∷ active else active

  Fresh-one :
      (q : ContainerAttempt)
      → Fresh (p.container.id ∷ containers) (p.attempt.id ∷ attempts) next q
        ↔ (Fresh containers attempts active q × Apart p q)
  unfolding contains
  Fresh-one q = (
    λ h. (
      ground arith,
      record {
        containers = ground arith;
        attempts = ground arith;
        one_active = λ a b. ground arith;
      },
    ),
    λ h. ground arith,
  )

  Fresh-more :
      (pairs : List ContainerAttempt)
      → All (Fresh (p.container.id ∷ containers) (p.attempt.id ∷ attempts) next) pairs
        ↔ (All (Fresh containers attempts active) pairs × All (Apart p) pairs)
  Fresh-more [] = (λ _. (tt, tt), λ _. tt)
  Fresh-more (q ∷ pairs) =
      let (to, from) = Fresh-one q in
      let (split, join) = Fresh-more pairs in
      (
        λ h. (((to h.0).0, (split h.1).0), ((to h.0).1, (split h.1).1)),
        λ h. (from (h.0.0, h.1.0), join (h.0.1, h.1.1)),
      )

scan-eq-ok :
    (index : ℕ) (containers attempts active : List Text) (pairs : List ContainerAttempt)
    → (scan index containers attempts active pairs ≡ ok tt)
      ↔ (All (Fresh containers attempts active) pairs × IsHistory pairs)
unfolding scan
scan-eq-ok index containers attempts active [] = (λ _. (tt, tt), λ _. refl)
scan-eq-ok index containers attempts active (p ∷ pairs) =
    let (to, from) =
      scan-eq-ok (index + 1) (p.container.id ∷ containers) (p.attempt.id ∷ attempts)
        (next containers attempts active p) pairs in
    let (split, join) = Fresh-more containers attempts active p pairs in
    (λ h. ground (arith, to, split), λ h. ground (arith, from, join))

Fresh-nil : (pairs : List ContainerAttempt) → All (Fresh [] [] []) pairs
unfolding contains
Fresh-nil [] = tt
Fresh-nil (p ∷ pairs) = (ground arith, Fresh-nil pairs)

-- ValidateOneActiveAttempt accepts exactly the histories: each pair valid, no Container or Attempt
-- identity twice, and no two active Attempts in one Sandbox.
pub validate_one_active_attempt-eq-ok :
    (pairs : List ContainerAttempt) → (validate_one_active_attempt pairs ≡ ok tt) ↔ IsHistory pairs
unfolding validate_one_active_attempt
validate_one_active_attempt-eq-ok pairs =
    let (to, from) = scan-eq-ok 0 [] [] [] pairs in (λ h. (to h).1, λ h. from (Fresh-nil pairs, h))
