-- ===== src/Domain/Conditions/Laws.antt =====
-- The conditions of a resource as a finite map from their types.
use mydocker.Base.{
  ℕ, ◌+◌, ◌||◌, ◌≡◌, refl, ◌↔◌, false, not, ◌==◌, List, [], ◌∷◌, Option, none, some, ok, arith, All,
  contains, if◌then◌else◌, keep,
}
use mydocker.Text.{Text, text_eq}
use mydocker.Domain.Conditions.{
  Condition, validate_condition, validate_each, validate_conditions, has_condition,
  upsert_condition, without_condition,
}

-- The condition of a type.
abbrev pub condition_at : Text → List Condition → Option Condition
condition_at type [] = none
condition_at type (c ∷ cs) = if c.type == type then some c else condition_at type cs

-- Each condition is valid, and no type stands twice.
abbrev pub AreConditions : List Condition → Type 0
AreConditions [] = Unit
AreConditions (c ∷ cs) =
    (validate_condition c ≡ ok tt) × (has_condition cs c.type ≡ false) × AreConditions cs

abbrev Unseen : List Text → List Condition → Type 0
Unseen seen cs = All (λ (c : Condition). contains c.type seen ≡ false) cs

Unseen-more :
    (type : Text) (seen : List Text) (cs : List Condition)
    → Unseen (type ∷ seen) cs ↔ (Unseen seen cs × (has_condition cs type ≡ false))
unfolding contains has_condition
Unseen-more type seen [] = (λ _. (tt, refl), λ _. tt)
Unseen-more type seen (c ∷ cs) =
    let (to, from) = Unseen-more type seen cs in
    (λ h. ground (arith, to), λ h. ground (arith, from))

validate_each-eq-ok :
    (index : ℕ) (seen : List Text) (cs : List Condition)
    → (validate_each index seen cs ≡ ok tt) ↔ (Unseen seen cs × AreConditions cs)
unfolding validate_each
validate_each-eq-ok index seen [] = (λ _. (tt, tt), λ _. refl)
validate_each-eq-ok index seen (c ∷ cs) =
    let (to, from) = validate_each-eq-ok (index + 1) (c.type ∷ seen) cs in
    let (apart, together) = Unseen-more c.type seen cs in
    (λ h. ground (arith, to, apart), λ h. ground (arith, from, together))

Unseen-nil : (cs : List Condition) → Unseen [] cs
unfolding contains
Unseen-nil [] = tt
Unseen-nil (c ∷ cs) = (refl, Unseen-nil cs)

-- validateConditions accepts exactly the lists of valid conditions with distinct types.
pub validate_conditions-eq-ok :
    (cs : List Condition) → (validate_conditions cs ≡ ok tt) ↔ AreConditions cs
unfolding validate_conditions
validate_conditions-eq-ok cs =
    let (to, from) = validate_each-eq-ok 0 [] cs in (λ h. (to h).1, λ h. from (Unseen-nil cs, h))

-- upsertCondition writes one key of the map: the new condition is found at its type, and that of every
-- other type as before.
pub condition_at-upsert :
    (type : Text) (c : Condition) (cs : List Condition)
    → condition_at type (upsert_condition cs c)
      ≡ (if c.type == type then some c else condition_at type cs)
unfolding upsert_condition
condition_at-upsert type c [] = refl
condition_at-upsert type c (d ∷ ds) = ground (arith, condition_at-upsert type c ds)

has_condition-upsert :
    (type : Text) (c : Condition) (cs : List Condition)
    → has_condition (upsert_condition cs c) type ≡ (c.type == type || has_condition cs type)
unfolding upsert_condition has_condition
has_condition-upsert type c [] = refl
has_condition-upsert type c (d ∷ ds) = ground (arith, has_condition-upsert type c ds)

AreConditions-upsert :
    (c : Condition) (cs : List Condition)
    → validate_condition c ≡ ok tt
    → AreConditions cs
    → AreConditions (upsert_condition cs c)
unfolding upsert_condition has_condition
AreConditions-upsert c [] v h = (v, refl, tt)
AreConditions-upsert c (d ∷ ds) v h =
    ground (arith, AreConditions-upsert c ds v h.2, has_condition-upsert d.type c ds)

abbrev others : Text → List Condition → List Condition
others type = keep (λ (c : Condition). not (c.type == type))

condition_at-others :
    (type other : Text) (cs : List Condition)
    → condition_at type (others other cs) ≡ (if other == type then none else condition_at type cs)
condition_at-others type other [] = ground arith
condition_at-others type other (c ∷ cs) = ground (arith, condition_at-others type other cs)

has_condition-others :
    (type other : Text) (cs : List Condition)
    → has_condition cs type ≡ false
    → has_condition (others other cs) type ≡ false
unfolding has_condition
has_condition-others type other [] h = refl
has_condition-others type other (c ∷ cs) h = ground (arith, has_condition-others type other cs)

AreConditions-others :
    (other : Text) (cs : List Condition) → AreConditions cs → AreConditions (others other cs)
AreConditions-others other [] h = tt
AreConditions-others other (c ∷ cs) h =
    ground (arith, AreConditions-others other cs h.2, has_condition-others c.type other cs)

-- withoutCondition removes one key of the map, where it does not refuse the type.
pub condition_at-without :
    (type other : Text) (cs rest : List Condition)
    → without_condition cs other ≡ ok rest
    → condition_at type rest ≡ (if other == type then none else condition_at type cs)
unfolding without_condition
condition_at-without type other cs rest h =
    let e : rest ≡ others other cs = ground arith in rw e (condition_at-others type other cs)

-- Adding a valid condition to a valid list and removing a type from it give valid lists.
pub validate_conditions-upsert-without :
    (c : Condition) (other : Text) (cs rest : List Condition)
    → validate_conditions cs ≡ ok tt
    → validate_condition c ≡ ok tt
    → without_condition cs other ≡ ok rest
    → (validate_conditions (upsert_condition cs c) ≡ ok tt) × (validate_conditions rest ≡ ok tt)
unfolding without_condition
validate_conditions-upsert-without c other cs rest v w h =
    let valid = (validate_conditions-eq-ok cs).0 v in
    let e : rest ≡ others other cs = ground arith in
    (
      (validate_conditions-eq-ok (upsert_condition cs c)).1 (AreConditions-upsert c cs w valid),
      rw e ((validate_conditions-eq-ok (others other cs)).1 (AreConditions-others other cs valid)),
    )
