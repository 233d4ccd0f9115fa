-- ===== src/Base/Maps.antt =====
-- A Go map as the list of its entries, under different keys.
use mathlib.Core.Path.{subst, ◌≡◌, refl, sym, ap, ◌∙◌}
use mathlib.Core.Logic.{◌≢◌, ◌⊎◌, inl, inr}
use mathlib.Core.Bool.{false}
use mathlib.Core.Option.{Option, none, some}
use mathlib.Core.List.{List, [], ◌∷◌}
use mydocker.Base.Tests.{some_injective, if◌then◌else◌, Bool-cases}
use mydocker.Base.Equality.{Eq, ◌==◌, beq_refl, beq→eq}

abbrev pub Dict {ℓ κ} : Type ℓ → Type κ → Type (ℓ ⊔ κ)
Dict K A = List (K × A)

module _ {ℓ κ} {K : Type ℓ} ⦃e : Eq K⦄ {A : Type κ} where
  -- value, ok := m[key]
  unfoldable pub lookup : K → Dict K A → Option A
  lookup key [] = none
  lookup key ((k, a) ∷ m) = let rest = lookup key m in if k == key then some a else rest

  -- m[key] = value
  unfoldable pub insert : K → A → Dict K A → Dict K A
  insert key value [] = (key, value) ∷ []
  insert key value ((k, a) ∷ m) =
      let rest = insert key value m in if k == key then (key, value) ∷ m else (k, a) ∷ rest

  -- delete(m, key)
  unfoldable pub remove : K → Dict K A → Dict K A
  remove key [] = []
  remove key ((k, a) ∷ m) = let rest = remove key m in if k == key then rest else (k, a) ∷ rest

  pub lookup-insert :
      (key : K) (value : A) (m : Dict K A) → lookup key (insert key value m) ≡ some value
  unfolding lookup insert
  lookup-insert key value [] = rw (beq_refl key) refl
  lookup-insert key value ((k, a) ∷ m) = elim (Bool-cases (k == key)) [
    | inl t ↦ rw (t, beq_refl key) refl
    | inr f ↦ rw (f, f) (lookup-insert key value m)
  ]

  pub lookup-insert_other :
      (key other : K) (value : A) (m : Dict K A)
      → (key == other) ≡ false
      → lookup other (insert key value m) ≡ lookup other m
  unfolding lookup insert
  lookup-insert_other key other value [] h = rw h refl
  lookup-insert_other key other value ((k, a) ∷ m) h = elim (Bool-cases (k == key)) [
    | inl t ↦ rw (t, h, ap (λ x. x == other) (beq→eq k key t), h) refl
    | inr f ↦ rw (f, lookup-insert_other key other value m h) refl
  ]

  pub lookup-remove : (key : K) (m : Dict K A) → lookup key (remove key m) ≡ none
  unfolding lookup remove
  lookup-remove key [] = refl
  lookup-remove key ((k, a) ∷ m) = elim (Bool-cases (k == key)) [
    | inl t ↦ rw t (lookup-remove key m)
    | inr f ↦ rw (f, f) (lookup-remove key m)
  ]

  pub lookup-remove_other :
      (key other : K) (m : Dict K A)
      → (key == other) ≡ false
      → lookup other (remove key m) ≡ lookup other m
  unfolding lookup remove
  lookup-remove_other key other [] h = refl
  lookup-remove_other key other ((k, a) ∷ m) h = elim (Bool-cases (k == key)) [
    | inl t ↦ rw (t, ap (λ x. x == other) (beq→eq k key t), h) (lookup-remove_other key other m h)
    | inr f ↦ rw (f, lookup-remove_other key other m h) refl
  ]

  -- What is left was there.
  pub lookup-of_remove :
      (key other : K) (value : A) (m : Dict K A)
      → lookup other (remove key m) ≡ some value
      → lookup other m ≡ some value
  lookup-of_remove key other value m h = elim (Bool-cases (key == other)) [
    | inl t ↦
        let gone =
          ap (λ k. lookup k (remove key m)) (sym (beq→eq key other t)) ∙ lookup-remove key m in
        cc
    | inr f ↦ sym (lookup-remove_other key other m f) ∙ h
  ]

  abbrev pub no_entries : Dict K A
  no_entries = []

  pub lookup-nil : (key : K) (value : A) → lookup key no_entries ≢ some value
  unfolding lookup
  lookup-nil key value h = cc

  pub lookup-cons :
      (key k : K) (a value : A) (m : Dict K A)
      → lookup key ((k, a) ∷ m) ≡ some value
      → ((k ≡ key) × (a ≡ value)) ⊎ (lookup key m ≡ some value)
  unfolding lookup
  lookup-cons key k a value m h = elim (Bool-cases (k == key)) [
    | inl t ↦ inl (beq→eq k key t, some_injective (sym (rw t refl) ∙ h))
    | inr f ↦ inr (sym (rw f refl) ∙ h)
  ]

  pub lookup-insert_cases :
      (key other : K) (value found : A) (m : Dict K A)
      → lookup other (insert key value m) ≡ some found
      → ((key ≡ other) × (value ≡ found)) ⊎ (lookup other m ≡ some found)
  lookup-insert_cases key other value found m h = elim (Bool-cases (key == other)) [
    | inl t ↦
        let same = beq→eq key other t in
        let stored = ap (λ k. lookup k (insert key value m)) same ∙ h in
        inl (same, some_injective (sym (lookup-insert key value m) ∙ stored))
    | inr f ↦ inr (sym (lookup-insert_other key other value m f) ∙ h)
  ]

  -- A predicate of every entry.
  abbrev pub Holds {ι} : (K → A → Type ι) → Dict K A → Type (ℓ ⊔ κ ⊔ ι)
  Holds P m = (key : K) (value : A) → lookup key m ≡ some value → P key value

  pub insert-Holds {ι} :
      (P : K → A → Type ι) (key : K) (value : A) (m : Dict K A)
      → P key value
      → Holds P m
      → Holds P (insert key value m)
  insert-Holds P key value m here there other found h =
      elim (lookup-insert_cases key other value found m h) [
        | inl (same, equal) ↦ subst (λ k. P k found) same (subst (P key) equal here)
        | inr later ↦ there other found later
      ]

  pub remove-Holds {ι} :
      (P : K → A → Type ι) (key : K) (m : Dict K A) → Holds P m → Holds P (remove key m)
  remove-Holds P key m there other found h =
      there other found (lookup-of_remove key other found m h)
