-- ===== src/Operation/Event/Laws.antt =====
-- The resources that an event names, and the order of a stream of events.
use mydocker.Base.{
  ◌+◌, ◌<◌, ◌≡◌, ◌≢◌, refl, ◌↔◌, ◌⊎◌, Bool, true, false, ◌||◌, ◌==◌, List, [], ◌∷◌, ok, arith, All,
  any, contains, length,
}
use mydocker.Text.{Text}
use mydocker.Operation.Vocabulary.{sandbox, container, attempt, kind_eq}
use mydocker.Operation.Target.{
  Target, target_eq, validate_target, validate_sequence, next_sequence, max_sequence,
}
use mydocker.Operation.Event.{
  Event, scan_resources, has_kind, validate_event_resources, validate_event, validate_after,
}

abbrev Unseen : List Target → List Target → Type 0
Unseen seen rs = All (λ (r : Target). contains r seen ≡ false) rs

abbrev pub names : Target → List Target → Bool
names t = any (λ (r : Target). r == t)

-- Each target is valid, and none stands twice.
abbrev pub AreTargets : List Target → Type 0
AreTargets [] = Unit
AreTargets (r ∷ rs) = (validate_target r ≡ ok tt) × (names r rs ≡ false) × AreTargets rs

Unseen-more :
    (t : Target) (seen rs : List Target)
    → Unseen (t ∷ seen) rs ↔ (Unseen seen rs × (names t rs ≡ false))
unfolding contains
Unseen-more t seen [] = (λ _. (tt, refl), λ _. tt)
Unseen-more t seen (r ∷ rs) =
    let (to, from) = Unseen-more t seen rs in (λ h. ground (arith, to), λ h. ground (arith, from))

scan_resources-eq-ok :
    (primary : Target) (seen : List Target) (found : Bool) (rs : List Target)
    → (scan_resources primary seen found rs ≡ ok tt)
      ↔ (Unseen seen rs × AreTargets rs × ((found || names primary rs) ≡ true))
unfolding scan_resources
scan_resources-eq-ok primary seen found [] = (λ h. (tt, tt, ground arith), λ h. ground arith)
scan_resources-eq-ok primary seen found (r ∷ rs) =
    let (to, from) = scan_resources-eq-ok primary (r ∷ seen) (found || r == primary) rs in
    let (split, join) = Unseen-more r seen rs in
    (λ h. ground (arith, to, split), λ h. ground (arith, from, join))

Unseen-nil : (rs : List Target) → Unseen [] rs
unfolding contains
Unseen-nil [] = tt
Unseen-nil (r ∷ rs) = (refl, Unseen-nil rs)

abbrev pub HasKinds : List Target → Type 0
HasKinds rs =
    (has_kind sandbox rs ≡ true) × (has_kind container rs ≡ true) × (has_kind attempt rs ≡ true)

-- validateEventResources accepts exactly a list of valid, distinct targets that holds the primary
-- target, and, for a Container or an Attempt, a target of each of the three kinds, unless an absent
-- resource is deleted.
pub validate_event_resources-eq-ok :
    (primary : Target) (rs : List Target) (allow : Bool)
    → (validate_event_resources primary rs allow ≡ ok tt) ↔ (
        AreTargets rs
        × (names primary rs ≡ true)
        × ((allow ≡ true) ⊎ ((primary.kind ≢ container) × (primary.kind ≢ attempt)) ⊎ HasKinds rs))
unfolding validate_event_resources
validate_event_resources-eq-ok primary rs allow =
    let (to, from) = scan_resources-eq-ok primary [] false rs in
    (
      λ h. (ground (arith, to), ground (arith, to), ground arith),
      λ h. ground (arith, from, Unseen-nil rs, h.2),
    )

-- A stream in which each event follows the one before it.
abbrev pub IsStream : (Text → Bool) → Event → List Event → Type 0
IsStream decodes first [] = Unit
IsStream decodes first (e ∷ es) = (validate_after decodes e first ≡ ok tt) × IsStream decodes e es

abbrev pub last_event : Event → List Event → Event
last_event first [] = first
last_event first (e ∷ es) = last_event e es

follows :
    (decodes : Text → Bool) (e previous : Event)
    → validate_after decodes e previous ≡ ok tt
    → (e.sequence ≡ previous.sequence + 1)
      × (0 < previous.sequence)
      × (previous.sequence ≢ max_sequence)
unfolding validate_after next_sequence validate_event validate_sequence
follows decodes e previous h = ground arith

-- A stream has no gap: the event that stands n places behind the first has the sequence of the first
-- plus n.
pub last_event-sequence :
    (decodes : Text → Bool) (first : Event) (es : List Event)
    → IsStream decodes first es
    → (last_event first es).sequence ≡ first.sequence + length es
last_event-sequence decodes first [] h = omega arith
last_event-sequence decodes first (e ∷ es) h =
    omega (arith, follows decodes e first h.0, last_event-sequence decodes e es h.1)
