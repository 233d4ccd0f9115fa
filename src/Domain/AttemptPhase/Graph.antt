-- ===== src/Domain/AttemptPhase/Graph.antt =====
-- The phases of an Attempt as a graph, and its paths.
use mydocker.Base.{
  ℕ, ◌+◌, ◌≤◌, ◌<◌, ◌≢◌, List, [], ◌∷◌, length, ◌≡◌, refl, ◌↔◌, ok, is_ok, arith, if◌then◌else◌,
}
use mydocker.Domain.AttemptPhase.{
  AttemptPhase, absent, creating, created, running, stopped, other, transition_attempt,
}

infix 40 ◌⟶◌
pub data ◌⟶◌ : AttemptPhase → AttemptPhase → Type 0 where
  create : absent ⟶ creating
  prepare : creating ⟶ created
  abandon : creating ⟶ stopped
  start : created ⟶ running
  discard : created ⟶ stopped
  finish : running ⟶ stopped
  remove : stopped ⟶ absent

ruleset edges = (create, prepare, abandon, start, discard, finish, remove)

is_edge : (from to : AttemptPhase) → (transition_attempt from to).1 ≡ ok tt → from ⟶ to
unfolding transition_attempt
is_edge from to h = grind (arith, edges)

accepted : {from to : AttemptPhase} → from ⟶ to → (transition_attempt from to).1 ≡ ok tt
unfolding transition_attempt
accepted create = refl
accepted prepare = refl
accepted abandon = refl
accepted start = refl
accepted discard = refl
accepted finish = refl
accepted remove = refl

-- TransitionAttempt accepts exactly the edges of the graph; it answers the target along an edge, and
-- the phase that it was given on a refusal.
pub transition_attempt-⟶ :
    (from to : AttemptPhase)
    → (((transition_attempt from to).1 ≡ ok tt) ↔ (from ⟶ to))
      × ((transition_attempt from to).0
          ≡ (if is_ok (transition_attempt from to).1 then to else from))
unfolding transition_attempt
transition_attempt-⟶ from to = ((is_edge from to, accepted), ground arith)

-- Every target is accepted in turn, each by the phase that the one before answered, and none is `absent`.
abbrev pub Accepts : AttemptPhase → List AttemptPhase → Type 0
Accepts from [] = Unit
Accepts from (to ∷ rest) =
    ((transition_attempt from to).1 ≡ ok tt)
    × (to ≢ absent)
    × Accepts (transition_attempt from to).0 rest

-- How far an execution has come.
abbrev pub progress : AttemptPhase → ℕ
progress absent = 0
progress creating = 1
progress created = 2
progress running = 3
progress stopped = 4
progress (other _) = 0

-- The phase that the last of the transitions answers.
abbrev pub answered : AttemptPhase → List AttemptPhase → AttemptPhase
answered from [] = from
answered from (to ∷ rest) = answered (transition_attempt from to).0 rest

rises :
    (from to : AttemptPhase)
    → (transition_attempt from to).1 ≡ ok tt
    → to ≢ absent
    → progress from < progress (transition_attempt from to).0
unfolding transition_attempt
rises from to h n = ground arith

-- Each accepted transition that does not ask for `absent` answers a phase of more progress than the phase
-- it starts from: after any number of them, each from the answer of the one before, the progress of the
-- last answer has risen by at least that number.
pub progress-Accepts :
    (from : AttemptPhase) (targets : List AttemptPhase)
    → Accepts from targets
    → length targets + progress from ≤ progress (answered from targets)
progress-Accepts from [] h = omega arith
progress-Accepts from (to ∷ rest) h =
    omega (arith, rises from to h.0 h.1, progress-Accepts (transition_attempt from to).0 rest h.2)
