-- ===== src/Domain/SandboxPhase/Graph.antt =====
-- The phases of a Sandbox as a graph.
use mydocker.Base.{◌≡◌, refl, ◌↔◌, ok, is_ok, arith, if◌then◌else◌}
use mydocker.Domain.SandboxPhase.{
  SandboxPhase, absent, creating, ready, stopping, stopped, transition_sandbox,
}

infix 40 ◌⟶◌
pub data ◌⟶◌ : SandboxPhase → SandboxPhase → Type 0 where
  create : absent ⟶ creating
  confirm : creating ⟶ ready
  abandon : creating ⟶ absent
  stop : ready ⟶ stopping
  quiesce : stopping ⟶ stopped
  remove : stopped ⟶ absent

ruleset edges = (create, confirm, abandon, stop, quiesce, remove)

is_edge : (from to : SandboxPhase) → (transition_sandbox from to).1 ≡ ok tt → from ⟶ to
unfolding transition_sandbox
is_edge from to h = grind (arith, edges)

accepted : {from to : SandboxPhase} → from ⟶ to → (transition_sandbox from to).1 ≡ ok tt
unfolding transition_sandbox
accepted create = refl
accepted confirm = refl
accepted abandon = refl
accepted stop = refl
accepted quiesce = refl
accepted remove = refl

-- TransitionSandbox accepts exactly the edges of the graph; it answers the target along an edge, and
-- the phase that it was given on a refusal.
pub transition_sandbox-⟶ :
    (from to : SandboxPhase)
    → (((transition_sandbox from to).1 ≡ ok tt) ↔ (from ⟶ to))
      × ((transition_sandbox from to).0
          ≡ (if is_ok (transition_sandbox from to).1 then to else from))
unfolding transition_sandbox
transition_sandbox-⟶ from to = ((is_edge from to, accepted), ground arith)
