-- ===== src/State/Advance/Laws.antt =====
-- What an accepted update of a record keeps.
use mydocker.Base.{
  ◌&&◌, ◌||◌, ◌==◌, not, is_empty, ◌≡◌, ◌≢◌, ◌⊎◌, inl, inr, refl, Bool, true, false, [], ok, arith,
}
use mydocker.Base.Int.{ℤ, ltb_ℤ, pos, ◌≤ℤ◌}
use mydocker.Text.{text_eq, Text}
use mydocker.Operation.Vocabulary
use mydocker.Operation.Vocabulary.{State, is_pending_or_running, is_terminal}
use mydocker.Operation.Record.{validate_stage, validate_fields, Operation, validate_operation}
use mydocker.State.Advance.{
  same_result, same_operation_binding, operation_stage_rank, validate_operation_advance,
  terminal_operation_update_allowed,
}

-- The guards of PutOperation on the operation of a record.
abbrev pub Accepted : Operation → Operation → Type 0
Accepted current next =
    (validate_operation_advance current next ≡ ok tt)
    × ((is_terminal current.state ≡ false)
        ⊎ (terminal_operation_update_allowed current next ≡ true))

rank_bounds :
    (s : Vocabulary.Stage)
    → Vocabulary.is_stage s ≡ true
    → (pos 0 ≤ℤ operation_stage_rank s) × (operation_stage_rank s ≤ℤ pos 20)
unfolding operation_stage_rank Vocabulary.is_stage
rank_bounds s h = (ground arith, ground arith)

module _ (decodes : Text → Bool) (o : Operation) (v : validate_operation decodes o ≡ ok tt) where
  known_stage : Vocabulary.is_stage o.stage ≡ true
  unfolding validate_operation validate_fields
  known_stage = ground arith

  known_state : {x : Text} → o.state ≢ Vocabulary.other_state x
  unfolding validate_operation validate_fields Vocabulary.is_state
  known_state e = ground arith

  pending_stage : o.state ≡ Vocabulary.pending → o.stage ≡ Vocabulary.validate
  unfolding validate_operation validate_stage
  pending_stage e = ground arith

  terminal_stage : is_terminal o.state ≡ true → o.stage ≡ Vocabulary.complete
  unfolding validate_operation validate_stage
  terminal_stage e = ground arith

same_result_part :
    (b r s e n : Bool)
    → ((b && r && s) || (e && n && b && r)) ≡ true
    → (b ≡ true) × (r ≡ true) × ((s ≡ true) ⊎ (e ≡ true))
same_result_part b r s e n h = ground arith

same_result-stage :
    (current next : Operation) → same_result current next ≡ true → current.stage ≡ next.stage
same_result-stage current next h = ground arith

allowed_parts :
    (current next : Operation)
    → terminal_operation_update_allowed current next ≡ true
    → (same_operation_binding current next ≡ true)
      × (same_result current next ≡ true)
      × (((current.response == next.response) ≡ true) ⊎ (is_empty current.response ≡ true))
unfolding terminal_operation_update_allowed
allowed_parts current next t =
    same_result_part (same_operation_binding current next) (same_result current next)
      (current.response == next.response) (is_empty current.response) (not (is_empty next.response))
      t

-- The guard of a stage, apart from the operations.
running_rank :
    (current next : Operation)
    → current.state ≡ Vocabulary.running
    → next.state ≡ Vocabulary.running
    → validate_operation_advance current next ≡ ok tt
    → ltb_ℤ (operation_stage_rank next.stage) (operation_stage_rank current.stage) ≡ false
unfolding validate_operation_advance is_terminal is_pending_or_running
running_rank current next e f a = ground arith

ge_of_ltb : (a b : ℤ) → ltb_ℤ a b ≡ false → b ≤ℤ a
ge_of_ltb a b h = ground arith

no_return :
    (current next : Operation)
    → current.state ≡ Vocabulary.running
    → next.state ≡ Vocabulary.pending
    → validate_operation_advance current next ≢ ok tt
unfolding validate_operation_advance is_terminal is_pending_or_running
no_return current next e f a = ground arith

module _ (decodes : Text → Bool) (current next : Operation)
    (v : validate_operation decodes current ≡ ok tt)
    (w : validate_operation decodes next ≡ ok tt) where
  abbrev Rises : Type 0
  Rises = operation_stage_rank current.stage ≤ℤ operation_stage_rank next.stage

  from_pending : current.state ≡ Vocabulary.pending → Rises
  unfolding operation_stage_rank
  from_pending e =
      let (low, _) = rank_bounds next.stage (known_stage decodes next w) in
      rw (pending_stage decodes current v e) low

  to_terminal : is_terminal next.state ≡ true → Rises
  unfolding operation_stage_rank
  to_terminal e =
      let (_, high) = rank_bounds current.stage (known_stage decodes current v) in
      rw (terminal_stage decodes next w e) high

  from_terminal :
      is_terminal current.state ≡ true
      → terminal_operation_update_allowed current next ≡ true
      → Rises
  from_terminal e t =
      rw (same_result-stage current next (allowed_parts current next t).1) (omega arith)

  while_running :
      current.state ≡ Vocabulary.running
      → next.state ≡ Vocabulary.running
      → validate_operation_advance current next ≡ ok tt
      → Rises
  while_running e f a =
      ge_of_ltb (operation_stage_rank next.stage) (operation_stage_rank current.stage)
        (running_rank current next e f a)

  from_running :
      (s : State)
      → next.state ≡ s
      → current.state ≡ Vocabulary.running
      → validate_operation_advance current next ≡ ok tt
      → Rises
  unfolding is_terminal
  from_running Vocabulary.pending f e a = absurd (no_return current next e f a)
  from_running Vocabulary.running f e a = while_running e f a
  from_running Vocabulary.succeeded f e a = to_terminal (rw f refl)
  from_running Vocabulary.failed f e a = to_terminal (rw f refl)
  from_running (Vocabulary.other_state x) f e a = absurd (known_state decodes next w f)

  by_state : (s : State) → current.state ≡ s → Accepted current next → Rises
  unfolding is_terminal
  by_state Vocabulary.pending e (a, t) = from_pending e
  by_state Vocabulary.running e (a, t) = from_running next.state refl e a
  by_state Vocabulary.succeeded e (a, inl t) = cc
  by_state Vocabulary.succeeded e (a, inr t) = from_terminal (rw e refl) t
  by_state Vocabulary.failed e (a, inl t) = cc
  by_state Vocabulary.failed e (a, inr t) = from_terminal (rw e refl) t
  by_state (Vocabulary.other_state x) e (a, t) = absurd (known_state decodes current v e)

-- Of two valid operations, where validateOperationAdvance and the guard of terminal results accept the second
-- in place of the first, the second stands at a stage of no lower rank.
pub rank-Accepted :
    (decodes : Text → Bool) (current next : Operation)
    → validate_operation decodes current ≡ ok tt
    → validate_operation decodes next ≡ ok tt
    → Accepted current next
    → operation_stage_rank current.stage ≤ℤ operation_stage_rank next.stage
rank-Accepted decodes current next v w accepted =
    by_state decodes current next v w current.state refl accepted

frozen :
    (current next : Operation)
    → same_operation_binding current next ≡ true
    → same_result current next ≡ true
    → next ≡ record current { response = next.response }
frozen current next b r = ground arith

written :
    (current next : Operation)
    → ((current.response == next.response) ≡ true) ⊎ (is_empty current.response ≡ true)
    → (current.response ≡ next.response) ⊎ (current.response ≡ [])
written current next (inl h) = inl (ground arith)
written current next (inr h) = inr (ground arith)

-- Where validateOperationAdvance and the guard of terminal results accept an update of an operation that has
-- ended, it changes no field but the response, and that only where the response was empty.
pub terminal-Accepted :
    (current next : Operation)
    → is_terminal current.state ≡ true
    → Accepted current next
    → (next ≡ record current { response = next.response })
      × ((current.response ≡ next.response) ⊎ (current.response ≡ []))
terminal-Accepted current next e (a, inl t) = cc
terminal-Accepted current next e (a, inr t) =
    let (b, r, w) = allowed_parts current next t in
    (frozen current next b r, written current next w)
