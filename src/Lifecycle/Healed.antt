-- ===== src/Lifecycle/Healed.antt =====
-- `healed_terminal_of` (src/reconcile.rs), which reads the data of a lifecycle event back.
use agenttender.Common.{Option, none, some, Bytes, bytes_eq, codes, if◌then◌else◌, ◌≡◌, refl, ap}
use agenttender.Model.Status.{RunStatus, ExitReason, DepFailReason, from_wire}
use agenttender.Model.Status.Steps.{from_wire-as_str}
use agenttender.Model.Transition.{
  HealedTerminal, healed_exited, healed_spawn_failed, healed_dependency_failed,
}
use agenttender.Lifecycle.Json.{Json, Fields, field, as_str, as_i64, non_zero_i32}
use agenttender.Lifecycle.Data.{lifecycle_data}

-- `?` on an option
infixl 5 ◌>>=◌
abbrev ◌>>=◌ : {A B : Type 0} → Option A → (A → Option B) → Option B
◌>>=◌ none f = none
◌>>=◌ (some a) f = f a

-- The match on the reason of an exit.
unfoldable pub exit_of : Bytes → Fields → Option ExitReason
unfolding field non_zero_i32 from_wire bytes_eq
exit_of reason fields =
    if bytes_eq reason (codes "ExitedOk")
    then some ExitReason.exited_ok
    else if bytes_eq reason (codes "ExitedError")
    then (do
      n ← as_i64 (field (codes "exit_code") fields)
      code ← non_zero_i32 n
      some (ExitReason.exited_error code))
    else if bytes_eq reason (codes "Killed")
    then some ExitReason.killed
    else if bytes_eq reason (codes "KilledForced")
    then some ExitReason.killed_forced
    else if bytes_eq reason (codes "TimedOut")
    then some ExitReason.timed_out
    else if bytes_eq reason (codes "SidecarFailed")
    then (do
      name ← as_str (field (codes "step") fields)
      step ← from_wire name
      some (ExitReason.sidecar_failed step))
    else none

-- The match on the reason of a failed dependency.
unfoldable pub dependency_of : Bytes → Option DepFailReason
unfolding bytes_eq
dependency_of reason =
    if bytes_eq reason (codes "Failed")
    then some DepFailReason.failed
    else if bytes_eq reason (codes "TimedOut")
    then some DepFailReason.timed_out
    else if bytes_eq reason (codes "Killed")
    then some DepFailReason.killed
    else if bytes_eq reason (codes "KilledForced")
    then some DepFailReason.killed_forced
    else none

-- The match on the status.
unfoldable pub healed_of : Bytes → Fields → Option HealedTerminal
unfolding field exit_of dependency_of bytes_eq
healed_of status fields =
    if bytes_eq status (codes "Exited")
    then (do
      reason ← as_str (field (codes "reason") fields)
      how ← exit_of reason fields
      some (healed_exited how))
    else if bytes_eq status (codes "SpawnFailed")
    then some healed_spawn_failed
    else if bytes_eq status (codes "DependencyFailed")
    then (do
      reason ← as_str (field (codes "reason") fields)
      why ← dependency_of reason
      some (healed_dependency_failed why))
    else none

-- `healed_terminal_of`
unfoldable pub healed_terminal_of : Fields → Option HealedTerminal
unfolding field healed_of bytes_eq
healed_terminal_of fields = do
  status ← as_str (field (codes "status") fields)
  healed_of status fields

-- A code that `NonZeroI32` can hold.
abbrev pub IsCode : ExitReason → Type 0
IsCode (ExitReason.exited_error code) = non_zero_i32 code ≡ some code
IsCode _ = Unit

-- The terminal record of a status that a sidecar records.
abbrev pub record_of : RunStatus → Option HealedTerminal
record_of (RunStatus.spawn_failed t) = some healed_spawn_failed
record_of (RunStatus.exited c how t) = some (healed_exited how)
record_of (RunStatus.dependency_failed t reason) = some (healed_dependency_failed reason)
record_of _ = none

abbrev pub HasCode : RunStatus → Type 0
HasCode (RunStatus.exited c how t) = IsCode how
HasCode _ = Unit

-- Reconciliation reads from the data of every lifecycle event the terminal record that its status
-- has, and none from a status that is no record of the sidecar's: starting, running or lost.
pub healed_terminal_of-lifecycle_data :
    (status : RunStatus) (provenance : Bytes) (boundary : Option Json)
    → HasCode status
    → healed_terminal_of (lifecycle_data status provenance boundary) ≡ record_of status
unfolding healed_terminal_of lifecycle_data bytes_eq
healed_terminal_of-lifecycle_data RunStatus.starting p none v = refl
healed_terminal_of-lifecycle_data RunStatus.starting p (some b) v = refl
healed_terminal_of-lifecycle_data (RunStatus.running c) p none v = refl
healed_terminal_of-lifecycle_data (RunStatus.running c) p (some b) v = refl
healed_terminal_of-lifecycle_data (RunStatus.spawn_failed t) p b v = refl
healed_terminal_of-lifecycle_data (RunStatus.sidecar_lost c t) p b v = refl
healed_terminal_of-lifecycle_data (RunStatus.dependency_failed t DepFailReason.failed) p b v = refl
healed_terminal_of-lifecycle_data (RunStatus.dependency_failed t DepFailReason.timed_out) p b v =
    refl
healed_terminal_of-lifecycle_data (RunStatus.dependency_failed t DepFailReason.killed) p b v = refl
healed_terminal_of-lifecycle_data (RunStatus.dependency_failed t DepFailReason.killed_forced) p b
      v =
    refl
healed_terminal_of-lifecycle_data (RunStatus.exited c ExitReason.exited_ok t) p b v = refl
healed_terminal_of-lifecycle_data (RunStatus.exited c ExitReason.killed t) p b v = refl
healed_terminal_of-lifecycle_data (RunStatus.exited c ExitReason.killed_forced t) p b v = refl
healed_terminal_of-lifecycle_data (RunStatus.exited c ExitReason.timed_out t) p b v = refl
healed_terminal_of-lifecycle_data (RunStatus.exited c (ExitReason.exited_error code) t) p b v =
    ap
      (λ o.
        (o >>= (λ code. some (ExitReason.exited_error code))) >>= (λ how. some (healed_exited how)))
      v
healed_terminal_of-lifecycle_data (RunStatus.exited c (ExitReason.sidecar_failed step) t) p b v =
    ap
      (λ o.
        (o >>= (λ step. some (ExitReason.sidecar_failed step)))
        >>= (λ how. some (healed_exited how)))
      (from_wire-as_str step)
