-- ===== src/Reconcile/World.antt =====
-- What reconciliation (src/reconcile.rs) asks of the system, with its answers given, and the events
-- that it reads.
use agenttender.Common.{
  ℕ, zero, suc, ◌+◌, ◌/◌, ◌%◌, Bool, false, ◌&&◌, ◌||◌, List, [], ◌∷◌, ◌++◌, Option, none, some,
  Bytes, bytes_eq, codes, if◌then◌else◌, ltb,
}
use agenttender.Model.Ids.{RunId, ProcessIdentity, EpochTimestamp}
use agenttender.Model.Meta.{Meta}
use agenttender.Model.Status.{RunStatus}
use agenttender.Model.Transition.{TransitionError}
use agenttender.Model.PtyControl.Requests.{ErrorKind}
use agenttender.Lifecycle.Json.{Fields}

-- src/platform/mod.rs
pub data ProcessStatus : Type 0 where
  alive_verified missing identity_mismatch inaccessible : ProcessStatus
  os_error : ErrorKind → ProcessStatus

pub data LockError : Type 0 where
  locked lock_failed : LockError

-- An event of the session's log: what reconciliation reads of it, with the time in seconds.
pub record Event : Type 0 where
  pub run_id : RunId
  pub writer : RunId
  pub source : Bytes
  pub kind : Bytes
  pub ts : EpochTimestamp
  pub fields : Option Fields

-- The answers of the file system, the lock and the processes during one reconciliation. `lock` and
-- `kill` are none for success; `read` and `log` are none where reading fails; `show` is the text of
-- an I/O error.
pub record World : Type 0 where
  pub lock : Option LockError
  pub read : Option Meta
  pub breadcrumb : Option ProcessIdentity
  pub log : Option (List Event)
  pub process_status : ProcessIdentity → ProcessStatus
  pub kill : ProcessIdentity → Option ErrorKind
  pub can_write : Bool
  pub has_namespace : Bool
  pub can_append : Bool
  pub now : EpochTimestamp
  pub show : ErrorKind → Bytes

-- What it does, in order: a forced kill, a lifecycle event that got into the log, the write of the metadata.
pub data Did : Type 0 where
  tried_kill : ProcessIdentity → Did
  appended : RunStatus → Did
  wrote : Meta → Did

pub data Reconciled : Type 0 where
  untouched healed inferred : Reconciled

pub data Failure : Type 0 where
  lock_error read_error write_error : Failure
  transition_failed : TransitionError → Failure

abbrev pub terminal_kinds : List Bytes
terminal_kinds =
    codes "run.exited"
    ∷ codes "run.killed"
    ∷ codes "run.timed_out"
    ∷ codes "run.sidecar_failed"
    ∷ codes "run.spawn_failed"
    ∷ codes "run.dependency_failed"
    ∷ []

abbrev pub one_of : Bytes → List Bytes → Bool
one_of kind [] = false
one_of kind (k ∷ kinds) = bytes_eq kind k || one_of kind kinds

unfoldable pub is_terminal_event : Meta → Event → Bool
unfolding bytes_eq
is_terminal_event m e =
    bytes_eq e.run_id.uuid m.run_id.uuid
    && (bytes_eq e.writer.uuid m.run_id.uuid
        && (bytes_eq e.source (codes "tendr.sidecar") && one_of e.kind terminal_kinds))

abbrev pub or_later : Option Event → Option Event → Option Event
or_later x (some y) = some y
or_later x none = x

-- `into_iter().rev().find(p)`
unfoldable pub find_last : (Event → Bool) → List Event → Option Event
find_last p [] = none
find_last p (e ∷ es) = or_later (if p e then some e else none) (find_last p es)

-- `find_sidecar_terminal_event`; a log that cannot be read is no evidence.
unfoldable pub find_sidecar_terminal_event : Option (List Event) → Meta → Option Event
unfolding find_last is_terminal_event
find_sidecar_terminal_event none m = none
find_sidecar_terminal_event (some es) m = find_last (is_terminal_event m) es

-- `left_behind_child`
unfoldable pub left_behind_child : World → Meta → Option ProcessIdentity
left_behind_child w m = elim m.status [
  | RunStatus.running child ↦ some child
  | RunStatus.starting ↦ w.breadcrumb
  | _ ↦ none
]

-- `{pid}`: the decimal digits, on fuel that a u32 has no more digits than
unfoldable pub decimal_on : ℕ → ℕ → Bytes
decimal_on zero n = []
decimal_on (suc fuel) n =
    let rest = decimal_on fuel (n / 10) in (if ltb n 10 then [] else rest) ++ ((48 + n % 10) ∷ [])

unfoldable pub decimal : ℕ → Bytes
unfolding decimal_on
decimal n = decimal_on 10 n
