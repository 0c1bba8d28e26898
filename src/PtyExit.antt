-- ===== src/PtyExit.antt =====
-- src/pty_exit.rs: the exit codes of the PTY operations.
use agenttender.Common.{ℕ, Option, none, some, List, [], ◌∷◌}
use agenttender.Model.PtyControl.Requests.{ErrorKind, permission_denied}

pub data PtyExitCode : Type 0 where
  protocol control runtime identity : PtyExitCode

-- `PtyExitCode::code`
unfoldable pub code : PtyExitCode → ℕ
code protocol = 80
code control = 81
code runtime = 84
code identity = 85

-- `PtyExitCode::of_peer_check`, on the error's kind
unfoldable pub of_peer_check : ErrorKind → PtyExitCode
of_peer_check permission_denied = identity
of_peer_check _ = runtime

-- `exit_code`, on the causes of an error in order: `some c` for a `PtyExit` of code `c`
unfoldable pub exit_code : List (Option PtyExitCode) → ℕ
unfolding code
exit_code [] = 1
exit_code (none ∷ causes) = exit_code causes
exit_code (some c ∷ causes) = code c
