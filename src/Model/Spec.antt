-- ===== src/Model/Spec.antt =====
-- src/model/spec.rs: the launch specification of a run. Paths and texts are their bytes; `env`,
-- a `BTreeMap`, is the list of its entries in key order.
use agenttender.Common.{
  ℕ, Bool, false, List, [], Option, none, Result, ok, err, is_empty, if◌then◌else◌, Bytes,
}
use agenttender.Model.Ids.{RunId, SessionName}
use agenttender.Model.Boundary.{BoundaryContext}

pub data StdinMode : Type 0 where
  pipe no_stdin : StdinMode

pub data IoMode : Type 0 where
  pipes pty : IoMode

pub data ExecTarget : Type 0 where
  no_exec posix_shell power_shell python_repl duck_db : ExecTarget

pub record DependencyBinding : Type 0 where
  pub session : SessionName
  pub run_id : RunId

pub record LaunchSpec : Type 0 where
  pub argv : List Bytes
  pub cwd : Option Bytes
  pub env : List (Bytes × Bytes)
  pub timeout_s : Option ℕ
  pub after : List DependencyBinding
  pub after_any_exit : Bool
  pub namespace : Option Bytes
  pub on_exit : List Bytes
  pub stdin_mode : StdinMode
  pub io_mode : IoMode
  pub exec_target : ExecTarget
  pub boundary : Option BoundaryContext

pub data EmptyArgvError : Type 0 where
  empty_argv : EmptyArgvError

-- `LaunchSpec::new`
unfoldable pub new : List Bytes → Result EmptyArgvError LaunchSpec
new argv =
    if is_empty argv
    then err empty_argv
    else ok (record {
      argv = argv;
      cwd = none;
      env = [];
      timeout_s = none;
      after = [];
      after_any_exit = false;
      namespace = none;
      on_exit = [];
      stdin_mode = no_stdin;
      io_mode = pipes;
      exec_target = no_exec;
      boundary = none;
    })
