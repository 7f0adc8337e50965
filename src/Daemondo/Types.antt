-- ===== src/Daemondo/Types.antt =====
-- The globals of base/src/programs/daemondo/main.c, the answers of the operating system and the
-- trace of what daemondo does.
use macports.Prelude.{ℕ, ◌∷◌, List, Bytes, ◌==◌, ◌&&◌, not, Bool, true, false, Option, some}
use macports.Prelude.Int.{ℤ, pos, negsuc}

pub data PidStyle : Type 0 where
  style_unknown style_none style_exec style_file_auto style_file_clean : PidStyle

-- What the options set. `can_unlink` is not one: it is what unlink(2) answers for the pid file.
pub record Config : Type 0 where
  pub start_args : Option (List Bytes)
  pub stop_args : Option (List Bytes)
  pub restart_args : Option (List Bytes)
  pub pid_style : PidStyle
  pub pid_file : Option Bytes
  pub restart_on_wakeup : Bool
  pub restart_hysteresis : ℕ
  pub can_unlink : Bool

-- The pid file: there is none that can be opened, one without a number, or one with a number.
pub data File : Type 0 where
  absent : File
  no_number : File
  holds : ℤ → File

pub data Signal : Type 0 where
  sigterm sigkill : Signal

-- What daemondo does: it forks a command that it goes on beside, or one that it waits for, sends a
-- signal, sees the death of the process that it tracks, waits between stop and start.
pub data Action : Type 0 where
  launched : List Bytes → ℤ → Action
  ran : List Bytes → ℤ → Action
  signalled : ℤ → Signal → Action
  died : ℤ → Action
  slept : Action

-- The globals that change, the pid file and what was done, the last first.
pub record Globals : Type 0 where
  pub terminating : Bool
  pub running_pid : ℤ
  pub restart_timer : Option ℕ
  pub file : File
  pub log : List Action

abbrev pub no_pid : ℤ
no_pid = negsuc 0

abbrev pub same_pid : ℤ → ℤ → Bool
same_pid (pos a) (pos b) = a == b
same_pid (negsuc a) (negsuc b) = a == b
same_pid _ _ = false

-- `pid != 0 && pid != -1`.
abbrev pub is_known : ℤ → Bool
is_known pid = not (same_pid pid (pos 0)) && not (same_pid pid no_pid)

-- `args && args[0]`.
abbrev pub given : Option (List Bytes) → Bool
given (some (a ∷ args)) = true
given _ = false

abbrev pub is_file_style : PidStyle → Bool
is_file_style style_file_auto = true
is_file_style style_file_clean = true
is_file_style _ = false

-- What happens while the run loop watches children: a SIGCHLD, with the pids that wait4(2) then
-- gives, or a kevent for the exit of a process.
pub data Watched : Type 0 where
  sigchld : List ℤ → Watched
  exited : ℤ → Watched

-- A round of the loop that waits for a child: the run loop watches children, or patience is at an end.
pub data WaitRound : Type 0 where
  watching : List Watched → WaitRound
  impatient : WaitRound

-- The answers to `fork`, none for -1 and otherwise the child's pid less 1, and the rounds of the wait
-- for the child up to the answer of wait4(2) that ends it.
pub record ExecCalls : Type 0 where
  pub fork : Option ℕ
  pub rounds : List WaitRound

-- A look for a pid file: what is there then, and whether kill(2) finds the process.
pub record Poll : Type 0 where
  pub seen : File
  pub alive : Bool

-- The answers to `Start`: of the start-cmd, the looks while there is patience and the last, and whether
-- the pid file can be written.
pub record StartCalls : Type 0 where
  pub exec_calls : ExecCalls
  pub polls : List Poll
  pub last_poll : Poll
  pub can_write : Bool
