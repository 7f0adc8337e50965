-- ===== src/Daemondo/Tests.antt =====
-- daemondo in concrete runs.
use macports.Prelude.{
  ℕ, ◌+◌, ◌≤◌, ◌≡◌, ◌⊎◌, refl, [], ◌∷◌, ◌++◌, List, Bytes, All, length, codes, true, false, Option,
  none, some,
}
use macports.Prelude.Int.{ℤ, pos}
use macports.Daemondo.Types.{
  style_none, style_exec, style_file_auto, Config, Globals, absent, holds, launched, died,
  signalled, slept, ran, sigterm, ExecCalls, StartCalls, Poll, watching, impatient, sigchld, exited,
  no_pid,
}
use macports.Daemondo.PidFile.{check_for_valid_pid_file}
use macports.Daemondo.Control.{StopCalls, RestartCalls, restart, discover}
use macports.Daemondo.Loop.{RunLoopEvent, on_sigterm, on_request, on_timer, run_loop, main_loop}
use macports.Daemondo.Ending.{run_loop-sigterm}
use macports.Daemondo.Tracking.{IsStopped, IsRunning, targets}
use macports.Daemondo.Ended.{main_loop-follows, main_loop-IsStopped}
use macports.Daemondo.Options.{collect_cmd_args, collect_cmd_args-IsCollected, IsPlain}
use macports.Daemondo.Discovery.{discover-first}

abbrev command : Option (List Bytes)
command = some (codes "sshd" ∷ codes "-D" ∷ [])

abbrev config : Config
config = record {
  start_args = command;
  stop_args = none;
  restart_args = none;
  pid_style = style_exec;
  pid_file = some (codes "/var/run/sshd.pid");
  restart_on_wakeup = true;
  restart_hysteresis = 5;
  can_unlink = true;
}

-- An old pid file names another process.
abbrev initial : Globals
initial = record {
  terminating = false;
  running_pid = pos 0;
  restart_timer = none;
  file = holds (pos 99);
  log = [];
}

abbrev forks : ℕ → ExecCalls
forks n = record { fork = some n; rounds = [] }

abbrev starts : ℕ → StartCalls
starts n = record {
  exec_calls = forks n;
  polls = [];
  last_poll = record { seen = absent; alive = false };
  can_write = true;
}

-- The process dies while daemondo waits, after it lost its patience.
abbrev stops : ℤ → StopCalls
stops pid = record {
  stop_rounds =
      watching [] ∷ impatient ∷ watching (sigchld (pos 7 ∷ pid ∷ []) ∷ exited pid ∷ []) ∷ [];
  stop_exec = forks 0;
}

abbrev restarts : ℤ → ℕ → RestartCalls
restarts pid n = record {
  restart_stop = stops pid;
  restart_start = starts n;
  restart_exec = forks 0;
}

abbrev events : List RunLoopEvent
events =
    on_request 10
    ∷ on_request 12
    ∷ on_timer (restarts (pos 42) 43)
    ∷ on_sigterm (stops (pos 44))
    ∷ on_request 99
    ∷ []

main_loop-follows_example :
    (n : ℕ) × (IsStopped ((main_loop config (starts 41) (on_request 10 ∷ []) initial).1.1)
      ⊎ IsRunning n ((main_loop config (starts 41) (on_request 10 ∷ []) initial).1.1))
unfolding targets
main_loop-follows_example =
    main_loop-follows config (refl, refl, refl, (codes "/var/run/sshd.pid", refl), refl) (starts 41)
      (on_request 10 ∷ []) initial (refl, refl, refl)

left_events : (main_loop config (starts 41) events initial).1.0 ≡ some (on_request 99 ∷ [])
unfolding main_loop
left_events = refl

main_loop-IsStopped_example : IsStopped ((main_loop config (starts 41) events initial).1.1)
unfolding targets
main_loop-IsStopped_example =
    main_loop-IsStopped config (refl, refl, refl, (codes "/var/run/sshd.pid", refl), refl)
      (starts 41) events (on_request 99 ∷ []) initial (refl, refl, refl) left_events

abbrev running : Globals
running = record initial {
  running_pid = pos 42;
  file = holds (pos 42);
  log = launched (codes "sshd" ∷ []) (pos 42) ∷ [];
}

run_loop-sigterm_example :
    (left : List RunLoopEvent) × ((run_loop config
        (on_request 3 ∷ [] ++ on_sigterm (stops (pos 42)) ∷ on_request 4 ∷ [])
        running).0
      ≡ some left)
    × (length {A = RunLoopEvent} (on_request 4 ∷ []) ≤ length left)
run_loop-sigterm_example =
    run_loop-sigterm config (on_request 3 ∷ []) (on_request 4 ∷ []) (stops (pos 42)) running

collect_cmd_args-IsCollected_example :
    (args : List Bytes) × ((n : ℕ) × ((collect_cmd_args
            (codes "sshd")
            (codes "-D" ∷ codes ";" ∷ codes "-v" ∷ [])
          ≡ (codes "sshd" ∷ args, n))
        × (All IsPlain args
            × (((codes "-D" ∷ codes ";" ∷ codes "-v" ∷ [] ≡ args) × (n ≡ length args))
                ⊎ ((rest : List Bytes) × (codes "-D" ∷ codes ";" ∷ codes "-v" ∷ []
                      ≡ args ++ (b';' ∷ []) ∷ rest)
                    × (n ≡ length args + 1))))))
collect_cmd_args-IsCollected_example =
    collect_cmd_args-IsCollected (codes "sshd") (codes "-D" ∷ codes ";" ∷ codes "-v" ∷ [])

abbrev in_file : Config
in_file = record config { pid_style = style_file_auto }

abbrev found : Poll
found = record { seen = holds (pos 55); alive = true }

abbrev dead : Poll
dead = record { seen = holds (pos 54); alive = false }

abbrev polled : StartCalls
polled = record (starts 41) { polls = dead ∷ found ∷ [] }

found_pid :
    discover in_file polled (pos 42) initial
    ≡ (0, record initial { running_pid = check_for_valid_pid_file found; file = found.seen })
unfolding check_for_valid_pid_file
found_pid =
    discover-first in_file polled (pos 42) initial (dead ∷ []) [] found refl refl (refl, tt) refl

-- A stop-cmd that cannot be forked: the restart launches a second process beside the first.
abbrev with_stop_cmd : Config
with_stop_cmd = record config { stop_args = some (codes "stop" ∷ []) }

abbrev no_fork : RestartCalls
no_fork = record {
  restart_stop = record { stop_rounds = []; stop_exec = record { fork = none; rounds = [] } };
  restart_start = starts 43;
  restart_exec = forks 0;
}

two_processes : targets ((restart with_stop_cmd no_fork running).1.log) ≡ pos 44 ∷ pos 42 ∷ []
unfolding restart targets
two_processes = refl

abbrev no_child : RestartCalls
no_child = record {
  restart_stop = record { stop_rounds = []; stop_exec = forks 0 };
  restart_start = record (starts 43) { last_poll = record { seen = holds (pos 45); alive = true } };
  restart_exec = forks 0;
}

-- A process of a pid file is no child, so that wait4(2) fails at once: the restart takes it for dead.
not_waited :
    (restart in_file no_child running).1.log
    ≡ launched (codes "sshd" ∷ codes "-D" ∷ []) (pos 44)
      ∷ slept
      ∷ died (pos 42)
      ∷ signalled (pos 42) sigterm
      ∷ running.log
unfolding restart
not_waited = refl

-- Without a pid, a restart signals nothing and launches the start-cmd again.
abbrev without_pid : Config
without_pid = record config { pid_style = style_none }

not_stopped :
    (restart without_pid no_child (record initial { running_pid = no_pid })).1.log
    ≡ ran (codes "sshd" ∷ codes "-D" ∷ []) (pos 44) ∷ slept ∷ []
unfolding restart
not_stopped = refl
