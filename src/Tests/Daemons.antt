-- ===== src/Tests/Daemons.antt =====
-- A daemon that is started and stopped (server/daemon.py).
use coda_node.Prelude.{◌≡◌, true, false, none, some, []}
use coda_node.Exec.{ok}
use coda_node.Exec.Leads.{After}
use coda_node.Daemon.{World, Host, delivered, start_daemon, stop_daemon}
use coda_node.Daemon.Lifecycle.{Started, NotStarted, start_daemon_ends}
use coda_node.Daemon.Stopping.{Stopped, stop_daemon_ends}

-- A system on which every process is alive and takes no notice of SIGTERM.
abbrev pub system : World
system = record {
  is_windows = false;
  environ = [];
  executable = "/usr/bin/python3";
  readable = λ cs. true;
  alive = λ cs. true;
  open_log = λ cs. ok tt;
  popen = λ cs. ok 4242;
  signal = λ cs. delivered;
  looks = λ cs. 100;
  log_exists = λ cs. true;
}

abbrev empty : Host
empty = record { pid_file = none; calls = [] }

abbrev pub running : Host
running = record { pid_file = some "4242\n"; calls = [] }

start_daemon_ends_example :
    After
      (Started system empty)
      (NotStarted system empty)
      (start_daemon system "0.0.0.0" 8080 "" empty)
start_daemon_ends_example = start_daemon_ends system "0.0.0.0" 8080 "" empty

stop_daemon_ends_example :
    After (Stopped system running) (λ t. t.pid_file ≡ some "4242\n") (stop_daemon system running)
stop_daemon_ends_example = stop_daemon_ends system running
