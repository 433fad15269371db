-- ===== src/Tests/Logs.antt =====
-- A log of three lines (server/daemon.py).
use coda_node.Prelude.{◌≡◌, refl, true, List, codes, splitlines, pos}
use coda_node.Exec.{ok}
use coda_node.Daemon.Log.{Text, join_lines, tail_daemon_log, LastLines, tail_daemon_log-LastLines}

abbrev log : Text
log = codes "started\nready\nstopped\n"

two : tail_daemon_log true (ok log) (pos 2) ≡ ok (codes "ready\nstopped")
unfolding tail_daemon_log join_lines splitlines
two = refl

tail_daemon_log-LastLines_example :
    ((shown : List Text) × LastLines 2 (splitlines log) shown
      × (tail_daemon_log true (ok log) (pos 2) ≡ ok (join_lines shown)))
    × (tail_daemon_log true (ok log) (pos 0) ≡ ok (join_lines (splitlines log)))
tail_daemon_log-LastLines_example = tail_daemon_log-LastLines log 1
