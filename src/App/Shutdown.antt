-- ===== src/App/Shutdown.antt =====
-- What the lifespan does when the application stops (`create_app` of server/app.py).
use coda_node.Prelude.{Bool, false}
use coda_node.Exec.{ok, modify, ◌>>=◌, ◌>>◌}
use coda_node.Consumer.Drain.{drain}
use coda_node.Vpn.Node.Openvpn.{kill_openvpn_daemon}
use coda_node.App.{
  Task, watch, consume_loop, heartbeat, cancel, await, stop_guard, close_heartbeat, drain_consumer,
  close_webhook, close_redis, World, M, perform, on_node, on_guard, on_consumer,
}

module _ (w : World) where
  -- `task.cancel()`, and `await task` with `CancelledError` suppressed
  abbrev pub end_task : Task → M (Unit {0})
  end_task task = do perform (cancel task) (λ es. ok tt); perform (await task) (w.await task)

  abbrev pub drain_jobs : M Bool
  drain_jobs = do waits ← perform drain_consumer (λ es. ok (w.drain es)); on_consumer (drain waits)

  -- Behind the `yield`, up to the daemon. Whether the consumer was drained is only logged.
  unfoldable pub stop_services : M (Unit {0})
  stop_services = do
    perform stop_guard (λ es. ok tt)
    on_guard (modify (λ g. record g { running = false }))
    end_task watch
    perform close_heartbeat w.close_heartbeat
    end_task heartbeat
    drain_jobs
    end_task consume_loop
    perform close_webhook w.close_webhook
    perform close_redis w.close_redis

  -- The lifespan behind its `yield`.
  unfoldable pub shutdown : M Bool
  shutdown = do stop_services; on_node (kill_openvpn_daemon w.node)
