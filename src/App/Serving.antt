-- ===== src/App/Serving.antt =====
-- What an application that serves promises, and one that failed to start (server/app.py).
use coda_node.Prelude.{
  ◌≡◌, ◌⊎◌, inl, inr, refl, sym, Bool, true, false, not, ◌&&◌, Option, none, some, List, ◌∷◌, arith,
}
use coda_node.Exec.{ok}
use coda_node.Executor.{JobExecutor}
use coda_node.Executor.Resolution.{Resolves, load_executor-Resolves}
use coda_node.Consumer.World.{initial}
use coda_node.Vpn.Node.{Settings}
use coda_node.Vpn.Node.Safety.Connected.{Provisioned}
use coda_node.Vpn.Guard.{VpnGuard, is_ready, VpnStatus}
use coda_node.Vpn.Guard.Preflight.{Judged}
use coda_node.App.{
  watch, consume_loop, heartbeat, Event, from_url, create_task, World, Options, Lifespan, ready,
}
use coda_node.App.Startup.{node_world, Clients, signer_of, guard_of, runner_or}

module _ (w : World) (c : Options) where
  -- The executor is the given one, or it was loaded.
  abbrev pub Chosen : Option JobExecutor → JobExecutor → Type 0
  Chosen (some executor) runner = runner ≡ executor
  Chosen none runner = Resolves w.executor c.executor_factory runner

  -- No task was created.
  abbrev pub Idle : List Event → Lifespan → Type 0
  Idle before s = (s.events ≡ before) ⊎ (s.events ≡ from_url s.node.settings.redis_url ∷ before)

  -- The node is ready, unless it may start degraded and needs its VPN.
  abbrev pub Ready : Settings → Lifespan → Type 0
  Ready settings s =
      (ready s ≡ 200) ⊎ ((c.allow_degraded_startup ≡ true) × (settings.vpn_required ≡ true))

  -- The settings are those of a bundle that the cloud brought, where the JWT credentials were those of
  -- `old`; the clients have the identity and the credentials that the settings name; and the three
  -- tasks were created, in this order, behind the connection to Redis.
  abbrev pub Serves :
      List Event → Settings → Option JobExecutor → Clients → Lifespan → Settings → Type 0
  Serves before old executor clients s settings =
      Provisioned (node_world w c) old.jwt_private_key old.jwt_key_id settings
      × Chosen executor clients.runner
      × (clients.webhook_signer ≡ signer_of settings)
      × (clients.heartbeat_signer ≡ signer_of settings)
      × (clients.consumer.qpu_id ≡ settings.qpu_id)
      × (s.events
          ≡ create_task heartbeat
            ∷ create_task consume_loop
            ∷ create_task watch
            ∷ from_url settings.redis_url
            ∷ before)
      × Ready settings s

  pub Chosen-runner_or :
      (executor : Option JobExecutor) {runner : JobExecutor}
      → runner_or w c executor ≡ ok runner
      → Chosen executor runner
  Chosen-runner_or none h = load_executor-Resolves w.executor c.executor_factory h
  Chosen-runner_or (some e) h = sym (inj h)
    where
      inj : {a b : JobExecutor} → ok a ≡ ok b → a ≡ b
      inj e = cc

  -- The check of the VPN did not refuse to start.
  abbrev pub Passed : Settings → VpnGuard → Type 0
  Passed settings g =
      (is_ready g ≡ true) ⊎ ((c.allow_degraded_startup ≡ true) × (settings.vpn_required ≡ true))

  pub Passed-status :
      (settings : Settings) (status : VpnStatus) (g : VpnGuard)
      → not status.ok && (settings.vpn_required && not c.allow_degraded_startup) ≡ false
      → Judged (guard_of settings) status g
      → Passed settings g
  Passed-status settings status g h j = go status.ok refl
    where
      fine : status.ok ≡ true → is_ready g ≡ true
      fine e = rw (j.0, e)

      degraded : status.ok ≡ false → settings.vpn_required ≡ true → c.allow_degraded_startup ≡ true
      degraded e r = ground arith

      go : (b : Bool) → status.ok ≡ b → Passed settings g
      go true e = inl (fine e)
      go false e = inr (degraded e (j.1 e), j.1 e)

  -- With a new consumer.
  pub Ready-Passed :
      (settings : Settings) (s : Lifespan)
      → Passed settings s.guard
      → Ready settings (record s { consumer = initial })
  unfolding ready
  Ready-Passed settings s (inl e) = inl (rw e)
  Ready-Passed settings s (inr d) = inr d
