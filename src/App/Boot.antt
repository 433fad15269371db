-- ===== src/App/Boot.antt =====
-- What holds when the application serves, and when it does not come to that (server/app.py).
use coda_node.Prelude.{◌≡◌, inl, inr, refl, sym, ap, ◌∙◌, subst, Option, none, List, [], ◌∷◌, ℕ}
use coda_node.Exec.{modify, lift, Result, ok, err}
use coda_node.Exec.Leads.{
  After, Leads, Leads-bind, Leads-fact, Leads-if, Leads-pure, Leads-raise, Leads-gets, Leads-modify,
  Leads-lift, Leads-adapt,
}
use coda_node.Exec.Part.{Leads-part}
use coda_node.Executor.{JobExecutor}
use coda_node.Consumer.World.{initial}
use coda_node.Vpn.Node.{Settings}
use coda_node.Vpn.Node.Connect.{connect_settings}
use coda_node.Vpn.Node.Safety.{AllPermitted}
use coda_node.Vpn.Node.Safety.Connected.{Provisioned, connect_settings-Leads}
use coda_node.Vpn.Guard.{booting}
use coda_node.Vpn.Guard.Preflight.{Judged, announced, preflight-Leads}
use coda_node.App.{
  Task, watch, consume_loop, heartbeat, Event, from_url, create_task, World, Options, Lifespan,
  perform, on_node, ready,
}
use coda_node.App.Startup.{
  node_world, runner_or, guard_of, check_vpn, start, clients_of, serve, startup,
}
use coda_node.App.Serving.{
  Chosen, Ready, Serves, Idle, Chosen-runner_or, Passed, Passed-status, Ready-Passed,
}

module _ (w : World) (c : Options) where
  -- What follows the handshake, where the settings are `settings`.
  module _ (before : List Event) (old : Settings) (executor : Option JobExecutor)
      (settings : Settings) where
    abbrev Fit : Settings → Type 0
    Fit = Provisioned (node_world w c) old.jwt_private_key old.jwt_key_id

    abbrev Connected : Lifespan → Type 0
    Connected s = (s.node.settings ≡ settings) × (s.events ≡ before)

    abbrev Unchecked : Lifespan → Type 0
    Unchecked s = Connected s × (s.guard.state ≡ booting) × (announced s.guard.calls ≡ [])

    check_vpn-Leads :
        Leads Connected
          (λ status s. Judged (guard_of settings) status s.guard × Connected s)
          (Idle w c before)
          (check_vpn w settings)
    check_vpn-Leads =
        Leads-bind _ _ (Leads-modify {Q = λ _. Unchecked} _ (λ s h. (h, refl, refl))) λ _.
          Leads-bind _ _ (Leads-gets {Q = λ world. Unchecked} _ (λ s h. h)) λ world.
            Leads-part _ _ _ (preflight-Leads world (guard_of settings) booting [])
              (λ s h. (h.1, h.2)) (λ s h status g q. (q.0, h.0)) (λ s h g q. inl h.0.1)

    abbrev Checked : Lifespan → Type 0
    Checked s = Connected s × Passed w c settings s.guard

    abbrev Opened : Lifespan → Type 0
    Opened s =
        (s.node.settings ≡ settings)
        × (s.events ≡ from_url settings.redis_url ∷ before)
        × Passed w c settings s.guard

    -- The clients are there, and the events are these.
    Did : List Event → Lifespan → Type 0
    Did events s = (s.node.settings ≡ settings) × (s.events ≡ events) × Ready w c settings s

    opened-Idle : (s : Lifespan) → Opened s → Idle w c before s
    opened-Idle s h = inr (h.1 ∙ ap (λ t. from_url t.redis_url ∷ before) (sym h.0))

    opens :
        (answer : List Event → Result (Unit {0}))
        → Leads Checked
            (λ a. Opened)
            (Idle w c before)
            (perform (from_url settings.redis_url) answer)
    unfolding perform
    opens answer = record { at = λ s h. go s h (answer (from_url settings.redis_url ∷ s.events)) }
      where
        now : Lifespan → Lifespan
        now s = record s { events = from_url settings.redis_url ∷ s.events }

        opened : (s : Lifespan) → Checked s → Opened (now s)
        opened s h = (h.0.0, ap (λ es. from_url settings.redis_url ∷ es) h.0.1, h.1)

        go :
            (s : Lifespan)
            → Checked s
            → (r : Result (Unit {0})) → After (λ a. Opened) (Idle w c before) (r, now s)
        go s h (ok a) = opened s h
        go s h (err x) = opened-Idle (now s) (opened s h)

    builds :
        Leads Opened
          (λ a. Did (from_url settings.redis_url ∷ before))
          (Idle w c before)
          (modify (λ s. record s { consumer = initial }))
    unfolding Did
    builds = Leads-modify _ (λ s h. (h.0, h.1, Ready-Passed w c settings s h.2))

    starts :
        (task : Task) (events : List Event)
        → Leads (Did events) (λ a. Did (create_task task ∷ events)) (Idle w c before) (start w task)
    unfolding perform Did ready
    starts task events = record { at = λ s h. (h.0, ap (λ es. create_task task ∷ es) h.1, h.2) }

    serving :
        (runner : JobExecutor)
        → Chosen w c executor runner
        → (edges : Option (List (List ℕ))) → Fit settings
        → (s : Lifespan)
        → Did
            (create_task heartbeat
              ∷ create_task consume_loop
              ∷ create_task watch
              ∷ from_url settings.redis_url
              ∷ before)
            s
        → Serves w c before old executor (clients_of w c settings runner edges) s s.node.settings
    unfolding Did
    serving runner chosen edges fit s h =
        subst (Serves w c before old executor (clients_of w c settings runner edges) s) (sym h.0)
          (fit, chosen, refl, refl, refl, h.1, h.2)

    serve-Leads :
        Fit settings
        → Leads Checked
            (λ clients s. Serves w c before old executor clients s s.node.settings)
            (Idle w c before)
            (serve w c executor settings)
    unfolding serve
    serve-Leads fit = Leads-bind _ _ (opens _) λ _. Leads-bind _ _ loads λ runner.
        Leads-fact _ λ chosen.
          Leads-bind _ _ (Leads-lift {Q = λ edges. Opened} _ (λ a e s h. h) opened-Idle) λ edges.
            Leads-bind _ _ builds λ _. Leads-bind _ _ (starts watch _) λ _.
              Leads-bind _ _ (starts consume_loop _) λ _.
                Leads-bind _ _ (starts heartbeat _)
                  λ _. Leads-pure _ (λ s h. serving runner chosen edges fit s h)
      where
        loads :
            Leads Opened
              (λ runner s. Chosen w c executor runner × Opened s)
              (Idle w c before)
              (lift (runner_or w c executor))
        loads = Leads-lift _ (λ a e s h. (Chosen-runner_or w c executor e, h)) opened-Idle

  module _ (before : List Event) (old : Settings) where
    -- Nothing was written yet, and the settings are the old ones.
    abbrev Cold : Lifespan → Type 0
    Cold s = (s.node.settings ≡ old) × (s.node.calls ≡ []) × (s.events ≡ before)

    abbrev Joined : Lifespan → Type 0
    Joined s = Fit before old none old s.node.settings × (s.events ≡ before)

    connects :
        Leads Cold (λ _. Joined) (Idle w c before) (on_node (connect_settings (node_world w c)))
    connects =
        Leads-part _ _ _
          (connect_settings-Leads (node_world w c) old.jwt_private_key old.jwt_key_id)
          (λ s h. (
            (ap (λ t. t.jwt_private_key) h.0, ap (λ t. t.jwt_key_id) h.0),
            subst AllPermitted (sym h.1) tt,
          ))
          (λ s h a n q. (q.0, h.2)) (λ s h n q. inl h.2)

    startup-Leads :
        (executor : Option JobExecutor)
        → Leads Cold
            (λ clients s. Serves w c before old executor clients s s.node.settings)
            (Idle w c before)
            (startup w c executor)
    unfolding startup
    startup-Leads executor = Leads-bind _ _ connects λ _.
        Leads-bind _ _
          (Leads-gets
            {Q = λ settings s.
              Fit before old executor settings settings × Connected before old executor settings s}
            _ (λ s h. (h.0, (refl, h.1))))
          λ settings. Leads-fact _ λ fit.
            Leads-bind _ _ (check_vpn-Leads before old executor settings) λ status.
              Leads-if _ _ _ (λ e. Leads-raise _ (λ s h. inl h.1.1))
                λ e.
                  Leads-adapt _ (λ s h. (h.1, Passed-status w c settings status s.guard e h.0))
                    (λ s h. h) (serve-Leads before old executor settings fit)

-- From a node that has made no call yet, a startup that returns has settings that follow a bundle with
-- which the cloud answered a POST: the QPU, its gate set and Redis are the bundle's texts under these
-- names; the cloud's address is its `webapp_url`, or its `cloud_base_url` where it has none; each JWT
-- credential is the bundle's, or the old one where the bundle has none; and none of these is empty. The
-- executor is the given one, or what `Resolves` says. The webhook client, the heartbeat and the
-- consumer have the identity and the credentials of these settings; behind the connection to Redis the
-- three tasks were created, the guard's first; and the readiness probe answers 200, unless the node may
-- start degraded and needs its VPN. A startup that raises has created no task and opened at most the
-- connection to Redis.
pub startup-Serves :
    (w : World) (c : Options) (executor : Option JobExecutor) (s : Lifespan)
    → s.node.calls ≡ []
    → After
        (λ clients t. Serves w c s.events s.node.settings executor clients t t.node.settings)
        (Idle w c s.events)
        (startup w c executor s)
startup-Serves w c executor s h =
    (startup-Leads w c s.events s.node.settings executor).at s (refl, h, refl)
