-- ===== src/App/Teardown.antt =====
-- How far a shutdown comes (server/app.py and `drain` of server/consumer.py).
use coda_node.Prelude.{
  ◌≡◌, ◌⊎◌, inl, inr, refl, sym, ap, subst, ◌∙◌, Bool, false, List, [], ◌∷◌, ◌++◌,
}
use coda_node.Exec.{Exn, Result, ok, err, modify}
use coda_node.Exec.Leads.{After, Leads, Leads-bind, Leads-modify, Leads-run, Leads-adapt}
use coda_node.Exec.Part.{Leads-part}
use coda_node.Consumer.Drained.{drain-Leads}
use coda_node.Consumer.Drain.{crashed, Waits}
use coda_node.Vpn.Node.{Node}
use coda_node.Vpn.Node.Openvpn.{kill_openvpn_daemon}
use coda_node.App.{
  Task, watch, consume_loop, heartbeat, Event, cancel, await, stop_guard, close_heartbeat,
  drain_consumer, close_webhook, close_redis, World, Lifespan, perform, on_guard,
}
use coda_node.App.Shutdown.{end_task, drain_jobs, stop_services, shutdown}
use coda_node.App.Order.{
  teardown, onto, Cut, Fault, failed_task, failed_heartbeat, failed_delivery, failed_webhook,
  failed_redis, onto-snoc,
}

module _ (w : World) (n : Node) (before : List Event) where
  -- The first part of a shutdown: the node's daemon was not touched.
  record Did (done : List Event) (s : Lifespan) : Type 0 where
    events_are : s.events ≡ onto done before
    node_is : s.node ≡ n

  -- A shutdown that ended early.
  abbrev pub Early : Lifespan → Type 0
  Early s = Cut before s.events × (s.node ≡ n) × Fault w s.events

  performs :
      {A : Type 0} {done : List Event} (left : List Event) (e : Event)
      (answer : List Event → Result A)
      → ((es : List Event) (x : Exn) → answer (e ∷ es) ≡ err x → Fault w (e ∷ es))
      → (done ++ e ∷ []) ++ left ≡ teardown
      → Leads (Did done) (λ a. Did (done ++ e ∷ [])) Early (perform e answer)
  unfolding perform
  performs {A} {done} left e answer fault p = record {
    at = λ s h. go s h (answer (e ∷ s.events)) refl;
  }
    where
      grown : (s : Lifespan) → Did done s → e ∷ s.events ≡ onto (done ++ e ∷ []) before
      grown s h = ap (λ es. e ∷ es) h.events_are ∙ sym (onto-snoc done before e)

      go :
          (s : Lifespan)
          → Did done s
          → (r : Result A) → answer (e ∷ s.events) ≡ r
          → After (λ a. Did (done ++ e ∷ [])) Early (r, record s { events = e ∷ s.events })
      go s h (ok a) k = record { events_are = grown s h; node_is = h.node_is }
      go s h (err x) k = ((done ++ e ∷ [], left, p, grown s h), h.node_is, fault _ x k)

  -- An event that cannot fail.
  marks :
      {A : Type 0} {done : List Event} (left : List Event) (e : Event) (answer : List Event → A)
      → (done ++ e ∷ []) ++ left ≡ teardown
      → Leads (Did done) (λ a. Did (done ++ e ∷ [])) Early (perform e (λ es. ok (answer es)))
  marks left e answer p = performs left e _ (λ es x c. absurd (clash c)) p
    where
      clash : {A : Type 0} {a : A} {x : Exn} → ok a ≡ err x → ⊥
      clash c = cc

  ends :
      {done : List Event} (left : List Event) (task : Task)
      → (done ++ cancel task ∷ []) ++ await task ∷ left ≡ teardown
      → ((done ++ cancel task ∷ []) ++ await task ∷ []) ++ left ≡ teardown
      → Leads
          (Did done)
          (λ a. Did ((done ++ cancel task ∷ []) ++ await task ∷ []))
          Early
          (end_task w task)
  ends left task p q =
      Leads-bind _ _ (marks _ (cancel task) _ p)
        λ _. performs left (await task) _ (λ es x c. failed_task task es c) q

  -- The consumer is asked, and these are its answers.
  Asked : List Event → Waits → Lifespan → Type 0
  Asked done waits s =
      Did done s × (es : List Event) × (s.events ≡ drain_consumer ∷ es) × (waits ≡ w.drain s.events)

  fails :
      {waits : Waits} {events es : List Event} {e : Exn}
      → events ≡ drain_consumer ∷ es
      → waits ≡ w.drain events
      → waits.delivery ≡ crashed e
      → Fault w events
  fails {waits} {events} {es} {e} p q r = subst (Fault w) (sym p) (
      failed_delivery es
        (ap (λ es. (w.drain es).delivery) (sym p) ∙ ap (λ x. x.delivery) (sym q) ∙ r))

  drains :
      {done : List Event} (left : List Event)
      → (done ++ drain_consumer ∷ []) ++ left ≡ teardown
      → Leads (Did done) (λ b. Did (done ++ drain_consumer ∷ [])) Early (drain_jobs w)
  unfolding perform Asked
  drains {done} left p = Leads-bind _ _ asks λ waits.
      Leads-part _ _ _ (drain-Leads waits) (λ s h. tt)
        (λ s h b c q. record { events_are = h.0.events_are; node_is = h.0.node_is })
        λ s h c q.
          ((done ++ drain_consumer ∷ [], left, p, h.0.events_are), h.0.node_is, fails h.2 h.3 q.1)
    where
      asks :
          Leads
            (Did done)
            (Asked (done ++ drain_consumer ∷ []))
            Early
            (perform drain_consumer (λ es. ok (w.drain es)))
      asks = record {
        at = λ s h. (
          record {
            events_are =
                ap (λ es. drain_consumer ∷ es) h.events_are
                ∙ sym (onto-snoc done before drain_consumer);
            node_is = h.node_is;
          },
          s.events,
          refl,
          refl,
        );
      }

  stops_guard :
      Leads
        (Did (stop_guard ∷ []))
        (λ a. Did (stop_guard ∷ []))
        Early
        (on_guard (modify (λ g. record g { running = false })))
  stops_guard =
      Leads-part _ _ _
        (Leads-modify {P = λ g. Unit {0}} {E = λ g. ⊥} {Q = λ _ g. Unit} _ (λ g h. h)) (λ s h. tt)
        (λ s h a g q. record { events_are = h.events_are; node_is = h.node_is })
        (λ s h g q. absurd q)

  stops-Leads : Leads (Did []) (λ a. Did teardown) Early (stop_services w)
  unfolding stop_services
  stops-Leads = Leads-bind _ _ (marks _ stop_guard _ refl) λ _. Leads-bind _ _ stops_guard λ _.
      Leads-bind _ _ (ends _ watch refl refl) λ _.
        Leads-bind _ _ (performs _ close_heartbeat _ (λ es x c. failed_heartbeat es c) refl) λ _.
          Leads-bind _ _ (ends _ heartbeat refl refl) λ _. Leads-bind _ _ (drains _ refl) λ _.
            Leads-bind _ _ (ends _ consume_loop refl refl) λ _.
              Leads-bind _ _ (performs _ close_webhook _ (λ es x c. failed_webhook es c) refl)
                λ _. performs _ close_redis _ (λ es x c. failed_redis es c) refl

  -- A shutdown that came to the daemon.
  abbrev pub Whole : Result Bool → Lifespan → Type 0
  Whole r s = (s.events ≡ onto teardown before) × (kill_openvpn_daemon w.node n ≡ (r, s.node))

  shuts_down :
      Leads (Did []) (λ b. Whole (ok b)) (λ t. Early t ⊎ ((e : Exn) × Whole (err e) t)) (shutdown w)
  unfolding shutdown
  shuts_down = Leads-bind _ _ (Leads-adapt _ (λ s h. h) (λ s h. inl h) stops-Leads) λ _.
      Leads-part _ _ _ (Leads-run (kill_openvpn_daemon w.node) n) (λ s h. h.node_is)
        (λ s h b t q. (h.events_are, q)) (λ s h t q. inr (q.0, (h.events_are, q.1)))

-- A shutdown that returns has stopped the guard, ended the three tasks, closed the clients and Redis
-- and drained the consumer, in the order of `teardown`, and then ends as killing the OpenVPN daemon
-- ends. One that raises has done all this and ends by the exception of that kill; or it was ended
-- early by a fault of a task, of a pending delivery or of a client, behind a first part of the order,
-- and has not touched the daemon.
pub shutdown-teardown :
    (w : World) (s : Lifespan)
    → After
        (λ b t. Whole w s.node s.events (ok b) t)
        (λ t. Early w s.node s.events t ⊎ ((e : Exn) × Whole w s.node s.events (err e) t))
        (shutdown w s)
shutdown-teardown w s =
    (shuts_down w s.node s.events).at s (record { events_are = refl; node_is = refl })
