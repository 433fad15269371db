-- ===== src/Consumer/Cancel.antt =====
-- A cancelled job is not reported: which calls may stand before a webhook of the consumer. The
-- rules here are for the parts that the modules below share.
pub mod Job
pub mod Moves
pub mod Batch
pub mod Loop
use coda_node.Prelude.{
  ℕ, zero, suc, ◌≡◌, refl, ◌⊎◌, inl, inr, String, Bool, true, false, Option, none, some, List, [],
  ◌∷◌, All, arith, ℤ,
}
use coda_node.Exec.{
  Exn, connection, job_cancelled, other, Result, ok, err, pure, raise, lift, ◌>>=◌, catching,
}
use coda_node.Exec.Keeps.{Keeps, Keeps-modify, Keeps-bind, Keeps-if, keeps_rules}
use coda_node.Webhook.{WebhookPayload}
use coda_node.Consumer.World.{
  Raw, Call, send, get, hset, Phase, checking, completing, rechecking, sending, cancelling, acking,
  done, failed, Item, Delivery, World, Config, Consumer, M, perform,
}
use coda_node.Consumer.Redis.{
  cancel_key, now, safe_hset, safe_xack, get_job_status, has_cancel_signal, mark_job_cancelled,
  unless_connected,
}
use coda_node.Consumer.Trace.{
  Looked, looked, Written, Late, Rechecked, Fresh, at_once, behind_status, AllCleared,
}

-- A sense in which a webhook is cleared: a look that found no flag does it, also behind the write of
-- one status.
pub record Clearance (w : World) : Type 1 where
  pub Cleared : String → List Call → Type 0
  pub by_look : (job_id : String) (cs : List Call) → Looked w job_id cs → Cleared job_id cs
  pub by_status :
      (job_id key : String) (fields : List (String × String)) (cs : List Call)
      → Looked w job_id cs
      → Cleared job_id (hset key fields ∷ cs)

abbrev pub fresh : (w : World) → Clearance w
fresh w = record {
  Cleared = Fresh w;
  by_look = λ j cs l. at_once l;
  by_status = λ j key fields cs l. behind_status key fields cs refl l;
}

abbrev pub rechecked : (w : World) → Clearance w
rechecked w = record {
  Cleared = Rechecked w;
  by_look = λ j cs l. inl (at_once l);
  by_status = λ j key fields cs l. inl (behind_status key fields cs refl l);
}

-- A delivery that is about to look again has written the status of its job, and one that is about to
-- send its webhook has seen behind that write that the job is not cancelled.
abbrev pub IsCleared : World → List Call → Item → Phase → Type 0
IsCleared w cs i rechecking = Written w i.job_id cs
IsCleared w cs i sending = Late w i.job_id cs
IsCleared w cs i _ = Unit

abbrev pub AllItems : World → List Call → List Item → Type 0
AllItems w cs [] = Unit
AllItems w cs (i ∷ is) = IsCleared w cs i i.phase × AllItems w cs is

abbrev pub Pending : World → List Call → Option Delivery → Type 0
Pending w cs none = Unit
Pending w cs (some d) = AllItems w cs d.items

pub IsCleared-cons :
    (w : World) (c : Call) (cs : List Call) (i : Item) (p : Phase)
    → IsCleared w cs i p
    → IsCleared w (c ∷ cs) i p
IsCleared-cons w c cs i checking h = h
IsCleared-cons w c cs i rechecking h = inr h
IsCleared-cons w c cs i sending h = inr h
IsCleared-cons w c cs i _ h = h

pub AllItems-cons :
    (w : World) (c : Call) (cs : List Call) (is : List Item)
    → AllItems w cs is
    → AllItems w (c ∷ cs) is
AllItems-cons w c cs [] h = tt
AllItems-cons w c cs (i ∷ is) h = (IsCleared-cons w c cs i i.phase h.0, AllItems-cons w c cs is h.1)

pub Pending-cons :
    (w : World) (c : Call) (cs : List Call) (o : Option Delivery)
    → Pending w cs o
    → Pending w (c ∷ cs) o
Pending-cons w c cs none h = tt
Pending-cons w c cs (some d) h = AllItems-cons w c cs d.items h

abbrev NoWebhook : Call → Type 0
NoWebhook (send url p) = ⊥
NoWebhook _ = Unit

module _ (w : World) (k : Clearance w) where
  open k use {Cleared, by_look, by_status}

  abbrev pub ClearedCalls : List Call → Type 0
  ClearedCalls = AllCleared w Cleared

  abbrev pub Safe : Consumer → Type 0
  Safe s = ClearedCalls s.calls × Pending w s.calls s.pending_batch_delivery

  push : (c : Call) (cs : List Call) → NoWebhook c → ClearedCalls cs → ClearedCalls (c ∷ cs)
  push (send url p) cs n h = absurd n
  push _ cs n h = h

  pub perform-Safe :
      {A : Type 0} (c : Call) (answer : List Call → Result A)
      → NoWebhook c
      → Keeps Safe (perform c answer)
  unfolding perform
  perform-Safe c answer n = record {
    at = λ s h. (push c s.calls n h.0, Pending-cons w c s.calls s.pending_batch_delivery h.1);
  }

  pub now-Safe : Keeps Safe (now w)
  unfolding now
  now-Safe = search keeps_rules

  pub unless_connected-Safe : (e : Exn) → Keeps Safe (unless_connected w e)
  unfolding unless_connected
  unless_connected-Safe (connection e) = search keeps_rules
  unless_connected-Safe _ = search keeps_rules

  pub safe_hset-Safe : (key : String) (m : List (String × String)) → Keeps Safe (safe_hset w key m)
  unfolding safe_hset
  safe_hset-Safe key m = search (keeps_rules, perform-Safe, unless_connected-Safe, tt)

  pub safe_xack-Safe : (c : Config) (id : String) → Keeps Safe (safe_xack w c id)
  unfolding safe_xack
  safe_xack-Safe c id = search (keeps_rules, perform-Safe, unless_connected-Safe, tt)

  pub get_job_status-Safe : (job_id : String) → Keeps Safe (get_job_status w job_id)
  unfolding get_job_status
  get_job_status-Safe job_id = search (keeps_rules, perform-Safe, tt)

  pub has_cancel_signal-Safe : (job_id : String) → Keeps Safe (has_cancel_signal w job_id)
  unfolding has_cancel_signal
  has_cancel_signal-Safe job_id = search (keeps_rules, perform-Safe, tt)

  pub ruleset safe_rules = (
    keeps_rules, perform-Safe, tt, now-Safe, safe_hset-Safe, safe_xack-Safe, get_job_status-Safe,
    has_cancel_signal-Safe,
  )

  pub mark_job_cancelled-Safe :
      (c : Config) (job_id id : String) → Keeps Safe (mark_job_cancelled w c job_id id)
  unfolding mark_job_cancelled
  mark_job_cancelled-Safe c job_id id = search safe_rules

  -- After a look that found no flag, the other branch starts from that look.
  pub Keeps-look :
      {A : Type 0} (job_id : String) (f : Bool → M A)
      → Keeps Safe (f true)
      → ((s : Consumer) → Looked w job_id s.calls → Safe s → Safe (f false s).1)
      → Keeps Safe (has_cancel_signal w job_id >>= f)
  unfolding has_cancel_signal perform ◌>>=◌
  Keeps-look job_id f yes_case no_case = record {
    at = λ s h. go s h (w.get (get (cancel_key job_id) ∷ s.calls)) refl;
  }
    where
      go :
          (s : Consumer)
          → Safe s
          → (r : Result (Option Raw)) → w.get (get (cancel_key job_id) ∷ s.calls) ≡ r
          → Safe ((has_cancel_signal w job_id >>= f) s).1
      go s h (err e) p = rw p (h.0, Pending-cons w _ s.calls s.pending_batch_delivery h.1)
      go s h (ok none) p = rw p (
          no_case _ (looked s.calls refl p)
            (h.0, Pending-cons w _ s.calls s.pending_batch_delivery h.1))
      go s h (ok (some v)) p =
          rw p (yes_case.at _ (h.0, Pending-cons w _ s.calls s.pending_batch_delivery h.1))

  -- A cleared webhook, and what follows it.
  pub Keeps-send :
      {A : Type 0} (url : String) (p : WebhookPayload) (f : Unit {0} → M A) (s : Consumer)
      → Cleared p.job_id s.calls
      → Safe s
      → ((u : Unit {0}) → Keeps Safe (f u))
      → Safe ((perform (send url p) w.send >>= f) s).1
  unfolding perform ◌>>=◌
  Keeps-send url p f s c h kf = go (w.send (send url p ∷ s.calls)) refl
    where
      go :
          (r : Result (Unit {0}))
          → w.send (send url p ∷ s.calls) ≡ r
          → Safe ((perform (send url p) w.send >>= f) s).1
      go (err e) q = rw q ((c, h.0), Pending-cons w _ s.calls s.pending_batch_delivery h.1)
      go (ok u) q =
          rw q ((kf u).at _ ((c, h.0), Pending-cons w _ s.calls s.pending_batch_delivery h.1))

  -- The write of a status makes one call.
  safe_hset_calls :
      (key : String) (m : List (String × String)) (s : Consumer)
      → (safe_hset w key m s).1.calls ≡ hset key m ∷ s.calls
  unfolding safe_hset perform ◌>>=◌ catching unless_connected
  safe_hset_calls key m s = ground arith

  pub Keeps-send_caught :
      (url : String) (p : WebhookPayload) (f : Exn → M (Unit {0})) (s : Consumer)
      → Cleared p.job_id s.calls
      → Safe s
      → ((e : Exn) → Keeps Safe (f e))
      → Safe (catching (perform (send url p) w.send) f s).1
  unfolding perform catching
  Keeps-send_caught url p f s c h kf = go (w.send (send url p ∷ s.calls)) refl
    where
      go :
          (r : Result (Unit {0}))
          → w.send (send url p ∷ s.calls) ≡ r
          → Safe (catching (perform (send url p) w.send) f s).1
      go (err e) q =
          rw q ((kf e).at _ ((c, h.0), Pending-cons w _ s.calls s.pending_batch_delivery h.1))
      go (ok u) q = rw q ((c, h.0), Pending-cons w _ s.calls s.pending_batch_delivery h.1)

  pub Keeps-now :
      {A : Type 0} (f : String → M A) (s : Consumer)
      → Safe (f (w.now s.calls) s).1
      → Safe ((now w >>= f) s).1
  unfolding now ◌>>=◌
  Keeps-now f s h = h

  -- Behind the look, a status write, and what follows it.
  pub Keeps-status :
      {A : Type 0} {job_id : String} (key : String) (m : List (String × String)) (f : Bool → M A)
      (s : Consumer)
      → Looked w job_id s.calls
      → Safe s
      → ((b : Bool) (t : Consumer) → Cleared job_id t.calls → Safe t → Safe (f b t).1)
      → Safe ((safe_hset w key m >>= f) s).1
  unfolding ◌>>=◌
  Keeps-status {job_id} key m f s l h kf =
      go (safe_hset w key m s).0 (safe_hset w key m s).1 (safe_hset_calls key m s)
        ((safe_hset-Safe key m).at s h)
    where
      go :
          (r : Result Bool) (t : Consumer)
          → t.calls ≡ hset key m ∷ s.calls
          → Safe t
          → Safe (((λ _. (r, t)) >>= f) s).1
      go (err e) t q ht = ht
      go (ok b) t q ht = kf b t (rw q (by_status job_id key m s.calls l)) ht
