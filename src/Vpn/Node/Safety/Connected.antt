-- ===== src/Vpn/Node/Safety/Connected.antt =====
-- What a handshake that succeeds leaves in the settings (`connect_settings` of vpn/service.py).
use coda_node.Prelude.{
  ℕ, zero, suc, ◌+◌, ◌≡◌, refl, ◌∙◌, String, Bool, true, false, List, ◌∷◌, str_eq,
}
use coda_node.Exec.{Exn, Result, ok, err, ◌>>=◌, ◌>>◌}
use coda_node.Exec.Keeps.{Keeps, Gives, Gives-pure, Gives-raise, Gives-if, Gives-bind, Gives-chain}
use coda_node.Exec.Leads.{
  After, Leads, Leads-into, Leads-fact, Leads-bind, Leads-if, Leads-raise, Leads-gets, Leads-Keeps,
  Leads-adapt, Leads-catching,
}
use coda_node.Json.{Members}
use coda_node.Vpn.Node.{Settings, Call, post, success, World, Node, M, perform}
use coda_node.Vpn.Node.Openvpn.{kill_openvpn_daemon}
use coda_node.Vpn.Node.Bundle.{apply_node_bundle}
use coda_node.Vpn.Node.Connect.{
  Attempt, received, give_up, retry, connect_url, headers, attempt, proceed, attempts, post_connect,
  fetch_node_bundle, fetch_reconnect_bundle, fetch, persist_runtime_config, clean_up,
  connect_settings,
}
use coda_node.Vpn.Node.Retry.{classify-received}
use coda_node.Vpn.Node.Safety.{AllPermitted, Sound, K, kill_openvpn_daemon-Sound}
use coda_node.Vpn.Node.Safety.Complete.{To, To-K, then-To, Complete, applied-To}
use coda_node.Vpn.Node.Safety.Fetching.{
  resolve_machine_fingerprint-Sound, fetch-Sound, persist_runtime_config-Sound,
}

abbrev Any : Settings → Type 0
Any s = Unit

abbrev pub Keyed : String → String → Settings → Type 0
Keyed private key_id s = (s.jwt_private_key ≡ private) × (s.jwt_key_id ≡ key_id)

abbrev pub Written : Node → Type 0
Written s = AllPermitted s.calls

-- An action that keeps what holds of the settings leads from it to it.
pub kept :
    {A : Type 0} (P : Settings → Type 0) (m : M A)
    → K P m
    → Leads (Sound P) (λ _. Sound P) Written m
kept P m k = Leads-adapt m (λ s h. h) (λ s h. h.1) (Leads-Keeps m k)

-- What the action gives is known too.
pub kept_Gives :
    {A : Type 0} {Q : A → Type 0} (P : Settings → Type 0) (m : M A)
    → K P m
    → Gives Q m
    → Leads (Sound P) (λ a s. Q a × Sound P s) Written m
kept_Gives {A} {Q} P m k g = record {
  at = λ s h. go s (m s).0 (m s).1 (λ a e. g.at s a e) (k.at s h);
}
  where
    go :
        (s : Node) (r : Result A) (t : Node)
        → ((a : A) → r ≡ ok a → Q a)
        → Sound P t
        → After (λ a s. Q a × Sound P s) Written (r, t)
    go s (ok a) t q h = (q a refl, h)
    go s (err e) t q h = h.1

-- The cloud answered a POST with this bundle.
abbrev pub Brought : World → Members → Type 0
Brought w bundle =
    (url : String) × (auth : String) × (hs : List (String × String)) × (payload : Members)
    × (before : List Call) × (w.post (post url auth hs payload ∷ before) ≡ success (ok bundle))

module _ (w : World) where
  -- An attempt that received a bundle.
  abbrev Answered : Attempt → Type 0
  Answered a = (b : Members) → a ≡ received b → Brought w b

  attempt-Answered : (auth : String) (payload : Members) → Gives Answered (attempt w auth payload)
  unfolding attempt perform ◌>>=◌
  attempt-Answered auth payload = record {
    at = λ s a e b p. (
      connect_url s.settings,
      auth,
      headers w s.settings auth,
      payload,
      s.calls,
      classify-received w auth payload _ b (inj e ∙ p),
    );
  }
    where
      inj : {a b : Attempt} → ok a ≡ ok b → a ≡ b
      inj e = cc

  proceed-Brought :
      (left n : ℕ) (again : String → M Members) (a : Attempt)
      → Answered a
      → ((e : String) → Gives (Brought w) (again e))
      → Gives (Brought w) (proceed w left n again a)
  proceed-Brought left n again (received b) h k = Gives-pure b (h b refl)
  proceed-Brought left n again (give_up e) h k = Gives-raise e
  proceed-Brought left n again (retry e) h k = Gives-bind _ _ (λ _. k e)

  attempts-Brought :
      (auth : String) (payload : Members) (total left n : ℕ) (e : String)
      → Gives (Brought w) (attempts w auth payload total left n e)
  unfolding attempts
  attempts-Brought auth payload total zero n e = Gives-raise _
  attempts-Brought auth payload total (suc left) n e =
      Gives-chain _ _ (attempt-Answered auth payload)
        (λ a h. proceed-Brought left n _ a h (attempts-Brought auth payload total left (n + 1)))

  post_connect-Brought :
      (auth : String) (payload : Members) (n : ℕ)
      → Gives (Brought w) (post_connect w auth payload n)
  unfolding post_connect
  post_connect-Brought auth payload n = attempts-Brought auth payload n n 0 _

  pub fetch-Brought : (b : Bool) → Gives (Brought w) (fetch w b)
  unfolding fetch_node_bundle fetch_reconnect_bundle
  fetch-Brought true = Gives-bind _ _ λ _. Gives-bind _ _ λ fingerprint.
      Gives-bind _ _
        λ signed. Gives-bind _ _ λ token. Gives-bind _ _ λ retries. post_connect-Brought _ _ _
  fetch-Brought false = Gives-bind _ _ λ s.
      Gives-if (str_eq s.node_token "") _ _ (Gives-raise _)
        (Gives-bind _ _ λ fingerprint. post_connect-Brought _ _ _)

module _ (w : World) where
  killed-Keeps : Keeps (Sound Any) (kill_openvpn_daemon w)
  killed-Keeps = kill_openvpn_daemon-Sound Any w

  -- The handler raises the exception again, whatever it cleans up.
  pub clean_up-Leads :
      {Q : Unit {0} → Node → Type 0} (e : Exn) → Leads Written Q Written (clean_up w e)
  unfolding clean_up
  clean_up-Leads e = Leads-bind _ _ (Leads-gets {Q = λ _. Written} _ (λ s h. h)) λ token.
      Leads-if (str_eq token "") _ _ (λ _. Leads-raise e (λ s h. h))
        λ _.
          Leads-bind _ _
            (Leads-adapt {Q = λ _. Sound Any} _ (λ s h. (tt, h)) (λ s h. h.1)
              (Leads-Keeps _ killed-Keeps))
            λ _. Leads-raise e (λ s h. h.1)

module _ (w : World) (private key_id : String) where
  -- The settings of a bundle that the cloud brought.
  abbrev pub Provisioned : Settings → Type 0
  Provisioned s = (bundle : Members) × Brought w bundle × Complete bundle private key_id s

  applied :
      (bundle : Members)
      → Brought w bundle
      → To
          (Keyed private key_id)
          Provisioned
          (apply_node_bundle w bundle >> persist_runtime_config w)
  applied bundle b =
      then-To _ _ (To-wide (applied-To bundle private key_id w))
        (To-K _ (persist_runtime_config-Sound Provisioned (λ s v h. h) w))
    where
      To-wide :
          {m : M (Unit {0})}
          → To (Keyed private key_id) (Complete bundle private key_id) m
          → To (Keyed private key_id) Provisioned m
      To-wide {m} k = record { leads = Leads-into m (λ a s h. ((bundle, b, h.0), h.1)) k.leads }

  pub connect_settings-Leads :
      Leads (Sound (Keyed private key_id)) (λ _. Sound Provisioned) Written (connect_settings w)
  unfolding connect_settings
  connect_settings-Leads =
      Leads-bind _ _
        (kept (Keyed private key_id) _
          (resolve_machine_fingerprint-Sound (Keyed private key_id) (λ s v h. h) w))
        λ _.
          Leads-bind _ _ (Leads-gets {Q = λ _. Sound (Keyed private key_id)} _ (λ s h. h)) λ token.
            Leads-bind _ _
              (kept_Gives (Keyed private key_id) _
                (fetch-Sound (Keyed private key_id) (λ s v h. h) w (str_eq token ""))
                (fetch-Brought w (str_eq token "")))
              λ bundle.
                Leads-fact _
                  λ b. Leads-catching _ (clean_up w) (applied bundle b).leads (clean_up-Leads w)
