-- ===== src/Vpn/Node/Retry.antt =====
-- How often a handshake is tried, and how it ends (`_post_connect` of vpn/service.py).
use native.Mathlib.Nat.{pow-suc}
use native.Mathlib.Numerals.{add-one}
use coda_node.Prelude.{
  ℕ, zero, suc, ◌+◌, ◌-◌, ◌*◌, ◌^◌, ◌≤◌, ◌<◌, ◌≡◌, refl, ap, sym, subst, ◌⊎◌, inl, inr, String,
  List, [], ◌∷◌, arith,
}
use coda_node.Exec.Runs.{>>=-ok}
use coda_node.Exec.{Exn, Exec, Result, ok, err, ◌>>=◌}
use coda_node.Json.{Members}
use coda_node.Vpn.Node.{
  Call, post, sleep, Reply, success, status_error, transport_error, failure, World, Node, perform,
}
use coda_node.Vpn.Node.Connect.{
  Attempt, received, give_up, retry, classify, headers, connect_url, attempt, proceed, attempts,
  post_connect,
}

-- How many POSTs were made, and how many seconds were slept.
abbrev pub posts : List Call → ℕ
posts [] = 0
posts (post u a hs m ∷ cs) = suc (posts cs)
posts (_ ∷ cs) = posts cs

abbrev pub slept : List Call → ℕ
slept [] = 0
slept (sleep n ∷ cs) = n + slept cs
slept (_ ∷ cs) = slept cs

Attempt-cases :
    (a : Attempt)
    → ((b : Members) × (a ≡ received b))
      ⊎ ((e : Exn) × (a ≡ give_up e))
      ⊎ ((e : String) × (a ≡ retry e))
Attempt-cases (received b) = inl (b, refl)
Attempt-cases (give_up e) = inr (inl (e, refl))
Attempt-cases (retry e) = inr (inr (e, refl))

double : (n : ℕ) → 2 ^ (n + 1) ≡ 2 ^ n * 2
double n = rw add-one (pow-suc 2 n)

shift : (n left : ℕ) → 2 ^ (n + (suc (suc left) - 1)) ≡ 2 ^ (n + 1 + (suc left - 1))
shift n left = ap (λ k. 2 ^ k) (omega arith)

module _ (w : World) (auth : String) (payload : Members) where
  -- How the loop ends, with `left` attempts from attempt `n + 1` on: with the bundle that the last
  -- POST brought; with an exception that the last POST gave and that is not tried again; or with all
  -- attempts made, and a doubling pause between any two of them.
  abbrev pub Ended : ℕ → ℕ → List Call → Result Members × Node → Type 0
  Ended left n before (ok bundle, t) =
      (posts t.calls ≤ posts before + left) × (w.post t.calls ≡ success (ok bundle))
  Ended left n before (err e, t) =
      (posts t.calls ≤ posts before + left)
      × ((classify w.status_text (w.post t.calls) ≡ give_up e)
          ⊎ ((posts t.calls ≡ posts before + left)
              × (slept t.calls + 2 ^ n ≡ slept before + 2 ^ (n + (left - 1)))))

  abbrev posted : Node → Node
  posted s = record s {
    calls = post (connect_url s.settings) auth (headers w s.settings auth) payload ∷ s.calls;
  }

  attempt_runs :
      (s : Node)
      → attempt w auth payload s ≡ (ok (classify w.status_text (w.post (posted s).calls)), posted s)
  unfolding attempt perform ◌>>=◌
  attempt_runs s = refl

  pub classify-received :
      (r : Reply) (b : Members) → classify w.status_text r ≡ received b → r ≡ success (ok b)
  classify-received (success (ok c)) b h = ground arith
  classify-received (success (err e)) b h = absurd (cc)
  classify-received (status_error code body) b h = absurd (ground arith)
  classify-received (transport_error e) b h = absurd (cc)
  classify-received (failure e) b h = absurd (cc)

  abbrev again : ℕ → ℕ → ℕ → String → Exec Node Members
  again total left n = attempts w auth payload total left n

  abbrev rested : ℕ → Node → Node
  rested n s = record s { calls = sleep (2 ^ n) ∷ s.calls }

  attempts-step :
      (total left n : ℕ) (e : String) (s : Node)
      → again total (suc left) n e s
        ≡ proceed w left n
            (again total left (n + 1))
            (classify w.status_text (w.post (posted s).calls))
            (posted s)
  unfolding attempts
  attempts-step total left n e s = >>=-ok _ _ (attempt_runs s)

  -- What the loop did after one more attempt and its pause.
  Ended-retry :
      (left n : ℕ) (s : Node) (q : Result Members × Node)
      → Ended (suc left) (n + 1) (rested n (posted s)).calls q
      → Ended (suc (suc left)) n s.calls q
  Ended-retry left n s (ok b, t) (p, r) = (omega arith, r)
  Ended-retry left n s (err x, t) (p, inl g) = (omega arith, inl g)
  Ended-retry left n s (err x, t) (p, inr (k, l)) =
      (omega arith, inr (omega arith, omega (arith, double n, shift n left)))

  proceed-Ended :
      (total left n : ℕ) (s : Node) (a : Attempt)
      → classify w.status_text (w.post (posted s).calls) ≡ a
      → ((l : ℕ) (e : String) (t : Node)
          → left ≡ suc l
          → Ended left (n + 1) t.calls (again total left (n + 1) e t))
      → Ended (suc left) n s.calls (proceed w left n (again total left (n + 1)) a (posted s))
  unfolding ◌>>=◌ perform attempts
  proceed-Ended total left n s (received b) p rest = (omega arith, classify-received _ b p)
  proceed-Ended total left n s (give_up x) p rest = (omega arith, inl p)
  proceed-Ended total zero n s (retry x) p rest =
      (omega arith, inr (omega arith, ap (λ k. slept s.calls + 2 ^ k) (omega arith)))
  proceed-Ended total (suc left) n s (retry x) p rest =
      Ended-retry left n s (again total (suc left) (n + 1) x (rested n (posted s)))
        (rest left x (rested n (posted s)) refl)

  attempts-Ended :
      (total left n : ℕ) (e : String) (s : Node)
      → Ended (suc left) n s.calls (again total (suc left) n e s)
  attempts-Ended total zero n e s =
      subst (Ended 1 n s.calls) (sym (attempts-step total zero n e s))
        (proceed-Ended total zero n s _ refl (λ l e t k. absurd (omega arith)))
  attempts-Ended total (suc left) n e s =
      subst (Ended (suc (suc left)) n s.calls) (sym (attempts-step total (suc left) n e s)) (
        proceed-Ended total (suc left) n s _ refl
          (λ l e t k. attempts-Ended total left (n + 1) e t))

  -- A handshake with at least one attempt allowed makes at most `max_retries` POSTs. It returns the
  -- bundle that its last POST brought; or raises what its last POST gave, where that is not tried
  -- again; or has made all attempts, and slept 2 ^ (max_retries - 1) - 1 seconds between them.
  pub post_connect-Ended :
      (max_retries : ℕ) (s : Node)
      → 0 < max_retries
      → Ended max_retries 0 s.calls (post_connect w auth payload max_retries s)
  unfolding post_connect
  post_connect-Ended (suc n) s h = attempts-Ended (suc n) n 0 "None" s
  post_connect-Ended zero s h = absurd (omega arith)
