-- ===== src/Vpn/Node/Safety/Complete.antt =====
-- What a bundle that was applied leaves in the settings (`apply_node_bundle` of vpn/service.py).
use coda_node.Prelude.{
  ◌≡◌, ◌≢◌, ◌⊎◌, inl, inr, refl, sym, ◌∙◌, ap, subst, String, Bool, true, false, Option, none, some,
  str_eq, eq_iff, if◌then◌else◌,
}
use coda_node.Exec.{Exn, Result, ok, err, lift, gets, ◌>>=◌, ◌>>◌}
use coda_node.Exec.Leads.{
  After, Leads, Leads-bind, Leads-if, Leads-raise, Leads-pure, Leads-gets, Leads-modify,
  Leads-Keeps, Leads-adapt, Leads-fact, Leads-lift,
}
use coda_node.Json.{Json, text, Members, get}
use coda_node.Vpn.Node.{Settings, World, Node, M}
use coda_node.Vpn.Node.Bundle.{
  set, text_of, as_str, required_text, set_or_keep, set_private_key, set_key_id, webapp_key,
  is_present, apply_identity, apply_addresses, apply_node_bundle,
}
use coda_node.Vpn.Node.Safety.{AllPermitted, Sound, K}
use coda_node.Vpn.Node.Safety.Setters.{
  text_of-nonempty, differs, IsStable, assign_text-Sound, set_some-Sound, apply_vpn_part-Sound,
}

-- From settings that satisfy `P` to settings that satisfy `Q`, or a raise.
pub record To (P Q : Settings → Type 0) (m : M (Unit {0})) : Type 0 where
  pub leads : Leads (Sound P) (λ _. Sound Q) (λ s. AllPermitted s.calls) m

module _ {P : Settings → Type 0} where
  pub To-K : (m : M (Unit {0})) → K P m → To P P m
  To-K m k = record { leads = Leads-adapt m (λ s h. h) (λ s h. h.1) (Leads-Keeps m k) }

  To-set :
      (Q : Settings → Type 0) (f : Settings → Settings)
      → ((s : Settings) → P s → Q (f s))
      → To P Q (set f)
  To-set Q f h = record { leads = Leads-modify _ (λ s p. (h s.settings p.0, p.1)) }

  lift-To :
      {A : Type 0} (Q : Settings → Type 0) (r : Result A) (f : A → M (Unit {0}))
      → ((a : A) → r ≡ ok a → To P Q (f a))
      → To P Q (lift r >>= f)
  lift-To Q r f h = record {
    leads =
        Leads-bind _ f
          (Leads-lift {Q = λ a s. (r ≡ ok a) × Sound P s} r (λ a e s p. (e, p)) (λ s p. p.1))
          (λ a. Leads-fact (f a) (λ e. (h a e).leads));
  }

  gets-To :
      {A : Type 0} (Q : Settings → Type 0) (r : Node → A) (f : A → M (Unit {0}))
      → ((a : A) → To P Q (f a))
      → To P Q (gets r >>= f)
  gets-To Q r f h = record {
    leads = Leads-bind _ f (Leads-gets {Q = λ a s. Sound P s} r (λ s p. p)) (λ a. (h a).leads);
  }

pub then-To :
    {P R Q : Settings → Type 0} (m n : M (Unit {0})) → To P R m → To R Q n → To P Q (m >> n)
then-To m n h k = record { leads = Leads-bind m (λ _. n) h.leads (λ _. k.leads) }

filled : (key : String) (o : Option String) {v : String} → required_text key o ≡ ok v → o ≡ some v
filled key (some u) h = ap some (inj h)
  where
    inj : {u v : String} → ok u ≡ ok v → u ≡ v
    inj p = cc
filled key none h = absurd (clash h)
  where
    clash : {e : Exn} {v : String} → err e ≡ ok v → ⊥
    clash p = cc

-- The bundle has this text at the key, and it is not empty.
abbrev pub Says : Members → String → String → Type 0
Says bundle key v = (get key bundle ≡ some (text v)) × (v ≢ "")

-- The bundle has no text at the key, or an empty one.
abbrev pub Lacks : Members → String → Type 0
Lacks bundle key = (u : String) → get key bundle ≡ some (text u) → u ≡ ""

text_of-some : (o : Option Json) {v : String} → text_of o ≡ some v → o ≡ some (text v)
text_of-some (some (text u)) {v} h = go (str_eq u "") h
  where
    inj : some u ≡ some v → u ≡ v
    inj p = cc

    go : (b : Bool) → (if b then none else some u) ≡ some v → some (text u) ≡ some (text v)
    go true p = absurd cc
    go false p = ap (λ t. some (text t)) (inj p)
text_of-some none h = absurd cc
text_of-some (some _) h = absurd cc

text_of-none : (o : Option Json) → text_of o ≡ none → (u : String) → o ≡ some (text u) → u ≡ ""
text_of-none o h u e = go (str_eq u "") refl (sym (ap text_of e) ∙ h)
  where
    go : (b : Bool) → str_eq u "" ≡ b → (if b then none else some u) ≡ none → u ≡ ""
    go true p q = (eq_iff u "").0 p
    go false p q = absurd cc

as_str-Says :
    (bundle : Members) (key : String) {v : String} → as_str bundle key ≡ ok v → Says bundle key v
as_str-Says bundle key h =
    let e = filled key _ h in (text_of-some (get key bundle) e, text_of-nonempty (get key bundle) e)

-- The JWT fields are filled from the bundle, or were so before.
set_or_keep-To :
    {P : Settings → Type 0} (Q : Settings → Type 0) (key : String) (o : Option String)
    (read : Settings → String) (f : String → Settings → Settings)
    → ((v : String) → o ≡ some v → (s : Settings) → P s → Q (f v s))
    → (o ≡ none → (s : Settings) → P s → read s ≢ "" → Q s)
    → To P Q (set_or_keep key o read f)
set_or_keep-To Q key (some v) read f h k = To-set Q (f v) (h v refl)
set_or_keep-To {P} Q key none read f h k = record {
  leads =
      Leads-bind _ _
        (Leads-gets {Q = λ old s. (old ≡ read s.settings) × Sound P s} _ (λ s p. (refl, p)))
        λ old.
          Leads-if (str_eq old "") _ _ (λ e. Leads-raise _ (λ s p. p.1.1))
            (λ e.
              Leads-pure tt (λ s p.
                (k refl s.settings p.1.0 (subst (λ t. t ≢ "") p.0 (differs old e)), p.1.1)));
}

-- A JWT field: from the bundle, or as it was and not empty where the bundle lacks it.
abbrev pub Filled : Members → String → String → String → Type 0
Filled bundle key old v = Says bundle key v ⊎ (Lacks bundle key × (v ≡ old) × (v ≢ ""))

-- The cloud's address, under one of two keys.
abbrev pub Addressed : Members → String → Type 0
Addressed bundle v =
    Says bundle "webapp_url" v ⊎ ((get "webapp_url" bundle ≡ none) × Says bundle "cloud_base_url" v)

webapp-Addressed :
    (bundle : Members) {v : String} → as_str bundle (webapp_key bundle) ≡ ok v → Addressed bundle v
webapp-Addressed bundle {v} h = go (get "webapp_url" bundle) refl (as_str-Says bundle _ h)
  where
    go :
        (o : Option Json)
        → get "webapp_url" bundle ≡ o
        → Says bundle (if is_present o then "webapp_url" else "cloud_base_url") v
        → Addressed bundle v
    go none e k = inr (e, k)
    go (some j) e k = inl k

-- From a bundle, where the JWT fields were `private` and `key_id`.
module _ (bundle : Members) (private key_id : String) where
  abbrev pub Given : Settings → Type 0
  Given s = (s.jwt_private_key ≡ private) × (s.jwt_key_id ≡ key_id)

  abbrev Identity : Settings → Type 0
  Identity s = Says bundle "qpu_id" s.qpu_id × Says bundle "native_gate_set" s.native_gate_set

  abbrev Named : Settings → Type 0
  Named s = Given s × Says bundle "qpu_id" s.qpu_id

  abbrev Gated : Settings → Type 0
  Gated s = Given s × Identity s

  abbrev Signing : Settings → Type 0
  Signing s =
      (s.jwt_key_id ≡ key_id)
      × Identity s
      × Filled bundle "jwt_private_key" private s.jwt_private_key

  abbrev Identified : Settings → Type 0
  Identified s =
      Identity s
      × Filled bundle "jwt_private_key" private s.jwt_private_key
      × Filled bundle "jwt_key_id" key_id s.jwt_key_id

  abbrev Queued : Settings → Type 0
  Queued s = Identified s × Says bundle "redis_url" s.redis_url

  -- What a node needs to serve its QPU.
  abbrev pub Complete : Settings → Type 0
  Complete s =
      Says bundle "qpu_id" s.qpu_id
      × Says bundle "native_gate_set" s.native_gate_set
      × Filled bundle "jwt_private_key" private s.jwt_private_key
      × Filled bundle "jwt_key_id" key_id s.jwt_key_id
      × Says bundle "redis_url" s.redis_url
      × Addressed bundle s.webapp_url

  Complete-IsStable : IsStable Complete
  Complete-IsStable = record {
    required = λ s b h. h;
    hint = λ s o h. h;
    interval = λ s n h. h;
    targets = λ s ts h. h;
  }

  set_private_key-Signing :
      To Gated Signing (set_private_key (text_of (get "jwt_private_key" bundle)))
  unfolding set_private_key
  set_private_key-Signing =
      set_or_keep-To Signing "jwt_private_key" _ (λ s. s.jwt_private_key)
        (λ v s. record s { jwt_private_key = v })
        (λ v t s h. (
          h.0.1,
          h.1,
          inl (
            text_of-some (get "jwt_private_key" bundle) t,
            text_of-nonempty (get "jwt_private_key" bundle) t,
          ),
        ))
        (λ t s h k. (h.0.1, h.1, inr (text_of-none (get "jwt_private_key" bundle) t, h.0.0, k)))

  set_key_id-Identified : To Signing Identified (set_key_id (text_of (get "jwt_key_id" bundle)))
  unfolding set_key_id
  set_key_id-Identified =
      set_or_keep-To Identified "jwt_key_id" _ (λ s. s.jwt_key_id)
        (λ v s. record s { jwt_key_id = v })
        (λ v t s h. (
          h.1,
          h.2,
          inl (
            text_of-some (get "jwt_key_id" bundle) t,
            text_of-nonempty (get "jwt_key_id" bundle) t,
          ),
        ))
        (λ t s h k. (h.1, h.2, inr (text_of-none (get "jwt_key_id" bundle) t, h.0, k)))

  apply_identity-Identified : To Given Identified (apply_identity bundle)
  unfolding apply_identity
  apply_identity-Identified = lift-To Identified _ _ λ qpu_id e.
      then-To _ _ (To-set Named _ (λ s h. (h, as_str-Says bundle "qpu_id" e))) (
        then-To _ _ (To-K _ (assign_text-Sound Named _ _ (λ v s h. h))) (
          lift-To Identified _ _ λ gates g.
            then-To _ _
              (To-set Gated _ (λ s h. (h.0, (h.1, as_str-Says bundle "native_gate_set" g))))
              (gets-To Identified _ _ λ old. lift-To Identified _ _ λ n q.
                then-To _ _ (To-set Gated _ (λ s h. h))
                  (then-To _ _ set_private_key-Signing set_key_id-Identified))))

  apply_addresses-Complete : To Identified Complete (apply_addresses bundle)
  unfolding apply_addresses
  apply_addresses-Complete = lift-To Complete _ _ λ url e.
      then-To _ _ (To-set Queued _ (λ s h. (h, as_str-Says bundle "redis_url" e))) (
        lift-To Complete _ _ λ webapp e.
          then-To _ _
            (To-set Complete _
              (λ s h. (h.0.0.0, h.0.0.1, h.0.1, h.0.2, h.1, webapp-Addressed bundle e)))
            (then-To _ _ (To-K _ (set_some-Sound Complete _ _ (λ v s h. h))) (
              then-To _ _ (To-K _ (set_some-Sound Complete _ _ (λ v s h. h)))
                (To-K _ (set_some-Sound Complete _ _ (λ v s h. h))))))

  pub applied-To : (w : World) → To Given Complete (apply_node_bundle w bundle)
  unfolding apply_node_bundle
  applied-To w = then-To _ _ apply_identity-Identified (
      then-To _ _ apply_addresses-Complete
        (To-K _ (apply_vpn_part-Sound Complete Complete-IsStable w (get "vpn" bundle))))

-- A bundle that is applied without a raise leaves settings whose QPU, gate set and Redis are the texts
-- that the bundle has under these names, none of them empty. The cloud's address is the bundle's
-- `webapp_url`, or its `cloud_base_url` where it has no `webapp_url`, and is not empty. Each of the two
-- JWT credentials is the bundle's, if that is a text that is not empty, or stays as it was and is not
-- empty.
pub apply_node_bundle-Complete :
    (w : World) (bundle : Members) (s : Node)
    → AllPermitted s.calls
    → After
        (λ _ t. Complete bundle s.settings.jwt_private_key s.settings.jwt_key_id t.settings)
        (λ _. Unit)
        (apply_node_bundle w bundle s)
apply_node_bundle-Complete w bundle s p =
    go (apply_node_bundle w bundle s).0 (apply_node_bundle w bundle s).1 (
      (applied-To bundle s.settings.jwt_private_key s.settings.jwt_key_id w).leads.at s
        ((refl, refl), p))
  where
    go :
        (r : Result (Unit {0})) (t : Node)
        → After
            (λ (a : Unit {0}).
              Sound (Complete bundle s.settings.jwt_private_key s.settings.jwt_key_id))
            (λ t. AllPermitted t.calls)
            (r, t)
        → After
            (λ (a : Unit {0}) t.
              Complete bundle s.settings.jwt_private_key s.settings.jwt_key_id t.settings)
            (λ (t : Node). Unit)
            (r, t)
    go (ok a) t h = h.0
    go (err e) t h = tt
