-- ===== src/Config/Dict.antt =====
-- Dicts of settings: what writing a key does, and that their keys stay distinct (server/config.py).
use coda_node.Prelude.{
  ◌≡◌, inl, inr, refl, ap, sym, ◌∙◌, String, Bool, true, false, not, ◌&&◌, Option, none, some, List,
  [], ◌∷◌, if◌then◌else◌, str_eq, Bool-cases, eq_iff,
}
use coda_node.Json.{Json, text, Members, last, member, get}
use coda_node.Config.{persisted_keys, put, keep, collect, with_key, is_vacant, absorb, absorb_all}

-- What a key has after the merge.
abbrev pub chosen : Option Json → Option Json → Option Json
chosen c none = c
chosen c (some v) = if is_vacant c then some v else c

abbrev pub Unique : Members → Type 0
Unique last = Unit
Unique (member k v m) = (get k m ≡ none) × Unique m

-- `str_eq` decides equality, so it can be moved along.
moved : (a b c : String) → str_eq a b ≡ true → str_eq a c ≡ str_eq b c
moved a b c h = ap (λ t. str_eq t c) ((eq_iff a b).0 h)

apart : (a b c : String) → str_eq a b ≡ false → str_eq a c ≡ true → str_eq b c ≡ true → ⊥
apart a b c h p q = clash (sym h ∙ (eq_iff a b).1 ((eq_iff a c).0 p ∙ sym ((eq_iff b c).0 q)))
  where
    clash : false ≡ true → ⊥
    clash e = cc

ordered :
    {A : Type 0} (a b c : Bool) (x y z : A)
    → (a ≡ true → b ≡ c)
    → (a ≡ false → b ≡ true → c ≡ true → ⊥)
    → (if a then (if b then x else z) else (if b then y else (if c then x else z)))
      ≡ (if c then x else (if b then y else z))
ordered true true true x y z h k = refl
ordered true false false x y z h k = refl
ordered true true false x y z h k = absurd (clash (h refl))
  where
    clash : true ≡ false → ⊥
    clash e = cc
ordered true false true x y z h k = absurd (clash (h refl))
  where
    clash : false ≡ true → ⊥
    clash e = cc
ordered false true true x y z h k = absurd (k refl refl refl)
ordered false true false x y z h k = refl
ordered false false true x y z h k = refl
ordered false false false x y z h k = refl

get-if :
    (k : String) (b : Bool) (m n : Members)
    → get k (if b then m else n) ≡ (if b then get k m else get k n)
get-if k true m n = refl
get-if k false m n = refl

pub get-put :
    (key : String) (v : Json) (m : Members) (k : String)
    → get k (put key v m) ≡ (if str_eq key k then some v else get k m)
get-put key v last k = refl
get-put key v (member k0 u m) k =
    get-if k (str_eq k0 key) _ _
    ∙ ap
        (λ r.
          if str_eq k0 key
          then (if str_eq k0 k then some v else get k m)
          else (if str_eq k0 k then some u else r))
        (get-put key v m k)
    ∙ ordered (str_eq k0 key) (str_eq k0 k) (str_eq key k) (some v) (some u) (get k m)
        (moved k0 key k) (apart k0 key k)

-- One key of the loop, for the keys that are looked up afterwards.
absorbed :
    (b : Bool) (v : Json) (o p r : Option Json)
    → (b ≡ true → o ≡ p)
    → (b ≡ true → r ≡ none)
    → chosen (if is_vacant o then (if b then some v else p) else p) r
      ≡ chosen p (if b then some v else r)
absorbed true v o p r h k = rw (h refl) (rw (k refl) refl)
absorbed false v o p r h k = ap (λ t. chosen t r) (same (is_vacant o) p)
  where
    same : (c : Bool) (p : Option Json) → (if c then p else p) ≡ p
    same true p = refl
    same false p = refl

get-absorb :
    (key : String) (v : Json) (m : Members) (k : String)
    → get k (absorb key v m)
      ≡ (if is_vacant (get key m) then (if str_eq key k then some v else get k m) else get k m)
get-absorb key v m k =
    get-if k (is_vacant (get key m)) _ _
    ∙ ap (λ r. if is_vacant (get key m) then r else get k m) (get-put key v m k)

pub get-absorb_all :
    (m persisted : Members) (k : String)
    → Unique persisted
    → get k (absorb_all m persisted) ≡ chosen (get k m) (get k persisted)
get-absorb_all m last k u = refl
get-absorb_all m (member key v persisted) k (fresh, u) =
    get-absorb_all (absorb key v m) persisted k u
    ∙ ap (λ o. chosen o (get k persisted)) (get-absorb key v m k)
    ∙ absorbed (str_eq key k) v (get key m) (get k m) (get k persisted)
        (λ e. ap (λ t. get t m) ((eq_iff key k).0 e))
        (λ e. ap (λ t. get t persisted) (sym ((eq_iff key k).0 e)) ∙ fresh)

-- The keys are distinct.
is_absent : String → List String → Bool
is_absent key [] = true
is_absent key (k ∷ ks) = not (str_eq k key) && is_absent key ks

are_distinct : List String → Bool
are_distinct [] = true
are_distinct (k ∷ ks) = is_absent k ks && are_distinct ks

get-keep :
    (k key : String) (o : Option Json) (m : Members)
    → str_eq k key ≡ false
    → get key (keep k o m) ≡ get key m
get-keep k key none m h = refl
get-keep k key (some v) m h = rw h refl

and_parts : (a b : Bool) → a && b ≡ true → (a ≡ true) × (b ≡ true)
and_parts true b h = (refl, h)
and_parts false b h = absurd (cc)

differs : (b : Bool) → not b ≡ true → b ≡ false
differs true h = absurd (cc)
differs false h = refl

get-collect :
    (key : String) (ks : List String) (values : Members)
    → is_absent key ks ≡ true
    → get key (collect ks values) ≡ none
unfolding is_absent
get-collect key [] values h = refl
get-collect key (k ∷ ks) values h =
    let parts = and_parts _ _ h in
    get-keep k key (get k values) _ (differs _ parts.0) ∙ get-collect key ks values parts.1

keep-Unique :
    (k : String) (o : Option Json) (m : Members) → get k m ≡ none → Unique m → Unique (keep k o m)
keep-Unique k none m h u = u
keep-Unique k (some v) m h u = (h, u)

collect-Unique :
    (ks : List String) (values : Members) → are_distinct ks ≡ true → Unique (collect ks values)
unfolding are_distinct
collect-Unique [] values h = tt
collect-Unique (k ∷ ks) values h =
    let parts = and_parts _ _ h in
    keep-Unique k (get k values) _ (get-collect k ks values parts.0)
      (collect-Unique ks values parts.1)

reversed : (a b : String) → str_eq a b ≡ false → str_eq b a ≡ false
reversed a b h = elim (Bool-cases (str_eq b a)) [
  | inl e ↦ absurd (clash (sym h ∙ (eq_iff a b).1 (sym ((eq_iff b a).0 e))))
  | inr e ↦ e
]
  where
    clash : false ≡ true → ⊥
    clash e = cc

put-Unique : (key : String) (v : Json) (m : Members) → Unique m → Unique (put key v m)
put-Unique key v last u = (refl, tt)
put-Unique key v (member k u0 m) (fresh, u) =
    go (str_eq k key) (put-Unique key v m u) (λ e. get-put key v m k ∙ rw (reversed k key e) fresh)
  where
    go :
        (b : Bool)
        → Unique (put key v m)
        → (b ≡ false → get k (put key v m) ≡ none)
        → Unique (if b then member k v m else member k u0 (put key v m))
    go true u' h = (fresh, u)
    go false u' h = (h refl, u')

persisted_keys-distinct : are_distinct persisted_keys ≡ true
unfolding are_distinct is_absent
persisted_keys-distinct = refl

pub collected-Unique : (values : Members) → Unique (collect persisted_keys values)
collected-Unique values = collect-Unique persisted_keys values persisted_keys-distinct

pub with_key-Unique : (key : String) (m : Members) → Unique m → Unique (with_key key m)
with_key-Unique key m u = go (str_eq key "")
  where
    go : (b : Bool) → Unique (if b then m else put "jwt_private_key" (text key) m)
    go true = u
    go false = put-Unique "jwt_private_key" (text key) m u

-- A key that is not among those that count is not collected.
pub get_key-collect :
    (values : Members) → get "jwt_private_key" (collect persisted_keys values) ≡ none
unfolding is_absent
get_key-collect values = get-collect "jwt_private_key" persisted_keys values refl
