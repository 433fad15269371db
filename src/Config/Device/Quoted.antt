-- ===== src/Config/Device/Quoted.antt =====
-- Reading a quoted factory out of a device file (server/config.py).
use coda_node.Prelude.{
  ℕ, ◌≡◌, refl, ap, ◌∙◌, Bool, true, false, ◌&&◌, Option, none, some, List, [], ◌∷◌, ◌++◌, All,
  if◌then◌else◌, ◌==◌, is_space, codes, strip, rstrip_drops, splitlines, arith,
}
use coda_node.Exec.{ok}
use coda_node.Config.Device.{
  Text, lead_some, before_comment, stripped, strip_inline_yaml_comment, executor_factory_re,
  without_last, last_of, unquoted, value_on, first_or, factory_in,
  load_executor_factory_from_device_config,
}
use coda_node.Config.Device.Ends.{
  Ends, Ends-append, rstrip-Ends, strip-Ends, OneLine, shortest-Ends,
}

leads : Text → Option Text → Option Text
leads [] o = o
leads (c ∷ s) o = lead_some c (leads s o)

abbrev pub NoQuote : Text → Type 0
NoQuote = All (λ c. (c == b'"') ≡ false)

-- Inside double quotes a character that is no double quote changes nothing.
inside :
    (c : ℕ) (s : Text)
    → (c == b'"') ≡ false
    → before_comment false true (c ∷ s) ≡ lead_some c (before_comment false true s)
inside c s h = go (c == b'#') (c == b'\'') (c == b'"') h
  where
    go :
        (a b d : Bool)
        → d ≡ false
        → (if a && false
            then some []
            else lead_some c (
                before_comment
                  (if b && false then true else false)
                  (if d && true then false else true)
                  s))
          ≡ lead_some c (before_comment false true s)
    go true true false e = refl
    go true false false e = refl
    go false true false e = refl
    go false false false e = refl
    go a b true e = absurd (cc)

-- Nothing between the quotes starts a comment.
quoted-leads :
    (v t : Text)
    → NoQuote v
    → before_comment false true (v ++ b'"' ∷ t)
      ≡ leads (v ++ b'"' ∷ []) (before_comment false false t)
unfolding leads
quoted-leads [] t h = refl
quoted-leads (c ∷ v) t (p, h) = inside c (v ++ b'"' ∷ t) p ∙ ap (lead_some c) (quoted-leads v t h)

leads-none : (s : Text) → leads s none ≡ none
unfolding leads
leads-none [] = refl
leads-none (c ∷ s) = rw (leads-none s) refl

leads-some : (s t : Text) → leads s (some t) ≡ some (s ++ t)
unfolding leads
leads-some [] t = refl
leads-some (c ∷ s) t = rw (leads-some s t) refl

abbrev pub quoted : Text → Text
quoted v = b'"' ∷ v ++ b'"' ∷ []

last_of-snoc : (c : ℕ) (s : Text) (d : ℕ) → last_of c (s ++ d ∷ []) ≡ d
last_of-snoc c [] d = refl
last_of-snoc c (e ∷ s) d = last_of-snoc e s d

without_last-snoc : (c : ℕ) (s : Text) (d : ℕ) → without_last c (s ++ d ∷ []) ≡ c ∷ s
without_last-snoc c [] d = refl
without_last-snoc c (e ∷ s) d = ap (λ t. c ∷ t) (without_last-snoc e s d)

unquoted-quoted : (v : Text) → unquoted (quoted v) ≡ v
unquoted-quoted [] = refl
unquoted-quoted (c ∷ v) = rw (last_of-snoc c v b'"') (without_last-snoc c v b'"')

-- What may stand behind the closing quote: nothing, or a comment that ends in no space.
pub data Comment : Text → Type 0 where
  empty : Comment []
  comment :
      (c : Text) (d : ℕ) → OneLine c → is_space d ≡ false → Comment (b' ' ∷ b'#' ∷ c ++ d ∷ [])

-- What stands behind the colon.
abbrev pub value : Text → Text → Text
value v t = b'"' ∷ v ++ b'"' ∷ t

value-Ends : (v t : Text) → Comment t → Ends (value v t)
unfolding Ends
value-Ends v [] empty = Ends-append (b'"' ∷ v) (b'"' ∷ []) refl
value-Ends v _ (comment c d n h) =
    Ends-append (b'"' ∷ v) (b'"' ∷ b' ' ∷ b'#' ∷ c ++ d ∷ [])
      (Ends-append (b'"' ∷ b' ' ∷ b'#' ∷ c) (d ∷ []) h)

OneLine-append : (s t : Text) → OneLine s → OneLine t → OneLine (s ++ t)
OneLine-append [] t h k = k
OneLine-append (c ∷ s) t (p, h) k = (p, OneLine-append s t h k)

Comment-OneLine : {t : Text} → Comment t → OneLine t
Comment-OneLine empty = tt
Comment-OneLine (comment c d n h) = (refl, (refl, OneLine-append c (d ∷ []) n (ground arith, tt)))

-- The quoted value, its comment removed.
uncommented :
    (v t : Text) → NoQuote v → Comment t → strip_inline_yaml_comment (value v t) ≡ quoted v
unfolding strip_inline_yaml_comment
uncommented v t h k =
    ap (λ o. stripped (value v t) (lead_some b'"' o)) (quoted-leads v t h) ∙ go t k
  where
    go :
        (t : Text)
        → Comment t
        → stripped
            (value v t)
            (lead_some b'"' (leads (v ++ b'"' ∷ []) (before_comment false false t)))
          ≡ quoted v
    go [] empty =
        ap (λ o. stripped (value v []) (lead_some b'"' o)) (leads-none (v ++ b'"' ∷ []))
        ∙ strip-Ends b'"' (v ++ b'"' ∷ []) refl (value-Ends v [] empty)
    go _ (comment c d n h) =
        ap (λ o. stripped (value v (b' ' ∷ b'#' ∷ c ++ d ∷ [])) (lead_some b'"' o))
          (leads-some (v ++ b'"' ∷ []) (b' ' ∷ []))
        ∙ rstrip_drops (quoted v) b' ' refl
        ∙ rstrip-Ends (quoted v) (value-Ends v [] empty)

abbrev pub line : Text → Text → Text
line v t = codes "executor_factory: " ++ value v t

matched :
    (s : Text)
    → Ends (b'"' ∷ s)
    → OneLine s
    → executor_factory_re (codes "executor_factory: \"" ++ s) ≡ some (b'"' ∷ s)
unfolding executor_factory_re
matched s h n = rw (shortest-Ends (b'"' ∷ s) h (refl, n)) refl

value_on-line : (v t : Text) → OneLine v → Comment t → value_on (line v t) ≡ some (value v t)
value_on-line v t n k =
    ap executor_factory_re (
      strip-Ends b'e' (codes "xecutor_factory: " ++ value v t) refl
        (Ends-append (codes "executor_factory: ") (value v t) (value-Ends v t k)))
    ∙ matched (v ++ b'"' ∷ t) (value-Ends v t k)
        (OneLine-append v (b'"' ∷ t) n (refl, Comment-OneLine k))

abbrev pub Passes : List Text → Type 0
Passes = All (λ l. value_on l ≡ none)

factory_in-line :
    (before after : List Text) (v t : Text)
    → Passes before
    → NoQuote v
    → OneLine v
    → strip v ≡ v
    → Comment t
    → factory_in (before ++ line v t ∷ after) ≡ v
unfolding factory_in
factory_in-line [] after v t p q n h k =
    ap (λ o. first_or o (factory_in after)) (value_on-line v t n k)
    ∙ ap (λ s. strip (unquoted s)) (uncommented v t q k)
    ∙ ap strip (unquoted-quoted v)
    ∙ h
factory_in-line (l ∷ before) after v t (p, ps) q n h k =
    ap (λ o. first_or o (factory_in (before ++ line v t ∷ after))) p
    ∙ factory_in-line before after v t ps q n h k

-- The factory that a device file names is read back from the line that writes it between double
-- quotes, perhaps with a comment behind: a text on one line, without a double quote and without spaces
-- around it, may contain `#` and single quotes. The lines before name no factory at the top level; the
-- lines behind do not matter.
pub load_executor_factory-line :
    (content : Text) (before after : List Text) (v t : Text)
    → splitlines content ≡ before ++ line v t ∷ after
    → Passes before
    → NoQuote v
    → OneLine v
    → strip v ≡ v
    → Comment t
    → load_executor_factory_from_device_config (ok content) ≡ ok v
unfolding load_executor_factory_from_device_config
load_executor_factory-line content before after v t e p q n h k =
    ap (λ ls. ok (factory_in ls)) e ∙ ap ok (factory_in-line before after v t p q n h k)
