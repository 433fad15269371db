-- ===== src/Vpn/Permissions.antt =====
-- Who may read a key file (`validate_key_permissions` of vpn/guard.py).
use coda_node.Prelude.{
  ℕ, ◌%◌, ◌/◌, ◌≡◌, ◌↔◌, ◌⊎◌, inl, inr, refl, sym, ap, subst, Bool, true, false, ◌||◌,
  if◌then◌else◌, ◌==◌, arith, Bool-cases,
}
use coda_node.Exec.{Exn, connection, job_cancelled, other, Result, ok, err}

pub record Files : Type 0 where
  pub is_windows : Bool
  -- `p.is_file()` and `p.stat().st_mode`; an OSError is a `connection`
  pub is_file : Result Bool
  pub st_mode : Result ℕ

-- `mode & 0o777`, and whether it is 0o600 or 0o400
abbrev pub is_restrictive : ℕ → Bool
is_restrictive mode = mode % 512 == 0x180 || mode % 512 == 0x100

-- The `except` clause.
abbrev pub unless_os_error : Result Bool → Result Bool
unless_os_error (err (connection e)) = ok false
unless_os_error r = r

abbrev pub judged : Result ℕ → Result Bool
judged (ok mode) = ok (is_restrictive mode)
judged (err e) = err e

-- validate_key_permissions
unfoldable pub validate_key_permissions : Files → Result Bool
validate_key_permissions f = unless_os_error (if f.is_windows then f.is_file else judged f.st_mode)

-- The owner may read the file and not run it, and group and others have no permission.
abbrev pub OwnerOnly : ℕ → Type 0
OwnerOnly mode = ((mode / 64 % 8 ≡ 6) ⊎ (mode / 64 % 8 ≡ 4)) × (mode / 8 % 8 ≡ 0) × (mode % 8 ≡ 0)

restrictive : (mode : ℕ) → (is_restrictive mode ≡ true) ↔ OwnerOnly mode
restrictive mode = (
  λ h. elim (Bool-cases (mode % 512 == 0x180)) [
    | inl e ↦ (inl (ground arith), ground arith, ground arith)
    | inr e ↦ (inr (ground arith), ground arith, ground arith)
  ],
  λ h. elim h.0 [ inl e ↦ exact h.1 h.2 (inl e) | inr e ↦ exact h.1 h.2 (inr e) ],
)
  where
    exact :
        mode / 8 % 8 ≡ 0
        → mode % 8 ≡ 0
        → (mode / 64 % 8 ≡ 6) ⊎ (mode / 64 % 8 ≡ 4)
        → is_restrictive mode ≡ true
    exact p q (inl e) = ground arith
    exact p q (inr e) = ground arith

-- A key file that passes: it exists, on Windows; elsewhere its owner alone has permissions.
abbrev pub Private : Files → Type 0
Private f =
    ((f.is_windows ≡ true) × (f.is_file ≡ ok true))
    ⊎ ((f.is_windows ≡ false) × (mode : ℕ) × (f.st_mode ≡ ok mode) × OwnerOnly mode)

ok-injective : {a b : Bool} → ok a ≡ ok b → a ≡ b
ok-injective e = cc

same_mode : {a b : ℕ} → ok a ≡ ok b → a ≡ b
same_mode e = cc

refused : {A : Type 0} {a : A} {e : Exn} → err e ≡ ok a → ⊥
refused e = cc

passes : (r : Result Bool) → unless_os_error r ≡ ok true → r ≡ ok true
passes (ok b) h = h
passes (err (connection e)) h = absurd (clash (ok-injective h))
  where
    clash : false ≡ true → ⊥
    clash p = cc
passes (err job_cancelled) h = absurd (refused h)
passes (err (other e)) h = absurd (refused h)

-- A key file passes exactly if, on Windows, it is a file, and elsewhere its mode can be read, lets its
-- owner read and not run it, and gives its group and others nothing.
pub validate_key_permissions_iff : (f : Files) → (validate_key_permissions f ≡ ok true) ↔ Private f
unfolding validate_key_permissions
validate_key_permissions_iff f = go f.is_windows f.is_file f.st_mode
  where
    apart : false ≡ true → ⊥
    apart p = cc

    go :
        (b : Bool) (file : Result Bool) (mode : Result ℕ)
        → (unless_os_error (if b then file else judged mode) ≡ ok true) ↔ (
            ((b ≡ true) × (file ≡ ok true)) ⊎ ((b ≡ false) × (m : ℕ) × (mode ≡ ok m) × OwnerOnly m))
    go true file mode = (
      λ h. inl (refl, passes file h),
      λ h. elim h [ inl k ↦ ap unless_os_error k.1 | inr k ↦ absurd (apart (sym k.0)) ],
    )
    go false file (ok m) = (
      λ h. inr (refl, m, refl, (restrictive m).0 (ok-injective h)),
      λ h. elim h [
        | inl k ↦ absurd (apart k.0)
        | inr k ↦ ap ok ((restrictive m).1 (subst OwnerOnly (sym (same_mode k.2)) k.3))
      ],
    )
    go false file (err e) = (
      λ h. absurd (refused (passes (err e) h)),
      λ h. elim h [ inl k ↦ absurd (apart k.0) | inr k ↦ absurd (refused k.2) ],
    )
