-- ===== src/Base/Options.antt =====
-- `undefined` and `null` as `none`: defaults, and the strict equality `===` of optional ids.
use Prim.Native.Nat.{ℕ}
use mathlib.Core.Path.{◌≡◌, refl}
use mathlib.Core.Logic.{◌≢◌, ◌⊎◌, inl, inr}
use mathlib.Core.Bool.{Bool, true, false}
use mathlib.Core.Option.{Option, none, some}
use native.Mathlib.Omega.{arith}
use rivendell.Base.Tests.{◌==◌}

module _ {ℓ} {A : Type ℓ} where
  -- `o || d`, for an `o` that is never falsy but when absent.
  abbrev pub get_or : Option A → A → A
  get_or none d = d
  get_or (some a) d = a

  -- The value that the spread `{ ...d, ...o }` leaves in one property.
  abbrev pub or_else : Option A → Option A → Option A
  or_else none d = d
  or_else (some a) d = some a

  abbrev pub is_some : Option A → Bool
  is_some none = false
  is_some (some a) = true

  pub Option-cases : (o : Option A) → (o ≡ none) ⊎ ((a : A) × (o ≡ some a))
  Option-cases none = inl refl
  Option-cases (some a) = inr (a, refl)

  pub none_ne : (a : A) → none ≢ some a
  none_ne a h = cc

  pub some_inj : (a b : A) → some a ≡ some b → a ≡ b
  some_inj a b h = cc h

-- `a === b` on ids, either of which may be null.
abbrev pub same_id : Option ℕ → Option ℕ → Bool
same_id none none = true
same_id (some a) (some b) = a == b
same_id _ _ = false

pub same_id_refl : (o : Option ℕ) → same_id o o ≡ true
same_id_refl none = refl
same_id_refl (some a) = ground arith

-- `a === b` where an absent `a` is undefined and an absent `b` is null, which are not `===`.
abbrev pub matches_id : Option ℕ → Option ℕ → Bool
matches_id (some a) (some b) = a == b
matches_id _ _ = false
