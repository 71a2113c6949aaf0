-- ===== src/Common/Maps.antt =====
-- Go maps with byte strings for keys, as association lists that hold a key once.
use mathlib.Core.Path.{◌≡◌, refl}
use mathlib.Core.Bool.{Bool, true, false}
use mathlib.Core.Option.{Option, none, some}
use mathlib.Core.List.{List, [], ◌∷◌}
use native.Mathlib.Omega.{arith}
use mynetwork.Common.Tests.{if◌then◌else◌}
use mynetwork.Common.Text.{Bytes, bytes_eq, bytes_eq_iff, bytes_eq_refl}

abbrev pub Dict {ℓ} : Type ℓ → Type ℓ
Dict V = List (Bytes × V)

module _ {ℓ} {V : Type ℓ} where
  -- `m[key]`, and whether it is there.
  unfoldable pub get : Dict V → Bytes → Option V
  get [] key = none
  get (entry ∷ rest) key = if bytes_eq entry.0 key then some entry.1 else get rest key

  -- `m[key] = val`.
  unfoldable pub put : Dict V → Bytes → V → Dict V
  put [] key val = (key, val) ∷ []
  put (entry ∷ rest) key val =
      if bytes_eq entry.0 key then (key, val) ∷ rest else entry ∷ put rest key val

  -- `delete(m, key)`.
  unfoldable pub remove : Dict V → Bytes → Dict V
  remove [] key = []
  remove (entry ∷ rest) key =
      if bytes_eq entry.0 key then remove rest key else entry ∷ remove rest key

  pub get-put :
      (m : Dict V) (key other : Bytes) (val : V)
      → get (put m key val) other ≡ (if bytes_eq key other then some val else get m other)
  unfolding get put
  get-put [] key other val = refl
  get-put (entry ∷ rest) key other val = ground (
    arith,
    get-put rest key other val,
    bytes_eq_iff entry.0 key,
    bytes_eq_iff entry.0 other,
    bytes_eq_iff key other,
  )

  pub get-remove :
      (m : Dict V) (key other : Bytes)
      → get (remove m key) other ≡ (if bytes_eq key other then none else get m other)
  unfolding get remove
  get-remove [] key other = ground arith
  get-remove (entry ∷ rest) key other = ground (
    arith,
    get-remove rest key other,
    bytes_eq_iff entry.0 key,
    bytes_eq_iff entry.0 other,
    bytes_eq_iff key other,
  )

  pub get-put_self : (m : Dict V) (key : Bytes) (val : V) → get (put m key val) key ≡ some val
  get-put_self m key val = rw (get-put m key key val) (rw (bytes_eq_refl key))

-- `_, ok := m[key]`.
abbrev pub is_some {ℓ} : {A : Type ℓ} → Option A → Bool
is_some none = false
is_some (some _) = true

-- A key that is there stays there.
pub is_some-put {ℓ} :
    {V : Type ℓ} (m : Dict V) (key other : Bytes) (val : V)
    → is_some (get m other) ≡ true
    → is_some (get (put m key val) other) ≡ true
is_some-put m key other val h = ground (arith, get-put m key other val)
