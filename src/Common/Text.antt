-- ===== src/Common/Text.antt =====
-- Go strings and byte slices as lists of bytes, with what the sources use of the package strings.
use Prim.Native.Nat.{ℕ, ◌+◌, ◌-◌}
use Prim.Native.Char.{code}
use Prim.Native.String.{String}
use mathlib.Core.Path.{◌≡◌, refl, ap₂}
use mathlib.Core.Logic.{◌↔◌, ◌≢◌}
use mathlib.Core.Bool.{Bool, true, false, ◌&&◌}
use mathlib.Core.List.{List, [], ◌∷◌, ◌++◌, map, append-nil, append_assoc}
use native.Mathlib.Omega.{arith}
use mathlib.Core.Logic.{inl, inr}
use mynetwork.Common.Tests.{Bool-cases, ltb, leb, ◌==◌, if◌then◌else◌}
use mynetwork.Common.Lists.{length, take, drop, All}

abbrev pub Bytes : Type 0
Bytes = List ℕ

-- The bytes of an ASCII literal.
abbrev pub codes : String → Bytes
codes String.[] = []
codes (String.◌∷◌ c s) = code c ∷ codes s

-- `==` on strings and on byte arrays.
unfoldable pub bytes_eq : Bytes → Bytes → Bool
bytes_eq [] [] = true
bytes_eq (x ∷ xs) (y ∷ ys) = (x == y) && bytes_eq xs ys
bytes_eq [] (y ∷ ys) = false
bytes_eq (x ∷ xs) [] = false

bytes_eq_sound : (s t : Bytes) → bytes_eq s t ≡ true → s ≡ t
unfolding bytes_eq
bytes_eq_sound [] [] h = refl
bytes_eq_sound (x ∷ xs) (y ∷ ys) h = ground (arith, bytes_eq_sound xs ys)
bytes_eq_sound [] (y ∷ ys) h = cc
bytes_eq_sound (x ∷ xs) [] h = cc

pub bytes_eq_refl : (s : Bytes) → bytes_eq s s ≡ true
unfolding bytes_eq
bytes_eq_refl [] = refl
bytes_eq_refl (x ∷ xs) = ground (arith, bytes_eq_refl xs)

pub bytes_eq_iff : (s t : Bytes) → (bytes_eq s t ≡ true) ↔ (s ≡ t)
bytes_eq_iff s t = (bytes_eq_sound s t, λ e. rw e (bytes_eq_refl t))

-- `strings.HasPrefix`.
unfoldable pub has_prefix : Bytes → Bytes → Bool
has_prefix s [] = true
has_prefix [] (y ∷ ys) = false
has_prefix (x ∷ xs) (y ∷ ys) = (x == y) && has_prefix xs ys

pub has_prefix-append : (s t : Bytes) → has_prefix (s ++ t) s ≡ true
unfolding has_prefix
has_prefix-append [] t = refl
has_prefix-append (x ∷ s) t = ground (arith, has_prefix-append s t)

pub drop-append : (s t : Bytes) → drop (length s) (s ++ t) ≡ t
drop-append [] t = refl
drop-append (x ∷ s) t = drop-append s t

pub has_prefix-drop : (s p : Bytes) → has_prefix s p ≡ true → s ≡ p ++ drop (length p) s
unfolding has_prefix
has_prefix-drop s [] h = refl
has_prefix-drop [] (y ∷ p) h = cc
has_prefix-drop (x ∷ s) (y ∷ p) h = ground (arith, has_prefix-drop s p)

-- `strings.TrimPrefix`.
unfoldable pub trim_prefix : Bytes → Bytes → Bytes
unfolding has_prefix
trim_prefix s p = if has_prefix s p then drop (length p) s else s

-- `strings.HasSuffix` and `strings.TrimSuffix`: the suffix stands where its length is left.
unfoldable pub has_suffix : Bytes → Bytes → Bool
unfolding bytes_eq
has_suffix s p = leb (length p) (length s) && bytes_eq (drop (length s - length p) s) p

unfoldable pub trim_suffix : Bytes → Bytes → Bytes
unfolding has_suffix
trim_suffix s p = if has_suffix s p then take (length s - length p) s else s

-- `strings.Contains`.
unfoldable pub contains : Bytes → Bytes → Bool
unfolding has_prefix
contains [] p = has_prefix [] p
contains (x ∷ s) p = elim (has_prefix (x ∷ s) p) [ true ↦ true | false ↦ contains s p ]

-- A text stands within another.
pub contains-append : (a p b : Bytes) → contains (a ++ (p ++ b)) p ≡ true
unfolding contains has_prefix
contains-append [] [] [] = refl
contains-append [] [] (x ∷ b) = refl
contains-append [] (y ∷ p) b = ground (arith, has_prefix-append p b)
contains-append (x ∷ a) p b = ground (arith, contains-append a p b)

-- `strings.Split` by a separator of one byte.
split_from : ℕ → Bytes → Bytes → List Bytes
split_from sep cur [] = cur ∷ []
split_from sep cur (x ∷ s) =
    let closed = cur ∷ split_from sep [] s in
    let longer = split_from sep (cur ++ x ∷ []) s in if x == sep then closed else longer

unfoldable pub split : ℕ → Bytes → List Bytes
unfolding split_from
split sep s = split_from sep [] s

abbrev pub IsFree : ℕ → Bytes → Type 0
IsFree sep s = All (λ x. x ≢ sep) s

cons-append_assoc : (cur : Bytes) (x : ℕ) (s : Bytes) → (cur ++ x ∷ []) ++ s ≡ cur ++ x ∷ s
cons-append_assoc cur x s = append_assoc cur (x ∷ []) s

split_from-free : (sep : ℕ) (cur s : Bytes) → IsFree sep s → split_from sep cur s ≡ (cur ++ s) ∷ []
unfolding split_from
split_from-free sep cur [] h = rw (append-nil cur)
split_from-free sep cur (x ∷ s) (p, h) =
    ground (arith, split_from-free sep (cur ++ x ∷ []) s h, cons-append_assoc cur x s)

split_from-sep :
    (sep : ℕ) (cur s t : Bytes)
    → IsFree sep s
    → split_from sep cur (s ++ sep ∷ t) ≡ (cur ++ s) ∷ split_from sep [] t
unfolding split_from
split_from-sep sep cur [] t h = ground (arith, append-nil cur)
split_from-sep sep cur (x ∷ s) t (p, h) =
    ground (arith, split_from-sep sep (cur ++ x ∷ []) s t h, cons-append_assoc cur x s)

-- A text without the separator is one part.
pub split_free : (sep : ℕ) (s : Bytes) → IsFree sep s → split sep s ≡ s ∷ []
unfolding split
split_free sep s h = split_from-free sep [] s h

-- The part before the first separator is split off.
pub split-append :
    (sep : ℕ) (s t : Bytes) → IsFree sep s → split sep (s ++ sep ∷ t) ≡ s ∷ split sep t
unfolding split
split-append sep s t h = split_from-sep sep [] s t h

split_from-nonempty :
    (sep : ℕ) (cur s : Bytes)
    → (part : Bytes) × (parts : List Bytes) × (split_from sep cur s ≡ part ∷ parts)
unfolding split_from
split_from-nonempty sep cur [] = (cur, [], refl)
split_from-nonempty sep cur (x ∷ s) = elim (Bool-cases (x == sep)) [
  | inl ends ↦ (cur, split_from sep [] s, ground (arith, ends))
  | inr goes_on ↦
      let (part, parts, e) = split_from-nonempty sep (cur ++ x ∷ []) s in
      (part, parts, ground (arith, goes_on, e))
]

-- There is always a part.
pub split-nonempty :
    (sep : ℕ) (s : Bytes) → (part : Bytes) × (parts : List Bytes) × (split sep s ≡ part ∷ parts)
unfolding split
split-nonempty sep s = split_from-nonempty sep [] s

-- `strings.ToLower`: byte by byte for ASCII; for other texts the Unicode tables are a parameter.
abbrev pub lower_byte : ℕ → ℕ
lower_byte c = if leb 65 c && leb c 90 then c + 32 else c

unfoldable pub is_ascii : Bytes → Bool
is_ascii [] = true
is_ascii (c ∷ s) = ltb c 128 && is_ascii s

unfoldable pub to_lower : (Bytes → Bytes) → Bytes → Bytes
unfolding is_ascii
to_lower unicode_lower s = if is_ascii s then map lower_byte s else unicode_lower s

map-lower_byte_idem : (s : Bytes) → map lower_byte (map lower_byte s) ≡ map lower_byte s
map-lower_byte_idem [] = refl
map-lower_byte_idem (c ∷ s) =
    ap₂ (λ (a : ℕ) (t : Bytes). a ∷ t) (ground arith) (map-lower_byte_idem s)

is_ascii-map-lower_byte : (s : Bytes) → is_ascii (map lower_byte s) ≡ is_ascii s
unfolding is_ascii
is_ascii-map-lower_byte [] = refl
is_ascii-map-lower_byte (c ∷ s) = ground (arith, is_ascii-map-lower_byte s)

-- Lowering an ASCII text twice changes nothing more.
pub to_lower_idem :
    (u : Bytes → Bytes) (s : Bytes) → is_ascii s ≡ true → to_lower u (to_lower u s) ≡ to_lower u s
unfolding to_lower
to_lower_idem u s h = rw h (rw (is_ascii-map-lower_byte s, h) (map-lower_byte_idem s))
