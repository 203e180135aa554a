-- ===== src/Base/Text.antt =====
-- Python's `str` methods that the platform calls, over the native texts.
use Prim.Native.Nat.{ℕ, ◌+◌, ◌-◌}
use Prim.Native.Char.{Char, code}
use Prim.Native.String.{String, [], ◌∷◌}
use mathlib.Core.Path.{◌≡◌, refl}
use mathlib.Core.Bool.{Bool, true, false, ◌&&◌, ◌||◌}
use native.Mathlib.Omega.{arith}
use text.Mathlib.TextLemmas.{nil≢cons, tail-eq_of_cons-eq}
use event_driven_data_platfo.Base.Tests.{leb, eqb, if◌then◌else◌}

abbrev pub between : ℕ → ℕ → ℕ → Bool
between lo hi c = leb lo c && leb c hi

-- The code points on which `str.isspace` holds.
pub is_space : ℕ → Bool
is_space c =
    between 9 13 c
    || between 28 32 c
    || eqb c 133
    || eqb c 160
    || eqb c 5760
    || between 8192 8202 c
    || between 8232 8233 c
    || eqb c 8239
    || eqb c 8287
    || eqb c 12288

abbrev pub is_empty : String → Bool
is_empty [] = true
is_empty (_ ∷ _) = false

unfoldable pub lstrip : String → String
lstrip [] = []
lstrip (c ∷ s) = if is_space (code c) then lstrip s else c ∷ s

unfoldable pub rstrip : String → String
rstrip [] = []
rstrip (c ∷ s) = let rest = rstrip s in if is_empty rest && is_space (code c) then [] else c ∷ rest

unfoldable pub strip : String → String
unfolding lstrip rstrip is_space
strip s = lstrip (rstrip s)

-- The number of code points, Python's `len`.
unfoldable pub code_points : String → ℕ
code_points [] = 0
code_points (_ ∷ s) = 1 + code_points s

-- Case mapping on the ASCII letters. The words below are compared with words of which no letter is
-- the case mapping of a letter outside ASCII, so that for them this is Python's answer.
unfoldable pub lower_code : ℕ → ℕ
lower_code c = if between 65 90 c then c + 32 else c

unfoldable pub upper_code : ℕ → ℕ
upper_code c = if between 97 122 c then c - 32 else c

unfoldable pub mapped_is : (ℕ → ℕ) → String → String → Bool
mapped_is f [] [] = true
mapped_is f [] (_ ∷ _) = false
mapped_is f (_ ∷ _) [] = false
mapped_is f (c ∷ s) (d ∷ w) = eqb (f (code c)) (code d) && mapped_is f s w

-- `s.lower() == w` and `s.upper() == w`
unfoldable pub lower_is : String → String → Bool
unfolding mapped_is lower_code
lower_is = mapped_is lower_code

unfoldable pub upper_is : String → String → Bool
unfolding mapped_is upper_code
upper_is = mapped_is upper_code

-- A second `rstrip`, or a second `lstrip`, changes nothing.
pub lstrip-lstrip : (s : String) → lstrip (lstrip s) ≡ lstrip s
unfolding lstrip
lstrip-lstrip [] = refl
lstrip-lstrip (c ∷ s) = ground (arith, lstrip-lstrip s)

pub rstrip-rstrip : (s : String) → rstrip (rstrip s) ≡ rstrip s
unfolding rstrip
rstrip-rstrip [] = refl
rstrip-rstrip (c ∷ s) = ground (arith, rstrip-rstrip s)

rstrip-tail :
    (c : Char) (s : String) (b : Bool) → (if b then [] else c ∷ rstrip s) ≡ c ∷ s → rstrip s ≡ s
rstrip-tail c s true h = absurd (nil≢cons h)
rstrip-tail c s false h = tail-eq_of_cons-eq h

rstrip-if :
    (b : Bool) (s t : String)
    → rstrip s ≡ s
    → rstrip t ≡ t
    → rstrip (if b then s else t) ≡ (if b then s else t)
rstrip-if true s t h k = h
rstrip-if false s t h k = k

-- `lstrip` leaves a text that `rstrip` does not change unchanged by it.
rstrip-lstrip : (s : String) → rstrip s ≡ s → rstrip (lstrip s) ≡ lstrip s
unfolding lstrip rstrip
rstrip-lstrip [] h = refl
rstrip-lstrip (c ∷ s) h =
    let tail = rstrip-lstrip s (rstrip-tail c s (is_empty (rstrip s) && is_space (code c)) h) in
    rstrip-if (is_space (code c)) (lstrip s) (c ∷ s) tail h

pub strip-strip : (s : String) → strip (strip s) ≡ strip s
unfolding strip
strip-strip s = rw (rstrip-lstrip (rstrip s) (rstrip-rstrip s)) (lstrip-lstrip (rstrip s))
