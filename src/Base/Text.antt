-- ===== src/Base/Text.antt =====
-- Texts as the program uses them: compared whole, joined, measured in bytes, and, for the
-- patterns, as lists of code points.
use Prim.Native.Nat.{ℕ, zero, suc, ◌+◌, ◌≤◌, ◌<◌, ◌/◌, ◌%◌, compare, Ordering}
use Prim.Native.Char.{code}
use Prim.Native.String.{String, len, slice, ◌++◌}
use mathlib.Core.Path.{◌≡◌, subst, ap}
use mathlib.Core.Logic.{◌≢◌, ◌⊎◌, inl, inr}
use mathlib.Core.Bool.{Bool, true, false, not}
use mathlib.Core.List.{List, [], ◌∷◌}
use native.Mathlib.Omega.{arith}
use text.Mathlib.Text.{◌==◌ as beq, starts_with}
use text.Mathlib.TextEquality.{eq_iff}
use text.Mathlib.TextPositions.{eq_refl, len-append}
use signal_plane.Base.Tests.{Bool-cases}

infix 50 ◌==◌ ◌<>◌
unfoldable pub ◌==◌ : String → String → Bool
s == t = beq s t

abbrev pub ◌<>◌ : String → String → Bool
s <> t = not (s == t)

pub ==→eq : (s t : String) → (s == t) ≡ true → s ≡ t
unfolding ◌==◌
==→eq s t h = (eq_iff s t).0 h

pub ==_refl : (s : String) → (s == s) ≡ true
unfolding ◌==◌
==_refl s = eq_refl s

pub eq→== : (s t : String) → s ≡ t → (s == t) ≡ true
eq→== s t e = subst (λ u. (s == u) ≡ true) e (==_refl s)

pub ==_false : (s t : String) → s ≢ t → (s == t) ≡ false
==_false s t h = ground (arith, ==→eq s t)

-- The length in bytes, Go's `len`.
unfoldable pub text_length : String → ℕ
text_length s = len s

-- Concatenation, Go's `+`.
infixl 65 ◌^^◌
unfoldable pub ◌^^◌ : String → String → String
s ^^ t = s ++ t

pub longer : (s t : String) → text_length s ≤ text_length (s ^^ t)
unfolding text_length ◌^^◌
longer s t = omega (arith, len-append s t)

-- A text that starts with one that is not empty.
pub joined_there : (s t : String) → 0 < text_length s → ((s ^^ t) == "") ≡ false
unfolding text_length
joined_there s t h = ==_false (s ^^ t) "" (λ e. omega (arith, h, longer s t, ap len e))

abbrev pub codes : String → List ℕ
codes String.[] = []
codes (String.◌∷◌ c s) = code c ∷ codes s

-- strings.TrimPrefix
unfoldable pub trim_prefix : String → String → String
trim_prefix s prefix = elim (starts_with s prefix) [
  | true ↦ slice s (len prefix) (len s)
  | false ↦ s
]

-- `s[:n]` of a longer text; a character that would be cut is left out.
unfoldable pub cut : ℕ → String → String
cut n s = slice s 0 n

abbrev digit : ℕ → String
digit n = slice "0123456789" n (n + 1)

-- `n` in decimal, with fuel for its digits.
decimal_fuel : ℕ → ℕ → String
decimal_fuel zero n = ""
decimal_fuel (suc fuel) n =
    let rest = decimal_fuel fuel (n / 10) in
    elim (compare n 10) [ Ordering.lt ↦ digit n | _ ↦ rest ^^ digit (n % 10) ]

-- `%d` of a number: `n` has at most `n + 1` digits.
unfoldable pub decimal : ℕ → String
unfolding decimal_fuel
decimal n = decimal_fuel (suc n) n

pub eq-cases : (s t : String) → (s ≡ t) ⊎ (s ≢ t)
eq-cases s t = elim (Bool-cases (s == t)) [
  | inl h ↦ inl (==→eq s t h)
  | inr h ↦ inr (λ e. ground (arith, eq→== s t e, h))
]
