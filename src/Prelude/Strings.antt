-- ===== src/Prelude/Strings.antt =====
-- Python strings as lists of code points.
use Prim.Native.Nat.{ℕ, ◌+◌, ◌-◌, ◌≤◌}
use Prim.Native.Char.{code}
use Prim.Native.String.{String}
use mathlib.Core.Bool.{Bool, ◌&&◌, ◌||◌}
use mathlib.Core.Option.{Option, none, some}
use mathlib.Core.List.{List, [], ◌∷◌, ◌++◌, reverse, reverse_aux}
use mathlib.Core.Path.{◌≡◌}
use native.Mathlib.Omega.{arith}
use research_mind_ai.Prelude.Lists.{length}
use research_mind_ai.Prelude.Tests.{leb, nat_beq, if◌then◌else◌}

abbrev pub Text : Type 0
Text = List ℕ

abbrev pub codes : String → Text
codes String.[] = []
codes (String.◌∷◌ c s) = code c ∷ codes s

abbrev pub in_range : ℕ → ℕ → ℕ → Bool
in_range lo hi c = leb lo c && leb c hi

-- str.isspace of one character
unfoldable pub is_space : ℕ → Bool
is_space c =
    in_range 9 13 c
    || in_range 28 32 c
    || nat_beq c 133
    || nat_beq c 160
    || nat_beq c 5760
    || in_range 8192 8202 c
    || nat_beq c 8232
    || nat_beq c 8233
    || nat_beq c 8239
    || nat_beq c 8287
    || nat_beq c 12288

-- The values of the digits 0 to 9 alone, to run the definitions on.
abbrev pub ascii_digit : ℕ → Option ℕ
ascii_digit c = if in_range b'0' b'9' c then some (c - 48) else none

unfoldable pub is_digit : ℕ → Bool
is_digit c = in_range b'0' b'9' c

-- s.lstrip(chars) and s.rstrip(chars), for a test of the characters to drop
unfoldable pub lstrip : (ℕ → Bool) → Text → Text
lstrip p [] = []
lstrip p (c ∷ cs) = if p c then lstrip p cs else c ∷ cs

unfoldable pub rstrip : (ℕ → Bool) → Text → Text
unfolding lstrip
rstrip p s = reverse (lstrip p (reverse s))

unfoldable pub strip : (ℕ → Bool) → Text → Text
unfolding lstrip rstrip
strip p s = rstrip p (lstrip p s)

-- sep.join(parts)
unfoldable pub join : Text → List Text → Text
join sep [] = []
join sep (x ∷ []) = x
join sep (x ∷ y ∷ ys) = x ++ (sep ++ join sep (y ∷ ys))

length-reverse_aux : (s t : Text) → length (reverse_aux s t) ≡ length s + length t
length-reverse_aux [] t = omega arith
length-reverse_aux (c ∷ s) t = omega (arith, length-reverse_aux s (c ∷ t))

length-lstrip-le : (p : ℕ → Bool) (s : Text) → length (lstrip p s) ≤ length s
unfolding lstrip
length-lstrip-le p [] = omega arith
length-lstrip-le p (c ∷ s) = ground (arith, length-lstrip-le p s)

pub length-strip-le : (p : ℕ → Bool) (s : Text) → length (strip p s) ≤ length s
unfolding strip rstrip
length-strip-le p s =
    let front = lstrip p s in
    omega (
      arith,
      length-reverse_aux (lstrip p (reverse front)) [],
      length-lstrip-le p (reverse front),
      length-reverse_aux front [],
      length-lstrip-le p s,
    )
