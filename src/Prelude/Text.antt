-- ===== src/Prelude/Text.antt =====
-- Rust's `String` and `&str` as their bytes, with the methods of the standard library that the
-- program calls: `==`, `split("/")`, `join`, `trim().is_empty()` and `String::from_utf8`.
use Prim.Native.Nat.{ℕ, zero, suc}
use Prim.Native.Char.{code}
use Prim.Native.String.{String}
use mathlib.Core.Path.{◌≡◌, refl}
use mathlib.Core.Logic.{◌↔◌}
use mathlib.Core.Bool.{Bool, true, false, ◌&&◌, ◌||◌}
use mathlib.Core.Option.{Option, none, some}
use mathlib.Core.List.{List, [], ◌∷◌, ◌++◌}
use native.Mathlib.Omega.{arith}
use rstr.Prelude.Tests.{ltb, leb, ◌==◌, if◌then◌else◌}

-- The UTF-8 bytes of a text.
abbrev pub Text : Type 0
Text = List ℕ

-- An ASCII literal of the source.
abbrev pub ascii : String → Text
ascii String.[] = []
ascii (String.◌∷◌ c s) = code c ∷ ascii s

unfoldable pub text_eq : Text → Text → Bool
text_eq [] [] = true
text_eq [] (y ∷ ys) = false
text_eq (x ∷ xs) [] = false
text_eq (x ∷ xs) (y ∷ ys) = (x == y) && text_eq xs ys

text_eq→eq : (a b : Text) → text_eq a b ≡ true → a ≡ b
unfolding text_eq
text_eq→eq [] [] h = refl
text_eq→eq [] (y ∷ ys) h = cc
text_eq→eq (x ∷ xs) [] h = cc
text_eq→eq (x ∷ xs) (y ∷ ys) h = ground (arith, text_eq→eq xs ys)

pub text_eq_refl : (a : Text) → text_eq a a ≡ true
unfolding text_eq
text_eq_refl [] = refl
text_eq_refl (x ∷ xs) = ground (arith, text_eq_refl xs)

pub text_eq_iff : (a b : Text) → (text_eq a b ≡ true) ↔ (a ≡ b)
text_eq_iff a b = (text_eq→eq a b, λ e. rw e (text_eq_refl b))

-- `s.split("/")`: at least one piece.
unfoldable pub onto_first : ℕ → List Text → List Text
onto_first c [] = (c ∷ []) ∷ []
onto_first c (piece ∷ rest) = (c ∷ piece) ∷ rest

unfoldable pub split : Text → List Text
unfolding onto_first
split [] = [] ∷ []
split (c ∷ s) = let rest = split s in if c == b'/' then [] ∷ rest else onto_first c rest

-- `pieces.join("/")`
unfoldable pub join : List Text → Text
join [] = []
join (piece ∷ []) = piece
join (piece ∷ next ∷ rest) = piece ++ b'/' ∷ join (next ∷ rest)

-- The characters that `trim` removes, by the bytes of their UTF-8 forms.
is_space : ℕ → Bool
is_space a = (leb 9 a && leb a 13) || (a == 32)

is_space_2 : ℕ → ℕ → Bool
is_space_2 a b = (a == 0xC2) && ((b == 0x85) || (b == 0xA0))

is_space_3 : ℕ → ℕ → ℕ → Bool
is_space_3 a b c =
    ((a == 0xE1) && (b == 0x9A) && (c == 0x80))
    || ((a == 0xE2)
        && (b == 0x80)
        && ((leb 0x80 c && leb c 0x8A) || (c == 0xA8) || (c == 0xA9) || (c == 0xAF)))
    || ((a == 0xE2) && (b == 0x81) && (c == 0x9F))
    || ((a == 0xE3) && (b == 0x80) && (c == 0x80))

-- `s.trim().is_empty()`
unfoldable pub is_blank : Text → Bool
unfolding is_space is_space_2 is_space_3
is_blank [] = true
is_blank (a ∷ []) = is_space a
is_blank (a ∷ b ∷ []) = (is_space a && is_space b) || is_space_2 a b
is_blank (a ∷ b ∷ c ∷ s) = elim (is_space a) [
  | true ↦ is_blank (b ∷ c ∷ s)
  | false ↦ elim (is_space_2 a b) [
    | true ↦ is_blank (c ∷ s)
    | false ↦ elim (is_space_3 a b c) [ true ↦ is_blank s | false ↦ false ]
  ]
]

-- What may follow a first byte of a UTF-8 sequence: how many bytes, and the range of the next.
lead : ℕ → Option (ℕ × ℕ × ℕ)
lead b =
    if ltb b 0x80
    then some (0, 0, 0)
    else if ltb b 0xC2
    then none
    else if ltb b 0xE0
    then some (1, 0x80, 0xBF)
    else if b == 0xE0
    then some (2, 0xA0, 0xBF)
    else if b == 0xED
    then some (2, 0x80, 0x9F)
    else if ltb b 0xF0
    then some (2, 0x80, 0xBF)
    else if b == 0xF0
    then some (3, 0x90, 0xBF)
    else if ltb b 0xF4
    then some (3, 0x80, 0xBF)
    else if b == 0xF4
    then some (3, 0x80, 0x8F)
    else none

valid_from : ℕ → ℕ → ℕ → Text → Bool
valid_from zero lo hi [] = true
valid_from (suc need) lo hi [] = false
valid_from zero lo hi (b ∷ s) = elim (lead b) [ none ↦ false | some (n, l, h) ↦ valid_from n l h s ]
valid_from (suc need) lo hi (b ∷ s) = leb lo b && leb b hi && valid_from need 0x80 0xBF s

-- `String::from_utf8(bytes).is_ok()`
unfoldable pub is_utf8 : Text → Bool
unfolding valid_from lead
is_utf8 s = valid_from 0 0 0 s

is_utf8_test : is_utf8 (0x61 ∷ 0xC3 ∷ 0xA9 ∷ []) ≡ true
unfolding is_utf8
is_utf8_test = refl

surrogate_is_refused : is_utf8 (0xED ∷ 0xA0 ∷ 0x80 ∷ []) ≡ false
unfolding is_utf8
surrogate_is_refused = refl

split_test : split (ascii "a//b") ≡ ascii "a" ∷ [] ∷ ascii "b" ∷ []
unfolding split
split_test = refl
