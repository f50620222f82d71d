-- ===== src/Base/Int.antt =====
-- Numbers of JavaScript, as far as the program uses them for times: integers, counted in
-- microseconds, and infinity. The library's names are kept (its ℤ stands on the unary ℕ).
use Prim.Native.Nat.{ℕ, suc, ◌+◌, ◌-◌, ◌≤◌, ◌<◌}
use mathlib.Core.Path.{◌≡◌}
use mathlib.Core.Bool.{Bool, true, false}
use mathlib.Core.Logic.{◌⊎◌}
use native.Mathlib.Omega.{arith}
use shaka_player_embedded.Base.Tests.{ltb, leb, ◌==◌, if◌then◌else◌}

-- `negsuc n` is -(n + 1).
pub data ℤ : Type 0 where
  pos : ℕ → ℤ
  negsuc : ℕ → ℤ

abbrev pub pos_part : ℤ → ℕ
pos_part (pos n) = n
pos_part (negsuc n) = 0

abbrev pub neg_part : ℤ → ℕ
neg_part (pos n) = 0
neg_part (negsuc n) = suc n

-- a - b, as an integer.
abbrev pub sub_ℕ : ℕ → ℕ → ℤ
sub_ℕ a b = if leb b a then pos (a - b) else negsuc (b - a - 1)

infixl 65 ◌+ℤ◌ ◌-ℤ◌
infix 50 ◌≤ℤ◌ ◌<ℤ◌ ◌==ℤ◌
unfoldable pub ◌+ℤ◌ : ℤ → ℤ → ℤ
a +ℤ b = sub_ℕ (pos_part a + pos_part b) (neg_part a + neg_part b)

unfoldable pub ◌-ℤ◌ : ℤ → ℤ → ℤ
a -ℤ b = sub_ℕ (pos_part a + neg_part b) (neg_part a + pos_part b)

abbrev pub ◌≤ℤ◌ : ℤ → ℤ → Type 0
a ≤ℤ b = pos_part a + neg_part b ≤ pos_part b + neg_part a

abbrev pub ◌<ℤ◌ : ℤ → ℤ → Type 0
a <ℤ b = pos_part a + neg_part b < pos_part b + neg_part a

abbrev pub ltb_ℤ : ℤ → ℤ → Bool
ltb_ℤ a b = ltb (pos_part a + neg_part b) (pos_part b + neg_part a)

abbrev pub leb_ℤ : ℤ → ℤ → Bool
leb_ℤ a b = leb (pos_part a + neg_part b) (pos_part b + neg_part a)

abbrev pub ◌==ℤ◌ : ℤ → ℤ → Bool
a ==ℤ b = pos_part a + neg_part b == pos_part b + neg_part a

-- `Math.max` and `Math.min`.
abbrev pub max_ℤ : ℤ → ℤ → ℤ
max_ℤ a b = if ltb_ℤ a b then b else a

abbrev pub min_ℤ : ℤ → ℤ → ℤ
min_ℤ a b = if ltb_ℤ b a then b else a

-- With these the operations can stay shut.
pub +ℤ_parts :
    (a b : ℤ)
    → pos_part (a +ℤ b) + neg_part a + neg_part b ≡ neg_part (a +ℤ b) + pos_part a + pos_part b
unfolding ◌+ℤ◌
+ℤ_parts a b = ground arith

pub -ℤ_parts :
    (a b : ℤ)
    → pos_part (a -ℤ b) + neg_part a + pos_part b ≡ neg_part (a -ℤ b) + pos_part a + neg_part b
unfolding ◌-ℤ◌
-ℤ_parts a b = ground arith

pub eq_of_parts : (a b : ℤ) → pos_part a + neg_part b ≡ pos_part b + neg_part a → a ≡ b
eq_of_parts a b h = ground arith

pub ruleset int_laws = (arith, +ℤ_parts, -ℤ_parts, eq_of_parts)

pub leb_ℤ-cases : (a b : ℤ) → (leb_ℤ a b ≡ true) × (a ≤ℤ b) ⊎ (leb_ℤ a b ≡ false) × (b <ℤ a)
leb_ℤ-cases a b = grind arith

-- A number that may be `Infinity`.
pub data Number : Type 0 where
  fin : ℤ → Number
  infinity : Number

abbrev pub is_infinite : Number → Bool
is_infinite (fin a) = false
is_infinite infinity = true

-- `a - b` and `a + b` for a finite `b`.
abbrev pub sub_number : Number → ℤ → Number
sub_number (fin a) b = fin (a -ℤ b)
sub_number infinity b = infinity

abbrev pub add_number : Number → ℤ → Number
add_number (fin a) b = fin (a +ℤ b)
add_number infinity b = infinity

abbrev pub min_number : Number → Number → Number
min_number (fin a) (fin b) = fin (min_ℤ a b)
min_number (fin a) infinity = fin a
min_number infinity b = b

abbrev pub max_number : Number → Number → Number
max_number (fin a) (fin b) = fin (max_ℤ a b)
max_number (fin a) infinity = infinity
max_number infinity b = infinity

infix 50 ◌≤number◌ ◌<number◌
abbrev pub ◌≤number◌ : Number → Number → Type 0
fin a ≤number fin b = a ≤ℤ b
fin a ≤number infinity = Unit
infinity ≤number fin b = ⊥
infinity ≤number infinity = Unit

-- To split on an order, with the test and the fact together.
pub ltb_ℤ-cases : (a b : ℤ) → (ltb_ℤ a b ≡ true) × (a <ℤ b) ⊎ (ltb_ℤ a b ≡ false) × (b ≤ℤ a)
ltb_ℤ-cases a b = grind arith

abbrev pub ◌<number◌ : Number → Number → Type 0
fin a <number fin b = a <ℤ b
fin a <number infinity = Unit
infinity <number b = ⊥
