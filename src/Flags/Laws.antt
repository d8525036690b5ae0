-- ===== src/Flags/Laws.antt =====
-- The flags of an `EnumFlags` behave as a set of its single bits.
use exodbc.Prelude.{ℕ, zero, suc, ◌<◌, ◌^◌, ◌≡◌, refl, Bool, true, not, ◌&&◌, ◌||◌, arith, ◌==◌}
use exodbc.Flags.{test, set, clear}

-- A test of the first numbers.
holds_for_first : (ℕ → Bool) → ℕ → Bool
holds_for_first q zero = true
holds_for_first q (suc k) = holds_for_first q k && q k

holds_for_first_lem : (q : ℕ → Bool) (k i : ℕ) → i < k → holds_for_first q k ≡ true → q i ≡ true
unfolding holds_for_first
holds_for_first_lem q zero i l e = absurd (omega arith)
holds_for_first_lem q (suc k) i l e = ground (arith, holds_for_first_lem q k i)

abbrev same : Bool → Bool → Bool
same true b = b
same _ b = not b

same_sound : (a b : Bool) → same a b ≡ true → a ≡ b
same_sound a b h = ground arith

-- A test over every value of eight bits and every pair of bits.
abbrev holds_for_all : (ℕ → ℕ → ℕ → Bool) → Bool
holds_for_all p =
    holds_for_first (λ m. holds_for_first (λ i. holds_for_first (λ j. p m i j) 8) 8) 256

holds_for_all_lem :
    (p : ℕ → ℕ → ℕ → Bool) (m i j : ℕ)
    → holds_for_all p ≡ true
    → m < 256
    → i < 8
    → j < 8
    → p m i j ≡ true
holds_for_all_lem p m i j e hm hi hj =
    let at_m = holds_for_first_lem _ 256 m hm e in
    let at_i = holds_for_first_lem _ 8 i hi at_m in holds_for_first_lem (λ j. p m i j) 8 j hj at_i

abbrev set_agrees : ℕ → ℕ → ℕ → Bool
set_agrees m i j = same (test (set m (2 ^ i)) (2 ^ j)) ((i == j) || test m (2 ^ j))

abbrev clear_agrees : ℕ → ℕ → ℕ → Bool
clear_agrees m i j = same (test (clear m (2 ^ i)) (2 ^ j)) (not (i == j) && test m (2 ^ j))

set_table : holds_for_all set_agrees ≡ true
unfolding holds_for_first test set
set_table = refl

clear_table : holds_for_all clear_agrees ≡ true
unfolding holds_for_first test clear
clear_table = refl

-- After `Set` of one of the eight flags that an enumeration of the program uses, `Test` holds of
-- that flag, and answers as before for each of the others.
test-set :
    (m i j : ℕ)
    → m < 256
    → i < 8
    → j < 8
    → test (set m (2 ^ i)) (2 ^ j) ≡ ((i == j) || test m (2 ^ j))
test-set m i j hm hi hj = same_sound _ _ (holds_for_all_lem set_agrees m i j set_table hm hi hj)

-- After `Clear` of one of the eight flags, `Test` fails on that flag, and answers as before for each
-- of the others.
test-clear :
    (m i j : ℕ)
    → m < 256
    → i < 8
    → j < 8
    → test (clear m (2 ^ i)) (2 ^ j) ≡ (not (i == j) && test m (2 ^ j))
test-clear m i j hm hi hj =
    same_sound _ _ (holds_for_all_lem clear_agrees m i j clear_table hm hi hj)
