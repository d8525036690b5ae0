-- ===== src/Buffer/Writing.antt =====
-- The steps of `SetValue` of a vector in include/exodbc/ColumnBuffer.h: the elements one by one, and
-- the 0 behind them.
use exodbc.Prelude.{
  ℕ, suc, ◌+◌, ◌≤◌, ◌<◌, ◌≡◌, refl, sym, ap, ◌∙◌, true, some, List, [], ◌∷◌, ◌++◌, arith, leb,
  if◌then◌else◌, length, length-append,
}
use exodbc.Odbc.{Action, ◌>>=◌, ◌>>◌, modify, Event, Result, World, assertion, ok, raised}
use exodbc.Buffer.{LengthIndicator}
use exodbc.Buffer.Values.{
  last_of, replace_at, put_elements, write_at, write_all, terminate, set_elements, Memory,
}

-- The elements of a value, and behind them those that were there.
abbrev pub overwrite : List ℕ → List ℕ → List ℕ
overwrite [] old = old
overwrite (x ∷ r) [] = []
overwrite (x ∷ r) (y ∷ old) = x ∷ overwrite r old

abbrev pub memory : List ℕ → ℕ → LengthIndicator → List Event → World Memory
memory xs n b tr = record { self = record { elements = xs; capacity = n; cb = b }; trace = tr }

pub leb-true : (m n : ℕ) → m ≤ n → leb m n ≡ true
leb-true m n l = ground (arith, l)

replace_at-append :
    (pre : List ℕ) (x y : ℕ) (r : List ℕ)
    → replace_at (length pre) x (pre ++ (y ∷ r)) ≡ some (pre ++ (x ∷ r))
replace_at-append [] x y r = refl
replace_at-append (z ∷ pre) x y r = ground (arith, replace_at-append pre x y r)

pub snoc : (pre : List ℕ) (x : ℕ) (r : List ℕ) → (pre ++ (x ∷ [])) ++ r ≡ pre ++ (x ∷ r)
snoc [] x r = refl
snoc (y ∷ pre) x r = ap (λ z. y ∷ z) (snoc pre x r)

pub write_at_lem :
    (pre : List ℕ) (x y : ℕ) (r : List ℕ) (n : ℕ) (b : LengthIndicator) (tr : List Event)
    → write_at (length pre) x (memory (pre ++ (y ∷ r)) n b tr)
      ≡ (ok tt, memory (pre ++ (x ∷ r)) n b tr)
unfolding write_at
write_at_lem pre x y r n b tr =
    ap (λ z. put_elements z (memory (pre ++ (y ∷ r)) n b tr)) (replace_at-append pre x y r)

write_all_lem :
    (v pre old : List ℕ) (n : ℕ) (b : LengthIndicator) (tr : List Event)
    → length v ≤ length old
    → write_all v (length pre) (memory (pre ++ old) n b tr)
      ≡ (ok (length v + length pre), memory (pre ++ overwrite v old) n b tr)
unfolding write_all
write_all_lem [] pre old n b tr l = ap (λ i. (ok i, memory (pre ++ old) n b tr)) (omega arith)
write_all_lem (x ∷ v) pre [] n b tr l = absurd (ground (arith, l))
write_all_lem (x ∷ v) pre (y ∷ old) n b tr l =
    let next = pre ++ (x ∷ []) in
    ap
      (λ z. elim z.0 as (λ q. Result ℕ × World Memory) [
        | ok a ↦ write_all v (suc (length pre)) z.1
        | raised e ↦ (raised e, z.1)
      ])
      (write_at_lem pre x y old n b tr)
    ∙ ap (λ i. write_all v i (memory (pre ++ (x ∷ old)) n b tr))
        (omega (arith, length-append pre (x ∷ [])))
    ∙ ap (λ z. write_all v (length next) (memory z n b tr)) (sym (snoc pre x old))
    ∙ write_all_lem v next old n b tr (ground (arith, l))
    ∙ ap (λ i. (ok i, memory (next ++ overwrite v old) n b tr))
        (omega (arith, length-append pre (x ∷ [])))
    ∙ ap (λ z. (ok (length (x ∷ v) + length pre), memory z n b tr)) (snoc pre x (overwrite v old))

length-overwrite : (v old : List ℕ) → length v ≤ length old → length (overwrite v old) ≡ length old
length-overwrite [] old l = refl
length-overwrite (x ∷ v) [] l = absurd (ground (arith, l))
length-overwrite (x ∷ v) (y ∷ old) l = ground (arith, l, length-overwrite v old (ground (arith, l)))

-- A 0 behind the value.
pub replace_at-overwrite :
    (v old : List ℕ)
    → length v < length old
    → replace_at (length v) 0 (overwrite v old) ≡ some (overwrite (v ++ (0 ∷ [])) old)
replace_at-overwrite [] [] l = absurd (ground (arith, l))
replace_at-overwrite [] (y ∷ old) l = refl
replace_at-overwrite (x ∷ v) [] l = absurd (ground (arith, l))
replace_at-overwrite (x ∷ v) (y ∷ old) l =
    ground (arith, l, replace_at-overwrite v old (ground (arith, l)))

-- The steps of `SetValue` on a value that has room.
pub set_elements_lem :
    (v xs : List ℕ) (n : ℕ) (b c : LengthIndicator) (tr : List Event)
    → length v ≤ length xs
    → length v ≤ n
    → set_elements v c (memory xs n b tr) ≡ (
        let r = terminate c (last_of v) (length v) (memory (overwrite v xs) n b tr) in
        elim r.0 as (λ z. Result (Unit {0}) × World Memory) [
          | ok a ↦ (ok tt, record r.1 { self = record (r.1.self) { cb = c } })
          | raised e ↦ (raised e, r.1)
        ])
unfolding set_elements
set_elements_lem v xs n b c tr l k =
    let same_index : length v + 0 ≡ length v = omega arith in
    let finish : ℕ → Action Memory (Unit {0}) =
      λ i. terminate c (last_of v) i >> modify (λ s. record s { cb = c }) in
    ap
      (λ t.
        elim (if t then ok tt else raised assertion) as (λ z. Result (Unit {0}) × World Memory) [
          | ok a ↦ (write_all v 0 >>= finish) (memory xs n b tr)
          | raised e ↦ (raised e, memory xs n b tr)
        ])
      (leb-true (length v) n k)
    ∙ ap
        (λ z. elim z.0 as (λ q. Result (Unit {0}) × World Memory) [
          | ok i ↦ finish i z.1
          | raised e ↦ (raised e, z.1)
        ])
        (write_all_lem v [] xs n b tr l)
    ∙ ap (λ i. finish i (memory (overwrite v xs) n b tr)) same_index
