-- ===== src/Buffer/Written.antt =====
-- What `SetValue` of a vector in include/exodbc/ColumnBuffer.h leaves in a buffer.
use exodbc.Prelude.{
  ℕ, suc, ◌≤◌, ◌<◌, ◌≡◌, refl, sym, ap, ◌∙◌, ◌⊎◌, inl, inr, Bool, true, false, not, Option, none,
  some, List, [], ◌∷◌, ◌++◌, arith, ltb, leb, ◌==◌, if◌then◌else◌, Bool-cases, length,
  length-append,
}
use exodbc.Odbc.{
  Action, ◌>>=◌, ◌>>◌, get, modify, ex_assert, when, Event, Result, World, assertion, out_of_range,
  ok, raised,
}
use exodbc.Buffer.{LengthIndicator, sql_null_data, sql_nts, sql_len}
use exodbc.Buffer.Values.{
  last_of, replace_at, put_elements, write_at, write_all, terminate, set_elements, Memory,
}
use mathlib.Core.Path.{subst}
use exodbc.Buffer.Writing.{
  overwrite, memory, leb-true, snoc, write_at_lem, replace_at-overwrite, set_elements_lem,
}

-- What `SetValue` is to put at the beginning of the buffer: with SQL_NTS, a 0 is added to a value that
-- does not end in one. The last element of the value is given.
abbrev pub ended_by : LengthIndicator → Option ℕ → List ℕ → List ℕ
ended_by sql_nts (some x) v = if x == 0 then v else v ++ (0 ∷ [])
ended_by c o v = v

abbrev pub ended : LengthIndicator → List ℕ → List ℕ
ended c v = ended_by c (last_of v) v

-- An empty value has no last element, which is read with SQL_NTS.
abbrev pub has_end : LengthIndicator → Option ℕ → Bool
has_end sql_nts none = false
has_end c o = true

-- A value that is longer than the vector is written up to its end, and beyond.
replace_at-full : (pre : List ℕ) (x : ℕ) → replace_at (length pre) x (pre ++ []) ≡ none
replace_at-full [] x = refl
replace_at-full (y ∷ pre) x = ground (arith, replace_at-full pre x)

write_all-beyond :
    (v pre old : List ℕ) (n : ℕ) (b : LengthIndicator) (tr : List Event)
    → length old < length v
    → (write_all v (length pre) (memory (pre ++ old) n b tr)).0 ≡ raised out_of_range
unfolding write_all write_at
write_all-beyond [] pre old n b tr l = absurd (ground (arith, l))
write_all-beyond (x ∷ v) pre [] n b tr l =
    ap
      (λ z.
        (elim (put_elements z (memory (pre ++ []) n b tr)).0 as (λ q. Result ℕ × World Memory) [
          | ok a ↦ write_all v (suc (length pre)) (put_elements z (memory (pre ++ []) n b tr)).1
          | raised e ↦ (raised e, (put_elements z (memory (pre ++ []) n b tr)).1)
        ]).0)
      (replace_at-full pre x)
write_all-beyond (x ∷ v) pre (y ∷ old) n b tr l =
    let next = pre ++ (x ∷ []) in
    ap
      (λ z.
        (elim z.0 as (λ q. Result ℕ × World Memory) [
          | ok a ↦ write_all v (suc (length pre)) z.1
          | raised e ↦ (raised e, z.1)
        ]).0)
      (write_at_lem pre x y old n b tr)
    ∙ ap (λ i. (write_all v i (memory (pre ++ (x ∷ old)) n b tr)).0)
        (omega (arith, length-append pre (x ∷ [])))
    ∙ ap (λ z. (write_all v (length next) (memory z n b tr)).0) (sym (snoc pre x old))
    ∙ write_all-beyond v next old n b tr (ground (arith, l))

replace_at-beyond :
    (v old : List ℕ) → length old ≤ length v → replace_at (length v) 0 (overwrite v old) ≡ none
replace_at-beyond [] [] l = refl
replace_at-beyond [] (y ∷ old) l = absurd (ground (arith, l))
replace_at-beyond (x ∷ v) [] l = refl
replace_at-beyond (x ∷ v) (y ∷ old) l = ground (arith, replace_at-beyond v old (ground (arith, l)))

-- How a call may end, where `e` is all that is to be written and `h` says whether the value has an
-- end to look at. All fits into the vector, and is written. Or it does not fit into the capacity: the
-- call throws, and what of the value itself fits has been written. Or the call reads or writes
-- outside a vector: for want of an end, or since the vector has room for more than its elements.
abbrev pub Written :
    List ℕ
    → LengthIndicator
    → Bool
    → List ℕ
    → Memory
    → List Event
    → Result (Unit {0}) × World Memory
    → Type 0
Written v c h e m tr r =
    ((h ≡ true)
      × (length e ≤ length m.elements)
      × (r ≡ (ok tt, memory (overwrite e m.elements) m.capacity c tr)))
    ⊎ (((m.capacity < length e)
          × (r ≡ (
            raised assertion,
            memory (if leb (length v) m.capacity then overwrite v m.elements else m.elements)
                m.capacity m.cb tr,
          )))
        ⊎ ((r.0 ≡ raised out_of_range)
            × ((h ≡ false) ⊎ ((length m.elements < length e) × (length m.elements < m.capacity)))))

-- The end of `SetValue`, after the value.
abbrev conclude : LengthIndicator → Action Memory (Unit {0}) → Action Memory (Unit {0})
conclude c m = m >> modify (λ s. record s { cb = c })

abbrev add_zero : ℕ → Action Memory (Unit {0})
add_zero i = do s ← get; ex_assert (ltb i s.capacity); write_at i 0

module _ (v : List ℕ) (m : Memory) (events : List Event) where
  -- The memory after the value has been written.
  abbrev after_value : World Memory
  after_value = memory (overwrite v m.elements) m.capacity m.cb events

  asserted :
      (room : Bool)
      → ltb (length v) m.capacity ≡ room
      → conclude sql_nts (add_zero (length v)) after_value
        ≡ conclude sql_nts
            (λ w.
              elim (if room then ok tt else raised assertion)
                as (λ z. Result (Unit {0}) × World Memory) [
                  | ok a ↦ write_at (length v) 0 w
                  | raised x ↦ (raised x, w)
                ])
            after_value
  asserted room r =
      ap
        (λ t.
          conclude sql_nts
            (λ w.
              elim (if t then ok tt else raised assertion)
                as (λ z. Result (Unit {0}) × World Memory) [
                  | ok a ↦ write_at (length v) 0 w
                  | raised x ↦ (raised x, w)
                ])
            after_value)
        r

  -- With and without room for the 0.
  zero_outcome :
      (room inside : Bool)
      → ltb (length v) m.capacity ≡ room
      → ltb (length v) (length m.elements) ≡ inside
      → length v ≤ length m.elements
      → length m.elements ≤ m.capacity
      → Written v sql_nts true
          (v ++ (0 ∷ []))
          m
          events
          (conclude sql_nts (add_zero (length v)) after_value)
  unfolding write_at
  zero_outcome true true r i l e = inl (
    refl,
    ground (arith, i, length-append v (0 ∷ [])),
    asserted true r
        ∙ ap (λ z. conclude sql_nts (put_elements z) after_value)
            (replace_at-overwrite v m.elements (ground (arith, i))),
  )
  zero_outcome true false r i l e = inr (
      inr (
        ap (λ z. z.0) (asserted true r)
            ∙ ap (λ z. (conclude sql_nts (put_elements z) after_value).0)
                (replace_at-beyond v m.elements (ground (arith, i))),
        inr (ground (arith, i, length-append v (0 ∷ [])), ground (arith, r, i, l)),
      ))
  zero_outcome false inside r i l e = inr (
      inl (
        ground (arith, r, length-append v (0 ∷ [])),
        asserted false r
            ∙ ap
                (λ t. (
                  raised assertion,
                  memory (if t then overwrite v m.elements else m.elements) m.capacity m.cb events,
                ))
                (sym (leb-true (length v) m.capacity (ground (arith, l, e)))),
      ))

  last_outcome :
      (is_zero : Bool)
      → length v ≤ length m.elements
      → length m.elements ≤ m.capacity
      → Written v sql_nts true
          (if is_zero then v else v ++ (0 ∷ []))
          m
          events
          (conclude sql_nts (when (not is_zero) (add_zero (length v))) after_value)
  last_outcome true l e = inl (refl, l, refl)
  last_outcome false l e =
      zero_outcome (ltb (length v) m.capacity) (ltb (length v) (length m.elements)) refl refl l e

  finish_outcome :
      (c : LengthIndicator) (o : Option ℕ)
      → length v ≤ length m.elements
      → length m.elements ≤ m.capacity
      → Written v c
          (has_end c o)
          (ended_by c o v)
          m
          events
          (conclude c (terminate c o (length v)) after_value)
  unfolding terminate
  finish_outcome sql_nts none l e = inr (inr (refl, inl refl))
  finish_outcome sql_nts (some x) l e = last_outcome (x == 0) l e
  finish_outcome sql_null_data o l e = inl (refl, l, refl)
  finish_outcome (sql_len k) o l e = inl (refl, l, refl)

-- A value that is longer than the buffer is refused before anything is written.
refused :
    (v : List ℕ) (c : LengthIndicator) (w : World Memory)
    → leb (length v) w.self.capacity ≡ false
    → set_elements v c w ≡ (raised assertion, w)
unfolding set_elements
refused v c w f =
    ap
      (λ t.
        elim (if t then ok tt else raised assertion) as (λ z. Result (Unit {0}) × World Memory) [
          | ok a ↦
              (write_all v 0
                  >>= (λ i. terminate c (last_of v) i >> modify (λ s. record s { cb = c })))
                w
          | raised e ↦ (raised e, w)
        ])
      f

length-ended :
    (c : LengthIndicator) (o : Option ℕ) (v : List ℕ) → length v ≤ length (ended_by c o v)
length-ended sql_nts none v = omega arith
length-ended sql_nts (some x) v = ground (arith, length-append v (0 ∷ []))
length-ended sql_null_data o v = omega arith
length-ended (sql_len n) o v = omega arith

-- A value that is longer than the vector, but not than its capacity.
beyond :
    (v : List ℕ) (c : LengthIndicator) (w : World Memory)
    → length v ≤ w.self.capacity
    → length w.self.elements < length v
    → (set_elements v c w).0 ≡ raised out_of_range
unfolding set_elements
beyond v c w k l =
    let finish : ℕ → Action Memory (Unit {0}) =
      λ i. terminate c (last_of v) i >> modify (λ s. record s { cb = c }) in
    ap
      (λ t.
        (elim (if t then ok tt else raised assertion) as (λ z. Result (Unit {0}) × World Memory) [
          | ok a ↦ (write_all v 0 >>= finish) w
          | raised e ↦ (raised e, w)
        ]).0)
      (leb-true (length v) w.self.capacity k)
    ∙ ap
        (λ z.
          (elim z as (λ q. Result (Unit {0}) × World Memory) [
            | ok i ↦ finish i (write_all v 0 w).1
            | raised e ↦ (raised e, (write_all v 0 w).1)
          ]).0)
        (write_all-beyond v [] w.self.elements w.self.capacity w.self.cb w.trace l)

-- `SetValue` of a vector, whose size is no greater than its capacity, as it is of every vector. If
-- it returns, the value, with the 0 that is added to it with SQL_NTS, fits into the vector and
-- stands at its beginning, what was behind it is kept, and the length indicator is the given one.
-- If it fails an assertion, the value with this 0 is longer than the capacity of the vector, and
-- the length indicator is kept; then the elements are kept if the value does not fit, but the value
-- has been written if just the 0 does not. It reads or writes outside a vector only for an empty
-- value with SQL_NTS, or if the capacity of the vector is greater than its size and the value with
-- this 0 does not fit into the size.
pub set_elements_outcome :
    (v : List ℕ) (c : LengthIndicator) (w : World Memory)
    → length w.self.elements ≤ w.self.capacity
    → Written v c (has_end c (last_of v)) (ended c v) w.self w.trace (set_elements v c w)
set_elements_outcome v c w e = elim (Bool-cases (leb (length v) w.self.capacity)) [
  | inr f ↦ inr (
      inl (
        ground (arith, f, length-ended c (last_of v) v),
        refused v c w f
            ∙ ap
                (λ t. (
                  raised assertion,
                  memory (if t then overwrite v w.self.elements else w.self.elements)
                      w.self.capacity w.self.cb w.trace,
                ))
                (sym f),
      ))
  | inl t ↦ elim (Bool-cases (leb (length v) (length w.self.elements))) [
    | inl i ↦
        let l : length v ≤ length w.self.elements = ground (arith, i) in
        subst (Written v c (has_end c (last_of v)) (ended c v) w.self w.trace)
          (sym (
            set_elements_lem v w.self.elements w.self.capacity w.self.cb c w.trace l
              (ground (arith, t))))
          (finish_outcome v w.self w.trace c (last_of v) l e)
    | inr o ↦ inr (
        inr (
          beyond v c w (ground (arith, t)) (ground (arith, o)),
          inr (ground (arith, o, length-ended c (last_of v) v), ground (arith, o, t)),
        ))
  ]
]
