-- ===== src/Buffer/Strings.antt =====
-- `SetString` and `GetString` of include/exodbc/ColumnBuffer.h.
use exodbc.Prelude.{
  ℕ, ◌≤◌, ◌<◌, ◌≡◌, refl, ap, ◌∙◌, inl, inr, Bool, true, false, not, ◌&&◌, none, some, List, [],
  ◌∷◌, ◌++◌, arith, leb, ◌==◌, if◌then◌else◌, length, length-append, is_empty,
}
use exodbc.Prelude.Texts.{Text}
use exodbc.Odbc.{
  ◌>>=◌, ◌>>◌, throw, when, Result, World, assertion, null_value, out_of_range, ok, raised,
}
use exodbc.Buffer.{is_null_data, sql_nts}
use exodbc.Buffer.Values.{
  last_of, set_elements, set_string, c_string, string_of, get_string, Memory,
}
use mathlib.Core.Path.{subst}
use exodbc.Buffer.Writing.{overwrite, memory, leb-true}
use exodbc.Buffer.Written.{ended_by, ended, has_end, Written, set_elements_outcome}

-- A string as C reads it: without a 0.
abbrev pub nul_free : List ℕ → Bool
nul_free [] = true
nul_free (x ∷ r) = not (x == 0) && nul_free r

c_string-overwrite :
    (s old : List ℕ)
    → nul_free s ≡ true
    → length s < length old
    → c_string (overwrite (s ++ (0 ∷ [])) old) ≡ some s
c_string-overwrite [] [] f l = absurd (ground (arith, l))
c_string-overwrite [] (y ∷ old) f l = refl
c_string-overwrite (x ∷ s) [] f l = absurd (ground (arith, l))
c_string-overwrite (x ∷ s) (y ∷ old) f l =
    ground (arith, f, c_string-overwrite s old (ground (arith, f)) (ground (arith, l)))

c_string-full :
    (s old : List ℕ) → nul_free s ≡ true → length s ≡ length old → c_string (overwrite s old) ≡ none
c_string-full [] [] f l = refl
c_string-full [] (y ∷ old) f l = absurd (ground (arith, l))
c_string-full (x ∷ s) [] f l = absurd (ground (arith, l))
c_string-full (x ∷ s) (y ∷ old) f l =
    ground (arith, f, c_string-full s old (ground (arith, f)) (ground (arith, l)))

-- The last of a string without 0 is not 0.
last-nul_free :
    (x : ℕ) (s : List ℕ)
    → nul_free (x ∷ s) ≡ true
    → (z : ℕ) × (last_of (x ∷ s) ≡ some z) × ((z == 0) ≡ false)
last-nul_free x [] f = (x, refl, ground (arith, f))
last-nul_free x (y ∷ s) f = last-nul_free y s (ground (arith, f))

unterminated_end :
    (s : List ℕ)
    → is_empty s ≡ false
    → nul_free s ≡ true
    → (has_end sql_nts (last_of s) ≡ true) × (ended sql_nts s ≡ s ++ (0 ∷ []))
unterminated_end [] i f = absurd (ground (arith, i))
unterminated_end (x ∷ s) i f =
    let (z, e, n) = last-nul_free x s f in
    (
      ap (has_end sql_nts) e,
      ap (λ o. ended_by sql_nts o (x ∷ s)) e ∙ ap (λ t. if t then x ∷ s else (x ∷ s) ++ (0 ∷ [])) n,
    )

set_string_outcome :
    (s : List ℕ) (w : World Memory)
    → length w.self.elements ≤ w.self.capacity
    → is_empty s ≡ false
    → nul_free s ≡ true
    → Written s sql_nts true (s ++ (0 ∷ [])) w.self w.trace (set_string s w)
unfolding set_string
set_string_outcome s w e i f =
    let (h, q) = unterminated_end s i f in
    subst (λ z. Written s sql_nts true z w.self w.trace (set_elements s sql_nts w)) q
      (subst (λ z. Written s sql_nts z (ended sql_nts s) w.self w.trace (set_elements s sql_nts w))
        h (set_elements_outcome s sql_nts w e))

get_string_lem :
    (w : World Memory)
    → is_null_data w.self.cb ≡ false
    → (get_string w).0 ≡ string_of w.self.elements
unfolding get_string
get_string_lem w n =
    ap (λ t. ((when t (throw null_value) >> (λ v. (string_of w.self.elements, v))) w).0) n

-- `GetString` after `SetString` gives the string, if it has no 0, is not empty, and is shorter than
-- the vector of the buffer, whose size is no greater than its capacity, as it is of every vector.
pub set_string-get_string :
    (s : List ℕ) (w : World Memory)
    → length w.self.elements ≤ w.self.capacity
    → is_empty s ≡ false
    → nul_free s ≡ true
    → length s < length w.self.elements
    → ((set_string s >>= λ a. get_string) w).0 ≡ ok s
set_string-get_string s w e i f l = elim (set_string_outcome s w e i f) [
  | inl (h, k, q) ↦
      ap
        (λ r.
          (elim r.0 as (λ x. Result Text × World Memory) [
            | ok a ↦ get_string r.1
            | raised x ↦ (raised x, r.1)
          ]).0)
        q
      ∙ get_string_lem
          (memory (overwrite (s ++ (0 ∷ [])) w.self.elements) w.self.capacity sql_nts w.trace) refl
      ∙ ap (λ o. elim o as (λ x. Result Text) [ none ↦ raised out_of_range | some t ↦ ok t ])
          (c_string-overwrite s w.self.elements f l)
  | inr (inl (k, q)) ↦ absurd (ground (arith, k, l, e, length-append s (0 ∷ [])))
  | inr (inr (q, inl h)) ↦ absurd (ground (arith, h))
  | inr (inr (q, inr (k, h))) ↦ absurd (ground (arith, k, l, length-append s (0 ∷ [])))
]

-- A string without 0 that is as long as the buffer and not empty, on a buffer that is not NULL and
-- whose vector has no more room than for its elements: `SetString` throws, but has overwritten the
-- buffer up to its end, and `GetString` then reads beyond it.
pub full_string_lost :
    (s : List ℕ) (w : World Memory)
    → w.self.capacity ≡ length w.self.elements
    → is_empty s ≡ false
    → nul_free s ≡ true
    → length s ≡ w.self.capacity
    → is_null_data w.self.cb ≡ false
    → ((set_string s w).0 ≡ raised assertion)
      × ((get_string (set_string s w).1).0 ≡ raised out_of_range)
full_string_lost s w e i f l n = elim (set_string_outcome s w (ground (arith, e)) i f) [
  | inl (h, k, q) ↦ absurd (ground (arith, k, l, e, length-append s (0 ∷ [])))
  | inr (inr (q, inl h)) ↦ absurd (ground (arith, h))
  | inr (inr (q, inr (k, h))) ↦ absurd (ground (arith, h, e))
  | inr (inl (k, q)) ↦ (
    ap (λ r. r.0) q,
    ap (λ r. (get_string r.1).0) q
        ∙ get_string_lem
            (memory
              (if leb (length s) w.self.capacity
                then overwrite s w.self.elements
                else w.self.elements)
              w.self.capacity w.self.cb w.trace)
            n
        ∙ ap (λ t. string_of (if t then overwrite s w.self.elements else w.self.elements))
            (leb-true (length s) w.self.capacity (ground (arith, l)))
        ∙ ap (λ o. elim o as (λ x. Result Text) [ none ↦ raised out_of_range | some t ↦ ok t ])
            (c_string-full s w.self.elements f (l ∙ e)),
  )
]
