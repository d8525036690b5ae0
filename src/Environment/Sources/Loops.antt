-- ===== src/Environment/Sources/Loops.antt =====
-- The loops of `ListDataSources` in src/Environment.cpp with a driver manager that lists sources.
use exodbc.Prelude.{
  ℕ, zero, suc, ◌-◌, ◌≤◌, ◌<◌, ◌≡◌, refl, ap, ◌∙◌, Bool, true, false, not, Option, none, some, List,
  [], ◌∷◌, arith, if◌then◌else◌, length, all,
}
use exodbc.Prelude.Texts.{Text}
use exodbc.Odbc.{
  succeeded, is_no_data, Driver, sql_result_without_handle, Action, ◌>>=◌, ◌>>◌, pure, throw, when,
  branch, Direction, Reply, Event, Result, World, no_data, fetch_first, fetch_first_system,
  fetch_first_user, fetch_next, sql_data_sources, called, ok, raised,
}
use exodbc.Environment.{Environment}
use exodbc.Environment.Sources.{
  longer, source_of, put_source, expect_no_data, measure, collect, DataSource,
}

abbrev same_direction : Direction → Direction → Bool
same_direction fetch_first fetch_first = true
same_direction fetch_first_system fetch_first_system = true
same_direction fetch_first_user fetch_first_user = true
same_direction _ _ = false

abbrev pub first_bytes : ℕ → Text → Text
first_bytes zero s = []
first_bytes (suc n) [] = []
first_bytes (suc n) (c ∷ s) = c ∷ first_bytes n s

abbrev pub rest_of : List DataSource → List DataSource
rest_of [] = []
rest_of (s ∷ r) = r

abbrev pub head_of : List DataSource → Option DataSource
head_of [] = none
head_of (s ∷ r) = some s

abbrev rest_if : Option (List DataSource) → Option (List DataSource)
rest_if none = none
rest_if (some r) = some (rest_of r)

-- What is still to be listed of the sources `all`, if they were asked for last.
abbrev after_call :
    Direction → List DataSource → Direction → Option (List DataSource) → Option (List DataSource)
after_call asked all fetch_next r = rest_if r
after_call asked all begin r = if same_direction begin asked then some (rest_of all) else none

abbrev pub left : Direction → List DataSource → List Event → Option (List DataSource)
left asked all [] = none
left asked all (called (sql_data_sources h direction n) ∷ events) =
    after_call asked all direction (left asked all events)
left asked all (e ∷ events) = left asked all events

-- A reply for this source, with a buffer of this size for its description.
abbrev pub Answers : Option DataSource → ℕ → Reply → Type 0
Answers none n r = r.ret ≡ no_data
Answers (some s) n r =
    (succeeded r.ret ≡ true)
    × (r.text ≡ s.dsn)
    × (r.description ≡ first_bytes (n - 1) s.description)
    × (r.out ≡ some (length s.description))

-- A driver manager that answers SQLDataSources with these sources in their order, when it is asked for
-- them in this direction, as the documents of ODBC say: it cuts a description at the size of the buffer, of
-- which it needs one for the terminating 0, and writes how long the description is.
pub record Lists (d : Driver) (asked : Direction) (all : List DataSource) : Type 0 where
  pub begins :
      (events : List Event) (h : Option ℕ) (n : ℕ)
      → Answers (head_of all) n (d events (sql_data_sources h asked n))
  pub goes_on :
      (events : List Event) (h : Option ℕ) (n : ℕ) (r : List DataSource)
      → left asked all events ≡ some r
      → Answers (head_of r) n (d events (sql_data_sources h fetch_next n))

-- No description is longer.
abbrev pub Fits : ℕ → List DataSource → Type 0
Fits n [] = Unit
Fits n (s ∷ r) = (length s.description ≤ n) × Fits n r

first_bytes-all : (n : ℕ) (s : Text) → length s ≤ n → first_bytes n s ≡ s
first_bytes-all zero [] l = refl
first_bytes-all zero (c ∷ s) l = absurd (ground (arith, l))
first_bytes-all (suc n) [] l = refl
first_bytes-all (suc n) (c ∷ s) l = ap (λ t. c ∷ t) (first_bytes-all n s (ground (arith, l)))

source_of-Answers :
    (s : DataSource) (n : ℕ) (r : Reply)
    → Answers (some s) (suc n) r
    → length s.description ≤ n
    → source_of r ≡ s
source_of-Answers s n r (ok_ret, name, text, size) l =
    let one_less : suc n - 1 ≡ n = omega arith in
    ap (λ t. record { dsn = t; description = r.description }) name
    ∙ ap (λ t. record { dsn = s.dsn; description = t })
        (text ∙ ap (λ m. first_bytes m s.description) one_less ∙ first_bytes-all n s.description l)

longer-bounds : (o : Option ℕ) (k n : ℕ) → o ≡ some k → (n ≤ longer o n) × (k ≤ longer o n)
longer-bounds none k n e = absurd (ground (arith, e))
longer-bounds (some m) k n e = ground (arith, e)

put_result :
    (p : Reply) (o : Result (Option (List DataSource))) (w : World Environment)
    (r : List DataSource)
    → o ≡ ok (some r)
    → (elim o as (λ z. Result (Option (List DataSource)) × World Environment) [
      | ok rest ↦ (ok (put_source (source_of p) rest), w)
      | raised e ↦ (raised e, w)
    ]).0
      ≡ ok (some (source_of p ∷ r))
put_result p o w r e =
    ap
      (λ t.
        (elim t as (λ z. Result (Option (List DataSource)) × World Environment) [
          | ok rest ↦ (ok (put_source (source_of p) rest), w)
          | raised x ↦ (raised x, w)
        ]).0)
      e

-- How the loops end and go on.
ending :
    {A : Type 0} (d : Driver) (h : Option ℕ) (r : Reply) (m k : Action Environment A)
    (w : World Environment)
    → r.ret ≡ no_data
    → branch (succeeded r.ret) m (expect_no_data d h r >> k) w ≡ k w
ending d h r m k w e =
    ap
      (λ t.
        branch (succeeded t) m
          (when (not (is_no_data t)) (throw (sql_result_without_handle t)) >> k) w)
      e

going :
    {A : Type 0} (r : Reply) (m k : Action Environment A) (w : World Environment)
    → succeeded r.ret ≡ true
    → branch (succeeded r.ret) m k w ≡ m w
going r m k w e = ap (λ t. branch t m k w) e

module _ (d : Driver) (h : Option ℕ) (asked : Direction) (all : List DataSource)
    (l : Lists d asked all) where
  next : ℕ → World Environment → World Environment
  next n w = record w { trace = called (sql_data_sources h fetch_next n) ∷ w.trace }

  left-next :
      (n : ℕ) (w : World Environment) (s : DataSource) (r : List DataSource)
      → left asked all w.trace ≡ some (s ∷ r)
      → left asked all (next n w).trace ≡ some r
  unfolding next
  left-next n w s r e = ap rest_if e

  -- The first loop finds the longest description.
  pub measure_lem :
      (s : DataSource) (r : List DataSource) (fuel longest : ℕ) (p : Reply) (w : World Environment)
      → Answers (some s) 0 p
      → left asked all w.trace ≡ some r
      → length r < fuel
      → (m : ℕ) × (v : World Environment) × (measure d h fuel longest p w ≡ (ok (some m), v))
        × (longest ≤ m)
        × Fits m (s ∷ r)
        × (v.self ≡ w.self)
  unfolding measure next
  measure_lem s r zero longest p w q e k = absurd (ground (arith, k))
  measure_lem s [] (suc fuel) longest p w q e k =
      let (_, _, _, size) = q in
      let (before, own) = longer-bounds p.out (length s.description) longest size in
      let m = longer p.out longest in
      let r = d w.trace (sql_data_sources h fetch_next 0) in
      (
        m,
        next 0 w,
        ending d h r (measure d h fuel m r) (pure (some m)) (next 0 w) (l.goes_on w.trace h 0 [] e),
        before,
        (own, tt),
        refl,
      )
  measure_lem s (x ∷ r) (suc fuel) longest p w q e k =
      let (_, _, _, size) = q in
      let (before, own) = longer-bounds p.out (length s.description) longest size in
      let n = longer p.out longest in
      let p' = d w.trace (sql_data_sources h fetch_next 0) in
      let found = l.goes_on w.trace h 0 (x ∷ r) e in
      let (m, v, same, le, fits, kept) =
        measure_lem x r fuel n p' (next 0 w) found (left-next 0 w x r e) (ground (arith, k)) in
      (
        m,
        v,
        going p' (measure d h fuel n p') (expect_no_data d h p' >> pure (some n)) (next 0 w) found.0
            ∙ same,
        ground (arith, before, le),
        (ground (arith, own, le), fits),
        kept,
      )

  pub collect_lem :
      (s : DataSource) (r : List DataSource) (fuel size : ℕ) (p : Reply) (w : World Environment)
      → Answers (some s) (suc size) p
      → left asked all w.trace ≡ some r
      → length r < fuel
      → Fits size (s ∷ r)
      → (collect d h (suc size) fuel p w).0 ≡ ok (some (s ∷ r))
  unfolding collect next
  collect_lem s r zero size p w q e k f = absurd (ground (arith, k))
  collect_lem s [] (suc fuel) size p w q e k f =
      let r = d w.trace (sql_data_sources h fetch_next (suc size)) in
      ap (λ z. z.0)
        (ending d h r
          (collect d h (suc size) fuel r >>= λ rest. pure (put_source (source_of p) rest))
          (pure (some (source_of p ∷ []))) (next (suc size) w)
          (l.goes_on w.trace h (suc size) [] e))
      ∙ ap (λ z. ok (some (z ∷ []))) (source_of-Answers s size p q f.0)
  collect_lem s (x ∷ r) (suc fuel) size p w q e k f =
      let p' = d w.trace (sql_data_sources h fetch_next (suc size)) in
      let found = l.goes_on w.trace h (suc size) (x ∷ r) e in
      let v = next (suc size) w in
      ap (λ z. z.0)
        (going p' (collect d h (suc size) fuel p' >>= λ rest. pure (put_source (source_of p) rest))
          (expect_no_data d h p' >> pure (some (source_of p ∷ []))) v found.0)
      ∙ put_result p (collect d h (suc size) fuel p' v).0 (collect d h (suc size) fuel p' v).1
          (x ∷ r)
          (collect_lem x r fuel size p' v found (left-next (suc size) w x r e) (ground (arith, k))
            f.1)
      ∙ ap (λ z. ok (some (z ∷ x ∷ r))) (source_of-Answers s size p q f.0)
