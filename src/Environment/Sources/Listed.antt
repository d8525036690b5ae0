-- ===== src/Environment/Sources/Listed.antt =====
-- `ListDataSources` of src/Environment.cpp lists all data sources of the driver manager.
use exodbc.Prelude.{
  ℕ, suc, ◌≤◌, ◌<◌, ◌≡◌, refl, ap, ◌∙◌, true, false, Option, some, List, [], ◌∷◌, arith,
  if◌then◌else◌, is_some, length, all,
}
use exodbc.Prelude.Texts.{}
use exodbc.Odbc.{
  succeeded, is_no_data, Driver, sql_result_without_handle, Action, ◌>>=◌, ◌>>◌, pure, throw, when,
  branch, throw_ifn_succeeded, Reply, Event, Result, World, sql_data_sources, called, assertion,
  sql_result, ok, raised,
}
use exodbc.Environment.{Environment}
use exodbc.Environment.Sources.{
  first_direction, measure, collect, describe, list_data_sources, ListMode, DataSource, all_sources,
  system_sources, user_sources,
}
use mathlib.Core.Path.{}
use exodbc.Environment.Sources.Loops.{rest_of, left, Fits, measure_lem, collect_lem, Lists}

-- The sources are asked for again in the second pass.
left_first :
    (mode : ListMode) (all : List DataSource) (h : Option ℕ) (n : ℕ) (events : List Event)
    → left
        (first_direction mode)
        all
        (called (sql_data_sources h (first_direction mode) n) ∷ events)
      ≡ some (rest_of all)
left_first all_sources all h n events = refl
left_first system_sources all h n events = refl
left_first user_sources all h n events = refl

is_found : (r : Reply) → succeeded r.ret ≡ true → is_no_data r.ret ≡ false
is_found r e = ground (arith, e)

module _ (d : Driver) (mode : ListMode) where
  described :
      (s : DataSource) (r : List DataSource) (fuel m : ℕ) (h : Option ℕ) (w : World Environment)
      → Lists d (first_direction mode) (s ∷ r)
      → length r < fuel
      → Fits m (s ∷ r)
      → (describe d h (first_direction mode) fuel (some m) w).0 ≡ ok (some (s ∷ r))
  unfolding describe
  described s r fuel m h w l k f =
      let p = d w.trace (sql_data_sources h (first_direction mode) (suc m)) in
      let v : World Environment = record w {
        trace = called (sql_data_sources h (first_direction mode) (suc m)) ∷ w.trace;
      } in
      let found = l.begins w.trace h (suc m) in
      ap
        (λ t.
          ((when t (throw (sql_result_without_handle p.ret)) >> collect d h (suc m) fuel p) v).0)
        (is_found p found.0)
      ∙ collect_lem d h (first_direction mode) (s ∷ r) l s r fuel m p v found
          (left_first mode (s ∷ r) h (suc m) w.trace) k f

  -- What is done with the first reply.
  listed : ℕ → Option ℕ → Reply → Action Environment (Option (List DataSource))
  listed fuel h p = branch (is_no_data p.ret) (pure (some [])) (
      throw_ifn_succeeded p
      >> (measure d h fuel 0 p >>= λ m. describe d h (first_direction mode) fuel m))

  -- The first reply, and the world in which it was given.
  first_reply : World Environment → Reply
  first_reply w = d w.trace (sql_data_sources w.self.h_env.handle (first_direction mode) 0)

  asked_first : World Environment → World Environment
  asked_first w = record w {
    trace = called (sql_data_sources w.self.h_env.handle (first_direction mode) 0) ∷ w.trace;
  }

  listed_lem :
      (fuel : ℕ) (w : World Environment)
      → is_some w.self.h_env.handle ≡ true
      → list_data_sources d fuel mode w
        ≡ listed fuel w.self.h_env.handle (first_reply w) (asked_first w)
  unfolding list_data_sources listed first_reply asked_first
  listed_lem fuel w a =
      ap
        (λ t.
          elim (if t then ok tt else raised assertion)
            as (λ z. Result (Option (List DataSource)) × World Environment) [
              | ok z ↦ listed fuel w.self.h_env.handle (first_reply w) (asked_first w)
              | raised e ↦ (raised e, w)
            ])
        a

  -- The first reply names a source.
  listed_found :
      (fuel : ℕ) (h : Option ℕ) (p : Reply) (w : World Environment)
      → succeeded p.ret ≡ true
      → listed fuel h p w
        ≡ (measure d h fuel 0 p >>= λ m. describe d h (first_direction mode) fuel m) w
  unfolding listed
  listed_found fuel h p w e =
      ap
        (λ t.
          branch t (pure (some []))
            (throw_ifn_succeeded p
              >> (measure d h fuel 0 p >>= λ m. describe d h (first_direction mode) fuel m))
            w)
        (is_found p e)
      ∙ ap
          (λ t.
            elim (if t then ok tt else raised (sql_result p.ret p.diag))
              as (λ z. Result (Option (List DataSource)) × World Environment) [
                | ok z ↦
                    (measure d h fuel 0 p >>= λ m. describe d h (first_direction mode) fuel m) w
                | raised x ↦ (raised x, w)
              ])
          e

  -- With a driver manager that has these data sources, `ListDataSources` of an allocated environment
  -- returns just these, in their order, each with its whole description, if the fuel of the loops is
  -- their number at least.
  pub list_data_sources-all :
      (all : List DataSource) (fuel : ℕ) (w : World Environment)
      → Lists d (first_direction mode) all
      → is_some w.self.h_env.handle ≡ true
      → length all ≤ fuel
      → (list_data_sources d fuel mode w).0 ≡ ok (some all)
  unfolding listed first_reply asked_first
  list_data_sources-all [] fuel w l a k =
      let none_there = l.begins w.trace w.self.h_env.handle 0 in
      ap (λ z. z.0) (listed_lem fuel w a)
      ∙ ap
          (λ t.
            (branch (is_no_data t) (pure (some []))
              (throw_ifn_succeeded (first_reply w)
                >> (measure d w.self.h_env.handle fuel 0 (first_reply w) >>= λ m.
                    describe d w.self.h_env.handle (first_direction mode) fuel m))
              (asked_first w)).0)
          none_there
  list_data_sources-all (s ∷ r) fuel w l a k =
      let h = w.self.h_env.handle in
      let p = first_reply w in
      let found = l.begins w.trace h 0 in
      let (m, v, same, le, fits, kept) =
        measure_lem d h (first_direction mode) (s ∷ r) l s r fuel 0 p (asked_first w) found
          (left_first mode (s ∷ r) h 0 w.trace) (ground (arith, k)) in
      ap (λ z. z.0) (listed_lem fuel w a ∙ listed_found fuel h p (asked_first w) found.0)
      ∙ ap
          (λ z.
            (elim z.0 as (λ x. Result (Option (List DataSource)) × World Environment) [
              | ok x ↦ describe d h (first_direction mode) fuel x z.1
              | raised e ↦ (raised e, z.1)
            ]).0)
          same
      ∙ described s r fuel m h v l (ground (arith, k)) fits
