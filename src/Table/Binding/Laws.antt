-- ===== src/Table/Binding/Laws.antt =====
-- Which parameters the loops of src/Table.cpp bind.
use exodbc.Prelude.{ℕ, suc, ◌≡◌, refl, Bool, true, false, Option, List, [], ◌∷◌, ◌++◌, arith}
use exodbc.Prelude.Texts.{Text}
use exodbc.Odbc.{
  Driver, Action, ◌>>=◌, ◌>>◌, pure, get, modify, ex_assert, when, branch, invoke,
  throw_ifn_succeeded, throw_ifn_success, Descriptor, DescField, Reply, Event, Result, World,
  sql_describe_param, sql_bind_parameter, sql_get_descriptor, sql_set_desc_field, called, ok,
  raised,
}
use exodbc.SqlTypes.{SqlType}
use exodbc.Buffer.{ColumnBuffer}
use exodbc.Statement.{Statement}
use exodbc.Statement.Bind.{
  set_fields, describe_numeric, describe_parameter, bind_param_impl, bind_parameter,
}
use exodbc.Table.Binding.{bind_parameters}

-- The parameters that SQLBindParameter has been called for, newest first: their numbers, and the
-- names of their columns.
unfoldable pub bound_parameters : List Event → List (ℕ × Text)
bound_parameters [] = []
bound_parameters (called (sql_bind_parameter h nr name) ∷ events) =
    (nr, name) ∷ bound_parameters events
bound_parameters (_ ∷ events) = bound_parameters events

-- Buffers as parameters with the numbers from `nr` on, in front of others.
abbrev pub numbered : List ColumnBuffer → ℕ → List (ℕ × Text) → List (ℕ × Text)
numbered [] nr others = others
numbered (c ∷ cs) nr others = numbered cs (suc nr) ((nr, c.query_name) ∷ others)

-- What a step that returns adds to them.
abbrev Added :
    {A : Type 0} → List (ℕ × Text) → World Statement → Result A × World Statement → Type 0
Added ps w (ok a, w') = bound_parameters w'.trace ≡ ps ++ bound_parameters w.trace
Added ps w (raised e, w') = Unit {0}

record Adds {A : Type 0} (ps : List (ℕ × Text)) (m : Action Statement A) : Type 0 where
  added : (w : World Statement) → Added ps w (m w)

module _ {A B : Type 0} (ps : List (ℕ × Text)) (f : A → Action Statement B) where
  Added-later :
      (r : Result A) (v w : World Statement)
      → Added [] v (r, w)
      → ((a : A) → Adds ps (f a))
      → Added ps v
          (elim r as (λ x. Result B × World Statement) [ ok a ↦ f a w | raised e ↦ (raised e, w) ])
  Added-later (ok a) v w h k = ground (arith, (k a).added w, h)
  Added-later (raised e) v w h k = tt

  Added-first :
      (r : Result A) (v w : World Statement)
      → Added ps v (r, w)
      → ((a : A) → Adds [] (f a))
      → Added ps v
          (elim r as (λ x. Result B × World Statement) [ ok a ↦ f a w | raised e ↦ (raised e, w) ])
  Added-first (ok a) v w h k = ground (arith, (k a).added w, h)
  Added-first (raised e) v w h k = tt

module _ {A B : Type 0} {ps : List (ℕ × Text)} where
  Adds-step :
      (m : Action Statement A) (f : A → Action Statement B)
      → Adds [] m
      → ((a : A) → Adds ps (f a))
      → Adds ps (m >>= f)
  Adds-step m f h k = record { added = λ w. Added-later ps f (m w).0 w (m w).1 (h.added w) k }

  Adds-then :
      (m : Action Statement A) (f : A → Action Statement B)
      → Adds ps m
      → ((a : A) → Adds [] (f a))
      → Adds ps (m >>= f)
  Adds-then m f h k = record { added = λ w. Added-first ps f (m w).0 w (m w).1 (h.added w) k }

Adds-get : Adds [] (get {S = Statement})
Adds-get = record { added = λ w. refl }

Adds-pure : {A : Type 0} (a : A) → Adds [] (pure {S = Statement} a)
Adds-pure a = record { added = λ w. refl }

Adds-ex_assert : (b : Bool) → Adds [] (ex_assert {S = Statement} b)
Adds-ex_assert true = record { added = λ w. refl }
Adds-ex_assert false = record { added = λ w. tt }

Adds-modify : (f : Statement → Statement) → Adds [] (modify f)
Adds-modify f = record { added = λ w. refl }

Adds-when : (b : Bool) (m : Action Statement (Unit {0})) → Adds [] m → Adds [] (when b m)
Adds-when true m h = record { added = h.added }
Adds-when false m h = record { added = λ w. refl }

Adds-branch :
    {A : Type 0} (b : Bool) (m n : Action Statement A)
    → Adds [] m
    → Adds [] n
    → Adds [] (branch b m n)
Adds-branch true m n h k = record { added = h.added }
Adds-branch false m n h k = record { added = k.added }

Adds-throw_ifn_succeeded : (r : Reply) → Adds [] (throw_ifn_succeeded {S = Statement} r)
Adds-throw_ifn_succeeded r = record { added = λ w. ground arith }

Adds-throw_ifn_success : (r : Reply) → Adds [] (throw_ifn_success {S = Statement} r)
Adds-throw_ifn_success r = record { added = λ w. ground arith }

module _ (d : Driver) (h : Option ℕ) where
  Adds-describe : (nr : ℕ) → Adds [] (invoke {S = Statement} d (sql_describe_param h nr))
  unfolding bound_parameters
  Adds-describe nr = record { added = λ w. refl }

  Adds-descriptor : (k : Descriptor) → Adds [] (invoke {S = Statement} d (sql_get_descriptor h k))
  unfolding bound_parameters
  Adds-descriptor k = record { added = λ w. refl }

  Adds-field :
      (nr : ℕ) (k : DescField) → Adds [] (invoke {S = Statement} d (sql_set_desc_field h nr k))
  unfolding bound_parameters
  Adds-field nr k = record { added = λ w. refl }

  Adds-parameter :
      (nr : ℕ) (name : Text)
      → Adds ((nr, name) ∷ []) (invoke {S = Statement} d (sql_bind_parameter h nr name))
  unfolding bound_parameters
  Adds-parameter nr name = record { added = λ w. refl }

ruleset adds_rules = (
  Adds-step, Adds-get, Adds-pure, Adds-ex_assert, Adds-modify, Adds-when, Adds-branch,
  Adds-throw_ifn_succeeded, Adds-throw_ifn_success, Adds-describe, Adds-descriptor, Adds-field,
  Adds-parameter,
)

module _ (d : Driver) where
  Adds-set_fields :
      (h : Option ℕ) (nr : ℕ) (fields : List DescField) → Adds [] (set_fields d h nr fields)
  unfolding set_fields
  Adds-set_fields h nr [] = Adds-pure tt
  Adds-set_fields h nr (f ∷ fs) =
      Adds-step (invoke d (sql_set_desc_field h nr f))
        (λ r. throw_ifn_succeeded r >> set_fields d h nr fs) (Adds-field d h nr f)
        (λ r.
          Adds-step (throw_ifn_succeeded r) (λ u. set_fields d h nr fs) (Adds-throw_ifn_succeeded r)
            (λ u. Adds-set_fields h nr fs))

  Adds-describe_numeric :
      (k : Descriptor) (nr : ℕ) (fields : List DescField) → Adds [] (describe_numeric d k nr fields)
  unfolding describe_numeric
  Adds-describe_numeric k nr fields = search (adds_rules, Adds-set_fields) depth 20 fits 5000

  Adds-describe_parameter : (nr : ℕ) → Adds [] (describe_parameter d nr)
  unfolding describe_parameter
  Adds-describe_parameter nr = search adds_rules depth 20 fits 5000

  Adds-bind_param_impl :
      (c : ColumnBuffer) (nr : ℕ) (t : SqlType)
      → Adds ((nr, c.query_name) ∷ []) (bind_param_impl d c nr t)
  unfolding bind_param_impl
  Adds-bind_param_impl c nr t = search (adds_rules, Adds-then) depth 20 fits 5000

  Adds-bind_parameter :
      (c : ColumnBuffer) (nr : ℕ) → Adds ((nr, c.query_name) ∷ []) (bind_parameter d c nr false)
  unfolding bind_parameter
  Adds-bind_parameter c nr =
      search
        (
          adds_rules, Adds-then, Adds-describe_parameter, Adds-bind_param_impl,
          Adds-describe_numeric,
        )
        depth 20 fits 5000

-- What the loop may leave behind.
abbrev pub NumberedOutcome :
    List ColumnBuffer → ℕ → World Statement → Result (Unit {0}) × World Statement → Type 0
NumberedOutcome cs nr w (ok _, w') =
    bound_parameters w'.trace ≡ numbered cs nr (bound_parameters w.trace)
NumberedOutcome cs nr w (raised e, w') = Unit {0}

later :
    (d : Driver) (c : ColumnBuffer) (cs : List ColumnBuffer) (nr : ℕ) (r : Result (Unit {0}))
    (v w : World Statement)
    → Added ((nr, c.query_name) ∷ []) v (r, w)
    → NumberedOutcome cs (suc nr) w (bind_parameters d cs (suc nr) w)
    → NumberedOutcome (c ∷ cs) nr v (elim r as (λ x. Result (Unit {0}) × World Statement) [
      | ok a ↦ bind_parameters d cs (suc nr) w
      | raised e ↦ (raised e, w)
    ])
later d c cs nr (ok a) v w h k = ground (arith, h, k)
later d c cs nr (raised e) v w h k = tt

-- If the loop that binds the buffers of a prepared text returns, SQLBindParameter has been called
-- once for each buffer in their order, with the numbers from the first one on, and for no other
-- parameter in between.
pub bind_parameters_numbered :
    (d : Driver) (cs : List ColumnBuffer) (nr : ℕ) (w : World Statement)
    → NumberedOutcome cs nr w (bind_parameters d cs nr w)
unfolding bind_parameters
bind_parameters_numbered d [] nr w = refl
bind_parameters_numbered d (c ∷ cs) nr w =
    let (r, v) = bind_parameter d c nr false w in
    later d c cs nr r w v ((Adds-bind_parameter d c nr).added w)
      (bind_parameters_numbered d cs (suc nr) v)
