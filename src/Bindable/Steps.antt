-- ===== src/Bindable/Steps.antt =====
-- The operations of src/include/exodbc/ColumnBuffer.h's bindings, one by one: what they do to the
-- handles, to the connections of the buffers, and to what the driver may use.
use exodbc.Prelude.{
  ℕ, ◌≡◌, refl, sym, ap, ◌∙◌, Bool, true, false, ◌&&◌, none, some, List, ◌∷◌, arith, if◌then◌else◌,
}
use exodbc.Odbc.{
  succeeded, Driver, Event, Result, World, sql_free_stmt, called, assertion, sql_result, ok, raised,
}
use exodbc.Handle.{reset_params, unbind_columns, Handle}
use exodbc.Bindable.{
  set_handle, find, notify, fire_signal, release_bindings, release, Binding, Store, columns, params,
}
use exodbc.Bindable.Held.{option_of, is_held, was_given, is_plain}
use exodbc.Bindable.Signals.{fired, notify-handles, concerns, notify-find, notify-find_was}

-- A step after which there is no more than before: no new handle or connection, nothing that the
-- driver may use that it might not use before, and the connections and the handles for what it may
-- still use are there.
pub record Shrinks (d : Driver) (w w' : World Store) : Type 0 where
  pub same_handle :
      (o h : ℕ) → (w'.self.handles o).handle ≡ some h → (w.self.handles o).handle ≡ some h
  pub same_entry :
      (k : Binding) (b h o : ℕ)
      → find h (w'.self.connections k b) ≡ some o
      → find h (w.self.connections k b) ≡ some o
  pub still_given : (h : ℕ) → was_given d h w.trace ≡ true → was_given d h w'.trace ≡ true
  pub was_held :
      (k : Binding) (h b : ℕ) → is_held d k h b w'.trace ≡ true → is_held d k h b w.trace ≡ true
  pub keeps_entry :
      (k : Binding) (h b o : ℕ)
      → is_held d k h b w'.trace ≡ true
      → find h (w.self.connections k b) ≡ some o
      → find h (w'.self.connections k b) ≡ some o
  pub keeps_handle :
      (k : Binding) (h b o : ℕ)
      → is_held d k h b w'.trace ≡ true
      → (w.self.handles o).handle ≡ some h
      → (w'.self.handles o).handle ≡ some h
  pub was_plain : is_plain d w'.trace ≡ true → is_plain d w.trace ≡ true

module _ (d : Driver) where
  pub Shrinks-refl : (w : World Store) → Shrinks d w w
  Shrinks-refl w = record {
    same_handle = λ o h e. e;
    same_entry = λ k b h o e. e;
    still_given = λ h e. e;
    was_held = λ k h b e. e;
    keeps_entry = λ k h b o e f. f;
    keeps_handle = λ k h b o e f. f;
    was_plain = λ e. e;
  }

  pub Shrinks-trans : (u v w : World Store) → Shrinks d u v → Shrinks d v w → Shrinks d u w
  Shrinks-trans u v w p q = record {
    same_handle = λ o h e. p.same_handle o h (q.same_handle o h e);
    same_entry = λ k b h o e. p.same_entry k b h o (q.same_entry k b h o e);
    still_given = λ h e. q.still_given h (p.still_given h e);
    was_held = λ k h b e. p.was_held k h b (q.was_held k h b e);
    keeps_entry =
        λ k h b o e f. q.keeps_entry k h b o e (p.keeps_entry k h b o (q.was_held k h b e) f);
    keeps_handle =
        λ k h b o e f. q.keeps_handle k h b o e (p.keeps_handle k h b o (q.was_held k h b e) f);
    was_plain = λ e. p.was_plain (q.was_plain e);
  }

  -- Does the call that releases `k` on `n` succeed?
  abbrev pub lets_go : Binding → ℕ → List Event → Bool
  lets_go k n tr = succeeded (d tr (sql_free_stmt (some n) (option_of k))).ret

  release_handle_lem :
      (k : Binding) (h : Handle) (n : ℕ) (tr : List Event)
      → h.handle ≡ some n
      → lets_go k n tr ≡ true
      → release_bindings d k (record { self = h; trace = tr }) ≡ (
        ok tt,
        record {
          self = h;
          trace = fired k (some n) ∷ called (sql_free_stmt (some n) (option_of k)) ∷ tr;
        },
      )
  unfolding unbind_columns reset_params
  release_handle_lem columns h n tr e l = ground (arith, e, l)
  release_handle_lem params h n tr e l = ground (arith, e, l)

  release_handle_none :
      (k : Binding) (h : Handle) (tr : List Event)
      → h.handle ≡ none
      → release_bindings d k (record { self = h; trace = tr })
        ≡ (raised assertion, record { self = h; trace = tr })
  unfolding unbind_columns reset_params
  release_handle_none columns h tr e = ground (arith, e)
  release_handle_none params h tr e = ground (arith, e)

  -- What a call that releases `k` on `n` leaves held.
  is_held-unbind :
      (k j : Binding) (n h b : ℕ) (tr : List Event)
      → lets_go k n tr ≡ true
      → is_held d j h b (fired k (some n) ∷ called (sql_free_stmt (some n) (option_of k)) ∷ tr)
        ≡ (if concerns k (some n) j h then false else is_held d j h b tr)
  unfolding is_held
  is_held-unbind columns columns n h b tr l = ground (arith, l)
  is_held-unbind params params n h b tr l = ground (arith, l)
  is_held-unbind columns params n h b tr l = ground (arith, l)
  is_held-unbind params columns n h b tr l = ground (arith, l)

  was_given-unbind :
      (k : Binding) (n h : ℕ) (tr : List Event)
      → was_given d h (fired k (some n) ∷ called (sql_free_stmt (some n) (option_of k)) ∷ tr)
        ≡ was_given d h tr
  unfolding was_given
  was_given-unbind columns n h tr = refl
  was_given-unbind params n h tr = refl

  -- The world after the release of `k` on `o`, whose handle is `n`.
  abbrev released : Binding → ℕ → ℕ → World Store → World Store
  released k o n w = record {
    self = notify k (some n) (w.self.slots k o) (set_handle o (w.self.handles o) w.self);
    trace = fired k (some n) ∷ called (sql_free_stmt (some n) (option_of k)) ∷ w.trace;
  }

  set_handle-same : (o x : ℕ) (s : Store) → ((set_handle o (s.handles o) s).handles x) ≡ s.handles x
  set_handle-same o x s = ground arith

  pub release_lem :
      (k : Binding) (o n : ℕ) (w : World Store)
      → (w.self.handles o).handle ≡ some n
      → lets_go k n w.trace ≡ true
      → release d k o w ≡ (ok tt, released k o n w)
  unfolding release fire_signal
  release_lem k o n w e l =
      ap
        (λ r. elim r.0 as (λ z. Result (Unit {0}) × World Store) [
          | ok a ↦
              fire_signal k o (record { self = set_handle o r.1.self w.self; trace = r.1.trace })
          | raised x ↦ (raised x, record { self = set_handle o r.1.self w.self; trace = r.1.trace })
        ])
        (release_handle_lem k (w.self.handles o) n w.trace e l)
      ∙ ap
          (λ h. (
            ok tt,
            record {
              self = notify k h (w.self.slots k o) (set_handle o (w.self.handles o) w.self);
              trace = (released k o n w).trace;
            },
          ))
          (ap (λ h. h.handle) (set_handle-same o o w.self) ∙ e)

  -- A release that finds no handle changes nothing.
  pub no_release_lem :
      (k : Binding) (o : ℕ) (w : World Store)
      → (w.self.handles o).handle ≡ none
      → release d k o w ≡ (
        raised assertion,
        record { self = set_handle o (w.self.handles o) w.self; trace = w.trace },
      )
  unfolding release
  no_release_lem k o w e =
      ap
        (λ r. elim r.0 as (λ z. Result (Unit {0}) × World Store) [
          | ok a ↦
              fire_signal k o (record { self = set_handle o r.1.self w.self; trace = r.1.trace })
          | raised x ↦ (raised x, record { self = set_handle o r.1.self w.self; trace = r.1.trace })
        ])
        (release_handle_none k (w.self.handles o) w.trace e)

  pub released-held :
      (k j : Binding) (o n h b : ℕ) (w : World Store)
      → lets_go k n w.trace ≡ true
      → is_held d j h b (released k o n w).trace
        ≡ (if concerns k (some n) j h then false else is_held d j h b w.trace)
  released-held k j o n h b w l = is_held-unbind k j n h b w.trace l

  -- A call that fails.
  failed_handle_lem :
      (k : Binding) (h : Handle) (n : ℕ) (tr : List Event)
      → h.handle ≡ some n
      → lets_go k n tr ≡ false
      → release_bindings d k (record { self = h; trace = tr }) ≡ (
        raised (
            sql_result
              (d tr (sql_free_stmt (some n) (option_of k))).ret
              (d tr (sql_free_stmt (some n) (option_of k))).diag),
        record { self = h; trace = called (sql_free_stmt (some n) (option_of k)) ∷ tr },
      )
  unfolding unbind_columns reset_params
  failed_handle_lem columns h n tr e l = ground (arith, e, l)
  failed_handle_lem params h n tr e l = ground (arith, e, l)

  -- The world after such a call.
  abbrev pub failed : Binding → ℕ → ℕ → World Store → World Store
  failed k o n w = record {
    self = set_handle o (w.self.handles o) w.self;
    trace = called (sql_free_stmt (some n) (option_of k)) ∷ w.trace;
  }

  pub failed_lem :
      (k : Binding) (o n : ℕ) (w : World Store)
      → (w.self.handles o).handle ≡ some n
      → lets_go k n w.trace ≡ false
      → (release d k o w).1 ≡ failed k o n w
  unfolding release
  failed_lem k o n w e l =
      ap
        (λ r.
          (elim r.0 as (λ z. Result (Unit {0}) × World Store) [
            | ok a ↦
                fire_signal k o (record { self = set_handle o r.1.self w.self; trace = r.1.trace })
            | raised x ↦
                (raised x, record { self = set_handle o r.1.self w.self; trace = r.1.trace })
          ]).1)
        (failed_handle_lem k (w.self.handles o) n w.trace e l)

  failed-held :
      (k j : Binding) (n h b : ℕ) (tr : List Event)
      → lets_go k n tr ≡ false
      → is_held d j h b (called (sql_free_stmt (some n) (option_of k)) ∷ tr) ≡ is_held d j h b tr
  unfolding is_held
  failed-held columns j n h b tr l = ground (arith, l)
  failed-held params j n h b tr l = ground (arith, l)

  failed-given :
      (k : Binding) (n h : ℕ) (tr : List Event)
      → was_given d h (called (sql_free_stmt (some n) (option_of k)) ∷ tr) ≡ was_given d h tr
  unfolding was_given
  failed-given columns n h tr = refl
  failed-given params n h tr = refl

  failed-plain :
      (k : Binding) (n : ℕ) (tr : List Event)
      → is_plain d (called (sql_free_stmt (some n) (option_of k)) ∷ tr)
        ≡ (lets_go k n tr && is_plain d tr)
  unfolding is_plain
  failed-plain columns n tr = refl
  failed-plain params n tr = refl

  pub same_store-Shrinks :
      (o : ℕ) (w : World Store)
      → Shrinks d w (record { self = set_handle o (w.self.handles o) w.self; trace = w.trace })
  same_store-Shrinks o w = record {
    same_handle = λ x h e. ap (λ y. y.handle) (sym (set_handle-same o x w.self)) ∙ e;
    same_entry = λ k b h x e. e;
    still_given = λ h e. e;
    was_held = λ k h b e. e;
    keeps_entry = λ k h b x e f. f;
    keeps_handle = λ k h b x e f. ap (λ y. y.handle) (set_handle-same o x w.self) ∙ f;
    was_plain = λ e. e;
  }

  pub failed-Shrinks :
      (k : Binding) (o n : ℕ) (w : World Store)
      → lets_go k n w.trace ≡ false
      → Shrinks d w (failed k o n w)
  failed-Shrinks k o n w l = record {
    same_handle = λ x h e. ap (λ y. y.handle) (sym (set_handle-same o x w.self)) ∙ e;
    same_entry = λ j b h x e. e;
    still_given = λ h e. failed-given k n h w.trace ∙ e;
    was_held = λ j h b e. sym (failed-held k j n h b w.trace l) ∙ e;
    keeps_entry = λ j h b x e f. f;
    keeps_handle = λ j h b x e f. ap (λ y. y.handle) (set_handle-same o x w.self) ∙ f;
    was_plain = λ e. ground (arith, e, failed-plain k n w.trace);
  }

  -- After a plain run the call has not failed.
  pub failed_not_plain :
      (k : Binding) (o n : ℕ) (w : World Store)
      → lets_go k n w.trace ≡ false
      → is_plain d (failed k o n w).trace ≡ false
  failed_not_plain k o n w l = ground (arith, l, failed-plain k n w.trace)

  released-plain :
      (k : Binding) (o n : ℕ) (w : World Store)
      → is_plain d (released k o n w).trace ≡ (lets_go k n w.trace && is_plain d w.trace)
  unfolding is_plain
  released-plain columns o n w = refl
  released-plain params o n w = refl

  released-handles :
      (k : Binding) (o n x : ℕ) (w : World Store)
      → (released k o n w).self.handles x ≡ w.self.handles x
  released-handles k o n x w =
      ap (λ f. f x)
        (notify-handles k (some n) (w.self.slots k o) (set_handle o (w.self.handles o) w.self))
      ∙ set_handle-same o x w.self

  not_concerned : (b was : Bool) → (if b then false else was) ≡ true → (b ≡ false) × (was ≡ true)
  not_concerned b was e = ground arith

  still_held :
      (k j : Binding) (o n h b : ℕ) (w : World Store)
      → lets_go k n w.trace ≡ true
      → is_held d j h b (released k o n w).trace ≡ true
      → (concerns k (some n) j h ≡ false) × (is_held d j h b w.trace ≡ true)
  still_held k j o n h b w l e =
      not_concerned (concerns k (some n) j h) (is_held d j h b w.trace)
        (sym (released-held k j o n h b w l) ∙ e)

  pub released-Shrinks :
      (k : Binding) (o n : ℕ) (w : World Store)
      → lets_go k n w.trace ≡ true
      → Shrinks d w (released k o n w)
  released-Shrinks k o n w l = record {
    same_handle = λ x h e. ap (λ y. y.handle) (sym (released-handles k o n x w)) ∙ e;
    same_entry = λ j b h x e.
        notify-find_was k j (some n) b h x (w.self.slots k o)
          (set_handle o (w.self.handles o) w.self) e;
    still_given = λ h e. was_given-unbind k n h w.trace ∙ e;
    was_held = λ j h b e. (still_held k j o n h b w l e).1;
    keeps_entry = λ j h b x e f.
        notify-find k j (some n) b h (w.self.slots k o) (set_handle o (w.self.handles o) w.self)
          (still_held k j o n h b w l e).0
        ∙ f;
    keeps_handle = λ j h b x e f. ap (λ y. y.handle) (released-handles k o n x w) ∙ f;
    was_plain = λ e. ground (arith, e, released-plain k o n w);
  }
