-- ===== src/Bindable/Free.antt =====
-- `ResetParams`, `UnbindColumns` and `Free` of a statement's handle, with their signals, add nothing
-- that the driver may use.
use mathlib.Core.Path.{subst}
use exodbc.Prelude.{
  ℕ, ◌≡◌, refl, sym, ap, ◌∙◌, inl, inr, true, none, some, List, [], ◌∷◌, arith, Bool-cases,
  Option-cases,
}
use exodbc.Odbc.{Driver, ◌>>◌, Event, Result, World, stmt, ok, raised}
use exodbc.Handle.{new_handle, free, Handle}
use exodbc.Bindable.{
  set_handle, on_released, notify, fire_signal, release, free_stmt, Binding, Store, columns, params,
}
use exodbc.Bindable.Held.{is_held, was_given, is_plain}
use exodbc.Bindable.Steps.{
  lets_go, release_lem, no_release_lem, failed_lem, same_store-Shrinks, failed-Shrinks,
  failed_not_plain, released-Shrinks, Shrinks,
}

notify-none : (k : Binding) (xs : List (ℕ × ℕ)) (s : Store) → notify k none xs s ≡ s
unfolding notify on_released
notify-none k [] s = refl
notify-none k ((b, x) ∷ r) s = notify-none k r s

abbrev NullIfOk : Result (Unit {0}) → World Handle → Type 0
NullIfOk (ok a) w = w.self.handle ≡ none
NullIfOk (raised e) w = Unit

-- A handle that has been freed, or not: what it was, and what the driver may use.
record Frees (d : Driver) (h : Handle) (tr : List Event) (w : World Handle) : Type 0 where
  less : (n : ℕ) → w.self.handle ≡ some n → h.handle ≡ some n
  given : (n : ℕ) → was_given d n w.trace ≡ was_given d n tr
  held : (k : Binding) (n b : ℕ) → is_held d k n b w.trace ≡ true → is_held d k n b tr ≡ true
  still :
      (k : Binding) (n b : ℕ)
      → is_held d k n b w.trace ≡ true
      → h.handle ≡ some n
      → w.self.handle ≡ some n
  plain : is_plain d w.trace ≡ true → is_plain d tr ≡ true

module _ (d : Driver) where
  free-Frees :
      (h : Handle) (tr : List Event)
      → Frees d h tr (free d stmt (record { self = h; trace = tr })).1
  unfolding free is_held was_given is_plain new_handle
  free-Frees h tr = elim (Option-cases h.handle) [
    | inl e ↦ record {
      less = λ n f. ground (arith, e, f);
      given = λ n. ground (arith, e);
      held = λ k n b f. ground (arith, e, f);
      still = λ k n b f g. ground (arith, e, g);
      plain = λ f. ground (arith, e, f);
    }
    | inr (x, e) ↦ record {
      less = λ n f. ground (arith, e, f);
      given = λ n. ground (arith, e);
      held = λ k n b f. ground (arith, e, f);
      still = λ k n b f g. ground (arith, e, f, g);
      plain = λ f. ground (arith, e, f);
    }
  ]

  free-NullIfOk : (w : World Handle) → NullIfOk (free d stmt w).0 (free d stmt w).1
  unfolding free new_handle
  free-NullIfOk w = ground arith

  -- The object `o` with what became of its handle.
  abbrev pub put_back : ℕ → World Store → World Handle → World Store
  put_back o w v = record { self = set_handle o v.self w.self; trace = v.trace }

  set_handle-at : (o : ℕ) (h : Handle) (s : Store) → (set_handle o h s).handles o ≡ h
  set_handle-at o h s = ground arith

  put_back-Shrinks :
      (o : ℕ) (w : World Store) (v : World Handle)
      → Frees d (w.self.handles o) w.trace v
      → Shrinks d w (put_back o w v)
  put_back-Shrinks o w v f = record {
    same_handle = λ x h e. ground (arith, e, f.less h);
    same_entry = λ k b h x e. e;
    still_given = λ h e. f.given h ∙ e;
    was_held = λ k h b e. f.held k h b e;
    keeps_entry = λ k h b x e g. g;
    keeps_handle = λ k h b x e g. ground (arith, g, f.still k h b e);
    was_plain = f.plain;
  }

  fire_none :
      (k : Binding) (o : ℕ) (w : World Store)
      → (w.self.handles o).handle ≡ none
      → fire_signal k o w ≡ (ok tt, w)
  unfolding fire_signal
  fire_none k o w e =
      ap (λ s. (ok tt, record w { self = s }))
        (ap (λ h. notify k h (w.self.slots k o) w.self) e ∙ notify-none k (w.self.slots k o) w.self)

  fired_none :
      (o : ℕ) (w : World Store)
      → (w.self.handles o).handle ≡ none
      → (fire_signal params o >> fire_signal columns o) w ≡ (ok tt, w)
  fired_none o w e =
      ap
        (λ r. elim r.0 as (λ z. Result (Unit {0}) × World Store) [
          | ok a ↦ fire_signal columns o r.1
          | raised x ↦ (raised x, r.1)
        ])
        (fire_none params o w e)
      ∙ fire_none columns o w e

  freed-Shrinks :
      (o : ℕ) (w : World Store) (r : Result (Unit {0})) (v : World Handle)
      → NullIfOk r v
      → Shrinks d w (put_back o w v)
      → Shrinks d w
          (elim r as (λ z. Result (Unit {0}) × World Store) [
            | ok a ↦ (fire_signal params o >> fire_signal columns o) (put_back o w v)
            | raised e ↦ (raised e, put_back o w v)
          ]).1
  freed-Shrinks o w (ok a) v n s =
      subst (λ x. Shrinks d w x.1)
        (sym
          (fired_none o (put_back o w v) (ap (λ h. h.handle) (set_handle-at o v.self w.self) ∙ n)))
        s
  freed-Shrinks o w (raised e) v n s = s

  pub free_stmt-Shrinks : (o : ℕ) (w : World Store) → Shrinks d w (free_stmt d o w).1
  unfolding free_stmt
  free_stmt-Shrinks o w =
      let v : World Handle = record { self = w.self.handles o; trace = w.trace } in
      freed-Shrinks o w (free d stmt v).0 (free d stmt v).1 (free-NullIfOk v)
        (put_back-Shrinks o w (free d stmt v).1 (free-Frees (w.self.handles o) w.trace))

  pub release-Shrinks : (k : Binding) (o : ℕ) (w : World Store) → Shrinks d w (release d k o w).1
  release-Shrinks k o w = elim (Option-cases (w.self.handles o).handle) [
    | inl e ↦ rw (no_release_lem d k o w e) (same_store-Shrinks d o w)
    | inr (n, e) ↦ elim (Bool-cases (lets_go d k n w.trace)) [
      | inl l ↦ rw (release_lem d k o n w e l) (released-Shrinks d k o n w l)
      | inr l ↦ rw (failed_lem d k o n w e l) (failed-Shrinks d k o n w l)
    ]
  ]

  -- A release for a handle that has an SQLHSTMT has succeeded in a plain run.
  pub release-lets_go :
      (k : Binding) (o n : ℕ) (w : World Store)
      → (w.self.handles o).handle ≡ some n
      → is_plain d (release d k o w).1.trace ≡ true
      → lets_go d k n w.trace ≡ true
  release-lets_go k o n w e p = elim (Bool-cases (lets_go d k n w.trace)) [
    | inl l ↦ l
    | inr l ↦ absurd (
        ground (
          arith,
          p,
          ap (λ v. is_plain d v.trace) (failed_lem d k o n w e l),
          failed_not_plain d k o n w l,
        ))
  ]
