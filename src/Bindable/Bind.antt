-- ===== src/Bindable/Bind.antt =====
-- `BindColumnImpl` and `BindParamImpl` of include/exodbc/ColumnBuffer.h keep every binding known.
use mathlib.Core.Path.{subst}
use exodbc.Prelude.{
  ℕ, ◌≡◌, refl, sym, ap, ◌∙◌, ◌⊎◌, inl, inr, Bool, true, false, ◌&&◌, Option, none, some, List, ◌∷◌,
  arith, ltb, ◌==◌, if◌then◌else◌, is_some,
}
use exodbc.Odbc.{
  succeeded, is_success, Driver, Action, ◌>>=◌, ◌>>◌, modify, ex_assert, invoke, throw_ifn_success,
  Ret, Event, Exn, Result, World, called, sql_result, ok, raised,
}
use exodbc.Handle.{}
use exodbc.Bindable.{
  same, find, bind_call, add_connection, connect, bind_impl, Binding, Store, columns, params,
}
use exodbc.Bindable.Held.{without_info, is_held, was_given, is_plain}
use exodbc.Bindable.Steps.{Shrinks}
use exodbc.Bindable.Free.{}
use exodbc.Bindable.Laws.{Shrinks-IsTracked, IsTracked}

module _ (d : Driver) where
  was_given-bind :
      (k : Binding) (x : Option ℕ) (nr b h : ℕ) (tr : List Event)
      → was_given d h (called (bind_call k x nr b) ∷ tr) ≡ was_given d h tr
  unfolding was_given
  was_given-bind columns x nr b h tr = refl
  was_given-bind params x nr b h tr = refl

  -- Held after a binding: what was, and the buffer for the statement if the call succeeded.
  is_held-bind :
      (k j : Binding) (n nr b h c : ℕ) (tr : List Event)
      → is_held d j h c (called (bind_call k (some n) nr b) ∷ tr) ≡ true
      → (((j ≡ k) × (h ≡ n) × (c ≡ b)) × (succeeded (d tr (bind_call k (some n) nr b)).ret ≡ true))
        ⊎ (is_held d j h c tr ≡ true)
  unfolding is_held
  is_held-bind columns columns n nr b h c tr e = ground (arith, e)
  is_held-bind params params n nr b h c tr e = ground (arith, e)
  is_held-bind columns params n nr b h c tr e = ground (arith, e)
  is_held-bind params columns n nr b h c tr e = ground (arith, e)

  -- A plain call of a binding.
  plain_before :
      (k : Binding) (x : Option ℕ) (nr b : ℕ) (tr : List Event)
      → is_plain d (called (bind_call k x nr b) ∷ tr) ≡ true
      → is_plain d tr ≡ true
  unfolding is_plain
  plain_before columns x nr b tr e = ground (arith, e)
  plain_before params x nr b tr e = ground (arith, e)

  plain_info :
      (k : Binding) (x : Option ℕ) (nr b : ℕ) (tr : List Event)
      → is_plain d (called (bind_call k x nr b) ∷ tr) ≡ true
      → without_info (d tr (bind_call k x nr b)).ret ≡ true
  unfolding is_plain
  plain_info columns x nr b tr e = ground (arith, e)
  plain_info params x nr b tr e = ground (arith, e)

  not_bound : (r : Ret) → without_info r ≡ true → is_success r ≡ false → succeeded r ≡ false
  not_bound r e f = ground (arith, e, f)

  -- What holds after a plain run.
  abbrev pub IsRight : World Store → Type 0
  IsRight w = is_plain d w.trace ≡ true → IsTracked d w

  -- A call that did not bind.
  refused-Shrinks :
      (k : Binding) (n nr b : ℕ) (w : World Store)
      → succeeded (d w.trace (bind_call k (some n) nr b)).ret ≡ false
      → Shrinks d w (record w { trace = called (bind_call k (some n) nr b) ∷ w.trace })
  refused-Shrinks k n nr b w r = record {
    same_handle = λ o h e. e;
    same_entry = λ j c h o e. e;
    still_given = λ h e. was_given-bind k (some n) nr b h w.trace ∙ e;
    was_held = λ j h c e. elim (is_held-bind k j n nr b h c w.trace e) [
      | inl (f, g) ↦ absurd (ground (arith, r, g))
      | inr f ↦ f
    ];
    keeps_entry = λ j h c o e f. f;
    keeps_handle = λ j h c o e f. f;
    was_plain = plain_before k (some n) nr b w.trace;
  }

  -- The new connection
  abbrev bound : Binding → ℕ → ℕ → ℕ → ℕ → World Store → World Store
  bound k n nr b o w = record {
    self = connect k b o (some n) w.self;
    trace = called (bind_call k (some n) nr b) ∷ w.trace;
  }

  connect-handles :
      (k : Binding) (b o n : ℕ) (s : Store) → (connect k b o (some n) s).handles ≡ s.handles
  unfolding connect
  connect-handles k b o n s =
      elim (find n (s.connections k b)) as (λ f. (add_connection k b o n f s).handles ≡ s.handles) [
        | none ↦ refl
        | some x ↦ refl
      ]

  -- What is found in a map after `connect`: what was, or the new entry.
  abbrev Found : Binding → ℕ → ℕ → ℕ → Store → Binding → ℕ → ℕ → ℕ → Type 0
  Found k b o n s j c h p =
      (find h (s.connections j c) ≡ some p)
      ⊎ ((find n (s.connections k b) ≡ none) × (j ≡ k) × (c ≡ b) × (h ≡ n) × (p ≡ o))

  find-added :
      (k j : Binding) (b o n c h p : ℕ) (f : Binding → ℕ → List (ℕ × ℕ))
      → find n (f k b) ≡ none
      → find h (if same j k && c == b then (n, o) ∷ f k b else f j c) ≡ some p
      → (find h (f j c) ≡ some p)
        ⊎ ((find n (f k b) ≡ none) × (j ≡ k) × (c ≡ b) × (h ≡ n) × (p ≡ o))
  find-added columns columns b o n c h p f e g = ground (arith, e, g)
  find-added params params b o n c h p f e g = ground (arith, e, g)
  find-added columns params b o n c h p f e g = inl g
  find-added params columns b o n c h p f e g = inl g

  added_entry :
      (k j : Binding) (b o n c h p : ℕ) (s : Store) (x : Option ℕ)
      → find n (s.connections k b) ≡ x
      → find h ((add_connection k b o n x s).connections j c) ≡ some p
      → Found k b o n s j c h p
  added_entry k j b o n c h p s none e f = find-added k j b o n c h p s.connections e f
  added_entry k j b o n c h p s (some x) e f = inl f

  connected_entry :
      (k j : Binding) (b o n c h p : ℕ) (s : Store)
      → find h ((connect k b o (some n) s).connections j c) ≡ some p
      → Found k b o n s j c h p
  unfolding connect
  connected_entry k j b o n c h p s e =
      added_entry k j b o n c h p s (find n (s.connections k b)) refl e

  -- Entries stay, and there is one for the statement.
  added-keeps :
      (k j : Binding) (b o n c h p : ℕ) (f : Binding → ℕ → List (ℕ × ℕ))
      → find n (f k b) ≡ none
      → find h (f j c) ≡ some p
      → find h (if same j k && c == b then (n, o) ∷ f k b else f j c) ≡ some p
  added-keeps columns columns b o n c h p f e g = ground (arith, e, g)
  added-keeps params params b o n c h p f e g = ground (arith, e, g)
  added-keeps columns params b o n c h p f e g = g
  added-keeps params columns b o n c h p f e g = g

  kept_entry :
      (k j : Binding) (b o n c h p : ℕ) (s : Store) (x : Option ℕ)
      → find n (s.connections k b) ≡ x
      → find h (s.connections j c) ≡ some p
      → find h ((add_connection k b o n x s).connections j c) ≡ some p
  kept_entry k j b o n c h p s none e f = added-keeps k j b o n c h p s.connections e f
  kept_entry k j b o n c h p s (some x) e f = f

  -- The entry for the statement that was bound points to its handle.
  entry_bound :
      (k : Binding) (b o n : ℕ) (w : World Store) (x : Option ℕ)
      → IsTracked d w
      → (w.self.handles o).handle ≡ some n
      → find n (w.self.connections k b) ≡ x
      → find n ((add_connection k b o n x w.self).connections k b) ≡ some o
  entry_bound columns b o n w none t e f = ground arith
  entry_bound params b o n w none t e f = ground arith
  entry_bound k b o n w (some x) t e f = f ∙ ap some (sym (t.owner k n b x o f e))

  module _ (k : Binding) (n nr b o : ℕ) (w : World Store) (t : IsTracked d w)
      (e : (w.self.handles o).handle ≡ some n) where
    handle_kept : (p : ℕ) → ((bound k n nr b o w).self.handles p).handle ≡ (w.self.handles p).handle
    handle_kept p = ap (λ f. (f p).handle) (connect-handles k b o n w.self)

    bound-tracked :
        (j : Binding) (h c : ℕ)
        → (((j ≡ k) × (h ≡ n) × (c ≡ b))
            × (succeeded (d w.trace (bind_call k (some n) nr b)).ret ≡ true))
          ⊎ (is_held d j h c w.trace ≡ true)
        → (p : ℕ) × (find h ((bound k n nr b o w).self.connections j c) ≡ some p)
          × (((bound k n nr b o w).self.handles p).handle ≡ some h)
    unfolding connect
    bound-tracked j h c (inl ((f, g, i), q)) = (
      o,
      subst (λ z. find h ((bound k n nr b o w).self.connections z c) ≡ some o) (sym f)
          (subst (λ z. find z ((bound k n nr b o w).self.connections k c) ≡ some o) (sym g)
            (subst (λ z. find n ((bound k n nr b o w).self.connections k z) ≡ some o) (sym i)
              (entry_bound k b o n w (find n (w.self.connections k b)) t e refl))),
      handle_kept o ∙ e ∙ ap some (sym g),
    )
    bound-tracked j h c (inr f) =
        let (p, g, i) = t.tracked j h c f in
        (
          p,
          kept_entry k j b o n c h p w.self (find n (w.self.connections k b)) refl g,
          handle_kept p ∙ i,
        )

    bound-key_given :
        (j : Binding) (h c p : ℕ) → Found k b o n w.self j c h p → was_given d h w.trace ≡ true
    bound-key_given j h c p (inl f) = t.key_given j h c p f
    bound-key_given j h c p (inr (f, i, x, y, z)) =
        ap (λ a. was_given d a w.trace) y ∙ t.handle_given o n e

    bound-owner :
        (j : Binding) (h c p q : ℕ)
        → Found k b o n w.self j c h p
        → (w.self.handles q).handle ≡ some h
        → q ≡ p
    bound-owner j h c p q (inl f) g = t.owner j h c p q f g
    bound-owner j h c p q (inr (f, i, x, y, z)) g = t.unique q o h g (e ∙ ap some (sym y)) ∙ sym z

    bound-IsTracked : IsTracked d (bound k n nr b o w)
    bound-IsTracked = record {
      tracked = λ j h c f. bound-tracked j h c (is_held-bind k j n nr b h c w.trace f);
      key_given = λ j h c p f.
          was_given-bind k (some n) nr b h w.trace
          ∙ bound-key_given j h c p (connected_entry k j b o n c h p w.self f);
      handle_given = λ p h f.
          was_given-bind k (some n) nr b h w.trace ∙ t.handle_given p h (sym (handle_kept p) ∙ f);
      owner = λ j h c p q f g.
          bound-owner j h c p q (connected_entry k j b o n c h p w.self f)
            (sym (handle_kept q) ∙ g);
      unique = λ p q h f g. t.unique p q h (sym (handle_kept p) ∙ f) (sym (handle_kept q) ∙ g);
    }

  -- What follows a call of the driver, by its return code.
  bind_answered :
      (k : Binding) (n nr b o : ℕ) (w : World Store) (x : Bool) (a : Exn)
      → IsRight (bound k n nr b o w)
      → (x ≡ false → IsRight (record w { trace = called (bind_call k (some n) nr b) ∷ w.trace }))
      → IsRight
          (elim (if x then ok tt else raised a) as (λ z. Result (Unit {0}) × World Store) [
            | ok u ↦ (ok tt, bound k n nr b o w)
            | raised y ↦
                (raised y, record w { trace = called (bind_call k (some n) nr b) ∷ w.trace })
          ]).1
  bind_answered k n nr b o w true a t r = t
  bind_answered k n nr b o w false a t r = r refl

  -- The call and what follows it, and `bind_impl` for what the handle is.
  bind_made : Binding → ℕ → ℕ → ℕ → Option ℕ → Action Store (Unit {0})
  bind_made k nr b o x = do
    r ← invoke d (bind_call k x nr b)
    throw_ifn_success r
    modify (connect k b o x)

  bind_for : Binding → ℕ → Bool → ℕ → ℕ → Option ℕ → Action Store (Unit {0})
  bind_for k nr fits b o x =
      ex_assert (ltb 0 nr) >> (ex_assert (is_some x) >> (ex_assert fits >> bind_made k nr b o x))

  assert_first :
      (x : Bool) (m : Action Store (Unit {0})) (w : World Store)
      → IsRight w
      → IsRight (m w).1
      → IsRight ((ex_assert x >> m) w).1
  assert_first true m w t u = u
  assert_first false m w t u = t

  bind_for-IsRight :
      (k : Binding) (nr b o : ℕ) (fits : Bool) (w : World Store) (x : Option ℕ)
      → IsRight w
      → (w.self.handles o).handle ≡ x
      → IsRight (bind_for k nr fits b o x w).1
  unfolding bind_for bind_made
  bind_for-IsRight k nr b o fits w none t e =
      assert_first (ltb 0 nr) (ex_assert false >> (ex_assert fits >> bind_made k nr b o none)) w t t
  bind_for-IsRight k nr b o fits w (some n) t e =
      let r = d w.trace (bind_call k (some n) nr b) in
      assert_first (ltb 0 nr) (ex_assert true >> (ex_assert fits >> bind_made k nr b o (some n))) w
        t
        (assert_first fits (bind_made k nr b o (some n)) w t (
          bind_answered k n nr b o w (is_success r.ret) (sql_result r.ret r.diag)
            (λ q. bound-IsTracked k n nr b o w (t (plain_before k (some n) nr b w.trace q)) e)
            (λ f q.
              Shrinks-IsTracked d w
                (record w { trace = called (bind_call k (some n) nr b) ∷ w.trace })
                (refused-Shrinks k n nr b w
                  (not_bound r.ret (plain_info k (some n) nr b w.trace q) f))
                (t (plain_before k (some n) nr b w.trace q)))))

  pub bind_impl-IsRight :
      (k : Binding) (nr b o : ℕ) (fits : Bool) (w : World Store)
      → IsRight w
      → IsRight (bind_impl d k nr fits b o w).1
  unfolding bind_impl bind_for bind_made
  bind_impl-IsRight k nr b o fits w t =
      bind_for-IsRight k nr b o fits w (w.self.handles o).handle t refl
