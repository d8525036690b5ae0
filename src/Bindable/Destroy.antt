-- ===== src/Bindable/Destroy.antt =====
-- The destructor of `ColumnBindable` in include/exodbc/ColumnBuffer.h.
use mathlib.Core.Path.{subst}
use exodbc.Prelude.{
  ℕ, ◌≡◌, refl, sym, ap, ◌∙◌, inl, inr, true, false, ◌&&◌, some, List, [], ◌∷◌, arith, ◌==◌,
  if◌then◌else◌, Bool-cases,
}
use exodbc.Odbc.{Driver, Event, Result, World, ok, raised}
use exodbc.Bindable.{
  same, set_connections, find, disconnect, release, release_each, destroy_bindable, Binding, Store,
  columns, params,
}
use exodbc.Bindable.Held.{is_held, is_plain}
use exodbc.Bindable.Steps.{Shrinks-refl, Shrinks-trans, release_lem, released-held, Shrinks}
use exodbc.Bindable.Signals.{same_self}
use exodbc.Bindable.Free.{release-lets_go, release-Shrinks}
use exodbc.Bindable.Laws.{Shrinks-IsTracked, IsTracked}

module _ (d : Driver) where
  -- Slots matter to no other part of what a step may change.
  slots-Shrinks :
      (k : Binding) (b h o : ℕ) (w : World Store)
      → Shrinks d w (record w { self = disconnect k b h o w.self })
  slots-Shrinks k b h o w = record {
    same_handle = λ x n e. e;
    same_entry = λ j c n x e. e;
    still_given = λ n e. e;
    was_held = λ j n c e. e;
    keeps_entry = λ j n c x e f. f;
    keeps_handle = λ j n c x e f. f;
    was_plain = λ e. e;
  }

  caught :
      (r : Result (Unit {0})) (w : World Store)
      → (elim r as (λ z. Result (Unit {0}) × World Store) [
        | ok a ↦ (ok a, w)
        | raised e ↦ (ok tt, w)
      ])
        ≡ (ok tt, w)
  caught (ok a) w = refl
  caught (raised e) w = refl

  -- The world after one turn of the loop.
  turned : Binding → ℕ → ℕ → ℕ → World Store → World Store
  turned k b h o w = (release d k o (record w { self = disconnect k b h o w.self })).1

  turn_lem :
      (k : Binding) (b h o : ℕ) (r : List (ℕ × ℕ)) (w : World Store)
      → release_each d k b ((h, o) ∷ r) w ≡ release_each d k b r (turned k b h o w)
  unfolding release_each turned
  turn_lem k b h o r w =
      let v = record w { self = disconnect k b h o w.self } in
      ap
        (λ x. elim x.0 as (λ z. Result (Unit {0}) × World Store) [
          | ok a ↦ release_each d k b r x.1
          | raised e ↦ (raised e, x.1)
        ])
        (caught (release d k o v).0 (release d k o v).1)

  turned-Shrinks : (k : Binding) (b h o : ℕ) (w : World Store) → Shrinks d w (turned k b h o w)
  unfolding turned
  turned-Shrinks k b h o w =
      let v = record w { self = disconnect k b h o w.self } in
      Shrinks-trans d w v (release d k o v).1 (slots-Shrinks k b h o w) (release-Shrinks d k o v)

  -- A turn for the handle that has this SQLHSTMT leaves nothing held for it.
  turned-held :
      (k : Binding) (b h o : ℕ) (w : World Store)
      → is_plain d (turned k b h o w).trace ≡ true
      → (w.self.handles o).handle ≡ some h
      → is_held d k h b (turned k b h o w).trace ≡ false
  unfolding turned
  turned-held k b h o w l e =
      let v = record w { self = disconnect k b h o w.self } in
      let gone = release-lets_go d k o h v e l in
      ap (λ x. is_held d k h b x.1.trace) (release_lem d k o h v e gone)
      ∙ released-held d k k o h h b v gone
      ∙ ground (arith, same_self k)

  first_turn_held :
      (k : Binding) (b x p h o : ℕ) (w : World Store)
      → is_plain d (turned k b x p w).trace ≡ true
      → x ≡ h
      → p ≡ o
      → (w.self.handles o).handle ≡ some h
      → is_held d k h b (turned k b x p w).trace ≡ false
  first_turn_held k b x p h o w l e f g =
      subst (λ z. is_held d k z b (turned k b x p w).trace ≡ false) e
        (turned-held k b x p w l (ap (λ q. (w.self.handles q).handle) f ∙ g ∙ ap some (sym e)))

  each-returns :
      (k : Binding) (b : ℕ) (cs : List (ℕ × ℕ)) (w : World Store)
      → (release_each d k b cs w).0 ≡ ok tt
  unfolding release_each
  each-returns k b [] w = refl
  each-returns k b ((h, o) ∷ r) w =
      ap (λ x. x.0) (turn_lem k b h o r w) ∙ each-returns k b r (turned k b h o w)

  each-Shrinks :
      (k : Binding) (b : ℕ) (cs : List (ℕ × ℕ)) (w : World Store)
      → Shrinks d w (release_each d k b cs w).1
  unfolding release_each
  each-Shrinks k b [] w = Shrinks-refl d w
  each-Shrinks k b ((h, o) ∷ r) w =
      subst (λ x. Shrinks d w x.1) (sym (turn_lem k b h o r w))
        (Shrinks-trans d w (turned k b h o w) (release_each d k b r (turned k b h o w)).1
          (turned-Shrinks k b h o w) (each-Shrinks k b r (turned k b h o w)))

  -- After the loop over a map nothing is held for the entries that are right.
  each-held :
      (k : Binding) (b : ℕ) (cs : List (ℕ × ℕ)) (w : World Store) (h o : ℕ)
      → is_plain d (release_each d k b cs w).1.trace ≡ true
      → find h cs ≡ some o
      → (w.self.handles o).handle ≡ some h
      → is_held d k h b (release_each d k b cs w).1.trace ≡ false
  each-held k b [] w h o l e f = absurd (ground (arith, e))
  each-held k b ((x, p) ∷ r) w h o l e f =
      let v = turned k b x p w in
      let rest = each-Shrinks k b r v in
      let after = ap (λ z. is_plain d z.1.trace) (sym (turn_lem k b x p r w)) ∙ l in
      ap (λ z. is_held d k h b z.1.trace) (turn_lem k b x p r w)
      ∙ elim (Bool-cases (is_held d k h b (release_each d k b r v).1.trace)) [
        | inr n ↦ n
        | inl held ↦ elim (Bool-cases (x == h)) [
          | inl same_key ↦ absurd (
              ground (
                arith,
                first_turn_held k b x p h o w (rest.was_plain after) (ground (arith, same_key))
                    (ground (arith, e, same_key)) f,
                rest.was_held k h b held,
              ))
          | inr other ↦
              each-held k b r v h o after (ground (arith, e, other))
                ((turned-Shrinks k b x p w).keeps_handle k h b o (rest.was_held k h b held) f)
        ]
      ]

  -- A loop over the whole map leaves nothing held, whatever else is done after it.
  each-nothing_held :
      (k : Binding) (b h : ℕ) (w w' : World Store)
      → is_plain d w'.trace ≡ true
      → IsTracked d w
      → Shrinks d (release_each d k b (w.self.connections k b) w).1 w'
      → is_held d k h b w'.trace ≡ false
  each-nothing_held k b h w w' l t s = elim (Bool-cases (is_held d k h b w'.trace)) [
    | inr n ↦ n
    | inl held ↦
        let v = (release_each d k b (w.self.connections k b) w).1 in
        let later = s.was_held k h b held in
        let (o, e, f) =
          t.tracked k h b ((each-Shrinks k b (w.self.connections k b) w).was_held k h b later) in
        absurd
          (ground (arith, later, each-held k b (w.self.connections k b) w h o (s.was_plain l) e f))
  ]

  -- The worlds after the loops of the destructor.
  after_params : ℕ → World Store → World Store
  after_params b w = (release_each d params b (w.self.connections params b) w).1

  after_columns : ℕ → World Store → World Store
  after_columns b w =
      let v = after_params b w in (release_each d columns b (v.self.connections columns b) v).1

  forgotten : ℕ → World Store → World Store
  forgotten b w = record w {
    self = set_connections params b [] (set_connections columns b [] w.self);
  }

  destroy_lem :
      (b : ℕ) (w : World Store) → destroy_bindable d b w ≡ (ok tt, forgotten b (after_columns b w))
  unfolding destroy_bindable after_params after_columns forgotten
  destroy_lem b w =
      let v = after_params b w in
      let last = λ (r : Result (Unit {0})) (x : World Store).
        elim r as (λ z. Result (Unit {0}) × World Store) [
          | ok a ↦ (ok tt, forgotten b x)
          | raised e ↦ (raised e, x)
        ] in
      ap
        (λ r. elim r as (λ z. Result (Unit {0}) × World Store) [
          | ok a ↦
              last (release_each d columns b (v.self.connections columns b) v).0
                (release_each d columns b (v.self.connections columns b) v).1
          | raised e ↦ (raised e, v)
        ])
        (each-returns params b (w.self.connections params b) w)
      ∙ ap (λ r. last r (after_columns b w))
          (each-returns columns b (v.self.connections columns b) v)

  after_params-Shrinks : (b : ℕ) (w : World Store) → Shrinks d w (after_params b w)
  unfolding after_params
  after_params-Shrinks b w = each-Shrinks params b (w.self.connections params b) w

  columns-Shrinks : (b : ℕ) (w : World Store) → Shrinks d (after_params b w) (after_columns b w)
  unfolding after_columns
  columns-Shrinks b w =
      each-Shrinks columns b ((after_params b w).self.connections columns b) (after_params b w)

  nothing_held :
      (b : ℕ) (w : World Store) (k : Binding) (h : ℕ)
      → is_plain d (after_columns b w).trace ≡ true
      → IsTracked d w
      → is_held d k h b (after_columns b w).trace ≡ false
  unfolding after_params after_columns
  nothing_held b w params h l t =
      each-nothing_held params b h w (after_columns b w) l t (columns-Shrinks b w)
  nothing_held b w columns h l t =
      let v = after_params b w in
      each-nothing_held columns b h v (after_columns b w) l
        (Shrinks-IsTracked d w v (after_params-Shrinks b w) t) (Shrinks-refl d (after_columns b w))

  forgotten-plain :
      (b : ℕ) (w : World Store)
      → is_plain d (destroy_bindable d b w).1.trace ≡ true
      → is_plain d (after_columns b w).trace ≡ true
  unfolding forgotten
  forgotten-plain b w p = ap (λ r. is_plain d r.1.trace) (sym (destroy_lem b w)) ∙ p

  -- What was not plain before the destructor is not plain after it.
  pub destroy_bindable_plain :
      (b : ℕ) (w : World Store)
      → is_plain d (destroy_bindable d b w).1.trace ≡ true
      → is_plain d w.trace ≡ true
  destroy_bindable_plain b w p =
      (Shrinks-trans d w (after_params b w) (after_columns b w) (after_params-Shrinks b w)
          (columns-Shrinks b w)).was_plain
        (forgotten-plain b w p)

  find-forgotten :
      (k : Binding) (b c h : ℕ) (f : Binding → ℕ → List (ℕ × ℕ))
      → (c == b) ≡ false
      → find h
          (if same k params && c == b then [] else if same k columns && c == b then [] else f k c)
        ≡ find h (f k c)
  find-forgotten columns b c h f n = ground (arith, n)
  find-forgotten params b c h f n = ground (arith, n)

  find-forgotten_was :
      (k : Binding) (b c h o : ℕ) (f : Binding → ℕ → List (ℕ × ℕ))
      → find h
          (if same k params && c == b then [] else if same k columns && c == b then [] else f k c)
        ≡ some o
      → find h (f k c) ≡ some o
  find-forgotten_was columns b c h o f e = ground (arith, e)
  find-forgotten_was params b c h o f e = ground (arith, e)

  other_buffer :
      (k : Binding) (h b c : ℕ) (tr : List Event)
      → is_held d k h b tr ≡ false
      → is_held d k h c tr ≡ true
      → (c == b) ≡ false
  other_buffer k h b c tr e f = ground (arith, e, f)

  forgotten-Shrinks :
      (b : ℕ) (w : World Store)
      → ((k : Binding) (h : ℕ) → is_held d k h b w.trace ≡ false)
      → Shrinks d w (forgotten b w)
  unfolding forgotten
  forgotten-Shrinks b w n = record {
    same_handle = λ o h e. e;
    same_entry = λ k c h o e. find-forgotten_was k b c h o w.self.connections e;
    still_given = λ h e. e;
    was_held = λ k h c e. e;
    keeps_entry = λ k h c o e f.
        find-forgotten k b c h w.self.connections (other_buffer k h b c w.trace (n k h) e) ∙ f;
    keeps_handle = λ k h c o e f. f;
    was_plain = λ e. e;
  }

  pub destroy_bindable-IsTracked :
      (b : ℕ) (w : World Store)
      → is_plain d (destroy_bindable d b w).1.trace ≡ true
      → IsTracked d w
      → IsTracked d (destroy_bindable d b w).1
  destroy_bindable-IsTracked b w p t =
      let v = after_columns b w in
      subst (λ r. IsTracked d r.1) (sym (destroy_lem b w))
        (Shrinks-IsTracked d w (forgotten b v)
          (Shrinks-trans d w v (forgotten b v)
            (Shrinks-trans d w (after_params b w) v (after_params-Shrinks b w)
              (columns-Shrinks b w))
            (forgotten-Shrinks b v (λ k h. nothing_held b w k h (forgotten-plain b w p) t)))
          t)
