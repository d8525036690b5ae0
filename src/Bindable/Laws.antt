-- ===== src/Bindable/Laws.antt =====
-- Every statement for which the driver may still use a buffer is known to the buffer: an invariant of
-- all operations on handles and buffers.
use exodbc.Prelude.{
  ℕ, ◌≡◌, sym, ◌∙◌, ◌⊎◌, inl, inr, true, false, Option, some, List, [], arith, ◌==◌, Bool-cases,
}
use exodbc.Odbc.{Driver, Event, World, stmt}
use exodbc.Handle.{new_handle, allocate_with_parent, Handle}
use exodbc.Bindable.{new_store, find, allocate_stmt, Binding, Store}
use exodbc.Bindable.Held.{is_held, was_given, is_plain}
use exodbc.Bindable.Steps.{Shrinks}
use exodbc.Bindable.Free.{put_back}

-- A statement that may use a buffer has an entry in the buffer's map, which points to the handle that
-- has this SQLHSTMT. All SQLHSTMTs come from the driver, no two handles have the same, and no handle
-- but that of an entry has the SQLHSTMT of its key.
pub record IsTracked (d : Driver) (w : World Store) : Type 0 where
  pub tracked :
      (k : Binding) (h b : ℕ)
      → is_held d k h b w.trace ≡ true
      → (o : ℕ) × (find h (w.self.connections k b) ≡ some o) × ((w.self.handles o).handle ≡ some h)
  pub key_given :
      (k : Binding) (h b o : ℕ)
      → find h (w.self.connections k b) ≡ some o
      → was_given d h w.trace ≡ true
  pub handle_given : (o h : ℕ) → (w.self.handles o).handle ≡ some h → was_given d h w.trace ≡ true
  pub owner :
      (k : Binding) (h b o p : ℕ)
      → find h (w.self.connections k b) ≡ some o
      → (w.self.handles p).handle ≡ some h
      → p ≡ o
  pub unique :
      (o p h : ℕ) → (w.self.handles o).handle ≡ some h → (w.self.handles p).handle ≡ some h → o ≡ p

-- An allocation of a handle, or none.
record Allocates (d : Driver) (h : Handle) (tr : List Event) (v : World Handle) : Type 0 where
  held : (k : Binding) (n b : ℕ) → is_held d k n b v.trace ≡ is_held d k n b tr
  given : (n : ℕ) → was_given d n tr ≡ true → was_given d n v.trace ≡ true
  kept : (n : ℕ) → h.handle ≡ some n → v.self.handle ≡ some n
  own :
      (n : ℕ)
      → v.self.handle ≡ some n
      → (h.handle ≡ some n) ⊎ ((was_given d n tr ≡ false) × (was_given d n v.trace ≡ true))

module _ (d : Driver) where
  pub new_store-IsTracked : IsTracked d (record { self = new_store; trace = [] })
  unfolding new_store new_handle is_held
  new_store-IsTracked = record {
    tracked = λ k h b e. absurd (ground (arith, e));
    key_given = λ k h b o e. ground (arith, e);
    handle_given = λ o h e. ground (arith, e);
    owner = λ k h b o p e f. ground (arith, e);
    unique = λ o p h e f. ground (arith, e);
  }

  pub Shrinks-IsTracked : (w w' : World Store) → Shrinks d w w' → IsTracked d w → IsTracked d w'
  Shrinks-IsTracked w w' s t = record {
    tracked = λ k h b e.
        let (o, f, g) = t.tracked k h b (s.was_held k h b e) in
        (o, s.keeps_entry k h b o e f, s.keeps_handle k h b o e g);
    key_given = λ k h b o e. s.still_given h (t.key_given k h b o (s.same_entry k b h o e));
    handle_given = λ o h e. s.still_given h (t.handle_given o h (s.same_handle o h e));
    owner = λ k h b o p e f. t.owner k h b o p (s.same_entry k b h o e) (s.same_handle p h f);
    unique = λ o p h e f. t.unique o p h (s.same_handle o h e) (s.same_handle p h f);
  }

  allocate-Allocates :
      (h : Handle) (tr : List Event) (p : Option ℕ)
      → is_plain d (allocate_with_parent d stmt (some p) (record { self = h; trace = tr })).1.trace
        ≡ true
      → Allocates d h tr (allocate_with_parent d stmt (some p) (record { self = h; trace = tr })).1
  unfolding allocate_with_parent is_held was_given is_plain
  allocate-Allocates h tr p l = record {
    held = λ k n b. ground arith;
    given = λ n e. ground (arith, e);
    kept = λ n e. ground (arith, e);
    own = λ n e. ground (arith, e, l);
  }

  -- An object that is put back has its new handle, and the others have theirs.
  module _ (o : ℕ) (w : World Store) (v : World Handle) where
    put_back-cases :
        (p h : ℕ)
        → ((put_back d o w v).self.handles p).handle ≡ some h
        → ((p ≡ o) × (v.self.handle ≡ some h)) ⊎ ((w.self.handles p).handle ≡ some h)
    put_back-cases p h e = elim (Bool-cases (p == o)) [
      | inl f ↦ ground (arith, e, f)
      | inr f ↦ ground (arith, e, f)
    ]

    -- The handle of `p` is the one that `o` was given, or what it was.
    abbrev Cases : ℕ → ℕ → Type 0
    Cases p h = ((p ≡ o) × (v.self.handle ≡ some h)) ⊎ ((w.self.handles p).handle ≡ some h)

    put_back_given :
        (p h : ℕ)
        → IsTracked d w
        → Allocates d (w.self.handles o) w.trace v
        → Cases p h
        → was_given d h v.trace ≡ true
    put_back_given p h t a (inr e) = a.given h (t.handle_given p h e)
    put_back_given p h t a (inl (f, e)) = elim (a.own h e) [
      | inl g ↦ a.given h (t.handle_given o h g)
      | inr (g, k) ↦ k
    ]

    put_back_owner :
        (k : Binding) (h b q p : ℕ)
        → IsTracked d w
        → Allocates d (w.self.handles o) w.trace v
        → find h (w.self.connections k b) ≡ some q
        → Cases p h
        → p ≡ q
    put_back_owner k h b q p t a e (inr f) = t.owner k h b q p e f
    put_back_owner k h b q p t a e (inl (f, g)) = elim (a.own h g) [
      | inl i ↦ f ∙ t.owner k h b q o e i
      | inr (i, j) ↦ absurd (ground (arith, i, t.key_given k h b q e))
    ]

    put_back_unique :
        (p q h : ℕ)
        → IsTracked d w
        → Allocates d (w.self.handles o) w.trace v
        → Cases p h
        → Cases q h
        → p ≡ q
    put_back_unique p q h t a (inr e) (inr f) = t.unique p q h e f
    put_back_unique p q h t a (inl (i, e)) (inl (j, f)) = i ∙ sym j
    put_back_unique p q h t a (inl (i, e)) (inr f) = elim (a.own h e) [
      | inl g ↦ i ∙ t.unique o q h g f
      | inr (g, k) ↦ absurd (ground (arith, g, t.handle_given q h f))
    ]
    put_back_unique p q h t a (inr f) (inl (i, e)) = elim (a.own h e) [
      | inl g ↦ t.unique p o h f g ∙ sym i
      | inr (g, k) ↦ absurd (ground (arith, g, t.handle_given p h f))
    ]

    put_back-IsTracked :
        IsTracked d w → Allocates d (w.self.handles o) w.trace v → IsTracked d (put_back d o w v)
    put_back-IsTracked t a = record {
      tracked = λ k h b e.
          let (q, f, g) = t.tracked k h b (sym (a.held k h b) ∙ e) in
          (q, f, ground (arith, g, a.kept h));
      key_given = λ k h b q e. a.given h (t.key_given k h b q e);
      handle_given = λ p h e. put_back_given p h t a (put_back-cases p h e);
      owner = λ k h b q p e f. put_back_owner k h b q p t a e (put_back-cases p h f);
      unique = λ p q h e f. put_back_unique p q h t a (put_back-cases p h e) (put_back-cases q h f);
    }

  pub allocate_stmt-IsTracked :
      (o : ℕ) (p : Option ℕ) (w : World Store)
      → is_plain d (allocate_stmt d o p w).1.trace ≡ true
      → IsTracked d w
      → IsTracked d (allocate_stmt d o p w).1
  unfolding allocate_stmt
  allocate_stmt-IsTracked o p w l t =
      put_back-IsTracked o w
        (allocate_with_parent d stmt (some p)
          (record { self = w.self.handles o; trace = w.trace })).1
        t (allocate-Allocates (w.self.handles o) w.trace p l)

  allocated_plain :
      (h : Handle) (tr : List Event) (p : Option ℕ)
      → is_plain d (allocate_with_parent d stmt (some p) (record { self = h; trace = tr })).1.trace
        ≡ true
      → is_plain d tr ≡ true
  unfolding allocate_with_parent is_plain
  allocated_plain h tr p e = ground (arith, e)

  pub allocate_stmt_plain :
      (o : ℕ) (p : Option ℕ) (w : World Store)
      → is_plain d (allocate_stmt d o p w).1.trace ≡ true
      → is_plain d w.trace ≡ true
  unfolding allocate_stmt
  allocate_stmt_plain o p w e = allocated_plain (w.self.handles o) w.trace p e
