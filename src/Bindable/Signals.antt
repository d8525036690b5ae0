-- ===== src/Bindable/Signals.antt =====
-- The signals of handles in include/exodbc/SqlHandle.h, and what they do to the connections of the
-- buffers of include/exodbc/ColumnBuffer.h.
use exodbc.Prelude.{
  ℕ, ◌≡◌, refl, ◌∙◌, Bool, true, false, ◌&&◌, Option, none, some, List, [], ◌∷◌, arith, ◌==◌,
  if◌then◌else◌,
}
use exodbc.Odbc.{Event, fired_reset_params, fired_unbind_columns}
use exodbc.Bindable.{
  same, find, erase_key, erase_connection, on_released, notify, Binding, Store, columns, params,
}
use exodbc.Bindable.Held.{is_handle}

-- The signal of a release.
abbrev pub fired : Binding → Option ℕ → Event
fired columns h = fired_unbind_columns h
fired params h = fired_reset_params h

pub same_sound : (j k : Binding) → same j k ≡ true → j ≡ k
same_sound columns columns e = refl
same_sound params params e = refl
same_sound columns params e = ground arith
same_sound params columns e = ground arith

pub same_self : (k : Binding) → same k k ≡ true
same_self columns = refl
same_self params = refl

find-erase_key :
    (h x : ℕ) (xs : List (ℕ × ℕ)) → (x == h) ≡ false → find x (erase_key h xs) ≡ find x xs
find-erase_key h x [] n = refl
find-erase_key h x ((y, o) ∷ r) n = ground (arith, find-erase_key h x r)

-- Signals change no handle, and no connection but those for the SQLHSTMT that is released.
pub notify-handles :
    (k : Binding) (h : Option ℕ) (xs : List (ℕ × ℕ)) (s : Store)
    → (notify k h xs s).handles ≡ s.handles
unfolding notify on_released
notify-handles k h [] s = refl
notify-handles k none ((b, x) ∷ r) s = notify-handles k none r s
notify-handles k (some h) ((b, x) ∷ r) s =
    notify-handles k (some h) r (on_released k (some h) b s)
    ∙ (elim (find h (s.connections k b))
        as (λ f. (erase_connection k b h f s).handles ≡ s.handles) [ none ↦ refl | some o ↦ refl ])

-- Is this the connection that such a signal erases?
abbrev pub concerns : Binding → Option ℕ → Binding → ℕ → Bool
concerns k h j x = same j k && is_handle h x

find-erased :
    (k j : Binding) (h b c x : ℕ) (f : Binding → ℕ → List (ℕ × ℕ))
    → concerns k (some h) j x ≡ false
    → find x (if same j k && c == b then erase_key h (f k b) else f j c) ≡ find x (f j c)
find-erased columns columns h b c x f n = ground (arith, find-erase_key h x (f columns b))
find-erased params params h b c x f n = ground (arith, find-erase_key h x (f params b))
find-erased columns params h b c x f n = refl
find-erased params columns h b c x f n = refl

on_released-find :
    (k j : Binding) (h : Option ℕ) (b c x : ℕ) (s : Store)
    → concerns k h j x ≡ false
    → find x ((on_released k h b s).connections j c) ≡ find x (s.connections j c)
unfolding on_released
on_released-find k j none b c x s n = refl
on_released-find k j (some h) b c x s n =
    elim (find h (s.connections k b))
      as (λ f. find x ((erase_connection k b h f s).connections j c) ≡ find x (s.connections j c)) [
        | none ↦ refl
        | some o ↦ find-erased k j h b c x s.connections n
      ]

pub notify-find :
    (k j : Binding) (h : Option ℕ) (c x : ℕ) (xs : List (ℕ × ℕ)) (s : Store)
    → concerns k h j x ≡ false
    → find x ((notify k h xs s).connections j c) ≡ find x (s.connections j c)
unfolding notify
notify-find k j h c x [] s n = refl
notify-find k j h c x ((b, y) ∷ r) s n =
    notify-find k j h c x r (on_released k h b s) n ∙ on_released-find k j h b c x s n

find-erase_key_self : (h : ℕ) (xs : List (ℕ × ℕ)) → find h (erase_key h xs) ≡ none
find-erase_key_self h [] = refl
find-erase_key_self h ((y, o) ∷ r) = ground (arith, find-erase_key_self h r)

find-erase_key_was :
    (h x o : ℕ) (xs : List (ℕ × ℕ)) → find x (erase_key h xs) ≡ some o → find x xs ≡ some o
find-erase_key_was h x o xs e = ground (arith, find-erase_key h x xs, find-erase_key_self h xs)

find-erased_was :
    (k j : Binding) (h b c x o : ℕ) (f : Binding → ℕ → List (ℕ × ℕ))
    → find x (if same j k && c == b then erase_key h (f k b) else f j c) ≡ some o
    → find x (f j c) ≡ some o
find-erased_was columns columns h b c x o f e =
    ground (arith, find-erase_key_was h x o (f columns b))
find-erased_was params params h b c x o f e = ground (arith, find-erase_key_was h x o (f params b))
find-erased_was columns params h b c x o f e = e
find-erased_was params columns h b c x o f e = e

-- What is found after a signal was there before.
on_released-find_was :
    (k j : Binding) (h : Option ℕ) (b c x o : ℕ) (s : Store)
    → find x ((on_released k h b s).connections j c) ≡ some o
    → find x (s.connections j c) ≡ some o
unfolding on_released
on_released-find_was k j none b c x o s e = e
on_released-find_was k j (some h) b c x o s e =
    elim (find h (s.connections k b))
        as (λ f.
          find x ((erase_connection k b h f s).connections j c) ≡ some o
          → find x (s.connections j c) ≡ some o) [
            | none ↦ λ g. g
            | some p ↦ find-erased_was k j h b c x o s.connections
          ]
      e

pub notify-find_was :
    (k j : Binding) (h : Option ℕ) (c x o : ℕ) (xs : List (ℕ × ℕ)) (s : Store)
    → find x ((notify k h xs s).connections j c) ≡ some o
    → find x (s.connections j c) ≡ some o
unfolding notify
notify-find_was k j h c x o [] s e = e
notify-find_was k j h c x o ((b, y) ∷ r) s e =
    on_released-find_was k j h b c x o s (notify-find_was k j h c x o r (on_released k h b s) e)
