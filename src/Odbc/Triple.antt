-- ===== src/Odbc/Triple.antt =====
-- Conditions before and after an action: one after it returns, one after it throws.
use exodbc.Prelude.{}
use exodbc.Odbc.{Action, ◌>>=◌, throw, get, modify, catch, Exn, Result, World, ok, raised}
use exodbc.Odbc.Keeps.{Keeps}

-- What holds of the object at the end.
abbrev pub Ended : {S A : Type 0} → (S → Type 0) → (S → Type 0) → Result A × World S → Type 0
Ended Q E (ok a, w) = Q w.self
Ended Q E (raised e, w) = E w.self

pub record Triple {S A : Type 0} (P Q E : S → Type 0) (m : Action S A) : Type 0 where
  pub ends : (w : World S) → P w.self → Ended Q E (m w)

module _ {S A : Type 0} (P : S → Type 0) where
  Ended-Keeps : (r : Result A × World S) → P r.1.self → Ended P P r
  Ended-Keeps (ok a, w) h = h
  Ended-Keeps (raised e, w) h = h

module _ {S A : Type 0} {P : S → Type 0} where
  pub Triple-Keeps : (m : Action S A) → Keeps P m → Triple P P P m
  Triple-Keeps m k = record { ends = λ w h. Ended-Keeps P (m w) (k.at w h) }

module _ {S A : Type 0} {Q E : S → Type 0} where
  Ended-catch :
      (r : Result A) (w : World S) (handle : Exn → Action S A)
      → Ended Q E (r, w)
      → ((e : Exn) → Triple E Q E (handle e))
      → Ended Q E (elim r as (λ x. Result A × World S) [ ok a ↦ (ok a, w) | raised e ↦ handle e w ])
  Ended-catch (ok a) w handle h k = h
  Ended-catch (raised e) w handle h k = (k e).ends w h

module _ {S A : Type 0} {P Q E : S → Type 0} where
  pub Triple-throw : (e : Exn) → ((s : S) → P s → E s) → Triple P Q E (throw {A = A} e)
  Triple-throw e k = record { ends = λ w h. k w.self h }

  pub Triple-catch :
      (m : Action S A) (handle : Exn → Action S A)
      → Triple P Q E m
      → ((e : Exn) → Triple E Q E (handle e))
      → Triple P Q E (catch m handle)
  Triple-catch m handle k l = record {
    ends = λ w h. Ended-catch (m w).0 (m w).1 handle (k.ends w h) l;
  }

module _ {S : Type 0} {P Q E : S → Type 0} where
  pub Triple-modify : (f : S → S) → ((s : S) → P s → Q (f s)) → Triple P Q E (modify f)
  Triple-modify f k = record { ends = λ w h. k w.self h }

module _ {S A B : Type 0} {R Q E : S → Type 0} where
  Ended-bind :
      (r : Result A) (w : World S) (f : A → Action S B)
      → Ended R E (r, w)
      → ((a : A) → Triple R Q E (f a))
      → Ended Q E (elim r as (λ x. Result B × World S) [ ok a ↦ f a w | raised e ↦ (raised e, w) ])
  Ended-bind (ok a) w f h k = (k a).ends w h
  Ended-bind (raised e) w f h k = h

  pub Triple-bind :
      {P : S → Type 0} (m : Action S A) (f : A → Action S B)
      → Triple P R E m
      → ((a : A) → Triple R Q E (f a))
      → Triple P Q E (m >>= f)
  Triple-bind m f k l = record { ends = λ w h. Ended-bind (m w).0 (m w).1 f (k.ends w h) l }

module _ {S A B : Type 0} {P Q : S → Type 0} where
  -- A first step that keeps the condition, also if it throws.
  pub Triple-step :
      (m : Action S A) (f : A → Action S B)
      → Keeps P m
      → ((a : A) → Triple P Q P (f a))
      → Triple P Q P (m >>= f)
  Triple-step m f k l = Triple-bind m f (Triple-Keeps m k) l

module _ {S B : Type 0} {P Q E : S → Type 0} where
  -- The object that is read meets the condition.
  pub Triple-get :
      (f : S → Action S B) → ((s : S) → P s → Triple P Q E (f s)) → Triple P Q E (get >>= f)
  Triple-get f k = record { ends = λ w h. (k w.self h).ends w h }

module _ {S B : Type 0} {Q E F G : S → Type 0} where
  Ended-weaken :
      (r : Result B × World S)
      → ((s : S) → Q s → G s)
      → ((s : S) → E s → F s)
      → Ended Q E r
      → Ended G F r
  Ended-weaken (ok b, w) j k h = j w.self h
  Ended-weaken (raised e, w) j k h = k w.self h

  pub Triple-weaken :
      {P : S → Type 0} (m : Action S B)
      → ((s : S) → Q s → G s)
      → ((s : S) → E s → F s)
      → Triple P Q E m
      → Triple P G F m
  Triple-weaken m j k t = record { ends = λ w h. Ended-weaken (m w) j k (t.ends w h) }

module _ {S A B : Type 0} {P Q E : S → Type 0} where
  -- A first step that keeps a condition, which the one after throwing follows from.
  pub Triple-then :
      (m : Action S A) (f : A → Action S B)
      → Keeps P m
      → ((s : S) → P s → E s)
      → ((a : A) → Triple P Q E (f a))
      → Triple P Q E (m >>= f)
  Triple-then m f k e l = Triple-bind m f (Triple-weaken m (λ s h. h) e (Triple-Keeps m k)) l

module _ {S A : Type 0} {X : Type 0} where
  Ended-known : (r : Result A × World S) → X → Ended (λ s. X) (λ s. Unit {0}) r
  Ended-known (ok a, w) x = x
  Ended-known (raised e, w) x = tt

  -- What does not depend on the object stays known.
  pub Triple-known : {P : S → Type 0} (m : Action S A) → X → Triple P (λ s. X) (λ s. Unit {0}) m
  Triple-known m x = record { ends = λ w h. Ended-known (m w) x }

  pub Triple-still : (m : Action S A) → Triple (λ s. X) (λ s. X) (λ s. Unit {0}) m
  Triple-still m = record { ends = λ w x. Ended-known (m w) x }

module _ {S A : Type 0} (P Q : S → Type 0) where
  Ended-and :
      (r : Result A × World S) → P r.1.self → Ended Q (λ s. Unit {0}) r → Ended (λ s. P s × Q s) P r
  Ended-and (ok a, w) p q = (p, q)
  Ended-and (raised e, w) p q = p

module _ {S A : Type 0} {P Q : S → Type 0} where
  pub Triple-and :
      (m : Action S A) → Keeps P m → Triple P Q (λ s. Unit {0}) m → Triple P (λ s. P s × Q s) P m
  Triple-and m k t = record { ends = λ w h. Ended-and P Q (m w) (k.at w h) (t.ends w h) }

pub ruleset triple_rules = (Triple-throw, Triple-catch, Triple-modify, Triple-step)
