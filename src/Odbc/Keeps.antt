-- ===== src/Odbc/Keeps.antt =====
-- Invariants of the object under an action: one rule for each way to build an action.
use exodbc.Prelude.{◌≡◌, refl, Bool, true, false}
use exodbc.Odbc.{
  Driver, Action, ◌>>=◌, pure, throw, get, modify, ex_assert, when, branch, catch, fire, invoke,
  throw_ifn_succeeded, throw_ifn_success, Call, Reply, Event, Exn, Result, World, ok, raised,
}

-- `m` keeps `P` of the object, whether it returns or throws.
pub record Keeps {S A : Type 0} (P : S → Type 0) (m : Action S A) : Type 0 where
  pub at : (w : World S) → P w.self → P (m w).1.self

module _ {S A : Type 0} {P : S → Type 0} where
  pub Keeps-pure : (a : A) → Keeps P (pure a)
  Keeps-pure a = record { at = λ w h. h }

  pub Keeps-throw : (e : Exn) → Keeps P (throw {A = A} e)
  Keeps-throw e = record { at = λ w h. h }

  pub Keeps-branch :
      (b : Bool) (m n : Action S A)
      → (b ≡ true → Keeps P m)
      → (b ≡ false → Keeps P n)
      → Keeps P (branch b m n)
  Keeps-branch true m n km kn = record { at = (km refl).at }
  Keeps-branch false m n km kn = record { at = (kn refl).at }

  Keeps-handled :
      (r : Result A) (handle : Exn → Action S A) (w : World S)
      → P w.self
      → ((e : Exn) → Keeps P (handle e))
      → P
          (let x : Result A × World S = elim r [ ok a ↦ (ok a, w) | raised e ↦ handle e w ] in
            x).1.self
  Keeps-handled (ok a) handle w h k = h
  Keeps-handled (raised e) handle w h k = (k e).at w h

  pub Keeps-catch :
      (m : Action S A) (handle : Exn → Action S A)
      → Keeps P m
      → ((e : Exn) → Keeps P (handle e))
      → Keeps P (catch m handle)
  Keeps-catch m handle km kh = record {
    at = λ w h. Keeps-handled (m w).0 handle (m w).1 (km.at w h) kh;
  }

module _ {S : Type 0} {P : S → Type 0} where
  pub Keeps-get : Keeps P (get {S = S})
  Keeps-get = record { at = λ w h. h }

  pub Keeps-ex_assert : (b : Bool) → Keeps P (ex_assert b)
  Keeps-ex_assert b = record { at = λ w h. h }

  pub Keeps-when :
      (b : Bool) (m : Action S (Unit {0})) → (b ≡ true → Keeps P m) → Keeps P (when b m)
  Keeps-when true m km = record { at = (km refl).at }
  Keeps-when false m km = record { at = λ w h. h }

  pub Keeps-modify : (f : S → S) → ((s : S) → P s → P (f s)) → Keeps P (modify f)
  Keeps-modify f k = record { at = λ w h. k w.self h }

  pub Keeps-fire : (e : Event) → Keeps P (fire {S = S} e)
  Keeps-fire e = record { at = λ w h. h }

  pub Keeps-invoke : (d : Driver) (c : Call) → Keeps P (invoke {S = S} d c)
  Keeps-invoke d c = record { at = λ w h. h }

  pub Keeps-throw_ifn_succeeded : (r : Reply) → Keeps P (throw_ifn_succeeded {S = S} r)
  Keeps-throw_ifn_succeeded r = record { at = λ w h. h }

  pub Keeps-throw_ifn_success : (r : Reply) → Keeps P (throw_ifn_success {S = S} r)
  Keeps-throw_ifn_success r = record { at = λ w h. h }

module _ {S A B : Type 0} {P : S → Type 0} where
  Keeps-continued :
      (r : Result A) (f : A → Action S B) (w : World S)
      → P w.self
      → ((a : A) → Keeps P (f a))
      → P
          (let x : Result B × World S = elim r [ ok a ↦ f a w | raised e ↦ (raised e, w) ] in
            x).1.self
  Keeps-continued (ok a) f w h k = (k a).at w h
  Keeps-continued (raised e) f w h k = h

  pub Keeps-bind :
      (m : Action S A) (f : A → Action S B)
      → Keeps P m
      → ((a : A) → Keeps P (f a))
      → Keeps P (m >>= f)
  Keeps-bind m f km kf = record { at = λ w h. Keeps-continued (m w).0 f (m w).1 (km.at w h) kf }

module _ {S : Type 0} {P : S → Type 0} where
  pub Keeps-get-known :
      {B : Type 0} (f : S → Action S B) → ((s : S) → P s → Keeps P (f s)) → Keeps P (get >>= f)
  Keeps-get-known f k = record { at = λ w h. (k w.self h).at w h }

-- What holds of the values that an action returns.
abbrev pub OfResult : {A : Type 0} → (A → Type 0) → Result A → Type 0
OfResult R (ok a) = R a
OfResult R (raised e) = Unit

pub record Returns {S A : Type 0} (R : A → Type 0) (m : Action S A) : Type 0 where
  pub returns : (w : World S) → OfResult R (m w).0

module _ {S A B : Type 0} {P : S → Type 0} {R : A → Type 0} where
  Keeps-returned :
      (r : Result A) (f : A → Action S B) (w : World S)
      → P w.self
      → OfResult R r
      → ((a : A) → R a → Keeps P (f a))
      → P
          (let x : Result B × World S = elim r [ ok a ↦ f a w | raised e ↦ (raised e, w) ] in
            x).1.self
  Keeps-returned (ok a) f w h q k = (k a q).at w h
  Keeps-returned (raised e) f w h q k = h

  pub Keeps-bind-Returns :
      (m : Action S A) (f : A → Action S B)
      → Keeps P m
      → Returns R m
      → ((a : A) → R a → Keeps P (f a))
      → Keeps P (m >>= f)
  Keeps-bind-Returns m f km rm kf = record {
    at = λ w h. Keeps-returned (m w).0 f (m w).1 (km.at w h) (rm.returns w) kf;
  }

module _ {S A B : Type 0} {R : B → Type 0} where
  returned_after :
      (r : Result A) (f : A → Action S B) (w : World S)
      → ((a : A) → Returns R (f a))
      → OfResult R
          (let x : Result B × World S = elim r [ ok a ↦ f a w | raised e ↦ (raised e, w) ] in x).0
  returned_after (ok a) f w k = (k a).returns w
  returned_after (raised e) f w k = tt

  pub Returns-bind :
      (m : Action S A) (f : A → Action S B) → ((a : A) → Returns R (f a)) → Returns R (m >>= f)
  Returns-bind m f k = record { returns = λ w. returned_after (m w).0 f (m w).1 k }

module _ {S A B : Type 0} {Q : A → Type 0} {R : B → Type 0} where
  returned_by :
      (r : Result A) (f : A → Action S B) (w : World S)
      → OfResult Q r
      → ((a : A) → Q a → Returns R (f a))
      → OfResult R
          (let x : Result B × World S = elim r [ ok a ↦ f a w | raised e ↦ (raised e, w) ] in x).0
  returned_by (ok a) f w q k = (k a q).returns w
  returned_by (raised e) f w q k = tt

  pub Returns-bind-Returns :
      (m : Action S A) (f : A → Action S B)
      → Returns Q m
      → ((a : A) → Q a → Returns R (f a))
      → Returns R (m >>= f)
  Returns-bind-Returns m f q k = record {
    returns = λ w. returned_by (m w).0 f (m w).1 (q.returns w) k;
  }

module _ {S A : Type 0} {R : A → Type 0} where
  pub Returns-pure : (a : A) → R a → Returns {S = S} R (pure a)
  Returns-pure a h = record { returns = λ w. h }

pub ruleset keeps_rules = (
  Keeps-pure, Keeps-throw, Keeps-branch, Keeps-catch, Keeps-get, Keeps-ex_assert, Keeps-when,
  Keeps-modify, Keeps-fire, Keeps-invoke, Keeps-throw_ifn_succeeded, Keeps-throw_ifn_success,
  Keeps-bind,
)
