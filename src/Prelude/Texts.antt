-- ===== src/Prelude/Texts.antt =====
-- Texts as the lists of their bytes, and what the source asks of boost for texts.
use Prim.Native.Nat.{ℕ}
use Prim.Native.Char.{code}
use Prim.Native.String.{String}
use mathlib.Core.Path.{◌≡◌, refl}
use mathlib.Core.Bool.{Bool, true, false, not, ◌&&◌}
use mathlib.Core.List.{List, [], ◌∷◌, ◌++◌}
use native.Mathlib.Omega.{arith}
use exodbc.Prelude.Tests.{◌==◌, if◌then◌else◌}

abbrev pub Text : Type 0
Text = List ℕ

-- The bytes of an ASCII literal.
abbrev pub txt : String → Text
txt String.[] = []
txt (String.◌∷◌ c s) = code c ∷ txt s

-- `std::string::operator==`
unfoldable pub text_eq : Text → Text → Bool
text_eq [] [] = true
text_eq [] (d ∷ t) = false
text_eq (c ∷ s) [] = false
text_eq (c ∷ s) (d ∷ t) = c == d && text_eq s t

pub text_eq_sound : (s t : Text) → text_eq s t ≡ true → s ≡ t
unfolding text_eq
text_eq_sound [] [] e = refl
text_eq_sound [] (d ∷ t) e = ground arith
text_eq_sound (c ∷ s) [] e = ground arith
text_eq_sound (c ∷ s) (d ∷ t) e = ground (arith, text_eq_sound s t)

pub text_eq_refl : (s : Text) → text_eq s s ≡ true
unfolding text_eq
text_eq_refl [] = refl
text_eq_refl (c ∷ s) = ground (arith, text_eq_refl s)

-- The text of a format that holds no other directive than `%s`, with its arguments put in.
abbrev pub fill : Text → List Text → Text
fill [] args = []
fill (c ∷ []) args = c ∷ []
fill (c ∷ d ∷ f) [] = c ∷ fill (d ∷ f) []
fill (c ∷ d ∷ f) (a ∷ args) =
    let put = a ++ fill f args in
    let keep = c ∷ fill (d ∷ f) (a ∷ args) in if (c == b'%') && (d == b's') then put else keep

-- A format in which each `%` begins a `%s`, with as many arguments as there are of these.
abbrev pub is_plain_format : Text → List Text → Bool
is_plain_format [] [] = true
is_plain_format [] (a ∷ args) = false
is_plain_format (c ∷ []) [] = not (c == b'%')
is_plain_format (c ∷ []) (a ∷ args) = false
is_plain_format (c ∷ d ∷ f) [] = not (c == b'%') && is_plain_format (d ∷ f) []
is_plain_format (c ∷ d ∷ f) (a ∷ args) =
    let taken = is_plain_format f args in
    let kept = is_plain_format (d ∷ f) (a ∷ args) in if c == b'%' then d == b's' && taken else kept

-- The functions of boost that the source calls on texts, with what their documents say of them:
-- `erase_last` removes the last occurrence of its second argument, and `format` puts its arguments
-- in the places of `%s`, where there is no other directive and as many arguments.
pub record Boost : Type 0 where
  pub erase_last : Text → Text → Text
  pub format : Text → List Text → Text
  pub iequals : Text → Text → Bool

pub record BoostLaws (b : Boost) : Type 0 where
  pub erase_last-empty : (c : ℕ) (x : Text) → b.erase_last [] (c ∷ x) ≡ []
  pub erase_last-suffix : (s : Text) (c : ℕ) (x : Text) → b.erase_last (s ++ (c ∷ x)) (c ∷ x) ≡ s
  pub format-fill :
      (f : Text) (args : List Text) → is_plain_format f args ≡ true → b.format f args ≡ fill f args
  pub iequals-refl : (s : Text) → b.iequals s s ≡ true
