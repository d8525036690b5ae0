-- ===== src/Catalog/Escape.antt =====
-- `EscapePatternValueArguments` of src/DatabaseCatalog.cpp.
use exodbc.Prelude.{
  ℕ, ◌≡◌, refl, ap, ◌∙◌, Bool, false, ◌||◌, List, [], ◌∷◌, ◌++◌, map, arith, ◌==◌, if◌then◌else◌,
}
use exodbc.Prelude.Texts.{Text, txt}
use exodbc.Odbc.{Action, ◌>>=◌, pure}
use exodbc.Props.Getters.{get_text}
use exodbc.Props.Version.{TextLibrary}
use exodbc.Catalog.{on_props, DatabaseCatalog}

unfoldable pub escape_with : TextLibrary → Text → Text → Text
escape_with t esc input =
    t.replace_all (t.replace_all input (txt "%") (esc ++ txt "%")) (txt "_") (esc ++ txt "_")

unfoldable pub escape_pattern_value_arguments : TextLibrary → Text → Action DatabaseCatalog Text
unfolding get_text escape_with
escape_pattern_value_arguments t input = do
  esc ← on_props (get_text t (txt "SQL_SEARCH_PATTERN_ESCAPE"))
  pure (escape_with t esc input)

-- Every byte `c` of a text replaced.
abbrev pub substitute : ℕ → Text → Text → Text
substitute c r [] = []
substitute c r (x ∷ s) = let rest = substitute c r s in if x == c then r ++ rest else x ∷ rest

-- What the documents of boost say of `replace_all` for a text of one byte.
pub record ReplaceLaws (t : TextLibrary) : Type 0 where
  pub replace_all-byte :
      (s : Text) (c : ℕ) (r : Text) → t.replace_all s (c ∷ []) r ≡ substitute c r s

-- What a pattern means to the driver, by the documents of ODBC: `%` and `_` stand for any text and
-- any character, but not after the escape character, which is `e`.
pub data Token : Type 0 where
  any_text any_character : Token
  literal : ℕ → Token

abbrev token : ℕ → Token
token c = if c == b'%' then any_text else (if c == b'_' then any_character else literal c)

abbrev pub tokens : ℕ → Text → List Token
tokens e [] = []
tokens e (c ∷ []) = token c ∷ []
tokens e (c ∷ x ∷ r) =
    let escaped = literal x ∷ tokens e r in
    let plain_ = token c ∷ tokens e (x ∷ r) in if c == e then escaped else plain_

abbrev pub occurs : ℕ → Text → Bool
occurs e [] = false
occurs e (c ∷ s) = c == e || occurs e s

tokens-plain : (e c : ℕ) (r : Text) → (c == e) ≡ false → tokens e (c ∷ r) ≡ token c ∷ tokens e r
tokens-plain e c [] h = refl
tokens-plain e c (x ∷ r) h = ground (arith, h)

tokens-escaped : (e x : ℕ) (r : Text) → tokens e (e ∷ x ∷ r) ≡ literal x ∷ tokens e r
tokens-escaped e x r = ground arith

abbrev escaped_text : ℕ → Text → Text
escaped_text e s = substitute b'_' (e ∷ b'_' ∷ []) (substitute b'%' (e ∷ b'%' ∷ []) s)

tokens-escaped_text :
    (e : ℕ) (s : Text)
    → (e == b'%') ≡ false
    → (e == b'_') ≡ false
    → occurs e s ≡ false
    → tokens e (escaped_text e s) ≡ map literal s
tokens-escaped_text e [] p u o = refl
tokens-escaped_text e (c ∷ s) p u o =
    grind (arith, tokens-escaped_text e s, tokens-plain, tokens-escaped)

-- With an escape character other than `%` and `_`, a text in which it does not occur is a pattern for
-- just this text once it is escaped: every byte of it is taken literally.
pub escape_with-tokens :
    (t : TextLibrary) (e : ℕ) (s : Text)
    → ReplaceLaws t
    → (e == b'%') ≡ false
    → (e == b'_') ≡ false
    → occurs e s ≡ false
    → tokens e (escape_with t (e ∷ []) s) ≡ map literal s
unfolding escape_with
escape_with-tokens t e s l p u o =
    ap (tokens e) (
      ap (λ x. t.replace_all x (txt "_") (e ∷ txt "_")) (l.replace_all-byte s b'%' (e ∷ txt "%"))
      ∙ l.replace_all-byte (substitute b'%' (e ∷ txt "%") s) b'_' (e ∷ txt "_"))
    ∙ tokens-escaped_text e s p u o
