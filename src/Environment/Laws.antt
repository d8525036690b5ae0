-- ===== src/Environment/Laws.antt =====
-- The version of an environment in src/Environment.cpp and as text.
use exodbc.Prelude.{ℕ, ◌≡◌, Bool, true, false, Option, none, some, List, ◌∷◌, arith, if◌then◌else◌}
use exodbc.Prelude.Texts.{Text, text_eq}
use exodbc.Odbc.{
  succeeded, Driver, Event, Result, World, attr_odbc_version, sql_get_env_attr, sql_set_env_attr,
  called, ok, raised,
}
use exodbc.SqlTypes.{OdbcVersion}
use exodbc.Handle.{}
use exodbc.Environment.{
  read_version, write_version, version_value, is_unknown, read_odbc_version, set_odbc_version,
  Environment,
}

-- A driver that answers with the version that was set last, in the way the documents of ODBC say.
pub record RemembersVersion (d : Driver) : Type 0 where
  pub reads_back :
      (tr : List Event) (h : Option ℕ) (v : ℕ)
      → succeeded (d tr (sql_set_env_attr h attr_odbc_version v)).ret ≡ true
      → (d
          (called (sql_set_env_attr h attr_odbc_version v) ∷ tr)
          (sql_get_env_attr h attr_odbc_version)).out
        ≡ some v

-- How `SetOdbcVersion` may end, by what the environment then is.
abbrev pub VersionOutcome :
    OdbcVersion → World Environment → Result (Unit {0}) × World Environment → Type 0
VersionOutcome v w (ok a, w') = w'.self ≡ record (w.self) { odbc_version = v }
VersionOutcome v w (raised e, w') = w'.self ≡ w.self

-- With a driver that answers what it was told, an environment in which SetOdbcVersion returns has the
-- version that was asked for, as read back from the driver, and is otherwise as it was; if it throws,
-- the environment is as it was.
pub set_odbc_version_outcome :
    (d : Driver) (v : OdbcVersion) (w : World Environment)
    → RemembersVersion d
    → VersionOutcome v w (set_odbc_version d v w)
unfolding set_odbc_version read_odbc_version version_value
set_odbc_version_outcome d v w l = ground (
  arith,
  l.reads_back w.trace w.self.h_env.handle 2,
  l.reads_back w.trace w.self.h_env.handle 3,
  l.reads_back w.trace w.self.h_env.handle 380,
)

-- A version that is written and read.
abbrev pub reread : OdbcVersion → Option OdbcVersion
reread v = elim (write_version v) [ none ↦ none | some s ↦ read_version s ]

-- Is a text that is read written back the same?
abbrev pub is_text : Text → Option Text → Bool
is_text s none = false
is_text s (some t) = text_eq s t

abbrev pub is_rewritten : Text → Bool
is_rewritten s = elim (read_version s) [ none ↦ true | some v ↦ is_text s (write_version v) ]

-- The streams of versions are inverse to each other: a version that can be written is read back, and
-- each text that is read as a version is just what the version is written as.
pub version_round_trip :
    (v : OdbcVersion) (s : Text)
    → (reread v ≡ (if is_unknown v then none else some v)) × (is_rewritten s ≡ true)
unfolding write_version read_version text_eq
version_round_trip v s = (ground arith, ground arith)
