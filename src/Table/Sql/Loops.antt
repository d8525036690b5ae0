-- ===== src/Table/Sql/Loops.antt =====
-- What the loops of src/Table.cpp build.
use exodbc.Prelude.{
  ℕ, ◌≡◌, ap, ◌∙◌, inl, inr, false, not, ◌&&◌, List, [], ◌∷◌, ◌++◌, map, arith, if◌then◌else◌,
  Bool-cases, is_empty, All,
}
use exodbc.Prelude.Texts.{Text, txt, Boost, BoostLaws}
use exodbc.Odbc.{ok}
use exodbc.Flags.{test, cf_select, cf_update, cf_insert, cf_primary_key}
use exodbc.Buffer.{ColumnBuffer}
use exodbc.Table.{Columns}
use exodbc.Table.Sql.{select_loop, marker_loop, update_loop, insert_loop, UpdateParts, InsertParts}
use mathlib.Core.List.{append_assoc, append-nil}

-- The texts with another one between each two.
abbrev pub join : Text → List Text → Text
join sep [] = []
join sep (x ∷ []) = x
join sep (x ∷ y ∷ r) = x ++ (sep ++ join sep (y ∷ r))

-- The texts with another one behind each.
abbrev pub trailing : Text → List Text → Text
trailing sep [] = []
trailing sep (x ∷ r) = x ++ (sep ++ trailing sep r)

-- The buffers of the columns with a flag, in their order.
unfoldable pub with_flag : ℕ → Columns → List ColumnBuffer
with_flag f [] = []
with_flag f ((i, c) ∷ cs) = if test c.flags f then c ∷ with_flag f cs else with_flag f cs

abbrev pub IsNamed : ColumnBuffer → Type 0
IsNamed c = is_empty c.query_name ≡ false

-- "name = ?"
abbrev pub marker : ColumnBuffer → Text
marker c = c.query_name ++ txt " = ?"

-- A loop adds to the end of a text.
step-trailing :
    (s x sep : Text) (r : List Text) → s ++ (x ++ sep) ++ trailing sep r ≡ s ++ trailing sep (x ∷ r)
step-trailing s x sep r = simp append_assoc

step-marker :
    (s : Text) (c : ColumnBuffer) (r : List Text)
    → s ++ (c.query_name ++ txt " = ?, ") ++ trailing (txt ", ") r
      ≡ s ++ trailing (txt ", ") (marker c ∷ r)
step-marker s c r = simp append_assoc

step-list : {A : Type 0} (s : List A) (x : A) (r : List A) → s ++ (x ∷ []) ++ r ≡ s ++ (x ∷ r)
step-list s x r = simp append_assoc

trailing-join : (sep x : Text) (r : List Text) → trailing sep (x ∷ r) ≡ join sep (x ∷ r) ++ sep
trailing-join sep x [] = simp append-nil
trailing-join sep x (y ∷ r) = simp (append_assoc, trailing-join sep y r)

pub marker_loop_lem :
    (f : ℕ) (cs : Columns) (text : Text) (bound : List ColumnBuffer)
    → All IsNamed (with_flag f cs)
    → marker_loop f cs text bound
      ≡ ok (text ++ trailing (txt ", ") (map marker (with_flag f cs)), bound ++ with_flag f cs)
unfolding marker_loop with_flag
marker_loop_lem f [] text bound n = simp append-nil
marker_loop_lem f ((i, c) ∷ cs) text bound n = elim (Bool-cases (test c.flags f)) [
  | inr e ↦ grind (arith, e, marker_loop_lem f cs text bound)
  | inl e ↦ grind (
    arith,
    e,
    step-list bound c (with_flag f cs),
    step-marker text c (map marker (with_flag f cs)),
    marker_loop_lem f cs (text ++ (c.query_name ++ txt " = ?, ")) (bound ++ (c ∷ [])),
  )
]

-- The buffers that `BindUpdatePkParameters` sets.
unfoldable pub set_columns : Columns → List ColumnBuffer
set_columns [] = []
set_columns ((i, c) ∷ cs) =
    if not (test c.flags cf_primary_key) && test c.flags cf_update
    then c ∷ set_columns cs
    else set_columns cs

pub update_loop_lem :
    (cs : Columns) (p : UpdateParts)
    → All IsNamed (with_flag cf_primary_key cs)
    → All IsNamed (set_columns cs)
    → update_loop cs p
      ≡ ok (record {
        set_markers = p.set_markers ++ trailing (txt ", ") (map marker (set_columns cs));
        set_params = p.set_params ++ set_columns cs;
        where_markers =
            p.where_markers ++ trailing (txt ", ") (map marker (with_flag cf_primary_key cs));
        where_params = p.where_params ++ with_flag cf_primary_key cs;
      })
unfolding update_loop with_flag set_columns
update_loop_lem [] p n m = simp append-nil
update_loop_lem ((i, c) ∷ cs) p n m = elim (Bool-cases (test c.flags cf_primary_key)) [
  | inl e ↦ grind (
    arith,
    e,
    step-list p.where_params c (with_flag cf_primary_key cs),
    step-marker p.where_markers c (map marker (with_flag cf_primary_key cs)),
    update_loop_lem cs (record p {
      where_markers = p.where_markers ++ (c.query_name ++ txt " = ?, ");
      where_params = p.where_params ++ (c ∷ []);
    }),
  )
  | inr e ↦ grind (
    arith,
    e,
    step-list p.set_params c (set_columns cs),
    step-marker p.set_markers c (map marker (set_columns cs)),
    update_loop_lem cs p,
    update_loop_lem cs (record p {
      set_markers = p.set_markers ++ (c.query_name ++ txt " = ?, ");
      set_params = p.set_params ++ (c ∷ []);
    }),
  )
]

pub insert_loop_lem :
    (cs : Columns) (p : InsertParts)
    → All IsNamed (with_flag cf_insert cs)
    → insert_loop cs p
      ≡ ok (record {
        fields = p.fields ++ trailing (txt ", ") (map (λ c. c.query_name) (with_flag cf_insert cs));
        markers = p.markers ++ trailing (txt ", ") (map (λ c. txt "?") (with_flag cf_insert cs));
        params = p.params ++ with_flag cf_insert cs;
      })
unfolding insert_loop with_flag
insert_loop_lem [] p n = simp append-nil
insert_loop_lem ((i, c) ∷ cs) p n = elim (Bool-cases (test c.flags cf_insert)) [
  | inr e ↦ grind (arith, e, insert_loop_lem cs p)
  | inl e ↦ grind (
    arith,
    e,
    step-list p.params c (with_flag cf_insert cs),
    step-trailing p.fields c.query_name (txt ", ")
        (map (λ c. c.query_name) (with_flag cf_insert cs)),
    step-trailing p.markers (txt "?") (txt ", ") (map (λ c. txt "?") (with_flag cf_insert cs)),
    insert_loop_lem cs (record {
      fields = p.fields ++ (c.query_name ++ txt ", ");
      markers = p.markers ++ txt "?, ";
      params = p.params ++ (c ∷ []);
    }),
  )
]

pub select_loop_lem :
    (cs : Columns) (text : Text)
    → All IsNamed (with_flag cf_select cs)
    → select_loop cs text
      ≡ ok (text ++ trailing (txt ", ") (map (λ c. c.query_name) (with_flag cf_select cs)))
unfolding select_loop with_flag
select_loop_lem [] text n = simp append-nil
select_loop_lem ((i, c) ∷ cs) text n = elim (Bool-cases (test c.flags cf_select)) [
  | inr e ↦ grind (arith, e, select_loop_lem cs text)
  | inl e ↦ grind (
    arith,
    e,
    step-trailing text c.query_name (txt ", ") (map (λ c. c.query_name) (with_flag cf_select cs)),
    select_loop_lem cs (text ++ (c.query_name ++ txt ", ")),
  )
]

-- Erasing the last separator leaves the separated texts.
pub erase-trailing :
    (b : Boost) (texts : List Text)
    → BoostLaws b
    → b.erase_last (trailing (txt ", ") texts) (txt ", ") ≡ join (txt ", ") texts
erase-trailing b [] laws = laws.erase_last-empty _ _
erase-trailing b (x ∷ r) laws =
    ap (λ s. b.erase_last s (txt ", ")) (trailing-join (txt ", ") x r)
    ∙ laws.erase_last-suffix _ _ _
