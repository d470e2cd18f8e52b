-- ===== src/Db/OpTables.antt =====
-- The operation tables (src/db/daos.go): no name stands for two tables, and no transaction and index for two
-- rows of a table.
use mathlib.Core.Path.{subst}
use mathlib.Core.Option.{some-injective}
use hxscanner.Prelude.{
  ℕ, ◌≤◌, ◌≡◌, refl, sym, ap, ◌∙◌, String, Bool, true, false, none, some, List, [], ◌∷◌, ◌++◌, ◌==◌,
  eq_iff, eq_refl, find?, count, count-eq-zero, All, All-append, arith, Bool-cases, inl, inr,
  if◌then◌else◌,
}
use text.Mathlib.TextEquality.{Char-path}
use hxscanner.Value.{Object}
use hxscanner.Env.{ok, err, ok-injective}
use hxscanner.Db.Table.{UniqueBy, append-UniqueBy, unless_found-eq-ok}
use hxscanner.Db.Unique.{absent_text}
use hxscanner.Db.Schema.{Db, OpTable, PgTableSchemaColumn, init_db}
use hxscanner.Db.Dynamic.{
  refers, find_unquoted, find_quoted, is_operation, add_table, append_row, add_op_row, all_columns,
  mark_indexed,
}

abbrev pub table_key : String → OpTable → Bool
table_key name t = t.name == name

abbrev pub operation_row_key : String × ℕ → Object → Bool
operation_row_key k row = is_operation k.0 k.1 row

-- No transaction and index stands for two rows of the table.
abbrev pub UniqueRows : OpTable → Type 0
UniqueRows t = UniqueBy operation_row_key t.op_rows

pub record UniqueTables (ts : List OpTable) : Type 0 where
  pub names : UniqueBy table_key ts
  pub rows : All UniqueRows ts

abbrev pub OpRows : Db → Type 0
OpRows d = UniqueTables d.op_tables

pub OpRows-init_db : OpRows init_db
OpRows-init_db = record { names = λ k. omega arith; rows = tt }

-- A row that can only stand for this transaction and index.
abbrev pub StandsFor : String → ℕ → Object → Type 0
StandsFor trxid i row = (t : String) (j : ℕ) → is_operation t j row ≡ true → (trxid ≡ t) × (i ≡ j)

refers-same : (ident a b : String) → refers ident a ≡ true → refers ident b ≡ true → a ≡ b
unfolding refers
refers-same String.[] String.[] String.[] h k = refl
refers-same String.[] String.[] (String.◌∷◌ e b) h k = cc
refers-same String.[] (String.◌∷◌ d a) b h k = cc
refers-same (String.◌∷◌ c s) String.[] b h k = cc
refers-same (String.◌∷◌ c s) (String.◌∷◌ d a) String.[] h k = cc
refers-same (String.◌∷◌ c s) (String.◌∷◌ d a) (String.◌∷◌ e b) h k =
    let first : d ≡ e = Char-path d e (ground arith) in
    let rest : a ≡ b = refers-same s a b (ground arith) (ground arith) in
    ap (λ x. String.◌∷◌ x a) first ∙ ap (λ t. String.◌∷◌ e t) rest

count-implies :
    {A : Type 0} (p q : A → Bool) (xs : List A)
    → ((x : A) → p x ≡ true → q x ≡ true)
    → count q xs ≡ 0
    → count p xs ≡ 0
count-implies p q [] imp h = refl
count-implies p q (x ∷ xs) imp h = ground (arith, imp x, count-implies p q xs)

abbrev refers_table : String → OpTable → Bool
refers_table ident t = refers ident t.name

append_row-none :
    (ident : String) (row : Object) (ts : List OpTable)
    → count (refers_table ident) ts ≡ 0
    → append_row ident row ts ≡ ts
append_row-none ident row [] h = refl
append_row-none ident row (t ∷ ts) h = elim (Bool-cases (refers ident t.name)) [
  | inl hit ↦ absurd (ground arith)
  | inr miss ↦ rw miss (ap (λ x. t ∷ x) (append_row-none ident row ts (ground arith)))
]

count-append_row :
    (k ident : String) (row : Object) (ts : List OpTable)
    → count (table_key k) (append_row ident row ts) ≡ count (table_key k) ts
count-append_row k ident row [] = refl
count-append_row k ident row (t ∷ ts) = elim (Bool-cases (refers ident t.name)) [
  | inl hit ↦ rw (hit, count-append_row k ident row ts) refl
  | inr miss ↦ rw (miss, count-append_row k ident row ts) refl
]

module _ (ident trxid : String) (i : ℕ) (row : Object) (only : StandsFor trxid i row) where
  appended-UniqueRows :
      (t : OpTable)
      → UniqueRows t
      → find? (is_operation trxid i) t.op_rows ≡ none
      → UniqueRows (record t { op_rows = t.op_rows ++ row ∷ [] })
  appended-UniqueRows t unique missing =
      append-UniqueBy operation_row_key t.op_rows row unique λ k same.
        let (is_tx, is_index) = only k.0 k.1 same in
        rw (sym is_tx, sym is_index) (count-eq-zero _ t.op_rows missing)

  append_row-UniqueRows :
      (ts : List OpTable) (t : OpTable)
      → UniqueBy table_key ts
      → All UniqueRows ts
      → find? (refers_table ident) ts ≡ some t
      → find? (is_operation trxid i) t.op_rows ≡ none
      → All UniqueRows (append_row ident row ts)
  append_row-UniqueRows [] t unique rows found missing = tt
  append_row-UniqueRows (u ∷ ts) t unique rows found missing =
      elim (Bool-cases (refers ident u.name)) [
        | inl hit ↦
            let same : u ≡ t = some-injective u t (rw hit at found) in
            let absent : find? (is_operation trxid i) u.op_rows ≡ none =
              ap (λ x. find? (is_operation trxid i) x.op_rows) same ∙ missing in
            let none_later : count (table_key u.name) ts ≡ 0 = later u ts (unique u.name) in
            let none_refers : count (refers_table ident) ts ≡ 0 =
              count-implies (refers_table ident) (table_key u.name) ts
                (λ x h. (eq_iff x.name u.name).1 (refers-same ident x.name u.name h hit))
                none_later in
            rw (hit, append_row-none ident row ts none_refers)
              (appended-UniqueRows u rows.0 absent, rows.1)
        | inr miss ↦ rw miss (
          rows.0,
          append_row-UniqueRows ts t (λ k. ground (arith, unique k)) rows.1 (rw miss at found)
              missing,
        )
      ]
    where
      later :
          (u : OpTable) (ts : List OpTable)
          → count (table_key u.name) (u ∷ ts) ≤ 1
          → count (table_key u.name) ts ≡ 0
      later u ts h = let self : (u.name == u.name) ≡ true = eq_refl u.name in ground arith

-- `CREATE TABLE` under a name that no table has.
pub add_table-OpRows :
    (name : String) (columns : List PgTableSchemaColumn) (d d' : Db)
    → OpRows d
    → add_table name columns d ≡ ok d'
    → OpRows d'
unfolding find_quoted
add_table-OpRows name columns d d' h e =
    let (fresh, is) = unless_found-eq-ok (find_quoted name d) _ _ d' e in
    subst OpRows is (record {
      names =
          append-UniqueBy table_key d.op_tables _ (UniqueTables.names h)
            (absent_text (λ t. t.name) name d.op_tables (sym fresh));
      rows = All-append UniqueRows d.op_tables _ (UniqueTables.rows h) ((λ k. omega arith), tt);
    })

-- `CREATE INDEX` leaves the names and the rows.
pub mark_indexed-OpRows :
    (ident : String) (d : Db)
    → OpRows d
    → OpRows (record d { op_tables = mark_indexed ident d.op_tables })
mark_indexed-OpRows ident d h = record {
  names = λ k. rw (names k d.op_tables) (UniqueTables.names h k);
  rows = rows d.op_tables (UniqueTables.rows h);
}
  where
    names :
        (k : String) (ts : List OpTable)
        → count (table_key k) (mark_indexed ident ts) ≡ count (table_key k) ts
    names k [] = refl
    names k (t ∷ ts) = elim (Bool-cases (refers ident t.name)) [
      | inl hit ↦ rw (hit, names k ts) refl
      | inr miss ↦ rw (miss, names k ts) refl
    ]

    rows : (ts : List OpTable) → All UniqueRows ts → All UniqueRows (mark_indexed ident ts)
    rows [] h = tt
    rows (t ∷ ts) h = elim (Bool-cases (refers ident t.name)) [
      | inl hit ↦ rw hit (h.0, rows ts h.1)
      | inr miss ↦ rw miss (h.0, rows ts h.1)
    ]

-- `INSERT INTO` the table in which no row stands for the transaction and index.
pub add_op_row-OpRows :
    (ident trxid : String) (i : ℕ) (row : Object) (t : OpTable) (d d' : Db)
    → StandsFor trxid i row
    → OpRows d
    → find_unquoted ident d ≡ some t
    → find? (is_operation trxid i) t.op_rows ≡ none
    → add_op_row ident row d ≡ ok d'
    → OpRows d'
unfolding find_unquoted
add_op_row-OpRows ident trxid i row t d d' only h found missing e =
    part (all_columns t.schema row) (rw found at e)
  where
    part :
        (c : Bool)
        → (if c
            then ok (record d { op_tables = append_row ident row d.op_tables })
            else err "column of relation does not exist")
          ≡ ok d'
        → OpRows d'
    part false e = cc
    part true e = subst OpRows (ok-injective _ d' e) (record {
      names = λ k. rw (count-append_row k ident row d.op_tables) (UniqueTables.names h k);
      rows =
          append_row-UniqueRows ident trxid i row only d.op_tables t (UniqueTables.names h)
            (UniqueTables.rows h) found missing;
    })
