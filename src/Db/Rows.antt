-- ===== src/Db/Rows.antt =====
-- The rows of the operation tables: what `InsertDynamicOperation` binds to the columns, and the tables that a
-- statement without quotes finds.
use hxscanner.Prelude.{
  ℕ, ◌+◌, ◌-◌, ◌≡◌, refl, sym, ap, ◌∙◌, String, Bool, true, false, some, List, [], ◌∷◌, ◌++◌, ◌≤◌,
  length, get_elem?, arith, All, All-append, All-map, length-append, get_elem?-append_before,
  get_elem?-append_at,
}
use mathlib.Core.List.{append_assoc, append-nil}
use hxscanner.Value.{Value, Object}
use hxscanner.Env.{Result, ok, err, Env}
use hxscanner.Db.Schema.{PgTableSchema, has_column}
use hxscanner.Db.Dynamic.{Prepared, no_values, bound_row, prepare_values, sql_value}

module _ (E : Env) where
  -- The columns of the table among the object's entries, in the object's order, each with its bound value.
  unfoldable pub column_values : PgTableSchema → Object → Result Object
  column_values schema [] = ok []
  column_values schema ((key, v) ∷ op_json) = elim (has_column schema key) [
    | false ↦ column_values schema op_json
    | true ↦ elim (sql_value E v) [
      | err e ↦ err e
      | ok x ↦ elim (column_values schema op_json) [ err e ↦ err e | ok row ↦ ok ((key, x) ∷ row) ]
    ]
  ]

  abbrev pub row_of : Result Prepared → Result Object
  row_of (err e) = err e
  row_of (ok p) = ok (bound_row p.args p.names p.placeholders)

  abbrev after : Object → Result Object → Result Object
  after row (err e) = err e
  after row (ok rest) = ok (row ++ rest)

-- `$k` for an argument that is there.
abbrev IsBound : List Value → ℕ → Type 0
IsBound args k = (1 ≤ k) × (k ≤ length args)

bound_row-more :
    (args : List Value) (v : Value) (names : List String) (ks : List ℕ)
    → All (IsBound args) ks
    → bound_row (args ++ v ∷ []) names ks ≡ bound_row args names ks
bound_row-more args v [] ks h = refl
bound_row-more args v (name ∷ names) [] h = refl
bound_row-more args v (name ∷ names) (k ∷ ks) h =
    rw
      (
        get_elem?-append_before args (v ∷ []) (k - 1) (ground (arith, h.0.0, h.0.1)),
        bound_row-more args v names ks h.1,
      )
      refl

bound_row-next :
    (args : List Value) (v : Value) (name : String) (k : ℕ) (names : List String) (ks : List ℕ)
    → length names ≡ length ks
    → get_elem? args (k - 1) ≡ some v
    → bound_row args (names ++ name ∷ []) (ks ++ k ∷ []) ≡ bound_row args names ks ++ (name, v) ∷ []
bound_row-next args v name k [] [] same at_k = rw at_k refl
bound_row-next args v name k [] (j ∷ ks) same at_k = absurd (omega arith)
bound_row-next args v name k (x ∷ names) [] same at_k = absurd (omega arith)
bound_row-next args v name k (x ∷ names) (j ∷ ks) same at_k =
    rw (bound_row-next args v name k names ks (omega arith) at_k) refl

-- As many columns as placeholders and arguments, and each placeholder has its argument.
record Fits (p : Prepared) : Type 0 where
  names : length p.names ≡ length p.placeholders
  args : length p.args ≡ length p.placeholders
  bound : All (IsBound p.args) p.placeholders

abbrev extended : String → Value → Prepared → Prepared
extended key v p = record {
  names = p.names ++ key ∷ [];
  placeholders = p.placeholders ++ (length p.placeholders + 1) ∷ [];
  args = p.args ++ v ∷ [];
}

extended-row :
    (key : String) (v : Value) (p : Prepared)
    → Fits p
    → bound_row
        (p.args ++ v ∷ [])
        (p.names ++ key ∷ [])
        (p.placeholders ++ (length p.placeholders + 1) ∷ [])
      ≡ bound_row p.args p.names p.placeholders ++ (key, v) ∷ []
extended-row key v p fits =
    let at_k : get_elem? (p.args ++ v ∷ []) (length p.placeholders + 1 - 1) ≡ some v =
      ap (get_elem? (p.args ++ v ∷ [])) (ground (arith, fits.args))
      ∙ get_elem?-append_at p.args v in
    bound_row-next (p.args ++ v ∷ []) v key (length p.placeholders + 1) p.names p.placeholders
      fits.names at_k
    ∙ ap (λ r. r ++ (key, v) ∷ []) (bound_row-more p.args v p.names p.placeholders fits.bound)

extended-Fits : (key : String) (v : Value) (p : Prepared) → Fits p → Fits (extended key v p)
extended-Fits key v p fits = record {
  names =
      length-append p.names key ∙ ap (λ n. n + 1) fits.names ∙ sym (length-append p.placeholders _);
  args = length-append p.args v ∙ ap (λ n. n + 1) fits.args ∙ sym (length-append p.placeholders _);
  bound =
      All-append _ p.placeholders _
        (All-map _ _ p.placeholders (λ k h. (h.0, ground (arith, h.1, length-append p.args v)))
          fits.bound)
        ((omega arith, ground (arith, fits.args, length-append p.args v)), tt);
}

module _ (E : Env) (schema : PgTableSchema) where
  after-append :
      (row : Object) (key : String) (v : Value) (r : Result Object)
      → after E (row ++ (key, v) ∷ []) r
        ≡ after E row (elim r [ err e ↦ err e | ok rest ↦ ok ((key, v) ∷ rest) ])
  after-append row key v (err e) = refl
  after-append row key v (ok rest) = ap ok (append_assoc row ((key, v) ∷ []) rest)

  prepare_values-after :
      (op_json : Object) (p : Prepared)
      → Fits p
      → row_of E (prepare_values E schema op_json p)
        ≡ after E (bound_row p.args p.names p.placeholders) (column_values E schema op_json)
  unfolding prepare_values column_values
  prepare_values-after [] p fits = ap ok (sym (append-nil _))
  prepare_values-after ((key, v) ∷ op_json) p fits =
      choose (has_column schema key)
        (part (sql_value E v)
          (λ x. prepare_values-after op_json (extended key x p) (extended-Fits key x p fits)))
        (prepare_values-after op_json p fits)
    where
      kept : Result Value → Result Prepared
      kept r = elim r [ err e ↦ err e | ok x ↦ prepare_values E schema op_json (extended key x p) ]

      kept_row : Result Value → Result Object
      kept_row r = elim r [
        | err e ↦ err e
        | ok x ↦ elim (column_values E schema op_json) [
          | err e ↦ err e
          | ok row ↦ ok ((key, x) ∷ row)
        ]
      ]

      choose :
          (c : Bool)
          → row_of E (kept (sql_value E v))
            ≡ after E (bound_row p.args p.names p.placeholders) (kept_row (sql_value E v))
          → row_of E (prepare_values E schema op_json p)
            ≡ after E (bound_row p.args p.names p.placeholders) (column_values E schema op_json)
          → row_of E
              (elim c [ false ↦ prepare_values E schema op_json p | true ↦ kept (sql_value E v) ])
            ≡ after E (bound_row p.args p.names p.placeholders) (elim c [
              | false ↦ column_values E schema op_json
              | true ↦ kept_row (sql_value E v)
            ])
      choose true taken skipped = taken
      choose false taken skipped = skipped

      part :
          (r : Result Value)
          → ((x : Value)
              → row_of E (prepare_values E schema op_json (extended key x p))
                ≡ after E
                    (bound_row
                      (p.args ++ x ∷ [])
                      (p.names ++ key ∷ [])
                      (p.placeholders ++ (length p.placeholders + 1) ∷ []))
                    (column_values E schema op_json))
          → row_of E (kept r) ≡ after E (bound_row p.args p.names p.placeholders) (kept_row r)
      part (err e) ih = refl
      part (ok x) ih =
          ih x
          ∙ ap (λ row. after E row (column_values E schema op_json)) (extended-row key x p fits)
          ∙ after-append _ key x (column_values E schema op_json)

  pub prepare_values-row :
      (op_json : Object)
      → row_of E (prepare_values E schema op_json no_values) ≡ column_values E schema op_json
  prepare_values-row op_json =
      prepare_values-after op_json no_values (record { names = refl; args = refl; bound = tt })
      ∙ after-nil (column_values E schema op_json)
    where
      after-nil : (r : Result Object) → after E [] r ≡ r
      after-nil (err e) = refl
      after-nil (ok row) = refl
