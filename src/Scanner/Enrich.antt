-- ===== src/Scanner/Enrich.antt =====
-- The keys that the scanner adds to an operation's object (src/scanner/scanner.go), and that the row which is made
-- of it is the one that the test for a stored operation finds.
use hxscanner.Prelude.{
  ℕ, ◌≡◌, ◌≢◌, ◌↔◌, refl, sym, ap, ◌∙◌, Option, String, Bool, true, false, some, List, [], ◌∷◌,
  ◌==◌, lookup, insert, has_key, lookup-insert_same, lookup-insert_other, eq_iff, eq_refl, eqb_refl,
  eqb, eqb→eq, ◌&&◌, none, arith, if◌then◌else◌, Bool-cases, inl, inr,
}
use hxscanner.Prelude.Int.{pos}
use hxscanner.Value.{Value, Object, int, str}
use hxscanner.Types.{HxBlock}
use hxscanner.Env.{ok, Env}
use hxscanner.Db.Schema.{PgTableSchema, has_column}
use hxscanner.Db.Dynamic.{Prepared, no_values, prepare_values, bound_row, is_operation, sql_value}
use hxscanner.Db.Rows.{column_values, row_of, prepare_values-row}
use hxscanner.Db.RowLookup.{lookup-column_values, lookup-column_values_missing}
use hxscanner.Db.OpTables.{StandsFor}
use mathlib.Core.Bool.{false≢true}
use hxscanner.Plugins.Utils.{is_string_in_array}
use hxscanner.Scanner.Operation.{enrich, default_text}

text-ne : (a b : String) → (a == b) ≡ false → a ≢ b
text-ne a b h e = ground (arith, eq_iff a b, e)

lookup-default_text :
    (k i : String) (m : Object) → (i == k) ≡ false → lookup k (default_text i m) ≡ lookup k m
lookup-default_text k i m h = part (has_key i m)
  where
    part : (b : Bool) → lookup k (if b then m else insert i (str "") m) ≡ lookup k m
    part true = refl
    part false = lookup-insert_other k i (str "") m h

-- What stands under a key that is filled where it is missing.
abbrev pub given_or_empty : Option Value → Option Value
given_or_empty (some v) = some v
given_or_empty none = some (str "")

lookup-default_text_same :
    (k : String) (m : Object) → lookup k (default_text k m) ≡ given_or_empty (lookup k m)
lookup-default_text_same k m = elim (Bool-cases (has_key k m)) [
  | inl e ↦ rw e (given m e)
  | inr e ↦ rw e (lookup-insert_same k (str "") m ∙ sym (ap given_or_empty (missing m e)))
]
  where
    given : (m : Object) → has_key k m ≡ true → lookup k m ≡ given_or_empty (lookup k m)
    given [] h = cc
    given ((j, v) ∷ m) h = elim (Bool-cases (j == k)) [
      | inl e ↦ rw e refl
      | inr e ↦ rw e (given m (rw e at h))
    ]

    missing : (m : Object) → has_key k m ≡ false → lookup k m ≡ none
    missing [] h = refl
    missing ((j, v) ∷ m) h = elim (Bool-cases (j == k)) [
      | inl e ↦ absurd (false≢true (sym (rw e at h)))
      | inr e ↦ rw e (missing m (rw e at h))
    ]

not_in_array :
    (k x : String) (xs : List String)
    → is_string_in_array k (x ∷ xs) ≡ false
    → ((x == k) ≡ false) × (is_string_in_array k xs ≡ false)
unfolding is_string_in_array
not_in_array k x xs h = ground arith

-- The keys that the scanner adds.
abbrev pub added_keys : List String
added_keys = "guarantee_id" ∷ "memo" ∷ "index_in_tx" ∷ "trxid" ∷ "block_num" ∷ []

module _ (b : HxBlock) (trxid : String) (i : ℕ) (op_json : Object) where
  -- The object after each of the first three keys.
  abbrev with_block : Object
  with_block = insert "block_num" (int (pos b.block_number)) op_json

  abbrev with_trxid : Object
  with_trxid = insert "trxid" (str trxid) with_block

  abbrev with_index : Object
  with_index = insert "index_in_tx" (int (pos i)) with_trxid

  lookup-with_index :
      (k : String)
      → ("index_in_tx" == k) ≡ false
      → ("trxid" == k) ≡ false
      → ("block_num" == k) ≡ false
      → lookup k with_index ≡ lookup k op_json
  lookup-with_index k n t h =
      lookup-insert_other k "index_in_tx" (int (pos i)) with_trxid n
      ∙ lookup-insert_other k "trxid" (str trxid) with_block t
      ∙ lookup-insert_other k "block_num" _ op_json h

  lookup-enrich-with_index :
      (k : String)
      → ("guarantee_id" == k) ≡ false
      → ("memo" == k) ≡ false
      → lookup k (enrich b trxid i op_json) ≡ lookup k with_index
  unfolding enrich
  lookup-enrich-with_index k g m =
      lookup-default_text k "guarantee_id" (default_text "memo" with_index) g
      ∙ lookup-default_text k "memo" with_index m

  lookup-enrich_trxid : lookup "trxid" (enrich b trxid i op_json) ≡ some (str trxid)
  lookup-enrich_trxid =
      lookup-enrich-with_index "trxid" refl refl
      ∙ lookup-insert_other "trxid" "index_in_tx" (int (pos i)) with_trxid refl
      ∙ lookup-insert_same "trxid" (str trxid) with_block

  lookup-enrich_index : lookup "index_in_tx" (enrich b trxid i op_json) ≡ some (int (pos i))
  lookup-enrich_index =
      lookup-enrich-with_index "index_in_tx" refl refl
      ∙ lookup-insert_same "index_in_tx" (int (pos i)) with_trxid

  lookup-enrich_other :
      (k : String)
      → is_string_in_array k added_keys ≡ false
      → lookup k (enrich b trxid i op_json) ≡ lookup k op_json
  lookup-enrich_other k other =
      let (g, h) = not_in_array k "guarantee_id" _ other in
      let (m, h) = not_in_array k "memo" _ h in
      let (n, h) = not_in_array k "index_in_tx" _ h in
      let (t, h) = not_in_array k "trxid" _ h in
      lookup-enrich-with_index k g m ∙ lookup-with_index k n t (not_in_array k "block_num" [] h).0

  -- A text that the scanner adds only where it is missing.
  lookup-enrich_memo :
      lookup "memo" (enrich b trxid i op_json) ≡ given_or_empty (lookup "memo" op_json)
  unfolding enrich
  lookup-enrich_memo =
      lookup-default_text "memo" "guarantee_id" (default_text "memo" with_index) refl
      ∙ lookup-default_text_same "memo" with_index
      ∙ ap given_or_empty (lookup-with_index "memo" refl refl refl)

  lookup-enrich_guarantee :
      lookup "guarantee_id" (enrich b trxid i op_json)
      ≡ given_or_empty (lookup "guarantee_id" op_json)
  unfolding enrich
  lookup-enrich_guarantee =
      lookup-default_text_same "guarantee_id" (default_text "memo" with_index)
      ∙ ap given_or_empty (
          lookup-default_text "guarantee_id" "memo" with_index refl
          ∙ lookup-with_index "guarantee_id" refl refl refl)

  -- The object that the scanner stores for an operation holds its block number, transaction id and index
  -- under block_num, trxid and index_in_tx, whatever the node gave there; memo and guarantee_id are as
  -- the node gave them, and the empty text where it gave none; every other property is as it was.
  pub lookup-enrich :
      ((k : String)
        → is_string_in_array k added_keys ≡ false
        → lookup k (enrich b trxid i op_json) ≡ lookup k op_json)
      × (lookup "trxid" (enrich b trxid i op_json) ≡ some (str trxid))
      × (lookup "index_in_tx" (enrich b trxid i op_json) ≡ some (int (pos i)))
      × (lookup "block_num" (enrich b trxid i op_json) ≡ some (int (pos b.block_number)))
      × (lookup "memo" (enrich b trxid i op_json) ≡ given_or_empty (lookup "memo" op_json))
      × (lookup "guarantee_id" (enrich b trxid i op_json)
          ≡ given_or_empty (lookup "guarantee_id" op_json))
  lookup-enrich = (
    lookup-enrich_other,
    lookup-enrich_trxid,
    lookup-enrich_index,
    lookup-enrich-with_index "block_num" refl refl
        ∙ lookup-insert_other "block_num" "index_in_tx" (int (pos i)) with_trxid refl
        ∙ lookup-insert_other "block_num" "trxid" (str trxid) with_block refl
        ∙ lookup-insert_same "block_num" _ op_json,
    lookup-enrich_memo,
    lookup-enrich_guarantee,
  )

stands_by :
    (trxid t : String) (i j : ℕ) (row : Object)
    → lookup "trxid" row ≡ some (str trxid)
    → lookup "index_in_tx" row ≡ some (int (pos i))
    → is_operation t j row ≡ true
    → (trxid ≡ t) × (i ≡ j)
stands_by trxid t i j row is_tx is_index h =
    let both : ((trxid == t) && eqb i j) ≡ true = rw (is_tx, is_index) at h in
    ((eq_iff trxid t).0 (ground arith), eqb→eq i j (ground arith))

-- The row of an operation stands for no other transaction id or index.
pub enrich-StandsFor :
    (E : Env) (schema : PgTableSchema) (b : HxBlock) (trxid : String) (i : ℕ) (op_json row : Object)
    → column_values E schema (enrich b trxid i op_json) ≡ ok row
    → StandsFor trxid i row
unfolding sql_value
enrich-StandsFor E schema b trxid i op_json row e t j stands =
    elim (Bool-cases (has_column schema "trxid")) [
      | inr no_tx ↦ absurd (no_place (lookup-column_values_missing E schema "trxid" _ row e no_tx))
      | inl has_tx ↦ elim (Bool-cases (has_column schema "index_in_tx")) [
        | inr no_index ↦
            absurd (
              no_index_there (lookup-column_values_missing E schema "index_in_tx" _ row e no_index))
        | inl has_index ↦
            stands_by trxid t i j row
              (lookup-column_values E schema "trxid" _ row _ (str trxid) e has_tx
                (lookup-enrich_trxid b trxid i op_json) refl)
              (lookup-column_values E schema "index_in_tx" _ row _ (int (pos i)) e has_index
                (lookup-enrich_index b trxid i op_json) refl)
              stands
      ]
    ]
  where
    second_false : (a : Bool) → (a && false) ≢ true
    second_false true h = false≢true h
    second_false false h = false≢true h

    no_place : lookup "trxid" row ≢ none
    no_place gone = false≢true (rw gone at stands)

    no_index_there : lookup "index_in_tx" row ≢ none
    no_index_there gone = second_false _ (rw gone at stands)

-- The row of an operation is found by the test for a stored operation.
is_operation-column_values :
    (E : Env) (schema : PgTableSchema) (b : HxBlock) (trxid : String) (i : ℕ) (op_json row : Object)
    → has_column schema "trxid" ≡ true
    → has_column schema "index_in_tx" ≡ true
    → column_values E schema (enrich b trxid i op_json) ≡ ok row
    → is_operation trxid i row ≡ true
unfolding sql_value
is_operation-column_values E schema b trxid i op_json row has_trxid has_index e =
    rw
      (
        lookup-column_values E schema "trxid" _ row _ (str trxid) e has_trxid
            (lookup-enrich_trxid b trxid i op_json) refl,
        lookup-column_values E schema "index_in_tx" _ row _ (int (pos i)) e has_index
            (lookup-enrich_index b trxid i op_json) refl,
        eq_refl trxid,
      )
      (eqb_refl i)

-- Take a table that has the columns trxid and index_in_tx, and an operation whose columns, placeholders
-- and arguments InsertDynamicOperation could build. The test of CheckOperationExist holds of the row that is
-- inserted for the operation's transaction id and index, and for no other transaction id and index.
pub is_operation-row :
    (E : Env) (schema : PgTableSchema) (b : HxBlock) (trxid : String) (i : ℕ) (op_json : Object)
    (p : Prepared)
    → has_column schema "trxid" ≡ true
    → has_column schema "index_in_tx" ≡ true
    → prepare_values E schema (enrich b trxid i op_json) no_values ≡ ok p
    → (t : String) (j : ℕ)
    → (is_operation t j (bound_row p.args p.names p.placeholders) ≡ true) ↔ ((trxid ≡ t) × (i ≡ j))
is_operation-row E schema b trxid i op_json p has_trxid has_index prepared t j =
    let row : Object = bound_row p.args p.names p.placeholders in
    let values : column_values E schema (enrich b trxid i op_json) ≡ ok row =
      sym (prepare_values-row E schema (enrich b trxid i op_json)) ∙ ap (row_of E) prepared in
    let stored : is_operation trxid i row ≡ true =
      is_operation-column_values E schema b trxid i op_json row has_trxid has_index values in
    (
      enrich-StandsFor E schema b trxid i op_json row values t j,
      λ same. rw (sym same.0, sym same.1) stored,
    )
