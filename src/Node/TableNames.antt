-- ===== src/Node/TableNames.antt =====
-- The table of operation types of src/nodeservice/operations.go: each type has a table of its own, the
-- range of the contract operations, and the names that SQL does not take without quotes.
use mathlib.Core.Path.{subst}
use mathlib.Core.Option.{some-injective, none-ne-some}
use text.Mathlib.TextLemmas.{append_cancel_left}
use hxscanner.Prelude.{
  ℕ, zero, suc, ◌+◌, ◌≡◌, ◌≢◌, refl, sym, ap, ◌∙◌, String, Bool, true, false, ◌&&◌, not, Option,
  none, some, List, [], ◌∷◌, get_elem?, eq_refl, arith,
}
use hxscanner.Prelude.Int.{ℤ, pos, negsuc}
use hxscanner.Env.{ok, ok-injective}
use hxscanner.Node.{is_contract_op_type}
use hxscanner.Node.Names.{
  operation_names, name_or_error, get_operation_name_by_operation_type,
  get_operation_table_name_by_operation_name,
}
use hxscanner.Plugins.Utils.{is_string_in_array}
use hxscanner.Db.Dynamic.{refers}

-- No text stands twice.
abbrev distinct : List String → Bool
distinct [] = true
distinct (x ∷ xs) = not (is_string_in_array x xs) && distinct xs

-- The test holds of each text with its position.
abbrev each_indexed : (ℕ → String → Bool) → ℕ → List String → Bool
each_indexed p i [] = true
each_indexed p i (x ∷ xs) = p i x && each_indexed p (suc i) xs

get_elem?-in_array :
    (a : String) (xs : List String) (i : ℕ)
    → get_elem? xs i ≡ some a
    → is_string_in_array a xs ≡ true
unfolding is_string_in_array
get_elem?-in_array a [] i e = absurd (none-ne-some a e)
get_elem?-in_array a (x ∷ xs) zero e = rw (some-injective x a e, eq_refl a) refl
get_elem?-in_array a (x ∷ xs) (suc i) e =
    let later : is_string_in_array a xs ≡ true = get_elem?-in_array a xs i e in ground arith

both-true : (a b : Bool) → (a && b) ≡ true → (a ≡ true) × (b ≡ true)
both-true a b h = ground arith

-- The first text does not come again.
distinct-head :
    (a x : String) (xs : List String) (j : ℕ)
    → distinct (x ∷ xs) ≡ true
    → x ≡ a
    → get_elem? xs j ≢ some a
distinct-head a x xs j d e f =
    let h : not (is_string_in_array x xs) ≡ true = (both-true _ _ d).0 in
    let g : is_string_in_array x xs ≡ true = get_elem?-in_array x xs j (f ∙ ap some (sym e)) in
    ground arith

distinct-get_elem? :
    (a : String) (xs : List String) (i j : ℕ)
    → distinct xs ≡ true
    → get_elem? xs i ≡ some a
    → get_elem? xs j ≡ some a
    → i ≡ j
distinct-get_elem? a [] i j d e f = absurd (none-ne-some a e)
distinct-get_elem? a (x ∷ xs) zero zero d e f = refl
distinct-get_elem? a (x ∷ xs) zero (suc j) d e f =
    absurd (distinct-head a x xs j d (some-injective x a e) f)
distinct-get_elem? a (x ∷ xs) (suc i) zero d e f =
    absurd (distinct-head a x xs i d (some-injective x a f) e)
distinct-get_elem? a (x ∷ xs) (suc i) (suc j) d e f =
    ap suc (distinct-get_elem? a xs i j (both-true _ _ d).1 e f)

each_indexed-get_elem? :
    (p : ℕ → String → Bool) (i : ℕ) (xs : List String) (k : ℕ) (a : String)
    → each_indexed p i xs ≡ true
    → get_elem? xs k ≡ some a
    → p (i + k) a ≡ true
each_indexed-get_elem? p i [] k a h e = absurd (none-ne-some a e)
each_indexed-get_elem? p i (x ∷ xs) zero a h e =
    rw (sym (some-injective x a e)) (subst (λ m. p m x ≡ true) (omega arith) (both-true _ _ h).0)
each_indexed-get_elem? p i (x ∷ xs) (suc k) a h e =
    subst (λ m. p m a ≡ true) (omega arith)
      (each_indexed-get_elem? p (suc i) xs k a (both-true _ _ h).1 e)

each-get_elem? :
    (p : ℕ → String → Bool) (xs : List String) (k : ℕ) (a : String)
    → each_indexed p 0 xs ≡ true
    → get_elem? xs k ≡ some a
    → p k a ≡ true
each-get_elem? p xs k a h e =
    subst (λ m. p m a ≡ true) (omega arith) (each_indexed-get_elem? p 0 xs k a h e)

-- The number of an operation name.
name_or_error-eq-ok : (o : Option String) (a : String) → name_or_error o ≡ ok a → o ≡ some a
name_or_error-eq-ok none a e = cc
name_or_error-eq-ok (some b) a e = ap some (ok-injective b a e)

operation_names-distinct : distinct operation_names ≡ true
unfolding is_string_in_array
operation_names-distinct = refl

abbrev pub contract_names : List String
contract_names =
    "contract_register_operation" ∷ "contract_upgrade_operation"
    ∷ "native_contract_register_operation" ∷ "contract_invoke_operation" ∷ "storage_operation"
    ∷ "transfer_contract_operation" ∷ []

same : Bool → Bool → Bool
same true b = b
same false b = not b

abbrev contract_test : ℕ → String → Bool
contract_test n name = same (is_contract_op_type (pos n)) (is_string_in_array name contract_names)

contract_names-each : each_indexed contract_test 0 operation_names ≡ true
unfolding is_string_in_array is_contract_op_type same
contract_names-each = refl

-- A number of an operation type and its name.
abbrev pub IsNamed : ℤ → String → Type 0
IsNamed t name = get_operation_name_by_operation_type t ≡ ok name

named-index :
    (t : ℤ) (name : String)
    → IsNamed t name
    → (n : ℕ) × (t ≡ pos n) × (get_elem? operation_names n ≡ some name)
unfolding get_operation_name_by_operation_type
named-index (pos n) name e = (n, refl, name_or_error-eq-ok (get_elem? operation_names n) name e)
named-index (negsuc n) name e = cc

-- Two operation types never share a table.
pub get_operation_table_name-injective :
    (t u : ℤ) (name other : String)
    → get_operation_name_by_operation_type t ≡ ok name
    → get_operation_name_by_operation_type u ≡ ok other
    → get_operation_table_name_by_operation_name name
      ≡ get_operation_table_name_by_operation_name other
    → t ≡ u
unfolding get_operation_table_name_by_operation_name
get_operation_table_name-injective t u name other e f same_table =
    let (m, is_m, at_m) = named-index t name e in
    let (n, is_n, at_n) = named-index u other f in
    let same_name : name ≡ other = append_cancel_left "tbl_" name other same_table in
    is_m
    ∙ ap pos (
        distinct-get_elem? other operation_names m n operation_names-distinct
          (at_m ∙ ap some same_name) at_n)
    ∙ sym is_n

same-true : (a b : Bool) → same a b ≡ true → a ≡ b
unfolding same
same-true a b h = ground arith

-- The range of types that counts as contract operations is that of the six contract operation names.
pub is_contract_op_type-names :
    (t : ℤ) (name : String)
    → get_operation_name_by_operation_type t ≡ ok name
    → is_contract_op_type t ≡ is_string_in_array name contract_names
is_contract_op_type-names t name e =
    let (n, is_n, at_n) = named-index t name e in
    ap is_contract_op_type is_n
    ∙ same-true _ _ (each-get_elem? contract_test operation_names n name contract_names-each at_n)

-- The names whose tables no statement without quotes finds.
abbrev pub unindexed_names : List String
unindexed_names =
    "graphene::chain::eth_seri_guard_sign_operation" ∷ "add_whiteOperation_list_operation"
    ∷ "cancel_whiteOperation_list_operation" ∷ []

abbrev refers_to_itself : String → Bool
refers_to_itself name =
    refers (get_operation_table_name_by_operation_name name)
      (get_operation_table_name_by_operation_name name)

abbrev unindexed_test : ℕ → String → Bool
unindexed_test n name = same (refers_to_itself name) (not (is_string_in_array name unindexed_names))

unindexed_names-each : each_indexed unindexed_test 0 operation_names ≡ true
unfolding is_string_in_array refers same get_operation_table_name_by_operation_name
unindexed_names-each = refl

pub named-refers :
    (t : ℤ) (name : String)
    → IsNamed t name
    → refers_to_itself name ≡ not (is_string_in_array name unindexed_names)
named-refers t name e =
    let (n, is_n, at_n) = named-index t name e in
    same-true _ _ (each-get_elem? unindexed_test operation_names n name unindexed_names-each at_n)
