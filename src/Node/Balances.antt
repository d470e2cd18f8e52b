-- ===== src/Node/Balances.antt =====
-- The map that GetAddressBalances fills from the node's answer.
use mathlib.Core.Path.{subst}
use hxscanner.Prelude.{
  ◌≡◌, refl, sym, ap, ◌∙◌, Bool-cases, inl, inr, lookup-insert_same, lookup-insert_other, String,
  Option, none, some, List, [], ◌∷◌, ◌==◌, lookup, insert, eq_iff, if◌then◌else◌,
}
use hxscanner.Prelude.Int.{ℤ}
use hxscanner.Strconv.{parse_int}
use hxscanner.Env.{ok, err, ok-injective, BalanceItem}
use hxscanner.Node.{collect_balances}

-- The amount of the last item of the asset.
abbrev pub last_amount : String → List BalanceItem → Option ℤ → Option ℤ
last_amount asset_id [] before = before
last_amount asset_id (item ∷ items) before =
    last_amount asset_id items (if item.asset_id == asset_id then parse_int item.amount else before)

-- Every amount is a number.
abbrev pub AllNumbers : List BalanceItem → Type 0
AllNumbers [] = Unit
AllNumbers (item ∷ items) = ((n : ℤ) × (parse_int item.amount ≡ some n)) × AllNumbers items

module _ (asset_id : String) where
  collect_balances-from :
      (items : List BalanceItem) (m : List (String × ℤ))
      → AllNumbers items
      → (r : List (String × ℤ)) × (collect_balances items m ≡ ok r)
  unfolding collect_balances
  collect_balances-from [] m h = (m, refl)
  collect_balances-from (item ∷ items) m h =
      let (r, e) = collect_balances-from items (insert item.asset_id h.0.0 m) h.1 in
      (r, rw (h.0.1, collect_balances) e)

  collect_balances-lookup :
      (items : List BalanceItem) (m r : List (String × ℤ))
      → collect_balances items m ≡ ok r
      → lookup asset_id r ≡ last_amount asset_id items (lookup asset_id m)
  unfolding collect_balances
  collect_balances-lookup [] m r h = ap (lookup asset_id) (ok-injective r m (sym h))
  collect_balances-lookup (item ∷ items) m r h =
      part (parse_int item.amount) refl
        (λ n. collect_balances-lookup items (insert item.asset_id n m) r) h
    where
      part :
          (o : Option ℤ)
          → parse_int item.amount ≡ o
          → ((n : ℤ)
              → collect_balances items (insert item.asset_id n m) ≡ ok r
              → lookup asset_id r
                ≡ last_amount asset_id items (lookup asset_id (insert item.asset_id n m)))
          → (elim o [
            | none ↦ err "strconv.ParseInt: invalid syntax"
            | some amount ↦ collect_balances items (insert item.asset_id amount m)
          ])
            ≡ ok r
          → lookup asset_id r ≡ last_amount asset_id (item ∷ items) (lookup asset_id m)
      part none e ih h = cc
      part (some n) e ih h = elim (Bool-cases (item.asset_id == asset_id)) [
        | inl same ↦
            let found : lookup asset_id (insert item.asset_id n m) ≡ some n =
              subst (λ k. lookup k (insert item.asset_id n m) ≡ some n)
                ((eq_iff item.asset_id asset_id).0 same) (lookup-insert_same item.asset_id n m) in
            rw (same, e) (ih n h ∙ ap (last_amount asset_id items) found)
        | inr other ↦ rw other (
            ih n h
            ∙ ap (last_amount asset_id items)
                (lookup-insert_other asset_id item.asset_id n m other))
      ]

-- If every amount of the node's answer is a number, GetAddressBalances has a map, which holds
-- for each asset the amount of its last item, and nothing for other assets.
pub collect_balances-last :
    (items : List BalanceItem)
    → AllNumbers items
    → (r : List (String × ℤ)) × (collect_balances items [] ≡ ok r)
      × ((asset_id : String) → lookup asset_id r ≡ last_amount asset_id items none)
collect_balances-last items h =
    let (r, e) = collect_balances-from "" items [] h in
    (r, e, λ asset_id. collect_balances-lookup asset_id items [] r e)
