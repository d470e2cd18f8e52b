-- ===== src/Plugins/BalanceStored.antt =====
-- What updateAddressBalance stores: the balance that the node gives for the address and the asset.
use mathlib.Core.Path.{subst}
use mathlib.Core.Option.{none-ne-some}
use hxscanner.Prelude.{
  ℕ, ◌+◌, ◌≡◌, refl, sym, ap, ◌∙◌, String, true, Option, none, some, List, [], ◌∷◌, eqb, find?,
  find?-passes, lookup,
}
use hxscanner.Prelude.Int.{ℤ, pos}
use hxscanner.Value.{Value, str}
use hxscanner.Env.{ok, Decimal, BalanceItem, Env}
use hxscanner.Db.Table.{update_rows}
use hxscanner.Db.Schema.{Db, AssetEntity, AddressBalanceEntity}
use hxscanner.Db.Keys.{HasKeys, asset_key, balance_key}
use hxscanner.Db.UniqueBalances.{both_texts}
use hxscanner.Db.Assets.{
  find_asset, save_address_balance, insert_address_balance, parsed_balance, is_balance_of,
  update_address_balance as store_address_balance, find_address_balance_by_owner_addr_and_asset_id,
}
use hxscanner.Exec.{World, done, pure, lift, ◌>>=◌, ask, connected, call}
use hxscanner.Exec.Keeps.{Gives-bind, Gives-known}
use hxscanner.Exec.Leads.{Reliable, Seen}
use hxscanner.Exec.Quiet.{Quiet, Returns, Returns-done, Returns-exec, Returns-query_row}
use hxscanner.Exec.Ends.{Returns-now}
use hxscanner.Node.{get_address_balances, collect_balances}
use hxscanner.Plugins.Balance.{
  update_address_balance, find_asset_from_cache_or_db, asset_or_node, balance_or_zero, scaled,
  store_balance,
}
use hxscanner.Plugins.BalanceRows.{Sets, BalanceRow, new_balance, written, Sets-insert, Sets-update}

-- The node's answer about the balances of an address.
pub record NodeAnswer (E : Env) (addr : String) (balances : List (String × ℤ)) : Type 0 where
  pub online : (t : ℕ) → E.connected t ≡ true
  pub reply : Value
  pub called : (t : ℕ) → E.call t "get_addr_balances" (str addr ∷ []) ≡ ok reply
  pub items : List BalanceItem
  pub decoded : E.decode_balances reply ≡ ok items
  pub collected : collect_balances items [] ≡ ok balances

module _ (E : Env) (quiet : Quiet E) (rel : Reliable E)
    (reads : (d : Decimal) → (m : Decimal) × (E.parse_decimal (E.show_decimal d) ≡ ok m))
    (addr asset_id : String) (before : Db) (keys : HasKeys before) where
  abbrev Same : Db → Type 0
  Same d = d ≡ before

  Returns-get_balances :
      (balances : List (String × ℤ))
      → NodeAnswer E addr balances
      → Returns Same (get_address_balances E addr) (λ b d. (b ≡ balances) × Same d)
  unfolding get_address_balances connected call ask lift pure ◌>>=◌
  Returns-get_balances balances b = record {
    from = λ w h. rw (b.online w.tick, b.called (w.tick + 1), b.decoded, b.collected) (refl, h);
  }

  Returns-find_asset :
      (asset : AssetEntity)
      → find? (asset_key asset_id) before.assets ≡ some asset
      → Returns Same (find_asset_from_cache_or_db E asset_id) (λ o d. (o ≡ some asset) × Same d)
  unfolding find_asset_from_cache_or_db find_asset asset_or_node pure
  Returns-find_asset asset stored =
      Gives-bind _ _ (Returns-query_row E quiet rel Same (λ d. d.assets) (asset_key asset_id)) part
    where
      is_stored :
          (o : Option AssetEntity) (d : Db)
          → Seen Same (λ d. d.assets) (asset_key asset_id) o d
          → o ≡ some asset
      is_stored o d h = h.1 ∙ ap (λ x. find? (asset_key asset_id) x.assets) h.0 ∙ stored

      part :
          (o : Option AssetEntity)
          → Returns
              (Seen Same (λ d. d.assets) (asset_key asset_id) o)
              (asset_or_node E asset_id o)
              (λ o d. (o ≡ some asset) × Same d)
      part none = record { from = λ w h. absurd (none-ne-some asset (is_stored none w.db h)) }
      part (some a) = record { from = λ w h. (is_stored (some a) w.db h, h.0) }

  Returns-find_balance :
      Returns Same
        (find_address_balance_by_owner_addr_and_asset_id E addr asset_id)
        (λ o d. Same d × BalanceRow addr asset_id o before)
  unfolding find_address_balance_by_owner_addr_and_asset_id pure lift ◌>>=◌
  Returns-find_balance =
      Gives-bind _ _
        (Returns-query_row E quiet rel Same (λ d. d.address_balances.rows)
          (is_balance_of addr asset_id))
        parsed
    where
      in_before :
          (o : Option AddressBalanceEntity) (d : Db)
          → Seen Same (λ d. d.address_balances.rows) (is_balance_of addr asset_id) o d
          → o ≡ find? (balance_key (addr, asset_id)) before.address_balances.rows
      in_before o d h =
          h.1 ∙ ap (λ x. find? (balance_key (addr, asset_id)) x.address_balances.rows) h.0

      parsed :
          (o : Option AddressBalanceEntity)
          → Returns
              (Seen Same (λ d. d.address_balances.rows) (is_balance_of addr asset_id) o)
              (parsed_balance E o)
              (λ o d. Same d × BalanceRow addr asset_id o before)
      parsed none = record { from = λ w h. (h.0, in_before none w.db h) }
      parsed (some r) = record {
        from = λ w h.
            let (o, s) =
              both_texts r.owner_addr r.asset_id addr asset_id (
                find?-passes (is_balance_of addr asset_id) w.db.address_balances.rows r
                  (sym h.1)) in
            rw (reads r.amount).1 (h.0, (r, sym (in_before (some r) w.db h), refl, o, s));
      }

  Returns-store_balance :
      (amount : Decimal) (t : ℕ) (o : Option AddressBalanceEntity)
      → Returns
          (λ d. Same d × BalanceRow addr asset_id o before)
          (store_balance E addr asset_id amount t o)
          (λ u. Sets addr asset_id amount before)
  unfolding store_balance save_address_balance insert_address_balance store_address_balance
  Returns-store_balance amount t none = Gives-bind _ _ (Returns-now E) λ s.
      Returns-exec E quiet _ λ d h.
        subst
          (λ d.
            Sets addr asset_id amount before
              (insert_address_balance E (new_balance E addr asset_id before keys amount t) s d))
          (sym h.0) (Sets-insert E addr asset_id before keys amount t s h.1)
  Returns-store_balance amount t (some r) = Returns-exec E quiet _ λ d h.
      subst
        (λ d. Sets addr asset_id amount before (record d {
          address_balances =
              update_rows (λ x. eqb r.id x.id) (written E addr asset_id before keys r amount t)
                d.address_balances;
        }))
        (sym h.0) (Sets-update E addr asset_id before keys amount t r h.1)

  Returns-update_address_balance :
      (balances : List (String × ℤ)) (asset : AssetEntity)
      → NodeAnswer E addr balances
      → find? (asset_key asset_id) before.assets ≡ some asset
      → Returns Same (update_address_balance E addr asset_id) (λ u.
        Sets addr asset_id (scaled E (balance_or_zero (lookup asset_id balances)) asset) before)
  unfolding update_address_balance pure
  Returns-update_address_balance balances asset b stored =
      Gives-bind _ _ (Returns-get_balances balances b) (
        Gives-known _ balances (
          Gives-bind _ _ (Returns-find_asset asset stored) (
            Gives-known _ (some asset) (
              Gives-bind {Q = λ a d. (a ≡ asset) × Same d} _ _ (record { from = λ w h. (refl, h) })
                (Gives-known _ asset (
                  Gives-bind _ _ Returns-find_balance
                    λ o. Gives-bind _ _ (Returns-now E) (λ t. Returns-store_balance _ t o)))))))

-- The amount by its two decimals: the balance that the node gave, or zero, over the power of ten.
scaled-quotient :
    (E : Env) (o : Option ℤ) (asset : AssetEntity)
    → scaled E (balance_or_zero o) asset
      ≡ E.decimal_div
          (record { value = elim o [ none ↦ pos 0 | some given ↦ given ]; exponent = pos 0 })
          (record { value = E.pow10 asset.precision; exponent = pos 0 })
scaled-quotient E none asset = refl
scaled-quotient E (some n) asset = refl

-- Take a database without double keys, in which the asset is known, a driver that reports no error, a reliable
-- row iteration, decimals that can be read once they are printed, and a node that is connected and answers with these
-- balances of the address. updateAddressBalance returns; then the balance of the address and the asset is
-- the balance that the node gave for the asset, or zero if it gave none, divided by ten to the
-- precision of the asset, and every other balance is as it was.
pub update_address_balance-Sets :
    (E : Env) (addr asset_id : String) (balances : List (String × ℤ)) (asset : AssetEntity)
    (w : World)
    → Quiet E
    → Reliable E
    → ((d : Decimal) → (m : Decimal) × (E.parse_decimal (E.show_decimal d) ≡ ok m))
    → HasKeys w.db
    → NodeAnswer E addr balances
    → find? (asset_key asset_id) w.db.assets ≡ some asset
    → ((update_address_balance E addr asset_id w).0 ≡ done tt)
      × Sets addr asset_id
          (E.decimal_div
            (record {
              value = elim (lookup asset_id balances) [ none ↦ pos 0 | some given ↦ given ];
              exponent = pos 0;
            })
            (record { value = E.pow10 asset.precision; exponent = pos 0 }))
          w.db
          (update_address_balance E addr asset_id w).1.db
update_address_balance-Sets E addr asset_id balances asset w quiet rel reads keys b stored =
    let (u, returned, sets) =
      Returns-done (update_address_balance E addr asset_id) w
        (Returns-update_address_balance E quiet rel reads addr asset_id w.db keys balances asset b
          stored)
        refl in
    (
      returned,
      subst (λ x. Sets addr asset_id x w.db (update_address_balance E addr asset_id w).1.db)
          (scaled-quotient E (lookup asset_id balances) asset) sets,
    )
