-- ===== src/Db/UniqueBalances.antt =====
-- Balances, whose keys are pairs: saving and updating keep the tables free of double keys.
use mathlib.Core.Path.{subst}
use hxscanner.Prelude.{
  ◌≡◌, refl, sym, String, true, ◌&&◌, some, ◌==◌, eqb, eq_iff, arith, find?, count, count-eq-zero,
  find?-passes,
}
use hxscanner.Env.{Env}
use hxscanner.Exec.Keeps.{Keeps-now}
use hxscanner.Exec.Leads.{Leads, Leads-exec, Gives-after}
use hxscanner.Db.Table.{append-UniqueBy}
use hxscanner.Db.Serials.{insert-HasSerials, update-HasSerials, update_found-UniqueBy}
use hxscanner.Db.Schema.{Db, AddressBalanceEntity}
use hxscanner.Db.Assets.{save_address_balance, update_address_balance}
use hxscanner.Db.Keys.{HasKeys, balance_key}
use hxscanner.Db.Keys.Changes.{with_address_balances}
use hxscanner.Db.Unique.{Absent}

-- Both parts of a pair agree.
pub both_texts : (a b a' b' : String) → ((a == a') && (b == b')) ≡ true → (a ≡ a') × (b ≡ b')
both_texts a b a' b' h = ground (arith, eq_iff a a', eq_iff b b')

-- The row that a look-up found, with another amount.
abbrev pub Found : AddressBalanceEntity → Db → Type 0
Found b d =
    HasKeys d
    × (e : AddressBalanceEntity) × (find? (balance_key (b.owner_addr, b.asset_id))
          d.address_balances.rows
        ≡ some e)
    × (b.id ≡ e.id)

module _ (E : Env) where
  pub Leads-save_address_balance :
      (b : AddressBalanceEntity)
      → Leads
          (Absent (λ d. d.address_balances.rows) (balance_key (b.owner_addr, b.asset_id)))
          (save_address_balance E b)
          HasKeys
  unfolding save_address_balance
  Leads-save_address_balance b =
      Gives-after _ _ (λ d h. h.0) (Keeps-now E)
        λ t.
          Leads-exec E (λ d h. h.0) _
            λ d h.
              with_address_balances h.0 _
                (append-UniqueBy balance_key d.address_balances.rows _
                  (HasKeys.address_balances h.0)
                  (λ k same.
                    let (o, a) = both_texts b.owner_addr b.asset_id k.0 k.1 same in
                    subst (λ k. count (balance_key k) d.address_balances.rows ≡ 0) (λ i. (o i, a i))
                      (count-eq-zero _ d.address_balances.rows (sym h.1))))
                (insert-HasSerials _ d.address_balances
                  (λ i. record b { id = i; created_at = t; updated_at = t }) (λ i. refl)
                  (HasKeys.balance_ids h.0))

  pub Leads-update_address_balance :
      (b : AddressBalanceEntity) → Leads (Found b) (update_address_balance E b) HasKeys
  unfolding update_address_balance
  Leads-update_address_balance b =
      Leads-exec E (λ d h. h.0) _
        λ d h.
          with_address_balances h.0 _
            (update_found-UniqueBy _ d.address_balances balance_key
              (balance_key (b.owner_addr, b.asset_id)) (λ r. record b { id = r.id }) b.id h.1
              (HasKeys.balance_ids h.0) h.2 h.3
              (λ k. same_key b h.1 k (find?-passes _ d.address_balances.rows h.1 h.2))
              (HasKeys.address_balances h.0))
            (update-HasSerials _ d.address_balances (λ r. eqb b.id r.id)
              (λ r. record b { id = r.id }) (λ r. refl) (HasKeys.balance_ids h.0))
    where
      same_key :
          (b e : AddressBalanceEntity) (k : String × String)
          → balance_key (b.owner_addr, b.asset_id) e ≡ true
          → balance_key k (record b { id = e.id }) ≡ balance_key k e
      same_key b e k h =
          let (o, a) = both_texts e.owner_addr e.asset_id b.owner_addr b.asset_id h in rw (o, a)
