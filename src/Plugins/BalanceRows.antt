-- ===== src/Plugins/BalanceRows.antt =====
-- The rows of balances that updateAddressBalance writes.
use hxscanner.Prelude.{
  ℕ, ◌≡◌, refl, sym, String, true, false, ◌&&◌, Option, none, some, List, ◌==◌, eqb, eqb_refl,
  eq_refl, find?, find?-passes, count, ◌≤◌,
}
use hxscanner.Env.{Decimal, Env}
use hxscanner.Db.Table.{find?-update_found, find?-update_other, find?-append_other, update_rows}
use hxscanner.Db.Checkpoint.{find?-append}
use hxscanner.Db.Schema.{Db, AddressBalanceEntity}
use hxscanner.Db.Keys.{HasKeys, balance_key}
use hxscanner.Db.UniqueBalances.{both_texts}
use hxscanner.Db.Assets.{insert_address_balance}

-- The balance of the address and the asset is this amount, and every other is as in the first database.
pub record Sets (addr asset_id : String) (amount : Decimal) (before after : Db) : Type 0 where
  pub row : AddressBalanceEntity
  pub found : find? (balance_key (addr, asset_id)) after.address_balances.rows ≡ some row
  pub is_amount : row.amount ≡ amount
  pub others :
      (k : String × String)
      → ((addr == k.0) && (asset_id == k.1)) ≡ false
      → find? (balance_key k) after.address_balances.rows
        ≡ find? (balance_key k) before.address_balances.rows

-- What the look-up of the balance answered.
abbrev pub BalanceRow : String → String → Option AddressBalanceEntity → Db → Type 0
BalanceRow a i none d = none ≡ find? (balance_key (a, i)) d.address_balances.rows
BalanceRow a i (some r) d =
    (e : AddressBalanceEntity) × (find? (balance_key (a, i)) d.address_balances.rows ≡ some e)
    × (r.id ≡ e.id)
    × (r.owner_addr ≡ a)
    × (r.asset_id ≡ i)

other_key :
    (a i : String) (k : String × String) (e : AddressBalanceEntity)
    → ((a == k.0) && (i == k.1)) ≡ false
    → balance_key (a, i) e ≡ true
    → balance_key k e ≡ false
other_key a i k e h same = let (o, s) = both_texts e.owner_addr e.asset_id a i same in rw (o, s) h

module _ (E : Env) (addr asset_id : String) (before : Db) (keys : HasKeys before) where
  abbrev rows : List AddressBalanceEntity
  rows = before.address_balances.rows

  own_key : ((addr == addr) && (asset_id == asset_id)) ≡ true
  own_key = rw (eq_refl addr, eq_refl asset_id) refl

  abbrev pub new_balance : Decimal → ℕ → AddressBalanceEntity
  new_balance amount t = record {
    id = 0;
    owner_addr = addr;
    asset_id = asset_id;
    amount = amount;
    created_at = t;
    updated_at = t;
  }

  pub Sets-insert :
      (amount : Decimal) (t s : ℕ)
      → none ≡ find? (balance_key (addr, asset_id)) rows
      → Sets addr asset_id amount before (insert_address_balance E (new_balance amount t) s before)
  unfolding insert_address_balance
  Sets-insert amount t s missing = record {
    row = record {
      id = before.address_balances.next_id;
      owner_addr = addr;
      asset_id = asset_id;
      amount = amount;
      created_at = s;
      updated_at = s;
    };
    found = find?-append (balance_key (addr, asset_id)) rows _ (sym missing) own_key;
    is_amount = refl;
    others = λ k h. find?-append_other (balance_key k) rows _ h;
  }

  abbrev pub written :
      AddressBalanceEntity → Decimal → ℕ → AddressBalanceEntity → AddressBalanceEntity
  written r amount t x = record r { id = x.id; amount = amount; updated_at = t }

  pub Sets-update :
      (amount : Decimal) (t : ℕ) (r : AddressBalanceEntity)
      → BalanceRow addr asset_id (some r) before
      → Sets addr asset_id amount before (record before {
        address_balances =
            update_rows (λ x. eqb r.id x.id) (written r amount t) before.address_balances;
      })
  Sets-update amount t r (e, found, ids, owner, asset) =
      let once : count (λ x. eqb r.id x.id) rows ≤ 1 = (HasKeys.balance_ids keys).once r.id in
      let hit : eqb r.id e.id ≡ true = rw ids (eqb_refl e.id) in
      record {
        row = written r amount t e;
        found =
            find?-update_found (balance_key (addr, asset_id)) (λ x. eqb r.id x.id)
              (written r amount t) rows e once found hit (rw (owner, asset) own_key);
        is_amount = refl;
        others = λ k h.
            find?-update_other (balance_key k) (balance_key (addr, asset_id)) (λ x. eqb r.id x.id)
              (written r amount t) rows e once found hit
              (other_key addr asset_id k e h
                (find?-passes (balance_key (addr, asset_id)) rows e found))
              (rw (owner, asset) h);
      }
