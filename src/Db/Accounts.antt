-- ===== src/Db/Accounts.antt =====
-- src/db/account_daos.go
use hxscanner.Prelude.{ℕ, String, Option, ◌==◌}
use hxscanner.Env.{Env}
use hxscanner.Db.Table.{insert_row}
use hxscanner.Db.Schema.{Db, AccountEntity}
use hxscanner.Exec.{M, ◌>>=◌, now, query_row, exec}

module _ (E : Env) where
  unfoldable pub insert_account : AccountEntity → ℕ → Db → Db
  insert_account account t d = record d {
    accounts =
        insert_row (λ i. record account { id = i; created_at = t; updated_at = t }) d.accounts;
  }

  unfoldable pub save_account : AccountEntity → M (Unit {0})
  unfolding insert_account
  save_account account = do t ← now E; exec E (insert_account account t)

  unfoldable pub find_account_by_owner_addr : String → M (Option AccountEntity)
  find_account_by_owner_addr owner_addr =
      query_row E (λ d. d.accounts.rows) (λ r. r.owner_addr == owner_addr)
