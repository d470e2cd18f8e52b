-- ===== src/Db/UniqueTokens.antt =====
-- Token contracts and token balances: saving a row that a look-up did not find, and updating a row that
-- a look-up found, keep the tables free of double keys.
use mathlib.Core.Path.{subst}
use hxscanner.Prelude.{
  ◌≡◌, refl, sym, String, true, some, eqb, find?, count, count-eq-zero, find?-passes, eq_iff,
}
use hxscanner.Env.{Env}
use hxscanner.Exec.Keeps.{Keeps-now}
use hxscanner.Exec.Leads.{Leads, Leads-exec, Gives-after}
use hxscanner.Db.Table.{append-UniqueBy}
use hxscanner.Db.Serials.{insert-HasSerials, update-HasSerials, update_found-UniqueBy}
use hxscanner.Db.Schema.{Db, TokenContractEntity, TokenBalanceEntity}
use hxscanner.Db.Tokens.{
  save_token_contract, update_token_contract, save_token_balance, update_token_balance,
  insert_token_balance,
}
use hxscanner.Db.Keys.{HasKeys, contract_key, token_balance_key}
use hxscanner.Db.Keys.Changes.{with_token_contracts, with_token_balances}
use hxscanner.Db.Unique.{Absent, absent_text}
use hxscanner.Db.UniqueBalances.{both_texts}

-- The row of this contract, with other columns.
abbrev pub FoundContract : TokenContractEntity → Db → Type 0
FoundContract c d =
    HasKeys d
    × (e : TokenContractEntity) × (find? (contract_key c.contract_id) d.token_contracts.rows
        ≡ some e)
    × (c.id ≡ e.id)

-- The row of this contract and user, with another amount.
abbrev pub FoundTokenBalance : TokenBalanceEntity → Db → Type 0
FoundTokenBalance b d =
    HasKeys d
    × (e : TokenBalanceEntity) × (find? (token_balance_key (b.contract_addr, b.owner_addr))
          d.token_balances.rows
        ≡ some e)
    × (b.id ≡ e.id)

module _ (E : Env) where
  pub Leads-save_token_contract :
      (t : TokenContractEntity)
      → Leads
          (Absent (λ d. d.token_contracts.rows) (contract_key t.contract_id))
          (save_token_contract E t)
          HasKeys
  unfolding save_token_contract
  Leads-save_token_contract t =
      Leads-exec E (λ d h. h.0) _
        λ d h.
          with_token_contracts h.0 _
            (append-UniqueBy contract_key d.token_contracts.rows _ (HasKeys.token_contracts h.0)
              (absent_text (λ r. r.contract_id) t.contract_id d.token_contracts.rows h.1))
            (insert-HasSerials _ d.token_contracts (λ i. record t { id = i }) (λ i. refl)
              (HasKeys.contract_ids h.0))

  pub Leads-update_token_contract :
      (c : TokenContractEntity) → Leads (FoundContract c) (update_token_contract E c) HasKeys
  unfolding update_token_contract
  Leads-update_token_contract c =
      Leads-exec E (λ d h. h.0) _
        λ d h.
          with_token_contracts h.0 _
            (update_found-UniqueBy _ d.token_contracts contract_key (contract_key c.contract_id)
              (λ r. record c { id = r.id }) c.id h.1 (HasKeys.contract_ids h.0) h.2 h.3
              (λ k. same_key c h.1 k (find?-passes _ d.token_contracts.rows h.1 h.2))
              (HasKeys.token_contracts h.0))
            (update-HasSerials _ d.token_contracts (λ r. eqb c.id r.id)
              (λ r. record c { id = r.id }) (λ r. refl) (HasKeys.contract_ids h.0))
    where
      same_key :
          (c e : TokenContractEntity) (k : String)
          → contract_key c.contract_id e ≡ true
          → contract_key k (record c { id = e.id }) ≡ contract_key k e
      same_key c e k h = let same = (eq_iff e.contract_id c.contract_id).0 h in rw same

  pub Leads-save_token_balance :
      (b : TokenBalanceEntity)
      → Leads
          (Absent (λ d. d.token_balances.rows) (token_balance_key (b.contract_addr, b.owner_addr)))
          (save_token_balance E b)
          HasKeys
  unfolding save_token_balance insert_token_balance
  Leads-save_token_balance b =
      Gives-after _ _ (λ d h. h.0) (Keeps-now E)
        λ t.
          Leads-exec E (λ d h. h.0) _
            λ d h.
              with_token_balances h.0 _
                (append-UniqueBy token_balance_key d.token_balances.rows _
                  (HasKeys.token_balances h.0)
                  (λ k same.
                    let (o, a) = both_texts b.contract_addr b.owner_addr k.0 k.1 same in
                    subst (λ k. count (token_balance_key k) d.token_balances.rows ≡ 0)
                      (λ i. (o i, a i)) (count-eq-zero _ d.token_balances.rows (sym h.1))))
                (insert-HasSerials _ d.token_balances
                  (λ i. record b { id = i; created_at = t; updated_at = t }) (λ i. refl)
                  (HasKeys.token_balance_ids h.0))

  pub Leads-update_token_balance :
      (b : TokenBalanceEntity) → Leads (FoundTokenBalance b) (update_token_balance E b) HasKeys
  unfolding update_token_balance
  Leads-update_token_balance b =
      Leads-exec E (λ d h. h.0) _
        λ d h.
          with_token_balances h.0 _
            (update_found-UniqueBy _ d.token_balances token_balance_key
              (token_balance_key (b.contract_addr, b.owner_addr)) (λ r. record b { id = r.id }) b.id
              h.1 (HasKeys.token_balance_ids h.0) h.2 h.3
              (λ k. same_key b h.1 k (find?-passes _ d.token_balances.rows h.1 h.2))
              (HasKeys.token_balances h.0))
            (update-HasSerials _ d.token_balances (λ r. eqb b.id r.id) (λ r. record b { id = r.id })
              (λ r. refl) (HasKeys.token_balance_ids h.0))
    where
      same_key :
          (b e : TokenBalanceEntity) (k : String × String)
          → token_balance_key (b.contract_addr, b.owner_addr) e ≡ true
          → token_balance_key k (record b { id = e.id }) ≡ token_balance_key k e
      same_key b e k h =
          let (o, a) = both_texts e.contract_addr e.owner_addr b.contract_addr b.owner_addr h in
          rw (o, a)
