-- ===== src/Plugins/TokenStored.antt =====
-- What the plugin for calls of token contracts stores as the token balance of a user.
use hxscanner.Prelude.{
  ℕ, ◌≤◌, ◌≡◌, refl, sym, ap, ◌∙◌, String, Bool, true, false, Option, none, some, List, [], ◌∷◌,
  ◌++◌, eqb, eqb_refl, eq_refl, find?, find?-passes, update, count,
}
use hxscanner.Prelude.Int.{ℤ}
use hxscanner.Strconv.{itoa}
use hxscanner.Env.{ok, Decimal, Env}
use hxscanner.Db.Table.{find?-update_found, find?-update_other, find?-append_other}
use hxscanner.Db.Checkpoint.{find?-append}
use hxscanner.Db.Schema.{Db, TokenBalanceEntity}
use hxscanner.Db.Keys.{HasKeys, token_balance_key}
use hxscanner.Db.Tokens.{
  find_token_balance_by_contract_addr_and_owner_addr, parsed_token_balance, is_token_balance_of,
  save_token_balance, insert_token_balance, update_token_balance,
}
use hxscanner.Exec.{World, done, pure, lift, ◌>>=◌}
use hxscanner.Exec.Keeps.{Gives-bind, Gives-known}
use hxscanner.Exec.Leads.{Reliable, Seen}
use hxscanner.Exec.Quiet.{Quiet, Returns, Returns-done, Returns-exec, Returns-query_row}
use hxscanner.Exec.Ends.{Returns-now}
use hxscanner.Plugins.TokenInvoke.{store_token_balance, update_user}

-- The key finds a good row now, and every key of other rows finds what it found before.
pub record SetsRow {A K : Type 0} (key : K → A → Bool) (k : K) (Good : A → Type 0)
    (before after : List A) : Type 0 where
  pub row : A
  pub found : find? (key k) after ≡ some row
  pub good : Good row
  pub others : (j : K) → key j row ≡ false → find? (key j) after ≡ find? (key j) before

module _ {A K : Type 0} (key : K → A → Bool) (k : K) (Good : A → Type 0) (rows : List A) where
  append-SetsRow :
      (r : A)
      → none ≡ find? (key k) rows
      → key k r ≡ true
      → Good r
      → SetsRow key k Good rows (rows ++ r ∷ [])
  append-SetsRow r missing own good = record {
    row = r;
    found = find?-append (key k) rows r (sym missing) own;
    good = good;
    others = λ j h. find?-append_other (key j) rows r h;
  }

  update-SetsRow :
      (p : A → Bool) (f : A → A) (e : A)
      → count p rows ≤ 1
      → find? (key k) rows ≡ some e
      → p e ≡ true
      → ((j : K) → key j (f e) ≡ key j e)
      → Good (f e)
      → SetsRow key k Good rows (update p f rows)
  update-SetsRow p f e once found hit same good = record {
    row = f e;
    found =
        find?-update_found (key k) p f rows e once found hit
          (same k ∙ find?-passes (key k) rows e found);
    good = good;
    others =
        λ j h. find?-update_other (key j) (key k) p f rows e once found hit (sym (same j) ∙ h) h;
  }

module _ (E : Env) (quiet : Quiet E) (rel : Reliable E)
    (reads : (d : Decimal) → (m : Decimal) × (E.parse_decimal (E.show_decimal d) ≡ ok m))
    (caller_pub_key contract_id user_addr : String) (before : Db) (keys : HasKeys before) where
  abbrev k : String × String
  k = (contract_id, user_addr)

  abbrev Same : Db → Type 0
  Same d = d ≡ before

  abbrev Sets : Decimal → Db → Type 0
  Sets amount d =
      SetsRow token_balance_key k (λ r. r.amount ≡ amount) before.token_balances.rows
        d.token_balances.rows

  -- What the look-up answered: the row with its amount read back.
  abbrev Found : Option TokenBalanceEntity → Type 0
  Found none = none ≡ find? (token_balance_key k) before.token_balances.rows
  Found (some r) =
      (e : TokenBalanceEntity) × (find? (token_balance_key k) before.token_balances.rows ≡ some e)
      × (r.id ≡ e.id)
      × (r.contract_addr ≡ e.contract_addr)
      × (r.owner_addr ≡ e.owner_addr)

  Returns-find :
      Returns Same
        (find_token_balance_by_contract_addr_and_owner_addr E contract_id user_addr)
        (λ o d. Same d × Found o)
  unfolding find_token_balance_by_contract_addr_and_owner_addr pure lift ◌>>=◌
  Returns-find =
      Gives-bind _ _
        (Returns-query_row E quiet rel Same (λ d. d.token_balances.rows)
          (is_token_balance_of contract_id user_addr))
        parsed
    where
      in_before :
          (o : Option TokenBalanceEntity) (d : Db)
          → Seen Same (λ d. d.token_balances.rows) (is_token_balance_of contract_id user_addr) o d
          → o ≡ find? (token_balance_key k) before.token_balances.rows
      in_before o d h = h.1 ∙ ap (λ x. find? (token_balance_key k) x.token_balances.rows) h.0

      parsed :
          (o : Option TokenBalanceEntity)
          → Returns
              (Seen Same (λ d. d.token_balances.rows) (is_token_balance_of contract_id user_addr) o)
              (parsed_token_balance E o)
              (λ o d. Same d × Found o)
      parsed none = record { from = λ w h. (h.0, in_before none w.db h) }
      parsed (some r) = record {
        from = λ w h.
            rw (reads r.amount).1 (h.0, (r, sym (in_before (some r) w.db h), refl, refl, refl));
      }

  Returns-store :
      (amount : Decimal) (t : ℕ) (o : Option TokenBalanceEntity)
      → Returns
          (λ d. Same d × Found o)
          (store_token_balance E caller_pub_key contract_id user_addr amount t o)
          (λ _. Sets amount)
  unfolding store_token_balance save_token_balance insert_token_balance update_token_balance
  Returns-store amount t none = Gives-bind _ _ (Returns-now E) λ s. Returns-exec E quiet _ λ d h.
      rw h.0 (
        append-SetsRow token_balance_key k (λ r. r.amount ≡ amount) before.token_balances.rows _ h.1
          (rw (eq_refl contract_id, eq_refl user_addr) refl) refl)
  Returns-store amount t (some r) =
      Returns-exec E quiet _ λ d (same, (e, found, ids, contracts, owners)). rw same (
        update-SetsRow token_balance_key k (λ r. r.amount ≡ amount) before.token_balances.rows
          (λ x. eqb r.id x.id) _ e ((HasKeys.token_balance_ids keys).once r.id) found
          (rw ids (eqb_refl e.id)) (λ j. rw (contracts, owners) refl) refl)

  Returns-update_user :
      (t : ℕ) (n : ℤ) (amount : Decimal)
      → E.parse_decimal (itoa n) ≡ ok amount
      → Returns Same (update_user E caller_pub_key contract_id t user_addr n) (λ _. Sets amount)
  unfolding update_user lift
  Returns-update_user t n amount parsed = Gives-bind _ _ Returns-find λ o.
      Gives-bind {Q = λ a d. (a ≡ amount) × (Same d × Found o)} _ _
        (record { from = λ w h. rw parsed (refl, h) })
        (Gives-known (λ a. store_token_balance E caller_pub_key contract_id user_addr a t o) amount
          (Returns-store amount t o))

-- Take a database without double keys, a driver that reports no error, a reliable row iteration, decimals that can be read once they are
-- printed, and a balance whose digits are a decimal. Storing it for a user of a token contract returns; then the row of
-- the user has this decimal as its amount, and the look-ups of other users or contracts find what they found before.
pub update_user-SetsRow :
    (E : Env) (caller_pub_key contract_id user_addr : String) (t : ℕ) (n : ℤ) (amount : Decimal)
    (w : World)
    → Quiet E
    → Reliable E
    → ((d : Decimal) → (m : Decimal) × (E.parse_decimal (E.show_decimal d) ≡ ok m))
    → HasKeys w.db
    → E.parse_decimal (itoa n) ≡ ok amount
    → ((update_user E caller_pub_key contract_id t user_addr n w).0 ≡ done tt)
      × SetsRow token_balance_key
          (contract_id, user_addr)
          (λ r. r.amount ≡ amount)
          w.db.token_balances.rows
          (update_user E caller_pub_key contract_id t user_addr n w).1.db.token_balances.rows
update_user-SetsRow E caller_pub_key contract_id user_addr t n amount w quiet rel reads keys
      parsed =
    let (u, returned, sets) =
      Returns-done (update_user E caller_pub_key contract_id t user_addr n) w
        (Returns-update_user E quiet rel reads caller_pub_key contract_id user_addr w.db keys t n
          amount parsed)
        refl in
    (returned, sets)
