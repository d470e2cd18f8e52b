-- ===== src/Plugins/Deposits.antt =====
-- The deposits of a receipt, and the users of a transfer, in the plugin for calls of token contracts.
use hxscanner.Prelude.{
  ◌≡◌, refl, String, Bool, true, false, ◌&&◌, ◌||◌, not, Option, none, some, List, [], ◌∷◌, ◌==◌,
  eq_iff, arith, count, if◌then◌else◌,
}
use hxscanner.Value.{Value, as_array}
use hxscanner.Env.{TransferEventArg, Env}
use hxscanner.Db.Schema.{Db}
use hxscanner.Exec.{World, done, pure, ◌>>◌}
use hxscanner.Exec.Keeps.{Gives, Gives-weaken, Gives-result}
use hxscanner.Exec.Any.{Any, Gives-last}
use hxscanner.Plugins.Balance.{update_address_balance}
use hxscanner.Plugins.TokenInvoke.{MaybeError, users_to_update, pair_of_change}
use hxscanner.Plugins.TokenEvents.{process_deposits}

abbrev is_deposit : Option (String × String) → Bool
is_deposit none = false
is_deposit (some p) = true

-- One of the changes is a deposit of an asset at an address.
abbrev pub has_deposit : List Value → Bool
has_deposit [] = false
has_deposit (c ∷ cs) = if is_deposit (pair_of_change (as_array c)) then true else has_deposit cs

module _ (E : Env) (key : String) where
  abbrev Left : List Value → MaybeError → MaybeError → Db → Type 0
  Left cs e x d = x ≡ (if has_deposit cs then none else e)

  Gives-process_deposits :
      (cs : List Value) (e : MaybeError) → Gives Any (process_deposits E key cs e) (Left cs e) Any
  unfolding process_deposits pure
  Gives-process_deposits [] e = record { from = λ w h. refl }
  Gives-process_deposits (c ∷ cs) e =
      part (pair_of_change (as_array c)) (Gives-process_deposits cs e)
        (Gives-process_deposits cs none)
    where
      none-either : (b : Bool) (x : MaybeError) → x ≡ (if b then none else none) → x ≡ none
      none-either true x h = h
      none-either false x h = h

      part :
          (o : Option (String × String))
          → Gives Any (process_deposits E key cs e) (Left cs e) Any
          → Gives Any (process_deposits E key cs none) (Left cs none) Any
          → Gives Any
              (elim o [
                | none ↦ process_deposits E key cs e
                | some (addr, asset_id) ↦
                    update_address_balance E addr asset_id >> process_deposits E key cs none
              ])
              (λ x d. x ≡ (if (if is_deposit o then true else has_deposit cs) then none else e))
              Any
      part none k l = k
      part (some (addr, asset_id)) k l =
          Gives-last _ _ λ _. Gives-weaken _ (λ x d h. none-either (has_deposit cs) x h) l

-- When the loop over the deposits of a receipt returns, the error that the events left is forgotten if there was
-- a deposit, and is the result of the plugin otherwise.
pub process_deposits-error :
    (E : Env) (key : String) (cs : List Value) (e x : MaybeError) (w : World)
    → (process_deposits E key cs e w).0 ≡ done x
    → x ≡ (if has_deposit cs then none else e)
process_deposits-error E key cs e x w returned =
    Gives-result (process_deposits E key cs e) w x (Gives-process_deposits E key cs e) tt returned

-- A transfer asks for the balances of its sender and its receiver, each once, also if they are the
-- same, and for none whose address is empty.
pub count-users_to_update :
    (a : TransferEventArg) (u : String)
    → count (λ v. v == u) (users_to_update a)
      ≡ (if not (u == "") && ((a.from_addr == u) || (a.to_addr == u)) then 1 else 0)
count-users_to_update a u = ground (
  arith,
  eq_iff a.from_addr "",
  eq_iff a.to_addr "",
  eq_iff a.to_addr a.from_addr,
  eq_iff a.from_addr u,
  eq_iff a.to_addr u,
  eq_iff u "",
)
