-- ===== src/Node/Numbers.antt =====
-- The number of a block that `GetBlock` returns, whatever the node answers.
use mathlib.Core.Path.{subst}
use mathlib.Core.Option.{some-injective, none-ne-some}
use hxscanner.Prelude.{
  ℕ, zero, suc, List, [], ◌∷◌, map, get_elem?, ◌≡◌, refl, sym, ap, ◌∙◌, String, Bool, true, false,
  Option, none, some, ◌==◌, if◌then◌else◌, not,
}
use hxscanner.Value.{Value}
use hxscanner.Types.{HxBlock, HxTransaction, HxFullTransactionExtraInfo}
use hxscanner.Env.{Result, ok, err, Env}
use hxscanner.Db.Schema.{Db}
use hxscanner.Exec.{M, pure, fail, panic}
use hxscanner.Exec.Keeps.{Gives, Keeps-connected, Keeps-call, Keeps-attempt, Keeps-lift}
use hxscanner.Exec.Leads.{Gives-after}
use hxscanner.Node.{
  get_block, get_block_reply, complete_block, number_transactions, fill_transactions,
}

-- Each transaction knows its position, counted from `i`.
abbrev pub Positioned : ℕ → List HxTransaction → Type 0
Positioned i [] = Unit
Positioned i (tx ∷ txs) = (tx.index_in_block ≡ i) × Positioned (suc i) txs

-- A block with its number, whose transactions have their positions and the ids that it lists.
pub record IsComplete (n : ℕ) (b : HxBlock) : Type 0 where
  pub number : b.block_number ≡ n
  pub positions : Positioned 0 b.transactions
  pub ids :
      (i : ℕ) (tx : HxTransaction) (id : String)
      → get_elem? b.transactions i ≡ some tx
      → get_elem? b.transaction_ids i ≡ some id
      → tx.trxid ≡ id

-- The block, if there is one, is the one that was asked for.
abbrev pub Numbered : ℕ → Option HxBlock → Type 0
Numbered n o = (b : HxBlock) → o ≡ some b → IsComplete n b

number_transactions-Positioned :
    (i : ℕ) (txs : List HxTransaction) → Positioned i (number_transactions i txs)
unfolding number_transactions
number_transactions-Positioned i [] = tt
number_transactions-Positioned i (tx ∷ txs) = (refl, number_transactions-Positioned (suc i) txs)

fill_transactions-Positioned :
    (i : ℕ) (infos : List HxFullTransactionExtraInfo) (txs : List HxTransaction)
    → Positioned i txs
    → Positioned i (fill_transactions infos txs)
unfolding fill_transactions
fill_transactions-Positioned i [] txs h = h
fill_transactions-Positioned i (info ∷ infos) [] h = tt
fill_transactions-Positioned i (info ∷ infos) (tx ∷ txs) h =
    (h.0, fill_transactions-Positioned (suc i) infos txs h.1)

fill_transactions-ids :
    (infos : List HxFullTransactionExtraInfo) (txs : List HxTransaction) (i : ℕ)
    (tx : HxTransaction) (id : String)
    → get_elem? (fill_transactions infos txs) i ≡ some tx
    → get_elem? (map (λ info. info.trxid) infos) i ≡ some id
    → tx.trxid ≡ id
unfolding fill_transactions
fill_transactions-ids [] txs i tx id h k = absurd (none-ne-some id k)
fill_transactions-ids (info ∷ infos) [] i tx id h k = absurd (none-ne-some tx h)
fill_transactions-ids (info ∷ infos) (t ∷ txs) zero tx id h k =
    sym (ap (λ x. x.trxid) (some-injective _ tx h)) ∙ some-injective _ id k
fill_transactions-ids (info ∷ infos) (t ∷ txs) (suc i) tx id h k =
    fill_transactions-ids infos txs i tx id h k

abbrev pub Numbers : (Db → Type 0) → ℕ → M (Option HxBlock) → Type 0
Numbers P n m = Gives P m (λ o d. P d × Numbered n o) P

module _ (E : Env) {P : Db → Type 0} where
  Numbers-pure-none : (n : ℕ) → Numbers P n (pure none)
  unfolding pure
  Numbers-pure-none n = record { from = λ w h. (h, λ b e. absurd (none-ne-some b e)) }

  Numbers-if :
      (n : ℕ) (c : Bool) (m k : M (Option HxBlock))
      → Numbers P n m
      → Numbers P n k
      → Numbers P n (if c then m else k)
  Numbers-if n true m k hm hk = hm
  Numbers-if n false m k hm hk = hk

  Numbers-complete_block : (n : ℕ) (o : Option HxBlock) → Numbers P n (complete_block E n o)
  unfolding complete_block pure panic
  Numbers-complete_block n none = record { from = λ w h. h }
  Numbers-complete_block n (some b) =
      Gives-after _ _ (λ d h. h) (Keeps-call E _ _)
        λ v.
          Gives-after _ _ (λ d h. h) (Keeps-lift _)
            λ infos. record {
              from = λ w h. (
                h,
                λ c e. subst (IsComplete n) (some-injective _ c e) (record {
                  number = refl;
                  positions =
                      fill_transactions-Positioned 0 infos _
                        (number_transactions-Positioned 0 b.transactions);
                  ids = fill_transactions-ids infos _;
                }),
              );
            }

  Numbers-get_block_reply : (n : ℕ) (r : Result Value) → Numbers P n (get_block_reply E n r)
  unfolding get_block_reply fail
  Numbers-get_block_reply n (err e) =
      Numbers-if n (e == "error <nil>") _ _ (Numbers-pure-none n) (record { from = λ w h. h })
  Numbers-get_block_reply n (ok v) =
      Gives-after _ _ (λ d h. h) (Keeps-lift _) (Numbers-complete_block n)

  -- Whatever the node answers: if `GetBlock` returns a block, the block has the number that was asked for,
  -- its transactions have their positions from 0 on, and a transaction at a position has the id
  -- that the block lists there; the database is as before.
  pub Numbers-get_block : (n : ℕ) → Numbers P n (get_block E n)
  unfolding get_block
  Numbers-get_block n =
      Gives-after _ _ (λ d h. h) (Keeps-connected E)
        λ is_connected. Numbers-if n (not is_connected) _ _ (Numbers-pure-none n) (
          Gives-after _ _ (λ d h. h) (Keeps-attempt _ (Keeps-call E _ _))
            (Numbers-get_block_reply n))
