-- ===== src/Scanner/CompleteScan.antt =====
-- The blocks that the loop over the blocks has passed are in the database with all that is in them.
use mathlib.Core.Path.{subst}
use hxscanner.Prelude.{
  ℕ, suc, ◌≤◌, ◌<◌, ◌≡◌, refl, sym, ap, ◌∙◌, eqb, eqb→eq, String, Option, none, some, ◌⊎◌, All,
  arith, Bool-cases, inl, inr,
}
use hxscanner.Types.{HxBlock}
use hxscanner.Env.{Env}
use hxscanner.Exec.{World, done, pure}
use hxscanner.Exec.Keeps.{Gives, Gives-bind, Gives-weaken, Gives-assume, Gives-known, Gives-result}
use hxscanner.Exec.Any.{Any, Gives-Any, Gives-Keeps, Gives-of_result}
use hxscanner.Exec.Quiet.{Quiet}
use hxscanner.Db.Schema.{Db}
use hxscanner.Node.{get_block}
use hxscanner.Scanner.Block.{process_block, scan_round, scan_blocks_from, before, Scan}
use hxscanner.Scanner.Loops.{next_block, Gives-rounds}
use hxscanner.Scanner.WellFormed.{GoodTransaction}
use hxscanner.Scanner.Registered.{plugins}
use hxscanner.Scanner.CompleteBlocks.{WholeBlock, Keeps-round, Gives-process_block}

-- The node's blocks, which are well-formed, and which are never other ones.
pub record Chain (E : Env) : Type 0 where
  pub block : ℕ → HxBlock
  pub good : (k : ℕ) → All (GoodTransaction E) (block k).transactions
  pub same : (k : ℕ) (w : World) (b : HxBlock) → (get_block E k w).0 ≡ done (some b) → b ≡ block k

-- Every block from `lo` up to, but without, `n` is stored with all that is in it.
abbrev pub WholeUpTo : {E : Env} → Chain E → ℕ → ℕ → Db → Type 0
WholeUpTo chain lo n d = (k : ℕ) → lo ≤ k → k < n → WholeBlock (chain.block k) d

module _ (E : Env) (caller_pub_key : String) (quiet : Quiet E) (chain : Chain E) where
  abbrev Passed : ℕ → ℕ → Db → Type 0
  Passed n next d = (next ≡ n) ⊎ ((next ≡ suc n) × WholeBlock (chain.block n) d)

  Gives-scan_round : (n : ℕ) → Gives Any (scan_round E (plugins E caller_pub_key) n) (Passed n) Any
  unfolding scan_round process_block pure
  Gives-scan_round n =
      Gives-bind _ _
        (Gives-of_result {F = λ o. (b : HxBlock) → o ≡ some b → b ≡ chain.block n} _
          (λ w o returned b e. chain.same n w b (returned ∙ ap done e)))
        part
    where
      part :
          (o : Option HxBlock)
          → Gives
              (λ d. (b : HxBlock) → o ≡ some b → b ≡ chain.block n)
              (process_block E (plugins E caller_pub_key) n o)
              (Passed n)
              Any
      part none =
          Gives-bind {Q = λ _. Any} _ _ (Gives-assume _ (λ d h. tt) (Gives-Any _))
            (λ _. record { from = λ w h. inl refl })
      part (some b) =
          Gives-assume _ (λ d h. (h b refl, tt))
            (Gives-known (λ x. process_block E (plugins E caller_pub_key) n (some x))
              (chain.block n)
              (Gives-weaken _ (λ next d h. inr h)
                (Gives-process_block E caller_pub_key quiet n (chain.block n) (chain.good n)))
              b)

  pub WholeUpTo-next :
      (lo n next : ℕ) (d : Db)
      → WholeUpTo chain lo n d
      → Passed n next d
      → WholeUpTo chain lo next d
  WholeUpTo-next lo n next d before (inl same) k l u = before k l (subst (λ m. k < m) same u)
  WholeUpTo-next lo n next d before (inr (same, whole)) k l u = elim (Bool-cases (eqb k n)) [
    | inl here ↦ subst (λ m. WholeBlock (chain.block m) d) (sym (eqb→eq k n here)) whole
    | inr there ↦ before k l (ground (arith, same, u, there))
  ]

  Gives-next_round :
      (lo n : ℕ)
      → Gives
          (WholeUpTo chain lo n)
          (scan_round E (plugins E caller_pub_key) n)
          (WholeUpTo chain lo)
          (WholeUpTo chain lo n)
  Gives-next_round lo n =
      Gives-weaken _ (λ next d h. WholeUpTo-next lo n next d h.0 h.1)
        (Gives-Keeps _ (Gives-scan_round n) (record {
          at = λ w h k l u. (Keeps-round E caller_pub_key n (chain.block k)).at w (h k l u);
        }))

  Gives-scan_blocks_from :
      (rounds lo n : ℕ)
      → Gives
          (WholeUpTo chain lo n)
          (scan_blocks_from E (plugins E caller_pub_key) rounds n)
          (λ s. WholeUpTo chain lo (next_block s))
          Any
  Gives-scan_blocks_from rounds lo n =
      Gives-rounds E (plugins E caller_pub_key) (λ m d h. tt) (Gives-next_round lo) rounds n

-- Take a driver that reports no error, and a node whose blocks are always the same and are well-formed,
-- with the receipts of their contract calls. When the loop over the blocks, with the plugins of the program, returns,
-- each block that it passed has every transaction and every operation in the database: no break of an inner
-- loop has left one out.
pub scan_blocks_from-WholeUpTo :
    (E : Env) (caller_pub_key : String) (quiet : Quiet E) (chain : Chain E) (rounds n : ℕ)
    (w : World) (s : Scan)
    → (scan_blocks_from E (plugins E caller_pub_key) rounds n w).0 ≡ done s
    → WholeUpTo chain n
        (next_block s)
        (scan_blocks_from E (plugins E caller_pub_key) rounds n w).1.db
scan_blocks_from-WholeUpTo E caller_pub_key quiet chain rounds n w s returned =
    Gives-result (scan_blocks_from E (plugins E caller_pub_key) rounds n) w s
      (Gives-scan_blocks_from E caller_pub_key quiet chain rounds n n)
      (λ k l u. absurd (ground (arith, l, u))) returned
