-- ===== src/Scanner/Lives.antt =====
-- The process of src/hxscanner.go: it is started again whenever it has ended, and finds the database as the
-- last process left it.
use hxscanner.Prelude.{String, ℕ, suc, ◌≡◌, sym, List, [], ◌∷◌}
use mathlib.Core.Path.{subst}
use hxscanner.Prelude.Int.{negsuc}
use hxscanner.Env.{Env}
use hxscanner.Db.Schema.{Db, init_db}
use hxscanner.Db.Keys.{HasKeys, HasKeys-init_db}
use hxscanner.Db.Keeps.{Keeps-get_last_scanned_block_number}
use hxscanner.Exec.{World, done}
use hxscanner.Exec.Keeps.{
  Keeps, Keeps-bind, Keeps-or_exit, Keeps-of_Gives, Gives-weaken, Gives-result,
}
use hxscanner.Exec.Leads.{Reliable}
use hxscanner.Scanner.Operation.{OpScannerPlugin}
use hxscanner.Scanner.Block.{Scan, run}
use hxscanner.Scanner.Keys.{scan_blocks_from-HasKeys}
use hxscanner.Db.OpTables.{OpRows, OpRows-init_db}
use hxscanner.Scanner.Loops.{Keeps-scan_blocks_from}
use hxscanner.Scanner.OpRows.{KeepsBlocks-OpRows}
use hxscanner.Scanner.Coverage.{Covered, Safe}
use hxscanner.Scanner.Loops.{next_block}
use hxscanner.Scanner.Restart.{run-Scanned}
use hxscanner.Scanner.Registered.{plugins, plugins-Scanned, plugins-HasKeys, plugins-OpRows}

-- A new process has an empty cache.
abbrev pub restarted : World → World
restarted w = record w { schema_cache = [] }

module _ (E : Env) (ps : List OpScannerPlugin) where
  -- Processes one after the other, each for at most so many rounds.
  unfoldable pub lives : List ℕ → World → World
  lives [] w = w
  lives (rounds ∷ rest) w = lives rest (restarted (run E ps rounds (negsuc 0) w).1)

  pub lives-Keeps :
      (P : Db → Type 0)
      → ((rounds : ℕ) → Keeps P (run E ps rounds (negsuc 0)))
      → (ls : List ℕ) (w : World) → P w.db
      → P (lives ls w).db
  unfolding lives
  lives-Keeps P k [] w h = h
  lives-Keeps P k (rounds ∷ ls) w h = lives-Keeps P k ls _ ((k rounds).at w h)

module _ (E : Env) (caller_pub_key : String) where
  lives-Safe :
      (ls : List ℕ) (w : World)
      → w.db ≡ init_db
      → Safe 1 (lives E (plugins E caller_pub_key) ls w).db
  lives-Safe ls w e =
      lives-Keeps E (plugins E caller_pub_key) (Safe 1)
        (λ rounds. Keeps-of_Gives _ (
          Gives-weaken _ (λ s d h. h.1)
            (run-Scanned E (plugins E caller_pub_key) (plugins-Scanned E caller_pub_key) rounds 0)))
        ls w (subst (Safe 1) (sym e) tt)

  -- However often the process ended, and however it ended, since the database was empty: when a further
  -- process stands before block n, every block from 1 to n - 1 is stored, whatever the node and the
  -- database answered.
  pub lives-Covered :
      (ls : List ℕ) (rounds : ℕ) (w : World) (s : Scan)
      → w.db ≡ init_db
      → (run E
          (plugins E caller_pub_key)
          rounds
          (negsuc 0)
          (lives E (plugins E caller_pub_key) ls w)).0
        ≡ done s
      → Covered 1
          (next_block s)
          (run E
            (plugins E caller_pub_key)
            rounds
            (negsuc 0)
            (lives E (plugins E caller_pub_key) ls w)).1.db.blocks
  lives-Covered ls rounds w s empty ends =
      (Gives-result (run E (plugins E caller_pub_key) rounds (negsuc 0))
        (lives E (plugins E caller_pub_key) ls w) s
        (run-Scanned E (plugins E caller_pub_key) (plugins-Scanned E caller_pub_key) rounds 0)
        (lives-Safe ls w empty) ends).0

  module _ (rel : Reliable E) where
    pub run-HasKeys :
        (rounds : ℕ) → Keeps HasKeys (run E (plugins E caller_pub_key) rounds (negsuc 0))
    unfolding run
    run-HasKeys rounds =
        Keeps-bind _ _ (Keeps-or_exit _ (Keeps-get_last_scanned_block_number E)) (λ last.
          scan_blocks_from-HasKeys E rel (plugins E caller_pub_key)
            (plugins-HasKeys E caller_pub_key rel) rounds (suc last))

    -- With a reliable row iteration no number of processes, each of which may end at any statement, stores
    -- a block number, a transaction id, an operation id, a config key, a receipt, a token contract, a token
    -- balance, an asset, a balance or an account twice in a database that was empty.
    pub lives-HasKeys :
        (ls : List ℕ) (w : World)
        → w.db ≡ init_db
        → HasKeys (lives E (plugins E caller_pub_key) ls w).db
    lives-HasKeys ls w e =
        lives-Keeps E (plugins E caller_pub_key) HasKeys run-HasKeys ls w
          (subst HasKeys (sym e) HasKeys-init_db)

    run-OpRows : (rounds : ℕ) → Keeps OpRows (run E (plugins E caller_pub_key) rounds (negsuc 0))
    unfolding run
    run-OpRows rounds =
        Keeps-bind _ _ (Keeps-or_exit _ (Keeps-get_last_scanned_block_number E)) (λ last.
          Keeps-scan_blocks_from E (KeepsBlocks-OpRows E rel) (plugins E caller_pub_key)
            (plugins-OpRows E caller_pub_key) rounds (suc last))

    -- With a reliable row iteration no number of processes, each of which may end at any statement, stores
    -- an operation twice in the table of its type, or makes a table twice, in a database that was empty.
    pub lives-OpRows :
        (ls : List ℕ) (w : World)
        → w.db ≡ init_db
        → OpRows (lives E (plugins E caller_pub_key) ls w).db
    lives-OpRows ls w e =
        lives-Keeps E (plugins E caller_pub_key) OpRows run-OpRows ls w
          (subst OpRows (sym e) OpRows-init_db)
