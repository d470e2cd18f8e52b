-- ===== src/Scanner/Restart.antt =====
-- A process that ends, however it ends, and is started again from the stored checkpoint.
use mathlib.Core.Option.{some-injective}
use hxscanner.Prelude.{
  ℕ, suc, ◌≡◌, refl, sym, ap, ◌∙◌, String, Option, none, some, List, find?, find?-passes, All-find?,
  eq_iff, arith,
}
use hxscanner.Prelude.Int.{ℤ, pos, negsuc, to_unsigned}
use hxscanner.Strconv.{parse_int}
use hxscanner.Env.{Error, Env}
use hxscanner.Db.Schema.{Db, ScanConfigEntity}
use hxscanner.Db.Checkpoint.{is_checkpoint}
use hxscanner.Db.Configs.{
  get_last_scanned_block_number, get_scan_config_or, find_scan_config, config_or, syntax_error,
  last_scanned_block_number_config_key,
}
use hxscanner.Exec.{pure, fail, or_fail}
use hxscanner.Exec.Keeps.{Gives, Gives-bind, Gives-invariant, Gives-weaken}
use hxscanner.Exec.Leads.{Gives-or_exit, FoundIf, Gives-query_row_if}
use hxscanner.Scanner.Operation.{OpScannerPlugin}
use hxscanner.Scanner.Block.{run}
use hxscanner.Scanner.Keeps.{KeepsPlugins}
use hxscanner.Scanner.Coverage.{Covered, SafeAt, RowSafe, Safe, Scanned}
use hxscanner.Scanner.Loops.{next_block}
use hxscanner.Scanner.Rounds.{scan_blocks_from-Scanned}

-- The blocks up to a checkpoint are stored, also where the unsigned number of it wraps.
SafeAt-Covered :
    (z : ℤ) (d : Db) → SafeAt 1 z d.blocks → Covered 1 (suc (to_unsigned 32 z)) d.blocks
SafeAt-Covered (pos c) d s = λ k l u. s k l (omega arith)
SafeAt-Covered (negsuc c) d s = absurd s

RowSafe-checkpoint :
    (d : Db) (r : ScanConfigEntity) (z : ℤ)
    → Safe 1 d
    → find? is_checkpoint d.scan_configs.rows ≡ some r
    → parse_int r.config_value ≡ some z
    → SafeAt 1 z d.blocks
RowSafe-checkpoint d r z safe found read =
    All-find? (RowSafe 1 d.blocks) is_checkpoint d.scan_configs.rows r found safe z
      ((eq_iff r.config_key last_scanned_block_number_config_key).0
        (find?-passes is_checkpoint d.scan_configs.rows r found))
      read

-- What the text of a checkpoint says is stored.
abbrev TextSafe : String → Db → Type 0
TextSafe s d =
    Safe 1 d × ((z : ℤ) → parse_int s ≡ some z → Covered 1 (suc (to_unsigned 32 z)) d.blocks)

pub Gives-or_fail :
    {A : Type 0} {P : Db → Type 0} (o : Option A) (e : Error)
    → Gives P (or_fail o e) (λ a d. P d × (o ≡ some a)) P
unfolding pure fail
Gives-or_fail none e = record { from = λ w h. h }
Gives-or_fail (some a) e = record { from = λ w h. (h, refl) }

pub parse_int-zero : parse_int "0" ≡ some (pos 0)
unfolding parse_int
parse_int-zero = refl

module _ (E : Env) where
  -- The text of the checkpoint row, or "0" where none is found.
  found-TextSafe :
      (o : Option ScanConfigEntity) (d : Db)
      → FoundIf E (Safe 1) (λ d. d.scan_configs.rows) is_checkpoint o d
      → TextSafe (config_or E "0" o) d
  found-TextSafe none d h = (
    h.0,
    λ z e k l u.
        absurd (ground (arith, ap (to_unsigned 32) (some-injective _ z (sym parse_int-zero ∙ e)))),
  )
  found-TextSafe (some r) d h =
      (h.0, λ z e. SafeAt-Covered z d (RowSafe-checkpoint d r z h.0 (h.1 r refl) e))

  -- The blocks up to the checkpoint that a start reads are stored.
  Gives-get_last :
      Gives (Safe 1) (get_last_scanned_block_number E) (λ k. Scanned 1 (suc k)) (Safe 1)
  unfolding get_last_scanned_block_number get_scan_config_or find_scan_config pure
  Gives-get_last =
      Gives-bind {Q = TextSafe} _ _
        (Gives-bind _ _ (Gives-query_row_if E (Safe 1) (λ d. d.scan_configs.rows) is_checkpoint)
          (λ o. record { from = λ w h. found-TextSafe o w.db h }))
        (λ s.
          Gives-invariant _ (λ d h. h.0)
            (Gives-bind _ _ (Gives-or_fail (parse_int s) syntax_error)
              (λ z. record { from = λ w h. (h.0.1 z h.1, h.0.0) })))

  module _ (ps : List OpScannerPlugin) (keep : (n : ℕ) → KeepsPlugins (Scanned 1 n) ps) where
    pub run-Scanned :
        (rounds m : ℕ)
        → Gives (Safe 1) (run E ps rounds (negsuc m)) (λ s. Scanned 1 (next_block s)) (Safe 1)
    unfolding run
    run-Scanned rounds m = Gives-bind _ _ (Gives-or_exit _ Gives-get_last) λ last.
        Gives-invariant _ (λ d s. s.1)
          (Gives-weaken _ (λ s d r. r.1)
            (scan_blocks_from-Scanned E ps 1 keep rounds (suc last) (omega arith)))
