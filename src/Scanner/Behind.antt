-- ===== src/Scanner/Behind.antt =====
-- A process of src/hxscanner.go that goes on from the stored checkpoint, and how much of its work the next one repeats.
use hxscanner.Prelude.{
  ℕ, suc, ◌+◌, ◌^◌, ◌≤◌, ◌<◌, ◌≡◌, refl, sym, ap, ◌∙◌, Option, none, some, List, arith,
}
use mathlib.Core.Path.{subst}
use mathlib.Core.Option.{some-injective}
use hxscanner.Prelude.Int.{pos, negsuc, to_unsigned}
use hxscanner.Strconv.{parse_int}
use hxscanner.Strconv.RoundTrip.{parse_int-itoa}
use hxscanner.Env.{Env}
use hxscanner.Db.Schema.{Db, ScanConfigEntity}
use hxscanner.Db.Checkpoint.{is_checkpoint}
use hxscanner.Db.Configs.{
  get_last_scanned_block_number, get_scan_config_or, find_scan_config, config_or, syntax_error,
}
use hxscanner.Exec.{pure}
use hxscanner.Exec.Keeps.{Gives, Gives-bind, Gives-invariant, Gives-weaken, Gives-known}
use hxscanner.Exec.Leads.{Reliable, Gives-or_exit, Gives-query_row}
use hxscanner.Scanner.Operation.{OpScannerPlugin}
use hxscanner.Scanner.Block.{run, Scan}
use hxscanner.Scanner.Keeps.{KeepsPlugins}
use hxscanner.Scanner.Loops.{next_block}
use hxscanner.Scanner.Machine.{Place, here, steps-bound}
use hxscanner.Scanner.Refines.{At, Saves, ComesTo, Passes, scan_blocks_from-refines}
use hxscanner.Scanner.Restart.{Gives-or_fail, parse_int-zero}

-- Behind the checkpoint.
abbrev pub start : ℕ → Place
start c = record { next = suc c; saved = c }

module _ (E : Env) (rel : Reliable E) (c : ℕ) (small : c < 2 ^ 32) where
  Saves-parse :
      (o : Option ScanConfigEntity) → Saves c o → parse_int (config_or E "0" o) ≡ some (pos c)
  Saves-parse none h = parse_int-zero ∙ ap (λ k. some (pos k)) (sym h)
  Saves-parse (some r) h = ap parse_int h ∙ parse_int-itoa c (omega arith)

  -- A start reads the checkpoint.
  Gives-get_last : Gives (At c) (get_last_scanned_block_number E) (λ k d. (k ≡ c) × At c d) (At c)
  unfolding get_last_scanned_block_number get_scan_config_or find_scan_config pure
  Gives-get_last =
      Gives-bind {Q = λ t d. (parse_int t ≡ some (pos c)) × At c d} _ _
        (Gives-bind _ _ (Gives-query_row E (At c) (λ d. d.scan_configs.rows) is_checkpoint rel)
          (λ o. record { from = λ w h. (Saves-parse o (subst (Saves c) (sym h.1) h.0), h.0) }))
        λ t.
          Gives-invariant _ (λ d h. h.1)
            (Gives-bind _ _ (Gives-or_fail (parse_int t) syntax_error) (λ z. record {
              from = λ w h.
                  let same : z ≡ pos c = some-injective z (pos c) (sym h.1 ∙ h.0.0) in
                  (ap (to_unsigned 32) same ∙ omega arith, h.0.1);
            }))

  module _ (ps : List OpScannerPlugin) (keep : (c : ℕ) → KeepsPlugins (At c) ps) where
    Gives-run :
        (rounds m : ℕ)
        → Gives (At c) (run E ps rounds (negsuc m)) (ComesTo (start c)) (Passes (start c))
    unfolding run
    Gives-run rounds m =
        Gives-bind _ _
          (Gives-invariant _ (λ d s. (start c, here, s)) (Gives-or_exit _ Gives-get_last))
          (Gives-known _ c (scan_blocks_from-refines E rel ps keep rounds (start c) (omega arith)))

-- The checkpoint of the database is block c or one after it.
abbrev pub Advanced : ℕ → Db → Type 0
Advanced c d = (k : ℕ) × At k d × (c ≤ k)

-- It is a block before block m as well, and one of the last hundred.
abbrev pub Behind : ℕ → ℕ → Db → Type 0
Behind c m d = (k : ℕ) × At k d × (c ≤ k) × (k < m) × (m ≤ k + 100)

Passes-Advanced : (c : ℕ) (d : Db) → Passes (start c) d → Advanced c d
Passes-Advanced c d (q, steps, s) = (q.saved, s, (steps-bound steps refl).0)

ComesTo-Behind : (c : ℕ) (s : Scan) (d : Db) → ComesTo (start c) s d → Behind c (next_block s) d
ComesTo-Behind c s d (q, steps, e, saved) =
    let (more, behind, close) = steps-bound steps refl in
    subst (λ m. Behind c m d) e (q.saved, saved, more, behind, close)

-- Take a process that starts from a checkpoint below 2 ^ 32, with a reliable row iteration and plugins
-- that leave the checkpoint alone. When it returns, the checkpoint lies before the next block, by at most
-- a hundred blocks, so that its successor repeats fewer than a hundred; and however it ends, the checkpoint has
-- not gone back.
pub run-Behind :
    (E : Env) (ps : List OpScannerPlugin) (rounds c : ℕ)
    → Reliable E
    → c < 2 ^ 32
    → ((c : ℕ) → KeepsPlugins (At c) ps)
    → Gives (At c) (run E ps rounds (negsuc 0)) (λ s. Behind c (next_block s)) (Advanced c)
run-Behind E ps rounds c rel small keep =
    Gives-invariant _ (Passes-Advanced c)
      (Gives-weaken _ (ComesTo-Behind c) (Gives-run E rel c small ps keep rounds 0))
