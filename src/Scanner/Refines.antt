-- ===== src/Scanner/Refines.antt =====
-- The loop over the blocks does the steps of `Machine`: the position and the stored checkpoint, on every way in
-- which the loop ends.
use mathlib.Core.Path.{subst}
use hxscanner.Prelude.{
  ℕ, zero, suc, ◌%◌, ◌≤◌, ◌≡◌, refl, sym, Bool, true, false, Option, none, some, List, ◌==◌, find?,
  eqb, arith, eq_iff, eq_refl, if◌then◌else◌,
}
use hxscanner.Prelude.Int.{pos}
use hxscanner.Strconv.{itoa}
use hxscanner.Types.{HxBlock}
use hxscanner.Env.{Result, ok, err, Env}
use hxscanner.Exec.{pure, or_exit}
use hxscanner.Exec.Keeps.{
  Keeps, Keeps-pure, Keeps-bind, Keeps-if, Keeps-exec, Keeps-exec_checked, Keeps-when_nil,
  Keeps-ask, Gives, Gives-bind, Gives-attempt, Gives-weaken, Gives-invariant, Tried, Gives-of_Keeps,
  Post,
}
use hxscanner.Exec.Leads.{Reliable, Seen, Gives-after, Gives-exec, Gives-or_exit, Gives-query_row}
use hxscanner.Db.Table.{unless_found-eq-ok}
use hxscanner.Db.Schema.{Db, BlockEntity, ScanConfigEntity}
use hxscanner.Db.Checkpoint.{is_checkpoint, find?-append, find?-update}
use hxscanner.Db.Configs.{
  update_last_scanned_block_number, store_checkpoint, find_scan_config, save_config, update_config,
  last_scanned_block_number_config_key,
}
use hxscanner.Db.Blocks.{save_block, update_block_hash}
use hxscanner.Db.Keeps.{Keeps-find_block}
use hxscanner.Node.Keeps.{Keeps-get_block}
use hxscanner.Scanner.Operation.{OpScannerPlugin}
use hxscanner.Scanner.Block.{
  until_break, store_block, fill_hash, fix_previous_block, scan_tx, checkpoint, process_block,
  scan_round, scan_blocks_from, Scan, stopped,
}
use hxscanner.Scanner.Keeps.{KeepsPlugins, Keeps-until_break, Keeps-scan_tx}
use hxscanner.Scanner.Stores.{KeepsStores-apart}
use hxscanner.Scanner.Loops.{next_block}
use hxscanner.Scanner.Machine.{Place, ◌⟶◌, block, wait, step-pos, ◌⟶*◌, here, step}

-- What the row of the checkpoint says; where there is none, a start reads "0".
abbrev pub Saves : ℕ → Option ScanConfigEntity → Type 0
Saves c none = c ≡ 0
Saves c (some r) = r.config_value ≡ itoa (pos c)

-- The checkpoint of the database.
abbrev pub At : ℕ → Db → Type 0
At c d = Saves c (find? is_checkpoint d.scan_configs.rows)

module _ (E : Env) (rel : Reliable E) where
  Gives-store_checkpoint :
      (c n : ℕ) (o : Option ScanConfigEntity)
      → Gives
          (Seen (At c) (λ d. d.scan_configs.rows) is_checkpoint o)
          (store_checkpoint E (itoa (pos n)) o)
          (λ _. At n)
          (At c)
  unfolding store_checkpoint save_config update_config pure
  Gives-store_checkpoint c n none =
      Gives-exec E (λ d h. h.0) _
        λ d h.
          subst (Saves n)
            (sym (
              find?-append is_checkpoint d.scan_configs.rows
                (record {
                  id = d.scan_configs.next_id;
                  config_key = last_scanned_block_number_config_key;
                  config_value = itoa (pos n);
                })
                (sym h.1) (eq_refl last_scanned_block_number_config_key)))
            refl
  Gives-store_checkpoint c n (some r) = part (r.config_value == itoa (pos n)) refl
    where
      part :
          (b : Bool)
          → (r.config_value == itoa (pos n)) ≡ b
          → Gives
              (Seen (At c) (λ d. d.scan_configs.rows) is_checkpoint (some r))
              (if b then pure tt else update_config E (record r { config_value = itoa (pos n) }))
              (λ _. At n)
              (At c)
      part true e = record {
        from = λ w h. subst (Saves n) h.1 ((eq_iff r.config_value (itoa (pos n))).0 e);
      }
      part false e =
          Gives-exec E (λ d h. h.0) _
            λ d h.
              subst (Saves n)
                (sym (
                  find?-update is_checkpoint (λ x. x.config_key == r.config_key)
                    (λ x. record x { config_value = itoa (pos n) }) d.scan_configs.rows r
                    (λ x. refl) (sym h.1) (eq_refl r.config_key)))
                refl

  -- A checkpoint that is stored is the checkpoint; where the statements fail, it is as before.
  Gives-update_last :
      (c n : ℕ) → Gives (At c) (update_last_scanned_block_number E (pos n)) (λ _. At n) (At c)
  unfolding update_last_scanned_block_number find_scan_config
  Gives-update_last c n =
      Gives-bind _ _ (Gives-query_row E (At c) (λ d. d.scan_configs.rows) is_checkpoint rel)
        (Gives-store_checkpoint c n)

  Gives-checkpoint :
      (c n : ℕ) → Gives (At c) (checkpoint E n) (λ _. At (if eqb (n % 100) 0 then n else c)) (At c)
  unfolding checkpoint
  Gives-checkpoint c n = part (eqb (n % 100) 0)
    where
      part :
          (b : Bool)
          → Gives
              (At c)
              (if b then or_exit (update_last_scanned_block_number E (pos n)) else pure tt)
              (λ _. At (if b then n else c))
              (At c)
      part true = Gives-or_exit _ (Gives-update_last c n)
      part false = Gives-of_Keeps _ (Keeps-pure tt)

module _ (E : Env) (c : ℕ) where
  Keeps-store_block-At : (b : HxBlock) → Keeps (At c) (store_block E b)
  unfolding store_block save_block
  Keeps-store_block-At b = Keeps-bind _ _ (Keeps-find_block E _) λ o.
      Keeps-when_nil o _
        (Keeps-exec_checked E _ (λ d d' h e. subst (At c) (unless_found-eq-ok _ _ _ d' e).1 h))

  Keeps-fix_previous_block-At : (b : HxBlock) → Keeps (At c) (fix_previous_block E b)
  unfolding fix_previous_block update_block_hash
  Keeps-fix_previous_block-At b =
      Keeps-if _ _ _ (Keeps-bind _ _ (Keeps-find_block E _) filled) (Keeps-pure tt)
    where
      filled : (o : Option BlockEntity) → Keeps (At c) (fill_hash E b o)
      filled none = Keeps-pure tt
      filled (some p) = Keeps-if _ _ _ (Keeps-exec E _ (λ d h. h)) (Keeps-pure tt)

-- The place after a round, and after some rounds.
abbrev Stepped : Place → ℕ → Db → Type 0
Stepped p m d = (q : Place) × (p ⟶ q) × (q.next ≡ m) × At q.saved d

abbrev pub ComesTo : Place → Scan → Db → Type 0
ComesTo p s d = (q : Place) × (p ⟶* q) × (q.next ≡ next_block s) × At q.saved d

abbrev pub Passes : Place → Db → Type 0
Passes p d = (q : Place) × (p ⟶* q) × At q.saved d

module _ (E : Env) (rel : Reliable E) (ps : List OpScannerPlugin)
    (keep : (c : ℕ) → KeepsPlugins (At c) ps) where
  Keeps-txs :
      (c : ℕ) (b : HxBlock) → Keeps (At c) (until_break (scan_tx E ps b) zero b.transactions)
  Keeps-txs c b = Keeps-until_break _ zero b.transactions (
      Keeps-scan_tx E
        (KeepsStores-apart E (λ d t h. h) (λ d t h. h) (λ d t h. h) (λ d t h. h) (λ d t h. h)) ps
        (keep c) b)

  Gives-process_block :
      (p : Place) (o : Option HxBlock)
      → 1 ≤ p.next
      → Gives (At p.saved) (process_block E ps p.next o) (Stepped p) (At p.saved)
  unfolding process_block pure
  Gives-process_block p none h = waiting p.next refl
    where
      waiting :
          (n : ℕ)
          → p.next ≡ n
          → Gives (At p.saved) (process_block E ps n none) (Stepped p) (At p.saved)
      waiting zero e = absurd (omega arith)
      waiting (suc m) e = Gives-bind _ _ (Gives-or_exit _ (Gives-update_last E rel p.saved m)) λ _.
          record {
            from = λ w s. (record { next = suc m; saved = m }, wait (sym e) (sym e), refl, s);
          }
  Gives-process_block p (some b) h =
      Gives-after _ _ (λ d s. s) (Keeps-store_block-At E p.saved b)
        λ _.
          Gives-after _ _ (λ d s. s) (Keeps-fix_previous_block-At E p.saved b)
            λ _.
              Gives-after _ _ (λ d s. s) (Keeps-txs p.saved b)
                λ _. Gives-bind _ _ (Gives-checkpoint E rel p.saved p.next) λ _. record {
                  from = λ w s. (
                    record {
                      next = suc p.next;
                      saved = if eqb (p.next % 100) 0 then p.next else p.saved;
                    },
                    block refl refl,
                    refl,
                    s,
                  );
                }

  Gives-scan_round :
      (p : Place)
      → 1 ≤ p.next
      → Gives (At p.saved) (scan_round E ps p.next) (Stepped p) (At p.saved)
  unfolding scan_round
  Gives-scan_round p h =
      Gives-after _ _ (λ d s. s) (Keeps-get_block E p.next) (λ o. Gives-process_block p o h)

  -- The loop over the blocks does steps of the machine: when it returns it stands at the next block
  -- of the place it came to, with that place's checkpoint stored; and when it ends otherwise, the
  -- checkpoint is that of a place it passed.
  pub scan_blocks_from-refines :
      (rounds : ℕ) (p : Place)
      → 1 ≤ p.next
      → Gives (At p.saved) (scan_blocks_from E ps rounds p.next) (ComesTo p) (Passes p)
  unfolding scan_blocks_from pure
  scan_blocks_from-refines zero p h = record { from = λ w s. (p, here, refl, s) }
  scan_blocks_from-refines (suc rounds) p h = Gives-after _ _ stays (Keeps-ask _) λ end.
      Gives-bind _ _ (Gives-invariant _ stays (Gives-attempt _ (Gives-scan_round p h)))
        (part end (scan_blocks_from-refines rounds))
    where
      stays : (d : Db) → At p.saved d → Passes p d
      stays d s = (p, here, s)

      part :
          (end : Bool)
          → ((q : Place)
              → 1 ≤ q.next
              → Gives (At q.saved) (scan_blocks_from E ps rounds q.next) (ComesTo q) (Passes q))
          → (r : Result ℕ)
          → Gives
              (Tried (Stepped p) (At p.saved) r)
              (elim r [
                | err e ↦ pure (stopped p.next)
                | ok next ↦ if end then pure (stopped next) else scan_blocks_from E ps rounds next
              ])
              (ComesTo p)
              (Passes p)
      part end later (err e) = record { from = λ w s. (p, here, refl, s) }
      part true later (ok m) = record { from = λ w s. (s.0, step s.1 here, s.2, s.3) }
      part false later (ok m) = record {
        from = λ w s.
            subst
              (λ k.
                Post (ComesTo p) (Passes p) (scan_blocks_from E ps rounds k w).0
                  (scan_blocks_from E ps rounds k w).1.db)
              s.2
              ((Gives-invariant _ (λ d t. (t.0, step s.1 t.1, t.2))
                  (Gives-weaken _ (λ a d t. (t.0, step s.1 t.1, t.2, t.3))
                    (later s.0 (step-pos s.1 h)))).from
                w s.3);
      }
