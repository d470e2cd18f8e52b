-- ===== src/Scanner/Progress.antt =====
-- The scan comes on: with a driver that reports no error, and a node that has the blocks.
use hxscanner.Prelude.{
  ℕ, zero, suc, ◌+◌, ◌-◌, ◌≤◌, ◌<◌, ◌≡◌, refl, sym, ap, ◌∙◌, Bool, true, false, Option, none, some,
  List, [], ◌∷◌, ◌++◌, eqb, find?, map, arith, All, All-append, All-update, if◌then◌else◌,
}
use hxscanner.Prelude.Int.{ℤ, pos}
use hxscanner.Strconv.{itoa}
use hxscanner.Value.{Value, int}
use hxscanner.Types.{HxBlock, HxFullTransactionExtraInfo}
use hxscanner.Env.{Result, ok, err, Env}
use hxscanner.Db.Schema.{Db, BlockEntity, ScanConfigEntity}
use hxscanner.Db.Keys.{block_key, config_key}
use hxscanner.Db.Blocks.{find_block, save_block, block_row, update_block_hash}
use hxscanner.Db.Configs.{
  update_last_scanned_block_number, store_checkpoint, find_scan_config,
  last_scanned_block_number_config_key, save_config, update_config,
}
use hxscanner.Exec.{World, done, pure, ask, ◌>>=◌, attempt, lift, call, connected, when_nil}
use hxscanner.Exec.Keeps.{Gives-bind, Gives-attempt, Tried, Gives-weaken, Gives-assume, Gives-known}
use hxscanner.Exec.Leads.{Reliable, Seen, Gives-or_exit}
use hxscanner.Exec.Quiet.{
  Quiet, Never, Returns, Returns-done, Returns-exec, Returns-exec_checked, Returns-query_row,
}
use hxscanner.Exec.Ends.{Returns-pure, Returns-if}
use hxscanner.Node.{
  get_block, get_block_reply, complete_block, number_transactions, fill_transactions,
}
use hxscanner.Scanner.Operation.{OpScannerPlugin}
use hxscanner.Scanner.Block.{
  until_break, fill_hash, fix_previous_block, store_block, scan_tx, checkpoint, process_block,
  scan_round, scan_blocks_from, running, stopped,
}

-- A row of `blocks` has its number as its primary key.
abbrev pub NumberIds : Db → Type 0
NumberIds d = All (λ r. r.id ≡ r.number) d.blocks

-- The block as GetBlock returns it.
abbrev pub completed : ℕ → List HxFullTransactionExtraInfo → HxBlock → HxBlock
completed n infos reply = record reply {
  block_number = n;
  transactions = fill_transactions infos (number_transactions zero reply.transactions);
  transaction_ids = map (λ info. info.trxid) infos;
}

-- The node has block n, and answers alike whenever it is asked.
pub record HasBlockReply (E : Env) (n : ℕ) : Type 0 where
  pub reply : Value
  pub block : HxBlock
  pub called : (t : ℕ) → E.call t "get_block" (int (pos n) ∷ []) ≡ ok reply
  pub decoded : E.decode_block reply ≡ ok (some block)
  pub full_reply : Value
  pub infos : List HxFullTransactionExtraInfo
  pub called_full : (t : ℕ) → E.call t "fetch_block_transactions" (int (pos n) ∷ []) ≡ ok full_reply
  pub decoded_full : E.decode_full_txs full_reply ≡ ok infos

-- The node has block n, and nothing inside it ends the process.
pub record Serves (E : Env) (ps : List OpScannerPlugin) (n : ℕ) : Type 0 where
  pub has : HasBlockReply E n
  pub inside :
      Returns NumberIds
        (until_break
          (scan_tx E ps (completed n has.infos has.block))
          zero
          (completed n has.infos has.block).transactions)
        (λ _. NumberIds)

find?-same :
    {A : Type 0} (p q : A → Bool) (xs : List A)
    → All (λ x. q x ≡ p x) xs
    → find? p xs ≡ none
    → find? q xs ≡ none
find?-same p q [] h e = refl
find?-same p q (x ∷ xs) h e = ground (arith, h.0, find?-same p q xs h.1)

module _ (E : Env) (quiet : Quiet E) (rel : Reliable E) where
  Returns-save_block :
      (b : HxBlock)
      → Returns
          (λ d. NumberIds d × (none ≡ find? (block_key b.block_number) d.blocks))
          (save_block E b)
          (λ _. NumberIds)
  unfolding save_block
  Returns-save_block b = Returns-exec_checked E quiet _ λ d h. (
    record d { blocks = d.blocks ++ block_row b ∷ [] },
    rw (no_id d h.0 (sym h.1)) refl,
    All-append _ d.blocks _ h.0 (refl, tt),
  )
    where
      no_id :
          (d : Db)
          → NumberIds d
          → find? (block_key b.block_number) d.blocks ≡ none
          → find? (λ r. eqb b.block_number r.id) d.blocks ≡ none
      no_id d ids e =
          find?-same (block_key b.block_number) (λ r. eqb b.block_number r.id) d.blocks
            (same d.blocks ids) e
        where
          same :
              (bs : List BlockEntity)
              → All (λ r. r.id ≡ r.number) bs
              → All (λ r. eqb b.block_number r.id ≡ block_key b.block_number r) bs
          same [] h = tt
          same (x ∷ bs) h = (ap (eqb b.block_number) h.0, same bs h.1)

  pub Returns-store_block : (b : HxBlock) → Returns NumberIds (store_block E b) (λ _. NumberIds)
  unfolding store_block find_block
  Returns-store_block b =
      Gives-bind _ _
        (Returns-query_row E quiet rel NumberIds (λ d. d.blocks) (block_key b.block_number)) part
    where
      part :
          (o : Option BlockEntity)
          → Returns
              (Seen NumberIds (λ d. d.blocks) (block_key b.block_number) o)
              (when_nil o (save_block E b))
              (λ _. NumberIds)
      part none = Returns-save_block b
      part (some r) = Returns-pure tt (λ d h. h.0)

  pub Returns-fix_previous_block :
      (b : HxBlock) → Returns NumberIds (fix_previous_block E b) (λ _. NumberIds)
  unfolding fix_previous_block find_block update_block_hash
  Returns-fix_previous_block b =
      Returns-if _ _ _
        (Gives-bind _ _ (Returns-query_row E quiet rel NumberIds (λ d. d.blocks) _) part)
        (Returns-pure tt (λ d h. h))
    where
      part :
          (o : Option BlockEntity)
          → Returns
              (Seen NumberIds (λ d. d.blocks) (block_key (b.block_number - 1)) o)
              (fill_hash E b o)
              (λ _. NumberIds)
      part none = Returns-pure tt (λ d h. h.0)
      part (some p) =
          Returns-if _ _ _
            (Returns-exec E quiet _ (λ d h. All-update _ _ _ d.blocks (λ r _ e. e) h.0))
            (Returns-pure tt (λ d h. h.0))

  Returns-update_last :
      (z : ℤ) → Returns NumberIds (update_last_scanned_block_number E z) (λ _. NumberIds)
  unfolding update_last_scanned_block_number find_scan_config store_checkpoint save_config
      update_config
  Returns-update_last z =
      Gives-bind _ _ (Returns-query_row E quiet rel NumberIds (λ d. d.scan_configs.rows) _) part
    where
      part :
          (o : Option ScanConfigEntity)
          → Returns
              (Seen NumberIds
                (λ d. d.scan_configs.rows)
                (config_key last_scanned_block_number_config_key)
                o)
              (store_checkpoint E (itoa z) o)
              (λ _. NumberIds)
      part none = Returns-exec E quiet _ (λ d h. h.0)
      part (some c) =
          Returns-if _ _ _ (Returns-pure tt (λ d h. h.0)) (Returns-exec E quiet _ (λ d h. h.0))

  module _ (ps : List OpScannerPlugin) where
    pub Returns-checkpoint : (n : ℕ) → Returns NumberIds (checkpoint E n) (λ _. NumberIds)
    unfolding checkpoint
    Returns-checkpoint n =
        Returns-if _ _ _ (Gives-or_exit _ (Returns-update_last (pos n)))
          (Returns-pure tt (λ d h. h))

    -- The round of a block that the node has leads to the next block.
    Returns-process_block :
        (n : ℕ) (b : HxBlock)
        → Returns NumberIds (until_break (scan_tx E ps b) zero b.transactions) (λ _. NumberIds)
        → Returns NumberIds (process_block E ps n (some b)) (λ m d. (m ≡ suc n) × NumberIds d)
    unfolding process_block
    Returns-process_block n b inside = Gives-bind _ _ (Returns-store_block b) λ _.
        Gives-bind _ _ (Returns-fix_previous_block b) λ _.
          Gives-bind _ _ inside
            λ _. Gives-bind _ _ (Returns-checkpoint n) λ _. Returns-pure (suc n) (λ d h. (refl, h))

    module _ (online : (t : ℕ) → E.connected t ≡ true) where
      pub Returns-get_block :
          (n : ℕ) (s : HasBlockReply E n)
          → Returns NumberIds
              (get_block E n)
              (λ o d. (o ≡ some (completed n s.infos s.block)) × NumberIds d)
      unfolding get_block get_block_reply complete_block call connected ask attempt lift pure ◌>>=◌
      Returns-get_block n s = record {
        from = λ w h.
            rw
              (
                online w.tick,
                s.called (w.tick + 1),
                s.decoded,
                s.called_full (w.tick + 1 + 1),
                s.decoded_full,
              )
              (refl, h);
      }

      Returns-scan_round :
          (n : ℕ)
          → Serves E ps n
          → Returns NumberIds (scan_round E ps n) (λ m d. (m ≡ suc n) × NumberIds d)
      unfolding scan_round
      Returns-scan_round n s = Gives-bind _ _ (Returns-get_block n s.has) (
          Gives-known _ (some (completed n s.has.infos s.has.block))
            (Returns-process_block n (completed n s.has.infos s.has.block) s.inside))

      -- What follows a round that led to the next block, with the loop not cancelled.
      Returns-rest :
          (rounds n : ℕ)
          → Returns NumberIds
              (scan_blocks_from E ps rounds (suc n))
              (λ s d. (s ≡ running (n + suc rounds)) × NumberIds d)
          → (r : Result ℕ)
          → Returns
              (Tried (λ m d. (m ≡ suc n) × NumberIds d) Never r)
              (elim r [
                | err e ↦ pure (stopped n)
                | ok next ↦ if false then pure (stopped next) else scan_blocks_from E ps rounds next
              ])
              (λ s d. (s ≡ running (n + suc rounds)) × NumberIds d)
      Returns-rest rounds n later (err e) = record { from = λ w h. absurd h }
      Returns-rest rounds n later (ok m) =
          Gives-known (scan_blocks_from E ps rounds) (suc n) later m

      module _ (go : (t : ℕ) → E.cancelled t ≡ false) where
        Returns-scan_blocks_from :
            (rounds n : ℕ)
            → ((m : ℕ) → n ≤ m → m < n + rounds → Serves E ps m)
            → Returns NumberIds
                (scan_blocks_from E ps rounds n)
                (λ s d. (s ≡ running (n + rounds)) × NumberIds d)
        unfolding scan_blocks_from ask
        Returns-scan_blocks_from zero n serves =
            Returns-pure (running n) (λ d h. (ap running (omega arith), h))
        Returns-scan_blocks_from (suc rounds) n serves =
            Gives-bind {Q = λ end d. (end ≡ false) × NumberIds d} _ _
              (record { from = λ w h. (go w.tick, h) })
              (round (
                Gives-weaken _ (λ s d h. (h.0 ∙ ap running (omega arith), h.1))
                  (Returns-scan_blocks_from rounds (suc n)
                    (λ m lo hi. serves m (omega arith) (omega arith)))))
          where
            round :
                Returns NumberIds
                  (scan_blocks_from E ps rounds (suc n))
                  (λ s d. (s ≡ running (n + suc rounds)) × NumberIds d)
                → (end : Bool)
                → Returns
                    (λ d. (end ≡ false) × NumberIds d)
                    (attempt (scan_round E ps n) >>= λ r. elim r [
                      | err e ↦ pure (stopped n)
                      | ok next ↦
                          if end then pure (stopped next) else scan_blocks_from E ps rounds next
                    ])
                    (λ s d. (s ≡ running (n + suc rounds)) × NumberIds d)
            round later true = record { from = λ w h. cc }
            round later false =
                Gives-assume _ (λ d h. h.1)
                  (Gives-bind _ _
                    (Gives-attempt _ (Returns-scan_round n (serves n (omega arith) (omega arith))))
                    (Returns-rest rounds n later))

-- So many rounds over blocks whose transactions return lead so many blocks further.
pub scan_blocks_from-done :
    (E : Env) (ps : List OpScannerPlugin) (rounds n : ℕ) (w : World)
    → Quiet E
    → Reliable E
    → ((t : ℕ) → E.connected t ≡ true)
    → ((t : ℕ) → E.cancelled t ≡ false)
    → ((m : ℕ) → n ≤ m → m < n + rounds → Serves E ps m)
    → NumberIds w.db
    → (scan_blocks_from E ps rounds n w).0 ≡ done (running (n + rounds))
scan_blocks_from-done E ps rounds n w quiet rel online go serves ids =
    let (s, returned, is) =
      Returns-done (scan_blocks_from E ps rounds n) w
        (Returns-scan_blocks_from E quiet rel ps online go rounds n serves) ids in
    returned ∙ ap done is.0
