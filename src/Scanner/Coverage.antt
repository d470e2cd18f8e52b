-- ===== src/Scanner/Coverage.antt =====
-- No block is passed over: every block between the start of a scan and its next block is stored, and
-- a stored checkpoint never runs ahead of the stored blocks, however the scan ends.
use mathlib.Core.Path.{subst}
use hxscanner.Prelude.{
  ℕ, suc, ◌≤◌, ◌<◌, ◌≡◌, refl, sym, String, Option, none, some, List, [], ◌∷◌, ◌++◌, ◌==◌, eqb,
  arith, count, count-append, count-update, count-pos, All, All-append, All-update, All-map,
  eqb_refl,
}
use hxscanner.Prelude.Int.{ℤ, pos, negsuc}
use hxscanner.Strconv.{itoa, parse_int}
use hxscanner.Strconv.RoundTrip.{parse_int-itoa_inverse}
use hxscanner.Types.{HxBlock}
use hxscanner.Env.{Env}
use hxscanner.Exec.{pure, when_nil}
use hxscanner.Exec.Keeps.{
  Keeps, Keeps-pure, Keeps-bind, Keeps-if, Keeps-exec, Gives, Gives-bind, Gives-assume,
}
use hxscanner.Exec.Leads.{FoundIf, Gives-query_row_if, Gives-exec_checked}
use hxscanner.Db.Table.{unless_found-eq-ok}
use hxscanner.Db.Schema.{Db, BlockEntity, ScanConfigEntity}
use hxscanner.Db.Keys.{block_key}
use hxscanner.Db.Keeps.{Keeps-find_scan_config, Keeps-find_block}
use hxscanner.Db.Configs.{
  update_last_scanned_block_number, store_checkpoint, save_config, update_config,
  last_scanned_block_number_config_key,
}
use hxscanner.Db.Blocks.{find_block, save_block, insert_block, block_row, update_block_hash}
use hxscanner.Scanner.Block.{store_block, fill_hash, fix_previous_block}

abbrev pub HasBlock : ℕ → List BlockEntity → Type 0
HasBlock k bs = 0 < count (block_key k) bs

-- Every block from `lo` up to, but without, `n` is stored.
abbrev pub Covered : ℕ → ℕ → List BlockEntity → Type 0
Covered lo n bs = (k : ℕ) → lo ≤ k → k < n → HasBlock k bs

-- Every block from `lo` up to the checkpoint is stored.
abbrev pub SafeAt : ℕ → ℤ → List BlockEntity → Type 0
SafeAt lo (pos c) bs = Covered lo (suc c) bs
SafeAt lo (negsuc c) bs = ⊥

-- A checkpoint in this row has only stored blocks from `lo` up to it.
abbrev pub RowSafe : ℕ → List BlockEntity → ScanConfigEntity → Type 0
RowSafe lo bs r =
    (z : ℤ)
    → r.config_key ≡ last_scanned_block_number_config_key
    → parse_int r.config_value ≡ some z
    → SafeAt lo z bs

abbrev pub Safe : ℕ → Db → Type 0
Safe lo d = All (RowSafe lo d.blocks) d.scan_configs.rows

abbrev pub Scanned : ℕ → ℕ → Db → Type 0
Scanned lo n d = Covered lo n d.blocks × Safe lo d

-- The block itself is stored as well.
abbrev pub Stored : ℕ → ℕ → HxBlock → Db → Type 0
Stored lo n b d = Scanned lo n d × HasBlock b.block_number d.blocks

-- The second list has every block of the first.
abbrev Includes : List BlockEntity → List BlockEntity → Type 0
Includes bs cs = (k : ℕ) → HasBlock k bs → HasBlock k cs

SafeAt-Includes :
    (lo : ℕ) (z : ℤ) (bs cs : List BlockEntity) → Includes bs cs → SafeAt lo z bs → SafeAt lo z cs
SafeAt-Includes lo (pos c) bs cs more h = λ k l u. more k (h k l u)
SafeAt-Includes lo (negsuc c) bs cs more h = h

module _ (lo n : ℕ) where
  Scanned-Includes :
      (d : Db) (bs : List BlockEntity)
      → Includes d.blocks bs
      → Scanned lo n d
      → Scanned lo n (record d { blocks = bs })
  Scanned-Includes d bs more h = (
    λ k l u. more k (h.0 k l u),
    All-map _ _ d.scan_configs.rows
        (λ r s z key v. SafeAt-Includes lo z d.blocks bs more (s z key v)) h.1,
  )

  append-Includes : (bs : List BlockEntity) (b : BlockEntity) → Includes bs (bs ++ b ∷ [])
  append-Includes bs b k p =
      subst (λ m. 0 < m) (sym (count-append (block_key k) bs (b ∷ []))) (omega arith)

  append-HasBlock : (bs : List BlockEntity) (b : BlockEntity) → HasBlock b.number (bs ++ b ∷ [])
  append-HasBlock bs b =
      ground (arith, count-append (block_key b.number) bs (b ∷ []), eqb_refl b.number)

  module _ (E : Env) where
    Gives-save_block :
        (b : HxBlock) → Gives (Scanned lo n) (save_block E b) (λ _. Stored lo n b) (Scanned lo n)
    unfolding save_block
    Gives-save_block b =
        Gives-exec_checked E (λ d h. h) (insert_block b)
          λ d d' h e. subst (Stored lo n b) (unless_found-eq-ok _ _ _ _ e).1 (
            Scanned-Includes d _ (append-Includes d.blocks (block_row b)) h,
            append-HasBlock d.blocks (block_row b),
          )

    -- A scan that has stored the blocks from `lo` to n - 1, with a safe checkpoint, keeps this when it stores
    -- a block, however the statements end; and when they return, the block is stored, by this scan or
    -- by one before, also where the row iteration fails.
    pub Gives-store_block :
        (b : HxBlock) → Gives (Scanned lo n) (store_block E b) (λ _. Stored lo n b) (Scanned lo n)
    unfolding store_block find_block pure
    Gives-store_block b =
        Gives-bind _ _
          (Gives-query_row_if E (Scanned lo n) (λ d. d.blocks) (block_key b.block_number)) stored
      where
        stored :
            (o : Option BlockEntity)
            → Gives
                (FoundIf E (Scanned lo n) (λ d. d.blocks) (block_key b.block_number) o)
                (when_nil o (save_block E b))
                (λ _. Stored lo n b)
                (Scanned lo n)
        stored none = Gives-assume _ (λ d h. h.0) (Gives-save_block b)
        stored (some r) = record {
          from = λ w h. (h.0, count-pos (block_key b.block_number) w.db.blocks r (h.1 r refl));
        }

    -- A new hash of a block leaves its number.
    Keeps-update_block_hash-Scanned :
        (m : ℕ) (hash : String) → Keeps (Scanned lo n) (update_block_hash E m hash)
    unfolding update_block_hash
    Keeps-update_block_hash-Scanned m hash = Keeps-exec E _ λ d h.
        Scanned-Includes d _
          (λ k p.
            subst (λ c. 0 < c)
              (sym (
                count-update (block_key k) (λ r. eqb m r.number) (λ r. record r { block_id = hash })
                  d.blocks (λ x _. refl)))
              p)
          h

    pub Keeps-fix_previous_block-Scanned :
        (b : HxBlock) → Keeps (Scanned lo n) (fix_previous_block E b)
    unfolding fix_previous_block
    Keeps-fix_previous_block-Scanned b =
        Keeps-if _ _ _ (Keeps-bind _ _ (Keeps-find_block E _) filled) (Keeps-pure tt)
      where
        filled : (o : Option BlockEntity) → Keeps (Scanned lo n) (fill_hash E b o)
        filled none = Keeps-pure tt
        filled (some p) = Keeps-if _ _ _ (Keeps-update_block_hash-Scanned _ _) (Keeps-pure tt)

    -- A checkpoint whose blocks are stored.
    module _ (z : ℤ) (good : (d : Db) → Covered lo n d.blocks → SafeAt lo z d.blocks) where
      RowSafe-itoa :
          (d : Db) (r : ScanConfigEntity)
          → Covered lo n d.blocks
          → RowSafe lo d.blocks (record r { config_value = itoa z })
      RowSafe-itoa d r covered y key read =
          subst (λ x. SafeAt lo x d.blocks) (parse_int-itoa_inverse z y read) (good d covered)

      Keeps-store_checkpoint-Scanned :
          (o : Option ScanConfigEntity) → Keeps (Scanned lo n) (store_checkpoint E (itoa z) o)
      unfolding store_checkpoint save_config update_config
      Keeps-store_checkpoint-Scanned none = Keeps-exec E _ λ d h. (
        h.0,
        All-append _ d.scan_configs.rows _ h.1 (
          RowSafe-itoa d
              (record {
                id = d.scan_configs.next_id;
                config_key = last_scanned_block_number_config_key;
                config_value = "";
              })
              h.0,
          tt,
        ),
      )
      Keeps-store_checkpoint-Scanned (some c) = Keeps-if _ _ _ (Keeps-pure tt) (
          Keeps-exec E _ λ d h. (
            h.0,
            All-update (RowSafe lo d.blocks) (λ x. x.config_key == c.config_key)
                (λ x. record x { config_value = itoa z }) d.scan_configs.rows
                (λ r _ _. RowSafe-itoa d r h.0) h.1,
          ))

      pub Keeps-update_last-Scanned : Keeps (Scanned lo n) (update_last_scanned_block_number E z)
      unfolding update_last_scanned_block_number
      Keeps-update_last-Scanned =
          Keeps-bind _ _ (Keeps-find_scan_config E _) Keeps-store_checkpoint-Scanned
