-- ===== src/Scanner/CompleteCheckpoints.antt =====
-- A checkpoint that has only blocks up to it which are stored with all that is in them.
use mathlib.Core.Path.{subst}
use mathlib.Core.Option.{some-injective}
use hxscanner.Prelude.{
  ℕ, suc, ◌≤◌, ◌<◌, ◌≡◌, refl, sym, ap, ◌∙◌, String, Option, none, some, List, ◌==◌, find?-passes,
  eq_iff, arith, All, All-map, All-append, All-update, All-find?,
}
use hxscanner.Prelude.Int.{ℤ, pos, to_unsigned}
use hxscanner.Strconv.{itoa, parse_int}
use hxscanner.Strconv.RoundTrip.{parse_int-itoa_inverse}
use hxscanner.Env.{Env}
use hxscanner.Exec.{M, pure}
use hxscanner.Exec.Keeps.{
  Keeps, Keeps-pure, Keeps-bind, Keeps-if, Keeps-exec, Gives, Gives-bind, Gives-invariant,
}
use hxscanner.Exec.Leads.{FoundIf, Gives-query_row_if}
use hxscanner.Db.Table.{Table}
use hxscanner.Db.Schema.{Db, ScanConfigEntity}
use hxscanner.Db.Checkpoint.{is_checkpoint}
use hxscanner.Db.Keeps.{Keeps-find_scan_config}
use hxscanner.Db.Configs.{
  update_last_scanned_block_number, store_checkpoint, save_config, update_config,
  last_scanned_block_number_config_key, get_last_scanned_block_number, get_scan_config_or,
  find_scan_config, config_or, syntax_error,
}
use hxscanner.Scanner.CompleteBlocks.{WholeBlock, WholeBlock-configs}
use hxscanner.Scanner.CompleteScan.{Chain, WholeUpTo}
use hxscanner.Scanner.Restart.{Gives-or_fail, parse_int-zero}

module _ {E : Env} (chain : Chain E) where
  -- Every block from 1 up to the number in the text is whole.
  abbrev pub TextWhole : String → Db → Type 0
  TextWhole s d = (z : ℤ) → parse_int s ≡ some z → WholeUpTo chain 1 (suc (to_unsigned 32 z)) d

  abbrev pub RowWhole : Db → ScanConfigEntity → Type 0
  RowWhole d r = r.config_key ≡ last_scanned_block_number_config_key → TextWhole r.config_value d

  abbrev pub SafeWhole : Db → Type 0
  SafeWhole d = All (RowWhole d) d.scan_configs.rows

  -- Every block from 1 to n - 1 is whole, and the checkpoint is safe.
  abbrev pub At : ℕ → Db → Type 0
  At n d = (1 ≤ n) × (WholeUpTo chain 1 n d × SafeWhole d)

  abbrev pub Configs : List ScanConfigEntity → Db → Type 0
  Configs rows d = d.scan_configs.rows ≡ rows

  -- What leaves the checkpoint and whole blocks alone.
  pub Keeps-SafeWhole :
      {A : Type 0} (m : M A)
      → ((rows : List ScanConfigEntity) → Keeps (Configs rows) m)
      → ((k : ℕ) → Keeps (WholeBlock (chain.block k)) m)
      → Keeps SafeWhole m
  Keeps-SafeWhole m configs blocks = record {
    at = λ w h.
        subst (λ rows. All (RowWhole (m w).1.db) rows)
          (sym ((configs w.db.scan_configs.rows).at w refl))
          (All-map _ _ w.db.scan_configs.rows
            (λ r whole key z e k l u. (blocks k).at w (whole key z e k l u)) h);
  }

  pub Keeps-At :
      {A : Type 0} (m : M A) (n : ℕ)
      → ((rows : List ScanConfigEntity) → Keeps (Configs rows) m)
      → ((k : ℕ) → Keeps (WholeBlock (chain.block k)) m)
      → Keeps (At n) m
  Keeps-At m n configs blocks = record {
    at = λ w h. (
      h.0,
      (λ k l u. (blocks k).at w (h.1.0 k l u), (Keeps-SafeWhole m configs blocks).at w h.1.1),
    );
  }

  -- The checkpoint of a block, once it is whole.
  module _ (n c : ℕ) (below : c < n) where
    TextWhole-itoa : (d : Db) → WholeUpTo chain 1 n d → TextWhole (itoa (pos c)) d
    TextWhole-itoa d whole z e =
        subst (λ y. WholeUpTo chain 1 (suc (to_unsigned 32 y)) d)
          (parse_int-itoa_inverse (pos c) z e) (λ k l u. whole k l (omega arith))

    At-configs :
        (d : Db) (t : Table ScanConfigEntity)
        → WholeUpTo chain 1 n d × All (RowWhole d) t.rows
        → WholeUpTo chain 1 n (record d { scan_configs = t })
          × SafeWhole (record d { scan_configs = t })
    At-configs d t h = (
      λ k l u. WholeBlock-configs (chain.block k) d t (h.0 k l u),
      All-map _ _ t.rows
          (λ r whole key z e k l u. WholeBlock-configs (chain.block k) d t (whole key z e k l u))
          h.1,
    )

    Keeps-store_checkpoint :
        (o : Option ScanConfigEntity) → Keeps (At n) (store_checkpoint E (itoa (pos c)) o)
    unfolding store_checkpoint save_config update_config
    Keeps-store_checkpoint none = Keeps-exec E _ λ d h. (
      h.0,
      At-configs d _
          (h.1.0, All-append _ d.scan_configs.rows _ h.1.1 ((λ key. TextWhole-itoa d h.1.0), tt)),
    )
    Keeps-store_checkpoint (some r) = Keeps-if _ _ _ (Keeps-pure tt) (
        Keeps-exec E _ λ d h. (
          h.0,
          At-configs d _ (
            h.1.0,
            All-update (RowWhole d) (λ x. x.config_key == r.config_key)
                (λ x. record x { config_value = itoa (pos c) }) d.scan_configs.rows
                (λ x _ _ key. TextWhole-itoa d h.1.0) h.1.1,
          ),
        ))

    pub Keeps-update_last_whole : Keeps (At n) (update_last_scanned_block_number E (pos c))
    unfolding update_last_scanned_block_number
    Keeps-update_last_whole = Keeps-bind _ _ (Keeps-find_scan_config E _) Keeps-store_checkpoint

  abbrev Read : String → Db → Type 0
  Read s d = SafeWhole d × TextWhole s d

  found-TextWhole :
      (o : Option ScanConfigEntity) (d : Db)
      → FoundIf E SafeWhole (λ d. d.scan_configs.rows) is_checkpoint o d
      → Read (config_or E "0" o) d
  found-TextWhole none d h = (
    h.0,
    λ z e k l u.
        absurd (ground (arith, ap (to_unsigned 32) (some-injective _ z (sym parse_int-zero ∙ e)))),
  )
  found-TextWhole (some r) d h = (
    h.0,
    All-find? (RowWhole d) is_checkpoint d.scan_configs.rows r (h.1 r refl) h.0 (
        (eq_iff r.config_key last_scanned_block_number_config_key).0
          (find?-passes is_checkpoint d.scan_configs.rows r (h.1 r refl))),
  )

  -- A start reads a checkpoint up to which the blocks are whole.
  pub Gives-get_last_whole :
      Gives SafeWhole (get_last_scanned_block_number E) (λ k. At (suc k)) SafeWhole
  unfolding get_last_scanned_block_number get_scan_config_or find_scan_config pure
  Gives-get_last_whole =
      Gives-bind {Q = Read} _ _
        (Gives-bind _ _ (Gives-query_row_if E SafeWhole (λ d. d.scan_configs.rows) is_checkpoint)
          (λ o. record { from = λ w h. found-TextWhole o w.db h }))
        (λ s.
          Gives-invariant _ (λ d h. h.0)
            (Gives-bind _ _ (Gives-or_fail (parse_int s) syntax_error)
              (λ z. record { from = λ w h. (omega arith, (h.0.1 z h.1, h.0.0)) })))
