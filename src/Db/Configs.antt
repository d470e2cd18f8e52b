-- ===== src/Db/Configs.antt =====
-- The scan configuration of src/db/daos.go: the checkpoint from which a restarted scanner goes on.
use hxscanner.Prelude.{ℕ, String, Option, none, some, ◌==◌, if◌then◌else◌}
use hxscanner.Prelude.Int.{ℤ, to_unsigned}
use hxscanner.Strconv.{itoa, parse_int}
use hxscanner.Env.{Error, Env}
use hxscanner.Db.Table.{insert_row, update_rows}
use hxscanner.Db.Schema.{ScanConfigEntity}
use hxscanner.Exec.{M, pure, or_fail, ◌>>=◌, query_row, exec}

abbrev pub last_scanned_block_number_config_key : String
last_scanned_block_number_config_key = "last_scanned_block_number"

-- The text of a strconv error.
abbrev pub syntax_error : Error
syntax_error = "strconv.Atoi: parsing: invalid syntax"

module _ (E : Env) where
  unfoldable pub find_scan_config : String → M (Option ScanConfigEntity)
  find_scan_config config_key =
      query_row E (λ d. d.scan_configs.rows) (λ r. r.config_key == config_key)

  abbrev pub config_or : String → Option ScanConfigEntity → String
  config_or else_value none = else_value
  config_or else_value (some c) = c.config_value

  unfoldable pub get_scan_config_or : String → String → M String
  get_scan_config_or config_key else_value = do
    config ← find_scan_config config_key
    pure (config_or else_value config)

  unfoldable pub get_last_scanned_block_number : M ℕ
  get_last_scanned_block_number = do
    config_str ← get_scan_config_or last_scanned_block_number_config_key "0"
    config_int ← or_fail (parse_int config_str) syntax_error
    pure (to_unsigned 32 config_int)

  unfoldable pub save_config : String → String → M (Unit {0})
  save_config config_key config_value = exec E λ d. record d {
    scan_configs =
        insert_row (λ i. record { id = i; config_key = config_key; config_value = config_value })
          d.scan_configs;
  }

  unfoldable pub update_config : ScanConfigEntity → M (Unit {0})
  update_config config_entity = exec E λ d. record d {
    scan_configs =
        update_rows (λ r. r.config_key == config_entity.config_key)
          (λ r. record r { config_value = config_entity.config_value }) d.scan_configs;
  }

  unfoldable pub store_checkpoint : String → Option ScanConfigEntity → M (Unit {0})
  store_checkpoint new_val_str none = save_config last_scanned_block_number_config_key new_val_str
  store_checkpoint new_val_str (some config_entity) =
      if config_entity.config_value == new_val_str
      then pure tt
      else update_config (record config_entity { config_value = new_val_str })

  unfoldable pub update_last_scanned_block_number : ℤ → M (Unit {0})
  unfolding store_checkpoint
  update_last_scanned_block_number new_val = do
    config_entity ← find_scan_config last_scanned_block_number_config_key
    store_checkpoint (itoa new_val) config_entity
