-- ===== src/Db/Checkpoint.antt =====
-- The checkpoint of the scan: what was stored is what the next start reads.
use mathlib.Core.Option.{some-injective, none-ne-some}
use hxscanner.Prelude.{
  ℕ, ◌%◌, ◌^◌, ◌<◌, ◌≡◌, refl, sym, ap, ◌∙◌, String, Bool, true, false, Option, none, some, List,
  [], ◌∷◌, ◌++◌, ◌==◌, find?, update, eq_iff, eq_refl, Bool-cases, inl, inr, if◌then◌else◌,
}
use hxscanner.Prelude.Int.{ℤ, pos, to_unsigned}
use hxscanner.Strconv.{itoa, parse_int}
use hxscanner.Strconv.RoundTrip.{parse_int-itoa}
use hxscanner.Env.{Env}
use hxscanner.Db.Schema.{Db, ScanConfigEntity}
use hxscanner.Db.Configs.{
  get_last_scanned_block_number, get_scan_config_or, find_scan_config, config_or, store_checkpoint,
  save_config, update_config, update_last_scanned_block_number,
  last_scanned_block_number_config_key, syntax_error,
}
use hxscanner.Exec.{World, done, M, pure, fail, or_fail, ◌>>◌}
use hxscanner.Exec.Keeps.{Gives-bind}
use hxscanner.Exec.Leads.{Reliable, Seen}
use hxscanner.Exec.Quiet.{Quiet, Returns, Returns-done, Returns-exec, Returns-query_row}

abbrev pub is_checkpoint : ScanConfigEntity → Bool
is_checkpoint r = r.config_key == last_scanned_block_number_config_key

-- The first row of the checkpoint has this text.
abbrev Stores : String → Db → Type 0
Stores s d =
    (r : ScanConfigEntity) × (find? is_checkpoint d.scan_configs.rows ≡ some r)
    × (r.config_value ≡ s)

pub find?-append :
    {A : Type 0} (p : A → Bool) (xs : List A) (y : A)
    → find? p xs ≡ none
    → p y ≡ true
    → find? p (xs ++ y ∷ []) ≡ some y
find?-append p [] y h e = rw e refl
find?-append p (x ∷ xs) y h e = elim (Bool-cases (p x)) [
  | inl f ↦ absurd (none-ne-some x (sym (rw f at h)))
  | inr f ↦ rw f (find?-append p xs y (rw f at h) e)
]

-- An update that the test does not see.
pub find?-update :
    {A : Type 0} (p q : A → Bool) (f : A → A) (xs : List A) (x : A)
    → ((y : A) → p (f y) ≡ p y)
    → find? p xs ≡ some x
    → q x ≡ true
    → find? p (update q f xs) ≡ some (f x)
find?-update p q f [] x same h e = absurd (none-ne-some x h)
find?-update p q f (y ∷ xs) x same h e = elim (Bool-cases (p y)) [
  | inl found ↦
      let same_row : y ≡ x = some-injective y x (rw found at h) in
      rw (ap q same_row ∙ e, same y, found) (ap (λ z. some (f z)) same_row)
  | inr other ↦
      let later : find? p (update q f xs) ≡ some (f x) =
        find?-update p q f xs x same (rw other at h) e in
      elim (Bool-cases (q y)) [ inl t ↦ rw (t, same y, other) later | inr t ↦ rw (t, other) later ]
]

module _ (E : Env) (quiet : Quiet E) (rel : Reliable E) (s : String) where
  Returns-store_checkpoint :
      (o : Option ScanConfigEntity)
      → Returns
          (Seen (λ d. Unit) (λ d. d.scan_configs.rows) is_checkpoint o)
          (store_checkpoint E s o)
          (λ _. Stores s)
  unfolding store_checkpoint save_config update_config pure
  Returns-store_checkpoint none = Returns-exec E quiet _ λ d h. (
    record {
      id = d.scan_configs.next_id;
      config_key = last_scanned_block_number_config_key;
      config_value = s;
    },
    find?-append is_checkpoint d.scan_configs.rows _ (sym h.1)
        (eq_refl last_scanned_block_number_config_key),
    refl,
  )
  Returns-store_checkpoint (some c) = part (c.config_value == s) refl
    where
      part :
          (b : Bool)
          → (c.config_value == s) ≡ b
          → Returns
              (Seen (λ d. Unit) (λ d. d.scan_configs.rows) is_checkpoint (some c))
              (if b then pure tt else update_config E (record c { config_value = s }))
              (λ _. Stores s)
      part true e = record { from = λ w h. (c, sym h.1, (eq_iff c.config_value s).0 e) }
      part false e = Returns-exec E quiet _ λ d h. (
        record c { config_value = s },
        find?-update is_checkpoint (λ r. r.config_key == c.config_key)
            (λ r. record r { config_value = s }) d.scan_configs.rows c (λ r. refl) (sym h.1)
            (eq_refl c.config_key),
        refl,
      )

  Returns-text :
      Returns
        (Stores s)
        (get_scan_config_or E last_scanned_block_number_config_key "0")
        (λ t d. t ≡ s)
  unfolding get_scan_config_or find_scan_config pure
  Returns-text =
      Gives-bind _ _
        (Returns-query_row E quiet rel (Stores s) (λ d. d.scan_configs.rows) is_checkpoint) found
    where
      found :
          (o : Option ScanConfigEntity)
          → Returns
              (Seen (Stores s) (λ d. d.scan_configs.rows) is_checkpoint o)
              (pure (config_or E "0" o))
              (λ t d. t ≡ s)
      found none = record { from = λ w h. absurd (none-ne-some h.0.0 (h.1 ∙ h.0.1)) }
      found (some r) = record {
        from = λ w h. ap (λ x. x.config_value) (some-injective r h.0.0 (h.1 ∙ h.0.1)) ∙ h.0.2;
      }

-- A checkpoint is stored, and read by the next start.
unfoldable pub store_and_read : Env → ℕ → M ℕ
store_and_read E n = do update_last_scanned_block_number E (pos n); get_last_scanned_block_number E

module _ (E : Env) (quiet : Quiet E) (rel : Reliable E) (n : ℕ) (small : n < 2 ^ 63) where
  Returns-read :
      (t : String)
      → Returns (λ d. t ≡ itoa (pos n)) (or_fail (parse_int t) syntax_error) (λ z d. z ≡ pos n)
  unfolding pure fail
  Returns-read t = part (parse_int t) refl
    where
      part :
          (o : Option ℤ)
          → parse_int t ≡ o
          → Returns (λ d. t ≡ itoa (pos n)) (or_fail o syntax_error) (λ z d. z ≡ pos n)
      part none e = record {
        from =
            λ w h. absurd (none-ne-some (pos n) (sym e ∙ ap parse_int h ∙ parse_int-itoa n small));
      }
      part (some z) e = record {
        from = λ w h. some-injective z (pos n) (sym e ∙ ap parse_int h ∙ parse_int-itoa n small);
      }

  Returns-store_and_read : Returns (λ d. Unit) (store_and_read E n) (λ k d. k ≡ n % 2 ^ 32)
  unfolding store_and_read update_last_scanned_block_number get_last_scanned_block_number pure
      find_scan_config
  Returns-store_and_read =
      Gives-bind _ _
        (Gives-bind _ _
          (Returns-query_row E quiet rel (λ d. Unit) (λ d. d.scan_configs.rows) is_checkpoint)
          (Returns-store_checkpoint E quiet rel (itoa (pos n))))
        λ _.
          Gives-bind _ _ (Returns-text E quiet rel (itoa (pos n)))
            λ t. Gives-bind _ _ (Returns-read t) λ z. record { from = λ w h. ap (to_unsigned 32) h }

-- With a driver that reports no error, a reliable row iteration and a block number below 2 ^ 63, the checkpoint that
-- a start reads is the block number that was stored last, as an unsigned number of 32 bits, whatever rows the database held.
pub store_and_read-done :
    (E : Env) (w : World) (n : ℕ)
    → Quiet E
    → Reliable E
    → n < 2 ^ 63
    → (store_and_read E n w).0 ≡ done (n % 2 ^ 32)
store_and_read-done E w n quiet rel small =
    let (k, returned, is) =
      Returns-done (store_and_read E n) w (Returns-store_and_read E quiet rel n small) tt in
    returned ∙ ap done is
