-- ===== src/Db/Serials.antt =====
-- Serial columns: the numbers of a table's rows are below the next one, and no two rows share one. An
-- update finds its row by this number, after a look-up by another key.
use mathlib.Core.Path.{subst}
use hxscanner.Prelude.{
  ℕ, ◌≤◌, ◌≡◌, sym, ap, ◌∙◌, Bool, some, [], ◌∷◌, eqb, eqb_refl, arith, find?, count, count-update,
  count-append,
}
use hxscanner.Db.Table.{Table, UniqueBy, insert_row, update_rows, count-update_found}

pub record HasSerials {A : Type 0} (serial : A → ℕ) (t : Table A) : Type 0 where
  pub once : (i : ℕ) → count (λ r. eqb i (serial r)) t.rows ≤ 1
  pub fresh : (i : ℕ) → t.next_id ≤ i → count (λ r. eqb i (serial r)) t.rows ≡ 0

module _ {A : Type 0} (serial : A → ℕ) (t : Table A) where
  pub insert-HasSerials :
      (mk : ℕ → A)
      → ((i : ℕ) → serial (mk i) ≡ i)
      → HasSerials serial t
      → HasSerials serial (insert_row mk t)
  insert-HasSerials mk own h = record {
    once = λ i. ground (
      arith,
      count-append (λ r. eqb i (serial r)) t.rows (mk t.next_id ∷ []),
      own t.next_id,
      h.once i,
      h.fresh i,
    );
    fresh = λ i le. ground (
      arith,
      count-append (λ r. eqb i (serial r)) t.rows (mk t.next_id ∷ []),
      own t.next_id,
      h.fresh i,
    );
  }

  pub update-HasSerials :
      (p : A → Bool) (f : A → A)
      → ((r : A) → serial (f r) ≡ serial r)
      → HasSerials serial t
      → HasSerials serial (update_rows p f t)
  update-HasSerials p f own h = record {
    once = λ i. subst (λ n. n ≤ 1) (sym (same i)) (h.once i);
    fresh = λ i le. same i ∙ h.fresh i le;
  }
    where
      same :
          (i : ℕ)
          → count (λ r. eqb i (serial r)) (update_rows p f t).rows
            ≡ count (λ r. eqb i (serial r)) t.rows
      same i = count-update (λ r. eqb i (serial r)) p f t.rows (λ x _. ap (eqb i) (own x))

  -- An update, by its serial number, of a row that a look-up found keeps the keys apart, if the
  -- new row has the keys of that row.
  pub update_found-UniqueBy :
      {K : Type 0} (test : K → A → Bool) (k : A → Bool) (f : A → A) (n : ℕ) (e : A)
      → HasSerials serial t
      → find? k t.rows ≡ some e
      → n ≡ serial e
      → ((j : K) → test j (f e) ≡ test j e)
      → UniqueBy test t.rows
      → UniqueBy test (update_rows (λ r. eqb n (serial r)) f t).rows
  update_found-UniqueBy test k f n e s found is keys u = λ j.
      subst (λ c. c ≤ 1)
        (sym (
          count-update_found (test j) (λ r. eqb n (serial r)) k f t.rows e (s.once n) found
            (rw is (eqb_refl (serial e))) (keys j)))
        (u j)
