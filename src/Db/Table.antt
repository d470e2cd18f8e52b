-- ===== src/Db/Table.antt =====
-- A table: its rows, oldest first, and the next value of its serial column.
use mathlib.Core.Option.{some-injective}
use hxscanner.Env.{Error, Result, ok, err, ok-injective}
use hxscanner.Prelude.{
  ℕ, ◌+◌, ◌≤◌, ◌<◌, ◌≡◌, refl, ap, ◌∙◌, Bool, true, false, Option, none, some, List, [], ◌∷◌, ◌++◌,
  arith, find?, count, update, count-append, Bool-cases, inl, inr,
}

pub record Table (A : Type 0) : Type 0 where
  pub rows : List A
  pub next_id : ℕ

abbrev pub empty_table : {A : Type 0} → Table A
empty_table = record { rows = []; next_id = 1 }

-- `INSERT INTO`: the new row gets the next serial number.
abbrev pub insert_row : {A : Type 0} → (ℕ → A) → Table A → Table A
insert_row mk t = record { rows = t.rows ++ mk t.next_id ∷ []; next_id = t.next_id + 1 }

abbrev pub update_rows : {A : Type 0} → (A → Bool) → (A → A) → Table A → Table A
update_rows p f t = record t { rows = update p f t.rows }

-- A statement that a row or a relation of the same key makes the server refuse.
abbrev pub unless_found : {A D : Type 0} → Option A → Error → D → Result D
unless_found none e d = ok d
unless_found (some a) e d = err e

pub unless_found-eq-ok :
    {A D : Type 0} (o : Option A) (e : Error) (d d' : D)
    → unless_found o e d ≡ ok d'
    → (o ≡ none) × (d ≡ d')
unless_found-eq-ok none e d d' h = (refl, ok-injective d d' h)
unless_found-eq-ok (some a) e d d' h = cc

-- No key stands in two rows.
abbrev pub UniqueBy : {A K : Type 0} → (K → A → Bool) → List A → Type 0
UniqueBy {K} test rows = (k : K) → count (test k) rows ≤ 1

pub append-UniqueBy :
    {A K : Type 0} (test : K → A → Bool) (rows : List A) (r : A)
    → UniqueBy test rows
    → ((k : K) → test k r ≡ true → count (test k) rows ≡ 0)
    → UniqueBy test (rows ++ r ∷ [])
append-UniqueBy test rows r u fresh k =
    ground (arith, count-append (test k) rows (r ∷ []), u k, fresh k)

count-pos_found :
    {A : Type 0} (p k : A → Bool) (rows : List A) (e : A)
    → find? k rows ≡ some e
    → p e ≡ true
    → 0 < count p rows
count-pos_found p k [] e found passes = ground arith
count-pos_found p k (r ∷ rows) e found passes = elim (Bool-cases (k r)) [
  | inl here ↦
      let same : r ≡ e = some-injective r e (rw here at found) in
      rw (ap p same ∙ passes) (omega arith)
  | inr there ↦
      let later : 0 < count p rows = count-pos_found p k rows e (rw there at found) passes in
      ground arith
]

count-update_none :
    {A : Type 0} (q p : A → Bool) (f : A → A) (rows : List A)
    → count p rows ≡ 0
    → count q (update p f rows) ≡ count q rows
count-update_none q p f [] h = refl
count-update_none q p f (r ∷ rows) h = ground (arith, count-update_none q p f rows)

-- An update of the row that a look-up by another key found, where that key's test singles it out.
pub count-update_found :
    {A : Type 0} (q p k : A → Bool) (f : A → A) (rows : List A) (e : A)
    → count p rows ≤ 1
    → find? k rows ≡ some e
    → p e ≡ true
    → q (f e) ≡ q e
    → count q (update p f rows) ≡ count q rows
count-update_found q p k f [] e once found passes same = ground arith
count-update_found q p k f (r ∷ rows) e once found passes same = elim (Bool-cases (k r)) [
  | inl here ↦
      let is_e : r ≡ e = some-injective r e (rw here at found) in
      let hit : p r ≡ true = ap p is_e ∙ passes in
      let kept : q (f r) ≡ q r = rw is_e same in ground (arith, count-update_none q p f rows)
  | inr there ↦
      let later : find? k rows ≡ some e = rw there at found in
      ground (arith, count-pos_found p k rows e later passes, count-update_found q p k f rows e)
]

find?-update_none :
    {A : Type 0} (p q : A → Bool) (f : A → A) (rows : List A)
    → count q rows ≡ 0
    → find? p (update q f rows) ≡ find? p rows
find?-update_none p q f [] h = refl
find?-update_none p q f (r ∷ rows) h = ground (arith, find?-update_none p q f rows)

-- The row that an update writes is found by its key.
pub find?-update_found :
    {A : Type 0} (p q : A → Bool) (f : A → A) (rows : List A) (e : A)
    → count q rows ≤ 1
    → find? p rows ≡ some e
    → q e ≡ true
    → p (f e) ≡ true
    → find? p (update q f rows) ≡ some (f e)
find?-update_found p q f [] e once found passes same = ground arith
find?-update_found p q f (r ∷ rows) e once found passes same = elim (Bool-cases (p r)) [
  | inl hit ↦
      let is_e : r ≡ e = some-injective r e (rw hit at found) in
      rw (ap q is_e ∙ passes, ap (λ x. p (f x)) is_e ∙ same) (ap (λ x. some (f x)) is_e)
  | inr miss ↦
      let later : find? p rows ≡ some e = rw miss at found in
      ground (arith, count-pos_found q p rows e later passes, find?-update_found p q f rows e)
]

-- Other keys find what they found before.
pub find?-update_other :
    {A : Type 0} (o p q : A → Bool) (f : A → A) (rows : List A) (e : A)
    → count q rows ≤ 1
    → find? p rows ≡ some e
    → q e ≡ true
    → o e ≡ false
    → o (f e) ≡ false
    → find? o (update q f rows) ≡ find? o rows
find?-update_other o p q f [] e once found passes before after = refl
find?-update_other o p q f (r ∷ rows) e once found passes before after = elim (Bool-cases (p r)) [
  | inl hit ↦
      let is_e : r ≡ e = some-injective r e (rw hit at found) in
      let hit_q : q r ≡ true = ap q is_e ∙ passes in
      let miss : o r ≡ false = ap o is_e ∙ before in
      let miss_f : o (f r) ≡ false = ap (λ x. o (f x)) is_e ∙ after in
      ground (arith, find?-update_none o q f rows)
  | inr miss ↦
      let later : find? p rows ≡ some e = rw miss at found in
      ground (arith, count-pos_found q p rows e later passes, find?-update_other o p q f rows e)
]

pub find?-append_other :
    {A : Type 0} (o : A → Bool) (rows : List A) (r : A)
    → o r ≡ false
    → find? o (rows ++ r ∷ []) ≡ find? o rows
find?-append_other o [] r h = rw h refl
find?-append_other o (x ∷ rows) r h = ground (arith, find?-append_other o rows r)
