-- ===== src/Scanner/Machine.antt =====
-- What the loop over the blocks promises, without a database: where it stands, and the block number
-- that is stored as the checkpoint.
use native.Mathlib.Nat.{le_trans}
use hxscanner.Prelude.{ℕ, suc, ◌+◌, ◌*◌, ◌/◌, ◌%◌, ◌≤◌, ◌<◌, ◌≡◌, ◌≢◌, eqb, arith, if◌then◌else◌}

pub record Place : Type 0 where
  -- the number of the next block
  pub next : ℕ
  pub saved : ℕ

-- A block is stored, and every hundredth is saved as the checkpoint; or the node does not have the block
-- yet, and the one before it is saved.
infix 40 ◌⟶◌ ◌⟶*◌
pub data ◌⟶◌ : Place → Place → Type 0 where
  block :
      {p q : Place}
      → q.next ≡ suc p.next
      → q.saved ≡ (if eqb (p.next % 100) 0 then p.next else p.saved)
      → p ⟶ q
  wait : {p q : Place} → q.next ≡ p.next → suc q.saved ≡ p.next → p ⟶ q

pub data ◌⟶*◌ : Place → Place → Type 0 where
  here : {p : Place} → p ⟶* p
  step : {p q r : Place} → p ⟶ q → q ⟶* r → p ⟶* r

-- The checkpoint is behind, and no hundredth block is between it and the next block.
pub record Near (p : Place) : Type 0 where
  pub behind : p.saved < p.next
  pub no_hundredth : (j : ℕ) → p.saved < j → j < p.next → j % 100 ≢ 0

pub step-pos : {p q : Place} → p ⟶ q → 1 ≤ p.next → 1 ≤ q.next
step-pos (block n s) h = omega arith
step-pos (wait n s) h = omega arith

step-Near : {p q : Place} → p ⟶ q → Near p → Near q
step-Near (block {p} n s) h = record {
  behind = ground (arith, h.behind);
  no_hundredth = λ j lo hi. ground (arith, h.behind, h.no_hundredth j);
}
step-Near (wait n s) h = record {
  behind = omega arith;
  no_hundredth = λ j lo hi. absurd (omega arith);
}

steps-Near : {p q : Place} → p ⟶* q → Near p → Near q
steps-Near here h = h
steps-Near (step s t) h = steps-Near t (step-Near s h)

Near-bound : {p : Place} → Near p → p.next ≤ p.saved + 100
Near-bound {p} h = ground (arith, h.behind, h.no_hundredth ((p.saved / 100 + 1) * 100))

step_mono : {p q : Place} → p ⟶ q → Near p → p.saved ≤ q.saved
step_mono (block {p} n s) h = ground (arith, h.behind)
step_mono (wait n s) h = omega (arith, h.behind)

steps_mono : {p q : Place} → p ⟶* q → Near p → p.saved ≤ q.saved
steps_mono here h = omega arith
steps_mono (step s t) h = le_trans (step_mono s h) (steps_mono t (step-Near s h))

-- From the start behind a checkpoint, the checkpoint never goes back, and stays behind the next block,
-- by at most a hundred blocks.
pub steps-bound :
    {p q : Place}
    → p ⟶* q
    → p.next ≡ suc p.saved
    → (p.saved ≤ q.saved) × (q.saved < q.next) × (q.next ≤ q.saved + 100)
steps-bound {p} t e =
    let begin : Near p = record {
      behind = omega arith;
      no_hundredth = λ j lo hi. absurd (omega arith);
    } in
    let near = steps-Near t begin in (steps_mono t begin, near.behind, Near-bound near)
