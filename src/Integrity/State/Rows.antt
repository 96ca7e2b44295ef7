-- ===== src/Integrity/State/Rows.antt =====
-- The row of a batch, and what saving it does.
use logchain.Prelude.{
  ◌≡◌, Option, some, List, [], ◌∷◌, find, Text, text_eq, text_eq_refl, Bool-cases, inl, inr,
}
use logchain.Entities.{Batch, Db}
use logchain.Integrity.State.{save_batch}

-- The row of a batch.
abbrev pub batch_row : Text → Db → Option Batch
batch_row i db = find (λ b. text_eq b.id i) db.batches

pub find-save_batch :
    (b : Batch) (bs : List Batch) → find (λ c. text_eq c.id b.id) (save_batch b bs) ≡ some b
unfolding save_batch
find-save_batch b [] = rw (text_eq_refl b.id)
find-save_batch b (c ∷ bs) = elim (Bool-cases (text_eq c.id b.id)) [
  | inl y ↦ rw (y, text_eq_refl b.id)
  | inr n ↦ rw (n, n) (find-save_batch b bs)
]
