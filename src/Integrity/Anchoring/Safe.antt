-- ===== src/Integrity/Anchoring/Safe.antt =====
-- What anchoring afterwards may do to a batch.
use logchain.Prelude.{true, ◌≡◌, refl, ◌⊎◌, inl, inr, some, if_both}
use logchain.Errors.{Thrown, Result, ok, err}
use logchain.Entities.{Batch, unverified, confirmed, Db}
use logchain.Blockchain.Errors.{
  ChainWriteError, root_exists, not_authorized, other, classify_chain_error,
}
use logchain.Blockchain.Send.{StoreRootResult}
use logchain.Blockchain.Check.{CheckResult, matched, missing, mismatch, RootCheck, check_root}
use logchain.Integrity.State.{World, with_batch}
use logchain.Integrity.Seal.Settled.{SameContents}
use logchain.Integrity.Seal.Evidence.{Sent, sent}
use logchain.Integrity.Anchoring.{
  stored_root, with_transaction, anchored, adopt_anchored, anchor_stored, anchor_sealed,
}

-- `storeRoot` of the batch failed with the error that tells that the contract has a root for it.
abbrev pub RootExists : World → Batch → Type 0
RootExists w b =
    (e : Thrown) × (w.store_root b.id (stored_root b) ≡ err e)
    × (classify_chain_error e ≡ root_exists)

-- The chain holds the stored root, by a receipt, or, where `storeRoot` found a root there, by reading
-- it back.
abbrev pub OnChain : World → Batch → Type 0
OnChain w b =
    ((r : StoreRootResult) × (w.store_root b.id (stored_root b) ≡ ok r) × (r.confirmed ≡ true))
    ⊎ (RootExists w b
        × ((c : RootCheck) × (check_root w.ready (w.get_root b.id) (stored_root b) ≡ ok c)
            × (c.result ≡ matched)))

-- The change that one turn of the loop may make: none, or the batch with the same contents and a
-- status that the chain's answers back.
abbrev pub AnchorChange : World → Batch → Db → Db → Type 0
AnchorChange w b d e =
    (e ≡ d)
    ⊎ ((c : Batch) × (e ≡ with_batch c d)
        × SameContents b c
        × (((c.status ≡ confirmed) × OnChain w b)
            ⊎ ((c.status ≡ unverified) × Sent w b.id (stored_root b))))

abbrev pub AnchorStep : World → Batch → Db → Result Db → Type 0
AnchorStep w b d (ok e) = AnchorChange w b d e
AnchorStep w b d (err x) =
    RootExists w b × (check_root w.ready (w.get_root b.id) (stored_root b) ≡ err x)

module _ (w : World) (b : Batch) (d : Db) where
  adopt_anchored-step :
      RootExists w b
      → (r : Result RootCheck) → check_root w.ready (w.get_root b.id) (stored_root b) ≡ r
      → AnchorStep w b d (adopt_anchored w b d r)
  unfolding adopt_anchored
  adopt_anchored-step exists (err e) h = (exists, h)
  adopt_anchored-step exists (ok c) h = go c.result refl
    where
      go :
          (v : CheckResult)
          → c.result ≡ v
          → AnchorStep w b d (elim v [
            | matched ↦
                ok (with_batch (record b { status = confirmed; confirmed_at = some w.now }) d)
            | _ ↦ ok d
          ])
      go matched e = inr (
        record b { status = confirmed; confirmed_at = some w.now },
        refl,
        record { id = refl; merkle_root = refl; log_count = refl },
        inl (refl, inr (exists, (c, h, e))),
      )
      go missing e = inl refl
      go mismatch e = inl refl

  anchor_stored-step :
      (r : Result StoreRootResult)
      → w.store_root b.id (stored_root b) ≡ r
      → AnchorStep w b d (anchor_stored w b d r)
  unfolding anchor_stored anchored with_transaction
  anchor_stored-step (ok r) h = inr (anchored w r b, refl, go.0, go.1)
    where
      P : Batch → Type 0
      P c =
          SameContents b c
          × (((c.status ≡ confirmed) × OnChain w b)
              ⊎ ((c.status ≡ unverified) × Sent w b.id (stored_root b)))

      go : P (anchored w r b)
      go =
          if_both P r.confirmed _ _
            (λ y. (
              record { id = refl; merkle_root = refl; log_count = refl },
              inl (refl, inl (r, h, y)),
            ))
            (λ n.
              (record { id = refl; merkle_root = refl; log_count = refl }, inr (refl, sent r h n)))
  anchor_stored-step (err e) h = go (classify_chain_error e) refl
    where
      go :
          (v : ChainWriteError)
          → classify_chain_error e ≡ v
          → AnchorStep w b d (elim v [
            | root_exists ↦
                adopt_anchored w b d (check_root w.ready (w.get_root b.id) (stored_root b))
            | _ ↦ ok d
          ])
      go root_exists k =
          adopt_anchored-step (e, h, k) (check_root w.ready (w.get_root b.id) (stored_root b)) refl
      go not_authorized k = inl refl
      go other k = inl refl

  -- Anchoring a sealed batch afterwards either changes nothing, or keeps the id, the root and the
  -- count. It makes the batch UNVERIFIED only where a transaction was sent without a receipt, and
  -- CONFIRMED only with a receipt, or where storeRoot failed because the contract has a root for
  -- the batch and the root read back is the stored one. A batch never fails here. The loop ends
  -- early only where storeRoot failed for that reason and reading the root back fails.
  pub anchor_sealed-step : AnchorStep w b d (anchor_sealed w b d)
  unfolding anchor_sealed
  anchor_sealed-step = anchor_stored-step (w.store_root b.id (stored_root b)) refl
