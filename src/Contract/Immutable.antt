-- ===== src/Contract/Immutable.antt =====
-- A stored root in the later states of the contract.
use logchain.Prelude.{
  ℕ, ◌≡◌, ◌≢◌, refl, ◌∙◌, true, false, Text, text_eq, text_eq-eq, text_eq-false, arith,
}
use logchain.Contract.{
  LogIntegrity, zero_root, update, done, store_root, Step, store, Reach, here, next,
}

-- A successful call: the caller is the owner, the batch had no root, and only it gets one.
pub store_root-done :
    (sender batch root : Text) (now : ℕ) (c d : LogIntegrity)
    → store_root sender batch root now c ≡ done d
    → (text_eq sender c.owner ≡ true)
      × (text_eq (c.roots batch) zero_root ≡ true)
      × (d ≡ record c {
        roots = update c.roots batch root;
        timestamp = update c.timestamp batch now;
      })
unfolding store_root
store_root-done sender batch root now c d h = ground arith

Step-root :
    (batch : Text) (c d : LogIntegrity)
    → c.roots batch ≢ zero_root
    → Step c d
    → d.roots batch ≡ c.roots batch
unfolding update
Step-root batch c d stored (store sender b root now e) =
    let (auth, free, new) = store_root-done sender b root now c d e in
    let other : text_eq b batch ≡ false =
      text_eq-false b batch (λ same. stored (rw same at (text_eq-eq (c.roots b) zero_root free))) in
    rw (new, other)

-- A root other than zero that the contract holds for a batch is there in every later state, whoever
-- calls it.
pub Reach-root :
    (batch : Text) (c d : LogIntegrity)
    → c.roots batch ≢ zero_root
    → Reach c d
    → d.roots batch ≡ c.roots batch
Reach-root batch c d stored here = refl
Reach-root batch c d stored (next {d = m} r s) =
    let same = Reach-root batch c m stored r in Step-root batch m d (rw same stored) s ∙ same
