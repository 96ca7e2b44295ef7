-- ===== src/Integrity/Seal/Mapped.antt =====
-- The mapping that a seal writes, and the logs that it gives to the batch.
use logchain.Prelude.{
  ◌≡◌, refl, sym, ap, false, ◌||◌, List, [], ◌∷◌, ◌++◌, map, All, Text, text_eq, text_eq_refl,
  text_eq_comm, or-false, has_id, IsKeyed, filter-append, append-nil, append_assoc, any-append,
}
use logchain.Entities.{Log, log_id, LogBatchMapping}
use logchain.Integrity.State.{is_mapped, save_mapping, save_mappings, mapped_to}

abbrev pub mapping_row : Text → Log → LogBatchMapping
mapping_row batch_id l = record { log_id = l.content.id; batch_id = batch_id }

-- No log of the list is in a batch.
abbrev pub AllUnmapped : List LogBatchMapping → List Log → Type 0
AllUnmapped ms ls = All (λ (l : Log). is_mapped ms l.content.id ≡ false) ls

save_mapping_new :
    (m : LogBatchMapping) (ms : List LogBatchMapping)
    → is_mapped ms m.log_id ≡ false
    → save_mapping m ms ≡ ms ++ m ∷ []
unfolding is_mapped save_mapping
save_mapping_new m [] h = refl
save_mapping_new m (n ∷ ms) h =
    let (ne, rest) = or-false (text_eq m.log_id n.log_id) (is_mapped ms m.log_id) h in
    rw (text_eq_comm n.log_id m.log_id, ne) (ap (◌∷◌ n) (save_mapping_new m ms rest))

still_unmapped :
    (b : Text) (l : Log) (ms : List LogBatchMapping) (ls : List Log)
    → has_id log_id l.content.id ls ≡ false
    → AllUnmapped ms ls
    → AllUnmapped (ms ++ mapping_row b l ∷ []) ls
unfolding is_mapped
still_unmapped b l ms [] k h = tt
still_unmapped b l ms (x ∷ xs) k h =
    let (ne, rest) =
      or-false (text_eq l.content.id x.content.id) (has_id log_id l.content.id xs) k in
    (
      rw (
        any-append (λ m. text_eq x.content.id m.log_id) ms (mapping_row b l ∷ []),
        h.0,
        text_eq_comm x.content.id l.content.id,
        ne,
      ),
      still_unmapped b l ms xs rest h.1,
    )

-- The rows of new logs go to the end of the table.
pub save_mappings_new :
    (b : Text) (ls : List Log) (ms : List LogBatchMapping)
    → IsKeyed log_id ls
    → AllUnmapped ms ls
    → save_mappings b ls ms ≡ ms ++ map (mapping_row b) ls
unfolding save_mappings
save_mappings_new b [] ms k h = sym (append-nil ms)
save_mappings_new b (l ∷ ls) ms k h =
    let m = mapping_row b l in
    rw
      (
        save_mapping_new m ms h.0,
        save_mappings_new b ls (ms ++ m ∷ []) k.1 (still_unmapped b l ms ls k.0 h.1),
      )
      (append_assoc ms (m ∷ []) (map (mapping_row b) ls))

mapped_to_rows :
    (b : Text) (ls : List Log) → mapped_to b (map (mapping_row b) ls) ≡ map (mapping_row b) ls
unfolding mapped_to
mapped_to_rows b [] = refl
mapped_to_rows b (l ∷ ls) = rw (text_eq_refl b, mapped_to_rows b ls)

pub is_mapped_rows :
    (b i : Text) (ls : List Log) → is_mapped (map (mapping_row b) ls) i ≡ has_id log_id i ls
unfolding is_mapped
is_mapped_rows b i [] = refl
is_mapped_rows b i (l ∷ ls) = rw (is_mapped_rows b i ls)

is_mapped_append :
    (ms ns : List LogBatchMapping) (i : Text)
    → is_mapped (ms ++ ns) i ≡ (is_mapped ms i || is_mapped ns i)
unfolding is_mapped
is_mapped_append ms ns i = any-append (λ m. text_eq i m.log_id) ms ns

-- A new batch is mapped to exactly the logs that were saved for it.
pub mapped_to_new :
    (b : Text) (ls : List Log) (ms : List LogBatchMapping)
    → IsKeyed log_id ls
    → AllUnmapped ms ls
    → mapped_to b ms ≡ []
    → mapped_to b (save_mappings b ls ms) ≡ map (mapping_row b) ls
unfolding mapped_to
mapped_to_new b ls ms k h fresh = rw (
  save_mappings_new b ls ms k h,
  filter-append (λ m. text_eq m.batch_id b) ms (map (mapping_row b) ls),
  fresh,
  mapped_to_rows b ls,
)

no_rows :
    (b c : Text) (ls : List Log) → text_eq b c ≡ false → mapped_to c (map (mapping_row b) ls) ≡ []
unfolding mapped_to
no_rows b c [] ne = refl
no_rows b c (l ∷ ls) ne = rw (ne, no_rows b c ls ne)

-- The other batches keep theirs.
pub mapped_to_other :
    (b c : Text) (ls : List Log) (ms : List LogBatchMapping)
    → IsKeyed log_id ls
    → AllUnmapped ms ls
    → text_eq b c ≡ false
    → mapped_to c (save_mappings b ls ms) ≡ mapped_to c ms
unfolding mapped_to
mapped_to_other b c ls ms k h ne =
    rw
      (
        save_mappings_new b ls ms k h,
        filter-append (λ m. text_eq m.batch_id c) ms (map (mapping_row b) ls),
        no_rows b c ls ne,
      )
      (append-nil (mapped_to c ms))

-- The logs that are in a batch afterwards.
pub is_mapped_saved :
    (b : Text) (ls : List Log) (ms : List LogBatchMapping) (i : Text)
    → IsKeyed log_id ls
    → AllUnmapped ms ls
    → is_mapped (save_mappings b ls ms) i ≡ (is_mapped ms i || has_id log_id i ls)
is_mapped_saved b ls ms i k h = rw (
  save_mappings_new b ls ms k h,
  is_mapped_append ms (map (mapping_row b) ls) i,
  is_mapped_rows b i ls,
)
