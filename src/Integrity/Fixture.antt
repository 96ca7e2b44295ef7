-- ===== src/Integrity/Fixture.antt =====
-- Concrete tables, a platform and answers of the world, for the runs of this part.
use Prim.Native.String.{String}
use logchain.Prelude.{ℕ, refl, true, false, none, some, List, [], ◌∷◌, ◌++◌, map, Text, codes}
use logchain.Errors.{ok, err, plain_error}
use logchain.Entities.{Log, Batch, SealReason, sealed, unverified, confirmed, Db}
use logchain.LogHash.{Runtime, RawHashInput, compute_raw_hash}
use logchain.Merkle.{MerkleTree, IsHexRoot}
use logchain.Integrity.State.{Service, World, snapshots_from}

-- A platform whose hash is the text itself: no two texts collide.
abbrev pub plain : Runtime
plain = record { sha256 = λ s. s; iso = λ n. n ∷ []; parse_date = λ s. none; url_host = λ s. none }

abbrev pub join : List Text → Text
join [] = []
join (t ∷ ts) = t ++ join ts

-- A tree whose root is all its leaves.
abbrev pub flat : MerkleTree
flat = record {
  digest = λ s. s;
  hex_root = λ ls. codes "0x" ++ join ls;
  layers = λ ls. ls ∷ [];
  proof = λ ls t. [];
  verify = λ p t r. true;
}

abbrev pub flat_IsHexRoot : IsHexRoot flat
flat_IsHexRoot = record { digits = join; prefixed = λ ls. refl }

abbrev pub content_of : String → ℕ → RawHashInput
content_of i t = record {
  id = codes i;
  source = codes "web";
  source_ip = none;
  event_type = codes "login";
  severity = codes "INFO";
  message = codes "hi";
  classification = codes "INTERNAL";
  cde_scope = false;
  created_at = t;
}

abbrev pub log_of : String → ℕ → Log
log_of i t = record {
  hashed = record { content = content_of i t; raw_hash = compute_raw_hash plain (content_of i t) };
  retention_days = 365;
}

abbrev pub early : Log
early = log_of "l2" 1

abbrev pub late : Log
late = log_of "l1" 5

abbrev pub empty_db : Db
empty_db = record {
  logs = late ∷ early ∷ [];
  batches = [];
  mappings = [];
  snapshots = [];
  alerts = [];
}

abbrev pub idle_service : Service
idle_service = record {
  db = empty_db;
  drain_in_flight = false;
  consecutive_failures = 0;
  backoff_ticks_left = 0;
  low_balance = false;
  last_low_balance_alert_at = 0;
}

abbrev pub offline : World
offline = record {
  now = 10;
  ready = false;
  estimate = err (plain_error []);
  store_root = λ i r. err (plain_error []);
  get_root = λ i. err (plain_error []);
  get_tx_gas = λ h. ok none;
  score = none;
  new_id = codes "b1";
  commit = none;
  commit_again = none;
}

abbrev pub two_roots : Text
two_roots = join (map (λ (l : Log). l.raw_hash) (early ∷ late ∷ []))

abbrev pub offline_batch : Batch
offline_batch = record {
  id = codes "b1";
  merkle_root = two_roots;
  log_count = 2;
  tx_hash = none;
  block_number = none;
  status = sealed;
  confirmed_at = none;
  seal_reason = SealReason.cron;
  gas_used = none;
  effective_gas_price = none;
  scored = none;
}

abbrev pub online : World
online = record offline {
  ready = true;
  store_root = λ i r. ok (record {
    tx_hash = codes "0xaa";
    block_number = some 7;
    confirmed = true;
    gas_used = some 9;
    effective_gas_price = some 3;
  });
  get_root = λ i. ok (codes "0x" ++ two_roots);
}

-- The tables after the two logs were sealed offline.
abbrev pub sealed_db : Db
sealed_db = record empty_db {
  batches = offline_batch ∷ [];
  mappings =
      record { log_id = codes "l2"; batch_id = codes "b1" }
      ∷ record { log_id = codes "l1"; batch_id = codes "b1" }
      ∷ [];
}

-- The same, with a row whose time was changed afterwards.
abbrev pub changed_row : Log
changed_row = record early { hashed = record early.hashed { content = content_of "l2" 2 } }

abbrev pub changed_db : Db
changed_db = record sealed_db { logs = late ∷ changed_row ∷ [] }

-- The same as `sealed_db`, once the batch was anchored and is to be followed up.
abbrev pub sent_batch : Batch
sent_batch = record offline_batch { status = unverified; tx_hash = some (codes "0xaa") }

abbrev pub sent_db : Db
sent_db = record sealed_db { batches = sent_batch ∷ [] }

-- A platform that reads the dates that it prints.
abbrev pub dated : Runtime
dated = record plain { parse_date = λ s. elim s [ [] ↦ none | n ∷ t ↦ some n ] }

abbrev pub anchored_batch : Batch
anchored_batch = record offline_batch { status = confirmed; tx_hash = some (codes "0xaa") }

abbrev pub kept_db : Db
kept_db = record sealed_db {
  batches = anchored_batch ∷ [];
  snapshots = snapshots_from dated (codes "b1") 0 (early ∷ late ∷ []);
}

-- A row was changed and another one deleted.
abbrev pub tampered_db : Db
tampered_db = record kept_db { logs = changed_row ∷ [] }
