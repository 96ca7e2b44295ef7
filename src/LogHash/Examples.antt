-- ===== src/LogHash/Examples.antt =====
-- The theorems on raw hashes at concrete logs.
use logchain.Prelude.{ℕ, ◌≡◌, refl, false, true, none, some, [], ◌∷◌, codes, includes}
use logchain.LogHash.{
  Runtime, RawHashInput, RawHashCanonical, HashedLog, canonical_json, normalize_ip,
  raw_hash_canonical, compute_raw_hash, is_raw_hash_intact, recompute_content_leaf,
}
use logchain.LogHash.Laws.{SameEvidence, compute_raw_hash-SameEvidence, is_raw_hash_intact_changed}

-- A platform whose hash is the text itself.
abbrev identity : Runtime
identity = record {
  sha256 = λ s. s;
  iso = λ n. n ∷ [];
  parse_date = λ s. none;
  url_host = λ s. none;
}

identity_iso : (m n : ℕ) → identity.iso m ≡ identity.iso n → m ≡ n
identity_iso m n h = cc

abbrev login : RawHashInput
login = record {
  id = codes "a";
  source = codes "web";
  source_ip = some (codes "10.0.0.1");
  event_type = codes "login";
  severity = codes "INFO";
  message = codes "say \"hi\"\n";
  classification = codes "INTERNAL";
  cde_scope = true;
  created_at = 7;
}

-- The same log with its address taken out.
abbrev anonymous : RawHashInput
anonymous = record login { source_ip = none }

abbrev row : HashedLog
row = record { content = anonymous; raw_hash = compute_raw_hash identity login }

compute_raw_hash_run :
    compute_raw_hash identity anonymous
    ≡ codes
        "{\"v\":2,\"id\":\"a\",\"source\":\"web\",\"sourceIp\":null,\"eventType\":\"login\",\"severity\":\"INFO\",\"message\":\"say \\\"hi\\\"\\n\",\"classification\":\"INTERNAL\",\"cdeScope\":true,\"createdAt\":\"\\u0007\"}"
unfolding compute_raw_hash logchain.LogHash.normalize_ip logchain.Json.hex4
compute_raw_hash_run = refl

normal_login : normalize_ip identity login.source_ip ≡ some (codes "10.0.0.1")
unfolding normalize_ip includes
normal_login = refl

normal_anonymous : normalize_ip identity anonymous.source_ip ≡ none
unfolding normalize_ip
normal_anonymous = refl

changed : ¬ SameEvidence identity login anonymous
changed h = cc (h.source_ip, normal_login, normal_anonymous)

compute_raw_hash-SameEvidence_example : SameEvidence identity login login
compute_raw_hash-SameEvidence_example =
    compute_raw_hash-SameEvidence identity (λ s t h. h) identity_iso login login refl

is_raw_hash_intact_changed_example : is_raw_hash_intact identity row ≡ false
is_raw_hash_intact_changed_example =
    is_raw_hash_intact_changed identity (λ s t h. h) identity_iso login row refl changed
