-- ===== src/LogHash.antt =====
-- src/logs/services/log-hash.ts: the canonical form of a log and its raw hash.
pub mod Laws
mod Examples
use logchain.Prelude.{
  ℕ, Bool, true, false, Option, none, some, List, [], ◌∷◌, ◌++◌, Text, codes, text_eq, includes,
  ltb, leb, ◌==◌, ◌+◌, ◌&&◌, if◌then◌else◌, map,
}
use logchain.Json.{put_text, put_option, put_bool, decimal}

-- What the platform computes for this code: `createHash('sha256')` of a text, in hexadecimal;
-- `Date.prototype.toISOString` and `new Date(text)` (`none` is an invalid date); the host name of
-- `new URL('http://[ip]')` (`none` where it throws).
pub record Runtime : Type 0 where
  pub sha256 : Text → Text
  pub iso : ℕ → Text
  pub parse_date : Text → Option ℕ
  pub url_host : Text → Option Text

-- The fields of a log that are evidence. A time is in milliseconds.
pub record RawHashInput : Type 0 where
  pub id : Text
  pub source : Text
  pub source_ip : Option Text
  pub event_type : Text
  pub severity : Text
  pub message : Text
  pub classification : Text
  pub cde_scope : Bool
  pub created_at : ℕ

pub record RawHashCanonical : Type 0 where
  pub v : ℕ
  pub id : Text
  pub source : Text
  pub source_ip : Option Text
  pub event_type : Text
  pub severity : Text
  pub message : Text
  pub classification : Text
  pub cde_scope : Bool
  pub created_at : Text

-- `RawHashInput & { rawHash: string }`
pub record HashedLog : Type 0 where
  pub content : RawHashInput
  pub raw_hash : Text

abbrev pub raw_hash_version : ℕ
raw_hash_version = 2

abbrev to_lower_char : ℕ → ℕ
to_lower_char c = if leb 65 c && leb c 90 then c + 32 else c

-- `toLowerCase` of an ASCII text: addresses and hexadecimal roots hold no other letters.
unfoldable pub to_lower : Text → Text
to_lower s = map to_lower_char s

strip_open : Text → Text
strip_open [] = []
strip_open (c ∷ s) = if c == b'[' then s else c ∷ s

strip_close : Text → Text
strip_close [] = []
strip_close (c ∷ []) = if c == b']' then [] else c ∷ []
strip_close (c ∷ d ∷ s) = c ∷ strip_close (d ∷ s)

-- `hostname.replace(/^\[|\]$/g, '')`
strip_brackets : Text → Text
unfolding strip_open strip_close
strip_brackets s = strip_close (strip_open s)

module _ (rt : Runtime) where
  normal_ipv6 : Text → Option Text → Text
  unfolding strip_brackets to_lower
  normal_ipv6 ip none = to_lower ip
  normal_ipv6 ip (some host) = strip_brackets host

  unfoldable pub normalize_ip : Option Text → Option Text
  unfolding normal_ipv6
  normalize_ip none = none
  normalize_ip (some []) = none
  normalize_ip (some (c ∷ s)) =
      if includes (codes ":") (c ∷ s)
      then some (normal_ipv6 (c ∷ s) (rt.url_host (c ∷ s)))
      else some (c ∷ s)

  unfoldable pub raw_hash_canonical : RawHashInput → RawHashCanonical
  raw_hash_canonical input = record {
    v = raw_hash_version;
    id = input.id;
    source = input.source;
    source_ip = normalize_ip input.source_ip;
    event_type = input.event_type;
    severity = input.severity;
    message = input.message;
    classification = input.classification;
    cde_scope = input.cde_scope;
    created_at = rt.iso input.created_at;
  }

-- `JSON.stringify` of the canonical object: its keys in the order in which it was written.
unfoldable pub canonical_json : RawHashCanonical → Text
unfolding put_text put_option put_bool decimal
canonical_json c =
    codes "{\"v\":"
    ++ (decimal c.v
        ++ (codes ",\"id\":"
            ++ put_text c.id (
                codes ",\"source\":"
                ++ put_text c.source (
                    codes ",\"sourceIp\":"
                    ++ put_option c.source_ip (
                        codes ",\"eventType\":"
                        ++ put_text c.event_type (
                            codes ",\"severity\":"
                            ++ put_text c.severity (
                                codes ",\"message\":"
                                ++ put_text c.message (
                                    codes ",\"classification\":"
                                    ++ put_text c.classification (
                                        codes ",\"cdeScope\":"
                                        ++ put_bool c.cde_scope (
                                            codes ",\"createdAt\":"
                                            ++ put_text c.created_at (codes "}")))))))))))

-- The object that version 1 hashed.
unfoldable pub legacy_json : RawHashInput → Text
legacy_json i =
    codes "{\"source\":"
    ++ put_text i.source (
        codes ",\"eventType\":"
        ++ put_text i.event_type (codes ",\"message\":" ++ put_text i.message (codes "}")))

module _ (rt : Runtime) where
  unfoldable pub compute_raw_hash : RawHashInput → Text
  unfolding canonical_json raw_hash_canonical
  compute_raw_hash input = rt.sha256 (canonical_json (raw_hash_canonical rt input))

  pub compute_legacy_raw_hash : RawHashInput → Text
  compute_legacy_raw_hash input = rt.sha256 (legacy_json input)

  unfoldable pub is_raw_hash_intact : HashedLog → Bool
  unfolding compute_raw_hash compute_legacy_raw_hash
  is_raw_hash_intact log =
      if text_eq log.raw_hash (compute_raw_hash log.content)
      then true
      else text_eq log.raw_hash (compute_legacy_raw_hash log.content)

  unfoldable pub recompute_content_leaf : HashedLog → Text
  unfolding is_raw_hash_intact
  recompute_content_leaf log =
      if is_raw_hash_intact log then log.raw_hash else compute_raw_hash log.content
