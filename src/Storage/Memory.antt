-- ===== src/Storage/Memory.antt =====
-- crawler/storage/memory.go: the store in memory. Each method holds the lock, so it is one step.
-- The clock is the argument `now`; a loop that reads it once reads it as the call begins.
use Prim.Native.String.{◌++◌ as join_text}
use Prim.Native.Char.{code}
use go_backend_kit.Common.{
  ℕ, suc, String, Bool, true, false, ◌&&◌, not, Option, none, some, List, [], ◌∷◌, ℤ, pos, ◌+ℤ◌,
  ltb_ℤ, wrap64, Dict, get, put, delete, string_key, str_eq, Time, Duration, after, before,
  add_time, seconds, is_some, if◌then◌else◌, ◌==◌,
}

pub record MemoryStorage (V : Type 0) : Type 0 where
  pub contents : Dict String V
  pub ttl : Dict String Time
  pub prefix : String

pub data StorageError : Type 0 where
  key_expired key_not_found invalid_query : StorageError

pub data Answer (A : Type 0) : Type 0 where
  found : A → Answer A
  missing : StorageError → Answer A

abbrev pub day : Duration
day = seconds (pos 86400)

-- An expiry that a time is after.
abbrev pub is_past : Time → Option Time → Bool
is_past now none = false
is_past now (some expiry) = after now expiry

abbrev pub answer_of : {V : Type 0} → Bool → Option V → Answer V
answer_of true v = missing key_expired
answer_of false none = missing key_not_found
answer_of false (some v) = found v

-- `key[:len(prefix)] == prefix`, for keys that are long enough.
unfoldable pub is_prefix : String → String → Bool
is_prefix String.[] s = true
is_prefix (String.◌∷◌ c p) String.[] = false
is_prefix (String.◌∷◌ c p) (String.◌∷◌ d s) =
    let rest = is_prefix p s in if code c == code d then rest else false

module _ {V : Type 0} where
  unfoldable pub new_memory_storage : String → MemoryStorage V
  new_memory_storage prefix = record { contents = []; ttl = []; prefix = prefix }

  unfoldable pub full_key : MemoryStorage V → String → String
  full_key s key = if str_eq s.prefix "" then key else join_text s.prefix (join_text ":" key)

  -- A duration that is not positive leaves an expiry that is there.
  unfoldable pub store_at : Time → String → V → Duration → MemoryStorage V → MemoryStorage V
  store_at now k v ttl s = record s {
    contents = put k v s.contents;
    ttl = if ltb_ℤ (pos 0) ttl then put k (add_time now ttl) s.ttl else s.ttl;
  }

  unfoldable pub store_with_ttl : Time → String → V → Duration → MemoryStorage V → MemoryStorage V
  unfolding full_key store_at
  store_with_ttl now key v ttl s = store_at now (full_key s key) v ttl s

  unfoldable pub store : Time → String → V → MemoryStorage V → MemoryStorage V
  unfolding store_with_ttl
  store now key v s = store_with_ttl now key v day s

  -- A read of a full key.
  unfoldable pub read_at : Time → String → MemoryStorage V → Answer V
  read_at now k s = answer_of (is_past now (get k s.ttl)) (get k s.contents)

  unfoldable pub read : Time → String → MemoryStorage V → Answer V
  unfolding full_key read_at
  read now key s = read_at now (full_key s key) s

  unfoldable pub remove_at : String → MemoryStorage V → MemoryStorage V
  remove_at k s = record s { contents = delete k s.contents; ttl = delete k s.ttl }

  unfoldable pub remove : String → MemoryStorage V → MemoryStorage V
  unfolding full_key remove_at
  remove key s = remove_at (full_key s key) s

  unfoldable pub has : Time → String → MemoryStorage V → Bool
  unfolding full_key
  has now key s =
      let k = full_key s key in
      if is_past now (get k s.ttl) then false else is_some (get k s.contents)

  unfoldable pub batch_store : Time → Dict String V → MemoryStorage V → MemoryStorage V
  unfolding full_key
  batch_store now [] s = s
  batch_store now ((key, v) ∷ items) s =
      let k = full_key s key in
      batch_store now items
        (record s { contents = put k v s.contents; ttl = put k (add_time now day) s.ttl })

  -- One key of `BatchGet`: the result map gains it, unless it has expired or is not there.
  unfoldable pub take_key : Time → MemoryStorage V → String → Dict String V → Dict String V
  unfolding full_key
  take_key now s key result =
      let k = full_key s key in
      if is_past now (get k s.ttl)
      then result
      else elim (get k s.contents) [ none ↦ result | some v ↦ put key v result ]

  unfoldable pub batch_get_from :
      Time → MemoryStorage V → List String → Dict String V → Dict String V
  unfolding take_key
  batch_get_from now s [] result = result
  batch_get_from now s (key ∷ keys) result = batch_get_from now s keys (take_key now s key result)

  unfoldable pub batch_get : Time → List String → MemoryStorage V → Dict String V
  unfolding batch_get_from
  batch_get now keys s = batch_get_from now s keys []

  -- The loop of `Query`.
  unfoldable pub matching : Time → String → Dict String Time → Dict String V → List V
  unfolding is_prefix
  matching now prefix ttl [] = []
  matching now prefix ttl ((k, v) ∷ m) =
      let rest = matching now prefix ttl m in
      if is_past now (get k ttl)
      then rest
      else if not (str_eq prefix "") && is_prefix prefix k
      then v ∷ rest
      else rest

  -- A query that is no text is refused.
  unfoldable pub query : Time → Option String → MemoryStorage V → Answer (List V)
  unfolding matching full_key
  query now none s = missing invalid_query
  query now (some pattern) s = found (matching now (full_key s pattern) s.ttl s.contents)

  -- The first loop of `Count`: the keys that expire later and are there.
  unfoldable pub count_expiring : Time → Dict String V → Dict String Time → ℕ
  count_expiring now contents [] = 0
  count_expiring now contents ((k, expiry) ∷ m) =
      let rest = count_expiring now contents m in
      if before now expiry && is_some (get k contents) then suc rest else rest

  -- The second loop: the keys without expiry.
  unfoldable pub count_lasting : Dict String Time → Dict String V → ℕ
  count_lasting ttl [] = 0
  count_lasting ttl ((k, v) ∷ m) =
      let rest = count_lasting ttl m in if is_some (get k ttl) then rest else suc rest

  unfoldable pub count : Time → MemoryStorage V → ℤ
  unfolding count_expiring count_lasting
  count now s =
      wrap64 (pos (count_expiring now s.contents s.ttl) +ℤ pos (count_lasting s.ttl s.contents))

  unfoldable pub clear : MemoryStorage V → MemoryStorage V
  clear s = record s { contents = []; ttl = [] }

  -- The loop of `cleanup` over the expiries.
  unfoldable pub clean : Time → Dict String Time → MemoryStorage V → MemoryStorage V
  unfolding remove_at
  clean now [] s = s
  clean now ((k, expiry) ∷ m) s = clean now m (if after now expiry then remove_at k s else s)

  unfoldable pub cleanup : Time → MemoryStorage V → MemoryStorage V
  unfolding clean
  cleanup now s = clean now s.ttl s
