-- ===== src/Storage/Expiry.antt =====
-- crawler/storage/memory.go: what a key gives after a call, now and later.
use go_backend_kit.Common.{
  String, true, false, ◌≡◌, ◌≢◌, Option, none, some, pos, ltb_ℤ, get, get-put, get-delete,
  string_key, eq_iff, Time, Duration, after, add_time, arith, if◌then◌else◌,
}
use go_backend_kit.Storage.Memory.{
  MemoryStorage, key_expired, key_not_found, Answer, found, missing, is_past, full_key,
  store_with_ttl, read, read_at, store_at, remove_at, remove,
}

module _ {V : Type 0} where
  abbrev pub value_of : Answer V → Option V
  value_of (found v) = some v
  value_of (missing e) = none

  store_at_lem :
      (now : Time) (k : String) (v : V) (d : Duration) (s : MemoryStorage V) (t : Time) (o : String)
      → let s' = store_at now k v d s in
        (ltb_ℤ (pos 0) d ≡ true
          → read_at t k s' ≡ (if after t (add_time now d) then missing key_expired else found v))
        × (ltb_ℤ (pos 0) d ≡ false
            → read_at t k s' ≡ (if is_past t (get k s.ttl) then missing key_expired else found v))
        × (o ≢ k → read_at t o s' ≡ read_at t o s)
  unfolding store_at read_at
  store_at_lem now k v d s t o = ground (
    arith,
    get-put k k v s.contents,
    get-put o k v s.contents,
    get-put k k (add_time now d) s.ttl,
    get-put o k (add_time now d) s.ttl,
    eq_iff k k,
    eq_iff k o,
  )

  pub remove_at_lem :
      (k : String) (s : MemoryStorage V) (t : Time) (o : String)
      → (read_at t k (remove_at k s) ≡ missing key_not_found)
        × (o ≢ k → read_at t o (remove_at k s) ≡ read_at t o s)
  unfolding remove_at read_at
  remove_at_lem k s t o = ground (
    arith,
    get-delete k k s.contents,
    get-delete o k s.contents,
    get-delete k k s.ttl,
    get-delete o k s.ttl,
    eq_iff k k,
    eq_iff k o,
  )

  -- A value that is stored for a positive duration is read back at every time up to its expiry, and
  -- the key is expired after it; stored for no positive duration, the value is read back unless an
  -- expiry that the key had before is past; keys with another full key read as before.
  pub store_with_ttl_lem :
      (now : Time) (key : String) (v : V) (d : Duration) (s : MemoryStorage V) (t : Time)
      (other : String)
      → let s' = store_with_ttl now key v d s in
        (ltb_ℤ (pos 0) d ≡ true
          → read t key s' ≡ (if after t (add_time now d) then missing key_expired else found v))
        × (ltb_ℤ (pos 0) d ≡ false
            → read t key s'
              ≡ (if is_past t (get (full_key s key) s.ttl) then missing key_expired else found v))
        × (full_key s other ≢ full_key s key → read t other s' ≡ read t other s)
  unfolding store_with_ttl read
  store_with_ttl_lem now key v d s t other =
      store_at_lem now (full_key s key) v d s t (full_key s other)

  -- After `Delete` the key is not found at any time, even if it had expired, and keys with another
  -- full key read as before.
  pub remove_lem :
      (key : String) (s : MemoryStorage V) (t : Time) (other : String)
      → (read t key (remove key s) ≡ missing key_not_found)
        × (full_key s other ≢ full_key s key → read t other (remove key s) ≡ read t other s)
  unfolding remove read
  remove_lem key s t other = remove_at_lem (full_key s key) s t (full_key s other)
