-- ===== src/Tests/Storing.antt =====
-- crawler/storage/memory.go at concrete inputs.
use go_backend_kit.Common.{
  ℕ, ◌≡◌, ◌≢◌, refl, [], ◌∷◌, pos, ltb_ℤ, true, false, seconds, after, add_time, get, put,
  string_key, arith, if◌then◌else◌,
}
use go_backend_kit.Storage.{
  MemoryStorage, found, missing, key_expired, is_past, full_key, store_with_ttl, read, cleanup,
  store_at, read_at,
}
use go_backend_kit.Storage.Expiry.{value_of, store_with_ttl_lem}
use go_backend_kit.Storage.Cleanup.{cleanup_lem}

-- One key that expires at 10 seconds, and one that never does.
abbrev pages : MemoryStorage ℕ
pages = record {
  contents = ("web:a", 1) ∷ ("web:b", 2) ∷ [];
  ttl = ("web:a", seconds (pos 10)) ∷ [];
  prefix = "web";
}

-- Storing without a duration keeps the expiry that the key had: it has expired at once.
stored_but_expired :
    read (seconds (pos 20)) "a" (store_with_ttl (seconds (pos 20)) "a" 7 (pos 0) pages)
    ≡ missing key_expired
unfolding read read_at store_with_ttl store_at full_key get put
stored_but_expired = refl

store_with_ttl_lem_example :
    let s' = store_with_ttl (seconds (pos 1)) "a" 7 (seconds (pos 5)) pages in
    (ltb_ℤ (pos 0) (seconds (pos 5)) ≡ true
      → read (seconds (pos 3)) "a" s' ≡ (
          if after (seconds (pos 3)) (add_time (seconds (pos 1)) (seconds (pos 5)))
          then missing key_expired
          else found 7))
    × (ltb_ℤ (pos 0) (seconds (pos 5)) ≡ false
        → read (seconds (pos 3)) "a" s' ≡ (
            if is_past (seconds (pos 3)) (get (full_key pages "a") pages.ttl)
            then missing key_expired
            else found 7))
    × (full_key pages "b" ≢ full_key pages "a"
        → read (seconds (pos 3)) "b" s' ≡ read (seconds (pos 3)) "b" pages)
store_with_ttl_lem_example =
    store_with_ttl_lem (seconds (pos 1)) "a" 7 (seconds (pos 5)) pages (seconds (pos 3)) "b"

cleanup_lem_example :
    value_of (read (seconds (pos 30)) "b" (cleanup (seconds (pos 20)) pages))
    ≡ value_of (read (seconds (pos 30)) "b" pages)
unfolding get
cleanup_lem_example =
    cleanup_lem (seconds (pos 20)) (seconds (pos 30)) "b" pages (refl, tt) (omega arith)
