-- ===== src/Storage/Batches.antt =====
-- crawler/storage/memory.go: the calls for several keys.
use go_backend_kit.Common.{
  String, Bool, true, false, Bool-cases, inl, inr, ◌≡◌, refl, ◌∙◌, ap, Option, none, some, List, [],
  ◌∷◌, Dict, get, put, get-put, string_key, str_eq, eq_iff, Time, arith, if◌then◌else◌,
}
use go_backend_kit.Storage.Memory.{
  MemoryStorage, store_with_ttl, store_at, store, read, read_at, batch_store, take_key,
  batch_get_from, batch_get,
}
use go_backend_kit.Storage.Expiry.{value_of}

abbrev pub is_among : String → List String → Bool
is_among key [] = false
is_among key (k ∷ ks) = if str_eq k key then true else is_among key ks

module _ {V : Type 0} where
  -- `BatchStore` is `Store` for each item.
  unfoldable pub store_each : Time → Dict String V → MemoryStorage V → MemoryStorage V
  store_each now [] s = s
  store_each now ((key, v) ∷ items) s = store_each now items (store now key v s)

  -- `BatchStore` leaves the store that one `Store` after another at the same time leaves.
  pub batch_store_lem :
      (now : Time) (items : Dict String V) (s : MemoryStorage V)
      → batch_store now items s ≡ store_each now items s
  unfolding batch_store store_each store store_with_ttl store_at
  batch_store_lem now [] s = refl
  batch_store_lem now ((key, v) ∷ items) s = batch_store_lem now items _

  abbrev or_else : Option V → Option V → Option V
  or_else none b = b
  or_else (some v) b = some v

  abbrev put_found : String → Dict String V → Option V → Dict String V
  put_found key r none = r
  put_found key r (some v) = put key v r

  take_key-read :
      (now : Time) (s : MemoryStorage V) (k : String) (r : Dict String V)
      → take_key now s k r ≡ put_found k r (value_of (read now k s))
  unfolding take_key read read_at
  take_key-read now s k r = ground arith

  get-put_found :
      (key k : String) (r : Dict String V) (x : Option V)
      → get key (put_found k r x) ≡ (if str_eq k key then or_else x (get key r) else get key r)
  get-put_found key k r none = ground arith
  get-put_found key k r (some v) = ground (arith, get-put key k v r)

  take_key-get :
      (now : Time) (s : MemoryStorage V) (k key : String) (r : Dict String V)
      → get key (take_key now s k r)
        ≡ (if str_eq k key then or_else (value_of (read now key s)) (get key r) else get key r)
  take_key-get now s k key r =
      let step =
        ap (get key) (take_key-read now s k r) ∙ get-put_found key k r (value_of (read now k s)) in
      elim (Bool-cases (str_eq k key)) [
        | inl b ↦
            step
            ∙ rw b (ap (λ i. or_else (value_of (read now i s)) (get key r)) ((eq_iff k key).0 b))
        | inr b ↦ step ∙ rw b refl
      ]

  or_else-twice : (x y : Option V) → or_else x (or_else x y) ≡ or_else x y
  or_else-twice none y = refl
  or_else-twice (some v) y = refl

  batch_get_from-get :
      (now : Time) (s : MemoryStorage V) (keys : List String) (key : String) (r : Dict String V)
      → get key (batch_get_from now s keys r)
        ≡ (if is_among key keys then or_else (value_of (read now key s)) (get key r) else get key r)
  unfolding batch_get_from
  batch_get_from-get now s [] key r = refl
  batch_get_from-get now s (k ∷ keys) key r =
      let x = value_of (read now key s) in
      batch_get_from-get now s keys key (take_key now s k r)
      ∙ rw (take_key-get now s k key r) (ground (arith, or_else-twice x (get key r)))

  -- `BatchGet` holds for each requested key the value that `Get` returns at that time, and nothing
  -- for a key that `Get` refuses or that was not requested.
  pub batch_get_lem :
      (now : Time) (s : MemoryStorage V) (keys : List String) (key : String)
      → get key (batch_get now keys s)
        ≡ (if is_among key keys then value_of (read now key s) else none)
  unfolding batch_get get
  batch_get_lem now s keys key = batch_get_from-get now s keys key [] ∙ ground arith
