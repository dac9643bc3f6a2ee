-- ===== src/Cluster/Counters.antt =====
-- crawler/distributed/batch_middleware.go: the counters of Redis, their expiry, and announcements.
use go_backend_kit.Common.{
  ℕ, suc, ◌+◌, ◌<◌, String, ◌≡◌, ◌⊎◌, inl, inr, sym, ◌∙◌, Option, some, List, [], ◌∷◌, ◌++◌, pos,
  ◌≤ℤ◌, +ℤ_parts, ℤ, Time, Duration, add_time, seconds, str_eq, arith, if◌then◌else◌,
}
use go_backend_kit.Cluster.Types.{
  TaskResult, completed_tasks, batch_processed, Entry, encoded, bare, assigned_to, failure,
  stored_result, task_completed, batch_completed, RedisOps,
}

-- What the documentation of Redis says of counters, their expiry and lists, for a Redis that
-- carries out each command and in which no counter runs out. A key is there up to its deadline and
-- is gone a millisecond later; a counter that is not there counts as 0. Nothing is said of an
-- expiry that is not a positive whole number of seconds.
pub record CounterLaws {R : Type 0} (ops : RedisOps R) : Type 0 where
  pub processed : String → R → ℕ
  pub completed : R → List Entry
  pub deadline : String → R → Option Time
  pub clock : R → Time
  pub at_time : Time → R → R
  pub time_passes :
      (now : Time) (r : R)
      → clock r ≤ℤ now
      → (clock (at_time now r) ≡ now) × (completed (at_time now r) ≡ completed r)
  pub none_stays :
      (b : String) (now : Time) (r : R) → processed b r ≡ 0 → processed b (at_time now r) ≡ 0
  pub counter_stays :
      (b : String) (now d : Time) (r : R)
      → clock r ≤ℤ now
      → deadline b r ≡ some d
      → now ≤ℤ d
      → (processed b (at_time now r) ≡ processed b r) × (deadline b (at_time now r) ≡ some d)
  pub counter_expires :
      (b : String) (now d : Time) (r : R)
      → deadline b r ≡ some d
      → add_time d (pos 1000000) ≤ℤ now
      → processed b (at_time now r) ≡ 0
  pub incr_next :
      (b : String) (r : R)
      → ((ops.incr (batch_processed b) r).1 ≡ some (pos (suc (processed b r))))
        × (processed b (ops.incr (batch_processed b) r).0 ≡ suc (processed b r))
        × (completed (ops.incr (batch_processed b) r).0 ≡ completed r)
        × (deadline b (ops.incr (batch_processed b) r).0 ≡ deadline b r)
        × (clock (ops.incr (batch_processed b) r).0 ≡ clock r)
  pub expire_sets :
      (b : String) (n : ℕ) (r : R)
      → 0 < processed b r
      → (processed b (ops.expire (batch_processed b) (seconds (pos (suc n))) r) ≡ processed b r)
        × (completed (ops.expire (batch_processed b) (seconds (pos (suc n))) r) ≡ completed r)
        × (deadline b (ops.expire (batch_processed b) (seconds (pos (suc n))) r)
            ≡ some (add_time (clock r) (seconds (pos (suc n)))))
        × (clock (ops.expire (batch_processed b) (seconds (pos (suc n))) r) ≡ clock r)
  pub del_zero :
      (b : String) (r : R)
      → (processed b (ops.del (batch_processed b) r) ≡ 0)
        × (completed (ops.del (batch_processed b) r) ≡ completed r)
        × (clock (ops.del (batch_processed b) r) ≡ clock r)
  pub rpush_last :
      (b : String) (e : Entry) (r : R)
      → (processed b (ops.rpush completed_tasks e r).0 ≡ processed b r)
        × (completed (ops.rpush completed_tasks e r).0 ≡ completed r ++ e ∷ [])
        × (clock (ops.rpush completed_tasks e r).0 ≡ clock r)

-- Whether an entry announces a batch.
abbrev pub announces : String → Entry → ℕ
announces b (batch_completed i m) = if str_eq i b then 1 else 0
announces b (encoded t) = 0
announces b (bare i) = 0
announces b (assigned_to i) = 0
announces b (failure i k) = 0
announces b (stored_result r) = 0
announces b (task_completed i) = 0

abbrev pub count_announced : String → List Entry → ℕ
count_announced b [] = 0
count_announced b (e ∷ es) = announces b e + count_announced b es

pub count_announced-append :
    (b : String) (es fs : List Entry)
    → count_announced b (es ++ fs) ≡ count_announced b es + count_announced b fs
count_announced-append b [] fs = omega arith
count_announced-append b (e ∷ es) fs = omega (arith, count_announced-append b es fs)

abbrev pub IsOf : String → ℕ → TaskResult → Type 0
IsOf b n r = (r.batch_id ≡ b) × (r.batch_size ≡ pos n)

-- The results come in order, none after the time by which all of them are there.
abbrev pub InOrder : Time → Time → List (Time × TaskResult) → Type 0
InOrder last finish [] = Unit
InOrder last finish ((now, r) ∷ rs) = (last ≤ℤ now) × (now ≤ℤ finish) × InOrder now finish rs

abbrev pub last_time : Time → List (Time × TaskResult) → Time
last_time last [] = last
last_time last ((now, r) ∷ rs) = last_time now rs

-- The time to live of a counter in the default middleware.
abbrev pub two_hours : Duration
two_hours = seconds (pos 7200)

pub add_time_le : (a b : Time) (d : Duration) → a ≤ℤ b → add_time a d ≤ℤ add_time b d
add_time_le a b d h = omega (arith, +ℤ_parts a d, +ℤ_parts b d)

-- An expiry within two hours is over a millisecond after them.
past_two_hours :
    (a c late : Time)
    → a ≤ℤ add_time c two_hours
    → add_time c (pos 7200001000000) ≤ℤ late
    → add_time a (pos 1000000) ≤ℤ late
past_two_hours a c late h k =
    omega (arith, +ℤ_parts a (pos 1000000), +ℤ_parts c two_hours, +ℤ_parts c (pos 7200001000000))

pub le_trans : (a b c : ℤ) → a ≤ℤ b → b ≤ℤ c → a ≤ℤ c
le_trans a b c h k = omega arith

module _ {R : Type 0} (ops : RedisOps R) (laws : CounterLaws ops) (b : String) (finish : Time) where
  open laws use {
    processed, completed, deadline, clock, at_time, time_passes, none_stays, counter_stays,
    counter_expires,
  }

  -- The counter expires, at the end or later, but within two hours.
  pub record IsAlive (r : R) : Type 0 where
    pub until : Time
    pub expires : deadline b r ≡ some until
    pub lasts : finish ≤ℤ until
    pub ends : until ≤ℤ add_time (clock r) two_hours

  -- Nothing is counted, or the counter expires so.
  abbrev pub IsTimed : R → Type 0
  IsTimed r = (processed b r ≡ 0) ⊎ IsAlive r

  -- While the results come, time changes no counter.
  pub at_time-IsTimed :
      (now : Time) (r : R)
      → clock r ≤ℤ now
      → now ≤ℤ finish
      → IsTimed r
      → (processed b (at_time now r) ≡ processed b r) × IsTimed (at_time now r)
  at_time-IsTimed now r h k (inl e) = let gone = none_stays b now r e in (gone ∙ sym e, inl gone)
  at_time-IsTimed now r h k (inr a) =
      let (same, kept) = counter_stays b now a.until r h a.expires (omega (arith, a.lasts)) in
      (
        same,
        inr (record {
          until = a.until;
          expires = kept;
          lasts = a.lasts;
          ends = rw (time_passes now r h).0 (
              le_trans a.until (add_time (clock r) two_hours) (add_time now two_hours) a.ends
                (add_time_le (clock r) now two_hours h));
        }),
      )

  -- Two hours later no counter is left.
  pub at_time-gone :
      (late : Time) (r : R)
      → add_time (clock r) (pos 7200001000000) ≤ℤ late
      → IsTimed r
      → processed b (at_time late r) ≡ 0
  at_time-gone late r h (inl e) = none_stays b late r e
  at_time-gone late r h (inr a) =
      counter_expires b late a.until r a.expires (past_two_hours a.until (clock r) late a.ends h)
