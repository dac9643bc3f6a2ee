-- ===== src/Schedule/Jobs.antt =====
-- crawler/task/scheduler.go: lemmas on the cron jobs of the schedules in a table.
use mathlib.Core.Option.{some-injective}
use mathlib.Core.Path.{subst}
use go_backend_kit.Common.{
  ℕ, String, false, Bool-cases, Option-cases, inl, inr, ◌≡◌, ◌≢◌, refl, sym, ◌∙◌, ap, none, some,
  Time, Dict, get, put, delete, get-put, get-delete, string_key, str_eq, eq_iff, arith,
}
use go_backend_kit.Task.{entry}
use go_backend_kit.Schedule.Types.{Schedule, Scheduler, World, CronLaws, Answer, entry_of}
use go_backend_kit.Schedule.Rules.{set_entry, drop_entry, switch_off, remove_job}
use go_backend_kit.Schedule.Engine.{store, wire}

module _ {C Q : Type 0} (w : World C Q) (laws : CronLaws w.cron_ops) where
  -- The number that a schedule keeps, if it keeps one, is that of a job for the schedule.
  abbrev pub HasJob : String → Schedule → C → Type 0
  HasJob id sch c = (sch.id ≡ id) × ((n : ℕ) → entry_of sch ≡ some n → laws.job n c ≡ some id)

  abbrev pub AllHaveJobs : Dict String Schedule → C → Type 0
  AllHaveJobs m c = (id : String) (sch : Schedule) → get id m ≡ some sch → HasJob id sch c

  -- No job of another schedule is lost.
  abbrev pub KeepsOthers : String → C → C → Type 0
  KeepsOthers key c c' =
      (n : ℕ) (id : String) → id ≢ key → laws.job n c ≡ some id → laws.job n c' ≡ some id

  pub put-AllHaveJobs :
      (key : String) (sch : Schedule) (m : Dict String Schedule) (c c' : C)
      → AllHaveJobs m c
      → KeepsOthers key c c'
      → HasJob key sch c'
      → AllHaveJobs (put key sch m) c'
  put-AllHaveJobs key sch m c c' h keep new id x e = elim (Bool-cases (str_eq key id)) [
    | inl b ↦
        let same : sch ≡ x = some-injective _ _ (rw b at (sym (get-put id key sch m) ∙ e)) in
        subst (λ y. HasJob id y c') same (subst (λ i. HasJob i sch c') ((eq_iff key id).0 b) new)
    | inr b ↦
        let old = h id x (rw b at (sym (get-put id key sch m) ∙ e)) in
        (old.0, λ n f. keep n id (λ same. ground (arith, eq_iff key id)) (old.1 n f))
  ]

  pub delete-AllHaveJobs :
      (key : String) (m : Dict String Schedule) (c c' : C)
      → AllHaveJobs m c
      → KeepsOthers key c c'
      → AllHaveJobs (delete key m) c'
  delete-AllHaveJobs key m c c' h keep id x e = elim (Bool-cases (str_eq key id)) [
    | inl b ↦ ground (arith, rw b at (get-delete id key m))
    | inr b ↦
        let old = h id x (rw b at (sym (get-delete id key m) ∙ e)) in
        (old.0, λ n f. keep n id (λ same. ground (arith, eq_iff key id)) (old.1 n f))
  ]

  pub add_func-keeps :
      (expression id : String) (c : C) (n : ℕ) (c' : C)
      → w.cron_ops.add_func expression id c ≡ some (n, c')
      → (m : ℕ) (j : String) → laws.job m c ≡ some j
      → laws.job m c' ≡ some j
  add_func-keeps expression id c n c' e m j f =
      let (fresh, only) = laws.add_func_fresh expression id c n c' e in ground (arith, only m)

  pub remove_job-KeepsOthers :
      (key : String) (sch : Schedule) (c : C)
      → HasJob key sch c
      → KeepsOthers key c (remove_job w.cron_ops sch c)
  unfolding remove_job
  remove_job-KeepsOthers key sch c h m j ne f = elim (Option-cases (entry_of sch)) [
    | inl e ↦ rw (e, remove_job) f
    | inr (n, e) ↦ rw (e, remove_job) (ground (arith, laws.remove_only n m c, h.1 n e))
  ]

  pub set_entry_lem :
      (n : ℕ) (sch sch' : Schedule)
      → set_entry n sch ≡ some sch'
      → (sch'.id ≡ sch.id) × (entry_of sch' ≡ some n)
  unfolding set_entry entry_of
  set_entry_lem n sch sch' e = elim (Option-cases sch.metadata) [
    | inl f ↦ ground (arith, f)
    | inr (m, f) ↦ ground (arith, f, get-put "cron_entry_id" "cron_entry_id" (entry n) m)
  ]

  pub drop_entry_lem :
      (sch : Schedule) → ((drop_entry sch).id ≡ sch.id) × (entry_of (drop_entry sch) ≡ none)
  unfolding drop_entry entry_of
  drop_entry_lem sch = elim (Option-cases sch.metadata) [
    | inl f ↦ ground (arith, f)
    | inr (m, f) ↦ ground (arith, f, get-delete "cron_entry_id" "cron_entry_id" m)
  ]

  entry_of-off :
      (now : Time) (sch : Schedule)
      → entry_of (record sch { enabled = false; updated_at = now }) ≡ entry_of sch
  unfolding entry_of
  entry_of-off now sch = refl

  pub switch_off_lem :
      (now : Time) (sch : Schedule)
      → ((switch_off now sch).id ≡ sch.id) × (entry_of (switch_off now sch) ≡ none)
  unfolding switch_off
  switch_off_lem now sch = elim (Option-cases (entry_of sch)) [
    | inl e ↦ rw (e, switch_off) (refl, entry_of-off now sch ∙ e)
    | inr (n, e) ↦
        rw (e, switch_off) (drop_entry_lem (record sch { enabled = false; updated_at = now }))
  ]

  abbrev pub IsWired : Scheduler C Q → Type 0
  IsWired s = AllHaveJobs s.schedules s.cron_jobs

  pub grow-AllHaveJobs :
      (m : Dict String Schedule) (c : C) (expression id : String) (n : ℕ) (c' : C)
      → w.cron_ops.add_func expression id c ≡ some (n, c')
      → AllHaveJobs m c
      → AllHaveJobs m c'
  grow-AllHaveJobs m c expression id n c' e h i x f =
      ((h i x f).0, λ k g. add_func-keeps expression id c n c' e k i ((h i x f).1 k g))

  pub wire-IsWired :
      (key : String) (sch : Schedule) (unwired : Scheduler C Q × Answer) (s : Scheduler C Q)
      → sch.id ≡ key
      → IsWired s
      → (unwired.0.cron_jobs ≡ s.cron_jobs)
      → IsWired unwired.0
      → IsWired (wire w.cron_ops key sch unwired s).0
  unfolding wire store
  wire-IsWired key sch unwired s named h same u =
      elim (Option-cases (w.cron_ops.add_func sch.expression sch.id s.cron_jobs)) [
        | inl e ↦ rw (e, wire) u
        | inr ((n, c), e) ↦ elim (Option-cases (set_entry n sch)) [
          | inl f ↦
              rw (e, f, wire)
                (grow-AllHaveJobs unwired.0.schedules unwired.0.cron_jobs sch.expression sch.id n c
                  (ap (w.cron_ops.add_func sch.expression sch.id) same ∙ e) u)
          | inr (sch', f) ↦
              let (kept, has) = set_entry_lem n sch sch' f in
              rw (e, f, wire)
                (put-AllHaveJobs key sch' s.schedules s.cron_jobs c h
                  (λ m j ne g. add_func-keeps sch.expression sch.id s.cron_jobs n c e m j g)
                  (
                    kept ∙ named,
                    λ m g.
                        ground (
                          arith,
                          (laws.add_func_fresh sch.expression sch.id s.cron_jobs n c e).1 m,
                        ),
                  ))
        ]
      ]
