-- ===== src/Tracker/Durable.antt =====
-- internal/riskstate/tracker.go: what a restart reads back from the repository.
use mathlib.Core.Path.{subst}
use cyp_agent.Base.{
  ap, some_eq, none_apart, Dict, trim_space, lookup, insert, lookup-insert_self, ℕ, ◌≡◌, ◌⊎◌, refl,
  sym, ◌∙◌, inl, inr, Bool, true, false, Option, none, some, List, if◌then◌else◌, Text, All,
  Bool-cases,
}
use cyp_agent.Decimal.{Decimal, is_positive}
use cyp_agent.Tracker.{PersistedState, Checkpoint, Repository}
use cyp_agent.Tracker.Record.{commit, persist_locked}
use cyp_agent.Tracker.Restore.{
  normalize_scope, step_of, raw_checkpoint, tracker, start_from, new_scoped,
}
use cyp_agent.Tracker.Calls.{Call, Reports, Setting, run_calls}
use cyp_agent.Tracker.Kept.{run_calls-kept, run_calls-state}
use cyp_agent.Persistence.File.{mutate}
use cyp_agent.Persistence.Plain.{mutate_refused, mutate_saved}
use cyp_agent.Orders.Journal.{is_blank}
use cyp_agent.Tracker.Json.{
  read_back, read_back_same, save_step, found_step, file_checkpoints, IsPrintableState,
}
use cyp_agent.Tracker.Steady.{
  IsPositive, IsSteady, change-IsSteady, restored_steady, not_positive_apart, load_failed_apart,
  restored-IsSteady,
}

module _ (store : Repository) where
  open store use {Disk, save_checkpoint, load_checkpoints}

  -- What the tracker relies on: a save that succeeds under a step without spaces around it is what is
  -- loaded there, as JSON reads it back, and a save that fails changes nothing that is loaded.
  pub record IsReliable : Type 0 where
    pub saved :
        (disk : Disk) (step : Text) (s : PersistedState)
        → trim_space step ≡ step
        → (save_checkpoint disk step s).0 ≡ true
        → (found : Text → Checkpoint) × ((load_checkpoints (save_checkpoint disk step s).1
              ≡ some found)
            × (found step ≡ read_back s))
    pub failed :
        (disk : Disk) (step : Text) (s : PersistedState)
        → (save_checkpoint disk step s).0 ≡ false
        → load_checkpoints (save_checkpoint disk step s).1 ≡ load_checkpoints disk

  -- The checkpoint of a step is the given state, as JSON reads it back.
  Stores : Text → Disk → PersistedState → Type 0
  Stores step disk s =
      (found : Text → Checkpoint) × ((load_checkpoints disk ≡ some found)
        × (found step ≡ read_back s))

  -- What is saved is the state, or nothing was saved since the state and the disk were these.
  IsRemembered : Text → PersistedState → Disk → PersistedState → Disk → Type 0
  IsRemembered step s₀ disk₀ s disk =
      Stores step disk s ⊎ ((s ≡ s₀) × (load_checkpoints disk ≡ load_checkpoints disk₀))

  commit-IsRemembered :
      (step : Text) (s₀ s t : PersistedState) (disk₀ disk : Disk)
      → IsReliable
      → trim_space step ≡ step
      → IsRemembered step s₀ disk₀ s disk
      → let r = commit store true step disk s t in IsRemembered step s₀ disk₀ r.1 r.2
  unfolding commit persist_locked IsRemembered Stores
  commit-IsRemembered step s₀ s t disk₀ disk reliable trimmed r =
      by_save (save_checkpoint disk step t).0 refl
    where
      disk' : Disk
      disk' = (save_checkpoint disk step t).1

      by_save :
          (ok : Bool)
          → (save_checkpoint disk step t).0 ≡ ok
          → IsRemembered step s₀ disk₀ (if ok then t else s) disk'
      by_save true e = inl (reliable.saved disk step t trimmed e)
      by_save false e =
          let same = reliable.failed disk step t e in
          elim r [
            | inl (found, (loads, finds)) ↦ inl (found, (same ∙ loads, finds))
            | inr (kept, loads) ↦ inr (kept, same ∙ loads)
          ]

  -- A steady state that is saved is the one that a new tracker starts with.
  new_scoped-Stores :
      (lower : ℕ → ℕ) (initial : Decimal) (scope : Text) (now : ℕ) (disk : Disk)
      (s : PersistedState)
      → IsPositive initial
      → IsSteady s
      → IsPrintableState s
      → Stores (step_of (normalize_scope lower scope)) disk s
      → new_scoped store lower true initial scope now disk
        ≡ tracker (step_of (normalize_scope lower scope)) s
  unfolding new_scoped start_from raw_checkpoint Stores
  new_scoped-Stores lower initial scope now disk s p v w (found, (loads, finds)) =
      rw (p, loads, finds, read_back_same s w)
        (restored_steady (step_of (normalize_scope lower scope)) initial now s v)

  -- A tracker starts in a steady state.
  new_scoped-IsSteady :
      (lower : ℕ → ℕ) (initial : Decimal) (scope step : Text) (now : ℕ) (disk : Disk)
      (s : PersistedState)
      → new_scoped store lower true initial scope now disk ≡ tracker step s
      → (IsPositive initial × (step ≡ step_of (normalize_scope lower scope))) × IsSteady s
  unfolding new_scoped start_from
  new_scoped-IsSteady lower initial scope step now disk s h =
      elim (Bool-cases (is_positive initial)) [
        | inr no_equity ↦ absurd (not_positive_apart step s (rw no_equity at h))
        | inl p ↦ by_load p (load_checkpoints disk) (rw p at h)
      ]
    where
      by_load :
          IsPositive initial
          → (o : Option (Text → Checkpoint))
          → start_from (normalize_scope lower scope) initial now o ≡ tracker step s
          → (IsPositive initial × (step ≡ step_of (normalize_scope lower scope))) × IsSteady s
      by_load p none h = absurd (load_failed_apart step s h)
      by_load p (some found) h =
          let started =
            restored-IsSteady (step_of (normalize_scope lower scope)) step initial now
              (raw_checkpoint (normalize_scope lower scope) found) s p h in
          ((p, started.0), started.1)

  run_calls-restored :
      (lower : ℕ → ℕ) (initial : Decimal) (scope : Text) (setting : Setting) (now : ℕ) (disk : Disk)
      (s : PersistedState) (calls : List Call)
      → IsReliable
      → setting.has_repository ≡ true
      → new_scoped store lower true initial scope now disk ≡ tracker setting.step s
      → trim_space setting.step ≡ setting.step
      → All (Reports IsPositive) calls
      → IsPrintableState (run_calls store setting calls s disk).0
      → let r = run_calls store setting calls s disk in
        ((later : ℕ)
          → new_scoped store lower true initial scope later r.1 ≡ tracker setting.step r.0)
        ⊎ ((r.0 ≡ s) × (load_checkpoints r.1 ≡ load_checkpoints disk))
  unfolding IsRemembered
  run_calls-restored lower initial scope setting now disk s calls reliable has start trimmed q
        printable =
      let ((p, step), steady) =
        new_scoped-IsSteady lower initial scope setting.step now disk s start in
      let r = run_calls store setting calls s disk in
      let still =
        run_calls-state store setting IsPositive IsSteady (change-IsSteady setting) calls s disk q
          steady in
      let remembered : IsRemembered setting.step s disk r.0 r.1 =
        run_calls-kept store setting IsPositive (IsRemembered setting.step s disk)
          (λ a b d c m. rw has (commit-IsRemembered setting.step s a b disk d reliable trimmed m))
          calls s disk q (inr (refl, refl)) in
      elim remembered [
        | inr kept ↦ inr kept
        | inl stores ↦ inl (λ later.
            subst (λ t. new_scoped store lower true initial scope later r.1 ≡ tracker t r.0)
              (sym step)
              (new_scoped-Stores lower initial scope later r.1 r.0 p still printable
                (subst (λ t. Stores t r.1 r.0) step stores)))
      ]

-- What a save adds to the steps.
save_step_lem :
    (step : Text) (s : PersistedState) (steps next : Dict PersistedState)
    → trim_space step ≡ step
    → save_step step s steps ≡ some next
    → lookup step next ≡ some s
unfolding save_step
save_step_lem step s steps next trimmed h = elim (Bool-cases (is_blank step)) [
  | inl blank ↦ absurd (none_apart next (rw blank at h))
  | inr named ↦
      let same = some_eq (insert (trim_space step) s steps) next (rw named at h) in
      subst (λ m. lookup step m ≡ some s) same (rw trimmed (lookup-insert_self step s steps))
]

-- The file is such a repository.
file_checkpoints-IsReliable : IsReliable file_checkpoints
file_checkpoints-IsReliable = record {
  saved = λ disk step s trimmed ok. (
    λ k. found_step (lookup k (mutate (save_step step s disk.1) disk).1.1),
    (
      refl,
      ap found_step (
          save_step_lem step s disk.1 (mutate (save_step step s disk.1) disk).1.1 trimmed
            (mutate_saved (save_step step s disk.1) disk ok)),
    ),
  );
  failed = λ disk step s no.
      ap (λ steps. some (λ k. found_step (lookup k steps)))
        (mutate_refused (save_step step s disk.1) disk no);
}

-- A tracker on the file of the repository, whose step has no spaces around it, is started, makes any
-- calls whose reported equities are positive, and ends in a state whose decimals can be printed and
-- read again. Started again at any later time with the same equity and scope, it has the state that
-- it had in memory; or this state is the one at the start and what is loaded is what was loaded
-- then.
pub run_calls-restarts :
    (lower : ℕ → ℕ) (initial : Decimal) (scope : Text) (setting : Setting) (now : ℕ)
    (disk : file_checkpoints.Disk) (s : PersistedState) (calls : List Call)
    → setting.has_repository ≡ true
    → new_scoped file_checkpoints lower true initial scope now disk ≡ tracker setting.step s
    → trim_space setting.step ≡ setting.step
    → All (Reports IsPositive) calls
    → IsPrintableState (run_calls file_checkpoints setting calls s disk).0
    → let r = run_calls file_checkpoints setting calls s disk in
      ((later : ℕ)
        → new_scoped file_checkpoints lower true initial scope later r.1 ≡ tracker setting.step r.0)
      ⊎ ((r.0 ≡ s)
          × (file_checkpoints.load_checkpoints r.1 ≡ file_checkpoints.load_checkpoints disk))
run_calls-restarts lower initial scope setting now disk s calls =
    run_calls-restored file_checkpoints lower initial scope setting now disk s calls
      file_checkpoints-IsReliable
