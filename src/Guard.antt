-- ===== src/Guard.antt =====
-- ConcurrencyGuard of pkg/concurrency/guard.go: one task at a time. A goroutine that calls Execute runs two
-- sections under the mutex, each of them one step here, and the task between them.
pub mod Exclusion
use lan_file_share.Common.{
  ℕ, Bool, true, false, Option, none, some, ◌==◌, nat_eq, if◌then◌else◌, ◌≡◌,
}
use lan_file_share.Common.Text.{codes}
use lan_file_share.Errors.{Error, message}

pub record ConcurrencyGuard : Type 0 where
  pub is_busy : Bool

-- ErrBusy
abbrev pub err_busy : Error
err_busy = message (codes "system is busy")

-- The first section of Execute and of ExecuteWithContext: the guard is taken, or ErrBusy is returned.
unfoldable pub take_guard : ConcurrencyGuard → ConcurrencyGuard × Option Error
take_guard g = if g.is_busy then (g, some err_busy) else (record { is_busy = true }, none)

-- The deferred section, which runs also when the task panics or the context was done before it.
unfoldable pub release_guard : ConcurrencyGuard → ConcurrencyGuard
release_guard g = record { is_busy = false }

-- Where a goroutine is: outside the guard, at its task, or between the task and the deferred section.
pub data Phase : Type 0 where
  outside working leaving : Phase

-- The guard and the goroutines that use it.
pub record Goroutines : Type 0 where
  pub guard : ConcurrencyGuard
  pub phase : ℕ → Phase

abbrev pub go_to : (ℕ → Phase) → ℕ → Phase → ℕ → Phase
go_to phase i p j = if i == j then p else phase j

-- One goroutine runs a section or ends its task.
pub data Step : Goroutines → Goroutines → Type 0 where
  taken :
      {s : Goroutines} {g : ConcurrencyGuard}
      → (i : ℕ) → s.phase i ≡ outside
      → take_guard s.guard ≡ (g, none)
      → Step s (record { guard = g; phase = go_to s.phase i working })
  refused :
      {s : Goroutines} {g : ConcurrencyGuard} {e : Error}
      → (i : ℕ) → s.phase i ≡ outside
      → take_guard s.guard ≡ (g, some e)
      → Step s (record { guard = g; phase = s.phase })
  task_over :
      {s : Goroutines}
      → (i : ℕ) → s.phase i ≡ working
      → Step s (record s { phase = go_to s.phase i leaving })
  released :
      {s : Goroutines}
      → (i : ℕ) → s.phase i ≡ leaving
      → Step s (record { guard = release_guard s.guard; phase = go_to s.phase i outside })

-- The states that a new guard comes to.
pub data Reaches : Goroutines → Type 0 where
  begin : Reaches (record { guard = record { is_busy = false }; phase = λ i. outside })
  next : {s s' : Goroutines} → Reaches s → Step s s' → Reaches s'
