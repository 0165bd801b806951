-- ===== src/Health/Threads/Moves.antt =====
-- A move of thread `i` keeps each field of the invariant.
use argo_workflows_exporter.Base.{ℕ, ◌≡◌, refl, subst, true, false, arith}
use argo_workflows_exporter.Health.{HealthState, reset, record_success, snapshot}
use argo_workflows_exporter.Health.Threads.{
  Memory, Pc, ask_read, Move, call_record, lock_record, lock_reset, lock_snapshot, unlock_snapshot,
  System, update, Step, pick, Reach, here, later, replay, IsSequential,
}
use argo_workflows_exporter.Health.Threads.Inv.{
  critical, Settled, Owned, Listed, Inv, at_rest-Inv, snapshot_of-fields, snapshot-verdict,
  replay-limit,
}

-- the premise of a move into the lock
abbrev Guard : {limit : ℕ} {m m' : Memory} {p p' : Pc} → Move limit m p m' p' → Type 0
Guard {m} (lock_record e) = m.locked ≡ false
Guard {m} (lock_reset e) = m.locked ≡ false
Guard {m} (lock_snapshot e) = m.locked ≡ false
Guard _ = Unit {0}

guard : {limit : ℕ} {m m' : Memory} {p p' : Pc} (mv : Move limit m p m' p') → Guard mv
guard (lock_record e) = e
guard (lock_reset e) = e
guard (lock_snapshot e) = e
guard _ = tt

module _ {start : HealthState} {m : Memory} {pc : ℕ → Pc}
    (inv : Inv start (record { mem = m; pc = pc })) (i : ℕ) where
  open inv use {exclusive, free, settled, owned, listed, sequential}

  abbrev limit : ℕ
  limit = start.stale_after_seconds

  Move-exclusive :
      {p p' : Pc} {m' : Memory}
      → Move limit m p m' p'
      → pc i ≡ p
      → (a b : ℕ) → critical (update pc i p' a) ≡ true
      → critical (update pc i p' b) ≡ true
      → a ≡ b
  Move-exclusive (call_record now) e a b qa qb = ground (arith, exclusive a b)
  Move-exclusive mv e a b qa qb =
      ground (arith, guard mv, exclusive a b, exclusive i a, exclusive i b, free a, free b)

  Move-free :
      {p p' : Pc} {m' : Memory}
      → Move limit m p m' p'
      → pc i ≡ p
      → (j : ℕ) → m'.locked ≡ false
      → critical (update pc i p' j) ≡ false
  Move-free (call_record now) e j l = ground (arith, free j)
  Move-free mv e j l = ground (arith, guard mv, free j, exclusive i j)

  Move-Settled :
      {p p' : Pc} {m' : Memory}
      → Move limit m p m' p'
      → pc i ≡ p
      → m'.locked ≡ false
      → Settled m' (replay start m'.calls)
  unfolding reset record_success snapshot
  Move-Settled (call_record now) e l = settled l
  Move-Settled (unlock_snapshot {now} {last} {wall}) e l =
      let s = replay start m.calls in
      let (f, g, h) = snapshot_of-fields now s s.last_success in ground (arith, owned i)
  Move-Settled mv e l = ground (arith, guard mv, settled, owned i, free i)

  Move-Owned :
      {p p' : Pc} {m' : Memory}
      → Move limit m p m' p'
      → pc i ≡ p
      → (j : ℕ) → Owned m' (replay start m'.calls) (update pc i p' j)
  unfolding reset record_success snapshot
  Move-Owned (call_record now) e j = ground (arith, owned j)
  Move-Owned mv e j =
      ground (arith, guard mv, settled, owned i, owned j, free i, free j, exclusive i j)

  Move-Listed :
      {p p' : Pc} {m' : Memory}
      → Move limit m p m' p'
      → pc i ≡ p
      → (j : ℕ) → Listed limit m'.calls (update pc i p' j)
  Move-Listed (call_record now) e j = ground (arith, listed j)
  Move-Listed mv e j = ground (arith, listed i, listed j)

  Move-IsSequential :
      {p p' : Pc} {m' : Memory} → Move limit m p m' p' → pc i ≡ p → IsSequential start m'.calls
  Move-IsSequential (unlock_snapshot {now} {last} {wall}) e =
      let s = replay start m.calls in
      let known : Owned m s (ask_read now last wall) = subst (Owned m s) e (owned i) in
      (cc (known.1, known.2, replay-limit start m.calls, snapshot-verdict now s), sequential)
  Move-IsSequential (call_record now) e = sequential
  Move-IsSequential mv e = sequential

  Move-Inv :
      {p' : Pc} {m' : Memory}
      → Move limit m (pc i) m' p'
      → Inv start (record { mem = m'; pc = update pc i p' })
  Move-Inv mv = record {
    exclusive = Move-exclusive mv refl;
    free = Move-free mv refl;
    settled = Move-Settled mv refl;
    owned = Move-Owned mv refl;
    listed = Move-Listed mv refl;
    sequential = Move-IsSequential mv refl;
  }

pub Step-Inv :
    {start : HealthState} {s t : System}
    → Step start.stale_after_seconds s t
    → Inv start s
    → Inv start t
Step-Inv (pick i mv) inv = Move-Inv inv i mv

pub Reach-Inv : {start : HealthState} {s : System} → Reach start s → Inv start s
Reach-Inv {start} here = at_rest-Inv start
Reach-Inv (later r step) = Step-Inv step (Reach-Inv r)
