-- ===== src/Diag/Locked.antt =====
-- When a message cannot be copied, `get_logs` of src/omphalos/diag.c returns with the mutex locked.
use omphalos.Base.{
  ℕ, suc, zero, ◌<◌, ◌≡◌, refl, arith, Bool, true, false, ◌||◌, ltb, ◌==◌, get_or, none, some, ◌+◌,
  List, Option, length, inl, inr, Bool-cases,
}
use omphalos.Diag

-- A number of entries that is accepted.
abbrev pub IsWanted : ℕ → Type 0
IsWanted n = ((n == 0) || ltb Diag.maximum_log_entries n) ≡ false

module _ (l : Diag.Logs) where
  lock-held : l.locked ≡ true → Diag.lock l ≡ none
  unfolding Diag.lock
  lock-held held = rw held refl

  -- Nothing is done to diagnostics while the mutex is held.
  add_log-blocks :
      l.locked ≡ true → (allocated : Bool) (e : Diag.Logent) → Diag.add_log allocated e l ≡ none
  unfolding Diag.add_log
  add_log-blocks held allocated e = rw (Diag.add_log, lock-held held) refl

  get_logs-blocks :
      l.locked ≡ true → (strdup : ℕ → Bool) (n : ℕ) → IsWanted n → Diag.get_logs strdup n l ≡ none
  unfolding Diag.get_logs
  get_logs-blocks held strdup n wanted = rw (Diag.get_logs, wanted, lock-held held) refl

-- Entries at the place `rb` and the `k` places before it in the ring.
abbrev pub AreThere : List (Option Diag.Logent) → ℕ → ℕ → Type 0
AreThere logs rb zero = (e : Diag.Logent) × (get_or logs rb none ≡ some e)
AreThere logs rb (suc k) =
    ((e : Diag.Logent) × (get_or logs rb none ≡ some e))
    × AreThere logs (Diag.previous (length logs) rb) k

module _ (strdup : ℕ → Bool) (logs : List (Option Diag.Logent)) where
  copy_logs-fails :
      (left idx rb k : ℕ)
      → k < left
      → AreThere logs rb k
      → strdup (idx + k) ≡ false
      → Diag.copy_logs strdup left idx rb logs ≡ none
  unfolding Diag.copy_logs
  copy_logs-fails zero idx rb k before there no_memory = absurd (omega arith)
  copy_logs-fails (suc left) idx rb zero before (e, there) no_memory =
      let here : idx + 0 ≡ idx = omega arith in
      rw (Diag.copy_logs, there, rw here at no_memory) refl
  copy_logs-fails (suc left) idx rb (suc k) before ((e, there), others) no_memory =
      let further : idx + suc k ≡ idx + 1 + k = omega arith in
      let rest =
        copy_logs-fails left (idx + 1) (Diag.previous (length logs) rb) k (omega arith) others
          (rw further at no_memory) in
      elim (Bool-cases (strdup idx)) [
        | inl copied ↦ rw (Diag.copy_logs, there, copied, rest) refl
        | inr failed ↦ rw (Diag.copy_logs, there, failed) refl
      ]

module _ (l : Diag.Logs) (strdup : ℕ → Bool) (n k : ℕ) where
  lock-free : l.locked ≡ false → Diag.lock l ≡ some (record l { locked = true })
  unfolding Diag.lock
  lock-free free = rw free refl

  -- Where there is an entry at the place of each of the first copies, and no memory for one of them:
  -- `get_logs` of an accepted number that is to make this copy fails, and then every later call that
  -- adds a diagnostic or copies them blocks for ever.
  pub get_logs-deadlocks :
      (later : ℕ → Bool) (m : ℕ) (allocated : Bool) (d : Diag.Logent)
      → l.locked ≡ false
      → k < n
      → IsWanted n
      → IsWanted m
      → AreThere l.logs l.rblast k
      → strdup k ≡ false
      → (l' : Diag.Logs) × (Diag.get_logs strdup n l ≡ some (l', none))
        × (Diag.add_log allocated d l' ≡ none)
        × (Diag.get_logs later m l' ≡ none)
  unfolding Diag.get_logs
  get_logs-deadlocks later m allocated d free before wanted wanted' there no_memory =
      let l' : Diag.Logs = record l { locked = true } in
      let copy : 0 + k ≡ k = omega arith in
      let fails = copy_logs-fails strdup l.logs n 0 l.rblast k before there (rw copy no_memory) in
      (
        l',
        rw (Diag.get_logs, wanted, lock-free free, fails) refl,
        add_log-blocks l' refl allocated d,
        get_logs-blocks l' refl later m wanted',
      )
