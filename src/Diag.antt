-- ===== src/Diag.antt =====
-- src/omphalos/diag.c: the ring of the last diagnostics. Messages stand for the formatted text; whether
-- memory is there is an argument. The mutex is part of the state: locking it while it is held blocks
-- for ever, which is `none`.
pub mod Ring
pub mod History
pub mod Locked
mod Examples
use omphalos.Base.{
  ℕ, zero, suc, ◌+◌, ◌-◌, Bool, true, false, ◌||◌, ltb, ◌==◌, if◌then◌else◌, List, [], ◌∷◌, length,
  set, get_or, Option, none, some,
}

pub record Logent : Type 0 where
  pub msg : List ℕ
  pub when : ℕ

-- A null message is an entry that was never written.
pub record Logs : Type 0 where
  pub rblast : ℕ
  pub logs : List (Option Logent)
  pub locked : Bool

abbrev pub maximum_log_entries : ℕ
maximum_log_entries = 1024

pub lock : Logs → Option Logs
lock l = if l.locked then none else some (record l { locked = true })

abbrev pub unlock : Logs → Logs
unlock l = record l { locked = false }

pub next_entry : Logs → ℕ
next_entry l = if l.rblast + 1 == length l.logs then 0 else l.rblast + 1

-- `allocated` says whether `malloc` gives memory: if not, the entry keeps what it has, but is the last.
pub add_log : Bool → Logent → Logs → Option Logs
add_log allocated entry l = elim (lock l) [
  | none ↦ none
  | some l ↦
      let rb = next_entry l in
      some (
        unlock (
          if allocated
          then record l { rblast = rb; logs = set l.logs rb (some entry) }
          else record l { rblast = rb }))
]

-- `if(rb-- == 0){ rb = sizeof(logs) / sizeof(*logs) - 1; }`
pub previous : ℕ → ℕ → ℕ
previous size rb = if rb == 0 then size - 1 else rb - 1

-- The loop, with room for `left` more entries, from the entry `rb` on; `strdup` says for which copies
-- there is memory. Nothing is what comes of a copy that fails.
pub copy_logs : (ℕ → Bool) → ℕ → ℕ → ℕ → List (Option Logent) → Option (List Logent)
copy_logs strdup zero idx rb logs = some []
copy_logs strdup (suc left) idx rb logs =
    let rest = copy_logs strdup left (idx + 1) (previous (length logs) rb) logs in
    elim (get_or logs rb none) [
      | none ↦ some []
      | some entry ↦
          if strdup idx
          then elim rest [ none ↦ none | some entries ↦ some (entry ∷ entries) ]
          else none
    ]

-- The entries copied, or nothing for -1. Where a copy fails, the mutex is not unlocked.
pub get_logs : (ℕ → Bool) → ℕ → Logs → Option (Logs × Option (List Logent))
get_logs strdup n l =
    if (n == 0) || ltb maximum_log_entries n then some (l, none) else elim (lock l) [
      | none ↦ none
      | some l ↦ elim (copy_logs strdup n 0 l.rblast l.logs) [
        | none ↦ some (l, none)
        | some entries ↦ some (unlock l, some entries)
      ]
    ]
