-- ===== src/Diag/Examples.antt =====
-- Diagnostics on which the theorems apply.
use omphalos.Base.{ℕ, ◌≡◌, refl, arith, Bool, true, false, ◌==◌, [], ◌∷◌, none, some, replicate}
use omphalos.Diag.{Logent, Logs, add_log, get_logs, previous}
use omphalos.Diag.History.{initial, add_all, get_logs-last}
use omphalos.Diag.Locked.{get_logs-deadlocks}

abbrev entry : ℕ → Logent
entry n = record { msg = n ∷ []; when = n }

get_logs-last_example :
    (l : Logs) × (add_all (entry 1 ∷ entry 2 ∷ entry 3 ∷ []) initial ≡ some l)
    × (get_logs (λ _. true) 2 l ≡ some (l, some (entry 3 ∷ entry 2 ∷ [])))
get_logs-last_example =
    get_logs-last (entry 1 ∷ entry 2 ∷ entry 3 ∷ []) 2 (omega arith) (omega arith)

abbrev two_entries : Logs
two_entries = record {
  rblast = 1;
  logs = some (entry 1) ∷ some (entry 2) ∷ replicate 1022 none;
  locked = false;
}

-- There is memory for the first copy only.
abbrev one_copy : ℕ → Bool
one_copy idx = idx == 0

get_logs-deadlocks_example :
    (l' : Logs) × (get_logs one_copy 5 two_entries ≡ some (l', none))
    × (add_log true (entry 2) l' ≡ none)
    × (get_logs (λ _. true) 5 l' ≡ none)
unfolding previous
get_logs-deadlocks_example =
    get_logs-deadlocks two_entries one_copy 5 1 (λ _. true) 5 true (entry 2) refl (omega arith) refl
      refl ((entry 2, refl), (entry 1, refl)) refl
