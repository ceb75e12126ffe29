-- ===== src/Diag/History.antt =====
-- The diagnostics of src/omphalos/diag.c from the start of the program on.
use omphalos.Base.{
  ℕ, zero, suc, ◌<◌, ◌≤◌, ◌≡◌, refl, arith, true, false, List, [], ◌∷◌, take, get_or,
  length-replicate, replicate, Option, none, some,
}
use omphalos.Diag
use omphalos.Diag.Ring.{Shows, Holds, add_log-Holds, get_logs-take}

-- The ring at the start of the program.
abbrev pub initial : Diag.Logs
initial = record { rblast = 0; logs = replicate Diag.maximum_log_entries none; locked = false }

unwritten : (n r : ℕ) → get_or (replicate {A = Option Diag.Logent} n none) r none ≡ none
unwritten zero r = refl
unwritten (suc n) zero = refl
unwritten (suc n) (suc r) = unwritten n r

Shows-unwritten : (n size k r : ℕ) → Shows (replicate n none) size k r []
Shows-unwritten n size zero r = tt
Shows-unwritten n size (suc k) r = (unwritten n r, Shows-unwritten n size k (Diag.previous size r))

initial-Holds : Holds initial []
initial-Holds = record {
  size = length-replicate {A = Option Diag.Logent} 1024 none;
  last = omega arith;
  free = refl;
  shows = Shows-unwritten 1024 1024 1024 0;
}

-- One diagnostic behind the other, with memory for each.
abbrev pub add_all : List Diag.Logent → Diag.Logs → Option Diag.Logs
add_all [] l = some l
add_all (e ∷ es) l = elim (Diag.add_log true e l) [ none ↦ none | some l ↦ add_all es l ]

abbrev pub reversed_onto : List Diag.Logent → List Diag.Logent → List Diag.Logent
reversed_onto [] added = added
reversed_onto (e ∷ es) added = reversed_onto es (e ∷ added)

add_all-Holds :
    (es added : List Diag.Logent) (l : Diag.Logs)
    → Holds l added
    → (l' : Diag.Logs) × (add_all es l ≡ some l') × Holds l' (reversed_onto es added)
add_all-Holds [] added l h = (l, refl, h)
add_all-Holds (e ∷ es) added l h =
    let one = add_log-Holds l added h e in
    let rest = add_all-Holds es (e ∷ added) one.0 one.2 in
    (rest.0, rw (add_all, one.1) rest.1, rest.2)

-- Where memory can be allocated: after any diagnostics since the start of the program, `get_logs` of a
-- number from 1 to 1024 copies that many of the last of them, or all where there are fewer, the last
-- first.
pub get_logs-last :
    (es : List Diag.Logent) (n : ℕ)
    → 0 < n
    → n ≤ 1024
    → (l : Diag.Logs) × (add_all es initial ≡ some l)
      × (Diag.get_logs (λ _. true) n l ≡ some (l, some (take n (reversed_onto es []))))
get_logs-last es n positive few =
    let all = add_all-Holds es [] initial initial-Holds in
    (all.0, all.1, get_logs-take all.0 (reversed_onto es []) all.2 n positive few)
