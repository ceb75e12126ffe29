-- ===== src/Diag/Ring.antt =====
-- The ring of src/omphalos/diag.c keeps the last diagnostics: `get_logs` gives the last of all that
-- were added.
use omphalos.Base.{
  ℕ, zero, suc, ◌+◌, ◌<◌, ◌≤◌, ◌≡◌, ◌≢◌, ◌⊎◌, inl, inr, refl, ap, ◌∙◌, sym, arith, Bool, true,
  false, ◌||◌, ltb, ◌==◌, List, [], ◌∷◌, length, set, take, get_or, length-set, Bool-cases,
  get_or-set_self, get_or-set_ne, Option, none, some,
}
use mathlib.Core.Path.{subst}
use omphalos.Diag

-- In a ring of `size` entries, from the entry `rb` back, `k` entries are those of the list, or were
-- never written.
abbrev pub Shows : List (Option Diag.Logent) → ℕ → ℕ → ℕ → List Diag.Logent → Type 0
Shows logs size zero rb entries = Unit {0}
Shows logs size (suc k) rb [] =
    (get_or logs rb none ≡ none) × Shows logs size k (Diag.previous size rb) []
Shows logs size (suc k) rb (e ∷ entries) =
    (get_or logs rb none ≡ some e) × Shows logs size k (Diag.previous size rb) entries

-- The ring has its size and its last entry in it, is not locked, and holds the last of all the
-- diagnostics that were added, the last first.
pub record Holds (l : Diag.Logs) (added : List Diag.Logent) : Type 0 where
  pub size : length l.logs ≡ Diag.maximum_log_entries
  pub last : l.rblast < Diag.maximum_log_entries
  pub free : l.locked ≡ false
  pub shows : Shows l.logs Diag.maximum_log_entries Diag.maximum_log_entries l.rblast added

copy_logs-take :
    (n k idx rb : ℕ) (logs : List (Option Diag.Logent)) (added : List Diag.Logent)
    → n ≤ k
    → Shows logs (length logs) k rb added
    → Diag.copy_logs (λ _. true) n idx rb logs ≡ some (take n added)
unfolding Diag.copy_logs
copy_logs-take zero k idx rb logs added le h = refl
copy_logs-take (suc n) zero idx rb logs added le h = absurd (omega arith)
copy_logs-take (suc n) (suc k) idx rb logs [] le h = rw (Diag.copy_logs, h.0) refl
copy_logs-take (suc n) (suc k) idx rb logs (e ∷ added) le h =
    rw
      (
        Diag.copy_logs,
        h.0,
        copy_logs-take n k (idx + 1) (Diag.previous (length logs) rb) logs added (omega arith) h.1,
      )
      refl

-- From `r` back, `k` entries stop short of the entry `rb`.
abbrev Away : ℕ → ℕ → ℕ → ℕ → Type 0
Away size rb k r = ((r < rb) × (k + rb ≤ r + size)) ⊎ ((rb < r) × (k + rb ≤ r))

Away-previous :
    (size rb k r : ℕ)
    → r < size
    → rb < size
    → Away size rb (suc (suc k)) r
    → Away size rb (suc k) (Diag.previous size r)
unfolding Diag.previous
Away-previous size rb k r inside below (inl h) = elim (Bool-cases (r == 0)) [
  | inl first ↦ rw first (inr (ground arith, ground arith))
  | inr later ↦ rw later (inl (ground arith, ground arith))
]
Away-previous size rb k r inside below (inr h) =
    let later : (r == 0) ≡ false = ground arith in rw later (inr (ground arith, ground arith))

previous-lt : (size r : ℕ) → r < size → Diag.previous size r < size
unfolding Diag.previous
previous-lt size r h = ground arith

module _ (logs : List (Option Diag.Logent)) (size rb : ℕ) (e : Option Diag.Logent) where
  kept : (k r : ℕ) → Away size rb (suc k) r → get_or (set logs rb e) r none ≡ get_or logs r none
  kept k r (inl h) = get_or-set_ne logs rb r e none (λ same. absurd (omega arith))
  kept k r (inr h) = get_or-set_ne logs rb r e none (λ same. absurd (omega arith))

  -- Writing an entry that the walk back does not reach.
  Shows-set :
      (k r : ℕ) (added : List Diag.Logent)
      → r < size
      → rb < size
      → Away size rb k r
      → Shows logs size k r added
      → Shows (set logs rb e) size k r added
  Shows-set zero r added inside below away h = tt
  Shows-set (suc zero) r [] inside below away h = (kept zero r away ∙ h.0, tt)
  Shows-set (suc zero) r (d ∷ added) inside below away h = (kept zero r away ∙ h.0, tt)
  Shows-set (suc (suc k)) r [] inside below away h = (
    kept (suc k) r away ∙ h.0,
    Shows-set (suc k) (Diag.previous size r) [] (previous-lt size r inside) below
        (Away-previous size rb k r inside below away) h.1,
  )
  Shows-set (suc (suc k)) r (d ∷ added) inside below away h = (
    kept (suc k) r away ∙ h.0,
    Shows-set (suc k) (Diag.previous size r) added (previous-lt size r inside) below
        (Away-previous size rb k r inside below away) h.1,
  )

-- Fewer entries.
Shows-shorter :
    (logs : List (Option Diag.Logent)) (size k r : ℕ) (added : List Diag.Logent)
    → Shows logs size (suc k) r added
    → Shows logs size k r added
Shows-shorter logs size zero r added h = tt
Shows-shorter logs size (suc k) r [] h =
    (h.0, Shows-shorter logs size k (Diag.previous size r) [] h.1)
Shows-shorter logs size (suc k) r (d ∷ added) h =
    (h.0, Shows-shorter logs size k (Diag.previous size r) added h.1)

later_entry : (n : ℕ) → (n + 1 == 0) ≡ false
later_entry n = ground arith

-- A mutex that is not held is locked.
lock-free : (l : Diag.Logs) → l.locked ≡ false → Diag.lock l ≡ some (record l { locked = true })
unfolding Diag.lock
lock-free l free = rw free refl

wanted : (n : ℕ) → 0 < n → n ≤ 1024 → ((n == 0) || ltb 1024 n) ≡ false
wanted n positive few = ground arith

module _ (l : Diag.Logs) (added : List Diag.Logent) (h : Holds l added) where
  -- Where the next entry goes: behind the last, or to the start behind the end.
  next_entry-cases :
      ((l.rblast ≡ 1023) × (Diag.next_entry l ≡ 0))
      ⊎ ((l.rblast < 1023) × (Diag.next_entry l ≡ l.rblast + 1))
  unfolding Diag.next_entry
  next_entry-cases = elim (Bool-cases (l.rblast + 1 == length l.logs)) [
    | inl wraps ↦
        let whole : l.rblast + 1 ≡ length l.logs = ground arith in
        inl (omega (arith, h.size), rw wraps refl)
    | inr goes ↦
        let apart : l.rblast + 1 ≢ length l.logs = ground arith in
        inr (omega (arith, h.size, h.last), rw goes refl)
  ]

  next_entry-lt : Diag.next_entry l < 1024
  next_entry-lt = elim next_entry-cases [
    | inl (at_end, e) ↦ omega arith
    | inr (before, e) ↦ omega arith
  ]

  previous-next_entry : Diag.previous 1024 (Diag.next_entry l) ≡ l.rblast
  unfolding Diag.previous
  previous-next_entry = elim next_entry-cases [
    | inl (at_end, e) ↦ rw e (omega arith)
    | inr (before, e) ↦ rw (e, later_entry l.rblast) (omega arith)
  ]

  Away-next_entry : Away 1024 (Diag.next_entry l) 1023 l.rblast
  Away-next_entry = elim next_entry-cases [
    | inl (at_end, e) ↦ inr (omega arith, omega arith)
    | inr (before, e) ↦ inl (omega arith, omega arith)
  ]

  -- Where memory can be allocated, adding a diagnostic to the ring makes it the last one added, and the
  -- ring holds the last 1024 of all that were added still.
  pub add_log-Holds :
      (e : Diag.Logent)
      → (l' : Diag.Logs) × (Diag.add_log true e l ≡ some l') × Holds l' (e ∷ added)
  unfolding Diag.add_log Diag.next_entry
  add_log-Holds e =
      let rb = Diag.next_entry l in
      let logs = set l.logs rb (some e) in
      (
        record { rblast = rb; logs = logs; locked = false },
        rw (Diag.add_log, lock-free l h.free) refl,
        record {
          size = length-set l.logs rb (some e) ∙ h.size;
          last = next_entry-lt;
          free = refl;
          shows = (
            get_or-set_self l.logs rb (some e) none (omega (arith, next_entry-lt, h.size)),
            rw previous-next_entry (
                Shows-set l.logs 1024 rb (some e) 1023 l.rblast added h.last next_entry-lt
                  Away-next_entry (Shows-shorter l.logs 1024 1023 l.rblast added h.shows)),
          );
        },
      )

  -- Where memory can be allocated, `get_logs` copies the last `n` of all the diagnostics that were
  -- added, or all where there are fewer, the last first, and leaves the ring as it is.
  pub get_logs-take :
      (n : ℕ) → 0 < n → n ≤ 1024 → Diag.get_logs (λ _. true) n l ≡ some (l, some (take n added))
  unfolding Diag.get_logs
  get_logs-take n positive few =
      rw
        (
          Diag.get_logs,
          wanted n positive few,
          lock-free l h.free,
          copy_logs-take n 1024 0 l.rblast l.logs added few
              (subst (λ (size : ℕ). Shows l.logs size 1024 l.rblast added) (sym h.size) h.shows),
        )
        (ap (λ (b : Bool). some (record l { locked = b }, some (take n added))) (sym h.free))
