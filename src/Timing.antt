-- ===== src/Timing.antt =====
-- src/omphalos/timing.c and timing.h: sliding-window statistics in a ring of counters. A
-- `struct timeval` holds a time that is not negative; a division by zero and an index out of range
-- are faults. Memory is always there for `timestat_prep`.
pub mod Time
pub mod Ring
pub mod Zero
pub mod Window
pub mod Expiry
pub mod Inc
pub mod Slots
pub mod Reset
mod Examples
use omphalos.Base.{
  ℕ, zero, suc, ◌+◌, ◌-◌, ◌*◌, ◌/◌, ◌%◌, ◌^◌, u32, u64, ltb, ◌==◌, if◌then◌else◌, List, get_elem?,
  set, replicate, none, some, Outcome, done, fault, out_of_fuel, ◌>>=◌,
}

pub record Timeval : Type 0 where
  pub sec : ℕ
  pub usec : ℕ

pub record Timestat : Type 0 where
  pub counts : List ℕ
  pub usec : ℕ
  pub total : ℕ
  pub firstidx : ℕ
  pub firstsamp : Timeval
  pub valtotal : ℕ

-- `now` is what `gettimeofday` stores. `valtotal` keeps the value of the zeroed interface.
pub timestat_prep : Timestat → Timeval → ℕ → ℕ → Timestat
timestat_prep ts now usec total = record ts {
  counts = replicate total 0;
  firstsamp = now;
  firstidx = 0;
  total = total;
  usec = usec;
}

-- `a - b` with the borrow from the seconds, in two's complement.
pub timersub : Timeval → Timeval → Timeval
timersub a b =
    if ltb a.usec b.usec
    then record { sec = u64 (a.sec + 2 ^ 64 - b.sec - 1); usec = a.usec + 1000000 - b.usec }
    else record { sec = u64 (a.sec + 2 ^ 64 - b.sec); usec = a.usec - b.usec }

pub timeradd : Timeval → Timeval → Timeval
timeradd a b =
    if ltb (a.usec + b.usec) 1000000
    then record { sec = a.sec + b.sec; usec = a.usec + b.usec }
    else record { sec = a.sec + b.sec + 1; usec = a.usec + b.usec - 1000000 }

pub timerusec : Timeval → ℕ
timerusec tv = u64 (tv.sec * 1000000 + tv.usec)

pub ringinc : ℕ → ℕ → ℕ → ℕ
ringinc idx move s = u32 (idx + move) % s

-- `for( ; z < hi ; ++z){ ts->valtotal -= ts->counts[z]; ts->counts[z] = 0; }`, by the rounds left.
pub zero_counts : ℕ → ℕ → Timestat → Outcome Timestat
zero_counts zero z ts = done ts
zero_counts (suc left) z ts = elim (get_elem? ts.counts z) [
  | none ↦ fault
  | some c ↦
      zero_counts left (z + 1)
        (record ts { counts = set ts.counts z 0; valtotal = u64 (ts.valtotal + 2 ^ 64 - c) })
]

-- Zeroing the slot `idx` and those before it, `expired` in all: in two loops where they wrap.
pub zero_expired : ℕ → ℕ → Timestat → Outcome Timestat
zero_expired idx expired ts =
    if ltb (idx + 1) expired
    then (do
      ts ← zero_counts (idx + 1) 0 ts
      let z = idx + 1 + (ts.total - (expired - (idx + 1)))
      zero_counts (ts.total - z) z ts)
    else zero_counts expired (idx + 1 - expired) ts

-- `ts->firstsamp` moves by `expired * ts->usec` microseconds, a product of 32 bits.
pub advance : ℕ → Timestat → Timestat
advance expired ts = record ts {
  firstsamp = timeradd ts.firstsamp (record {
    sec = u32 (expired * ts.usec) / 1000000;
    usec = u32 (expired * ts.usec) % 1000000;
  });
}

-- The body of `if(distance >= ts->total)`, with the new distance.
pub expire : ℕ → Timestat → Outcome (Timestat × ℕ)
expire distance ts =
    let expired = u32 (distance + 2 ^ 32 - ts.total + 1) in
    if ltb expired ts.total
    then (do
      let idx = ringinc ts.firstidx distance ts.total
      let moved = record ts { firstidx = ringinc ts.firstidx expired ts.total }
      ts ← zero_expired idx expired moved
      done (advance expired ts, distance - expired))
    else done (
      advance expired (record ts { firstidx = 0; valtotal = 0; counts = replicate ts.total 0 }),
      0,
    )

-- The last two statements of `timestat_inc`.
pub add_sample : ℕ → ℕ → Timestat → Outcome Timestat
add_sample distance val ts =
    if ts.total == 0
    then fault
    else let slot = ringinc ts.firstidx distance ts.total in
      elim (get_elem? ts.counts slot) [
        | none ↦ fault
        | some c ↦ done (record ts {
          counts = set ts.counts slot (u32 (c + val));
          valtotal = u64 (ts.valtotal + val);
        })
      ]

-- The number of samples between the first sample and `tv`.
pub distance_of : Timestat → Timeval → ℕ
distance_of ts tv = u32 (timerusec (timersub tv ts.firstsamp) / ts.usec)

pub timestat_inc : Timestat → Timeval → ℕ → Outcome Timestat
timestat_inc ts tv val =
    if ts.usec == 0
    then fault
    else if ltb (distance_of ts tv) ts.total
    then add_sample (distance_of ts tv) val ts
    else (do (ts, distance) ← expire (distance_of ts tv) ts; add_sample distance val ts)

pub timestat_val : Timestat → ℕ
timestat_val ts = ts.valtotal
