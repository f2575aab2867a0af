-- ===== src/Redis.antt =====
-- The Redis commands that the API uses on counters, as Redis documents them: a key holds a count and
-- perhaps a time in milliseconds from which it is gone. A script runs without interruption, so its
-- commands see one time.
pub mod Memory
pub mod Entries
use memoflow_api.Prelude.{
  ℕ, ◌+◌, ◌-◌, String, Bool, ◌≡◌, Option, none, some, leb, if◌then◌else◌, ◌==◌,
}

pub record Entry : Type 0 where
  pub count : ℕ
  pub expires_at : Option ℕ

abbrev pub is_gone : ℕ → Option ℕ → Bool
is_gone now none = Bool.false
is_gone now (some at) = leb at now

-- What is left of an entry at a time.
abbrev pub live : ℕ → Option Entry → Option Entry
live now none = none
live now (some e) = if is_gone now e.expires_at then none else some e

-- `tonumber(redis.call('GET', k) or '0')`
abbrev pub count_of : Option Entry → ℕ
count_of none = 0
count_of (some e) = e.count

abbrev pub incremented : Option Entry → Entry
incremented none = record { count = 1; expires_at = none }
incremented (some e) = record e { count = e.count + 1 }

abbrev pub expiring : ℕ → Option Entry → Option Entry
expiring at none = none
expiring at (some e) = some (record e { expires_at = some at })

pub record Redis : Type 1 where
  pub Store : Type 0
  pub entry : Store → String → Option Entry
  -- `INCR` at a time: a key that is gone starts at 0 and has no expiry.
  pub incr : ℕ → String → Store → Store
  -- `EXPIREAT` and `PEXPIRE` at a time, with the time of expiry; a key that is gone stays gone.
  pub expire : ℕ → String → ℕ → Store → Store
  pub del : String → Store → Store
  pub entry-incr :
      (now : ℕ) (k : String) (s : Store) (j : String)
      → entry (incr now k s) j
        ≡ (if k == j then some (incremented (live now (entry s k))) else entry s j)
  pub entry-expire :
      (now : ℕ) (k : String) (at : ℕ) (s : Store) (j : String)
      → entry (expire now k at s) j
        ≡ (if k == j then expiring at (live now (entry s k)) else entry s j)
  pub entry-del :
      (k : String) (s : Store) (j : String)
      → entry (del k s) j ≡ (if k == j then none else entry s j)

-- What becomes of a script that is sent to Redis: an answer, or an error before or after it has run.
pub data Delivery : Type 0 where
  answered lost_before lost_after : Delivery
