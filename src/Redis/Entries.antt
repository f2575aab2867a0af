-- ===== src/Redis/Entries.antt =====
-- What the commands leave of an entry.
use memoflow_api.Prelude.{ℕ, ◌≡◌, refl, Option, none, some, arith}
use memoflow_api.Redis.{Entry, live, incremented}

pub live-incremented :
    (now : ℕ) (o : Option Entry)
    → live now (some (incremented (live now o))) ≡ some (incremented (live now o))
live-incremented now none = refl
live-incremented now (some e) = ground arith
