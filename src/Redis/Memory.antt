-- ===== src/Redis/Memory.antt =====
-- Counters in memory: they meet every law of `Redis`.
use memoflow_api.Prelude.{String, refl, Option, none, some, ◌==◌, if◌then◌else◌}
use memoflow_api.Redis.{Entry, Redis, live, incremented, expiring}

abbrev pub memory : Redis
memory = record {
  Store = String → Option Entry;
  entry = λ s k. s k;
  incr = λ now k s j. if k == j then some (incremented (live now (s k))) else s j;
  expire = λ now k at s j. if k == j then expiring at (live now (s k)) else s j;
  del = λ k s j. if k == j then none else s j;
  entry-incr = λ now k s j. refl;
  entry-expire = λ now k at s j. refl;
  entry-del = λ k s j. refl;
}
