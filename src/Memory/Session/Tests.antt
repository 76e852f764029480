-- ===== src/Memory/Session/Tests.antt =====
-- Runs of a quota of src/memory.c.
use inventixdb.Base.{◌≡◌, ◌≤◌, ◌+◌, ◌*◌, ◌/◌, List, [], ◌∷◌, arith}
use inventixdb.Memory.Session.{MemQuota, quota_create_named, quota_remaining}
use inventixdb.Memory.Session.Bounds.{Call, requests, releases, after_calls, quota_remaining-calls}

abbrev some_calls : List Call
some_calls = requests 600 ∷ requests 500 ∷ releases 100 ∷ requests 500 ∷ []

abbrev ran : MemQuota
ran = after_calls (quota_create_named (λ n. n * 4 / 5) (λ n. n * 19 / 20) 1000) some_calls

quota_remaining-calls_example : (ran.peak ≤ 1000) × (quota_remaining ran + ran.used ≡ 1000)
quota_remaining-calls_example =
    quota_remaining-calls (λ n. n * 4 / 5) (λ n. n * 19 / 20) 1000 some_calls
      (λ e. omega (arith, e))
