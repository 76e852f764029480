-- ===== src/Memory/Session/Bounds.antt =====
-- Quotas of src/memory.c under any calls, and the alignment of blocks.
use inventixdb.Base.{ℕ, ◌+◌, ◌≤◌, ◌≡◌, ◌≢◌, List, [], ◌∷◌, arith}
use inventixdb.Memory.Session.{
  MemQuota, quota_create_named, quota_request, quota_release, quota_reset, quota_remaining,
}

pub data Call : Type 0 where
  requests releases : ℕ → Call
  resets : Call

abbrev step : MemQuota → Call → MemQuota
step q (requests size) = (quota_request q size).0
step q (releases size) = quota_release q size
step q resets = quota_reset q

abbrev pub after_calls : MemQuota → List Call → MemQuota
after_calls q [] = q
after_calls q (c ∷ cs) = after_calls (step q c) cs

abbrev IsQuota : ℕ → MemQuota → Type 0
IsQuota limit q = (q.limit ≡ limit) × (q.used ≤ q.peak) × (q.peak ≤ q.limit)

step-IsQuota : (limit : ℕ) (q : MemQuota) (c : Call) → IsQuota limit q → IsQuota limit (step q c)
unfolding quota_request quota_release quota_reset
step-IsQuota limit q (requests size) h = ground arith
step-IsQuota limit q (releases size) h = ground arith
step-IsQuota limit q resets h = ground arith

calls-IsQuota :
    (limit : ℕ) (q : MemQuota) (cs : List Call) → IsQuota limit q → IsQuota limit (after_calls q cs)
calls-IsQuota limit q [] h = h
calls-IsQuota limit q (c ∷ cs) h = calls-IsQuota limit (step q c) cs (step-IsQuota limit q c h)

-- After any requests, releases and resets of a new quota with a limit, what is used never passed the
-- limit, and what remains is the rest of it.
pub quota_remaining-calls :
    (warning critical : ℕ → ℕ) (limit : ℕ) (cs : List Call)
    → limit ≢ 0
    → ((after_calls (quota_create_named warning critical limit) cs).peak ≤ limit)
      × (quota_remaining (after_calls (quota_create_named warning critical limit) cs)
            + (after_calls (quota_create_named warning critical limit) cs).used
          ≡ limit)
unfolding quota_create_named quota_remaining
quota_remaining-calls warning critical limit cs h =
    let q = after_calls (quota_create_named warning critical limit) cs in
    let k = calls-IsQuota limit (quota_create_named warning critical limit) cs (ground arith) in
    ground arith
