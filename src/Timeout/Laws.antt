-- ===== src/Timeout/Laws.antt =====
-- The timeouts of src/timeout_config.c: reading what was set, and the bounds of the backoff.
use inventixdb.Base.{
  ℕ, ◌*◌, ◌%◌, ◌^◌, ◌<◌, ◌≤◌, ◌≡◌, refl, true, some, ltb, ◌==◌, if◌then◌else◌, arith, min,
}
use inventixdb.Timeout.{
  TimeoutType, timeout_connect, timeout_read, timeout_write, timeout_idle, timeout_keepalive,
  timeout_heartbeat, timeout_cluster, timeout_query, timeout_txn, timeout_lock, TimeoutConfig,
  min_timeout_ms, max_timeout_ms, clamp_timeout, timeout_get, set_clamped, timeout_set, raw_backoff,
  add_jitter, timeout_calculate_backoff,
}

-- The places of the types in their enumeration
abbrev pub number : TimeoutType → ℕ
number timeout_connect = 0
number timeout_read = 1
number timeout_write = 2
number timeout_idle = 3
number timeout_keepalive = 4
number timeout_heartbeat = 5
number timeout_cluster = 6
number timeout_query = 7
number timeout_txn = 8
number timeout_lock = 9

get-set_clamped :
    (c : TimeoutConfig) (set read : TimeoutType) (ms : ℕ)
    → timeout_get (set_clamped c set ms) read
      ≡ (if number set == number read then ms else timeout_get c read)
unfolding timeout_get set_clamped
get-set_clamped c set read ms = ground arith

clamp_timeout-Between :
    (ms : ℕ) → (min_timeout_ms ≤ clamp_timeout ms) × (clamp_timeout ms ≤ max_timeout_ms)
unfolding clamp_timeout
clamp_timeout-Between ms = ground arith

-- After `timeout_set` the timeout of that type is the given one, clamped, and lies between 100 ms and an
-- hour; the timeouts of the other types are as before.
pub timeout_get-timeout_set :
    (c : TimeoutConfig) (set read : TimeoutType) (ms : ℕ)
    → (timeout_get (timeout_set c set ms) read
        ≡ (if number set == number read then clamp_timeout ms else timeout_get c read))
      × (min_timeout_ms ≤ timeout_get (timeout_set c set ms) set)
      × (timeout_get (timeout_set c set ms) set ≤ max_timeout_ms)
unfolding timeout_set
timeout_get-timeout_set c set read ms =
    let b = clamp_timeout-Between ms in
    let own = get-set_clamped c set set (clamp_timeout ms) in
    (get-set_clamped c set read (clamp_timeout ms), ground (arith, b, own), ground (arith, b, own))

jitter_le : (x s : ℕ) → s < 20 → x * s ≤ x * 19
jitter_le x s h = grind (arith, h)

-- The jitter is at most 19 percent.
add_jitter-Between :
    (x r : ℕ) → x * 20 < 2 ^ 32 → (x ≤ add_jitter x r) × (100 * add_jitter x r ≤ 119 * x)
unfolding add_jitter
add_jitter-Between x r h =
    let part : x * (r % 20) ≤ x * 19 = jitter_le x (r % 20) (omega arith) in
    let whole : (x * (r % 20)) % 2 ^ 32 ≡ x * (r % 20) = omega (arith, part, h) in
    rw whole (omega (arith, part, h), omega (arith, part, h))

-- With exponential backoff, before attempt 31 and while the doubled backoff and its jitter fit 32 bits,
-- the backoff of a retry is at most the maximum, at least the smaller of the maximum and the doubled
-- backoff, and less than a fifth above the doubled backoff, whatever `rand` gives.
pub timeout_calculate_backoff-bounds :
    (c : TimeoutConfig) (attempt r : ℕ)
    → c.exponential_backoff ≡ true
    → attempt < 31
    → c.retry_backoff_ms * 2 ^ attempt * 20 < 2 ^ 32
    → (b : ℕ) × (timeout_calculate_backoff c attempt r ≡ some b)
      × (b ≤ c.retry_max_backoff_ms)
      × (min c.retry_max_backoff_ms (c.retry_backoff_ms * 2 ^ attempt) ≤ b)
      × (100 * b ≤ 119 * (c.retry_backoff_ms * 2 ^ attempt))
unfolding timeout_calculate_backoff raw_backoff
timeout_calculate_backoff-bounds c attempt r e h k =
    let x = c.retry_backoff_ms * 2 ^ attempt in
    let j = add_jitter-Between x r k in
    let fits : x % 2 ^ 32 ≡ x = omega (arith, k) in
    let defined : ltb attempt 31 ≡ true = ground arith in
    let raw : raw_backoff c attempt ≡ some x = ground (arith, fits) in
    let b =
      if ltb c.retry_max_backoff_ms (add_jitter x r)
      then c.retry_max_backoff_ms
      else add_jitter x r in
    (
      b,
      rw (raw, timeout_calculate_backoff) refl,
      ground (arith, j),
      ground (arith, j),
      ground (arith, j),
    )
