-- ===== src/Timeout/Tests.antt =====
-- Runs of src/timeout_config.c on its default settings.
use inventixdb.Base.{ℕ, ◌≡◌, ◌≤◌, ◌*◌, ◌^◌, refl, some, arith, min}
use inventixdb.Timeout.{timeout_config_init, raw_backoff, add_jitter, timeout_calculate_backoff}
use inventixdb.Timeout.Laws.{timeout_calculate_backoff-bounds}

-- The shifted backoff of 100 ms is a multiple of 2 ^ 32, and the retry is not delayed at all.
no_backoff_left : timeout_calculate_backoff timeout_config_init 30 7 ≡ some 0
unfolding timeout_calculate_backoff timeout_config_init raw_backoff add_jitter
no_backoff_left = refl

timeout_calculate_backoff-bounds_example :
    (b : ℕ) × (timeout_calculate_backoff timeout_config_init 3 7 ≡ some b)
    × (b ≤ 5000)
    × (min 5000 (100 * 2 ^ 3) ≤ b)
    × (100 * b ≤ 119 * (100 * 2 ^ 3))
unfolding timeout_config_init
timeout_calculate_backoff-bounds_example =
    timeout_calculate_backoff-bounds timeout_config_init 3 7 refl (omega arith) (omega arith)
