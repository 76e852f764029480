-- ===== src/Timeout.antt =====
-- Network timeouts and the backoff of retries (src/timeout_config.c, include/timeout_config.h). The
-- global settings and counters are arguments; the calls of `setsockopt` and `fcntl` are left out.
pub mod Laws
mod Tests
use inventixdb.Base.{
  ℕ, ◌+◌, ◌*◌, ◌/◌, ◌%◌, ◌^◌, Bool, true, false, ◌&&◌, not, Option, none, some, ltb, leb,
  if◌then◌else◌,
}

-- `TimeoutType`
pub data TimeoutType : Type 0 where
  timeout_connect timeout_read timeout_write timeout_idle timeout_keepalive timeout_heartbeat :
      TimeoutType
  timeout_cluster timeout_query timeout_txn timeout_lock : TimeoutType

-- `TimeoutConfig`
pub record TimeoutConfig : Type 0 where
  pub connect_timeout_ms : ℕ
  pub read_timeout_ms : ℕ
  pub write_timeout_ms : ℕ
  pub idle_timeout_ms : ℕ
  pub keepalive_interval_ms : ℕ
  pub keepalive_count : ℕ
  pub enable_keepalive : Bool
  pub heartbeat_timeout_ms : ℕ
  pub cluster_sync_timeout_ms : ℕ
  pub election_timeout_ms : ℕ
  pub replication_timeout_ms : ℕ
  pub query_timeout_ms : ℕ
  pub txn_timeout_ms : ℕ
  pub lock_wait_timeout_ms : ℕ
  pub retry_count : ℕ
  pub retry_backoff_ms : ℕ
  pub retry_max_backoff_ms : ℕ
  pub exponential_backoff : Bool

-- `TimeoutStats`
pub record TimeoutStats : Type 0 where
  pub connect_timeouts : ℕ
  pub read_timeouts : ℕ
  pub write_timeouts : ℕ
  pub idle_disconnects : ℕ
  pub query_timeouts : ℕ
  pub txn_timeouts : ℕ
  pub lock_timeouts : ℕ
  pub cluster_timeouts : ℕ
  pub total_retries : ℕ
  pub successful_retries : ℕ

abbrev pub min_timeout_ms : ℕ
min_timeout_ms = 100

abbrev pub max_timeout_ms : ℕ
max_timeout_ms = 3600000

unfoldable pub timeout_config_init : TimeoutConfig
timeout_config_init = record {
  connect_timeout_ms = 5000;
  read_timeout_ms = 30000;
  write_timeout_ms = 30000;
  idle_timeout_ms = 300000;
  keepalive_interval_ms = 60000;
  keepalive_count = 3;
  enable_keepalive = true;
  heartbeat_timeout_ms = 3000;
  cluster_sync_timeout_ms = 10000;
  election_timeout_ms = 1000;
  replication_timeout_ms = 5000;
  query_timeout_ms = 60000;
  txn_timeout_ms = 120000;
  lock_wait_timeout_ms = 10000;
  retry_count = 3;
  retry_backoff_ms = 100;
  retry_max_backoff_ms = 5000;
  exponential_backoff = true;
}

unfoldable pub clamp_timeout : ℕ → ℕ
clamp_timeout value =
    if ltb value min_timeout_ms
    then min_timeout_ms
    else (if ltb max_timeout_ms value then max_timeout_ms else value)

abbrev pub is_within : ℕ → Bool
is_within value = not (ltb value min_timeout_ms) && not (ltb max_timeout_ms value)

unfoldable pub timeout_config_validate : TimeoutConfig → Bool
timeout_config_validate c =
    is_within c.connect_timeout_ms
    && is_within c.read_timeout_ms
    && is_within c.write_timeout_ms
    && is_within c.query_timeout_ms

-- The sections that `timeout_config_load` knows, with the setting of the configuration file
pub data Section : Type 0 where
  network cluster : ℕ → Section
  other : Section

unfoldable pub timeout_config_load : Section → TimeoutConfig
timeout_config_load (network ms) = record timeout_config_init {
  connect_timeout_ms = if ltb 0 ms then ms else 5000;
}
timeout_config_load (cluster ms) = record timeout_config_init {
  heartbeat_timeout_ms = if ltb 0 ms then ms else 3000;
}
timeout_config_load other = timeout_config_init

unfoldable pub timeout_get : TimeoutConfig → TimeoutType → ℕ
timeout_get c timeout_connect = c.connect_timeout_ms
timeout_get c timeout_read = c.read_timeout_ms
timeout_get c timeout_write = c.write_timeout_ms
timeout_get c timeout_idle = c.idle_timeout_ms
timeout_get c timeout_keepalive = c.keepalive_interval_ms
timeout_get c timeout_heartbeat = c.heartbeat_timeout_ms
timeout_get c timeout_cluster = c.cluster_sync_timeout_ms
timeout_get c timeout_query = c.query_timeout_ms
timeout_get c timeout_txn = c.txn_timeout_ms
timeout_get c timeout_lock = c.lock_wait_timeout_ms

-- The settings with a value that is clamped already
unfoldable pub set_clamped : TimeoutConfig → TimeoutType → ℕ → TimeoutConfig
set_clamped c timeout_connect ms = record c { connect_timeout_ms = ms }
set_clamped c timeout_read ms = record c { read_timeout_ms = ms }
set_clamped c timeout_write ms = record c { write_timeout_ms = ms }
set_clamped c timeout_idle ms = record c { idle_timeout_ms = ms }
set_clamped c timeout_keepalive ms = record c { keepalive_interval_ms = ms }
set_clamped c timeout_heartbeat ms = record c { heartbeat_timeout_ms = ms }
set_clamped c timeout_cluster ms = record c { cluster_sync_timeout_ms = ms }
set_clamped c timeout_query ms = record c { query_timeout_ms = ms }
set_clamped c timeout_txn ms = record c { txn_timeout_ms = ms }
set_clamped c timeout_lock ms = record c { lock_wait_timeout_ms = ms }

unfoldable pub timeout_set : TimeoutConfig → TimeoutType → ℕ → TimeoutConfig
timeout_set c type ms = set_clamped c type (clamp_timeout ms)

-- `n++` of a `uint64_t`
abbrev pub count_up : ℕ → ℕ
count_up n = (n + 1) % 2 ^ 64

unfoldable pub timeout_record_event : TimeoutStats → TimeoutType → TimeoutStats
timeout_record_event s timeout_connect = record s { connect_timeouts = count_up s.connect_timeouts }
timeout_record_event s timeout_read = record s { read_timeouts = count_up s.read_timeouts }
timeout_record_event s timeout_write = record s { write_timeouts = count_up s.write_timeouts }
timeout_record_event s timeout_idle = record s { idle_disconnects = count_up s.idle_disconnects }
timeout_record_event s timeout_keepalive = s
timeout_record_event s timeout_heartbeat = record s {
  cluster_timeouts = count_up s.cluster_timeouts;
}
timeout_record_event s timeout_cluster = record s { cluster_timeouts = count_up s.cluster_timeouts }
timeout_record_event s timeout_query = record s { query_timeouts = count_up s.query_timeouts }
timeout_record_event s timeout_txn = record s { txn_timeouts = count_up s.txn_timeouts }
timeout_record_event s timeout_lock = record s { lock_timeouts = count_up s.lock_timeouts }

unfoldable pub timeout_record_retry : TimeoutStats → Bool → TimeoutStats
timeout_record_retry s successful = record s {
  total_retries = count_up s.total_retries;
  successful_retries = if successful then count_up s.successful_retries else s.successful_retries;
}

unfoldable pub timeout_reset_stats : TimeoutStats
timeout_reset_stats = record {
  connect_timeouts = 0;
  read_timeouts = 0;
  write_timeouts = 0;
  idle_disconnects = 0;
  query_timeouts = 0;
  txn_timeouts = 0;
  lock_timeouts = 0;
  cluster_timeouts = 0;
  total_retries = 0;
  successful_retries = 0;
}

-- The backoff before jitter, a `uint32_t`; `none` is a shift of an `int` that is not defined.
unfoldable pub raw_backoff : TimeoutConfig → ℕ → Option ℕ
raw_backoff c attempt =
    if c.exponential_backoff
    then (if ltb attempt 31 then some ((c.retry_backoff_ms * 2 ^ attempt) % 2 ^ 32) else none)
    else some ((c.retry_backoff_ms * (attempt + 1)) % 2 ^ 32)

-- The jitter for the number `r` that `rand` returned
unfoldable pub add_jitter : ℕ → ℕ → ℕ
add_jitter backoff r = (backoff + (backoff * (r % 20)) % 2 ^ 32 / 100) % 2 ^ 32

unfoldable pub timeout_calculate_backoff : TimeoutConfig → ℕ → ℕ → Option ℕ
timeout_calculate_backoff c attempt r = elim (raw_backoff c attempt) [
  | none ↦ none
  | some raw ↦
      let backoff = add_jitter raw r in
      some (if ltb c.retry_max_backoff_ms backoff then c.retry_max_backoff_ms else backoff)
]
