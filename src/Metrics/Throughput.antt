-- ===== src/Metrics/Throughput.antt =====
-- `ThroughputCalculator` of src/metrics.rs.
use rusty_comms.Prelude.{ℕ, ◌-◌, ◌%◌, ◌^◌, add_usize}
use rusty_comms.Metrics.{Numeric, ThroughputMetrics, ThroughputCalculator, rate}

module _ (num : Numeric) where
  open num use {
    F64, of_u64, decimal, divide, clamp_unit, as_secs_f64, new_histogram, record_value,
    reset_histogram, lowest, highest, mean, stdev, value_at_quantile, iter_quantiles,
  }

  unfoldable pub new : ℕ → ThroughputCalculator num
  new now = record { start_time = now; message_count = 0; byte_count = 0 }

  unfoldable pub record_message : ThroughputCalculator num → ℕ → ThroughputCalculator num
  record_message c message_size = record c {
    message_count = add_usize c.message_count 1;
    byte_count = add_usize c.byte_count message_size;
  }

  -- `elapsed` stops at 0.
  unfoldable pub get_metrics : ℕ → ThroughputCalculator num → ThroughputMetrics num
  get_metrics now c = record {
    messages_per_second = rate num c.message_count (as_secs_f64 (now - c.start_time));
    bytes_per_second = rate num c.byte_count (as_secs_f64 (now - c.start_time));
    total_messages = c.message_count;
    total_bytes = c.byte_count;
    duration_ns = (now - c.start_time) % 2 ^ 64;
  }

  unfoldable pub reset : ℕ → ThroughputCalculator num → ThroughputCalculator num
  reset now c = record { start_time = now; message_count = 0; byte_count = 0 }
