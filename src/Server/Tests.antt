-- ===== src/Server/Tests.antt =====
-- The servers' theorems at a request, a one-way message, a canary and a shutdown.
use rusty_comms.Prelude.{some, ◌≡◌, refl, List, [], ◌∷◌, none, some, true, false}
use rusty_comms.Ipc.Message.{one_way, request, shutdown, new}
use rusty_comms.Metrics.{MetricsCollector}
use rusty_comms.Metrics.Tests.{whole}
use rusty_comms.Server.{
  Arrival, canary_id, should_buffer_latency, dispatch_server_message, wall_send_of, latency_of,
  server_loop, Incoming,
}
use rusty_comms.Metrics as Metrics
use rusty_comms.Metrics.Collector as Collector

abbrev asked : Arrival
asked = record { message = new 100 7 [] request; monotonic = 130; wall = 1000; reply_sent = true }

abbrev told : Arrival
told = record { message = new 200 8 [] one_way; monotonic = 250; wall = 1100; reply_sent = true }

abbrev canary : Arrival
canary = record {
  message = new 90 canary_id [] one_way;
  monotonic = 99;
  wall = 900;
  reply_sent = true;
}

abbrev stopped : Arrival
stopped = record {
  message = new 300 canary_id [] shutdown;
  monotonic = 310;
  wall = 1200;
  reply_sent = true;
}

abbrev arrivals : List Arrival
arrivals = canary ∷ asked ∷ told ∷ stopped ∷ told ∷ []

abbrev incoming : List (Incoming whole)
incoming = (false, canary) ∷ (false, asked) ∷ (false, told) ∷ (false, stopped) ∷ (false, told) ∷ []

abbrev pub collector : MetricsCollector whole
collector = record {
  latency_collector = none;
  throughput_calculator = record { start_time = 0; message_count = 0; byte_count = 0 };
  percentiles = [];
}

buffered : (server_loop true arrivals).latency_buffer ≡ (970, 30) ∷ (1050, 50) ∷ []
unfolding server_loop new should_buffer_latency dispatch_server_message wall_send_of latency_of
buffered = refl
