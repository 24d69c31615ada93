-- ===== src/Results/Tests.antt =====
-- Records of two messages, streamed as partial ones.
use rusty_comms.Prelude.{ℕ, ◌≡◌, refl, List, [], ◌∷◌, some, true}
use rusty_comms.Text.{codes, decimal, push_digits}
use rusty_comms.Metrics.{one_way, round_trip}
use rusty_comms.Results.Record.{
  MessageLatencyRecord, tcp_socket, name, new, new_combined, merge, is_combined, to_csv_record,
}
use rusty_comms.Results.{Json, finalize}
use rusty_comms.Results.Log.{stream, direct, log, json_document, csv_document}
use rusty_comms.Results.Streaming.{enabled, perform_all, finalize-documents}
use rusty_comms.Results.Pairing.{count, half_up, all_direct, write_each, finalize_halves}

abbrev json : Json ℕ
json = record { headings = codes "[]"; values = λ r. decimal r.message_id; results = decimal }

abbrev sent : ℕ → MessageLatencyRecord
sent id = new id tcp_socket 64 one_way 500 20

abbrev answered : ℕ → MessageLatencyRecord
answered id = new id tcp_socket 64 round_trip 900 10

abbrev halves : List MessageLatencyRecord
halves = sent 3 ∷ sent 1 ∷ answered 3 ∷ sent 2 ∷ []

csv : to_csv_record (sent 3) ≡ codes "20,3,TCP Socket,64,500,"
unfolding to_csv_record new decimal push_digits name
csv = refl

paired :
    log true (all_direct halves) ≡ new_combined 3 tcp_socket 64 500 900 10 ∷ sent 1 ∷ sent 2 ∷ []
unfolding new new_combined merge is_combined
paired = refl

finalize_halves_example :
    let m = finalize json (write_each json halves (enabled json true)) in
    (ws : List MessageLatencyRecord) × (m.streaming_file ≡ some (json_document json ws))
    × (m.streaming_csv_file ≡ some (csv_document ws))
    × ((id : ℕ) → count id ws ≡ half_up (count id halves))
unfolding new is_combined
finalize_halves_example = finalize_halves json halves (refl, (refl, (refl, (refl, tt))))

finalize-documents_example :
    let m =
      finalize json
        (perform_all json (stream (sent 3) ∷ direct (sent 4) ∷ []) (enabled json true)) in
    (m.streaming_file
      ≡ some (json_document json (log true (stream (sent 3) ∷ direct (sent 4) ∷ []))))
    × (m.streaming_csv_file
        ≡ some (csv_document (log true (stream (sent 3) ∷ direct (sent 4) ∷ []))))
finalize-documents_example = finalize-documents json true (stream (sent 3) ∷ direct (sent 4) ∷ [])
