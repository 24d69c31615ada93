-- ===== src/Server/Buffering.antt =====
-- What the benchmark's server has buffered and answered when it ends.
use rusty_comms.Prelude.{
  ℕ, ◌≡◌, refl, true, false, Bool-cases, inl, inr, Option, none, some, List, [], ◌∷◌, ◌==◌,
  if◌then◌else◌, All, arith,
}
use rusty_comms.Ipc.Message.{Message, MessageType, one_way, request, response, ping, pong, shutdown}
use rusty_comms.Server.{
  Arrival, canary_id, is_shutdown, dispatch_server_message, reply_to, should_buffer_latency,
  latency_of, wall_send_of, server_loop,
}

-- The messages that the server receives: up to the first shutdown.
abbrev pub until_shutdown : List Arrival → List Arrival
until_shutdown [] = []
until_shutdown (a ∷ xs) =
    if is_shutdown a.message.message_type then a ∷ [] else a ∷ until_shutdown xs

abbrev pub entry : Arrival → ℕ × ℕ
entry a = (wall_send_of a, latency_of a)

-- The latencies of all messages but canaries.
abbrev pub entries : List Arrival → List (ℕ × ℕ)
entries [] = []
entries (a ∷ xs) = if a.message.id == canary_id then entries xs else entry a ∷ entries xs

abbrev pub in_front : Option Message → List Message → List Message
in_front none rs = rs
in_front (some r) rs = r ∷ rs

abbrev pub answers : List Arrival → List Message
answers [] = []
answers (a ∷ xs) = in_front (dispatch_server_message a.monotonic a.message) (answers xs)

abbrev pub Answered : Arrival → Type 0
Answered a = a.reply_sent ≡ true

server_loop-step :
    (a : Arrival) (xs : List Arrival)
    → is_shutdown a.message.message_type ≡ false
    → a.reply_sent ≡ true
    → ((server_loop true (a ∷ xs)).latency_buffer ≡ (
        if a.message.id == canary_id
        then (server_loop true xs).latency_buffer
        else entry a ∷ (server_loop true xs).latency_buffer))
      × ((server_loop true (a ∷ xs)).replies
          ≡ in_front (dispatch_server_message a.monotonic a.message) (server_loop true xs).replies)
unfolding server_loop should_buffer_latency
server_loop-step a xs go sent = ground arith

server_loop-shutdown :
    (a : Arrival) (xs : List Arrival)
    → is_shutdown a.message.message_type ≡ true
    → ((server_loop true (a ∷ xs)).latency_buffer ≡ entries (a ∷ []))
      × ((server_loop true (a ∷ xs)).replies ≡ [])
unfolding server_loop should_buffer_latency
server_loop-shutdown a xs stop = ground arith

reply_to-shutdown : (now id : ℕ) (t : MessageType) → is_shutdown t ≡ true → reply_to now id t ≡ none
reply_to-shutdown now id shutdown stop = refl
reply_to-shutdown now id one_way stop = ground arith
reply_to-shutdown now id request stop = ground arith
reply_to-shutdown now id response stop = ground arith
reply_to-shutdown now id ping stop = ground arith
reply_to-shutdown now id pong stop = ground arith

dispatch-shutdown :
    (now : ℕ) (m : Message)
    → is_shutdown m.message_type ≡ true
    → dispatch_server_message now m ≡ none
unfolding dispatch_server_message
dispatch-shutdown now m stop = reply_to-shutdown now m.id m.message_type stop

-- When every reply is sent, the server has buffered the latency of each message but canaries, and has
-- answered each request and each ping, in order, up to the shutdown message or the end of the
-- connection.
pub server_loop_lem :
    (xs : List Arrival)
    → All Answered xs
    → ((server_loop true xs).latency_buffer ≡ entries (until_shutdown xs))
      × ((server_loop true xs).replies ≡ answers (until_shutdown xs))
unfolding server_loop
server_loop_lem [] h = (refl, refl)
server_loop_lem (a ∷ xs) (sent, h) =
    let (buffered, answered) = server_loop_lem xs h in
    elim (Bool-cases (is_shutdown a.message.message_type)) [
      | inl stop ↦
          let (b, r) = server_loop-shutdown a xs stop in
          rw (b, r, stop, dispatch-shutdown a.monotonic a.message stop) (refl, refl)
      | inr go ↦
          let (b, r) = server_loop-step a xs go sent in
          rw (b, r, go, buffered, answered) (refl, refl)
    ]
