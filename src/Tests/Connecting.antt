-- ===== src/Tests/Connecting.antt =====
-- The delays of a connection that keeps failing, and what a connection reads.
use ubuntu_daemon.Base.{
  ℕ, ◌+◌, ◌*◌, ◌/◌, ◌≡◌, refl, true, none, some, List, [], ◌∷◌, arith, All, ok, if◌then◌else◌,
}
use ubuntu_daemon.Base.Int.{pos}
use ubuntu_daemon.Text
use ubuntu_daemon.Text.{lit, text_eq}
use ubuntu_daemon.Protocol.{Envelope, type_auth_resp, type_pong}
use ubuntu_daemon.Config.{CloudConfig, second}
use ubuntu_daemon.Config.Laws.Normal.{CloudIsBounded}
use ubuntu_daemon.Cloud.{
  Attempt, waited, cancelled_inside, run, Client, is_pong, accepts, handled_message,
}
use ubuntu_daemon.Cloud.Delays.{IsStretch, Within, Grows, run_lem}

abbrev cloud : CloudConfig
cloud = record {
  ws_url = lit "ws://c";
  connect_timeout_sec = pos 10;
  ping_interval_sec = pos 30;
  reconnect_min_sec = pos 1;
  reconnect_max_sec = pos 5;
}

cloud-CloudIsBounded : CloudIsBounded cloud
cloud-CloudIsBounded = record {
  connect = omega arith;
  ping = omega arith;
  reconnect = omega arith;
  ordered = omega arith;
}

abbrev quarter_more : ℕ → ℕ
quarter_more n = n + n / 4

quarter_more-IsStretch : (most : ℕ) → IsStretch most quarter_more
quarter_more-IsStretch most n h = (omega arith, omega arith)

abbrev attempts : List Attempt
attempts = waited quarter_more ∷ waited quarter_more ∷ cancelled_inside ∷ []

run_lem_example :
    All (Within (1 * second) (5 * second)) (run cloud attempts)
    × Grows (pos (1 * second)) (run cloud attempts)
run_lem_example =
    run_lem cloud 1 5 attempts cloud-CloudIsBounded refl refl (omega arith)
      (quarter_more-IsStretch (5 * second), (quarter_more-IsStretch (5 * second), (tt, tt)))

abbrev accepting : Envelope
accepting = record { msg_id = lit "a"; kind = type_auth_resp; timestamp = pos 1; payload = [] }

-- A pong, or an answer that accepts the authentication.
abbrev client : Client
client = record {
  ping_type = λ s. if text_eq s (lit "pong") then some type_pong else none;
  decode_envelope = λ s. ok accepting;
  decode_auth = λ s. ok (record { code = pos 200; msg = [] });
}

reads_acceptance : handled_message client (lit "{}") ≡ some (accepting, true)
unfolding handled_message is_pong accepts lit Text.text_eq
reads_acceptance = refl

reads_pong : handled_message client (lit "pong") ≡ none
unfolding handled_message is_pong accepts lit Text.text_eq
reads_pong = refl
