-- ===== src/Gateway/Session/Chat.antt =====
-- `Chat`: connect, subscribe, send, collect.
use ubuntu_daemon.Base.{
  true, false, not, none, some, List, [], ◌∷◌, ◌++◌, map, ok, err, if◌then◌else◌,
}
use ubuntu_daemon.Text.{lit, text_eq}
use ubuntu_daemon.Protocol.{ChatMessagePayload, ChatReplyPayload}
use ubuntu_daemon.Files.{Disk}
use ubuntu_daemon.Gateway.Events.{is_terminal_chat_event}
use ubuntu_daemon.Gateway.Collect
use ubuntu_daemon.Gateway.Collect.{
  Read, Services, Ids, Turn, new_turn, note_event, matched, Collected, collect_chat_replies,
  chat_result,
}
use ubuntu_daemon.Gateway.Session.Tokens.{Adapter}
use ubuntu_daemon.Gateway.Session.Wire.{
  Codec, Received, Ending, cancelled, broken, Action, ◌>>=◌, ◌>>◌, handle_control_frame,
}
use ubuntu_daemon.Gateway.Session.Messages.{cloud_msg_id}
use ubuntu_daemon.Gateway.Session.Requests.{
  Link, Setting, connect, subscribe_session_messages, send_chat,
}

abbrev last_read : Ending → Read
last_read (cancelled why) = Collect.cancelled why
last_read (broken why) = Collect.failed why

module _ (a : Adapter) (c : Codec) where
  -- A frame as the loop of `collectChatReplies` takes it; what it passes over is `garbled`.
  unfoldable pub read_of : Received → Read
  read_of f = elim (c.kind f.text) [
    | err why ↦ Collect.garbled
    | ok kind ↦
        if (handle_control_frame a c f []).0
        then Collect.garbled
        else if not (text_eq kind (lit "event"))
        then Collect.garbled
        else elim (c.event f.text) [ err why ↦ Collect.garbled | ok event ↦ Collect.frame event ]
  ]

  -- The disk after one frame.
  unfoldable pub noted : Received → Disk → Disk
  noted f d = elim (c.kind f.text) [ err why ↦ d | ok kind ↦ (handle_control_frame a c f d).1 ]

  -- The disk when the loop ends: what its control frames have stored.
  module _ (sv : Services) (ids : Ids) where
    unfoldable pub collected_disk : Turn → List Received → Disk → Disk
    collected_disk t [] d = d
    collected_disk t (f ∷ rest) d = elim (read_of f) [
      | Collect.frame event ↦ elim (matched ids event) [
        | none ↦ collected_disk t rest (noted f d)
        | some fs ↦ elim (is_terminal_chat_event event.event fs) [
          | true ↦ noted f d
          | false ↦ collected_disk (note_event sv ids fs t) rest (noted f d)
        ]
      ]
      | _ ↦ collected_disk t rest (noted f d)
    ]

module _ (a : Adapter) (c : Codec) (link : Link) where
  unfoldable pub reads : List Received → List Read
  reads frames = map (read_of a c) frames ++ (last_read link.ending ∷ [])

  -- The connection is closed behind it. The case of no result does not occur, since the last read
  -- fails.
  unfoldable pub collect : Services → Ids → Action (List ChatReplyPayload)
  collect sv ids w = (
    elim (chat_result ids (collect_chat_replies sv ids (reads w.incoming))) [
      | none ↦ err []
      | some r ↦ r
    ],
    record w { incoming = []; disk = collected_disk a c sv ids new_turn w.incoming w.disk },
  )

  unfoldable pub chat : Setting → Services → ChatMessagePayload → Action (List ChatReplyPayload)
  chat s sv p = do
    connect a c link s
    let cloud_msg = cloud_msg_id s.times p
    subscribe_session_messages a c link s p.session_id
    run ← send_chat a c link s p cloud_msg
    collect sv (record { session = p.session_id; run = run; cloud_msg = cloud_msg })
