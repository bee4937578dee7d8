-- ===== src/Examples/Agents.antt =====
-- The statements on the agent, tried.
use my_mesh.Base.{
  ℕ, zero, suc, ◌≡◌, refl, ◌≢◌, true, false, none, some, [], ◌∷◌, arith, ℕ_discrete, replicate,
  text_discrete, nat_eq, text_eq, io, Result, ok, err, missing, holds, Text, IsBytes, pos,
}
use my_mesh.Base.Dict.{lookup, insert}
use my_mesh.Core.Identity.{DeviceId, DeviceId-discrete, id_eq}
use my_mesh.Core.Device.{
  terminal, DeviceStore, trusted, open_store, collect, file_of, get, is_trusted,
}
use my_mesh.Core.Mesh.{PendingKick, PendingKickStore, open_kicks, get_kick}
use my_mesh.Crypto.Identity.{device_id}
use my_mesh.Protocol.Messages.{ControlMessage, kick_announce, HostMetrics}
use my_mesh.Base.{◌↔◌, ◌⊎◌, true}
use my_mesh.Core.Device.{Capability, allows}
use my_mesh.Protocol.Channel.{ChannelKind, channel}
use my_mesh.Protocol.Frame.{Frame}
use my_mesh.Protocol.Messages.{open_shell, stat}
use my_mesh.Session.Channels.{Shells, ChannelCodec, Live, Next, on_frame}
use my_mesh.Session.Channels.Guarded.{is_tunnel, on_frame_guarded}
use my_mesh.Examples.Services.{root, system}
use my_mesh.Session.Handshake.{Conn}
use my_mesh.Session.Call.{LeaveOutboxItem, AgentState, Env, Agent}
use my_mesh.Session.Agent.{handle_control}
use my_mesh.Session.Agent.Guards.{is_authorised, handle_control_unauthorised}
use my_mesh.Session.Delivery.{item_signature, dial_kick_notice, flush_leave_outbox, notice_of}
use my_mesh.Session.Delivery.Lost.{flush_leave_outbox_lost, dial_kick_notice_failed}
use my_mesh.Examples.Plain.{encode, decode-encode, plain_hex, plain_ed, plain_chrono}
use my_mesh.Examples.Table.{table_codec}
use my_mesh.Examples.Devices.{alice, bob, carol, device, id_of-IsId}

-- Nobody can be dialled.
abbrev offline : Env
offline = record {
  disk = none;
  now = 0;
  uuid = 109 ∷ [];
  fresh_uuid = 110 ∷ [];
  dial = λ peer. err (io 111);
}

abbrev alice_agent : Agent
alice_agent = record {
  identity = record { secret = replicate 32 1 };
  label = 97 ∷ [];
  offered = terminal ∷ [];
}

abbrev no_signature : Text
no_signature = replicate 64 7

-- What Alice has to tell Bob of her leaving.
abbrev leaving : LeaveOutboxItem
leaving = record {
  peer = bob;
  mesh_id = 109 ∷ [];
  target_id = alice;
  by_id = bob;
  ts = pos 0;
  signature_hex = encode no_signature;
}

-- Alice has nobody stored any more.
abbrev kicked : AgentState
kicked = record {
  devices = missing;
  mesh = missing;
  notice = none;
  kicks = missing;
  dirty = none;
  outbox = holds (leaving ∷ []);
  sent = [];
}

abbrev empty_store : DeviceStore
empty_store = record { devices = []; file = missing }

opens : open_store kicked.devices ≡ ok empty_store
unfolding open_store
opens = refl

nobody : (j : DeviceId) → is_trusted empty_store j ≡ false
unfolding is_trusted get lookup
nobody j = refl

no_signature-IsBytes : (n : ℕ) → IsBytes (replicate n 7)
no_signature-IsBytes zero = tt
no_signature-IsBytes (suc n) = (omega arith, no_signature-IsBytes n)

reads_back : item_signature ⦃hex = plain_hex⦄ leaving ≡ some no_signature
unfolding item_signature ℕ_discrete
reads_back = rw (item_signature, decode-encode no_signature (no_signature-IsBytes 64)) refl

one_item : leaving ∷ [] ≢ []
one_item e = absurd cc

flush_leave_outbox_lost_example :
    flush_leave_outbox ⦃hex = plain_hex⦄ ⦃chrono = plain_chrono⦄ ⦃ed = plain_ed⦄
      ⦃codec = table_codec []⦄ offline alice_agent kicked
    ≡ (ok tt, record kicked { outbox = missing })
flush_leave_outbox_lost_example =
    flush_leave_outbox_lost ⦃hex = plain_hex⦄ ⦃chrono = plain_chrono⦄ ⦃ed = plain_ed⦄
      ⦃codec = table_codec []⦄ offline alice_agent (leaving ∷ []) kicked empty_store refl opens
      nobody ((no_signature, reads_back), tt) one_item refl

-- A kick of Bob that waits.
abbrev waiting : PendingKick
waiting = record {
  target_id = bob;
  target_label = 98 ∷ [];
  by_id = alice;
  by_label = 97 ∷ [];
  mesh_id = 109 ∷ [];
  message = [];
  ts = pos 0;
  signature = [];
  force = false;
  created_at = 0;
  delivered_to_target = false;
  acks = [];
  expected = [];
}

abbrev kicking : AgentState
kicking = record kicked { kicks = holds ((48 ∷ [], waiting) ∷ []) }

abbrev one_kick : PendingKickStore
one_kick = record { kicks = (bob, waiting) ∷ []; file = kicking.kicks }

opens_kicks : open_kicks kicking.kicks ≡ ok one_kick
unfolding open_kicks collect insert
opens_kicks = refl

finds : get_kick one_kick bob ≡ some waiting
unfolding get_kick lookup DeviceId-discrete text_discrete ℕ_discrete
finds = refl

not_stored : get empty_store bob ≡ none
unfolding get lookup
not_stored = refl

abbrev dialled : Result (Unit {0}) × AgentState
dialled =
    dial_kick_notice ⦃hex = plain_hex⦄ ⦃chrono = plain_chrono⦄ ⦃ed = plain_ed⦄
      ⦃codec = table_codec []⦄ offline alice_agent bob (notice_of waiting) kicking

dial_kick_notice_failed_example :
    (s' : DeviceStore) × (open_store dialled.1.devices ≡ ok s')
    × (is_trusted s' bob ≡ true)
    × (dialled.0 ≡ err (io 111))
dial_kick_notice_failed_example =
    dial_kick_notice_failed ⦃hex = plain_hex⦄ ⦃chrono = plain_chrono⦄ ⦃ed = plain_ed⦄
      ⦃codec = table_codec []⦄ offline alice_agent bob (notice_of waiting) kicking empty_store
      one_kick waiting (io 111) refl opens tt not_stored opens_kicks finds
      (id_of-IsId 2 (omega arith)) (omega arith) refl

-- A kick of Carol that Bob passes on, as if Alice had announced it.
abbrev forged : ControlMessage
forged = kick_announce (record {
  mesh_id = 109 ∷ [];
  target_id = carol;
  target_label = [];
  by_id = alice;
  by_label = [];
  message = [];
  ts = pos 0;
  force = true;
  expected = [];
  signature = [];
})

abbrev trusting : AgentState
trusting = record kicked {
  devices = holds (file_of ⦃hex = plain_hex⦄ ((bob, device bob (98 ∷ []) trusted) ∷ []));
}

abbrev bob_store : DeviceStore
bob_store = record { devices = (bob, device bob (98 ∷ []) trusted) ∷ []; file = trusting.devices }

opens_bob : open_store trusting.devices ≡ ok bob_store
unfolding open_store file_of collect insert
opens_bob = refl

not_authorised :
    is_authorised ⦃hex = plain_hex⦄ ⦃ed = plain_ed⦄ bob_store
      (device_id ⦃ed = plain_ed⦄ alice_agent.identity)
      bob
      forged
    ≡ false
unfolding is_authorised is_trusted get lookup DeviceId-discrete text_discrete ℕ_discrete
not_authorised = refl

abbrev no_metrics : ℕ → HostMetrics
no_metrics n = record {
  nonce = n;
  cpu_pct = 0;
  mem_used_bytes = 0;
  mem_total_bytes = 0;
  disk_used_bytes = 0;
  disk_total_bytes = 0;
  net_rx_bytes = 0;
  net_tx_bytes = 0;
  load_1 = 0;
  uptime_secs = 0;
  hostname = [];
  ts_unix = pos 0;
}

abbrev with_bob : Conn
with_bob = record { peer = bob; recv = err (io 1); send = λ f. ok tt }

abbrev handled : AgentState
handled =
    (handle_control ⦃hex = plain_hex⦄ ⦃chrono = plain_chrono⦄ ⦃ed = plain_ed⦄
      ⦃codec = table_codec []⦄ offline alice_agent no_metrics with_bob bob forged trusting).1

handle_control_unauthorised_example :
    (handled.devices ≡ trusting.devices)
    × (handled.notice ≡ trusting.notice)
    × (handled.outbox ≡ trusting.outbox)
handle_control_unauthorised_example =
    handle_control_unauthorised ⦃hex = plain_hex⦄ ⦃chrono = plain_chrono⦄ ⦃ed = plain_ed⦄
      ⦃codec = table_codec []⦄ offline alice_agent no_metrics with_bob bob forged trusting bob_store
      opens_bob not_authorised

-- A session with Bob, which serves files and counts what is asked of its shells.
abbrev some_shells : Shells ℕ
some_shells = record {
  spawn = λ cols rows shell t. (ok tt, suc t);
  tell = λ m t. (ok tt, suc t);
  kill = λ t. suc t;
}

abbrev one_message : ChannelCodec
one_message = record {
  decode_file = λ b. ok (stat (97 ∷ []));
  encode_file = λ m. ok [];
  decode_terminal = λ b. ok (open_shell 80 24 none []);
  debug_file = λ m. [];
}

abbrev live : Live ℕ ℕ
live = record { agent = trusting; os = 0; shells = 0; has_shell = true; active_put = none }

abbrev to_port : Frame
to_port = record { channel = channel ChannelKind.tcp 1; payload = 56 ∷ 48 ∷ [] }

abbrev framed : Result Next × Live ℕ ℕ
framed =
    on_frame ⦃cc = one_message⦄ (system 2) root 4 with_bob ⦃hex = plain_hex⦄ ⦃chrono = plain_chrono⦄
      ⦃ed = plain_ed⦄ ⦃codec = table_codec []⦄ some_shells offline alice_agent no_metrics bob
      to_port live

on_frame_guarded_example :
    ((framed.1.os ≡ 0)
      ⊎ ((to_port.channel.kind ≡ ChannelKind.files)
          × (allows bob_store bob Capability.files ≡ true)))
    × ((is_tunnel framed.0 ≡ true)
        ↔ ((to_port.channel.kind ≡ ChannelKind.tcp) × (is_trusted bob_store bob ≡ true)))
    × (((is_tunnel framed.0 ≡ true) × (framed.1.shells ≡ 1) × (framed.1.has_shell ≡ false))
        ⊎ ((is_tunnel framed.0 ≡ false) × (framed.1.shells ≡ 0) × (framed.1.has_shell ≡ true))
        ⊎ ((is_tunnel framed.0 ≡ false)
            × (to_port.channel.kind ≡ ChannelKind.terminal)
            × (allows bob_store bob Capability.terminal ≡ true)))
on_frame_guarded_example =
    on_frame_guarded ⦃cc = one_message⦄ (system 2) root 4 with_bob ⦃hex = plain_hex⦄
      ⦃chrono = plain_chrono⦄ ⦃ed = plain_ed⦄ ⦃codec = table_codec []⦄ some_shells offline
      alice_agent no_metrics bob to_port live bob_store opens_bob
