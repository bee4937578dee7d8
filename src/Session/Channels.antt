-- ===== src/Session/Channels.antt =====
-- crates/mymesh-session/src/agent.rs: what a session does with a frame of each channel. The terminals
-- are a parameter; a tunnel takes the connection over.
pub mod Guarded
use my_mesh.Base.{
  ℕ, Bool, false, ◌||◌, Option, none, some, List, [], ◌∷◌, arith, if◌then◌else◌, nat_eq, text_eq,
  Result, ok, err, panic, Text,
}
use my_mesh.Base.Stateful.{Stateful, pure, raise, ◌>>=◌, ◌>>◌}
use my_mesh.Core.Identity.{Hex, DeviceId, id_eq}
use my_mesh.Core.Device.{Capability, is_trusted, allows}
use my_mesh.Core.Join.{Chrono}
use my_mesh.Crypto.Identity.{Ed25519}
use my_mesh.Protocol.Channel.{ChannelKind, channel}
use my_mesh.Protocol.Frame.{Frame}
use my_mesh.Protocol.Messages.{
  HostMetrics, TerminalMessage, open_shell, FileMessage, put, chunk, done,
}
use my_mesh.Session.Handshake.{Codec, Conn}
use my_mesh.Session.Call.{AgentState, Env, Agent, Action, open_devices, send_frame}
use my_mesh.Session.Agent.{is_ok, handle_control}
use my_mesh.Files.Transfer.{PathBuf, Os, apply_host_message, write_chunk}

-- `TerminalHost`: a new shell, in place of the one that there may be, a message to the one that there
-- is, and its end.
pub record Shells (T : Type 0) : Type 0 where
  pub spawn : ℕ → ℕ → Option Text → T → Result (Unit {0}) × T
  pub tell : TerminalMessage → T → Result (Unit {0}) × T
  pub kill : T → T

-- `decode_msg` and `encode_msg` of the two channels.
pub record ChannelCodec : Type 0 where
  pub decode_file : Text → Result FileMessage
  pub encode_file : FileMessage → Result Text
  pub decode_terminal : Text → Result TerminalMessage
  pub debug_file : FileMessage → Text

-- The state of a session: the node's files, the files that it serves, the shell, and whether there is
-- one, and the path that is being put.
pub record Live (S T : Type 0) : Type 0 where
  pub agent : AgentState
  pub os : S
  pub shells : T
  pub has_shell : Bool
  pub active_put : Option Text

-- How it goes on: with the next frame, or as a tunnel; or the reads of a file had too little fuel.
pub data Next : Type 0 where
  next_frame : Next
  tunnel : Text → Next
  out_of_fuel : Next

-- What a call that returns nothing lets follow.
abbrev pub then_next : Result (Unit {0}) → Result Next
then_next (ok _) = ok next_frame
then_next (err e) = err e
then_next panic = panic

module _ {S T : Type 0} where
  unfoldable pub on_agent : {A : Type 0} → Action A → Stateful (Live S T) A
  on_agent m w = let (r, a) = m w.agent in (r, record w { agent = a })

  unfoldable pub set_put : Option Text → Stateful (Live S T) (Unit {0})
  set_put path w = (ok tt, record w { active_put = path })

  unfoldable pub on_terminal : Shells T → TerminalMessage → Stateful (Live S T) Next
  on_terminal sh (open_shell cols rows shell env) w =
      let (r, t) = sh.spawn cols rows shell w.shells in
      (then_next r, record w { shells = t; has_shell = w.has_shell || is_ok r })
  on_terminal sh m w =
      if w.has_shell
      then (let (r, t) = sh.tell m w.shells in (then_next r, record w { shells = t }))
      else (ok next_frame, w)

  -- `term.take()` and `kill` of the shell that there may be.
  unfoldable pub end_shell : Shells T → Stateful (Live S T) (Unit {0})
  end_shell sh w = (
    ok tt,
    record w { shells = if w.has_shell then sh.kill w.shells else w.shells; has_shell = false },
  )

  module _ ⦃cc : ChannelCodec⦄ (os : Os S) (root : PathBuf) (fuel : ℕ) (conn : Conn) where
    unfoldable pub send_file : FileMessage → Stateful (Live S T) (Unit {0})
    unfolding on_agent send_frame
    send_file m = do
      b ← raise (cc.encode_file m)
      on_agent (send_frame conn (record { channel = channel ChannelKind.files 1; payload = b }))

    unfoldable pub send_files : List FileMessage → Stateful (Live S T) (Unit {0})
    unfolding send_file
    send_files [] = pure tt
    send_files (m ∷ ms) = do send_file m; send_files ms

    -- `apply_host_message`, whose replies are sent.
    unfoldable pub answer : FileMessage → Stateful (Live S T) Next
    unfolding apply_host_message send_files
    answer m w = elim (apply_host_message os root cc.debug_file fuel m w.os) [
      | none ↦ (ok out_of_fuel, w)
      | some (r, s) ↦
          (do replies ← raise r; send_files replies; pure next_frame) (record w { os = s })
    ]

    -- A `Put` is passed on without its size, mode and position.
    unfoldable pub on_file : FileMessage → Stateful (Live S T) Next
    unfolding answer set_put send_file write_chunk
    on_file (put path size mode resume_from) w =
        (do set_put (some path); answer (put path 0 420 0)) w
    on_file (chunk offset bytes) w = elim w.active_put [
      | none ↦ (ok next_frame, w)
      | some path ↦
          let (r, s) = write_chunk os root path offset bytes w.os in
          (then_next r, record w { os = s })
    ]
    on_file (done path bytes) w = (do send_file (done path bytes); set_put none; pure next_frame) w
    on_file m w = answer m w

    module _ ⦃hex : Hex⦄ ⦃chrono : Chrono⦄ ⦃ed : Ed25519⦄ ⦃codec : Codec⦄ (sh : Shells T)
        (env : Env) (agent : Agent) (metrics : ℕ → HostMetrics) (peer : DeviceId) where
      unfoldable pub on_frame : Frame → Stateful (Live S T) Next
      unfolding on_agent on_terminal on_file open_devices handle_control end_shell
      on_frame f = elim f.channel.kind [
        | ChannelKind.terminal ↦ do
          store ← on_agent open_devices
          if allows store peer Capability.terminal
              then (do m ← raise (cc.decode_terminal f.payload); on_terminal sh m)
              else pure next_frame
        | ChannelKind.files ↦ do
          store ← on_agent open_devices
          if allows store peer Capability.files
              then (do m ← raise (cc.decode_file f.payload); on_file m)
              else pure next_frame
        | ChannelKind.control ↦ do
          m ← raise (codec.decode f.payload)
          on_agent (handle_control env agent metrics conn peer m)
          pure next_frame
        | ChannelKind.desktop ↦ pure next_frame
        | ChannelKind.tcp ↦ do
          store ← on_agent open_devices
          if is_trusted store peer
              then (do end_shell sh; pure (tunnel f.payload))
              else pure next_frame
      ]
