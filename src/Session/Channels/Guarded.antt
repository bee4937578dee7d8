-- ===== src/Session/Channels/Guarded.antt =====
-- crates/mymesh-session/src/agent.rs: what a peer needs to be allowed for, in a session.
use my_mesh.Base.{
  ℕ, ◌≡◌, refl, ◌⊎◌, inl, inr, ◌↔◌, if◌then◌else◌, Bool, true, false, some, List, [], ◌∷◌, arith,
  Bool-cases, Option-cases, Result-cases, nat_eq, text_eq, Result, ok,
}
use my_mesh.Core.Identity.{Hex, DeviceId, id_eq}
use my_mesh.Core.Device.{Capability, DeviceStore, open_store, is_trusted, allows}
use my_mesh.Core.Join.{Chrono}
use my_mesh.Crypto.Identity.{Ed25519}
use my_mesh.Protocol.Channel.{ChannelKind}
use my_mesh.Protocol.Frame.{Frame}
use my_mesh.Protocol.Messages.{
  HostMetrics, TerminalMessage, open_shell, FileMessage, put, chunk, done,
}
use my_mesh.Session.Handshake.{Codec, Conn}
use my_mesh.Session.Call.{Env, Agent, open_devices, send_frame}
use my_mesh.Files.Transfer.{PathBuf, Os, apply_host_message}
use my_mesh.Session.Channels.{
  Shells, ChannelCodec, Live, Next, tunnel, on_agent, set_put, send_file, send_files, answer,
  on_terminal, on_file, end_shell, on_frame,
}

-- Whether a call ends in a tunnel.
unfoldable pub is_tunnel : Result Next → Bool
is_tunnel (ok (tunnel payload)) = true
is_tunnel _ = false

-- That the shells are as they were.
abbrev HasShells : {S T : Type 0} → Live S T → Live S T → Type 0
HasShells w w' = (w'.shells ≡ w.shells) × (w'.has_shell ≡ w.has_shell)

kind-cases :
    (k : ChannelKind)
    → (k ≡ ChannelKind.terminal)
      ⊎ (k ≡ ChannelKind.files)
      ⊎ (k ≡ ChannelKind.control)
      ⊎ (k ≡ ChannelKind.desktop)
      ⊎ (k ≡ ChannelKind.tcp)
kind-cases ChannelKind.terminal = inl refl
kind-cases ChannelKind.files = inr (inl refl)
kind-cases ChannelKind.control = inr (inr (inl refl))
kind-cases ChannelKind.desktop = inr (inr (inr (inl refl)))
kind-cases ChannelKind.tcp = inr (inr (inr (inr refl)))

module _ {S T : Type 0} (sh : Shells T) where
  on_terminal-os :
      (m : TerminalMessage) (w : Live S T)
      → ((on_terminal sh m w).1.os ≡ w.os) × (is_tunnel (on_terminal sh m w).0 ≡ false)
  unfolding on_terminal is_tunnel
  on_terminal-os (open_shell cols rows shell env) w = ground arith
  on_terminal-os _ w = ground arith

module _ {S T : Type 0} ⦃cc : ChannelCodec⦄ (os : Os S) (root : PathBuf) (fuel : ℕ)
    (conn : Conn) where
  send_files-HasShells :
      (ms : List FileMessage) (w : Live S T) → HasShells w (send_files os root fuel conn ms w).1
  unfolding send_files send_file on_agent send_frame
  send_files-HasShells [] w = (refl, refl)
  send_files-HasShells (m ∷ ms) w =
      let w' = (send_file os root fuel conn m w).1 in ground (arith, send_files-HasShells ms w')

  answer-HasShells :
      (m : FileMessage) (w : Live S T)
      → HasShells w (answer os root fuel conn m w).1
        × (is_tunnel (answer os root fuel conn m w).0 ≡ false)
  unfolding answer is_tunnel
  answer-HasShells m w =
      elim (Option-cases (apply_host_message os root cc.debug_file fuel m w.os)) [
        | inl short_ ↦ ground (arith, short_)
        | inr ((r, st), ran) ↦ elim (Result-cases r) [
          | inr bad ↦ ground (arith, ran, bad)
          | inl (replies, good) ↦
              ground (arith, ran, good, send_files-HasShells replies (record w { os = st }))
        ]
      ]

  on_file-HasShells :
      (m : FileMessage) (w : Live S T)
      → HasShells w (on_file os root fuel conn m w).1
        × (is_tunnel (on_file os root fuel conn m w).0 ≡ false)
  unfolding on_file set_put is_tunnel send_file on_agent send_frame
  on_file-HasShells (put path size mode resume_from) w =
      answer-HasShells (put path 0 420 0) (record w { active_put = some path })
  on_file-HasShells (chunk offset bytes) w = ground arith
  on_file-HasShells (done path bytes) w = ground arith
  on_file-HasShells m w = answer-HasShells m w

  module _ ⦃hex : Hex⦄ ⦃chrono : Chrono⦄ ⦃ed : Ed25519⦄ ⦃codec : Codec⦄ (sh : Shells T) (env : Env)
      (agent : Agent) (metrics : ℕ → HostMetrics) (peer : DeviceId) where
    -- Where the device file can be read, a frame of a session changes the files that are served
    -- only on the files channel, from a peer that the store allows files; it ends in a tunnel
    -- exactly on the TCP channel, from a peer that is trusted; a tunnel kills the shell that there
    -- is and leaves none, and what ends in no tunnel changes the shells only on the terminal
    -- channel, from a peer that the store allows the terminal.
    pub on_frame_guarded :
        (f : Frame) (w : Live S T) (s : DeviceStore)
        → open_store w.agent.devices ≡ ok s
        → (let (r, w') = on_frame os root fuel conn sh env agent metrics peer f w in
            ((w'.os ≡ w.os)
              ⊎ ((f.channel.kind ≡ ChannelKind.files) × (allows s peer Capability.files ≡ true)))
            × ((is_tunnel r ≡ true)
                ↔ ((f.channel.kind ≡ ChannelKind.tcp) × (is_trusted s peer ≡ true)))
            × (((is_tunnel r ≡ true)
                  × (w'.shells ≡ (if w.has_shell then sh.kill w.shells else w.shells))
                  × (w'.has_shell ≡ false))
                ⊎ ((is_tunnel r ≡ false) × (w'.shells ≡ w.shells) × (w'.has_shell ≡ w.has_shell))
                ⊎ ((is_tunnel r ≡ false)
                    × (f.channel.kind ≡ ChannelKind.terminal)
                    × (allows s peer Capability.terminal ≡ true))))
    unfolding on_frame on_agent open_devices is_tunnel end_shell
    on_frame_guarded f w s e = elim (kind-cases f.channel.kind) [
      | inl k ↦ elim (Bool-cases (allows s peer Capability.terminal)) [
        | inr off ↦ ground (arith, e, k, off)
        | inl on ↦ elim (Result-cases (cc.decode_terminal f.payload)) [
          | inr bad ↦ ground (arith, e, k, on, bad)
          | inl (m, read) ↦ ground (arith, e, k, on, read, on_terminal-os sh m w)
        ]
      ]
      | inr (inl k) ↦ elim (Bool-cases (allows s peer Capability.files)) [
        | inr off ↦ ground (arith, e, k, off)
        | inl on ↦ elim (Result-cases (cc.decode_file f.payload)) [
          | inr bad ↦ ground (arith, e, k, on, bad)
          | inl (m, read) ↦ ground (arith, e, k, on, read, on_file-HasShells m w)
        ]
      ]
      | inr (inr (inl k)) ↦ ground (arith, e, k)
      | inr (inr (inr (inl k))) ↦ ground (arith, e, k)
      | inr (inr (inr (inr k))) ↦ ground (arith, e, k)
    ]
