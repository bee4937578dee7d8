-- ===== src/Session/Call.antt =====
-- crates/mymesh-session/src/agent.rs: what a handler of the agent works on. Each opens the files of
-- the node again, so the state is the files, and what was handed to connections.
use my_mesh.Base.{
  ℕ, Option, List, [], ◌∷◌, ◌++◌, nat_eq, text_eq, Result, ok, err, panic, JsonFile, Text, ℤ,
}
use my_mesh.Base.Stateful.{Stateful, raise, ◌>>=◌}
use my_mesh.Core.Identity.{DeviceId, id_eq}
use my_mesh.Core.Device.{Capability, DeviceStore, StoreFile, open_store}
use my_mesh.Core.Mesh.{MeshFile, MeshState, KickFile, PendingKickStore, open_kicks, KickCall}
use my_mesh.Crypto.Identity.{Identity}
use my_mesh.Protocol.Frame.{Frame}
use my_mesh.Protocol.Messages.{ControlMessage}
use my_mesh.Session.Handshake.{Codec, Conn, control_frame}

pub record LeaveOutboxItem : Type 0 where
  pub peer : DeviceId
  pub mesh_id : Text
  pub target_id : DeviceId
  pub by_id : DeviceId
  pub ts : ℤ
  pub signature_hex : Text

-- A frame, and the peer whose connection it is handed to.
abbrev pub Sent : Type 0
Sent = DeviceId × Frame

pub record AgentState : Type 0 where
  pub devices : JsonFile StoreFile
  pub mesh : MeshFile
  pub notice : Option Text
  pub kicks : JsonFile KickFile
  pub dirty : Option ℕ
  pub outbox : JsonFile (List LeaveOutboxItem)
  pub sent : List Sent

-- A connection that was made: the handshake's part of it, and what its later `recv_frame` give until
-- the first error or timeout.
pub record Link : Type 0 where
  pub conn : Conn
  pub later : List Frame

-- What the world answers to one call: to its writes, to the clock, to the wish for a UUID (in the
-- second place, that of the mesh made after a kick), and to its dials.
pub record Env : Type 0 where
  pub disk : Option ℕ
  pub now : ℕ
  pub uuid : Text
  pub fresh_uuid : Text
  pub dial : DeviceId → Result Link

-- What the agent is: its identity, its label, the capabilities that its settings let it offer.
pub record Agent : Type 0 where
  pub identity : Identity
  pub label : Text
  pub offered : List Capability

abbrev pub Action : Type 0 → Type 0
Action A = Stateful AgentState A

-- `self.store()` and `self.pending()`.
unfoldable pub open_devices : Action DeviceStore
open_devices w = (open_store w.devices, w)

unfoldable pub open_pending : Action PendingKickStore
open_pending w = (open_kicks w.kicks, w)

-- A call on a store that is open, which leaves its file.
unfoldable pub on_devices :
    {A : Type 0} → (DeviceStore → Result A × DeviceStore) → DeviceStore → Action A
on_devices f s w = let (r, s') = f s in (r, record w { devices = s'.file })

-- The kicks that are left are also kept in memory for the calls after.
unfoldable pub on_kicks :
    {A : Type 0}
    → (PendingKickStore → KickCall A)
    → PendingKickStore
    → Action (A × PendingKickStore)
on_kicks f s w =
    let (r, s') = f s in
    (elim r [ ok a ↦ ok (a, s') | err e ↦ err e | panic ↦ panic ], record w { kicks = s'.file })

unfoldable pub on_mesh : (MeshFile → Result MeshState × MeshFile) → Action MeshState
on_mesh f w = let (r, file) = f w.mesh in (r, record w { mesh = file })

-- `conn.send_frame(..)` of a control message, which is encoded first.
unfoldable pub send_frame : Conn → Frame → Action (Unit {0})
send_frame conn f w = (conn.send f, record w { sent = w.sent ++ (conn.peer, f) ∷ [] })

module _ ⦃codec : Codec⦄ where
  unfoldable pub send_message : Conn → ControlMessage → Action (Unit {0})
  unfolding send_frame
  send_message conn m = do b ← raise (codec.encode m); send_frame conn (control_frame b)
