-- ===== src/Protocol/Messages.antt =====
-- crates/mymesh-protocol/src/messages.rs: the messages of each channel. A float is the number of its
-- bits, a UUID its text; keys, signatures and digests are byte strings.
use my_mesh.Base.{ℕ, Bool, Option, List, nat_eq, text_eq, Text, ℤ}
use my_mesh.Core.Identity.{DeviceId, id_eq}
use my_mesh.Core.Device.{Capability}
use my_mesh.Protocol.Channel.{ChannelKind}

pub record MeshMemberWire : Type 0 where
  pub id : DeviceId
  pub label : Text
  pub fingerprint : Text
  pub capabilities : List Capability
  pub linked_at_unix : ℤ

-- What both `MembershipSnapshot` and `MembershipAnnounce` carry.
pub record Membership : Type 0 where
  pub mesh_id : Text
  pub from_id : DeviceId
  pub from_label : Text
  pub members : List MeshMemberWire
  pub ts : ℤ
  pub signature : Text

pub record KickAnnouncement : Type 0 where
  pub mesh_id : Text
  pub target_id : DeviceId
  pub target_label : Text
  pub by_id : DeviceId
  pub by_label : Text
  pub message : Text
  pub ts : ℤ
  pub force : Bool
  pub expected : List DeviceId
  pub signature : Text

pub record KickNotice : Type 0 where
  pub mesh_id : Text
  pub by_id : DeviceId
  pub by_label : Text
  pub message : Text
  pub ts : ℤ
  pub force : Bool
  pub signature : Text

pub record KickLeave : Type 0 where
  pub mesh_id : Text
  pub target_id : DeviceId
  pub by_id : DeviceId
  pub ts : ℤ
  pub signature : Text

pub record HostMetrics : Type 0 where
  pub nonce : ℕ
  pub cpu_pct : ℕ
  pub mem_used_bytes : ℕ
  pub mem_total_bytes : ℕ
  pub disk_used_bytes : ℕ
  pub disk_total_bytes : ℕ
  pub net_rx_bytes : ℕ
  pub net_tx_bytes : ℕ
  pub load_1 : ℕ
  pub uptime_secs : ℕ
  pub hostname : Text
  pub ts_unix : ℤ

pub data ControlMessage : Type 0 where
  hello :
      (protocol_version : ℕ) (device_id : DeviceId) (label : Text) (capabilities : List Capability)
      (signature : Text)
      → ControlMessage
  hello_ack :
      (device_id : DeviceId) (label : Text) (accepted_capabilities : List Capability)
      (signature : Text)
      → ControlMessage
  ping : (nonce : ℕ) → ControlMessage
  pong : (nonce : ℕ) → ControlMessage
  error : (code : ℕ) (message : Text) → ControlMessage
  open_channel : (request_id : Text) (kind : ChannelKind) → ControlMessage
  channel_ready : (request_id : Text) (stream : ℕ) → ControlMessage
  close_channel : (stream : ℕ) (reason : Text) → ControlMessage
  join_request :
      (protocol_version : ℕ) (device_id : DeviceId) (label : Text) (verifying_key : Text)
      (capabilities : List Capability) (ts : ℤ) (signature : Text)
      → ControlMessage
  join_pending : (host_id : DeviceId) (host_label message : Text) → ControlMessage
  join_accept :
      (device_id : DeviceId) (label : Text) (capabilities : List Capability) (signature : Text)
      → ControlMessage
  join_deny : (reason : Text) → ControlMessage
  host_metrics_request : (nonce : ℕ) → ControlMessage
  host_metrics : HostMetrics → ControlMessage
  metrics_poll_enable : (interval_secs duration_secs : ℕ) → ControlMessage
  metrics_poll_disable : ControlMessage
  membership_request : (nonce : ℕ) → ControlMessage
  membership_snapshot : (nonce : ℕ) → Membership → ControlMessage
  membership_announce : Membership → ControlMessage
  kick_announce : KickAnnouncement → ControlMessage
  kick_notice : KickNotice → ControlMessage
  kick_leave_ack : KickLeave → ControlMessage
  kick_member_ack : (mesh_id : Text) (target_id from_id : DeviceId) (ts : ℤ) → ControlMessage
  kick_ack : (accepted : Bool) → ControlMessage

pub data TerminalMessage : Type 0 where
  open_shell : (cols rows : ℕ) (shell : Option Text) (env : List (Text × Text)) → TerminalMessage
  resize : (cols rows : ℕ) → TerminalMessage
  input : Text → TerminalMessage
  output : Text → TerminalMessage
  exit : (code : ℤ) → TerminalMessage

pub record FileEntry : Type 0 where
  pub name : Text
  pub path : Text
  pub is_dir : Bool
  pub size : ℕ
  pub modified : Option ℤ
  pub mode : ℕ

pub data FileMessage : Type 0 where
  list : (path : Text) → FileMessage
  list_result : (entries : List FileEntry) → FileMessage
  stat : (path : Text) → FileMessage
  stat_result : (entry : FileEntry) → FileMessage
  get : (path : Text) (offset : ℕ) (len : Option ℕ) → FileMessage
  put : (path : Text) (size mode resume_from : ℕ) → FileMessage
  chunk : (offset : ℕ) (bytes : Text) → FileMessage
  done : (path : Text) (bytes : ℕ) → FileMessage
  mkdir : (path : Text) → FileMessage
  remove : (path : Text) (recursive : Bool) → FileMessage
  rename : (source target : Text) → FileMessage
  error : (message : Text) → FileMessage

-- The messages of the pairing ceremony.
pub record IdentityCard : Type 0 where
  pub device_id : DeviceId
  pub label : Text
  pub verifying_key : Text
  pub capabilities : List Capability
  pub signature : Text
  pub binder : Text

pub data PairingMessage : Type 0 where
  spake : Text → PairingMessage
  identity_offer : IdentityCard → PairingMessage
  identity_accept : IdentityCard → PairingMessage
  reject : (reason : Text) → PairingMessage

pub data TcpMessage : Type 0 where
  dial : (port : ℕ) (host : Option Text) → TcpMessage
  dial_ok : TcpMessage
  dial_err : (message : Text) → TcpMessage
  tcp_data : (bytes : Text) → TcpMessage
  close : (reason : Text) → TcpMessage
