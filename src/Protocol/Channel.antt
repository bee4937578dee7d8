-- ===== src/Protocol/Channel.antt =====
-- crates/mymesh-protocol/src/channel.rs: the kinds of channels and their numbers.
use my_mesh.Base.{ℕ, ◌≡◌, ◌↔◌, Option, none, some, arith, if◌then◌else◌, Eq, ◌==◌, nat_eq, text_eq}

pub data ChannelKind : Type 0 where
  control terminal files desktop tcp : ChannelKind

pub ChannelKind-discrete : Discrete ChannelKind
ChannelKind-discrete = hlevel

instance abbrev pub kind_eq : Eq ChannelKind
kind_eq = record { dec = ChannelKind-discrete }

-- `kind as u8`.
unfoldable pub to_u8 : ChannelKind → ℕ
to_u8 control = 1
to_u8 terminal = 2
to_u8 files = 3
to_u8 desktop = 4
to_u8 tcp = 5

unfoldable pub from_u8 : ℕ → Option ChannelKind
from_u8 v =
    if v == 1
    then some control
    else if v == 2
    then some terminal
    else if v == 3
    then some files
    else if v == 4
    then some desktop
    else if v == 5
    then some tcp
    else none

pub record ChannelId : Type 0 where
  pub kind : ChannelKind
  pub stream : ℕ

-- `ChannelId::control()`, and the channels of the other kinds at a stream.
abbrev pub control_channel : ChannelId
control_channel = record { kind = control; stream = 0 }

abbrev pub channel : ChannelKind → ℕ → ChannelId
channel kind stream = record { kind = kind; stream = stream }

-- The numbers 1 to 5 are those of the kinds, and no other number is read as a kind.
pub from_u8_iff : (v : ℕ) (k : ChannelKind) → (from_u8 v ≡ some k) ↔ (v ≡ to_u8 k)
unfolding from_u8 to_u8
from_u8_iff v control = ground arith
from_u8_iff v terminal = ground arith
from_u8_iff v files = ground arith
from_u8_iff v desktop = ground arith
from_u8_iff v tcp = ground arith
