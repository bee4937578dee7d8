-- ===== src/Protocol/Frame.antt =====
-- crates/mymesh-protocol/src/frame.rs: frames on a byte stream. `write_frame` gives the bytes that
-- it hands to the writer, `read_frame` takes a frame off the bytes that the reader has.
pub mod RoundTrip
use my_mesh.Base.{
  ℕ, ◌+◌, ◌-◌, ◌*◌, ◌%◌, ◌^◌, ◌||◌, Option, none, some, ◌∷◌, ◌++◌, arith, ltb, leb, if◌then◌else◌,
  length, take, drop, nat_eq, text_eq, ◌>>=◌, ◌>>◌, Text, be32, of_be32,
}
use my_mesh.Protocol.Channel.{ChannelKind, ChannelId, to_u8, from_u8}

abbrev pub max_frame_bytes : ℕ
max_frame_bytes = 16 * 1024 * 1024

pub record Frame : Type 0 where
  pub channel : ChannelId
  pub payload : Text

-- The `io::Error` of either function.
pub data FrameError : Type 0 where
  frame_too_large invalid_frame_length unknown_channel_kind unexpected_eof : FrameError

pub data Io {ℓ} (A : Type ℓ) : Type ℓ where
  done : A → Io A
  fail : FrameError → Io A

-- The length counts the kind, the stream and the payload, and is cast to `u32`.
unfoldable pub write_frame : Frame → Io Text
write_frame f =
    if ltb max_frame_bytes (length f.payload)
    then fail frame_too_large
    else done (
        be32 ((5 + length f.payload) % 2 ^ 32)
        ++ to_u8 f.channel.kind ∷ be32 f.channel.stream
        ++ f.payload)

read_payload : ℕ → ChannelKind → ℕ → Text → Io (Frame × Text)
read_payload n kind stream s =
    if leb n (length s)
    then done
        (record { channel = record { kind = kind; stream = stream }; payload = take n s }, drop n s)
    else fail unexpected_eof

read_body : ℕ → Option ChannelKind → ℕ → Text → Io (Frame × Text)
unfolding read_payload
read_body len none stream s = fail unknown_channel_kind
read_body len (some kind) stream s = read_payload (len - 5) kind stream s

-- The header is read whole; its length is checked before the kind, and both before the payload.
unfoldable pub read_frame : Text → Io (Frame × Text)
unfolding read_body
read_frame (a ∷ b ∷ c ∷ d ∷ k ∷ e ∷ f ∷ g ∷ h ∷ s) =
    let len = of_be32 a b c d in
    if ltb len 5 || ltb max_frame_bytes (len - 5)
    then fail invalid_frame_length
    else read_body len (from_u8 k) (of_be32 e f g h) s
read_frame _ = fail unexpected_eof
