-- ===== src/Examples/Wire.antt =====
-- The statements on ids, labels and frames, tried.
use my_mesh.Base.{
  ◌≡◌, refl, [], ◌∷◌, ◌++◌, arith, ℕ_discrete, replicate, nat_eq, text_eq, Text, IsBytes,
}
use my_mesh.Core.Identity.{id_eq}
use my_mesh.Protocol.Channel.{files, from_u8}
use my_mesh.Protocol.Frame.{Frame, done, write_frame, read_frame}
use my_mesh.Protocol.Frame.RoundTrip.{read_frame-write_frame}

-- Sixty-three letters and a character of two bytes.
abbrev long_name : Text
long_name = replicate 63 97 ++ 195 ∷ 169 ∷ []

abbrev small_frame : Frame
small_frame = record { channel = record { kind = files; stream = 258 }; payload = 7 ∷ 8 ∷ [] }

read_frame-write_frame_example :
    (bytes : Text) × (write_frame small_frame ≡ done bytes)
    × (read_frame (bytes ++ 9 ∷ []) ≡ done (small_frame, 9 ∷ []))
read_frame-write_frame_example =
    read_frame-write_frame small_frame (9 ∷ []) (omega arith) (omega arith)

abbrev stream : Text
stream = 0 ∷ 0 ∷ 0 ∷ 7 ∷ 3 ∷ 0 ∷ 0 ∷ 1 ∷ 2 ∷ 7 ∷ 8 ∷ 9 ∷ []

stream-IsBytes : IsBytes stream
stream-IsBytes = (
  omega arith,
  (
    omega arith,
    (
      omega arith,
      (
        omega arith,
        (
          omega arith,
          (
            omega arith,
            (
              omega arith,
              (omega arith, (omega arith, (omega arith, (omega arith, (omega arith, tt))))),
            ),
          ),
        ),
      ),
    ),
  ),
)

is_read : read_frame stream ≡ done (small_frame, 9 ∷ [])
unfolding read_frame from_u8 ℕ_discrete
is_read = refl
