-- ===== src/Net/Rendezvous.antt =====
-- crates/mymesh-net/src/rendezvous.rs: the mailbox in which two nodes that pair leave messages. A call
-- holds the lock for its whole work on the boxes, so calls come one after another. A receiver is a
-- number; what is handed to the channel on which it waits is what the call returns.
pub mod Lanes
pub mod Fifo
use my_mesh.Base.{
  ℕ, ◌+◌, Bool, true, false, none, some, List, [], ◌∷◌, ◌++◌, arith, nat_eq, text_eq, ◌>>=◌, ◌>>◌,
  Text,
}
use my_mesh.Base.Dict.{Dict, lookup, insert}
use my_mesh.Protocol.Messages.{PairingMessage}

pub record Lane : Type 0 where
  pub queue : List PairingMessage
  pub waiters : List ℕ

abbrev pub empty_lane : Lane
empty_lane = record { queue = []; waiters = [] }

-- A message that is handed to a receiver.
abbrev pub Delivery : Type 0
Delivery = ℕ × PairingMessage

unfoldable pub push : PairingMessage → Lane → List Delivery × Lane
push m l = elim l.waiters [
  | [] ↦ ([], record l { queue = l.queue ++ m ∷ [] })
  | w ∷ ws ↦ ((w, m) ∷ [], record l { waiters = ws })
]

unfoldable pub take_or_wait : ℕ → Lane → List Delivery × Lane
take_or_wait receiver l = elim l.queue [
  | [] ↦ ([], record l { waiters = l.waiters ++ receiver ∷ [] })
  | m ∷ ms ↦ ((receiver, m) ∷ [], record l { queue = ms })
]

pub record Duplex : Type 0 where
  pub h2g : Lane
  pub g2h : Lane

-- `LocalRendezvous`, by the pairing code.
abbrev pub LocalRendezvous : Type 0
LocalRendezvous = Dict Text Duplex

unfoldable pub duplex : Text → LocalRendezvous → Duplex
duplex code d = elim (lookup code d) [
  | none ↦ record { h2g = empty_lane; g2h = empty_lane }
  | some box ↦ box
]

unfoldable pub send :
    Text → Bool → PairingMessage → LocalRendezvous → List Delivery × LocalRendezvous
unfolding duplex push
send code true m d =
    let box = duplex code d in
    let (out, l) = push m box.h2g in (out, insert code (record box { h2g = l }) d)
send code false m d =
    let box = duplex code d in
    let (out, l) = push m box.g2h in (out, insert code (record box { g2h = l }) d)

-- The part of `recv` that holds the lock: what it does not return at once it waits for.
unfoldable pub recv : Text → Bool → ℕ → LocalRendezvous → List Delivery × LocalRendezvous
unfolding duplex take_or_wait
recv code true receiver d =
    let box = duplex code d in
    let (out, l) = take_or_wait receiver box.g2h in (out, insert code (record box { g2h = l }) d)
recv code false receiver d =
    let box = duplex code d in
    let (out, l) = take_or_wait receiver box.h2g in (out, insert code (record box { h2g = l }) d)

-- A call, by either side of a pairing.
pub data Use : Type 0 where
  sends : (code : Text) (as_host : Bool) → PairingMessage → Use
  receives : (code : Text) (as_host : Bool) (receiver : ℕ) → Use

unfoldable pub call : Use → LocalRendezvous → List Delivery × LocalRendezvous
unfolding send recv
call (sends code as_host m) d = send code as_host m d
call (receives code as_host receiver) d = recv code as_host receiver d

-- The calls in turn, and what each handed over.
unfoldable pub run : List Use → LocalRendezvous → List (Use × List Delivery) × LocalRendezvous
unfolding call
run [] d = ([], d)
run (u ∷ us) d = let (out, d') = call u d in let (outs, e) = run us d' in ((u, out) ∷ outs, e)
