-- ===== src/Net/Rendezvous/Fifo.antt =====
-- crates/mymesh-net/src/rendezvous.rs: the mailbox keeps its codes and its two directions apart, and
-- each hands over in order.
use my_mesh.Base.{
  ◌≡◌, refl, ap, ◌∙◌, inl, inr, Bool, true, false, not, ◌&&◌, List, [], ◌∷◌, ◌++◌, map, arith,
  if◌then◌else◌, Bool-cases, keep_if, ◌==◌, ==_iff, nat_eq, text_eq, Text,
}
use my_mesh.Base.Dict.{lookup, insert, lookup-insert}
use my_mesh.Net.Rendezvous.{
  Lane, empty_lane, Delivery, push, take_or_wait, Duplex, LocalRendezvous, duplex, send, recv, Use,
  sends, receives, call, run,
}
use my_mesh.Net.Rendezvous.Lanes.{
  LaneUse, pushes, takes, lane_call, lane_run, pushed, taken, matched, unmatched, lane_run_lem,
}

-- Whether a call is about what goes to the guest: what the host sends, and what the guest receives.
abbrev to_guest : Use → Bool
to_guest (sends code as_host m) = as_host
to_guest (receives code as_host receiver) = not as_host

abbrev code_of : Use → Text
code_of (sends code as_host m) = code
code_of (receives code as_host receiver) = code

abbrev as_lane_use : Use → LaneUse
as_lane_use (sends code as_host m) = pushes m
as_lane_use (receives code as_host receiver) = takes receiver

abbrev is_same : Bool → Bool → Bool
is_same true b = b
is_same false b = not b

-- Whether a call is about a code and a direction.
unfoldable pub is_about : Text → Bool → Use → Bool
is_about code guest u = code_of u == code && is_same guest (to_guest u)

unfoldable pub lane_of : Text → Bool → LocalRendezvous → Lane
unfolding duplex
lane_of code true d = (duplex code d).h2g
lane_of code false d = (duplex code d).g2h

-- The calls about a code and a direction, and what these handed over.
unfoldable pub uses_of : Text → Bool → List Use → List LaneUse
unfolding is_about
uses_of code guest us = map as_lane_use (keep_if (is_about code guest) us)

unfoldable pub handed : Text → Bool → List (Use × List Delivery) → List Delivery
unfolding is_about
handed code guest [] = []
handed code guest ((u, out) ∷ outs) =
    let rest = handed code guest outs in if is_about code guest u then out ++ rest else rest

lane_of_empty : (code : Text) (guest : Bool) → lane_of code guest [] ≡ empty_lane
unfolding lane_of lookup
lane_of_empty code true = refl
lane_of_empty code false = refl

module _ (code : Text) (guest : Bool) where
  -- A box that is put back shows under its own code only.
  lane_of-insert :
      (c : Text) (box : Duplex) (d : LocalRendezvous)
      → lane_of code guest (insert c box d)
        ≡ (if c == code then (if guest then box.h2g else box.g2h) else lane_of code guest d)
  unfolding lane_of duplex
  lane_of-insert c box d = ground (arith, lookup-insert code c box d)

  call_about :
      (u : Use) (d : LocalRendezvous)
      → is_about code guest u ≡ true
      → ((call u d).0 ≡ (lane_call (as_lane_use u) (lane_of code guest d)).0)
        × (lane_of code guest (call u d).1 ≡ (lane_call (as_lane_use u) (lane_of code guest d)).1)
  unfolding is_about call lane_call send recv lane_of
  call_about (sends c true m) d h = ground (
    arith,
    h,
    ==_iff c code,
    lane_of-insert c (record (duplex c d) { h2g = (push m (duplex c d).h2g).1 }) d,
  )
  call_about (sends c false m) d h = ground (
    arith,
    h,
    ==_iff c code,
    lane_of-insert c (record (duplex c d) { g2h = (push m (duplex c d).g2h).1 }) d,
  )
  call_about (receives c true r) d h = ground (
    arith,
    h,
    ==_iff c code,
    lane_of-insert c (record (duplex c d) { g2h = (take_or_wait r (duplex c d).g2h).1 }) d,
  )
  call_about (receives c false r) d h = ground (
    arith,
    h,
    ==_iff c code,
    lane_of-insert c (record (duplex c d) { h2g = (take_or_wait r (duplex c d).h2g).1 }) d,
  )

  call_elsewhere :
      (u : Use) (d : LocalRendezvous)
      → is_about code guest u ≡ false
      → lane_of code guest (call u d).1 ≡ lane_of code guest d
  unfolding is_about call send recv lane_of
  call_elsewhere (sends c true m) d h = ground (
    arith,
    h,
    ==_iff c code,
    lane_of-insert c (record (duplex c d) { h2g = (push m (duplex c d).h2g).1 }) d,
  )
  call_elsewhere (sends c false m) d h = ground (
    arith,
    h,
    ==_iff c code,
    lane_of-insert c (record (duplex c d) { g2h = (push m (duplex c d).g2h).1 }) d,
  )
  call_elsewhere (receives c true r) d h = ground (
    arith,
    h,
    ==_iff c code,
    lane_of-insert c (record (duplex c d) { g2h = (take_or_wait r (duplex c d).g2h).1 }) d,
  )
  call_elsewhere (receives c false r) d h = ground (
    arith,
    h,
    ==_iff c code,
    lane_of-insert c (record (duplex c d) { h2g = (take_or_wait r (duplex c d).h2g).1 }) d,
  )

  run_lane :
      (us : List Use) (d : LocalRendezvous)
      → (handed code guest (run us d).0
          ≡ (lane_run (uses_of code guest us) (lane_of code guest d)).0)
        × (lane_of code guest (run us d).1
            ≡ (lane_run (uses_of code guest us) (lane_of code guest d)).1)
  unfolding run handed lane_run uses_of
  run_lane [] d = (refl, refl)
  run_lane (u ∷ us) d = elim (Bool-cases (is_about code guest u)) [
    | inl here ↦ ground (arith, here, call_about u d here, run_lane us (call u d).1)
    | inr there ↦ ground (arith, there, call_elsewhere u d there, run_lane us (call u d).1)
  ]

  -- In any history of calls on a mailbox that was empty, what was handed over under a code in one
  -- direction is the matching of those who asked for it with what was sent that way, the first
  -- with the first; what has no partner is what waits. Other codes and the other direction do not
  -- show.
  pub run_lem :
      (us : List Use)
      → let asked = taken (uses_of code guest us) in
        let given = pushed (uses_of code guest us) in
        (handed code guest (run us []).0 ≡ matched asked given)
        × (lane_of code guest (run us []).1 ≡ unmatched asked given)
  run_lem us =
      let there = run_lane us [] in
      let lane = lane_run_lem (uses_of code guest us) [] [] (inl refl) in
      let both = ap (λ l. lane_run (uses_of code guest us) l) (lane_of_empty code guest) ∙ lane in
      (there.0 ∙ ap (λ r. r.0) both, there.1 ∙ ap (λ r. r.1) both)
