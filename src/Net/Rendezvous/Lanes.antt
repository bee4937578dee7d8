-- ===== src/Net/Rendezvous/Lanes.antt =====
-- crates/mymesh-net/src/rendezvous.rs: one lane hands over what it is given, in the order in which it
-- was given and asked for.
use my_mesh.Base.{
  ℕ, ◌≡◌, refl, ◌⊎◌, inl, inr, List, [], ◌∷◌, ◌++◌, append_assoc, append-nil, arith, nat_eq,
  text_eq,
}
use my_mesh.Protocol.Messages.{PairingMessage}
use my_mesh.Net.Rendezvous.{Lane, Delivery, push, take_or_wait}

-- A call as a lane sees it.
pub data LaneUse : Type 0 where
  pushes : PairingMessage → LaneUse
  takes : ℕ → LaneUse

unfoldable pub lane_call : LaneUse → Lane → List Delivery × Lane
unfolding push take_or_wait
lane_call (pushes m) l = push m l
lane_call (takes receiver) l = take_or_wait receiver l

unfoldable pub lane_run : List LaneUse → Lane → List Delivery × Lane
unfolding lane_call
lane_run [] l = ([], l)
lane_run (u ∷ us) l =
    let (out, l') = lane_call u l in let (outs, e) = lane_run us l' in (out ++ outs, e)

-- The messages and the receivers, in the order of the calls.
unfoldable pub pushed : List LaneUse → List PairingMessage
pushed [] = []
pushed (pushes m ∷ us) = m ∷ pushed us
pushed (takes receiver ∷ us) = pushed us

unfoldable pub taken : List LaneUse → List ℕ
taken [] = []
taken (pushes m ∷ us) = taken us
taken (takes receiver ∷ us) = receiver ∷ taken us

-- The first receiver gets the first message, the second the second, as far as there are both.
unfoldable pub matched : List ℕ → List PairingMessage → List Delivery
matched [] ms = []
matched (w ∷ ws) [] = []
matched (w ∷ ws) (m ∷ ms) = (w, m) ∷ matched ws ms

-- What is left of either when they are matched.
unfoldable pub unmatched : List ℕ → List PairingMessage → Lane
unmatched [] ms = record { queue = ms; waiters = [] }
unmatched (w ∷ ws) [] = record { queue = []; waiters = w ∷ ws }
unmatched (w ∷ ws) (m ∷ ms) = unmatched ws ms

-- The lane hands over what the matching of all that was asked for with all that was given has, and
-- keeps what is unmatched.
pub lane_run_lem :
    (us : List LaneUse) (ms : List PairingMessage) (ws : List ℕ)
    → (ms ≡ []) ⊎ (ws ≡ [])
    → lane_run us (record { queue = ms; waiters = ws })
      ≡ (matched (ws ++ taken us) (ms ++ pushed us), unmatched (ws ++ taken us) (ms ++ pushed us))
unfolding lane_run pushed taken push take_or_wait matched unmatched
lane_run_lem [] ms [] h = rw (append-nil ms) refl
lane_run_lem [] [] (w ∷ ws) h = rw (append-nil ws) refl
lane_run_lem [] (m ∷ ms) (w ∷ ws) h = absurd (ground (arith, h))
lane_run_lem (pushes m ∷ us) ms [] h =
    rw (lane_run_lem us (ms ++ m ∷ []) [] (inr refl), append_assoc ms (m ∷ []) (pushed us)) refl
lane_run_lem (pushes m ∷ us) [] (w ∷ ws) h = rw (lane_run_lem us [] ws (inl refl)) refl
lane_run_lem (pushes m ∷ us) (n ∷ ms) (w ∷ ws) h = absurd (ground (arith, h))
lane_run_lem (takes r ∷ us) [] ws h =
    rw (lane_run_lem us [] (ws ++ r ∷ []) (inl refl), append_assoc ws (r ∷ []) (taken us)) refl
lane_run_lem (takes r ∷ us) (m ∷ ms) [] h = rw (lane_run_lem us ms [] (inr refl)) refl
lane_run_lem (takes r ∷ us) (m ∷ ms) (w ∷ ws) h = absurd (ground (arith, h))
