-- ===== src/Session/Pair/Local.antt =====
-- crates/mymesh-session/src/pair.rs over crates/mymesh-net/src/rendezvous.rs: what the two sides of a
-- ceremony receive from a mailbox in one process is what they send each other, in turn.
use my_mesh.Base.{
  ℕ, zero, suc, ◌≤◌, ◌<◌, ◌≡◌, refl, ap, ◌∙◌, Bool, true, false, none, some, List, [], ◌∷◌, map,
  arith, length, get_or, nat_eq, text_eq, ok, Text,
}
use my_mesh.Core.Identity.{Hex, id_eq}
use my_mesh.Core.Device.{DeviceStore, get}
use my_mesh.Core.Device.Naming.{Unicode}
use my_mesh.Crypto.Identity.{Ed25519, device_id}
use my_mesh.Crypto.Words.{PairingCode, as_string, parse_code}
use my_mesh.Crypto.Pairing.{Spake, SharedSecret}
use my_mesh.Protocol.Messages.{PairingMessage, reject}
use my_mesh.Net.Rendezvous.{Delivery, Use, run}
use my_mesh.Net.Rendezvous.Lanes.{pushed, taken, matched}
use my_mesh.Net.Rendezvous.Fifo.{uses_of, handed, run_lem}
use my_mesh.Session.Pair.{Mailbox, Side}
use my_mesh.Session.Pair.Ceremony.{outcome, run_host_pair_code, run_guest_pair}
use my_mesh.Session.Pair.Stages.{messages, IsMail, fresh, record_by}
use my_mesh.Session.Pair.Meeting.{run_host_pair_code-run_guest_pair}

-- The mailbox as a side meets it: each receive gives what was handed over.
abbrev pub mail_of : (PairingMessage → Text) → List Delivery → Mailbox
mail_of debug ds = record {
  on_send = λ m. ok tt;
  on_recv = λ k. ok (get_or (map (λ (d : Delivery). d.1) ds) k (reject []));
  debug = debug;
}

matched_pair :
    (r q k : ℕ) (ms : List PairingMessage)
    → k < 2
    → get_or (map (λ (d : Delivery). d.1) (matched (r ∷ q ∷ []) ms)) k (reject [])
      ≡ get_or ms k (reject [])
unfolding matched
matched_pair r q k [] h = refl
matched_pair r q zero (m ∷ []) h = refl
matched_pair r q (suc k) (m ∷ []) h = refl
matched_pair r q zero (m ∷ n ∷ ms) h = refl
matched_pair r q (suc zero) (m ∷ n ∷ ms) h = refl
matched_pair r q (suc (suc k)) (m ∷ n ∷ ms) h = absurd (omega (arith, h))

-- Of a side that receives twice, in a history that started with an empty mailbox.
pub mail_of-IsMail :
    (debug : PairingMessage → Text) (code : Text) (guest : Bool) (us : List Use) (r q : ℕ)
    (ms : List PairingMessage)
    → taken (uses_of code guest us) ≡ r ∷ q ∷ []
    → pushed (uses_of code guest us) ≡ ms
    → IsMail (mail_of debug (handed code guest (run us []).0)) ms
mail_of-IsMail debug code guest us r q ms asked given = record {
  accepts = λ m. refl;
  gives = λ k h. ap ok (
      ap (λ ds. get_or (map (λ (d : Delivery). d.1) ds) k (reject []))
        ((run_lem code guest us).0
          ∙ ap (λ ws. matched ws (pushed (uses_of code guest us))) asked
          ∙ ap (matched (r ∷ q ∷ [])) given)
      ∙ matched_pair r q k ms h);
}

module _ ⦃hex : Hex⦄ ⦃ed : Ed25519⦄ ⦃pake : Spake⦄ ⦃uni : Unicode⦄ where
  -- In any history of calls on a mailbox that was empty, in which under one code the host and the
  -- guest each receive twice, and each direction carries exactly what that side of the ceremony
  -- sends when it receives what was handed to it: where the guest enters a text that is read as
  -- that code, the labels have at most 64 bytes and the stores can be written, both sides succeed
  -- with one secret, the same confirmation and the code, and each finds the other in its store,
  -- trusted, with its id, label and capabilities.
  pub run-run_host_pair_code :
      (us : List Use) (debug : PairingMessage → Text) (h g : Side) (code : PairingCode) (raw : Text)
      (h_store g_store : DeviceStore) (r q x y : ℕ)
      → parse_code raw ≡ ok code
      → length h.label ≤ 64
      → length g.label ≤ 64
      → h.disk ≡ none
      → g.disk ≡ none
      → taken (uses_of (as_string code) false us) ≡ r ∷ q ∷ []
      → taken (uses_of (as_string code) true us) ≡ x ∷ y ∷ []
      → pushed (uses_of (as_string code) true us)
        ≡ messages
            (run_host_pair_code h
              (mail_of debug (handed (as_string code) false (run us []).0))
              code
              (fresh h_store)).1.sent
      → pushed (uses_of (as_string code) false us)
        ≡ messages
            (run_guest_pair g
              (mail_of debug (handed (as_string code) true (run us []).0))
              raw
              (fresh g_store)).1.sent
      → let to_host = mail_of debug (handed (as_string code) false (run us []).0) in
        let to_guest = mail_of debug (handed (as_string code) true (run us []).0) in
        (secret : SharedSecret) × ((run_host_pair_code h to_host code (fresh h_store)).0
          ≡ ok (outcome code (record_by h g) secret))
        × ((run_guest_pair g to_guest raw (fresh g_store)).0
            ≡ ok (outcome code (record_by g h) secret))
        × (get (run_host_pair_code h to_host code (fresh h_store)).1.store (device_id g.identity)
            ≡ some (record_by h g))
        × (get (run_guest_pair g to_guest raw (fresh g_store)).1.store (device_id h.identity)
            ≡ some (record_by g h))
  run-run_host_pair_code us debug h g code raw h_store g_store r q x y e h_fits g_fits h_disk g_disk
        h_asks g_asks h_sends g_sends =
      run_host_pair_code-run_guest_pair h g _ _ code raw h_store g_store e h_fits g_fits h_disk
        g_disk (mail_of-IsMail debug (as_string code) false us r q _ h_asks g_sends)
        (mail_of-IsMail debug (as_string code) true us x y _ g_asks h_sends)
