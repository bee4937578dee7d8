-- ===== src/Session/Pair/Ceremony.antt =====
-- crates/mymesh-session/src/pair.rs: the two sides of the ceremony. A call returns its result, and the
-- device store with what it handed to the rendezvous, in turn.
use my_mesh.Base.{ℕ, Bool, true, false, some, List, [], ◌∷◌, ◌++◌, nat_eq, text_eq, Text, text}
use my_mesh.Base.Stateful.{Stateful, pure, raise, ◌>>=◌, ◌>>◌}
use my_mesh.Core.Identity.{Hex, id_eq}
use my_mesh.Core.Device.{DeviceRecord, DeviceStore, upsert}
use my_mesh.Core.Device.Naming.{Unicode}
use my_mesh.Crypto.Identity.{Ed25519}
use my_mesh.Crypto.Words.{PairingCode, as_string, password_bytes, code_from_entropy, parse_code}
use my_mesh.Crypto.Pairing.{Spake, host, guest, SharedSecret, derive, start, finish}
use my_mesh.Protocol.Messages.{PairingMessage, spake, identity_offer, identity_accept}
use my_mesh.Session.Pair.{Mailbox, PairOutcome, Side, spake_of, card, accepted_peer, offered_peer}

-- What is handed to `send`: the code, the side, the message.
pub record Sent : Type 0 where
  pub code : Text
  pub as_host : Bool
  pub message : PairingMessage

pub record Ceremony : Type 0 where
  pub store : DeviceStore
  pub sent : List Sent

unfoldable pub send_to : Mailbox → Text → Bool → PairingMessage → Stateful Ceremony (Unit {0})
send_to mail code as_host m w = (
  mail.on_send m,
  record w { sent = w.sent ++ record { code = code; as_host = as_host; message = m } ∷ [] },
)

module _ ⦃hex : Hex⦄ ⦃ed : Ed25519⦄ ⦃pake : Spake⦄ where
  -- `store.upsert(peer)`.
  unfoldable pub store_peer : Side → DeviceRecord → Stateful Ceremony (Unit {0})
  store_peer me peer w = let (r, s) = upsert me.disk peer w.store in (r, record w { store = s })

  unfoldable pub outcome : PairingCode → DeviceRecord → SharedSecret → PairOutcome
  outcome code peer secret = record {
    code = some code;
    peer = peer;
    shared_confirm = derive secret (text "mymesh/confirm");
  }

  unfoldable pub run_host_pair_code : Side → Mailbox → PairingCode → Stateful Ceremony PairOutcome
  unfolding send_to spake_of card accepted_peer store_peer outcome
  run_host_pair_code me mail code = do
    let code_str = as_string code
    let session = start host (password_bytes code) me.random
    send_to mail code_str true (spake session.outbound_msg)
    m ← raise (mail.on_recv 0)
    peer_spake ← raise (spake_of mail m)
    secret ← raise (finish session peer_spake)
    send_to mail code_str true (identity_offer (card me secret))
    m ← raise (mail.on_recv 1)
    peer ← raise (accepted_peer me mail secret m)
    store_peer me peer
    pure (outcome code peer secret)

  -- The host that makes the code itself; its text is that of the ceremony with a code.
  unfoldable pub run_host_pair : Side → Mailbox → ℕ → ℕ → ℕ → Stateful Ceremony PairOutcome
  unfolding run_host_pair_code
  run_host_pair me mail nameplate i j = run_host_pair_code me mail (code_from_entropy nameplate i j)

  unfoldable pub run_guest_pair :
      ⦃uni : Unicode⦄ → Side → Mailbox → Text → Stateful Ceremony PairOutcome
  unfolding send_to spake_of card offered_peer store_peer outcome
  run_guest_pair me mail code_raw = do
    code ← raise (parse_code code_raw)
    let code_str = as_string code
    let session = start guest (password_bytes code) me.random
    send_to mail code_str false (spake session.outbound_msg)
    m ← raise (mail.on_recv 0)
    peer_spake ← raise (spake_of mail m)
    secret ← raise (finish session peer_spake)
    m ← raise (mail.on_recv 1)
    host_rec ← raise (offered_peer me mail secret m)
    send_to mail code_str false (identity_accept (card me secret))
    store_peer me host_rec
    pure (outcome code host_rec secret)
