-- ===== src/Examples/Carriers.antt =====
-- The statements on the web server for the phone, tried: Carol asks to join, and the phone accepts her.
use my_mesh.Base.{
  ℕ, ◌<◌, ◌≡◌, refl, ◌≢◌, ◌⊎◌, inl, inr, true, false, Option, none, some, [], ◌∷◌, ◌++◌, arith,
  ℕ_discrete, replicate, All, text_discrete, nat_eq, text_eq, ok, missing, holds, Text, text,
  IsBytes, sort_by,
}
use my_mesh.Core.Identity.{IsHexDigit, id_eq, to_string, from_str}
use my_mesh.Core.Identity.Laws.{from_str-to_string}
use my_mesh.Core.Device.{files}
use my_mesh.Core.Join.{
  ArmState, is_effectively_armed, load_arm, PendingJoin, JoinStore, accept, list_pending,
  read_pending, is_json, file_name, take_decision,
}
use my_mesh.Core.Mesh.{new_mesh}
use my_mesh.Session.Carrier.{
  Base64, IsUrlSafe, Carrier, Moment, ensure_bootstrap_locked, require_bootstrap,
}
use my_mesh.Session.Carrier.Handlers.{
  Texts, decided, DecideRequest, accept_it, decision_of, pair_decide, pair_pending,
}
use my_mesh.Session.Carrier.Start.{CarrierHandle, start_carrier}
use my_mesh.Session.Carrier.Page.{percent_encode, build_pair_qr}
use my_mesh.Session.Carrier.Token.{
  IsRaw, IsKept, IsWindow, with_token, restarted, ensure_bootstrap_locked_lem,
}
use my_mesh.Session.Carrier.LetIn.{IsLetIn}
use my_mesh.Session.Carrier.Decide.{decided_joins, pair_decide_own}
use my_mesh.Session.Carrier.Guarded.{IsDecided, tells_pending, pair_decide_lem, pair_pending_lem}
use my_mesh.Session.Carrier.Opening.{start_carrier-require_bootstrap}
use my_mesh.Session.Carrier.Escapes.{split-build_pair_qr}
use my_mesh.Base.{split}
use my_mesh.Examples.Plain.{
  digit, plain_hex, plain_chrono, plain_ed, encode, decode, decode-encode, encode-digits,
}
use my_mesh.Examples.Phrases.{plain_bip39}
use my_mesh.Examples.Devices.{carol, id_of-IsId, replicate-IsBytes}

-- The digits of bytes are among the characters of base64.
decoded : Text ⊎ Text → Option Text
decoded (inl e) = none
decoded (inr b) = some b

digits-IsUrlSafe : (s : Text) → All IsHexDigit s → All IsUrlSafe s
digits-IsUrlSafe [] h = tt
digits-IsUrlSafe (c ∷ s) h = (ground (arith, h.0), digits-IsUrlSafe s h.1)

encode-nonempty : (b : Text) → b ≢ [] → encode b ≢ []
unfolding encode
encode-nonempty [] h = absurd (h refl)
encode-nonempty (c ∷ b) h = ground arith

decoded-encode : (b : Text) → IsBytes b → decoded (decode (encode b)) ≡ some b
unfolding decoded
decoded-encode b h = rw (decode-encode b h) refl

plain_base64 : Base64
plain_base64 = record {
  encode = encode;
  decode = λ t. decoded (decode t);
  decode-encode = decoded-encode;
  encode-IsUrlSafe = λ b h. digits-IsUrlSafe (encode b) (encode-digits b h);
  encode-nonempty = encode-nonempty;
}

abbrev plain_texts : Texts
plain_texts = record { rfc3339 = λ t. []; io_text = λ n. [] }

abbrev raw : Text
raw = replicate 32 5

raw-IsRaw : IsRaw raw
raw-IsRaw = (refl, replicate-IsBytes 32 5 (omega arith))

abbrev arm_state : ArmState
arm_state = record { armed = true; until = some 1000; armed_at = none }

abbrev carol_asks : PendingJoin
carol_asks = record {
  device_id = carol;
  label = 99 ∷ [];
  capabilities = files ∷ [];
  received_at = 3;
  fingerprint = [];
}

abbrev joins : JoinStore
joins = record {
  pending = (file_name ⦃hex = plain_hex⦄ carol, holds carol_asks) ∷ [];
  decisions = [];
}

abbrev page : Carrier
page = record {
  bootstrap = some (record { raw = raw; until = 1000 });
  bootstrap_file = missing;
  arm_file = holds arm_state;
  mesh_file = holds (new_mesh (109 ∷ []) 0);
  joins = joins;
  pending_peer = none;
  status = [];
  pending_file = none;
}

abbrev moment : Moment
moment = record { now = 10; later = 11; random = raw; disk = none; directories = none }

window : (now : ℕ) → now < 1000 → IsWindow ⦃base64 = plain_base64⦄ page now 1000
unfolding load_arm is_effectively_armed
window now h = record { arm = arm_state; loads = refl; armed = ground (arith, h); ends = refl }

abbrev yes_please : DecideRequest
yes_please = record {
  device_id_hex = to_string ⦃hex = plain_hex⦄ carol;
  decision = accept_it;
  reason = none;
}

listed : list_pending joins ≡ ok (carol_asks ∷ [])
unfolding list_pending read_pending is_json sort_by file_name to_string encode digit text
    text_discrete ℕ_discrete
listed = refl

abbrev header : Option Text
header = some (text "Bearer " ++ encode raw)

carol_read : from_str ⦃hex = plain_hex⦄ (to_string ⦃hex = plain_hex⦄ carol) ≡ ok carol
carol_read = from_str-to_string ⦃hex = plain_hex⦄ carol (id_of-IsId 3 (omega arith))

-- After the decision Carol is off the list, and her decision waits.
abbrev after : Carrier
after = record page {
  joins =
      decided_joins ⦃hex = plain_hex⦄ ⦃texts = plain_texts⦄ ⦃base64 = plain_base64⦄
        ⦃bip39 = plain_bip39⦄ moment carol accept joins;
}

pair_decide_own_example :
    (pair_decide ⦃hex = plain_hex⦄ ⦃texts = plain_texts⦄ ⦃base64 = plain_base64⦄
        ⦃bip39 = plain_bip39⦄ moment
        (some (text "Bearer " ++ encode raw))
        yes_please
        page
      ≡ (ok (decided (text "accepted")), after))
    × ((take_decision ⦃hex = plain_hex⦄ carol after.joins).0 ≡ ok (some accept))
    × (pair_decide ⦃hex = plain_hex⦄ ⦃texts = plain_texts⦄ ⦃base64 = plain_base64⦄
          ⦃bip39 = plain_bip39⦄ moment
          (some (text "Bearer " ++ encode raw))
          yes_please
          after
        ≡ (ok (decided (text "not_found")), after))
unfolding decision_of plain_base64
pair_decide_own_example =
    pair_decide_own ⦃hex = plain_hex⦄ ⦃texts = plain_texts⦄ ⦃base64 = plain_base64⦄
      ⦃bip39 = plain_bip39⦄ moment raw 1000 page carol yes_please yes_please (carol_asks ∷ [])
      raw-IsRaw refl (window 10 (omega arith)) (window 11 (omega arith)) refl refl carol_read
      carol_read (refl, tt) listed (ground arith)

pair_decide_lem_example :
    ((pair_decide ⦃hex = plain_hex⦄ ⦃texts = plain_texts⦄ ⦃base64 = plain_base64⦄
        ⦃bip39 = plain_bip39⦄ moment none yes_please page).1.joins
      ≡ joins)
    ⊎ ((r : Text) × IsLetIn ⦃base64 = plain_base64⦄ moment none page r
        × IsDecided ⦃hex = plain_hex⦄ ⦃texts = plain_texts⦄ ⦃base64 = plain_base64⦄
            ⦃bip39 = plain_bip39⦄ moment yes_please joins
            (pair_decide ⦃hex = plain_hex⦄ ⦃texts = plain_texts⦄ ⦃base64 = plain_base64⦄
              ⦃bip39 = plain_bip39⦄ moment none yes_please page).1.joins)
pair_decide_lem_example =
    pair_decide_lem ⦃hex = plain_hex⦄ ⦃texts = plain_texts⦄ ⦃base64 = plain_base64⦄
      ⦃bip39 = plain_bip39⦄ moment none yes_please page

pair_pending_lem_example :
    ((pair_pending ⦃hex = plain_hex⦄ ⦃texts = plain_texts⦄ ⦃base64 = plain_base64⦄
        ⦃bip39 = plain_bip39⦄ moment none page).1.joins
      ≡ joins)
    × ((tells_pending ⦃hex = plain_hex⦄ ⦃texts = plain_texts⦄ ⦃base64 = plain_base64⦄
            ⦃bip39 = plain_bip39⦄ moment
            (pair_pending ⦃hex = plain_hex⦄ ⦃texts = plain_texts⦄ ⦃base64 = plain_base64⦄
              ⦃bip39 = plain_bip39⦄ moment none page).0
          ≡ false)
        ⊎ ((r : Text) × IsLetIn ⦃base64 = plain_base64⦄ moment none page r))
pair_pending_lem_example =
    pair_pending_lem ⦃hex = plain_hex⦄ ⦃texts = plain_texts⦄ ⦃base64 = plain_base64⦄
      ⦃bip39 = plain_bip39⦄ moment none page

-- No token yet.
abbrev before : Carrier
before = record page { bootstrap = none }

before-IsKept : IsKept ⦃base64 = plain_base64⦄ before
before-IsKept = record {
  memory = λ b e. absurd (ground (arith, e));
  file = λ p e. absurd (ground (arith, e));
}

early : (now : ℕ) → now < 1000 → IsWindow ⦃base64 = plain_base64⦄ before now 1000
unfolding load_arm is_effectively_armed
early now h = record { arm = arm_state; loads = refl; armed = ground (arith, h); ends = refl }

ensure_bootstrap_locked_lem_example :
    (r : Text) × IsKept ⦃base64 = plain_base64⦄ (with_token ⦃base64 = plain_base64⦄ r 1000 before)
    × (ensure_bootstrap_locked ⦃base64 = plain_base64⦄ moment before
        ≡ (ok (encode r), with_token ⦃base64 = plain_base64⦄ r 1000 before))
    × (ensure_bootstrap_locked ⦃base64 = plain_base64⦄ moment
          (with_token ⦃base64 = plain_base64⦄ r 1000 before)
        ≡ (ok (encode r), with_token ⦃base64 = plain_base64⦄ r 1000 before))
    × (ensure_bootstrap_locked ⦃base64 = plain_base64⦄ moment
          (restarted ⦃base64 = plain_base64⦄ (with_token ⦃base64 = plain_base64⦄ r 1000 before))
        ≡ (ok (encode r), with_token ⦃base64 = plain_base64⦄ r 1000 before))
unfolding plain_base64
ensure_bootstrap_locked_lem_example =
    ensure_bootstrap_locked_lem ⦃base64 = plain_base64⦄ moment moment 1000 before raw-IsRaw refl
      before-IsKept (early 10 (omega arith)) (early 10 (omega arith))

start_carrier-require_bootstrap_example :
    (r : Text) × (handle : CarrierHandle) × (v : Carrier) × (start_carrier ⦃hex = plain_hex⦄
        ⦃base64 = plain_base64⦄ ⦃ed = plain_ed⦄ ⦃chrono = plain_chrono⦄
        (record { secret = raw })
        moment
        []
        (text "10.0.0.1")
        (ok 17878)
        before
      ≡ (ok handle, v))
    × (require_bootstrap ⦃base64 = plain_base64⦄ moment
          (some (text "Bearer " ++ handle.bootstrap_token))
          v
        ≡ (inr r, v))
start_carrier-require_bootstrap_example =
    start_carrier-require_bootstrap ⦃hex = plain_hex⦄ ⦃base64 = plain_base64⦄ ⦃ed = plain_ed⦄
      ⦃chrono = plain_chrono⦄ (record { secret = raw }) moment moment [] (text "10.0.0.1") 17878
      1000 (new_mesh (109 ∷ []) 0) before raw-IsRaw refl refl refl before-IsKept
      (early 10 (omega arith)) (early 11 (omega arith)) (early 10 (omega arith))
      (early 11 (omega arith))

split-build_pair_qr_example :
    split 38 (build_pair_qr (38 ∷ []) (61 ∷ []) (37 ∷ []) (some (109 ∷ [])))
    ≡ text "carrier://pair?v=1"
      ∷ (text "host=" ++ percent_encode (38 ∷ []))
      ∷ (text "token=" ++ percent_encode (61 ∷ []))
      ∷ (text "fp=" ++ percent_encode (37 ∷ []))
      ∷ (text "mesh=" ++ percent_encode (109 ∷ []))
      ∷ []
split-build_pair_qr_example =
    split-build_pair_qr (38 ∷ []) (61 ∷ []) (37 ∷ []) (109 ∷ []) (omega arith, tt) (omega arith, tt)
      (omega arith, tt) (omega arith, tt) (ground arith)
