-- ===== src/Examples/Pairs.antt =====
-- The statements on pairing, tried: Alice shows a code that Bob enters; and an id is read from what it
-- is printed as.
use my_mesh.Net.Rendezvous.{Use, sends, receives, run}
use my_mesh.Net.Rendezvous.Lanes.{taken, pushed}
use my_mesh.Net.Rendezvous.Fifo.{uses_of, is_about, handed}
use my_mesh.Session.Pair.Local.{mail_of, mail_of-IsMail, run-run_host_pair_code}
use my_mesh.Base.{
  ==_self, ◌∙◌, ℕ, ◌≡◌, refl, sym, ap, ◌↔◌, ◌⊎◌, inr, true, false, none, some, List, [], ◌∷◌, ◌++◌,
  arith, length, take, get_or, replicate, keep_if, length-append, length-take, nat_eq, text_eq,
  Result, ok, panic, missing, Text, trim,
}
use my_mesh.Core.Identity.{id_eq, from_str}
use my_mesh.Core.Device.{get, files, DeviceStore}
use my_mesh.Crypto.Identity.{device_id}
use my_mesh.Crypto.Words.{
  PairingCode, as_string, words, password_bytes, code_from_entropy, parse_code,
}
use my_mesh.Crypto.Words.RoundTrip.{parse_code-code_from_entropy}
use my_mesh.Crypto.Pairing.{Spake, host, guest, SharedSecret, start, finish, finish-start}
use my_mesh.Crypto.WordId.{
  is_hex_digit, device_id_to_words, parse_device_id, normalize_device_id_input,
}
use my_mesh.Crypto.WordId.Readings.{normalize_device_id_input-panic}
use my_mesh.Crypto.WordId.Phrase.{parse_device_id-device_id_to_words}
use my_mesh.Protocol.Messages.{PairingMessage, spake, identity_offer, identity_accept, reject}
use my_mesh.Session.Pair.{Mailbox, Side, PairOutcome, card}
use my_mesh.Session.Pair.Ceremony.{Ceremony, outcome, run_host_pair_code, run_guest_pair}
use my_mesh.Session.Pair.Vouched.{IsRefused, IsPaired, run_host_pair_code_lem, run_guest_pair_lem}
use my_mesh.Session.Pair.Stages.{messages, fresh, record_by, IsMail, host_whole, guest_whole}
use my_mesh.Examples.Plain.{plain_hex, plain_ed, plain_unicode}
use my_mesh.Examples.Phrases.{plain_bip39}
use my_mesh.Examples.Devices.{alice, id_of-IsId}

padded : Text → Text
padded password = take 32 (password ++ replicate 32 0)

length-padded : (password : Text) → length (padded password) ≡ 32
unfolding padded
length-padded password =
    omega
      (arith, length-take 32 (password ++ replicate 32 0), length-append password (replicate 32 0))

-- A key exchange in which the key is the password, and digests that are what they digest.
abbrev agreed : Text → Text ⊎ Text
agreed password = inr (padded password)

abbrev plain_spake : Spake
plain_spake = record {
  start = λ password random. (password, random);
  finish = λ state told. agreed state;
  agree = λ password r q. (padded password, length-padded password, refl, refl);
  sha256 = λ t. t;
  expand = λ key info. key ++ info;
}

abbrev side : ℕ → Side
side c = record {
  identity = record { secret = replicate 32 c };
  label = 97 ∷ [];
  capabilities = files ∷ [];
  random = c ∷ [];
  linked_now = 5;
  seen_now = 6;
  disk = none;
}

abbrev code : PairingCode
code = code_from_entropy 7 0 1

abbrev empty_store : DeviceStore
empty_store = record { devices = []; file = missing }

read_code : parse_code ⦃uni = plain_unicode⦄ (as_string code) ≡ ok code
unfolding words
read_code =
    parse_code-code_from_entropy ⦃uni = plain_unicode⦄ 7 0 1 (omega arith) (omega arith)
      (omega arith)

parse_code-code_from_entropy_example :
    parse_code ⦃uni = plain_unicode⦄ (as_string (code_from_entropy 7 0 1))
    ≡ ok (code_from_entropy 7 0 1)
unfolding words
parse_code-code_from_entropy_example =
    parse_code-code_from_entropy ⦃uni = plain_unicode⦄ 7 0 1 (omega arith) (omega arith)
      (omega arith)

agrees :
    (secret : SharedSecret) × (finish ⦃spake = plain_spake⦄
        (start ⦃spake = plain_spake⦄ host (password_bytes code) (1 ∷ []))
        (start ⦃spake = plain_spake⦄ guest (password_bytes code) (2 ∷ [])).outbound_msg
      ≡ ok secret)
    × (finish ⦃spake = plain_spake⦄
          (start ⦃spake = plain_spake⦄ guest (password_bytes code) (2 ∷ []))
          (start ⦃spake = plain_spake⦄ host (password_bytes code) (1 ∷ [])).outbound_msg
        ≡ ok secret)
agrees = finish-start ⦃spake = plain_spake⦄ host guest (password_bytes code) (1 ∷ []) (2 ∷ [])

secret : SharedSecret
unfolding agrees
secret = agrees.0

secret_agrees :
    (finish ⦃spake = plain_spake⦄
        (start ⦃spake = plain_spake⦄ host (password_bytes code) (1 ∷ []))
        (start ⦃spake = plain_spake⦄ guest (password_bytes code) (2 ∷ [])).outbound_msg
      ≡ ok secret)
    × (finish ⦃spake = plain_spake⦄
          (start ⦃spake = plain_spake⦄ guest (password_bytes code) (2 ∷ []))
          (start ⦃spake = plain_spake⦄ host (password_bytes code) (1 ∷ [])).outbound_msg
        ≡ ok secret)
unfolding secret
secret_agrees = (agrees.1, agrees.2)

-- The messages of Alice, who shows the code, and of Bob, who enters it.
abbrev from_host : List PairingMessage
from_host =
    spake (start ⦃spake = plain_spake⦄ host (password_bytes code) (1 ∷ [])).outbound_msg
    ∷ identity_offer (card ⦃hex = plain_hex⦄ ⦃ed = plain_ed⦄ ⦃pake = plain_spake⦄ (side 1) secret)
    ∷ []

abbrev from_guest : List PairingMessage
from_guest =
    spake (start ⦃spake = plain_spake⦄ guest (password_bytes code) (2 ∷ [])).outbound_msg
    ∷ identity_accept (card ⦃hex = plain_hex⦄ ⦃ed = plain_ed⦄ ⦃pake = plain_spake⦄ (side 2) secret)
    ∷ []

-- Bob waits before Alice sends.
history : Text → List Use
history cs =
    receives cs false 1
    ∷ sends cs true (get_or from_host 0 (reject []))
    ∷ sends cs false (get_or from_guest 0 (reject []))
    ∷ receives cs true 2
    ∷ sends cs true (get_or from_host 1 (reject []))
    ∷ receives cs false 3
    ∷ sends cs false (get_or from_guest 1 (reject []))
    ∷ receives cs true 4
    ∷ []

history_lem :
    (cs : Text)
    → (taken (uses_of cs false (history cs)) ≡ 2 ∷ 4 ∷ [])
      × (taken (uses_of cs true (history cs)) ≡ 1 ∷ 3 ∷ [])
      × (pushed (uses_of cs true (history cs)) ≡ from_host)
      × (pushed (uses_of cs false (history cs)) ≡ from_guest)
unfolding history uses_of is_about taken pushed
history_lem cs = (
  ground (arith, ==_self cs),
  ground (arith, ==_self cs),
  ground (arith, ==_self cs),
  ground (arith, ==_self cs),
)

abbrev no_debug : PairingMessage → Text
no_debug m = []

abbrev host_mail : Mailbox
host_mail = mail_of no_debug (handed (as_string code) false (run (history (as_string code)) []).0)

abbrev guest_mail : Mailbox
guest_mail = mail_of no_debug (handed (as_string code) true (run (history (as_string code)) []).0)

abbrev host_run : Result PairOutcome × Ceremony
host_run =
    run_host_pair_code ⦃hex = plain_hex⦄ ⦃ed = plain_ed⦄ ⦃pake = plain_spake⦄ (side 1) host_mail
      code (fresh empty_store)

abbrev guest_run : Result PairOutcome × Ceremony
guest_run =
    run_guest_pair ⦃hex = plain_hex⦄ ⦃ed = plain_ed⦄ ⦃pake = plain_spake⦄ ⦃uni = plain_unicode⦄
      (side 2) guest_mail (as_string code) (fresh empty_store)

host_hears : IsMail host_mail from_guest
host_hears =
    let (h_asks, g_asks, h_sends, g_sends) = history_lem (as_string code) in
    mail_of-IsMail no_debug (as_string code) false (history (as_string code)) 2 4 from_guest h_asks
      g_sends

guest_hears : IsMail guest_mail from_host
guest_hears =
    let (h_asks, g_asks, h_sends, g_sends) = history_lem (as_string code) in
    mail_of-IsMail no_debug (as_string code) true (history (as_string code)) 1 3 from_host g_asks
      h_sends

host_sent : messages host_run.1.sent ≡ from_host
host_sent =
    ap (λ (out : Result PairOutcome × Ceremony). messages out.1.sent)
      (host_whole ⦃hex = plain_hex⦄ ⦃ed = plain_ed⦄ ⦃pake = plain_spake⦄ (side 1) host_mail
        (λ m. refl) empty_store code _ secret (side 2) (host_hears.gives 0 (omega arith))
        secret_agrees.0 (host_hears.gives 1 (omega arith)) (omega arith))

guest_sent : messages guest_run.1.sent ≡ from_guest
guest_sent =
    ap (λ (out : Result PairOutcome × Ceremony). messages out.1.sent)
      (guest_whole ⦃hex = plain_hex⦄ ⦃ed = plain_ed⦄ ⦃pake = plain_spake⦄ (side 2) guest_mail
        (λ m. refl) empty_store ⦃uni = plain_unicode⦄ (as_string code) code _ secret (side 1)
        read_code (guest_hears.gives 0 (omega arith)) secret_agrees.1
        (guest_hears.gives 1 (omega arith)) (omega arith))

run-run_host_pair_code_example :
    (s : SharedSecret) × (host_run.0
      ≡ ok (
          outcome ⦃hex = plain_hex⦄ ⦃ed = plain_ed⦄ ⦃pake = plain_spake⦄ code
            (record_by ⦃hex = plain_hex⦄ ⦃ed = plain_ed⦄ ⦃pake = plain_spake⦄ (side 1) (side 2))
            s))
    × (guest_run.0
        ≡ ok (
            outcome ⦃hex = plain_hex⦄ ⦃ed = plain_ed⦄ ⦃pake = plain_spake⦄ code
              (record_by ⦃hex = plain_hex⦄ ⦃ed = plain_ed⦄ ⦃pake = plain_spake⦄ (side 2) (side 1))
              s))
    × (get host_run.1.store (device_id ⦃ed = plain_ed⦄ (side 2).identity)
        ≡ some (record_by ⦃hex = plain_hex⦄ ⦃ed = plain_ed⦄ ⦃pake = plain_spake⦄ (side 1) (side 2)))
    × (get guest_run.1.store (device_id ⦃ed = plain_ed⦄ (side 1).identity)
        ≡ some (record_by ⦃hex = plain_hex⦄ ⦃ed = plain_ed⦄ ⦃pake = plain_spake⦄ (side 2) (side 1)))
run-run_host_pair_code_example =
    run-run_host_pair_code ⦃hex = plain_hex⦄ ⦃ed = plain_ed⦄ ⦃pake = plain_spake⦄
      ⦃uni = plain_unicode⦄ (history (as_string code)) no_debug (side 1) (side 2) code
      (as_string code) empty_store empty_store 2 4 1 3 read_code (omega arith) (omega arith) refl
      refl (history_lem (as_string code)).0 (history_lem (as_string code)).1
      ((history_lem (as_string code)).2 ∙ sym host_sent)
      ((history_lem (as_string code)).3 ∙ sym guest_sent)

run_host_pair_code_lem_example :
    IsRefused ⦃hex = plain_hex⦄ ⦃ed = plain_ed⦄ ⦃pake = plain_spake⦄ (fresh empty_store) host_run
    ⊎ IsPaired ⦃hex = plain_hex⦄ ⦃ed = plain_ed⦄ ⦃pake = plain_spake⦄ true
        (side 1)
        host_mail
        code
        (fresh empty_store)
        host_run
run_host_pair_code_lem_example =
    run_host_pair_code_lem ⦃hex = plain_hex⦄ ⦃ed = plain_ed⦄ ⦃pake = plain_spake⦄ (side 1) host_mail
      code (fresh empty_store)

run_guest_pair_lem_example :
    IsRefused ⦃hex = plain_hex⦄ ⦃ed = plain_ed⦄ ⦃pake = plain_spake⦄ (fresh empty_store) guest_run
    ⊎ ((c : PairingCode) × (parse_code ⦃uni = plain_unicode⦄ (as_string code) ≡ ok c)
        × IsPaired ⦃hex = plain_hex⦄ ⦃ed = plain_ed⦄ ⦃pake = plain_spake⦄ false
            (side 2)
            guest_mail
            c
            (fresh empty_store)
            guest_run)
run_guest_pair_lem_example =
    run_guest_pair_lem ⦃hex = plain_hex⦄ ⦃ed = plain_ed⦄ ⦃pake = plain_spake⦄ ⦃uni = plain_unicode⦄
      (side 2) guest_mail (as_string code) (fresh empty_store)

parse_device_id-device_id_to_words_example :
    (m : Text) × (device_id_to_words ⦃bip39 = plain_bip39⦄ alice ≡ ok m)
    × ((parse_device_id ⦃hex = plain_hex⦄ ⦃uni = plain_unicode⦄ ⦃bip39 = plain_bip39⦄ m ≡ ok alice)
        ⊎ ((length (keep_if is_hex_digit m) ≡ 64)
            × (parse_device_id ⦃hex = plain_hex⦄ ⦃uni = plain_unicode⦄ ⦃bip39 = plain_bip39⦄ m
                ≡ from_str ⦃hex = plain_hex⦄ (keep_if is_hex_digit m))))
parse_device_id-device_id_to_words_example =
    parse_device_id-device_id_to_words ⦃hex = plain_hex⦄ ⦃uni = plain_unicode⦄ ⦃bip39 = plain_bip39⦄
      alice (id_of-IsId 1 (omega arith))

normalize_device_id_input-panic_example :
    (normalize_device_id_input ⦃uni = plain_unicode⦄ (32 ∷ 34 ∷ []) ≡ panic)
    ↔ ((trim (32 ∷ 34 ∷ []) ≡ 34 ∷ []) ⊎ (trim (32 ∷ 34 ∷ []) ≡ 39 ∷ []))
normalize_device_id_input-panic_example =
    normalize_device_id_input-panic ⦃uni = plain_unicode⦄ (32 ∷ 34 ∷ [])
