-- ===== src/Session/Carrier.antt =====
-- crates/mymesh-session/src/carrier.rs: the web server through which a phone helps to join. Its state is
-- what the handlers share and the files that they read and write; a call returns its result with the
-- state it leaves. This file has the token that a request must present, which lasts as long as the
-- host is armed.
pub mod Handlers
pub mod Page
pub mod Start
pub mod Token
pub mod Steps
pub mod LetIn
pub mod Decide
pub mod Guarded
pub mod Opening
pub mod Escapes
use my_mesh.Base.{
  ℕ, ◌-◌, ◌≤◌, bit_or, bit_xor, ◌≡◌, ◌≢◌, ◌⊎◌, inl, inr, Bool, false, not, Option, none, some, [],
  ◌∷◌, arith, if◌then◌else◌, length, All, ◌==◌, nat_eq, text_eq, other, ok, err, panic, JsonFile,
  missing, corrupt, holds, Text, text, IsBytes, trim,
}
use my_mesh.Base.{strip_prefix}
use my_mesh.Base.Stateful.{Stateful, ◌>>=◌, ◌>>◌}
use my_mesh.Core.Join.{ArmState, disarmed, is_effectively_armed, load_arm, JoinStore}
use my_mesh.Core.Mesh.{MeshFile}

-- `URL_SAFE_NO_PAD` of the `base64` crate: of bytes it makes letters, digits, dashes and underscores,
-- from which it has the bytes back.
abbrev pub IsUrlSafe : ℕ → Type 0
IsUrlSafe c =
    ((65 ≤ c) × (c ≤ 90)) ⊎ ((97 ≤ c) × (c ≤ 122)) ⊎ ((48 ≤ c) × (c ≤ 57)) ⊎ (c ≡ 45) ⊎ (c ≡ 95)

pub record Base64 : Type 0 where
  pub encode : Text → Text
  pub decode : Text → Option Text
  pub decode-encode : (b : Text) → IsBytes b → decode (encode b) ≡ some b
  pub encode-IsUrlSafe : (b : Text) → IsBytes b → All IsUrlSafe (encode b)
  pub encode-nonempty : (b : Text) → b ≢ [] → encode b ≢ []

-- `BootstrapToken`, in memory, and `BootstrapPersist`, in its file.
pub record BootstrapToken : Type 0 where
  pub raw : Text
  pub until : ℕ

pub record BootstrapPersist : Type 0 where
  pub token : Text
  pub until : ℕ

-- What the handlers share, and the files: that of the arm window, of the token, of the mesh, of the
-- joins, and that in which a peer waits.
pub record Carrier : Type 0 where
  pub bootstrap : Option BootstrapToken
  pub bootstrap_file : JsonFile BootstrapPersist
  pub arm_file : JsonFile ArmState
  pub mesh_file : MeshFile
  pub joins : JoinStore
  pub pending_peer : Option Text
  pub status : Text
  pub pending_file : Option Text

-- What a call meets: the times at which it asks for the arm window, 32 random bytes, what the operating
-- system answers to the writes and to the making of directories.
pub record Moment : Type 0 where
  pub now : ℕ
  pub later : ℕ
  pub random : Text
  pub disk : Option ℕ
  pub directories : Option ℕ

-- A response that is an error: status code, code, message.
pub record PairError : Type 0 where
  pub http_status : ℕ
  pub code : Text
  pub error : Text

-- `ct_eq`: the differing bits of all bytes are gathered.
gathered : ℕ → Text → Text → ℕ
gathered v [] b = v
gathered v (x ∷ a) [] = v
gathered v (x ∷ a) (y ∷ b) = gathered (bit_or v (bit_xor x y)) a b

unfoldable pub ct_eq : Text → Text → Bool
unfolding gathered
ct_eq a b = if length a == length b then gathered 0 a b == 0 else false

-- `extract_bearer`, of the `Authorization` header where it is one of visible ASCII.
nonempty : Text → Option Text
nonempty t = if t == [] then none else some t

bearer : Text → Option Text
bearer s = elim (strip_prefix (text "Bearer ") s) [
  | none ↦ strip_prefix (text "bearer ") s
  | some rest ↦ some rest
]

unfoldable pub extract_bearer : Option Text → Option Text
unfolding nonempty bearer
extract_bearer none = none
extract_bearer (some s) = elim (bearer s) [ none ↦ none | some rest ↦ nonempty (trim rest) ]

module _ ⦃base64 : Base64⦄ (t : Moment) where
  -- A fresh token, in memory and in the file.
  mint : ℕ → Stateful Carrier Text
  mint until w =
      let token = base64.encode t.random in
      let kept : BootstrapPersist = record { token = token; until = until } in
      (
        ok token,
        record w {
          bootstrap = some (record { raw = t.random; until = until });
          bootstrap_file = elim t.disk [ none ↦ holds kept | some e ↦ w.bootstrap_file ];
        },
      )

  -- The token of the file, if it is of this window.
  restored : ℕ → BootstrapPersist → Option Text → Stateful Carrier Text
  unfolding mint
  restored until p none w = mint until w
  restored until p (some raw) w =
      if length raw == 32
      then (ok p.token, record w { bootstrap = some (record { raw = raw; until = p.until }) })
      else mint until w

  restore : ℕ → JsonFile BootstrapPersist → Stateful Carrier Text
  unfolding restored
  restore until missing w = mint until w
  restore until (corrupt message) w = mint until w
  restore until (holds p) w =
      if p.until == until then restored until p (base64.decode p.token) w else mint until w

  -- The token of the window that ends at `until`.
  token_until : ℕ → Option BootstrapToken → Stateful Carrier Text
  unfolding restore
  token_until until none w = restore until w.bootstrap_file w
  token_until until (some b) w =
      if b.until == until then (ok (base64.encode b.raw), w) else restore until w.bootstrap_file w

  synced : ArmState → Stateful Carrier Text
  unfolding token_until
  synced arm w =
      if not (is_effectively_armed t.now arm)
      then (err (other (text "not armed")), record w { bootstrap = none; bootstrap_file = missing })
      else elim arm.until [
        | none ↦ (err (other (text "armed without until")), w)
        | some until ↦ token_until until w.bootstrap w
      ]

  unfoldable pub ensure_bootstrap_locked : Stateful Carrier Text
  unfolding synced
  ensure_bootstrap_locked w = elim (load_arm w.arm_file) [
    | err e ↦ (err e, w)
    | panic ↦ (panic, w)
    | ok arm ↦ synced arm w
  ]

-- 32 bytes, or nothing.
unfoldable pub presented_bytes : ⦃base64 : Base64⦄ → Text → Option Text
presented_bytes ⦃base64⦄ token = elim (base64.decode token) [
  | none ↦ none
  | some b ↦ if length b == 32 then some b else none
]

unfoldable pub unauthorized : Text → PairError
unauthorized message = record { http_status = 401; code = text "unauthorized"; error = message }

-- `unwrap_or_default` of the arm file.
unfoldable pub arm_or_default : Carrier → ArmState
arm_or_default w = elim (load_arm w.arm_file) [ ok a ↦ a | _ ↦ disarmed ]

module _ ⦃base64 : Base64⦄ (t : Moment) where
  -- The presented bytes against the token of now, then the window once more.
  match_token : Text → Option BootstrapToken → Carrier → (PairError ⊎ Text) × Carrier
  unfolding unauthorized arm_or_default
  match_token presented none w = (inl (unauthorized (text "no bootstrap token")), w)
  match_token presented (some b) w =
      if not (ct_eq b.raw presented)
      then (inl (unauthorized (text "bootstrap token mismatch")), w)
      else if not (is_effectively_armed t.later (arm_or_default w))
      then (
        inl (record {
          http_status = 403;
          code = text "not_armed";
          error = text "host is not armed for accept";
        }),
        record w { bootstrap = none; bootstrap_file = missing },
      )
      else (inr b.raw, w)

  -- Where the token cannot be brought up to date the window is over.
  check_token : Text → Carrier → (PairError ⊎ Text) × Carrier
  unfolding match_token unauthorized
  check_token presented w =
      let (r, w') = ensure_bootstrap_locked t w in
      elim r [
        | ok _ ↦ match_token presented w'.bootstrap w'
        | _ ↦ (inl (unauthorized (text "bootstrap token invalidated (disarmed or expired)")), w')
      ]

  presented_token : Option Text → Carrier → (PairError ⊎ Text) × Carrier
  unfolding check_token unauthorized
  presented_token none w = (inl (unauthorized (text "invalid bootstrap token encoding")), w)
  presented_token (some b) w = check_token b w

  unfoldable pub require_bootstrap : Option Text → Carrier → (PairError ⊎ Text) × Carrier
  unfolding presented_token unauthorized
  require_bootstrap header w = elim (extract_bearer header) [
    | none ↦ (inl (unauthorized (text "missing or malformed Authorization Bearer")), w)
    | some token ↦ presented_token (presented_bytes token) w
  ]
