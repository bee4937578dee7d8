-- ===== src/Session/Magic/Dns.antt =====
-- crates/mymesh-session/src/magic.rs: `build_dns_response`, and what `handle_socks` reads.
use my_mesh.Base.{
  ℕ, zero, suc, ◌+◌, bit_and, not, ◌||◌, Option, none, some, List, [], ◌∷◌, ◌++◌, ltb, leb,
  if◌then◌else◌, length, take, drop, get_or, ◌==◌, nat_eq, text_eq, Text, text, join, slice,
  decimal, be16, be32, of_be16,
}
use my_mesh.Base.Dict.{lookup}
use my_mesh.Core.MeshIp.{Ipv4Addr}
use my_mesh.Core.Device.Naming.{Unicode}
use my_mesh.Session.Magic.{Utf8, NameMap}

module _ ⦃utf : Utf8⦄ where
  -- The labels of the question from an index, and the index after them; nothing where the loop
  -- returns. The fuel bounds the rounds: each goes at least one byte on.
  unfoldable pub read_labels : ℕ → Text → ℕ → Option (List Text × ℕ)
  read_labels zero req i = none
  read_labels (suc fuel) req i = elim (drop i req) [
    | [] ↦ some ([], i)
    | l ∷ rest ↦
        let after = read_labels fuel req (i + 1 + l) in
        if l == 0
        then some ([], i + 1)
        else if bit_and l 192 == 192
        then none
        else if ltb (length req) (i + 1 + l)
        then none
        else elim after [ none ↦ none | some (ls, j) ↦ some (utf.lossy (take l rest) ∷ ls, j) ]
  ]

unfoldable pub octets_of : Ipv4Addr → Text
octets_of ip = ip.octets.0 ∷ ip.octets.1 ∷ ip.octets.2 ∷ ip.octets.3 ∷ []

-- The answer, with an address or without, to a question that ends before an index.
unfoldable pub dns_answer : Text → ℕ → Option Ipv4Addr → Text
unfolding octets_of
dns_answer req end none =
    take 2 req ++ be16 33155 ++ be16 1 ++ be16 0 ++ be16 0 ++ be16 0 ++ slice 12 end req
dns_answer req end (some ip) =
    take 2 req
    ++ be16 33152
    ++ be16 1
    ++ be16 1
    ++ be16 0
    ++ be16 0
    ++ slice 12 end req
    ++ be16 49164
    ++ be16 1
    ++ be16 1
    ++ be32 30
    ++ be16 4
    ++ octets_of ip

module _ ⦃uni : Unicode⦄ ⦃utf : Utf8⦄ where
  unfoldable pub asked_ip : Text → ℕ → List Text → NameMap → Option Ipv4Addr
  asked_ip req i labels names =
      let qtype = of_be16 (get_or req i 0) (get_or req (i + 1) 0) in
      if qtype == 1 || qtype == 255
      then elim (lookup (uni.to_lowercase (join (text ".") labels)) names) [
        | none ↦ none
        | some (id, ip) ↦ some ip
      ]
      else none

  unfoldable pub build_dns_response : Text → NameMap → Option Text
  unfolding read_labels dns_answer asked_ip
  build_dns_response req names =
      if ltb (length req) 12 then none else elim (read_labels (length req) req 12) [
        | none ↦ none
        | some (labels, i) ↦
            if ltb (length req) (i + 4)
            then none
            else some (dns_answer req (i + 4) (asked_ip req i labels names))
      ]

-- What the SOCKS listener makes of what a client sends, up to the host and port that are wanted. A
-- part that is cut off is an error of the stream.
pub data SocksRequest : Type 0 where
  cut_off : SocksRequest
  not_socks : SocksRequest
  refused : (code : ℕ) → SocksRequest
  wants : (host : Text) (port : ℕ) → SocksRequest

-- `read_exact`.
unfoldable pub read_exact : ℕ → Text → Option (Text × Text)
read_exact n s = if leb n (length s) then some (take n s, drop n s) else none

module _ ⦃utf : Utf8⦄ where
  -- The address, of a type, and the port.
  unfoldable pub socks_target : ℕ → Text → SocksRequest
  unfolding read_exact
  socks_target kind s =
      if kind == 1
      then elim (read_exact 4 s) [
        | none ↦ cut_off
        | some (a, s) ↦ elim (read_exact 2 s) [
          | none ↦ cut_off
          | some (p, _) ↦
              wants
                (decimal (get_or a 0 0)
                  ++ text "."
                  ++ decimal (get_or a 1 0)
                  ++ text "."
                  ++ decimal (get_or a 2 0)
                  ++ text "."
                  ++ decimal (get_or a 3 0))
                (of_be16 (get_or p 0 0) (get_or p 1 0))
        ]
      ]
      else if kind == 3
      then elim s [
        | [] ↦ cut_off
        | l ∷ s ↦ elim (read_exact l s) [
          | none ↦ cut_off
          | some (name, s) ↦ elim (read_exact 2 s) [
            | none ↦ cut_off
            | some (p, _) ↦ wants (utf.lossy name) (of_be16 (get_or p 0 0) (get_or p 1 0))
          ]
        ]
      ]
      else refused 8

  socks_call : Text → SocksRequest
  unfolding socks_target read_exact
  socks_call s = elim (read_exact 4 s) [
    | none ↦ cut_off
    | some (req, s) ↦
        if not (get_or req 0 0 == 5) || not (get_or req 1 0 == 1)
        then refused 7
        else socks_target (get_or req 3 0) s
  ]

  unfoldable pub socks_request : Text → SocksRequest
  unfolding socks_call read_exact
  socks_request s = elim (read_exact 2 s) [
    | none ↦ cut_off
    | some (header, s) ↦
        if not (get_or header 0 0 == 5)
        then not_socks
        else elim (read_exact (get_or header 1 0) s) [
          | none ↦ cut_off
          | some (methods, s) ↦ socks_call s
        ]
  ]
