-- ===== src/Crypto/Words.antt =====
-- crates/mymesh-crypto/src/words.rs: pairing codes, a number and two words. What the random generator
-- chooses is an argument.
pub mod RoundTrip
use my_mesh.Base.{
  ℕ, ◌+◌, ◌-◌, ◌||◌, Option, none, some, List, [], ◌∷◌, ◌++◌, map, arith, if◌then◌else◌, get_or,
  ◌==◌, nat_eq, text_eq, pairing, Result, ok, err, ◌>>=◌, ◌>>◌, Text, text, trim, decimal,
}
use Prim.Native.String.{String}
use my_mesh.Base.{split, parse_unsigned}
use my_mesh.Core.Device.Naming.{Unicode}

-- `WORDS`.
abbrev words_listed : List String
words_listed =
    "alpha" ∷ "anchor" ∷ "apex" ∷ "arc" ∷ "arrow" ∷ "atlas" ∷ "atom" ∷ "aurora" ∷ "badge" ∷ "basin"
    ∷ "beacon" ∷ "birch" ∷ "blade" ∷ "bloom" ∷ "bolt" ∷ "bridge" ∷ "canyon" ∷ "cedar" ∷ "cipher"
    ∷ "cliff" ∷ "cloud" ∷ "cobalt" ∷ "comet" ∷ "coral" ∷ "delta" ∷ "dew" ∷ "drift" ∷ "dune"
    ∷ "ember" ∷ "epoch" ∷ "fable" ∷ "fern" ∷ "field" ∷ "flint" ∷ "flora" ∷ "forge" ∷ "frost"
    ∷ "gale" ∷ "gamma" ∷ "glen" ∷ "grain" ∷ "grove" ∷ "harbor" ∷ "haven" ∷ "hazel" ∷ "helix"
    ∷ "hollow" ∷ "honey" ∷ "horizon" ∷ "ivory" ∷ "jade" ∷ "jasper" ∷ "kelp" ∷ "knoll" ∷ "lagoon"
    ∷ "lark" ∷ "lattice" ∷ "leaf" ∷ "lemon" ∷ "lotus" ∷ "lumen" ∷ "maple" ∷ "marsh" ∷ "meadow"
    ∷ "mercury" ∷ "mesa" ∷ "mimic" ∷ "mint" ∷ "mirror" ∷ "mist" ∷ "moss" ∷ "nebula" ∷ "needle"
    ∷ "nest" ∷ "night" ∷ "north" ∷ "nova" ∷ "oak" ∷ "oasis" ∷ "olive" ∷ "onyx" ∷ "orbit" ∷ "orchid"
    ∷ "otter" ∷ "oxide" ∷ "palm" ∷ "paper" ∷ "pearl" ∷ "pebble" ∷ "pine" ∷ "pivot" ∷ "plume"
    ∷ "pond" ∷ "prism" ∷ "pulse" ∷ "quartz" ∷ "quill" ∷ "rain" ∷ "raven" ∷ "reef" ∷ "ridge"
    ∷ "river" ∷ "robin" ∷ "root" ∷ "sable" ∷ "sage" ∷ "sail" ∷ "sand" ∷ "sapphire" ∷ "scale"
    ∷ "scarlet" ∷ "seed" ∷ "shade" ∷ "shell" ∷ "shore" ∷ "sierra" ∷ "silk" ∷ "silver" ∷ "slate"
    ∷ "smoke" ∷ "snow" ∷ "solar" ∷ "spark" ∷ "spine" ∷ "spruce" ∷ "steel" ∷ "stone" ∷ "storm"
    ∷ "summit" ∷ "swift" ∷ "tide" ∷ "timber" ∷ "topaz" ∷ "trail" ∷ "tree" ∷ "tundra" ∷ "valley"
    ∷ "vapor" ∷ "velvet" ∷ "vine" ∷ "violet" ∷ "vista" ∷ "volt" ∷ "wave" ∷ "willow" ∷ "wind"
    ∷ "winter" ∷ "wolf" ∷ "wood" ∷ "zenith" ∷ "zinc" ∷ "amber" ∷ "basalt" ∷ "breeze" ∷ "bronze"
    ∷ "cascade" ∷ "chrome" ∷ "circuit" ∷ "clover" ∷ "copper" ∷ "crater" ∷ "crystal" ∷ "current"
    ∷ "dawn" ∷ "echo" ∷ "falcon" ∷ "glacier" ∷ "graphite" ∷ "harbor" ∷ "harvest" ∷ "indigo" ∷ "iron"
    ∷ "ivory" ∷ "jungle" ∷ "kernel" ∷ "laser" ∷ "lunar" ∷ "magnet" ∷ "marble" ∷ "meteor" ∷ "nickel"
    ∷ "omega" ∷ "opal" ∷ "oxide" ∷ "pebble" ∷ "photon" ∷ "plasma" ∷ "polar" ∷ "portal" ∷ "radar"
    ∷ "radar" ∷ "ripple" ∷ "rocket" ∷ "sable" ∷ "signal" ∷ "sirius" ∷ "sonic" ∷ "static" ∷ "summit"
    ∷ "talon" ∷ "tensor" ∷ "terra" ∷ "thunder" ∷ "titan" ∷ "torque" ∷ "turbo" ∷ "ultra" ∷ "vector"
    ∷ "vertex" ∷ "violet" ∷ "vortex" ∷ "walnut" ∷ "water" ∷ "xenon" ∷ "yellow" ∷ "zephyr" ∷ "anchor"
    ∷ "binary" ∷ "carbon" ∷ "delta" ∷ "engine" ∷ "fusion" ∷ "galaxy" ∷ "helium" ∷ "ion" ∷ "jupiter"
    ∷ "kinetic" ∷ "lithium" ∷ "matrix" ∷ "neutron" ∷ "orbit" ∷ "proton" ∷ "quantum" ∷ "reactor"
    ∷ "saturn" ∷ "thrust" ∷ []

unfoldable pub words : List Text
words = map text words_listed

pub record PairingCode : Type 0 where
  pub nameplate : ℕ
  pub first : Text
  pub second : Text

unfoldable pub as_string : PairingCode → Text
as_string c = decimal c.nameplate ++ text "-" ++ c.first ++ text "-" ++ c.second

-- The bytes that the key exchange is started with.
unfoldable pub password_bytes : PairingCode → Text
unfolding as_string
password_bytes c = as_string c

-- `code_from_entropy`, where the generator gives `i` and `j`.
unfoldable pub code_from_entropy : ℕ → ℕ → ℕ → PairingCode
unfolding words
code_from_entropy nameplate i j = record {
  nameplate = if nameplate == 0 then 1 else nameplate;
  first = get_or words i [];
  second = get_or words j [];
}

-- `parse_code` of the parts.
coded : Option ℕ → Text → Text → Result PairingCode
coded none first second = err (pairing (text "invalid nameplate"))
coded (some n) first second =
    if n == 0
    then err (pairing (text "nameplate must be >= 1"))
    else if first == [] || second == []
    then err (pairing (text "empty word in code"))
    else ok (record { nameplate = n; first = first; second = second })

of_parts : List Text → Result PairingCode
unfolding coded
of_parts (n ∷ first ∷ second ∷ []) = coded (parse_unsigned 65535 n) first second
of_parts _ = err (pairing (text "code must look like 42-maple-orbit"))

unfoldable pub parse_code : ⦃uni : Unicode⦄ → Text → Result PairingCode
unfolding of_parts
parse_code ⦃uni⦄ raw = of_parts (split 45 (uni.to_lowercase (trim raw)))
