-- ===== src/Address.antt =====
-- proxy/src/Udp.cpp: `getNumber` and `UdpAddress::fromUri`. The resolution of a host name,
-- `getInetAddr`, is a parameter: whether it succeeds, and the address it leaves.
pub mod Port
mod Tests
use broker_proxy.Base.{
  ℕ, ◌+◌, ◌-◌, ◌*◌, ◌%◌, ◌^◌, Bool, true, false, ◌&&◌, List, [], ◌∷◌, leb, if◌then◌else◌,
}
use broker_proxy.Split.{split}

-- `isdigit`
abbrev pub isdigit : ℕ → Bool
isdigit c = leb 48 c && leb c 57

-- The loop of `getNumber`, in 16 bits, from the value of `x` so far: `x` at the end, and the result.
abbrev pub number_loop : ℕ → List ℕ → ℕ × Bool
number_loop x [] = (x, true)
number_loop x (ch ∷ s) =
    let x' = x * 10 % 2 ^ 16 in
    if isdigit ch then number_loop ((x' + x' + 2 ^ 16 - 48) % 2 ^ 16) s else (x, false)

abbrev pub get_number : List ℕ → ℕ × Bool
get_number s = number_loop 0 s

pub record UdpAddress : Type 0 where
  pub ip : ℕ
  pub port : ℕ

module _ (resolve : List ℕ → ℕ × Bool) where
  -- The tests of `fromUri`, on the parts.
  abbrev pub from_parts : UdpAddress → List (List ℕ) → UdpAddress × Bool
  from_parts a (host ∷ port ∷ []) =
      let found : UdpAddress = record a { ip = (resolve host).0 } in
      if (resolve host).1
      then (record found { port = (get_number port).0 }, (get_number port).1)
      else (found, false)
  from_parts a parts = (a, false)

  unfoldable pub from_uri : UdpAddress → List ℕ → UdpAddress × Bool
  from_uri a uri = from_parts a (split uri 58)
