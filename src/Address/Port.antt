-- ===== src/Address/Port.antt =====
-- What `fromUri` accepts, and which port it reads.
use broker_proxy.Base.{
  ℕ, ◌≡◌, ◌≢◌, refl, ap, Bool, true, false, List, [], ◌∷◌, ◌++◌, if◌then◌else◌, length, All, arith,
}
use broker_proxy.Split.{split}
use broker_proxy.Split.Join.{IsWord, occurrences, join-split, split-join}
use broker_proxy.Address.{isdigit, number_loop, get_number, UdpAddress, from_parts, from_uri}

abbrev pub IsNumber : List ℕ → Type 0
IsNumber s = All (λ (c : ℕ). isdigit c ≡ true) s

number_loop-blind :
    (s t : List ℕ)
    → IsNumber s
    → IsNumber t
    → length s ≡ length t
    → (x : ℕ) → number_loop x s ≡ number_loop x t
number_loop-blind [] [] d e same x = refl
number_loop-blind [] (b ∷ t) d e same x = absurd (omega (arith, same))
number_loop-blind (a ∷ s) [] d e same x = absurd (omega (arith, same))
number_loop-blind (a ∷ s) (b ∷ t) d e same x =
    rw (d.0, e.0) (number_loop-blind s t d.1 e.1 (omega (arith, same)) _)

-- Two strings of digits of the same length are the same number to `getNumber`, whatever their
-- digits are.
pub get_number-blind :
    (s t : List ℕ) → IsNumber s → IsNumber t → length s ≡ length t → get_number s ≡ get_number t
get_number-blind s t d e same = number_loop-blind s t d e same 0

module _ (resolve : List ℕ → ℕ × Bool) where
  from_parts-refused :
      (a : UdpAddress) (parts : List (List ℕ))
      → length parts ≢ 2
      → from_parts resolve a parts ≡ (a, false)
  from_parts-refused a [] ne = refl
  from_parts-refused a (p ∷ []) ne = refl
  from_parts-refused a (p ∷ q ∷ []) ne = absurd (ne refl)
  from_parts-refused a (p ∷ q ∷ r ∷ rs) ne = refl

  -- A text without exactly one colon is refused, and the address stays as it is.
  pub from_uri-refused :
      (a : UdpAddress) (uri : List ℕ) → occurrences 58 uri ≢ 1 → from_uri resolve a uri ≡ (a, false)
  unfolding from_uri
  from_uri-refused a uri ne =
      from_parts-refused a (split uri 58) (λ two. ne (omega (arith, two, (join-split uri 58).2)))

  -- Of a host and a port with a colon between them, and none in them, the host is resolved, and
  -- where that succeeds the port is read; the result is that of the port's text.
  pub from_uri-parts :
      (a : UdpAddress) (host port : List ℕ)
      → IsWord 58 host
      → IsWord 58 port
      → from_uri resolve a (host ++ 58 ∷ port) ≡ (
          if (resolve host).1
          then (record { ip = (resolve host).0; port = (get_number port).0 }, (get_number port).1)
          else (record a { ip = (resolve host).0 }, false))
  unfolding from_uri
  from_uri-parts a host port h p =
      ap (from_parts resolve a) (split-join 58 host (port ∷ []) (h, (p, tt)))
