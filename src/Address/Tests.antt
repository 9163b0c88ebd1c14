-- ===== src/Address/Tests.antt =====
-- Numbers and addresses as they are read.
use broker_proxy.Base.{◌≡◌, refl, true, [], ◌∷◌}
use broker_proxy.Address.{get_number, from_uri}
use broker_proxy.Split.{split}

-- "10" and "99" are read alike.
ten_ninety_nine : get_number (49 ∷ 48 ∷ []) ≡ get_number (57 ∷ 57 ∷ [])
ten_ninety_nine = refl

-- "h:10", with a host name that is found: the port is not 10.
host_port :
    from_uri (λ host. (7, true)) (record { ip = 0; port = 0 }) (104 ∷ 58 ∷ 49 ∷ 48 ∷ [])
    ≡ (record { ip = 7; port = 64528 }, true)
unfolding from_uri split
host_port = refl
