-- ===== src/Iceoryx/Tests.antt =====
-- A library that keeps the last sample, and the theorems there.
use broker_proxy.Base.{ℕ, ◌+◌, ◌≤◌, ◌<◌, ◌≡◌, ◌⊎◌, refl, true, none, some, List, [], ◌∷◌, length}
use broker_proxy.Iceoryx.{
  IceBytes, ice_limit, to_bytes, Library, Broker, publish, make_service_description,
}
use broker_proxy.Iceoryx.Samples.{with_publisher, publish-to_bytes}
use broker_proxy.Split.{split}

abbrev blank : IceBytes
blank = record { size = 0; data_bytes = [] }

-- The state is the number of listeners, and the last sample.
abbrev server : Library (ℕ × IceBytes)
server = record {
  assign_id = λ s. s;
  new_publisher = λ sd w. (w, 1);
  loan = λ p w. (w, some blank);
  publish_sample = λ p sample w. (w.0, sample);
  new_subscriber = λ sd w. (w, 2);
  new_listener = λ w. ((w.0 + 1, w.1), w.0);
  attach_event = λ l s w. (w, true);
}

abbrev broker : Broker
broker = record { publishers = []; subscribers = [] }

abbrev start : ℕ × IceBytes
start = (0, blank)

abbrev payload : List ℕ
payload = 7 ∷ 8 ∷ []

publish-to_bytes_example :
    ((sample : IceBytes) × (length payload ≤ ice_limit)
      × (publish server (97 ∷ []) payload broker start
          ≡ some (
            (with_publisher server (97 ∷ []) broker start).0,
            server.publish_sample (with_publisher server (97 ∷ []) broker start).2 sample start,
            0,
          ))
      × (to_bytes sample ≡ some payload))
    ⊎ ((ice_limit < length payload) × (publish server (97 ∷ []) payload broker start ≡ none))
publish-to_bytes_example = publish-to_bytes server (97 ∷ []) payload broker start start blank refl

-- "src/a/b/c" and "dst/a/b/c" are one service.
one_service :
    make_service_description (λ s. s) (115 ∷ 114 ∷ 99 ∷ 47 ∷ 97 ∷ 47 ∷ 98 ∷ 47 ∷ 99 ∷ [])
    ≡ make_service_description (λ s. s) (100 ∷ 115 ∷ 116 ∷ 47 ∷ 97 ∷ 47 ∷ 98 ∷ 47 ∷ 99 ∷ [])
unfolding make_service_description split
one_service = refl
