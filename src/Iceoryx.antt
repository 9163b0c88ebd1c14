-- ===== src/Iceoryx.antt =====
-- broker/src/BrokerIceoryx.cpp and BrokerIceoryx.h over the library Iceoryx as a record of functions on
-- a state of the outside world; its handles are numbers. `none` is undefined behaviour, or the end of
-- the program. `assign_id` is what an identifier keeps of a text, by `unsafe_assign`.
pub mod Samples
mod Tests
use broker_proxy.Base.{
  ℕ, zero, suc, ◌+◌, ◌≡◌, Bool, true, false, Option, none, some, List, [], ◌∷◌, ◌++◌, length, leb,
  if◌then◌else◌, get_elem?, ◌>>=◌,
}
use broker_proxy.Split.{drop, split}
use broker_proxy.Zenoh.{find}

-- `IceBytes`: the number of bytes, and the 1024 bytes of `data`.
pub record IceBytes : Type 0 where
  pub size : ℕ
  pub data_bytes : List ℕ

abbrev pub ice_limit : ℕ
ice_limit = 1024

-- `operator=`: `memcpy` writes behind `data` where there are more bytes.
unfoldable pub assign : List ℕ → IceBytes → Option IceBytes
assign bs b =
    if leb (length bs) ice_limit
    then some (record { size = length bs; data_bytes = bs ++ drop (length bs) b.data_bytes })
    else none

-- The loop of `toBytes`, from the position on, for so many bytes.
abbrev pub bytes_from : List ℕ → ℕ → ℕ → Option (List ℕ)
bytes_from d i zero = some []
bytes_from d i (suc n) = get_elem? d i >>= λ x. bytes_from d (suc i) n >>= λ rest. some (x ∷ rest)

unfoldable pub to_bytes : IceBytes → Option (List ℕ)
to_bytes b = bytes_from b.data_bytes 0 b.size

-- `ServiceDescription`: service, instance and event.
abbrev pub Service : Type 0
Service = List ℕ × List ℕ × List ℕ

abbrev pub id_of : (List ℕ → List ℕ) → Option (List ℕ) → List ℕ
id_of assign_id none = []
id_of assign_id (some []) = []
id_of assign_id (some (c ∷ cs)) = assign_id (c ∷ cs)

unfoldable pub make_service_description : (List ℕ → List ℕ) → List ℕ → Service
make_service_description assign_id topic =
    let element = split topic 47 in
    (
      id_of assign_id (get_elem? element 1),
      id_of assign_id (get_elem? element 2),
      id_of assign_id (get_elem? element 3),
    )

pub record Library (W : Type 0) : Type 0 where
  pub assign_id : List ℕ → List ℕ
  pub new_publisher : Service → W → W × ℕ
  pub loan : ℕ → W → W × Option IceBytes
  pub publish_sample : ℕ → IceBytes → W → W
  pub new_subscriber : Service → W → W × ℕ
  pub new_listener : W → W × ℕ
  pub attach_event : ℕ → ℕ → W → W × Bool

pub record Broker : Type 0 where
  pub publishers : List (List ℕ × ℕ)
  pub subscribers : List (List ℕ × ℕ)

module _ {W : Type 0} (ice : Library W) where
  -- The publisher of a topic, created if there is none.
  abbrev pub created : List ℕ → Broker → W × ℕ → Broker × W × ℕ
  created topic b (w, p) = (record b { publishers = (topic, p) ∷ b.publishers }, w, p)

  abbrev pub publisher_of : List ℕ → Broker → W → Option ℕ → Broker × W × ℕ
  publisher_of topic b w none =
      created topic b (ice.new_publisher (make_service_description ice.assign_id topic) w)
  publisher_of topic b w (some p) = (b, w, p)

  abbrev pub loaned : List ℕ → Broker → ℕ → W × Option IceBytes → Option (Broker × W × ℕ)
  loaned bs b p (w, none) = some (b, w, 0)
  loaned bs b p (w, some sample) =
      assign bs sample >>= λ filled. some (b, ice.publish_sample p filled w, 0)

  unfoldable pub publish : List ℕ → List ℕ → Broker → W → Option (Broker × W × ℕ)
  publish topic bs b w =
      let r = publisher_of topic b w (find topic b.publishers) in
      loaned bs r.0 r.2 (ice.loan r.2 r.1)

  abbrev pub subscriber_created : List ℕ → Broker → W × ℕ → Broker × W × ℕ
  subscriber_created topic b (w, s) = (record b { subscribers = (topic, s) ∷ b.subscribers }, w, s)

  abbrev pub subscriber_of : List ℕ → Broker → W → Option ℕ → Broker × W × ℕ
  subscriber_of topic b w none =
      subscriber_created topic b
        (ice.new_subscriber (make_service_description ice.assign_id topic) w)
  subscriber_of topic b w (some s) = (b, w, s)

  abbrev pub attached : Broker → W × Bool → Option (Broker × W × ℕ)
  attached b (w, true) = some (b, w, 0)
  attached b (w, false) = none

  -- A new listener is attached on every call.
  unfoldable pub subscribe : List ℕ → Broker → W → Option (Broker × W × ℕ)
  subscribe topic b w =
      let r = subscriber_of topic b w (find topic b.subscribers) in
      let l = ice.new_listener r.1 in attached r.0 (ice.attach_event l.1 r.2 l.0)
