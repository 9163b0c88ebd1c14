-- ===== src/Zenoh.antt =====
-- broker/src/BrokerZenoh.cpp over the library Zenoh as a record of functions on a state of the
-- outside world. A handle is a number, and `none` a NULL pointer. The maps of subscribers and
-- publishers are lists; their order is that of the loops of `disconnect`.
pub mod Live
mod Tests
use broker_proxy.Base.{
  ℕ, zero, suc, ◌≡◌, Bool, true, false, Option, none, some, List, [], ◌∷◌, ◌++◌, if◌then◌else◌,
}
use broker_proxy.Redis.{same_text}
use broker_proxy.Cbor.{ℤ, pos, negsuc, c_string}

-- The arguments that all calls share, the configuration and the options, are left out.
pub record Library (W : Type 0) : Type 0 where
  pub open_session : W → W × Option ℕ
  pub declare_subscriber : Option ℕ → List ℕ → W → W × Option ℕ
  pub undeclare_subscriber : ℕ → W → W
  pub declare_resource : Option ℕ → List ℕ → W → W × ℕ
  pub declare_publisher : Option ℕ → ℕ → W → W × Option ℕ
  pub undeclare_publisher : Option ℕ → W → W
  pub write : Option ℕ → ℕ → List ℕ → W → W × ℤ

pub record Publisher : Type 0 where
  pub reskey : ℕ
  pub handle : Option ℕ

pub record Broker : Type 0 where
  pub session : Option ℕ
  pub is_connected : Bool
  pub subscribers : List (List ℕ × ℕ)
  pub publishers : List (List ℕ × Publisher)
  pub incoming : List (List ℕ × List ℕ)

-- `find` of a map.
abbrev pub find {ℓ} : {A : Type ℓ} → List ℕ → List (List ℕ × A) → Option A
find key [] = none
find key ((k, a) ∷ entries) =
    let rest = find key entries in if same_text k key then some a else rest

abbrev pub enoent : ℤ
enoent = pos 2

-- `subscribeHandler`
unfoldable pub on_sample : List ℕ → List ℕ → Broker → Broker
on_sample key value b = record b { incoming = b.incoming ++ (key, value) ∷ [] }

abbrev pub new_broker : Broker
new_broker = record {
  session = none;
  is_connected = false;
  subscribers = [];
  publishers = [];
  incoming = [];
}

abbrev pub is_null {ℓ} : {A : Type ℓ} → Option A → Bool
is_null none = true
is_null (some a) = false

module _ {W : Type 0} (zenoh : Library W) where
  -- The session, opened if there is none.
  abbrev pub opened : Option ℕ → W → W × Option ℕ
  opened none w = zenoh.open_session w
  opened (some s) w = (w, some s)

  abbrev pub connected_with : Broker → W × Option ℕ → Broker × W × ℤ
  connected_with b (w, session) = (
    record b { session = session; is_connected = if is_null session then true else false },
    w,
    if is_null session then negsuc 0 else pos 0,
  )

  unfoldable pub connect : Broker → W → Broker × W × ℤ
  connect b w = connected_with b (opened b.session w)

  abbrev pub undeclare_subscribers : List (List ℕ × ℕ) → W → W
  undeclare_subscribers [] w = w
  undeclare_subscribers ((pattern, h) ∷ subs) w =
      undeclare_subscribers subs (zenoh.undeclare_subscriber h w)

  abbrev pub undeclare_publishers : List (List ℕ × Publisher) → W → W
  undeclare_publishers [] w = w
  undeclare_publishers ((topic, p) ∷ pubs) w =
      undeclare_publishers pubs (zenoh.undeclare_publisher p.handle w)

  unfoldable pub disconnect : Broker → W → Broker × W × ℤ
  disconnect b w = (
    record b { subscribers = []; publishers = []; is_connected = false },
    undeclare_publishers b.publishers (undeclare_subscribers b.subscribers w),
    pos 0,
  )

  abbrev pub subscribed : List ℕ → Broker → W × Option ℕ → Broker × W × ℤ
  subscribed pattern b (w, none) = (b, w, negsuc 0)
  subscribed pattern b (w, some h) =
      (record b { subscribers = (pattern, h) ∷ b.subscribers }, w, pos 0)

  unfoldable pub subscribe : List ℕ → Broker → W → Broker × W × ℤ
  subscribe pattern b w =
      if is_null (find pattern b.subscribers)
      then subscribed pattern b (zenoh.declare_subscriber b.session (c_string pattern) w)
      else (b, w, pos 0)

  abbrev pub unsubscribed : Option ℕ → W → W
  unsubscribed none w = w
  unsubscribed (some h) w = zenoh.undeclare_subscriber h w

  unfoldable pub unsubscribe : List ℕ → Broker → W → Broker × W × ℤ
  unsubscribe pattern b w = (b, unsubscribed (find pattern b.subscribers) w, pos 0)

  -- `newZenohPublisher`, which keeps a publisher even if it could not be declared.
  abbrev pub declared : List ℕ → Broker → ℕ → W × Option ℕ → Broker × W × ℤ
  declared topic b key (w, h) = (
    record b { publishers = (topic, record { reskey = key; handle = h }) ∷ b.publishers },
    w,
    pos 0,
  )

  -- `resource`
  abbrev pub resource : List ℕ → Broker → W → W × ℕ
  resource topic b w = zenoh.declare_resource b.session (c_string topic) w

  unfoldable pub new_publisher : List ℕ → Broker → W → Broker × W × ℤ
  new_publisher topic b w =
      if is_null (find topic b.publishers)
      then (let r = resource topic b w in
          declared topic b r.1 (zenoh.declare_publisher b.session r.1 r.0))
      else (b, w, pos 0)

  abbrev pub written : Broker → W × ℤ → Broker × W × ℤ
  written b (w, rc) = (b, w, rc)

  abbrev pub publish_to : List ℕ → Broker → W → Option Publisher → Broker × W × ℤ
  publish_to bs b w none = (b, w, enoent)
  publish_to bs b w (some p) = written b (zenoh.write b.session p.reskey bs w)

  unfoldable pub publish : List ℕ → List ℕ → Broker → W → Broker × W × ℤ
  publish topic bs b w = publish_to bs b w (find topic b.publishers)

-- The calls of a broker.
pub data Action : Type 0 where
  do_connect do_disconnect : Action
  do_subscribe do_unsubscribe do_new_publisher : List ℕ → Action
  do_publish sample : List ℕ → List ℕ → Action

module _ {W : Type 0} (zenoh : Library W) where
  abbrev pub perform : Action → Broker → W → Broker × W × ℤ
  perform do_connect b w = connect zenoh b w
  perform do_disconnect b w = disconnect zenoh b w
  perform (do_subscribe pattern) b w = subscribe zenoh pattern b w
  perform (do_unsubscribe pattern) b w = unsubscribe zenoh pattern b w
  perform (do_new_publisher topic) b w = new_publisher zenoh topic b w
  perform (do_publish topic bs) b w = publish zenoh topic bs b w
  perform (sample key value) b w = (on_sample key value b, w, pos 0)

  abbrev pub perform_all : List Action → Broker → W → Broker × W
  perform_all [] b w = (b, w)
  perform_all (a ∷ actions) b w = let r = perform a b w in perform_all actions r.0 r.1
