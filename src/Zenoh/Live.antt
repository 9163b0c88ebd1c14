-- ===== src/Zenoh/Live.antt =====
-- broker/src/BrokerZenoh.cpp: the subscribers that are declared, and the flag of the connection.
use broker_proxy.Base.{
  ℕ, ◌≡◌, refl, true, false, Option, none, some, List, [], ◌∷◌, ◌++◌, ◌==◌, if◌then◌else◌, ◌⊎◌, inl,
  inr,
}
use broker_proxy.Cbor.{ℤ, pos, negsuc}
use broker_proxy.Zenoh.{
  Library, Broker, opened, connected_with, connect, Action, do_connect, do_disconnect, do_subscribe,
  do_unsubscribe, do_new_publisher, do_publish, sample,
}

abbrev pub remove : ℕ → List ℕ → List ℕ
remove h [] = []
remove h (k ∷ ks) = let rest = remove h ks in if k == h then ks else k ∷ rest

abbrev pub added : Option ℕ → List ℕ → List ℕ
added none hs = hs
added (some h) hs = h ∷ hs

-- What the library says of its subscribers: those that are declared and not yet undeclared, the
-- last one first, and the calls that undeclare one, in order.
pub record Ledger {W : Type 0} (zenoh : Library W) : Type 0 where
  pub live : W → List ℕ
  pub undeclared : W → List ℕ
  pub open_keeps : (w : W) → live (zenoh.open_session w).0 ≡ live w
  pub declares :
      (s : Option ℕ) (pattern : List ℕ) (w : W)
      → live (zenoh.declare_subscriber s pattern w).0
        ≡ added (zenoh.declare_subscriber s pattern w).1 (live w)
  pub undeclares : (h : ℕ) (w : W) → live (zenoh.undeclare_subscriber h w) ≡ remove h (live w)
  pub records :
      (h : ℕ) (w : W) → undeclared (zenoh.undeclare_subscriber h w) ≡ undeclared w ++ h ∷ []
  pub undeclare_records :
      (h : Option ℕ) (w : W) → undeclared (zenoh.undeclare_publisher h w) ≡ undeclared w
  pub resource_keeps :
      (s : Option ℕ) (topic : List ℕ) (w : W) → live (zenoh.declare_resource s topic w).0 ≡ live w
  pub publisher_keeps :
      (s : Option ℕ) (key : ℕ) (w : W) → live (zenoh.declare_publisher s key w).0 ≡ live w
  pub undeclare_keeps : (h : Option ℕ) (w : W) → live (zenoh.undeclare_publisher h w) ≡ live w
  pub write_keeps :
      (s : Option ℕ) (key : ℕ) (bs : List ℕ) (w : W) → live (zenoh.write s key bs w).0 ≡ live w

-- The handles that the broker has.
abbrev pub handles : List (List ℕ × ℕ) → List ℕ
handles [] = []
handles ((pattern, h) ∷ subs) = h ∷ handles subs

abbrev pub IsNotUnsubscribe : Action → Type 0
IsNotUnsubscribe (do_unsubscribe pattern) = ⊥
IsNotUnsubscribe do_connect = Unit
IsNotUnsubscribe do_disconnect = Unit
IsNotUnsubscribe (do_subscribe pattern) = Unit
IsNotUnsubscribe (do_new_publisher topic) = Unit
IsNotUnsubscribe (do_publish topic bs) = Unit
IsNotUnsubscribe (sample key value) = Unit

module _ {W : Type 0} (zenoh : Library W) (ledger : Ledger zenoh) where
  -- The broker's handles are those that are live.
  abbrev pub Owns : Broker × W × ℤ → Type 0
  Owns r = ledger.live r.1 ≡ handles r.0.subscribers

module _ {W : Type 0} (zenoh : Library W) where
  -- A broker that has failed to connect has its flag set, and one that has a session does not.
  abbrev pub TellsFailure : Broker × W × ℤ → Type 0
  TellsFailure r =
      ((r.2 ≡ negsuc 0) × (r.0.session ≡ none) × (r.0.is_connected ≡ true))
      ⊎ ((r.2 ≡ pos 0)
          × ((s : ℕ) × (r.0.session ≡ some s) × (connect zenoh r.0 r.1 ≡ r))
          × (r.0.is_connected ≡ false))

  connected_with-TellsFailure :
      (b : Broker) (r : W × Option ℕ) → TellsFailure (connected_with zenoh b r)
  unfolding connect
  connected_with-TellsFailure b (w, none) = inl (refl, refl, refl)
  connected_with-TellsFailure b (w, some s) = inr (refl, (s, refl, refl), refl)

  -- However the library answers, `connect` either fails with -1 and has no session, or returns 0
  -- and has one, and then a second call opens none and changes nothing. The flag of the connection
  -- says the opposite: it is set after a failure, and cleared after a success.
  pub connect-TellsFailure : (b : Broker) (w : W) → TellsFailure (connect zenoh b w)
  unfolding connect
  connect-TellsFailure b w = connected_with-TellsFailure b (opened zenoh b.session w)
