-- ===== src/Zenoh/Tests.antt =====
-- A library that keeps a list of its subscribers, and the theorems there.
use broker_proxy.Base.{
  ◌++◌, ℕ, ◌+◌, ◌==◌, ◌≡◌, refl, Bool, true, false, Option, none, some, List, [], ◌∷◌, length,
}
use broker_proxy.Cbor.{pos}
use broker_proxy.Zenoh.{
  Library, new_broker, connect, subscribe, unsubscribe, disconnect, perform_all, Action, do_connect,
  do_disconnect, do_subscribe, do_unsubscribe, do_new_publisher, do_publish, sample,
}
use broker_proxy.Zenoh.Live.{remove, added, Ledger, TellsFailure, connect-TellsFailure}

-- The state is the handles of the subscribers, and those undeclared. A pattern that
-- begins with a slash is refused.
abbrev Server : Type 0
Server = List ℕ × List ℕ

abbrev accepted : Bool → Server → Server × Option ℕ
accepted true w = (w, none)
accepted false (hs, n) = (((length hs + 1) ∷ hs, n), some (length hs + 1))

abbrev begins_with_slash : List ℕ → Bool
begins_with_slash [] = false
begins_with_slash (c ∷ cs) = c == 47

abbrev server : Library Server
server = record {
  open_session = λ w. (w, some 1);
  declare_subscriber = λ s pattern w. accepted (begins_with_slash pattern) w;
  undeclare_subscriber = λ h w. (remove h w.0, w.1 ++ h ∷ []);
  declare_resource = λ s topic w. (w, 7);
  declare_publisher = λ s key w. (w, none);
  undeclare_publisher = λ h w. w;
  write = λ s key bs w. (w, pos 0);
}

accepted-added : (b : Bool) (w : Server) → (accepted b w).0.0 ≡ added (accepted b w).1 w.0
accepted-added true w = refl
accepted-added false (hs, n) = refl

abbrev ledger : Ledger server
ledger = record {
  live = λ w. w.0;
  undeclared = λ w. w.1;
  records = λ h w. refl;
  undeclare_records = λ h w. refl;
  open_keeps = λ w. refl;
  declares = λ s pattern w. accepted-added (begins_with_slash pattern) w;
  undeclares = λ h w. refl;
  resource_keeps = λ s topic w. refl;
  publisher_keeps = λ s key w. refl;
  undeclare_keeps = λ h w. refl;
  write_keeps = λ s key bs w. refl;
}

abbrev start : Server
start = ([], [])

abbrev calls : List Action
calls =
    do_connect
    ∷ do_subscribe (97 ∷ [])
    ∷ do_subscribe (47 ∷ [])
    ∷ do_subscribe (98 ∷ [])
    ∷ do_new_publisher (97 ∷ [])
    ∷ do_publish (97 ∷ []) (5 ∷ [])
    ∷ sample (98 ∷ []) (5 ∷ [])
    ∷ []

connect-TellsFailure_example : TellsFailure server (connect server new_broker start)
connect-TellsFailure_example = connect-TellsFailure server new_broker start

-- A subscriber that was unsubscribed is undeclared again by `disconnect`.
undeclared_twice :
    (perform_all server
      (do_subscribe (97 ∷ []) ∷ do_unsubscribe (97 ∷ []) ∷ do_disconnect ∷ [])
      new_broker
      start).1.1
    ≡ 1 ∷ 1 ∷ []
unfolding subscribe unsubscribe disconnect
undeclared_twice = refl
