-- ===== src/Rx/View.antt =====
-- What the receiver does to its buffer and its events, with the clock left out.
use broker_proxy.Base.{
  ℕ, ◌≡◌, refl, true, false, Option, none, some, List, [], ◌∷◌, ◌++◌, ◌==◌, ltb, if◌then◌else◌,
  length, arith, append-nil, ◌>>=◌, ap, ◌∙◌,
}
use broker_proxy.Ppp.{flag_char, returned, undefined, ppp_deframe}
use broker_proxy.Rx.{
  Event, frame, log, Receiver, to_stdout, handle_frame, handle_byte, handle_bytes,
}

pub record View : Type 0 where
  pub pending : List ℕ
  pub events : List Event

abbrev pub view : Receiver → View
view r = record { pending = r.input_frame; events = r.events }

-- The events that a body between two flags gives rise to.
unfoldable pub events_of : List ℕ → Option (List Event)
events_of bs = if length bs == 0 then some [] else (elim (ppp_deframe bs) [
  | returned true out ↦ some (frame out ∷ [])
  | returned false out ↦ some (if ltb 1 (length bs) then log bs ∷ [] else [])
  | undefined ↦ none
])

unfoldable pub absorb : ℕ → View → Option View
absorb b v =
    if b == flag_char
    then (events_of v.pending >>= λ es. some (record { pending = []; events = v.events ++ es }))
    else some (record v { pending = v.pending ++ b ∷ [] })

unfoldable pub absorb_all : List ℕ → View → Option View
unfolding absorb
absorb_all [] v = some v
absorb_all (b ∷ bs) v = absorb b v >>= absorb_all bs

abbrev pub view_of : Option Receiver → Option View
view_of none = none
view_of (some r) = some (view r)

pub view_of->>= :
    (o : Option Receiver) (f : Receiver → Option Receiver) (g : View → Option View)
    → ((r : Receiver) → view_of (f r) ≡ g (view r))
    → view_of (o >>= f) ≡ (view_of o >>= g)
view_of->>= none f g h = refl
view_of->>= (some r) f g h = h r

module _ (millis : ℕ → ℕ) where
  -- The clock has no part in the events of the loop.
  pub view-handle_byte :
      (b : ℕ) (r : Receiver) → view_of (handle_byte millis b r) ≡ absorb b (view r)
  unfolding handle_byte handle_frame to_stdout absorb events_of
  view-handle_byte b r = ground (arith, append-nil r.events)

  pub view-handle_bytes :
      (bs : List ℕ) (r : Receiver) → view_of (handle_bytes millis bs r) ≡ absorb_all bs (view r)
  unfolding handle_bytes absorb_all
  view-handle_bytes [] r = refl
  view-handle_bytes (b ∷ bs) r =
      view_of->>= (handle_byte millis b r) (handle_bytes millis bs) (absorb_all bs)
        (view-handle_bytes bs)
      ∙ ap (λ t. t >>= absorb_all bs) (view-handle_byte b r)
