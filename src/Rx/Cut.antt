-- ===== src/Rx/Cut.antt =====
-- How a stream is cut into chunks does not matter, as long as no time-out fires.
use broker_proxy.Base.{
  ℕ, ◌≡◌, refl, ap, sym, ◌∙◌, false, Option, none, some, List, [], ◌∷◌, ◌++◌, map, arith, All,
  ◌>>=◌,
}
use broker_proxy.Rx.{
  Event, frame, Receiver, handle_bytes, timed_out, check_timeout, handle_rxd, handle_chunks,
}
use broker_proxy.Rx.View.{view, view_of, events_of, absorb_all, view-handle_bytes}
use broker_proxy.Rx.Stream.{absorb_all-append, wire, IsPayload, absorb_all-wire_resync}

abbrev pub concat : List (List ℕ) → List ℕ
concat [] = []
concat (c ∷ cs) = c ++ concat cs

abbrev pub OnSome {ℓ κ} : {A : Type ℓ} → Option A → (A → Type κ) → Type κ
OnSome none P = Unit
OnSome (some a) P = P a

module _ (millis : ℕ → ℕ) where
  -- At the end of no chunk more than a second has passed since the last flag.
  abbrev pub IsQuiet : List (List ℕ) → Receiver → Type 0
  IsQuiet [] r = Unit
  IsQuiet (c ∷ cs) r =
      OnSome (handle_bytes millis c r)
        (λ r'. (timed_out millis r' ≡ false) × IsQuiet cs (check_timeout millis c r'))

  view-check_timeout :
      (c : List ℕ) (r : Receiver)
      → timed_out millis r ≡ false
      → view (check_timeout millis c r) ≡ view r
  unfolding check_timeout
  view-check_timeout c r e = rw e

  after_chunk :
      (c : List ℕ) (cs : List (List ℕ)) (o : Option Receiver)
      → OnSome o (λ r'. (timed_out millis r' ≡ false) × IsQuiet cs (check_timeout millis c r'))
      → ((r : Receiver)
          → IsQuiet cs r
          → view_of (handle_chunks millis cs r) ≡ absorb_all (concat cs) (view r))
      → view_of ((o >>= λ r'. some (check_timeout millis c r')) >>= handle_chunks millis cs)
        ≡ (view_of o >>= absorb_all (concat cs))
  after_chunk c cs none q ih = refl
  after_chunk c cs (some r') q ih =
      ih (check_timeout millis c r') q.1 ∙ ap (absorb_all (concat cs)) (view-check_timeout c r' q.0)

  -- As long as no time-out fires, chunks have the effect of all their bytes at once.
  pub view-handle_chunks :
      (cs : List (List ℕ)) (r : Receiver)
      → IsQuiet cs r
      → view_of (handle_chunks millis cs r) ≡ absorb_all (concat cs) (view r)
  unfolding handle_chunks handle_rxd absorb_all
  view-handle_chunks [] r q = refl
  view-handle_chunks (c ∷ cs) r q =
      after_chunk c cs (handle_bytes millis c r) q (view-handle_chunks cs)
      ∙ ap (λ t. t >>= absorb_all (concat cs)) (view-handle_bytes millis c r)
      ∙ sym (absorb_all-append c (concat cs) (view r))

  -- Take one frame or more, of payloads that are lists of bytes and not empty. However the bytes of
  -- these frames are cut into chunks, and whatever bytes were pending (as long as they do not make
  -- `ppp_deframe` undefined), if no time-out fires then the receiver emits exactly the payloads, in
  -- their order, after the events of the pending bytes, and nothing is pending at the end.
  pub handle_chunks-wire :
      (cs : List (List ℕ)) (p : List ℕ) (ps : List (List ℕ)) (r : Receiver) (lost : List Event)
      → concat cs ≡ wire (p ∷ ps)
      → All IsPayload (p ∷ ps)
      → events_of r.input_frame ≡ some lost
      → IsQuiet cs r
      → (r' : Receiver) × (handle_chunks millis cs r ≡ some r')
        × (r'.events ≡ (r.events ++ lost) ++ map frame (p ∷ ps))
        × (r'.input_frame ≡ [])
  handle_chunks-wire cs p ps r lost same h e q = found (handle_chunks millis cs r) refl
    where
      result :
          view_of (handle_chunks millis cs r)
          ≡ some (record { pending = []; events = (r.events ++ lost) ++ map frame (p ∷ ps) })
      result =
          view-handle_chunks cs r q
          ∙ ap (λ t. absorb_all t (view r)) same
          ∙ absorb_all-wire_resync p ps r.input_frame r.events lost e h

      found :
          (o : Option Receiver)
          → handle_chunks millis cs r ≡ o
          → (r' : Receiver) × (handle_chunks millis cs r ≡ some r')
            × (r'.events ≡ (r.events ++ lost) ++ map frame (p ∷ ps))
            × (r'.input_frame ≡ [])
      found none e' = absurd (let n = sym (ap view_of e') ∙ result in cc)
      found (some r') e' =
          let same_view = sym (ap view_of e') ∙ result in
          (r', e', ground (arith, same_view), ground (arith, same_view))
