-- ===== src/Rx/Stream.antt =====
-- A stream of frames through the receiver.
use mathlib.Core.Path.{fun_ext}
use broker_proxy.Base.{
  ℕ, ◌≡◌, ◌≢◌, refl, ap, sym, ◌∙◌, Option, some, List, [], ◌∷◌, ◌++◌, map, ==_of_ne, arith,
  append_assoc, append-nil, All, IsBytes, ◌>>=◌, >>=_assoc,
}
use broker_proxy.Ppp.{flag_char, ppp_frame}
use broker_proxy.Ppp.Stuff.{body}
use broker_proxy.Ppp.Accept.{ppp_deframe-ppp_frame, length-body}
use broker_proxy.Rx.{Event, frame}
use broker_proxy.Rx.View.{View, events_of, absorb, absorb_all}

pub absorb_all-append :
    (xs ys : List ℕ) (v : View) → absorb_all (xs ++ ys) v ≡ (absorb_all xs v >>= absorb_all ys)
unfolding absorb_all
absorb_all-append [] ys v = refl
absorb_all-append (x ∷ xs) ys v =
    ap (◌>>=◌ (absorb x v)) (fun_ext (absorb_all-append xs ys))
    ∙ sym (>>=_assoc (absorb x v) (absorb_all xs) (absorb_all ys))

-- Bytes other than the flag gather in the buffer.
absorb_all-no_flag :
    (bs pending : List ℕ) (es : List Event)
    → All (λ c. c ≢ flag_char) bs
    → absorb_all bs (record { pending = pending; events = es })
      ≡ some (record { pending = pending ++ bs; events = es })
unfolding absorb_all absorb
absorb_all-no_flag [] pending es h =
    ap (λ t. some (record { pending = t; events = es })) (sym (append-nil pending))
absorb_all-no_flag (b ∷ bs) pending es h =
    rw (==_of_ne b flag_char h.0, absorb)
      (absorb_all-no_flag bs (pending ++ b ∷ []) es h.1
        ∙ ap (λ t. some (record { pending = t; events = es })) (append_assoc pending (b ∷ []) bs))

events_of-body : (bs : List ℕ) → IsBytes bs → bs ≢ [] → events_of (body bs) ≡ some (frame bs ∷ [])
unfolding events_of
events_of-body bs hb ne =
    let (shape, clean, e) = ppp_deframe-ppp_frame bs hb ne in ground (arith, e, length-body bs ne)

absorb_all-ppp_frame :
    (bs : List ℕ) (es : List Event)
    → IsBytes bs
    → bs ≢ []
    → absorb_all (ppp_frame bs) (record { pending = []; events = es })
      ≡ some (record { pending = []; events = es ++ frame bs ∷ [] })
unfolding absorb_all absorb events_of
absorb_all-ppp_frame bs es hb ne =
    let (shape, clean, e) = ppp_deframe-ppp_frame bs hb ne in
    rw shape (
      ap (λ t. absorb_all (body bs ++ flag_char ∷ []) (record { pending = []; events = t }))
        (append-nil es)
      ∙ absorb_all-append (body bs) (flag_char ∷ []) (record { pending = []; events = es })
      ∙ ap (λ t. t >>= absorb_all (flag_char ∷ [])) (absorb_all-no_flag (body bs) [] es clean)
      ∙ ap
          (λ t. (t >>= λ es'. some (record { pending = []; events = es ++ es' })) >>= absorb_all [])
          (events_of-body bs hb ne))

-- The bytes that a sender writes for a list of payloads.
abbrev pub wire : List (List ℕ) → List ℕ
wire [] = []
wire (p ∷ ps) = ppp_frame p ++ wire ps

abbrev pub IsPayload : List ℕ → Type 0
IsPayload p = IsBytes p × (p ≢ [])

pub absorb_all-wire :
    (ps : List (List ℕ)) (es : List Event)
    → All IsPayload ps
    → absorb_all (wire ps) (record { pending = []; events = es })
      ≡ some (record { pending = []; events = es ++ map frame ps })
unfolding absorb_all
absorb_all-wire [] es h = ap (λ t. some (record { pending = []; events = t })) (sym (append-nil es))
absorb_all-wire (p ∷ ps) es h =
    absorb_all-append (ppp_frame p) (wire ps) (record { pending = []; events = es })
    ∙ ap (λ t. t >>= absorb_all (wire ps)) (absorb_all-ppp_frame p es h.0.0 h.0.1)
    ∙ absorb_all-wire ps (es ++ frame p ∷ []) h.1
    ∙ ap (λ t. some (record { pending = []; events = t }))
        (append_assoc es (frame p ∷ []) (map frame ps))

-- Bytes that were pending before the first frame end with that frame's opening flag, and give rise
-- to their own events; they do no harm to the frames.
pub absorb_all-wire_resync :
    (p : List ℕ) (ps : List (List ℕ)) (pending : List ℕ) (es lost : List Event)
    → events_of pending ≡ some lost
    → All IsPayload (p ∷ ps)
    → absorb_all (wire (p ∷ ps)) (record { pending = pending; events = es })
      ≡ some (record { pending = []; events = (es ++ lost) ++ map frame (p ∷ ps) })
unfolding absorb_all absorb events_of
absorb_all-wire_resync p ps pending es lost e h =
    same_as_clean ∙ absorb_all-wire (p ∷ ps) (es ++ lost) h
  where
    rest : List ℕ
    rest = (body p ++ flag_char ∷ []) ++ wire ps

    shape : wire (p ∷ ps) ≡ flag_char ∷ rest
    shape = ap (λ t. t ++ wire ps) (ppp_deframe-ppp_frame p h.0.0 h.0.1).0

    flagged : Option (List Event) → List Event → Option View
    flagged o es' =
        (o >>= λ new. some (record { pending = []; events = es' ++ new })) >>= absorb_all rest

    same_as_clean :
        absorb_all (wire (p ∷ ps)) (record { pending = pending; events = es })
        ≡ absorb_all (wire (p ∷ ps)) (record { pending = []; events = es ++ lost })
    same_as_clean =
        ap (λ t. absorb_all t (record { pending = pending; events = es })) shape
        ∙ ap (λ t. flagged t es) e
        ∙ ap (λ t. absorb_all rest (record { pending = []; events = t }))
            (sym (append-nil (es ++ lost)))
        ∙ sym (ap (λ t. absorb_all t (record { pending = []; events = es ++ lost })) shape)
