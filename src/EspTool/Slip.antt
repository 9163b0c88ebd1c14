-- ===== src/EspTool/Slip.antt =====
-- proxy/src/DtrRts.cpp: what `toSlip` writes, read again by a reader of SLIP frames.
use broker_proxy.Base.{
  ℕ, ◌≡◌, refl, ap, ◌∙◌, Option, none, some, List, [], ◌∷◌, ◌++◌, ◌==◌, if◌then◌else◌, append_assoc,
  append-nil, eq_of_==, Bool-cases, inl, inr,
}
use broker_proxy.EspTool.{escape, escape_all, to_slip}

-- A reader between two frames, in a frame, and behind an escape byte of a frame; a frame that has
-- begun has its bytes so far.
pub data Reader : Type 0 where
  between : Reader
  inside escaped : List ℕ → Reader

abbrev pub add_frame : List ℕ → Option (List (List ℕ)) → Option (List (List ℕ))
add_frame f none = none
add_frame f (some fs) = some (f ∷ fs)

-- The frames of a stream, where it consists of whole frames.
abbrev pub frames : Reader → List ℕ → Option (List (List ℕ))
frames between [] = some []
frames (inside acc) [] = none
frames (escaped acc) [] = none
frames between (b ∷ bs) = let rest = frames (inside []) bs in if b == 192 then rest else none
frames (inside acc) (b ∷ bs) =
    let end = frames between bs in
    let esc = frames (escaped acc) bs in
    let more = frames (inside (acc ++ b ∷ [])) bs in
    if b == 192 then add_frame acc end else if b == 219 then esc else more
frames (escaped acc) (b ∷ bs) =
    let end = frames (inside (acc ++ 192 ∷ [])) bs in
    let esc = frames (inside (acc ++ 219 ∷ [])) bs in
    if b == 220 then end else if b == 221 then esc else none

-- What is written for a list of packets.
abbrev pub to_slips : List (List ℕ) → List ℕ
to_slips [] = []
to_slips (p ∷ ps) = to_slip p ++ to_slips ps

frames-escape :
    (b : ℕ) (acc rest : List ℕ)
    → frames (inside acc) (escape b ++ rest) ≡ frames (inside (acc ++ b ∷ [])) rest
frames-escape b acc rest = elim (Bool-cases (b == 219)) [
  | inl e ↦ rw (e, eq_of_== b 219 e) refl
  | inr e ↦ elim (Bool-cases (b == 192)) [
    | inl f ↦ rw (e, f, eq_of_== b 192 f) refl
    | inr f ↦ rw (e, f, f, e) refl
  ]
]

frames-escape_all :
    (bs acc rest : List ℕ)
    → frames (inside acc) (escape_all bs ++ 192 ∷ rest)
      ≡ add_frame (acc ++ bs) (frames between rest)
frames-escape_all [] acc rest = rw (append-nil acc) refl
frames-escape_all (b ∷ bs) acc rest =
    ap (frames (inside acc)) (append_assoc (escape b) (escape_all bs) (192 ∷ rest))
    ∙ frames-escape b acc (escape_all bs ++ 192 ∷ rest)
    ∙ frames-escape_all bs (acc ++ b ∷ []) rest
    ∙ ap (λ t. add_frame t (frames between rest)) (append_assoc acc (b ∷ []) bs)

-- Packets of any bytes that `toSlip` has written one after the other are the frames that a reader
-- of SLIP finds in what is written.
pub frames-to_slips : (ps : List (List ℕ)) → frames between (to_slips ps) ≡ some ps
unfolding to_slip
frames-to_slips [] = refl
frames-to_slips (p ∷ ps) =
    ap (frames (inside [])) (append_assoc (escape_all p) (192 ∷ []) (to_slips ps))
    ∙ frames-escape_all p [] (to_slips ps)
    ∙ ap (add_frame p) (frames-to_slips ps)
