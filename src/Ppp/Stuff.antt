-- ===== src/Ppp/Stuff.antt =====
-- Byte stuffing as a function of its own, and the two loops against it.
use broker_proxy.Base.{
  ℕ, ◌≤◌, bit_xor, ◌≡◌, ◌≢◌, refl, ap, sym, ◌∙◌, true, false, ◌||◌, List, [], ◌∷◌, ◌++◌,
  append_assoc, append-nil, ◌==◌, if◌then◌else◌, arith, length, All, All-append, Bool-cases, inl,
  inr, eq_of_==,
}
use broker_proxy.Fcs.{fcs_init, fcs_write, fcs_of}
use broker_proxy.Fcs.Residue.{trailer}
use broker_proxy.Ppp.{
  mask_char, esc_char, flag_char, add_escaped, frame_loop, ppp_frame, deframe_step, deframe_loop,
}

-- What stands on the wire for one byte.
unfoldable pub escape : ℕ → List ℕ
escape c = if c == esc_char || c == flag_char then esc_char ∷ bit_xor c mask_char ∷ [] else c ∷ []

unfoldable pub stuff : List ℕ → List ℕ
unfolding escape
stuff [] = []
stuff (c ∷ cs) = escape c ++ stuff cs

pub stuff-append : (xs ys : List ℕ) → stuff (xs ++ ys) ≡ stuff xs ++ stuff ys
unfolding stuff
stuff-append [] ys = refl
stuff-append (x ∷ xs) ys =
    ap (◌++◌ (escape x)) (stuff-append xs ys) ∙ sym (append_assoc (escape x) (stuff xs) (stuff ys))

add_escaped_lem : (out : List ℕ) (c : ℕ) → add_escaped out c ≡ out ++ escape c
unfolding add_escaped escape
add_escaped_lem out c = elim (Bool-cases (c == esc_char || c == flag_char)) [
  | inl e ↦ rw e (append_assoc out (esc_char ∷ []) (bit_xor c mask_char ∷ []))
  | inr e ↦ rw e
]

frame_loop_lem :
    (bs out : List ℕ) (fcs : ℕ) → frame_loop bs out fcs ≡ (out ++ stuff bs, fcs_of bs fcs)
unfolding frame_loop stuff fcs_of
frame_loop_lem [] out fcs = ap (λ t. (t, fcs)) (sym (append-nil out))
frame_loop_lem (b ∷ bs) out fcs =
    frame_loop_lem bs (add_escaped out b) (fcs_write fcs b)
    ∙ ap (λ t. (t, fcs_of bs (fcs_write fcs b)))
        (ap (λ t. t ++ stuff bs) (add_escaped_lem out b) ∙ append_assoc out (escape b) (stuff bs))

-- What the receiver gets of a frame between the two flags.
unfoldable pub body : List ℕ → List ℕ
unfolding stuff
body bs = stuff (bs ++ trailer (fcs_of bs fcs_init))

-- A frame is the stuffed payload and checksum between two flags.
pub ppp_frame_lem : (bs : List ℕ) → ppp_frame bs ≡ flag_char ∷ body bs ++ flag_char ∷ []
unfolding ppp_frame body
ppp_frame_lem bs =
    rw (frame_loop_lem bs (flag_char ∷ []) fcs_init)
      (simp (add_escaped_lem, stuff-append, stuff_pair, append_assoc))
  where
    stuff_pair : (a b : ℕ) → stuff (a ∷ b ∷ []) ≡ escape a ++ escape b
    stuff_pair a b = unfold stuff in ap (◌++◌ (escape a)) (append-nil (escape b))

-- The two bytes that are escaped, and the others.
data Kind (c : ℕ) : Type 0 where
  is_esc : c ≡ esc_char → Kind c
  is_flag : c ≡ flag_char → Kind c
  plain : (c == esc_char) ≡ false → (c == flag_char) ≡ false → Kind c

kind : (c : ℕ) → Kind c
kind c = elim (Bool-cases (c == esc_char)) [
  | inl e ↦ is_esc (eq_of_== c esc_char e)
  | inr ne ↦ elim (Bool-cases (c == flag_char)) [
    | inl e ↦ is_flag (eq_of_== c flag_char e)
    | inr nf ↦ plain ne nf
  ]
]

escape-no_flag : (c : ℕ) → All (λ x. x ≢ flag_char) (escape c)
unfolding escape
escape-no_flag c = elim (kind c) [
  | is_esc e ↦ rw e (omega arith)
  | is_flag e ↦ rw e (omega arith)
  | plain e f ↦ rw (e, f) (ground arith, tt)
]

-- No flag stands inside a stuffed text.
pub stuff-no_flag : (bs : List ℕ) → All (λ x. x ≢ flag_char) (stuff bs)
unfolding stuff
stuff-no_flag [] = tt
stuff-no_flag (b ∷ bs) = All-append _ (escape b) (stuff bs) (escape-no_flag b) (stuff-no_flag bs)

pub length-stuff : (bs : List ℕ) → length bs ≤ length (stuff bs)
unfolding stuff escape
length-stuff [] = omega arith
length-stuff (b ∷ bs) = elim (kind b) [
  | is_esc e ↦ rw e (omega (arith, length-stuff bs))
  | is_flag e ↦ rw e (omega (arith, length-stuff bs))
  | plain e f ↦ rw (e, f) (omega (arith, length-stuff bs))
]

deframe_loop-escape :
    (c : ℕ) (rest out : List ℕ) (fcs : ℕ)
    → deframe_loop (escape c ++ rest) (record { out = out; fcs = fcs; esc = false })
      ≡ deframe_loop rest (record { out = out ++ c ∷ []; fcs = fcs_write fcs c; esc = false })
unfolding escape deframe_loop deframe_step
deframe_loop-escape c rest out fcs = elim (kind c) [
  | is_esc e ↦ rw e
  | is_flag e ↦ rw e
  | plain e f ↦ ground arith
]

-- The receiver's loop undoes the stuffing, and computes the checksum of what was stuffed.
pub deframe_loop-stuff :
    (bs out : List ℕ) (fcs : ℕ)
    → deframe_loop (stuff bs) (record { out = out; fcs = fcs; esc = false })
      ≡ (true, record { out = out ++ bs; fcs = fcs_of bs fcs; esc = false })
unfolding stuff fcs_of deframe_loop
deframe_loop-stuff [] out fcs =
    ap (λ t. (true, record { out = t; fcs = fcs; esc = false })) (sym (append-nil out))
deframe_loop-stuff (b ∷ bs) out fcs =
    deframe_loop-escape b (stuff bs) out fcs
    ∙ deframe_loop-stuff bs (out ++ b ∷ []) (fcs_write fcs b)
    ∙ ap (λ t. (true, record { out = t; fcs = fcs_of bs (fcs_write fcs b); esc = false }))
        (append_assoc out (b ∷ []) bs)
