-- ===== src/Ppp/Accept.antt =====
-- What `ppp_deframe` accepts: every frame of `ppp_frame`, and of all texts with a payload only
-- those that end in its checksum.
use broker_proxy.Base.{
  ℕ, ◌/◌, ◌%◌, ◌^◌, ◌≤◌, ◌<◌, ◌≡◌, ◌≢◌, ◌↔◌, refl, ap, ap₂, sym, ◌∙◌, Bool, true, false, some, List,
  [], ◌∷◌, ◌++◌, append_assoc, ◌==◌, ltb_of_le, arith, length, length-append, All, IsByte, IsBytes,
}
use broker_proxy.Fcs.{fcs_init, fcs_write, fcs_result, fcs_of}
use broker_proxy.Fcs.Residue.{
  residue, trailer, fcs_of-trailer, fcs_of-append, fcs_of-lt, fcs_of-complement, fcs_write-lt,
}
use broker_proxy.Fcs.Inject.{fcs_write_pair_inject}
use broker_proxy.Ppp.{flag_char, ppp_frame, returned, pop_back, deframe_end, ppp_deframe}
use broker_proxy.Ppp.Stuff.{
  stuff, body, ppp_frame_lem, stuff-no_flag, length-stuff, deframe_loop-stuff,
}

pop_back-append : (xs : List ℕ) (x : ℕ) → pop_back (xs ++ x ∷ []) ≡ some xs
unfolding pop_back
pop_back-append [] x = refl
pop_back-append (y ∷ []) x = refl
pop_back-append (y ∷ z ∷ zs) x = ground (arith, pop_back-append (z ∷ zs) x)

-- The end of the loop, with the two bytes of the checksum behind the payload.
deframe_end-append :
    (bs : List ℕ) (a b fcs : ℕ)
    → deframe_end (record { out = bs ++ a ∷ b ∷ []; fcs = fcs; esc = false })
      ≡ returned (fcs_result fcs == 0x0F47) bs
unfolding deframe_end
deframe_end-append bs a b fcs =
    rw (← append_assoc bs (a ∷ []) (b ∷ []))
      (ground (arith, pop_back-append (bs ++ a ∷ []) b, pop_back-append bs a))

-- Of a stuffed text that is long enough, the answer is the test of the checksum, and all but
-- the last two bytes are the payload.
pub ppp_deframe-stuff :
    (bs : List ℕ) (a b : ℕ)
    → 3 ≤ length (stuff (bs ++ a ∷ b ∷ []))
    → ppp_deframe (stuff (bs ++ a ∷ b ∷ []))
      ≡ returned (fcs_result (fcs_of (bs ++ a ∷ b ∷ []) fcs_init) == 0x0F47) bs
unfolding ppp_deframe
ppp_deframe-stuff bs a b h =
    rw
      (
        ltb_of_le (length (stuff (bs ++ a ∷ b ∷ []))) 3 h,
        deframe_loop-stuff (bs ++ a ∷ b ∷ []) [] fcs_init,
      )
      (deframe_end-append bs a b (fcs_of (bs ++ a ∷ b ∷ []) fcs_init))

long_enough : (bs : List ℕ) (a b : ℕ) → bs ≢ [] → 3 ≤ length (stuff (bs ++ a ∷ b ∷ []))
long_enough [] a b h = absurd (h refl)
long_enough (c ∷ cs) a b h =
    omega (arith, length-stuff (c ∷ cs ++ a ∷ b ∷ []), length-append cs (a ∷ b ∷ []))

pub length-body : (bs : List ℕ) → bs ≢ [] → 3 ≤ length (body bs)
unfolding body
length-body bs ne = long_enough bs _ _ ne

-- The answer compares the register with the residue.
pub test_iff : (f : ℕ) → f < 2 ^ 16 → ((fcs_result f == 0x0F47) ≡ true) ↔ (f ≡ residue)
test_iff f h = ground arith

-- A payload that is not empty comes back from its frame: between the two flags there is no flag,
-- and `ppp_deframe` of what stands there returns true with the payload.
pub ppp_deframe-ppp_frame :
    (bs : List ℕ)
    → IsBytes bs
    → bs ≢ []
    → (ppp_frame bs ≡ flag_char ∷ body bs ++ flag_char ∷ [])
      × All (λ c. c ≢ flag_char) (body bs)
      × (ppp_deframe (body bs) ≡ returned true bs)
unfolding body
ppp_deframe-ppp_frame bs hb ne = (
  ppp_frame_lem bs,
  stuff-no_flag (bs ++ trailer (fcs_of bs fcs_init)),
  ppp_deframe-stuff bs _ _ (long_enough bs _ _ ne)
      ∙ ap (λ t. returned (fcs_result t == 0x0F47) bs)
          (fcs_of-trailer bs fcs_init (omega arith) hb),
)

-- Two bytes behind a register lead to the residue only if they are its complement.
residue_iff :
    (f a b : ℕ)
    → f < 2 ^ 16
    → IsByte a
    → IsByte b
    → (fcs_of (a ∷ b ∷ []) f ≡ residue) ↔ (a ∷ b ∷ [] ≡ trailer f)
unfolding fcs_of
residue_iff f a b hf ha hb =
    (λ e. both (same e), λ e. ap (λ t. fcs_of t f) e ∙ fcs_of-complement f hf)
  where
    same :
        fcs_write (fcs_write f a) b ≡ residue
        → (a ≡ fcs_result f % 2 ^ 8) × (b ≡ fcs_result f / 2 ^ 8)
    same e =
        fcs_write_pair_inject f a b (fcs_result f % 2 ^ 8) (fcs_result f / 2 ^ 8) hf ha hb
          (omega arith) (omega arith) (e ∙ sym (fcs_of-complement f hf))

    both : (a ≡ fcs_result f % 2 ^ 8) × (b ≡ fcs_result f / 2 ^ 8) → a ∷ b ∷ [] ≡ trailer f
    both e = ap₂ (λ s t. s ∷ t ∷ []) e.0 e.1

-- Of a payload with any two bytes behind it, stuffed, the receiver returns the payload, and true
-- exactly if the two bytes are the payload's checksum, low byte first.
pub ppp_deframe-stuff_iff :
    (bs : List ℕ) (a b : ℕ)
    → IsBytes bs
    → IsByte a
    → IsByte b
    → bs ≢ []
    → (accepted : Bool) × (ppp_deframe (stuff (bs ++ a ∷ b ∷ [])) ≡ returned accepted bs)
      × ((accepted ≡ true) ↔ (a ∷ b ∷ [] ≡ trailer (fcs_of bs fcs_init)))
unfolding fcs_of
ppp_deframe-stuff_iff bs a b hb ha hb' ne = (
  fcs_result (fcs_of (a ∷ b ∷ []) f) == 0x0F47,
  ppp_deframe-stuff bs a b (long_enough bs a b ne)
      ∙ ap (λ t. returned (fcs_result t == 0x0F47) bs) (fcs_of-append bs (a ∷ b ∷ []) fcs_init),
  (
    λ e. (residue_iff f a b hf ha hb').0 ((test_iff _ hf').0 e),
    λ e. (test_iff _ hf').1 ((residue_iff f a b hf ha hb').1 e),
  ),
)
  where
    f : ℕ
    f = fcs_of bs fcs_init

    hf : f < 2 ^ 16
    hf = fcs_of-lt bs fcs_init (omega arith) hb

    hf' : fcs_of (a ∷ b ∷ []) f < 2 ^ 16
    hf' = fcs_write-lt (fcs_write f a) b (fcs_write-lt f a hf ha) hb'
