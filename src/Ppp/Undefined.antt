-- ===== src/Ppp/Undefined.antt =====
-- The inputs on which `ppp_deframe` runs into `pop_back` of an empty vector, and those with a flag.
use broker_proxy.Base.{
  ℕ, suc, ◌+◌, ◌≤◌, ◌<◌, bit_xor, ◌≡◌, ◌≢◌, ◌↔◌, refl, ap, Bool, true, false, Option, none, some,
  List, [], ◌∷◌, ◌++◌, ◌==◌, ltb, if◌then◌else◌, arith, length, length-append, All, Bool-cases, inl,
  inr, le_of_ltb, lt_of_ltb, ==_of_ne,
}
use broker_proxy.Fcs.{fcs_write}
use broker_proxy.Ppp.{
  mask_char, esc_char, flag_char, Deframer, deframer_init, deframe_step, deframe_loop, undefined,
  pop_back, deframe_end, ppp_deframe,
}
use broker_proxy.Ppp.Burst.{IsRejected}

-- The bytes that are not the escape character: as many reach `out`.
pub plain_bytes : List ℕ → ℕ
plain_bytes [] = 0
plain_bytes (c ∷ cs) = if c == esc_char then plain_bytes cs else suc (plain_bytes cs)

-- One round takes a byte other than the flag into `out`, or notes the escape.
step_lem :
    (c : ℕ) (s : Deframer)
    → c ≢ flag_char
    → (s' : Deframer) × (deframe_step c s ≡ some s')
      × (length s'.out ≡ length s.out + (if c == esc_char then 0 else 1))
unfolding deframe_step
step_lem c s h = elim (Bool-cases (c == esc_char)) [
  | inl e ↦ (record s { esc = true }, rw e, rw e (omega arith))
  | inr e ↦ elim (Bool-cases s.esc) [
    | inl esc ↦ (
      record {
        out = s.out ++ bit_xor c mask_char ∷ [];
        fcs = fcs_write s.fcs (bit_xor c mask_char);
        esc = false;
      },
      ground (arith, ==_of_ne c flag_char h),
      rw (e, length-append {0} s.out (bit_xor c mask_char ∷ [])),
    )
    | inr plain ↦ (
      record s { out = s.out ++ c ∷ []; fcs = fcs_write s.fcs c },
      ground (arith, ==_of_ne c flag_char h),
      rw (e, length-append {0} s.out (c ∷ [])),
    )
  ]
]

loop_lem :
    (cs : List ℕ) (s : Deframer)
    → All (λ c. c ≢ flag_char) cs
    → (s' : Deframer) × (deframe_loop cs s ≡ (true, s'))
      × (length s'.out ≡ length s.out + plain_bytes cs)
unfolding deframe_loop plain_bytes
loop_lem [] s h = (s, refl, omega arith)
loop_lem (c ∷ cs) s h =
    let (s', e, n) = step_lem c s h.0 in
    let (t, e', n') = loop_lem cs s' h.1 in (t, rw (e, deframe_loop) e', ground arith)

pop_back-cons :
    (x : ℕ) (xs : List ℕ) → (ys : List ℕ) × (pop_back (x ∷ xs) ≡ some ys) × (length ys ≡ length xs)
unfolding pop_back
pop_back-cons x [] = ([], refl, refl)
pop_back-cons x (y ∷ ys) = let (zs, e, n) = pop_back-cons y ys in (x ∷ zs, rw e, ap suc n)

end_undefined_iff :
    (o : List ℕ) (fcs : ℕ) (esc : Bool)
    → (deframe_end (record { out = o; fcs = fcs; esc = esc }) ≡ undefined) ↔ (length o < 2)
unfolding deframe_end pop_back
end_undefined_iff [] fcs esc = (λ _. omega arith, λ _. refl)
end_undefined_iff (x ∷ []) fcs esc = (λ _. omega arith, λ _. refl)
end_undefined_iff (x ∷ y ∷ ys) fcs esc =
    let (zs, e, n) = pop_back-cons y ys in
    let (ws, e', n') = pop_back-cons x zs in (λ u. ground (arith, e, e'), λ h. absurd (omega arith))

-- On an input without a flag, as the receiver passes it on, the behaviour is undefined exactly if
-- the input has three bytes or more, of which fewer than two are not the escape character.
pub ppp_deframe-undefined_iff :
    (bs : List ℕ)
    → All (λ c. c ≢ flag_char) bs
    → (ppp_deframe bs ≡ undefined) ↔ ((3 ≤ length bs) × (plain_bytes bs < 2))
unfolding ppp_deframe
ppp_deframe-undefined_iff bs h =
    let (s, e, n) = loop_lem bs deframer_init h in
    let same = end_undefined_iff s.out s.fcs s.esc in
    elim (Bool-cases (ltb (length bs) 3)) [
      | inl short ↦ (λ u. absurd (ground arith), λ g. absurd (ground (arith, lt_of_ltb _ _ short)))
      | inr long ↦ (
        λ u. (le_of_ltb _ _ long, omega (arith, same.0 (ground arith))),
        λ g. rw (long, e) (same.1 (omega arith)),
      )
    ]

flag_stops : (xs ys : List ℕ) (s : Deframer) → (deframe_loop (xs ++ flag_char ∷ ys) s).0 ≡ false
unfolding deframe_loop
flag_stops [] ys s = unfold deframe_step in refl
flag_stops (x ∷ xs) ys s = on_step (deframe_step x s) (λ s'. flag_stops xs ys s')
  where
    on_step :
        (o : Option Deframer)
        → ((s' : Deframer) → (deframe_loop (xs ++ flag_char ∷ ys) s').0 ≡ false)
        → (let r : Bool × Deframer = elim o [
          | none ↦ (false, s)
          | some s' ↦ deframe_loop (xs ++ flag_char ∷ ys) s'
        ] in
            r.0)
          ≡ false
    on_step none ih = refl
    on_step (some s') ih = ih s'

-- An input with a flag in it is rejected.
pub flag-IsRejected : (xs ys : List ℕ) → IsRejected (ppp_deframe (xs ++ flag_char ∷ ys))
unfolding ppp_deframe
flag-IsRejected xs ys = elim (Bool-cases (ltb (length (xs ++ flag_char ∷ ys)) 3)) [
  | inl short ↦ ([], rw short)
  | inr long ↦ (
    (deframe_loop (xs ++ flag_char ∷ ys) deframer_init).1.out,
    rw (long, flag_stops xs ys deframer_init),
  )
]
