-- ===== src/Ppp/Burst.antt =====
-- Errors on the line that the checksum detects.
use broker_proxy.Base.{
  ℕ, ◌^◌, ◌<◌, ◌≡◌, ◌≢◌, ap, sym, ◌∙◌, true, false, List, [], ◌∷◌, ◌++◌, ◌==◌, ltb, arith, length,
  IsByte, IsBytes, Bool-cases, inl, inr, ==_of_ne, le_of_ltb, All-of_append,
}
use broker_proxy.Fcs.{fcs_init, fcs_result, fcs_of}
use broker_proxy.Fcs.Residue.{residue, fcs_of-append, fcs_of-lt, fcs_write-lt}
use broker_proxy.Fcs.Inject.{fcs_write_pair_inject, fcs_of_inject}
use broker_proxy.Ppp.{Deframed, returned, ppp_deframe}
use broker_proxy.Ppp.Stuff.{stuff}
use broker_proxy.Ppp.Accept.{ppp_deframe-stuff, test_iff}

-- Any text with two bytes at its end is a payload and two bytes.
data LastTwo : List ℕ → Type 0 where
  last_two : (bs : List ℕ) (a b : ℕ) → LastTwo (bs ++ a ∷ b ∷ [])

LastTwo-of_cons : (b c : ℕ) (cs : List ℕ) → LastTwo (b ∷ c ∷ cs)
LastTwo-of_cons b c [] = last_two [] b c
LastTwo-of_cons b c (d ∷ ds) = cons b (LastTwo-of_cons c d ds)
  where
    cons : (x : ℕ) {ys : List ℕ} → LastTwo ys → LastTwo (x ∷ ys)
    cons x (last_two bs y z) = last_two (x ∷ bs) y z

LastTwo-of_burst : (xs ys : List ℕ) (b c : ℕ) → LastTwo (xs ++ b ∷ c ∷ ys)
LastTwo-of_burst [] ys b c = LastTwo-of_cons b c ys
LastTwo-of_burst (x ∷ []) ys b c = LastTwo-of_cons x b (c ∷ ys)
LastTwo-of_burst (x ∷ x' ∷ xs) ys b c = LastTwo-of_cons x x' (xs ++ b ∷ c ∷ ys)

abbrev pub IsRejected : Deframed → Type 0
IsRejected r = (bs : List ℕ) × (r ≡ returned false bs)

deframe_short : (w : List ℕ) → ltb (length w) 3 ≡ true → ppp_deframe w ≡ returned false []
unfolding ppp_deframe
deframe_short w e = rw e

-- A text whose checksum is not the residue is rejected, whatever its length.
IsRejected-of_ne :
    (bs : List ℕ)
    → LastTwo bs
    → fcs_of bs fcs_init < 2 ^ 16
    → fcs_of bs fcs_init ≢ residue
    → IsRejected (ppp_deframe (stuff bs))
IsRejected-of_ne _ (last_two bs a b) hf ne =
    elim (Bool-cases (ltb (length (stuff (bs ++ a ∷ b ∷ []))) 3)) [
      | inl short ↦ ([], deframe_short _ short)
      | inr long ↦
          (bs, ppp_deframe-stuff bs a b (le_of_ltb _ _ long) ∙ ap (λ t. returned t bs) fails)
    ]
  where
    fails : (fcs_result (fcs_of (bs ++ a ∷ b ∷ []) fcs_init) == 0x0F47) ≡ false
    fails = ==_of_ne _ _ (λ e. ne (omega arith))

residue_of_accepted :
    (bs : List ℕ)
    → LastTwo bs
    → fcs_of bs fcs_init < 2 ^ 16
    → (p : List ℕ) → ppp_deframe (stuff bs) ≡ returned true p
    → fcs_of bs fcs_init ≡ residue
residue_of_accepted _ (last_two bs a b) hf p e =
    elim (Bool-cases (ltb (length (stuff (bs ++ a ∷ b ∷ []))) 3)) [
      | inl short ↦ absurd (cc (deframe_short _ short))
      | inr long ↦ (test_iff _ hf).0 (cc (ppp_deframe-stuff bs a b (le_of_ltb _ _ long)))
    ]

burst_inject :
    (xs ys : List ℕ) (b b' c c' : ℕ)
    → IsBytes xs
    → IsBytes (b ∷ b' ∷ ys)
    → IsBytes (c ∷ c' ∷ ys)
    → fcs_of (xs ++ b ∷ b' ∷ ys) fcs_init ≡ fcs_of (xs ++ c ∷ c' ∷ ys) fcs_init
    → (b ≡ c) × (b' ≡ c')
unfolding fcs_of
burst_inject xs ys b b' c c' hx hb hc e =
    fcs_write_pair_inject f b b' c c' hf hb.0 hb.1.0 hc.0 hc.1.0 (
      fcs_of_inject ys _ _ (fcs_write-lt _ b' (fcs_write-lt f b hf hb.0) hb.1.0)
        (fcs_write-lt _ c' (fcs_write-lt f c hf hc.0) hc.1.0) hb.1.1
        (sym (fcs_of-append xs (b ∷ b' ∷ ys) fcs_init)
          ∙ e
          ∙ fcs_of-append xs (c ∷ c' ∷ ys) fcs_init))
  where
    f : ℕ
    f = fcs_of xs fcs_init

    hf : f < 2 ^ 16
    hf = fcs_of-lt xs fcs_init (omega arith) hx

-- An error of up to sixteen bits in two adjacent bytes is detected: if a text is accepted, then with
-- two adjacent bytes of it (stuffing undone) changed in any way, it is rejected.
pub burst-IsRejected :
    (xs ys p : List ℕ) (b b' c c' : ℕ)
    → IsBytes (xs ++ b ∷ b' ∷ ys)
    → IsBytes (xs ++ c ∷ c' ∷ ys)
    → ¬ ((b ≡ c) × (b' ≡ c'))
    → ppp_deframe (stuff (xs ++ b ∷ b' ∷ ys)) ≡ returned true p
    → IsRejected (ppp_deframe (stuff (xs ++ c ∷ c' ∷ ys)))
burst-IsRejected xs ys p b b' c c' hb hc ne e =
    IsRejected-of_ne _ (LastTwo-of_burst xs ys c c') (fcs_of-lt _ fcs_init (omega arith) hc)
      λ changed. ne (same (kept ∙ sym changed))
  where
    kept : fcs_of (xs ++ b ∷ b' ∷ ys) fcs_init ≡ residue
    kept =
        residue_of_accepted _ (LastTwo-of_burst xs ys b b') (fcs_of-lt _ fcs_init (omega arith) hb)
          p e

    same :
        fcs_of (xs ++ b ∷ b' ∷ ys) fcs_init ≡ fcs_of (xs ++ c ∷ c' ∷ ys) fcs_init
        → (b ≡ c) × (b' ≡ c')
    same e =
        burst_inject xs ys b b' c c' (All-of_append IsByte xs _ hb).0
          (All-of_append IsByte xs _ hb).1 (All-of_append IsByte xs _ hc).1 e
