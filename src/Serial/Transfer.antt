-- ===== src/Serial/Transfer.antt =====
-- What the loops of `rxd` and `txd` move, and that they end.
use broker_proxy.Base.{
  ℕ, zero, suc, ◌≤◌, ◌≡◌, ◌⊎◌, inl, inr, refl, ap, sym, ◌∙◌, true, Option, none, some, List, [],
  ◌∷◌, ◌++◌, ◌==◌, eq_of_==, length, ◌≢◌, append_assoc, append-nil, All, Bool-cases, arith,
}
use broker_proxy.Split.{take, drop}
use broker_proxy.Serial.{
  SerialPort, ReadAnswer, got, read_later, read_failed, rxd_loop, rxd, WriteAnswer, wrote,
  write_later, write_failed, txd_loop, txd,
}

-- The bytes of the answers before the first that ends the loop, and that answer's code.
abbrev pub received : List ReadAnswer → Option (List ℕ × ℕ)
received [] = none
received (got [] ∷ answers) = some ([], 0)
received (got (b ∷ bs) ∷ answers) = elim (received answers) [
  | none ↦ none
  | some (rest, code) ↦ some ((b ∷ bs) ++ rest, code)
]
received (read_later ∷ answers) = some ([], 0)
received (read_failed e ∷ answers) = some ([], e)

prepend : List ℕ → Option (List ℕ × ℕ) → Option (List ℕ × ℕ)
prepend out none = none
prepend out (some (rest, code)) = some (out ++ rest, code)

prepend-received :
    (out bs : List ℕ) (b : ℕ) (o : Option (List ℕ × ℕ))
    → prepend (out ++ b ∷ bs) o
      ≡ prepend out (elim o [ none ↦ none | some (rest, code) ↦ some ((b ∷ bs) ++ rest, code) ])
unfolding prepend
prepend-received out bs b none = refl
prepend-received out bs b (some (rest, code)) =
    ap (λ t. some (t, code)) (append_assoc out (b ∷ bs) rest)

rxd_loop-received :
    (answers : List ReadAnswer) (out : List ℕ)
    → rxd_loop answers out ≡ prepend out (received answers)
unfolding prepend
rxd_loop-received [] out = refl
rxd_loop-received (got [] ∷ answers) out = ap (λ t. some (t, 0)) (sym (append-nil out))
rxd_loop-received (got (b ∷ bs) ∷ answers) out =
    rxd_loop-received answers (out ++ b ∷ bs) ∙ prepend-received out bs b (received answers)
rxd_loop-received (read_later ∷ answers) out = ap (λ t. some (t, 0)) (sym (append-nil out))
rxd_loop-received (read_failed e ∷ answers) out = ap (λ t. some (t, e)) (sym (append-nil out))

-- Whether an answer lets the loop of `rxd` go on.
abbrev pub IsChunk : ReadAnswer → Type 0
IsChunk (got []) = ⊥
IsChunk (got (b ∷ bs)) = Unit {0}
IsChunk read_later = ⊥
IsChunk (read_failed e) = ⊥

-- `rxd` of a connected port returns exactly if `read` answers with something other than bytes; it
-- then has all the bytes that came before, in order, and 0 or the code of the failure.
pub rxd-eq-received :
    (s : SerialPort) (answers : List ReadAnswer)
    → s.is_connected ≡ true
    → rxd s answers ≡ received answers
unfolding rxd prepend
rxd-eq-received s answers on = rw on (rxd_loop-received answers [] ∙ unit (received answers))
  where
    unit : (o : Option (List ℕ × ℕ)) → prepend [] o ≡ o
    unit none = refl
    unit (some (rest, code)) = refl

append-take-drop : (n : ℕ) (xs : List ℕ) → take n xs ++ drop n xs ≡ xs
append-take-drop zero xs = refl
append-take-drop (suc n) [] = refl
append-take-drop (suc n) (x ∷ xs) = ap (◌∷◌ x) (append-take-drop n xs)

length-drop-le : (n : ℕ) (xs : List ℕ) → length (drop n xs) ≤ length xs
length-drop-le zero xs = omega arith
length-drop-le (suc n) [] = omega arith
length-drop-le (suc n) (x ∷ xs) = omega (arith, length-drop-le n xs)

-- How many answers of `write` have taken bytes.
abbrev pub progress : List WriteAnswer → ℕ
progress [] = 0
progress (wrote zero ∷ answers) = progress answers
progress (wrote (suc n) ∷ answers) = suc (progress answers)
progress (write_later ∷ answers) = progress answers
progress (write_failed e ∷ answers) = progress answers

abbrev pub IsNoFailure : WriteAnswer → Type 0
IsNoFailure (wrote n) = Unit {0}
IsNoFailure write_later = Unit {0}
IsNoFailure (write_failed e) = ⊥

-- The two parts of a write that has taken `n` bytes.
join_parts : (n : ℕ) (sent buf : List ℕ) → (sent ++ take n buf) ++ drop n buf ≡ sent ++ buf
join_parts n sent buf =
    append_assoc sent (take n buf) (drop n buf) ∙ ap (◌++◌ sent) (append-take-drop n buf)

txd_loop-done :
    (answers : List WriteAnswer) (buf sent : List ℕ)
    → All IsNoFailure answers
    → length buf ≤ progress answers
    → txd_loop answers buf sent ≡ some (sent ++ buf, 0)
txd_loop-done answers [] sent ok enough = ap (λ t. some (t, 0)) (sym (append-nil sent))
txd_loop-done [] (b ∷ bs) sent ok enough = absurd (omega arith)
txd_loop-done (wrote zero ∷ answers) (b ∷ bs) sent ok enough =
    elim (Bool-cases (0 == length (b ∷ bs))) [
      | inl e ↦ absurd (omega (arith, eq_of_== 0 (length (b ∷ bs)) e))
      | inr e ↦ rw e (
          txd_loop-done answers (b ∷ bs) (sent ++ []) ok.1 enough
          ∙ ap (λ t. some (t, 0)) (join_parts 0 sent (b ∷ bs)))
    ]
txd_loop-done (wrote (suc n) ∷ answers) (b ∷ bs) sent ok enough =
    elim (Bool-cases (suc n == length (b ∷ bs))) [
      | inl e ↦ rw e refl
      | inr e ↦ rw e (
          txd_loop-done answers (drop n bs) (sent ++ take (suc n) (b ∷ bs)) ok.1
            (omega (arith, length-drop-le n bs))
          ∙ ap (λ t. some (t, 0)) (join_parts (suc n) sent (b ∷ bs)))
    ]
txd_loop-done (write_later ∷ answers) (b ∷ bs) sent ok enough =
    txd_loop-done answers (b ∷ bs) sent ok.1 enough
txd_loop-done (write_failed e ∷ answers) (b ∷ bs) sent ok enough = absurd ok.0

-- If no `write` fails and as many of them take bytes as the buffer has, then `txd` of a connected
-- port returns, with 0 and after the port has taken the whole buffer, in order.
pub txd-done :
    (s : SerialPort) (buffer : List ℕ) (answers : List WriteAnswer)
    → s.is_connected ≡ true
    → All IsNoFailure answers
    → length buffer ≤ progress answers
    → txd s buffer answers ≡ some (buffer, 0)
unfolding txd
txd-done s buffer answers on ok enough = rw on (txd_loop-done answers buffer [] ok enough)

-- What `txd` says of the bytes: the port has taken a prefix of the buffer, and all of it if no call
-- has failed.
abbrev pub IsPrefixSent : List ℕ → Option (List ℕ × ℕ) → Type 0
IsPrefixSent all none = Unit {0}
IsPrefixSent all (some (sent, code)) =
    (rest : List ℕ) × (sent ++ rest ≡ all) × ((rest ≡ []) ⊎ (code ≢ 0))

abbrev pub IsCoded : WriteAnswer → Type 0
IsCoded (wrote n) = Unit {0}
IsCoded write_later = Unit {0}
IsCoded (write_failed e) = (e ≢ 0) × Unit {0}

IsPrefixSent-txd_loop :
    (answers : List WriteAnswer) (buf sent : List ℕ)
    → All IsCoded answers
    → IsPrefixSent (sent ++ buf) (txd_loop answers buf sent)
IsPrefixSent-txd_loop answers [] sent coded = ([], refl, inl refl)
IsPrefixSent-txd_loop [] (b ∷ bs) sent coded = tt
IsPrefixSent-txd_loop (wrote n ∷ answers) (b ∷ bs) sent coded =
    elim (Bool-cases (n == length (b ∷ bs))) [
      | inl e ↦ rw e ([], append-nil (sent ++ b ∷ bs), inl refl)
      | inr e ↦
          rw (e, ← join_parts n sent (b ∷ bs))
            (IsPrefixSent-txd_loop answers (drop n (b ∷ bs)) (sent ++ take n (b ∷ bs)) coded.1)
    ]
IsPrefixSent-txd_loop (write_later ∷ answers) (b ∷ bs) sent coded =
    IsPrefixSent-txd_loop answers (b ∷ bs) sent coded.1
IsPrefixSent-txd_loop (write_failed e ∷ answers) (b ∷ bs) sent coded = (b ∷ bs, refl, inr coded.0.0)

-- Whenever `txd` of a connected port returns, the port has taken the buffer up to some point, and
-- all of it unless the result is the code of a failure; those codes are not 0.
pub txd-IsPrefixSent :
    (s : SerialPort) (buffer : List ℕ) (answers : List WriteAnswer)
    → s.is_connected ≡ true
    → All IsCoded answers
    → IsPrefixSent buffer (txd s buffer answers)
unfolding txd
txd-IsPrefixSent s buffer answers on coded = rw on (IsPrefixSent-txd_loop answers buffer [] coded)
