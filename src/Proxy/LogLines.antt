-- ===== src/Proxy/LogLines.antt =====
-- proxy/src/serialProxy.cpp: the lines that `redisLogStream` makes of the log of the
-- micro-controller.
use broker_proxy.Base.{
  ℕ, ◌≡◌, refl, sym, ap, ◌∙◌, List, [], ◌∷◌, ◌++◌, ◌==◌, if◌then◌else◌, append_assoc, append-nil,
  Bool-cases, inl, inr, map,
}
use broker_proxy.Cbor.{c_string}
use broker_proxy.Proxy.{Call, log_line, Proxy, log_byte, log_bytes, on_log}

-- The lines of a text: what stands before each newline, without the carriage returns, and what
-- stands behind the last.
abbrev pub first_line : ℕ → List (List ℕ) × List ℕ → List (List ℕ) × List ℕ
first_line b ([], last) = ([], b ∷ last)
first_line b (l ∷ ls, last) = ((b ∷ l) ∷ ls, last)

abbrev pub lines : List ℕ → List (List ℕ) × List ℕ
lines [] = ([], [])
lines (b ∷ bs) =
    let rest = lines bs in
    if b == 10 then ([] ∷ rest.0, rest.1) else if b == 13 then rest else first_line b rest

-- Lines of which the first has begun.
abbrev pub begun : List ℕ → List (List ℕ) × List ℕ → List (List ℕ) × List ℕ
begun buffer ([], last) = ([], buffer ++ last)
begun buffer (l ∷ ls, last) = ((buffer ++ l) ∷ ls, last)

begun-first_line :
    (buffer : List ℕ) (b : ℕ) (r : List (List ℕ) × List ℕ)
    → begun (buffer ++ b ∷ []) r ≡ begun buffer (first_line b r)
begun-first_line buffer b ([], last) = ap (λ t. ([], t)) (append_assoc buffer (b ∷ []) last)
begun-first_line buffer b (l ∷ ls, last) = ap (λ t. (t ∷ ls, last)) (append_assoc buffer (b ∷ []) l)

begun-empty : (r : List (List ℕ) × List ℕ) → begun [] r ≡ r
begun-empty ([], last) = refl
begun-empty (l ∷ ls, last) = refl

abbrev pub log_calls : List ℕ → List (List ℕ) → List Call
log_calls node ls = map (λ l. log_line (c_string node) (c_string l)) ls

log_bytes-lines :
    (node bs buffer : List ℕ) (calls : List Call)
    → log_bytes node bs (buffer, calls)
      ≡ ((begun buffer (lines bs)).1, calls ++ log_calls node (begun buffer (lines bs)).0)
log_bytes-lines node [] buffer calls = rw (append-nil buffer, append-nil calls) refl
log_bytes-lines node (b ∷ bs) buffer calls = elim (Bool-cases (b == 10)) [
  | inl e ↦ rw e (
      rw (append-nil buffer) (
        log_bytes-lines node bs [] (calls ++ log_line (c_string node) (c_string buffer) ∷ [])
        ∙ rw (begun-empty (lines bs)) (
            ap (λ t. ((lines bs).1, t))
              (append_assoc calls (log_line (c_string node) (c_string buffer) ∷ [])
                (log_calls node (lines bs).0)))))
  | inr e ↦ elim (Bool-cases (b == 13)) [
    | inl f ↦ rw (e, f) (log_bytes-lines node bs buffer calls)
    | inr f ↦
        rw (e, f)
          (log_bytes-lines node bs (buffer ++ b ∷ []) calls
            ∙ ap (λ r. (r.1, calls ++ log_calls node r.0)) (begun-first_line buffer b (lines bs)))
  ]
]

log_bytes-append :
    (node bs cs : List ℕ) (s : List ℕ × List Call)
    → log_bytes node (bs ++ cs) s ≡ log_bytes node cs (log_bytes node bs s)
log_bytes-append node [] cs s = refl
log_bytes-append node (b ∷ bs) cs s = log_bytes-append node bs cs (log_byte node b s)

-- The calls so far only stand before those of a chunk.
log_bytes-calls :
    (node bs : List ℕ) (s : List ℕ × List Call)
    → log_bytes node bs s
      ≡ ((log_bytes node bs (s.0, [])).0, s.1 ++ (log_bytes node bs (s.0, [])).1)
log_bytes-calls node bs (buffer, calls) =
    log_bytes-lines node bs buffer calls
    ∙ ap (λ r. (r.0, calls ++ r.1)) (sym (log_bytes-lines node bs buffer []))

abbrev pub concat : List (List ℕ) → List ℕ
concat [] = []
concat (bs ∷ chunks) = bs ++ concat chunks

module _ {E V : Type 0} where
  -- What comes of chunks of the log, one after the other.
  abbrev pub log_all : List (List ℕ) → Proxy E V → Proxy E V × List Call
  log_all [] p = (p, [])
  log_all (bs ∷ chunks) p =
      let first = on_log bs p in let rest = log_all chunks first.0 in (rest.0, first.1 ++ rest.1)

  log_all-log_bytes :
      (chunks : List (List ℕ)) (p : Proxy E V)
      → log_all chunks p ≡ (
          let r = log_bytes p.node_name (concat chunks) (p.log_buffer, []) in
          (record p { log_buffer = r.0 }, r.1))
  unfolding on_log
  log_all-log_bytes [] p = refl
  log_all-log_bytes (bs ∷ chunks) p =
      let first = log_bytes p.node_name bs (p.log_buffer, []) in
      ap (λ r. (r.0, first.1 ++ r.1)) (log_all-log_bytes chunks (record p { log_buffer = first.0 }))
      ∙ ap (λ r. (record p { log_buffer = r.0 }, r.1))
          (sym (
            log_bytes-append p.node_name bs (concat chunks) (p.log_buffer, [])
            ∙ log_bytes-calls p.node_name (concat chunks) first))

  -- However the log is cut into chunks, a proxy whose buffer is empty sends off each line of it once
  -- and in order, without the carriage returns and what stands behind a NUL in it, under its name up
  -- to a NUL, and keeps what stands behind the last newline.
  pub log_all-lines :
      (chunks : List (List ℕ)) (p : Proxy E V)
      → p.log_buffer ≡ []
      → log_all chunks p ≡ (
        record p { log_buffer = (lines (concat chunks)).1 },
        log_calls p.node_name (lines (concat chunks)).0,
      )
  log_all-lines chunks p empty =
      log_all-log_bytes chunks p
      ∙ ap (λ r. (record p { log_buffer = r.0 }, r.1))
          (ap (λ t. log_bytes p.node_name (concat chunks) (t, [])) empty
            ∙ log_bytes-lines p.node_name (concat chunks) [] []
            ∙ ap (λ r. (r.1, log_calls p.node_name r.0)) (begun-empty (lines (concat chunks))))
