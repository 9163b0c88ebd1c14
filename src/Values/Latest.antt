-- ===== src/Values/Latest.antt =====
-- common/src/limero.h: an asynchronous `ValueFlow` knows only the last value.
use broker_proxy.Base.{
  ℕ, zero, suc, ◌+◌, ◌≡◌, refl, sym, ap, ap₂, ◌∙◌, true, List, [], ◌∷◌, ◌++◌, append_assoc,
  append-nil, length, if◌then◌else◌, arith,
}
use mathlib.Core.Path.{subst}
use broker_proxy.Values.{ValueFlow, value_on, take_entry, value_invoke}
use broker_proxy.Values.Cached.{copies}

module _ {A : Type 0} where
  abbrev pub value_on_all : List A → ValueFlow A → ValueFlow A
  value_on_all [] f = f
  value_on_all (t ∷ ts) f = value_on_all ts (value_on t f)

  -- The thread works off the entries of the flow.
  abbrev pub run_entries : ℕ → ValueFlow A → ValueFlow A
  run_entries zero f = f
  run_entries (suc n) f = run_entries n (value_invoke f)

  -- The last of the values.
  abbrev pub last_of : A → List A → A
  last_of v [] = v
  last_of v (t ∷ ts) = last_of t ts

  value_on_lem :
      (t : A) (f : ValueFlow A)
      → f.is_async ≡ true
      → value_on t f ≡ record f { value = t; pending = suc f.pending }
  unfolding value_on
  value_on_lem t f on =
      ap
        (λ b.
          if b
          then record f { value = t; pending = suc f.pending }
          else record f { value = t; emitted = f.emitted ++ t ∷ [] })
        on

  -- The entries, the output and the value of a flow.
  abbrev pub IsAt : ℕ → List A → A → ValueFlow A → Type 0
  IsAt n e v f = (f.pending ≡ n) × (f.emitted ≡ e) × (f.value ≡ v)

  value_on_all-async :
      (ts : List A) (f : ValueFlow A)
      → f.is_async ≡ true
      → IsAt (length ts + f.pending) f.emitted (last_of f.value ts) (value_on_all ts f)
  value_on_all-async [] f on = (omega arith, refl, refl)
  value_on_all-async (t ∷ ts) f on =
      let r = value_on_all-async ts (record f { value = t; pending = suc f.pending }) on in
      subst (λ g. IsAt (length (t ∷ ts) + f.pending) f.emitted (last_of t ts) (value_on_all ts g))
        (sym (value_on_lem t f on)) (omega (arith, r.0), r.1, r.2)

  value_invoke_lem :
      (n : ℕ) (f : ValueFlow A)
      → f.pending ≡ suc n
      → value_invoke f ≡ record f { pending = n; emitted = f.emitted ++ f.value ∷ [] }
  unfolding value_invoke
  value_invoke_lem n f e = ap (λ k. take_entry k f) e

  run_entries-copies :
      (n : ℕ) (f : ValueFlow A)
      → f.pending ≡ n
      → (run_entries n f).emitted ≡ f.emitted ++ copies n f.value
  run_entries-copies zero f e = sym (append-nil f.emitted)
  run_entries-copies (suc n) f e =
      ap (λ g. (run_entries n g).emitted) (value_invoke_lem n f e)
      ∙ run_entries-copies n (record f { pending = n; emitted = f.emitted ++ f.value ∷ [] }) refl
      ∙ append_assoc f.emitted (f.value ∷ []) (copies n f.value)

  -- An asynchronous flow to which values come before its thread gets to work emits the last of them,
  -- once for each value that has come, and none of the others.
  pub run_entries-value_on_all :
      (v : A) (ts : List A) (f : ValueFlow A)
      → f.is_async ≡ true
      → f.pending ≡ 0
      → (run_entries (length (v ∷ ts)) (value_on_all (v ∷ ts) f)).emitted
        ≡ f.emitted ++ copies (length (v ∷ ts)) (last_of v ts)
  run_entries-value_on_all v ts f on idle =
      let r = value_on_all-async (v ∷ ts) f on in
      run_entries-copies (length (v ∷ ts)) (value_on_all (v ∷ ts) f) (omega (arith, r.0, idle))
      ∙ ap₂ (λ e x. e ++ copies (length (v ∷ ts)) x) r.1 r.2
