-- ===== src/Session/Watch.antt =====
-- proxy/src/SessionSerial.cpp and linux/src/limero.cpp: which files a thread waits for.
use broker_proxy.Base.{
  ℕ, ◌+◌, ◌≤◌, ◌<◌, ◌≡◌, refl, false, List, [], ◌∷◌, ◌==◌, ltb, if◌then◌else◌, All, Bool-cases, inl,
  inr, lt_of_ltb, arith,
}
use broker_proxy.Session.{Watched, largest, build_fd_set, has_fd, erase, delete_invoker}

largest-ge : (n : ℕ) (fds : List ℕ) → n ≤ largest n fds
largest-ge n [] = omega arith
largest-ge n (fd ∷ fds) = elim (Bool-cases (ltb n fd)) [
  | inl e ↦ rw e (omega (arith, largest-ge fd fds, lt_of_ltb n fd e))
  | inr e ↦ rw e (largest-ge n fds)
]

abbrev pub IsBelow : ℕ → ℕ → Type 0
IsBelow n fd = fd < n

IsBelow-mono : (n k : ℕ) (fds : List ℕ) → n ≤ k → All (IsBelow n) fds → All (IsBelow k) fds
IsBelow-mono n k [] le h = tt
IsBelow-mono n k (fd ∷ fds) le h = (omega (arith, h.0), IsBelow-mono n k fds le h.1)

le_larger : (n fd : ℕ) → fd ≤ (if ltb n fd then fd else n)
le_larger n fd = ground arith

largest-IsBelow : (n : ℕ) (fds : List ℕ) → All (IsBelow (largest n fds + 1)) fds
largest-IsBelow n [] = tt
largest-IsBelow n (fd ∷ fds) =
    let m = if ltb n fd then fd else n in
    (omega (arith, largest-ge m fds, le_larger n fd), largest-IsBelow m fds)

-- `select` is asked about the pipe and the registered descriptors, with a bound above all of them.
pub record IsWatching (t : Watched) : Type 0 where
  pub reads : t.rfds ≡ t.read_pipe ∷ t.read_invokers
  pub errors : t.efds ≡ t.read_pipe ∷ t.error_invokers
  pub reads_below : All (IsBelow t.max_fd) t.rfds
  pub errors_below : All (IsBelow t.max_fd) t.efds

-- After every change of the registered descriptors that holds.
pub build_fd_set-IsWatching : (t : Watched) → IsWatching (build_fd_set t)
build_fd_set-IsWatching t =
    let m = largest t.read_pipe t.read_invokers in
    let top = largest-ge m t.error_invokers in
    let pipe = largest-ge t.read_pipe t.read_invokers in
    record {
      reads = refl;
      errors = refl;
      reads_below = (
        omega (arith, top, pipe),
        IsBelow-mono (m + 1) (largest m t.error_invokers + 1) t.read_invokers (omega (arith, top))
            (largest-IsBelow t.read_pipe t.read_invokers),
      );
      errors_below = (omega (arith, top, pipe), largest-IsBelow m t.error_invokers);
    }

erase-has_fd : (fd : ℕ) (fds : List ℕ) → has_fd fd (erase fd fds) ≡ false
erase-has_fd fd [] = refl
erase-has_fd fd (f ∷ fds) = elim (Bool-cases (f == fd)) [
  | inl e ↦ rw e (erase-has_fd fd fds)
  | inr e ↦ rw e (rw e (erase-has_fd fd fds))
]

-- A descriptor that was deleted is registered no more.
pub delete_invoker-has_fd :
    (fd : ℕ) (t : Watched)
    → (has_fd fd (delete_invoker fd t).read_invokers ≡ false)
      × (has_fd fd (delete_invoker fd t).error_invokers ≡ false)
delete_invoker-has_fd fd t = (erase-has_fd fd t.read_invokers, erase-has_fd fd t.error_invokers)
