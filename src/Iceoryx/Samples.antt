-- ===== src/Iceoryx/Samples.antt =====
-- broker/src/BrokerIceoryx.cpp: what a sample carries, and to whom.
use broker_proxy.Base.{
  ℕ, zero, suc, ◌≤◌, ◌<◌, ◌≡◌, ◌⊎◌, refl, ap, true, false, none, some, List, [], ◌∷◌, ◌++◌, length,
  leb, get_elem?, ◌>>=◌, All, Bool-cases, inl, inr, arith,
}
use broker_proxy.Split.{drop}
use broker_proxy.Split.Join.{join, IsWord, split-join}
use broker_proxy.Zenoh.{find}
use broker_proxy.Iceoryx.{
  IceBytes, ice_limit, assign, bytes_from, to_bytes, id_of, make_service_description, Library,
  Broker, publisher_of, publish,
}

bytes_from-behind : (x : ℕ) (d : List ℕ) (n i : ℕ) → bytes_from (x ∷ d) (suc i) n ≡ bytes_from d i n
bytes_from-behind x d zero i = refl
bytes_from-behind x d (suc n) i =
    ap (λ o. get_elem? d i >>= λ y. o >>= λ rest. some (y ∷ rest)) (bytes_from-behind x d n (suc i))

bytes_from-append : (bs rest : List ℕ) → bytes_from (bs ++ rest) 0 (length bs) ≡ some bs
bytes_from-append [] rest = refl
bytes_from-append (b ∷ bs) rest =
    rw (bytes_from-behind b (bs ++ rest) (length bs) 0, bytes_from-append bs rest) refl

assign-to_bytes :
    (bs : List ℕ) (b : IceBytes)
    → length bs ≤ ice_limit
    → (filled : IceBytes) × (assign bs b ≡ some filled) × (to_bytes filled ≡ some bs)
unfolding assign to_bytes
assign-to_bytes bs b h = (
  record { size = length bs; data_bytes = bs ++ drop (length bs) b.data_bytes },
  rw (fits (length bs) h) refl,
  bytes_from-append bs (drop (length bs) b.data_bytes),
)
  where
    fits : (n : ℕ) → n ≤ ice_limit → leb n ice_limit ≡ true
    fits n k = ground arith

module _ {W : Type 0} (ice : Library W) where
  -- The publisher that a call uses, with the broker and the world once it is there.
  abbrev pub with_publisher : List ℕ → Broker → W → Broker × W × ℕ
  with_publisher topic b w = publisher_of ice topic b w (find topic b.publishers)

  -- What is published is what a subscriber reads: if the publisher of the topic, which is created
  -- where there is none, gets the loan of a sample, then at most 1024 bytes are published in one
  -- sample, from which `toBytes` reads the same bytes, and for more the behaviour is undefined.
  pub publish-to_bytes :
      (topic bs : List ℕ) (b : Broker) (w w' : W) (slot : IceBytes)
      → ice.loan (with_publisher topic b w).2 (with_publisher topic b w).1 ≡ (w', some slot)
      → ((sample : IceBytes) × (length bs ≤ ice_limit)
          × (publish ice topic bs b w
              ≡ some (
                (with_publisher topic b w).0,
                ice.publish_sample (with_publisher topic b w).2 sample w',
                0,
              ))
          × (to_bytes sample ≡ some bs))
        ⊎ ((ice_limit < length bs) × (publish ice topic bs b w ≡ none))
  unfolding publish assign
  publish-to_bytes topic bs b w w' slot loan = elim (Bool-cases (leb (length bs) ice_limit)) [
    | inl e ↦
        (let filled = assign-to_bytes bs slot (in_limit (length bs) e) in
          inl (filled.0, in_limit (length bs) e, rw (loan, filled.1) refl, filled.2))
    | inr e ↦ inr (too_long (length bs) e, rw (loan, e) refl)
  ]
    where
      in_limit : (n : ℕ) → leb n ice_limit ≡ true → n ≤ ice_limit
      in_limit n e = ground arith

      too_long : (n : ℕ) → leb n ice_limit ≡ false → ice_limit < n
      too_long n e = ground arith

-- A topic of four words or more is published under its second, third and fourth word only, so that
-- two topics that differ in other words, as those that begin with "src" and "dst" do, are one service.
pub make_service_description-words :
    (assign_id : List ℕ → List ℕ) (first first' s i e : List ℕ) (words words' : List (List ℕ))
    → All (IsWord 47) (first ∷ s ∷ i ∷ e ∷ words)
    → All (IsWord 47) (first' ∷ s ∷ i ∷ e ∷ words')
    → (make_service_description assign_id (join 47 (first ∷ s ∷ i ∷ e ∷ words))
        ≡ make_service_description assign_id (join 47 (first' ∷ s ∷ i ∷ e ∷ words')))
      × (make_service_description assign_id (join 47 (first ∷ s ∷ i ∷ e ∷ words))
          ≡ (id_of assign_id (some s), id_of assign_id (some i), id_of assign_id (some e)))
unfolding make_service_description
make_service_description-words assign_id first first' s i e words words' free free' =
    let one = split-join 47 first (s ∷ i ∷ e ∷ words) free in
    let two = split-join 47 first' (s ∷ i ∷ e ∷ words') free' in (rw (one, two) refl, rw one refl)
