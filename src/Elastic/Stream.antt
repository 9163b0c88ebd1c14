-- ===== src/Elastic/Stream.antt =====
-- redis2elastic/src/redis2elastic.cpp: what the loop of `main` indexes of a reply to `xread`, against
-- a description of the reply.
use broker_proxy.Base.{
  ◌>>=◌, ℕ, suc, ◌+◌, ◌≡◌, refl, sym, ap, ◌∙◌, Bool, true, false, Option, none, some, List, [], ◌∷◌,
  ◌++◌, length, length-append, Bool-cases, inl, inr, if◌then◌else◌, arith,
}
use mathlib.Core.Path.{subst}
use broker_proxy.Cbor.{c_string}
use broker_proxy.Redis.Texts.{same_text_self, same_text_eq}
use broker_proxy.Redis.{same_text}
use broker_proxy.Redis.Replies.{
  RedisReply, Replies, array, integer, string, status, failure, nil, other_type, no_replies,
  reply_and,
}
use broker_proxy.Elastic.{
  JsonValue, text, number, time, Document, put_json, put_all, Json, built, put_reply, put_pairs,
  stream_key, timestamp_key, on_record, on_records, on_streams, on_xread,
}
use broker_proxy.Elastic.Record.{member}

-- An entry has an identifier and fields, a stream has a key and entries.
abbrev pub Entry : Type 0
Entry = List ℕ × List (List ℕ × RedisReply)

abbrev pub Stream : Type 0
Stream = List ℕ × List Entry

abbrev pub pairs_of : List (List ℕ × RedisReply) → Replies
pairs_of [] = no_replies
pairs_of ((k, v) ∷ fs) = reply_and (string k) (reply_and v (pairs_of fs))

abbrev pub entry_reply : Entry → RedisReply
entry_reply (id, fs) = array (reply_and (string id) (reply_and (array (pairs_of fs)) no_replies))

abbrev pub entry_replies : List Entry → Replies
entry_replies [] = no_replies
entry_replies (e ∷ es) = reply_and (entry_reply e) (entry_replies es)

abbrev pub stream_reply : Stream → RedisReply
stream_reply (key, es) =
    array (reply_and (string key) (reply_and (array (entry_replies es)) no_replies))

abbrev pub stream_replies : List Stream → Replies
stream_replies [] = no_replies
stream_replies (s ∷ ss) = reply_and (stream_reply s) (stream_replies ss)

-- The value of a key among fields, the last one that is a string or an integer.
abbrev pub json_of : RedisReply → Option JsonValue → Option JsonValue
json_of (string s) old = some (text (c_string s))
json_of (integer n) old = some (number n)
json_of (array rs) old = old
json_of (status s) old = old
json_of (failure s) old = old
json_of nil old = old
json_of (other_type n) old = old

abbrev pub last_value : List ℕ → List (List ℕ × RedisReply) → Option JsonValue → Option JsonValue
last_value k [] old = old
last_value k ((key, v) ∷ fs) old =
    last_value k fs (if same_text (c_string key) k then json_of v old else old)

-- The entries with the keys of their streams, in order.
abbrev pub with_key : List ℕ → List Entry → List (List ℕ × Entry)
with_key key [] = []
with_key key (e ∷ es) = (key, e) ∷ with_key key es

abbrev pub all_entries : List Stream → List (List ℕ × Entry)
all_entries [] = []
all_entries ((key, es) ∷ ss) = with_key key es ++ all_entries ss

module _ (now : ℕ → ℕ) where
  -- The document of the n-th entry: the stream, the time, and the fields under all other keys.
  abbrev pub IsEntry : ℕ → List ℕ × Entry → Document → Type 0
  IsEntry n (key, (id, fs)) doc =
      (member stream_key doc ≡ some (text (c_string key)))
      × (member timestamp_key doc ≡ some (time (now n)))
      × ((k : List ℕ)
          → same_text stream_key k ≡ false
          → same_text timestamp_key k ≡ false
          → member k doc ≡ last_value k fs none)

  abbrev pub AreEntries : ℕ → List (List ℕ × Entry) → List Document → Type 0
  AreEntries n [] [] = Unit
  AreEntries n [] (doc ∷ docs) = ⊥
  AreEntries n (e ∷ es) [] = ⊥
  AreEntries n (e ∷ es) (doc ∷ docs) = IsEntry n e doc × AreEntries (suc n) es docs

-- Of two keys of which one is another's, and the other is not.
other_text :
    (j key k : List ℕ) → same_text j key ≡ false → same_text j k ≡ true → same_text key k ≡ false
other_text j key k ne e = elim (Bool-cases (same_text key k)) [
  | inl same ↦
      (let twin = same_text_eq j k e ∙ sym (same_text_eq key k same) in
        let yes = ap (same_text j) (sym twin) ∙ same_text_self j in absurd (cc))
  | inr other ↦ other
]

member-put_json :
    (k key : List ℕ) (v : JsonValue) (doc : Document)
    → member k (put_json key v doc) ≡ (if same_text key k then some v else member k doc)
member-put_json k key v [] = refl
member-put_json k key v ((j, w) ∷ doc) = elim (Bool-cases (same_text j key)) [
  | inl e ↦ rw (e, ← same_text_eq j key e) (replaced (same_text j k))
  | inr e ↦
      rw (e, member-put_json k key v doc)
        (elim (Bool-cases (same_text j k)) [
          | inl f ↦ rw (f, other_text j key k e f) refl
          | inr f ↦ rw f refl
        ])
]
  where
    replaced :
        (b : Bool)
        → (if b then some v else member k doc)
          ≡ (if b then some v else if b then some w else member k doc)
    replaced true = refl
    replaced false = refl

abbrev put_fields : List (List ℕ × RedisReply) → Document → Document
put_fields [] doc = doc
put_fields ((key, v) ∷ fs) doc = put_fields fs (put_reply key v doc)

put_pairs-pairs_of :
    (fs : List (List ℕ × RedisReply)) (doc : Document)
    → put_pairs (pairs_of fs) doc ≡ some (put_fields fs doc)
put_pairs-pairs_of [] doc = refl
put_pairs-pairs_of ((key, v) ∷ fs) doc = put_pairs-pairs_of fs (put_reply key v doc)

either {ℓ} : {A : Type ℓ} (b : Bool) (a : A) → a ≡ (if b then a else a)
either true a = refl
either false a = refl

put_all-append :
    (first second doc : Document)
    → put_all (first ++ second) doc ≡ put_all second (put_all first doc)
put_all-append [] second doc = refl
put_all-append ((k, v) ∷ first) second doc = put_all-append first second (put_json k v doc)

-- A member behind one more assignment.
member-put_all :
    (k key : List ℕ) (v : JsonValue) (puts : Document)
    → member k (put_all (puts ++ (key, v) ∷ []) [])
      ≡ (if same_text key k then some v else member k (put_all puts []))
member-put_all k key v puts =
    ap (member k) (put_all-append puts ((key, v) ∷ []) [])
    ∙ member-put_json k key v (put_all puts [])

member-put_reply :
    (k key : List ℕ) (v : RedisReply) (puts : Document)
    → member k (put_all (put_reply key v puts) []) ≡ (
        if same_text (c_string key) k
        then json_of v (member k (put_all puts []))
        else member k (put_all puts []))
member-put_reply k key (string s) puts = member-put_all k (c_string key) (text (c_string s)) puts
member-put_reply k key (integer n) puts = member-put_all k (c_string key) (number n) puts
member-put_reply k key (array rs) puts =
    either (same_text (c_string key) k) (member k (put_all puts []))
member-put_reply k key (status s) puts =
    either (same_text (c_string key) k) (member k (put_all puts []))
member-put_reply k key (failure s) puts =
    either (same_text (c_string key) k) (member k (put_all puts []))
member-put_reply k key nil puts = either (same_text (c_string key) k) (member k (put_all puts []))
member-put_reply k key (other_type n) puts =
    either (same_text (c_string key) k) (member k (put_all puts []))

member-put_fields :
    (k : List ℕ) (fs : List (List ℕ × RedisReply)) (puts : Document)
    → member k (put_all (put_fields fs puts) []) ≡ last_value k fs (member k (put_all puts []))
member-put_fields k [] puts = refl
member-put_fields k ((key, v) ∷ fs) puts =
    member-put_fields k fs (put_reply key v puts)
    ∙ ap (last_value k fs) (member-put_reply k key v puts)

-- The assignments for an entry: its fields, the stream and the time.
abbrev pub entry_puts : List ℕ → ℕ → List (List ℕ × RedisReply) → Document
entry_puts key t fs =
    put_fields fs [] ++ (stream_key, text (c_string key)) ∷ (timestamp_key, time t) ∷ []

member-entry_puts :
    (k key : List ℕ) (t : ℕ) (fs : List (List ℕ × RedisReply))
    → member k (put_all (entry_puts key t fs) []) ≡ (
        if same_text timestamp_key k
        then some (time t)
        else if same_text stream_key k
        then some (text (c_string key))
        else member k (put_all (put_fields fs []) []))
member-entry_puts k key t fs =
    let doc = put_all (put_fields fs []) [] in
    let stamp = (stream_key, text (c_string key)) ∷ (timestamp_key, time t) ∷ [] in
    ap (member k) (put_all-append (put_fields fs []) stamp [])
    ∙ member-put_json k timestamp_key (time t) (put_json stream_key (text (c_string key)) doc)
    ∙ ap (λ m. if same_text timestamp_key k then some (time t) else m)
        (member-put_json k stream_key (text (c_string key)) doc)

plus_zero : (n : ℕ) → n + 0 ≡ n
plus_zero n = omega arith

module _ (json : Json) (now : ℕ → ℕ) where
  -- Every entry, from the n-th on, has room in its document.
  abbrev pub AllFit : ℕ → List (List ℕ × Entry) → Type 0
  AllFit n [] = Unit
  AllFit n ((key, (id, fs)) ∷ es) =
      (json.fits 10240 (entry_puts key (now n) fs) ≡ true) × AllFit (suc n) es

  AllFit-of_append :
      (n : ℕ) (xs ys : List (List ℕ × Entry))
      → AllFit n (xs ++ ys)
      → AllFit n xs × AllFit (n + length xs) ys
  AllFit-of_append n [] ys h = (tt, subst (λ m. AllFit m ys) (sym (plus_zero n)) h)
  AllFit-of_append n ((key, (id, fs)) ∷ xs) ys h =
      let rest = AllFit-of_append (suc n) xs ys h.1 in
      ((h.0, rest.0), subst (λ m. AllFit m ys) next rest.1)
    where
      next : suc n + length xs ≡ n + suc (length xs)
      next = omega arith

  entry_puts-IsEntry :
      (n : ℕ) (key id : List ℕ) (fs : List (List ℕ × RedisReply))
      → IsEntry now n (key, (id, fs)) (put_all (entry_puts key (now n) fs) [])
  entry_puts-IsEntry n key id fs = (
    member-entry_puts stream_key key (now n) fs,
    member-entry_puts timestamp_key key (now n) fs,
    (λ k s t. member-entry_puts k key (now n) fs ∙ rw (s, t) (member-put_fields k fs [])),
  )

  on_record-entry_reply :
      (n : ℕ) (key id : List ℕ) (fs : List (List ℕ × RedisReply))
      → json.fits 10240 (entry_puts key (now n) fs) ≡ true
      → on_record json now n key (entry_reply (id, fs))
        ≡ some (put_all (entry_puts key (now n) fs) [])
  on_record-entry_reply n key id fs fits =
      ap
        (λ o. o >>= λ doc. some (
          built json 10240
            (doc ++ (stream_key, text (c_string key)) ∷ (timestamp_key, time (now n)) ∷ [])))
        (put_pairs-pairs_of fs [])
      ∙ ap
          (λ b. some (
            if b
            then put_all (entry_puts key (now n) fs) []
            else json.spoiled 10240 (entry_puts key (now n) fs)))
          fits

  -- The documents of the entries of a list, from the n-th on, and how many there are then.
  abbrev Indexes : ℕ → List (List ℕ × Entry) → Option (ℕ × List Document) → Type 0
  Indexes n es o =
      (docs : List Document) × (o ≡ some (n + length es, docs)) × AreEntries now n es docs

  on_records-Indexes :
      (key : List ℕ) (es : List Entry) (n : ℕ)
      → AllFit n (with_key key es)
      → Indexes n (with_key key es) (on_records json now key (entry_replies es) n)
  on_records-Indexes key [] n fit = ([], rw (plus_zero n) refl, tt)
  on_records-Indexes key ((id, fs) ∷ es) n fit =
      let rest = on_records-Indexes key es (suc n) fit.1 in
      (
        put_all (entry_puts key (now n) fs) [] ∷ rest.0,
        rw (on_record-entry_reply n key id fs fit.0, rest.1)
            (ap (λ m. some (m, put_all (entry_puts key (now n) fs) [] ∷ rest.0)) next),
        (entry_puts-IsEntry n key id fs, rest.2),
      )
    where
      next : suc n + length (with_key key es) ≡ n + suc (length (with_key key es))
      next = omega arith

  AreEntries-append :
      (n : ℕ) (xs ys : List (List ℕ × Entry)) (ds es : List Document)
      → AreEntries now n xs ds
      → AreEntries now (n + length xs) ys es
      → AreEntries now n (xs ++ ys) (ds ++ es)
  AreEntries-append n [] ys [] es h k = subst (λ m. AreEntries now m ys es) (plus_zero n) k
  AreEntries-append n [] ys (d ∷ ds) es h k = absurd h
  AreEntries-append n (x ∷ xs) ys [] es h k = absurd h
  AreEntries-append n (x ∷ xs) ys (d ∷ ds) es h k =
      (h.0, AreEntries-append (suc n) xs ys ds es h.1 (subst (λ m. AreEntries now m ys es) next k))
    where
      next : n + suc (length xs) ≡ suc n + length xs
      next = omega arith

  on_streams-Indexes :
      (ss : List Stream) (n : ℕ)
      → AllFit n (all_entries ss)
      → Indexes n (all_entries ss) (on_streams json now (stream_replies ss) n)
  on_streams-Indexes [] n fit = ([], rw (plus_zero n) refl, tt)
  on_streams-Indexes ((key, es) ∷ ss) n fit =
      let room = AllFit-of_append n (with_key key es) (all_entries ss) fit in
      let first = on_records-Indexes key es n room.0 in
      let rest = on_streams-Indexes ss (n + length (with_key key es)) room.1 in
      (
        first.0 ++ rest.0,
        rw (first.1, rest.1) (ap (λ m. some (m, first.0 ++ rest.0)) total),
        AreEntries-append n (with_key key es) (all_entries ss) first.0 rest.0 first.2 rest.2,
      )
    where
      total :
          n + length (with_key key es) + length (all_entries ss)
          ≡ n + length (with_key key es ++ all_entries ss)
      total = rw (length-append (with_key key es) (all_entries ss)) (omega arith)

  -- A reply of `xread` with streams, their entries and the fields of each is made into documents in
  -- full and in order, which are handed to the flow of the index: one for each entry and no more, with
  -- the key of its stream, the time when it is built, and under each other key the last of its
  -- fields that is a string or an integer. Strings end at their first NUL, and each entry fits into
  -- the 10240 bytes of a document.
  pub on_xread-AreEntries :
      (ss : List Stream) (n : ℕ)
      → AllFit n (all_entries ss)
      → (docs : List Document) × (on_xread json now (some (array (stream_replies ss))) n
          ≡ some (n + length (all_entries ss), docs))
        × AreEntries now n (all_entries ss) docs
  unfolding on_xread
  on_xread-AreEntries ss n fit = on_streams-Indexes ss n fit
