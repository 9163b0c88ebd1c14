-- ===== src/Elastic/Record.antt =====
-- redis2elastic/src/redis2elastic.cpp: the members of the document for a message.
use broker_proxy.Base.{
  ℕ, ◌≡◌, refl, sym, ap, ◌∙◌, true, false, Option, none, some, List, [], ◌∷◌, ◌++◌, if◌then◌else◌,
  All, Bool-cases, inl, inr, get_elem?, ◌>>=◌, >>=_some, some_inj,
}
use mathlib.Core.Path.{subst}
use broker_proxy.Cbor.{ℤ, TinyCbor, CborDeserializer, is_decoded}
use broker_proxy.Split.{split}
use broker_proxy.Proxy.{PubMsg}
use broker_proxy.Redis.{same_text}
use broker_proxy.Text.{decimal_int}
use broker_proxy.Elastic.{
  JsonValue, text, number, real, time, Document, timestamp_key, value_key, msg_key, key_key,
  node_key, object_key, property_key, header, put_all, Json, built, incoming_puts, built_of,
  first_double, first_int64, first_string, add_string_value, add_int64_value, add_value,
  on_incoming,
}

pub data FieldType : Type 0 where
  keyword numeric date : FieldType

-- The type of a member in the index, by its key, and that of a value.
abbrev pub field_type : List ℕ → FieldType
field_type key =
    if same_text key timestamp_key
    then date
    else if same_text key value_key
    then numeric
    else keyword

abbrev pub type_of : JsonValue → FieldType
type_of (text s) = keyword
type_of (number n) = numeric
type_of (real x) = numeric
type_of (time t) = date

abbrev pub IsTyped : Document → Type 0
IsTyped = All (λ m. type_of m.1 ≡ field_type m.0)

-- `json[key]`
abbrev pub member : List ℕ → Document → Option JsonValue
member key [] = none
member key ((k, v) ∷ doc) = if same_text k key then some v else member key doc

-- A typed document that has no key twice, with the words of the topic of its message, the topic and
-- the time, and a text for it.
abbrev pub IsRecord : ℕ → PubMsg → Document → Type 0
IsRecord now msg doc =
    IsTyped doc
    × (put_all doc [] ≡ doc)
    × ((s : List ℕ) × (get_elem? (split msg.topic 47) 1 ≡ some s)
        × (member node_key doc ≡ some (text s)))
    × ((s : List ℕ) × (get_elem? (split msg.topic 47) 2 ≡ some s)
        × (member object_key doc ≡ some (text s)))
    × ((s : List ℕ) × (get_elem? (split msg.topic 47) 3 ≡ some s)
        × (member property_key doc ≡ some (text s)))
    × (member key_key doc ≡ some (text msg.topic))
    × (member timestamp_key doc ≡ some (time now))
    × ((s : List ℕ) × (member msg_key doc ≡ some (text s)))

abbrev header_of : ℕ → PubMsg → List ℕ → List ℕ → List ℕ → Document
header_of now msg node object property =
    (node_key, text node)
    ∷ (object_key, text object)
    ∷ (property_key, text property)
    ∷ (timestamp_key, time now)
    ∷ (key_key, text msg.topic)
    ∷ []

header-IsRecord :
    (now : ℕ) (msg : PubMsg) (doc rest : Document) (s : List ℕ)
    → header now msg (split msg.topic 47) ≡ some doc
    → IsTyped rest
    → ((node object property : List ℕ)
        → put_all rest (header_of now msg node object property)
          ≡ header_of now msg node object property ++ rest)
    → member msg_key rest ≡ some (text s)
    → IsRecord now msg (doc ++ rest)
header-IsRecord now msg doc rest s h typed once has =
    let parts = split msg.topic 47 in
    let node = >>=_some (get_elem? parts 1) _ doc h in
    let object = >>=_some (get_elem? parts 2) _ doc node.2 in
    let property = >>=_some (get_elem? parts 3) _ doc object.2 in
    subst (λ d. IsRecord now msg (d ++ rest)) (some_inj _ doc property.2)
      (
        (refl, (refl, (refl, (refl, (refl, typed))))),
        once node.0 object.0 property.0,
        (node.0, node.1, refl),
        (object.0, object.1, refl),
        (property.0, property.1, refl),
        refl,
        refl,
        (s, has),
      )

abbrev pub indexed :
    {V : Type 0} → CborDeserializer V → Document → Option (CborDeserializer V × Option Document)
indexed d doc = some (d, some doc)

indexed_inj :
    {V : Type 0} (d d' : CborDeserializer V) (doc doc' : Document)
    → indexed d doc ≡ indexed d' doc'
    → doc ≡ doc'
indexed_inj d d' doc doc' h =
    some_inj doc doc' (ap (λ p. p.1) (some_inj (d, some doc) (d', some doc') h))

module _ {E V : Type 0} (lib : TinyCbor E V) (show_double : ℕ → List ℕ) where
  add_string_value-IsRecord :
      (now : ℕ) (msg : PubMsg) (doc doc' : Document) (r : CborDeserializer V × List ℕ)
      → header now msg (split msg.topic 47) ≡ some doc
      → (add_string_value lib show_double doc r).1 ≡ some doc'
      → IsRecord now msg doc'
  add_string_value-IsRecord now msg doc doc' (d, s) h e = elim (Bool-cases (is_decoded lib d)) [
    | inl b ↦
        subst (IsRecord now msg) (some_inj _ doc' (sym (assigned b) ∙ e))
          (header-IsRecord now msg doc ((msg_key, text s) ∷ []) s h (refl, tt) (λ a b c. refl) refl)
    | inr b ↦ absurd (cc)
  ]
    where
      assigned :
          is_decoded lib d ≡ true
          → (add_string_value lib show_double doc (d, s)).1 ≡ some (doc ++ (msg_key, text s) ∷ [])
      assigned b = rw b refl

  -- What the tries for a number do where one succeeds and where it fails.
  pub add_int64_value-decoded :
      (doc : Document) (msg : PubMsg) (d : CborDeserializer V) (n : ℤ)
      → is_decoded lib d ≡ true
      → add_int64_value lib show_double doc msg (d, n)
        ≡ indexed d (doc ++ (value_key, number n) ∷ (msg_key, text (decimal_int n)) ∷ [])
  add_int64_value-decoded doc msg d n b = rw b refl

  add_int64_value-refused :
      (doc : Document) (msg : PubMsg) (d : CborDeserializer V) (n : ℤ)
      → is_decoded lib d ≡ false
      → add_int64_value lib show_double doc msg (d, n) ≡ (
          first_string lib show_double msg d >>= λ r. some (add_string_value lib show_double doc r))
  add_int64_value-refused doc msg d n b = rw b refl

  add_value-decoded :
      (doc : Document) (msg : PubMsg) (d : CborDeserializer V) (x : ℕ)
      → is_decoded lib d ≡ true
      → add_value lib show_double doc msg (d, x)
        ≡ indexed d (doc ++ (value_key, real x) ∷ (msg_key, text (show_double x)) ∷ [])
  add_value-decoded doc msg d x b = rw b refl

  pub add_value-refused :
      (doc : Document) (msg : PubMsg) (d : CborDeserializer V) (x : ℕ)
      → is_decoded lib d ≡ false
      → add_value lib show_double doc msg (d, x)
        ≡ add_int64_value lib show_double doc msg (first_int64 lib show_double msg d)
  add_value-refused doc msg d x b = rw b refl

  add_int64_value-IsRecord :
      (now : ℕ) (msg : PubMsg) (doc doc' : Document) (r : CborDeserializer V × ℤ)
      (d' : CborDeserializer V)
      → header now msg (split msg.topic 47) ≡ some doc
      → add_int64_value lib show_double doc msg r ≡ some (d', some doc')
      → IsRecord now msg doc'
  add_int64_value-IsRecord now msg doc doc' (d, n) d' h e = elim (Bool-cases (is_decoded lib d)) [
    | inl b ↦
        subst (IsRecord now msg)
          (indexed_inj d d' _ doc' (sym (add_int64_value-decoded doc msg d n b) ∙ e))
          (header-IsRecord now msg doc
            ((value_key, number n) ∷ (msg_key, text (decimal_int n)) ∷ []) (decimal_int n) h
            (refl, (refl, tt)) (λ a b c. refl) refl)
    | inr b ↦
        (let r =
            >>=_some (first_string lib show_double msg d) _ (d', some doc')
              (sym (add_int64_value-refused doc msg d n b) ∙ e) in
          add_string_value-IsRecord now msg doc doc' r.0 h
            (ap (λ p. p.1) (some_inj _ (d', some doc') r.2)))
  ]

  add_value-IsRecord :
      (now : ℕ) (msg : PubMsg) (doc doc' : Document) (r : CborDeserializer V × ℕ)
      (d' : CborDeserializer V)
      → header now msg (split msg.topic 47) ≡ some doc
      → add_value lib show_double doc msg r ≡ some (d', some doc')
      → IsRecord now msg doc'
  add_value-IsRecord now msg doc doc' (d, x) d' h e = elim (Bool-cases (is_decoded lib d)) [
    | inl b ↦
        subst (IsRecord now msg)
          (indexed_inj d d' _ doc' (sym (add_value-decoded doc msg d x b) ∙ e))
          (header-IsRecord now msg doc ((value_key, real x) ∷ (msg_key, text (show_double x)) ∷ [])
            (show_double x) h (refl, (refl, tt)) (λ a b c. refl) refl)
    | inr b ↦
        add_int64_value-IsRecord now msg doc doc' (first_int64 lib show_double msg d) d' h
          (sym (add_value-refused doc msg d x b) ∙ e)
  ]

  -- Every document that a message is indexed as is made by typed assignments, whatever the payload is
  -- and whatever TinyCBOR answers: no key is assigned twice, "timestamp" is assigned the time,
  -- "value" a number, and every other key a text; "node", "object" and "property" the second, third
  -- and fourth word of the topic, "key" the topic, and "msg" a text. If they fit into 1024 bytes,
  -- the document has exactly these members, and otherwise what ArduinoJson leaves of them.
  pub on_incoming-IsRecord :
      (json : Json) (now : ℕ) (msg : PubMsg) (d d' : CborDeserializer V) (doc : Document)
      → on_incoming lib show_double json now msg d ≡ some (d', some doc)
      → (puts : Document) × IsRecord now msg puts
        × (doc ≡ (if json.fits 1024 puts then puts else json.spoiled 1024 puts))
  unfolding on_incoming incoming_puts
  on_incoming-IsRecord json now msg d d' doc e =
      let r = >>=_some (incoming_puts lib show_double now msg d) _ (d', some doc) e in
      from_puts r.0 r.1 (some_inj _ (d', some doc) r.2)
    where
      from_puts :
          (r : CborDeserializer V × Option Document)
          → incoming_puts lib show_double now msg d ≡ some r
          → built_of lib show_double json r ≡ (d', some doc)
          → (puts : Document) × IsRecord now msg puts
            × (doc ≡ (if json.fits 1024 puts then puts else json.spoiled 1024 puts))
      from_puts (b, none) made same = let no = ap (λ p. p.1) same in absurd (cc)
      from_puts (b, some puts) made same =
          let h = >>=_some (header now msg (split msg.topic 47)) _ (b, some puts) made in
          let is =
            add_value-IsRecord now msg h.0 puts (first_double lib show_double msg d) b h.1 h.2 in
          (
            puts,
            is,
            sym (some_inj (built json 1024 puts) doc (ap (λ p. p.1) same))
                ∙ ap (λ ps. if json.fits 1024 puts then ps else json.spoiled 1024 puts) is.1,
          )
