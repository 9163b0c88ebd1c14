-- ===== src/Brain/Labels.antt =====
-- brain/src/brain.cpp: the labels that the ticker gives to the time series, in front of whose keys
-- the handler of messages puts "ts:".
use broker_proxy.Base.{
  leb_of_le, length, ◌≤◌, ℕ, ◌≡◌, refl, ap, ◌∙◌, true, false, some, List, [], ◌∷◌, ◌++◌, map, All,
  ◌>>=◌, arith,
}
use broker_proxy.Cbor.Read.{c_string-same}
use broker_proxy.Redis.Replies.{Replies, array, string, reply_and}
use broker_proxy.Redis.Replies.Handled.{strings, IsText}
use broker_proxy.Split.{split}
use broker_proxy.Split.Join.{join, IsWord, split-join}
use broker_proxy.Brain.{is_series, alter, on_key, on_keys, on_ticker_reply}

-- The key of the series for a topic of four words or more, or any other key.
pub data Key : Type 0 where
  series : List ℕ → List ℕ → List ℕ → List ℕ → List (List ℕ) → Key
  other : List ℕ → Key

abbrev pub ts_text : List ℕ → List ℕ
ts_text key = 116 ∷ 115 ∷ 58 ∷ key

abbrev pub key_text : Key → List ℕ
key_text (series src node object property words) =
    ts_text (join 47 (src ∷ node ∷ object ∷ property ∷ words))
key_text (other key) = key

-- The words have no slash, and the command fits into the 146 characters of `stringFormat`; another key does not begin with "ts:".
abbrev pub IsKey : Key → Type 0
IsKey (series src node object property words) =
    IsText (ts_text (join 47 (src ∷ node ∷ object ∷ property ∷ words)))
    × All (IsWord 47) (src ∷ node ∷ object ∷ property ∷ words)
    × (length
          (alter (ts_text (join 47 (src ∷ node ∷ object ∷ property ∷ words))) node object property)
        ≤ 146)
IsKey (other key) = IsText key × (is_series key ≡ false)

-- The commands for the keys: the labels of a series are the words of its topic.
abbrev pub labels : List Key → List (List ℕ)
labels [] = []
labels (series src node object property words ∷ ks) =
    alter (ts_text (join 47 (src ∷ node ∷ object ∷ property ∷ words))) node object property
    ∷ labels ks
labels (other key ∷ ks) = labels ks

split-series :
    (src node object property : List ℕ) (words : List (List ℕ))
    → All (IsWord 47) (src ∷ node ∷ object ∷ property ∷ words)
    → split (ts_text (join 47 (src ∷ node ∷ object ∷ property ∷ words))) 47
      ≡ ts_text src ∷ node ∷ object ∷ property ∷ words
split-series src node object property words free =
    split-join 47 (ts_text src) (node ∷ object ∷ property ∷ words) (
      (
        (λ e. absurd (omega arith)),
        ((λ e. absurd (omega arith)), ((λ e. absurd (omega arith)), free.0)),
      ),
      free.1,
    )

-- The command for a key in front of others.
on_keys-series :
    (key src node object property : List ℕ) (words cmds : List (List ℕ)) (rs : Replies)
    → IsText key
    → is_series key ≡ true
    → split key 47 ≡ src ∷ node ∷ object ∷ property ∷ words
    → length (alter key node object property) ≤ 146
    → on_keys rs ≡ some cmds
    → on_keys (reply_and (string key) rs) ≡ some (alter key node object property ∷ cmds)
on_keys-series key src node object property words cmds rs text s parts fits rest =
    ap (λ k. on_key k >>= λ cs. on_keys rs >>= λ more. some (cs ++ more)) (c_string-same key text)
    ∙ rw (s, parts, leb_of_le (length (alter key node object property)) 146 fits, rest) refl

on_keys-strings :
    (ks : List Key) → All IsKey ks → on_keys (strings (map key_text ks)) ≡ some (labels ks)
on_keys-strings [] h = refl
on_keys-strings (series src node object property words ∷ ks) h =
    on_keys-series (ts_text (join 47 (src ∷ node ∷ object ∷ property ∷ words))) (ts_text src) node
      object property words (labels ks) (strings (map key_text ks)) h.0.0 refl
      (split-series src node object property words h.0.1) h.0.2 (on_keys-strings ks h.1)
on_keys-strings (other key ∷ ks) h =
    rw (c_string-same key h.0.0, h.0.1, on_keys-strings ks h.1) refl

-- The ticker labels every time series, and nothing else, in the order of the keys: the command for
-- the series of a topic of four words or more names the second, third and fourth word as node, object
-- and property, whatever other keys, which do not begin with "ts:", stand in between. Keys have no
-- NUL, words no slash, and commands at most the 146 characters that `stringFormat` has room for.
pub on_ticker_reply-labels :
    (ks : List Key)
    → All IsKey ks
    → on_ticker_reply (array (strings (map key_text ks))) ≡ some (labels ks)
unfolding on_ticker_reply
on_ticker_reply-labels ks h = on_keys-strings ks h
