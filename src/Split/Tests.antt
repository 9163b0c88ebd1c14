-- ===== src/Split/Tests.antt =====
-- `split` at "a:b".
use broker_proxy.Base.{ℕ, ◌≡◌, List, [], ◌∷◌}
use broker_proxy.Split.{split}
use broker_proxy.Split.Fields.{split-eq-fields}

abbrev uri : List ℕ
uri = 97 ∷ 58 ∷ 98 ∷ 58 ∷ []

split-eq-fields_example : split uri 58 ≡ (97 ∷ []) ∷ (98 ∷ []) ∷ [] ∷ []
split-eq-fields_example = split-eq-fields uri 58
