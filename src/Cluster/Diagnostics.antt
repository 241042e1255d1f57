-- ===== src/Cluster/Diagnostics.antt =====
-- The samples of the server's log that `cluster_scenarios` of scripts/interop_cluster.py puts into the
-- report of a failure: which lines, how many, how long, and without the tokens.
pub mod Redacted
pub mod Bounded
pub mod Samples
pub mod Cut
use wu_kong_easy_sdk_csharp.Common.{
  ℕ, zero, suc, ◌-◌, String, Bool, true, false, not, ◌||◌, Option, none, some, List, [], ◌∷◌, ◌++◌,
  ◌==◌, any, length, take, codes, map,
}
use wu_kong_easy_sdk_csharp.Python.Result.{Exc, value_error, key_error, raised, Result, ok, err}
use wu_kong_easy_sdk_csharp.Python.Json.{
  Json, null, bool, int, real, str, arr, obj, Fields, lookup, get, py_eq,
}
use wu_kong_easy_sdk_csharp.Python.Text.Search.{Text}
use wu_kong_easy_sdk_csharp.Python.Text.Replace.{occurs, replace}

abbrev pub redacted : Text
redacted = codes "[redacted]"

-- for token in tokens.values(): value = value.replace(token, '[redacted]')
unfoldable pub redact : List Text → Text → Text
redact [] value = value
redact (token ∷ tokens) value = redact tokens (replace value token redacted)

abbrev pub max_value : ℕ
max_value = 512

-- A value of the row: cut first, then redacted.
unfoldable pub value_of : List Text → Text → Text
value_of tokens raw = redact tokens (take max_value raw)

abbrev pub Item : Type 0
Item = List (String × Text)

-- What a line of the log leads to.
pub data Row : Type 0 where
  skip : Row
  keep : Item → Row
  abort : Exc → Row

-- line[line.index('{'):], where none is a ValueError
unfoldable pub from_brace : Text → Option Text
from_brace [] = none
from_brace (c ∷ cs) = elim (c == b'{') [ true ↦ some (c ∷ cs) | false ↦ from_brace cs ]

-- xs[-n:] for 0 < n
abbrev pub drop : ℕ → List Item → List Item
drop zero xs = xs
drop (suc n) [] = []
drop (suc n) (x ∷ xs) = drop n xs

abbrev pub last_of : ℕ → List Item → List Item
last_of n xs = drop (length xs - n) xs

-- `loads` is json.loads and `show` is str, for the values that it returns. `tokens` are the tokens and
-- `uids` the accounts that have them.
module _ (loads : Text → Result Json) (show : Json → Text) (tokens : List Text)
    (uids : List String) where
  -- str(row.get(key, ''))
  abbrev pub text_of : Fields → String → Text
  text_of row key = elim (lookup row key) [ none ↦ [] | some v ↦ show v ]

  -- the dict over the keys, each value cut and redacted
  abbrev pub item_of : Fields → List String → Item
  item_of row [] = []
  item_of row (key ∷ keys) = (key, value_of tokens (text_of row key)) ∷ item_of row keys

  -- What the line's text is as JSON: a ValueError or a KeyError skips the line, any other exception,
  -- that of `row.get` for a value that is no dict included, ends the reading.
  abbrev pub after_loads : (Fields → Row) → Result Json → Row
  after_loads use_row (ok (obj row)) = use_row row
  after_loads use_row (ok v) = abort (raised "AttributeError")
  after_loads use_row (err (value_error m)) = skip
  after_loads use_row (err key_error) = skip
  after_loads use_row (err e) = abort e

  abbrev pub parsed : (Fields → Row) → Option Text → Row
  parsed use_row none = skip
  parsed use_row (some t) = after_loads use_row (loads t)

  abbrev pub marked : String → (Fields → Row) → Text → Row
  marked marker use_row line = elim (occurs line (codes marker)) [
    | true ↦ parsed use_row (from_brace line)
    | false ↦ skip
  ]

  -- row.get('uid') not in ('', None, *tokens)
  abbrev pub foreign : Json → Bool
  foreign v = not (py_eq v null || any (λ uid. py_eq v (str uid)) ("" ∷ uids))

  abbrev pub plan_keys : List String
  plan_keys = "phase" ∷ "result" ∷ "mode" ∷ "recipients" ∷ "uid" ∷ "ownerNodeID" ∷ "error" ∷ []

  abbrev pub plan_item : Fields → Row
  plan_item row = elim (foreign (get row "uid")) [
    | true ↦ skip
    | false ↦ keep (item_of row plan_keys)
  ]

  unfoldable pub plan_row : Text → Row
  plan_row = marked "online delivery plan incomplete" plan_item

  -- entry['planFailures'], and the exception that ends the reading
  unfoldable pub plan_failures : List Item → List Text → List Item × Option Exc
  plan_failures items [] = (items, none)
  plan_failures items (line ∷ lines) = elim (plan_row line) [
    | skip ↦ plan_failures items lines
    | keep item ↦ plan_failures (last_of 8 (items ++ (item ∷ []))) lines
    | abort e ↦ (items, some e)
  ]

  abbrev pub send_keys : List String
  send_keys = "errorClass" ∷ "failedStage" ∷ "error" ∷ []

  -- `sent` is pending.get('clientMsgNo')
  abbrev pub send_item : Json → Fields → Row
  send_item sent row = elim (py_eq (get row "clientMsgNo") sent) [
    | true ↦ keep (item_of row send_keys)
    | false ↦ skip
  ]

  unfoldable pub send_row : Json → Text → Row
  send_row sent = marked "gateway send failed" (send_item sent)

  -- entry['sendErrors'], and the exception that ends the reading
  unfoldable pub send_errors : Json → List Item → List Text → List Item × Option Exc
  send_errors sent items [] = (items, none)
  send_errors sent items (line ∷ lines) = elim (send_row sent line) [
    | skip ↦ send_errors sent items lines
    | keep item ↦ elim (length (items ++ (item ∷ [])) == 4) [
      | true ↦ (items ++ (item ∷ []), none)
      | false ↦ send_errors sent (items ++ (item ∷ [])) lines
    ]
    | abort e ↦ (items, some e)
  ]
