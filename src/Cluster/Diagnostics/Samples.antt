-- ===== src/Cluster/Diagnostics/Samples.antt =====
-- How much of the server's log the report holds.
use wu_kong_easy_sdk_csharp.Common.{
  ℕ, zero, suc, ◌-◌, ◌≤◌, ◌<◌, String, Bool, true, false, Option, none, some, List, [], ◌∷◌, ◌++◌,
  ◌==◌, length, ◌≡◌, refl, arith, inl, inr, ◌⊎◌, All, length-append, codes,
}
use wu_kong_easy_sdk_csharp.Python.Result.{Exc, Result, ok, err, value_error, key_error}
use wu_kong_easy_sdk_csharp.Python.Json.{Json, Fields, get, py_eq, obj}
use wu_kong_easy_sdk_csharp.Python.Text.Search.{Text}
use wu_kong_easy_sdk_csharp.Python.Text.Replace.{occurs}
use mathlib.Core.Path.{subst}
use wu_kong_easy_sdk_csharp.Cluster.Diagnostics.{
  Item, Row, skip, keep, abort, drop, last_of, item_of, after_loads, parsed, marked, from_brace,
  plan_item, plan_row, plan_failures, send_item, send_row, send_errors, plan_keys, send_keys,
  foreign,
}
use wu_kong_easy_sdk_csharp.Cluster.Diagnostics.Redacted.{IsToken}
use wu_kong_easy_sdk_csharp.Cluster.Diagnostics.Bounded.{SafeItem, value_of-Safe}

module _ (tokens : List Text) where
  abbrev SafeRow : Row → Type 0
  SafeRow (keep item) = SafeItem tokens item
  SafeRow _ = Unit

  All-snoc :
      (items : List Item) (item : Item)
      → All (SafeItem tokens) items
      → SafeItem tokens item
      → All (SafeItem tokens) (items ++ (item ∷ []))
  All-snoc [] item h i = (i, tt)
  All-snoc (x ∷ xs) item (h, hs) i = (h, All-snoc xs item hs i)

  All-drop :
      (n : ℕ) (items : List Item)
      → All (SafeItem tokens) items
      → All (SafeItem tokens) (drop n items)
  All-drop zero items h = h
  All-drop (suc n) [] h = tt
  All-drop (suc n) (x ∷ xs) h = All-drop n xs h.1

length-drop : (n : ℕ) (items : List Item) → length (drop n items) ≡ length items - n
length-drop zero items = omega arith
length-drop (suc n) [] = omega arith
length-drop (suc n) (x ∷ xs) = omega (arith, length-drop n xs)

length-last_of : (n : ℕ) (items : List Item) → length (last_of n items) ≤ n
length-last_of n items = omega (arith, length-drop (length items - n) items)

test-Safe :
    (tokens : List Text) (b : Bool) (r : Row)
    → SafeRow tokens r
    → SafeRow tokens (elim b [ true ↦ r | false ↦ skip ])
test-Safe tokens true r s = s
test-Safe tokens false r s = tt

untest-Safe :
    (tokens : List Text) (b : Bool) (r : Row)
    → SafeRow tokens r
    → SafeRow tokens (elim b [ true ↦ skip | false ↦ r ])
untest-Safe tokens true r s = tt
untest-Safe tokens false r s = s

Row-cases :
    (r : Row) → (r ≡ skip) ⊎ (((item : Item) × (r ≡ keep item)) ⊎ ((e : Exc) × (r ≡ abort e)))
Row-cases skip = inl refl
Row-cases (keep item) = inr (inl (item, refl))
Row-cases (abort e) = inr (inr (e, refl))

module _ (loads : Text → Result Json) (show : Json → Text) (tokens : List Text) (uids : List String)
    (h : All IsToken tokens) where
  item_of-Safe :
      (row : Fields) (keys : List String)
      → SafeItem tokens (item_of loads show tokens uids row keys)
  item_of-Safe row [] = tt
  item_of-Safe row (key ∷ keys) = (value_of-Safe tokens _ h, item_of-Safe row keys)

  after_loads-Safe :
      (use_row : Fields → Row) (r : Result Json)
      → ((row : Fields) → SafeRow tokens (use_row row))
      → SafeRow tokens (after_loads loads show tokens uids use_row r)
  after_loads-Safe use_row (ok (obj row)) safe = safe row
  after_loads-Safe use_row (err (value_error m)) safe = tt
  after_loads-Safe use_row (err key_error) safe = tt
  after_loads-Safe use_row _ safe = tt

  parsed-Safe :
      (use_row : Fields → Row) (text : Option Text)
      → ((row : Fields) → SafeRow tokens (use_row row))
      → SafeRow tokens (parsed loads show tokens uids use_row text)
  parsed-Safe use_row none safe = tt
  parsed-Safe use_row (some t) safe = after_loads-Safe use_row (loads t) safe

  marked-Safe :
      (marker : String) (use_row : Fields → Row) (line : Text)
      → ((row : Fields) → SafeRow tokens (use_row row))
      → SafeRow tokens (marked loads show tokens uids marker use_row line)
  marked-Safe marker use_row line safe =
      test-Safe tokens (occurs line (codes marker)) _ (parsed-Safe use_row (from_brace line) safe)

  plan_row-Safe : (line : Text) → SafeRow tokens (plan_row loads show tokens uids line)
  unfolding plan_row
  plan_row-Safe line =
      marked-Safe "online delivery plan incomplete" (plan_item loads show tokens uids) line λ row.
        untest-Safe tokens (foreign loads show tokens uids (get row "uid")) _
          (item_of-Safe row (plan_keys loads show tokens uids))

  send_row-Safe :
      (sent : Json) (line : Text) → SafeRow tokens (send_row loads show tokens uids sent line)
  unfolding send_row
  send_row-Safe sent line =
      marked-Safe "gateway send failed" (send_item loads show tokens uids sent) line λ row.
        test-Safe tokens (py_eq (get row "clientMsgNo") sent) _
          (item_of-Safe row (send_keys loads show tokens uids))

  abbrev Within : ℕ → List Item × Option Exc → Type 0
  Within n (items, e) = (length items ≤ n) × All (SafeItem tokens) items

  plans-Within :
      (items : List Item) (lines : List Text)
      → Within 8 (items, none)
      → Within 8 (plan_failures loads show tokens uids items lines)
  unfolding plan_failures
  plans-Within items [] w = w
  plans-Within items (line ∷ lines) w = elim (Row-cases (plan_row loads show tokens uids line)) [
    | inl e ↦ rw (e, plan_failures) (plans-Within items lines w)
    | inr (inl (item, e)) ↦
        rw (e, plan_failures)
          (plans-Within (last_of 8 (items ++ (item ∷ []))) lines (
            length-last_of 8 (items ++ (item ∷ [])),
            All-drop tokens _ _
                (All-snoc tokens items item w.1 (subst (SafeRow tokens) e (plan_row-Safe line))),
          ))
    | inr (inr (x, e)) ↦ rw (e, plan_failures) w
  ]

  -- However long the server's log, the report holds at most 8 incomplete plans, of which each value
  -- has at most 512 characters and holds no token.
  pub plan_failures_safe :
      (lines : List Text)
      → let items = (plan_failures loads show tokens uids [] lines).0 in
        (length items ≤ 8) × All (SafeItem tokens) items
  plan_failures_safe lines = plans-Within [] lines (omega arith, tt)

  stop_or_go :
      (b : Bool) (x y : List Item × Option Exc)
      → (b ≡ true → Within 4 x)
      → (b ≡ false → Within 4 y)
      → Within 4 (elim b [ true ↦ x | false ↦ y ])
  stop_or_go true x y f g = f refl
  stop_or_go false x y f g = g refl

  sends-Within :
      (sent : Json) (items : List Item) (lines : List Text)
      → length items < 4
      → All (SafeItem tokens) items
      → Within 4 (send_errors loads show tokens uids sent items lines)
  unfolding send_errors
  sends-Within sent items [] b s = (omega (arith, b), s)
  sends-Within sent items (line ∷ lines) b s =
      elim (Row-cases (send_row loads show tokens uids sent line)) [
        | inl e ↦ rw (e, send_errors) (sends-Within sent items lines b s)
        | inr (inl (item, e)) ↦
            let more = items ++ (item ∷ []) in
            let s' =
              All-snoc tokens items item s (subst (SafeRow tokens) e (send_row-Safe sent line)) in
            let n = length-append items (item ∷ []) in
            rw (e, send_errors)
              (stop_or_go (length more == 4) (more, none)
                (send_errors loads show tokens uids sent more lines)
                (λ q. (omega (arith, b, n), s'))
                (λ q. sends-Within sent more lines (ground (arith, b, n, q)) s'))
        | inr (inr (x, e)) ↦ rw (e, send_errors) (omega (arith, b), s)
      ]

  -- However long the log, the report holds at most 4 failed sends, of which each value has at most 512
  -- characters and holds no token.
  pub send_errors_safe :
      (sent : Json) (lines : List Text)
      → let items = (send_errors loads show tokens uids sent [] lines).0 in
        (length items ≤ 4) × All (SafeItem tokens) items
  send_errors_safe sent lines = sends-Within sent [] lines (omega arith) tt
