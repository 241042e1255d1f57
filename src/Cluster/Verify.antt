-- ===== src/Cluster/Verify.antt =====
-- `verify_group` and `retry_activation` of scripts/interop_cluster.py.
use wu_kong_easy_sdk_csharp.Common.{ℕ, String, Bool, true, false, not, ◌&&◌, ◌||◌, ◌≡◌, ◌↔◌, arith}
use wu_kong_easy_sdk_csharp.Python.Result.{assertion_error, Result, ok, ◌>>◌, raise_if}
use wu_kong_easy_sdk_csharp.Python.Int.{pos, negsuc}
use wu_kong_easy_sdk_csharp.Python.Json.{Json, bool, int, str, Fields, get, py_eq, is_int}
use wu_kong_easy_sdk_csharp.Python.Json.Equality.{py_eq-str, py_eq-str_self}

-- `message['channelType']` is read only where `get` has found an int, so its key is there.
unfoldable pub verify_group : Fields → String → Result (Unit {0})
verify_group message channel_id = do
  raise_if
      (not (py_eq (get message "channelId") (str channel_id))
        || not (is_int (get message "channelType"))
        || not (py_eq (get message "channelType") (int (pos 2))))
      (assertion_error "Group channel identity mismatch")
  ok tt

-- `v is False`
abbrev pub is_false : Json → Bool
is_false (bool b) = not b
is_false _ = false

unfoldable pub retry_activation : Fields → Bool → Bool
retry_activation result recovery =
    recovery
    && is_false (get result "ok")
    && is_int (get result "code")
    && py_eq (get result "code") (int (pos 15))

int_is : (v : Json) (n : ℕ) → (is_int v && py_eq v (int (pos n))) ≡ true → v ≡ int (pos n)
unfolding py_eq
int_is (int (pos m)) n h = ground arith
int_is (int (negsuc m)) n h = absurd (ground arith)
int_is _ n h = absurd (cc)

int_self : (n : ℕ) → py_eq (int (pos n)) (int (pos n)) ≡ true
unfolding py_eq
int_self n = ground arith

is_false_sound : (v : Json) → is_false v ≡ true → v ≡ bool false
is_false_sound (bool b) h = ground arith
is_false_sound _ h = absurd (cc)

-- `verify_group` returns exactly on a message of this channel whose type is the number 2: a person
-- channel, another channel, a missing key, `True` and 2.0 raise.
pub verify_group_iff :
    (message : Fields) (channel_id : String)
    → (verify_group message channel_id ≡ ok tt)
      ↔ ((get message "channelId" ≡ str channel_id) × (get message "channelType" ≡ int (pos 2)))
unfolding verify_group
verify_group_iff message channel_id = (
  λ h. (
    py_eq-str (get message "channelId") channel_id (ground arith),
    int_is (get message "channelType") 2 (ground arith),
  ),
  λ h. rw (h.0, h.1, py_eq-str_self channel_id, int_self 2),
)

-- A login is tried again exactly in recovery, after a rejection whose code is the number 15.
pub retry_activation_iff :
    (result : Fields) (recovery : Bool)
    → (retry_activation result recovery ≡ true)
      ↔ ((recovery ≡ true) × (get result "ok" ≡ bool false) × (get result "code" ≡ int (pos 15)))
unfolding retry_activation
retry_activation_iff result recovery = (
  λ h. (
    ground arith,
    is_false_sound (get result "ok") (ground arith),
    int_is (get result "code") 15 (ground arith),
  ),
  λ h. rw (h.0, h.1, h.2, int_self 15),
)
