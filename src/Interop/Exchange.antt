-- ===== src/Interop/Exchange.antt =====
-- `verify_exchange` of scripts/interop.py: the comparison that decides each interoperability case.
pub mod Accepted
use wu_kong_easy_sdk_csharp.Common.{
  ℕ, ◌^◌, String, Bool, true, false, not, ◌&&◌, ◌||◌, Option, none, some, leb, codes, if◌then◌else◌,
  ◌≡◌, refl,
}
use wu_kong_easy_sdk_csharp.Python.Result.{
  Exc, assertion_error, type_error, key_error, Result, ok, err, ◌>>=◌, ◌>>◌, raise_if,
}
use wu_kong_easy_sdk_csharp.Python.Int.{ℤ, pos, negsuc, positive, truncate}
use wu_kong_easy_sdk_csharp.Python.Text.{Unicode, is_decimal, int_of_text}
use wu_kong_easy_sdk_csharp.Python.Json.{
  Json, null, bool, int, real, str, arr, obj, Fields, lookup, get, py_eq,
}
use wu_kong_easy_sdk_csharp.Python.Json.Dumps.{dumps}
use wu_kong_easy_sdk_csharp.Python.Json.Tokens.{tokens_eq}

-- d[key]
abbrev pub index : Fields → String → Result Json
index fs key = elim (lookup fs key) [ none ↦ err key_error | some v ↦ ok v ]

-- z <= n
abbrev pub le_nat : ℤ → ℕ → Bool
le_nat (pos m) n = leb m n
le_nat (negsuc m) n = true

module _ (u : Unicode) where
  -- int(v)
  unfoldable pub py_int : Json → Result ℤ
  py_int (bool false) = ok (pos 0)
  py_int (bool true) = ok (pos 1)
  py_int (int z) = ok z
  py_int (real z k) = ok (truncate z k)
  py_int (str s) = int_of_text u (codes s)
  py_int _ = err type_error

  -- not isinstance(v, str) or not v.isdecimal() or int(v) <= 2**53
  unfoldable pub rounded_id : Json → Result Bool
  rounded_id (str s) =
      if not (is_decimal u (codes s))
      then ok true
      else do n ← int_of_text u (codes s); ok (le_nat n (2 ^ 53))
  rounded_id _ = ok true

  -- ack.get("messageSeq") != message.get("messageSeq") or int(ack["messageSeq"]) <= 0
  unfoldable pub bad_sequence : Fields → Fields → Result Bool
  unfolding py_int
  bad_sequence ack message =
      if not (py_eq (get ack "messageSeq") (get message "messageSeq"))
      then ok true
      else do v ← index ack "messageSeq"; n ← py_int v; ok (not (positive n))

  -- ack.get("clientMsgNo") not in (None, client_msg_no) or message.get("clientMsgNo") != client_msg_no
  unfoldable pub bad_correlation : Fields → Fields → String → Bool
  bad_correlation ack message client_msg_no =
      not (py_eq (get ack "clientMsgNo") null || py_eq (get ack "clientMsgNo") (str client_msg_no))
      || not (py_eq (get message "clientMsgNo") (str client_msg_no))

  unfoldable pub verify_exchange : Fields → Fields → String → Json → String → Result (Unit {0})
  verify_exchange ack message sender payload client_msg_no = do
    bad_id ← rounded_id (get ack "messageId")
    raise_if bad_id
        (assertion_error "Expected a lossless string message ID beyond JS safe integer range")
    raise_if
        (not (py_eq (get ack "reasonCode") (int (pos 1)))
          || not (py_eq (get message "messageId") (get ack "messageId")))
        (assertion_error "SENDACK/RECV identity mismatch or SEND rejection")
    bad_seq ← bad_sequence ack message
    raise_if bad_seq (assertion_error "SENDACK/RECV sequence mismatch")
    raise_if (bad_correlation ack message client_msg_no)
        (assertion_error "Client message correlation mismatch")
    raise_if (not (py_eq (get message "fromUid") (str sender)))
        (assertion_error "Unexpected message sender")
    raise_if (not (tokens_eq (dumps (get message "payload")) (dumps payload)))
        (assertion_error "Application payload changed")
    ok tt
