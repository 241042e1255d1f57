-- ===== src/Interop/Exchange/Accepted.antt =====
-- What `verify_exchange` accepts, described without its control flow.
use wu_kong_easy_sdk_csharp.Common.{
  ℕ, ◌^◌, ◌≤◌, ◌<◌, String, true, false, some, ◌⊎◌, inl, inr, codes, length, ◌≡◌, refl, ◌↔◌, arith,
  Option-cases, ap,
}
use wu_kong_easy_sdk_csharp.Python.Result.{Result, ok}
use wu_kong_easy_sdk_csharp.Python.Int.{ℤ, pos}
use wu_kong_easy_sdk_csharp.Python.Text.{Unicode, is_decimal}
use wu_kong_easy_sdk_csharp.Python.Text.Decimal.{spelled, int_of_text-is_decimal}
use wu_kong_easy_sdk_csharp.Python.Json.{Json, null, int, str, Fields, lookup, get, py_eq}
use wu_kong_easy_sdk_csharp.Python.Json.Equality.{py_eq-str, py_eq-null, py_eq-str_self}
use wu_kong_easy_sdk_csharp.Python.Json.Dumps.{sort_keys, dumps}
use wu_kong_easy_sdk_csharp.Python.Json.Dumps.Injective.{dumps_iff}
use wu_kong_easy_sdk_csharp.Python.Json.Tokens.{tokens_eq_sound, tokens_eq_refl}
use wu_kong_easy_sdk_csharp.Interop.Exchange.{
  py_int, rounded_id, bad_sequence, bad_correlation, verify_exchange,
}

module _ (u : Unicode) where
  -- A message identifier that JavaScript's numbers would round: a decimal text above 2 ^ 53.
  pub record LosslessId (v : Json) : Type 0 where
    pub id : String
    pub is_text : v ≡ str id
    pub digits : is_decimal u (codes id) ≡ true
    pub short_enough : length (codes id) ≤ 4300
    pub beyond_double : 2 ^ 53 < spelled u 0 (codes id)

  -- The acknowledgment has a sequence number that `int` takes to a positive number.
  pub record PositiveSequence (ack message : Fields) : Type 0 where
    pub sequence : Json
    pub present : lookup ack "messageSeq" ≡ some sequence
    pub same : py_eq sequence (get message "messageSeq") ≡ true
    pub value : ℕ
    pub as_int : py_int u sequence ≡ ok (pos value)
    pub above_zero : 0 < value

  pub record Accepted (ack message : Fields) (sender : String) (payload : Json)
      (client_msg_no : String) : Type 0 where
    pub lossless : LosslessId (get ack "messageId")
    pub success : py_eq (get ack "reasonCode") (int (pos 1)) ≡ true
    pub same_id : py_eq (get message "messageId") (get ack "messageId") ≡ true
    pub sequence : PositiveSequence ack message
    pub ack_correlates :
        (get ack "clientMsgNo" ≡ null) ⊎ (get ack "clientMsgNo" ≡ str client_msg_no)
    pub message_correlates : get message "clientMsgNo" ≡ str client_msg_no
    pub from_sender : get message "fromUid" ≡ str sender
    pub same_payload : sort_keys (get message "payload") ≡ sort_keys payload

  -- ---------------------------------------------------------------- one lemma for each check

  -- What `int` makes of a text that `isdecimal` accepts.
  big_id :
      (s : String)
      → is_decimal u (codes s) ≡ true
      → rounded_id u (str s) ≡ ok false
      → (length (codes s) ≤ 4300) × (2 ^ 53 < spelled u 0 (codes s))
  unfolding rounded_id
  big_id s d h = ground (arith, int_of_text-is_decimal u (codes s) d)

  decimal_id : (s : String) → rounded_id u (str s) ≡ ok false → is_decimal u (codes s) ≡ true
  unfolding rounded_id
  decimal_id s h = ground arith

  rounded_id-str : (s : String) → rounded_id u (str s) ≡ ok false → LosslessId (str s)
  rounded_id-str s h =
      let d = decimal_id s h in
      let (short, big) = big_id s d h in
      record { id = s; is_text = refl; digits = d; short_enough = short; beyond_double = big }

  rounded_id_sound : (v : Json) → rounded_id u v ≡ ok false → LosslessId v
  unfolding rounded_id
  rounded_id_sound (str s) h = rounded_id-str s h
  rounded_id_sound _ h = absurd (cc)

  rounded_id_complete : (v : Json) → LosslessId v → rounded_id u v ≡ ok false
  unfolding rounded_id
  rounded_id_complete v l =
      rw (l.is_text, rounded_id, l.digits, int_of_text-is_decimal u (codes l.id) l.digits)
        (ground arith)

  module _ (ack message : Fields) (h : bad_sequence u ack message ≡ ok false) where
    sequence_present : (v : Json) × (lookup ack "messageSeq" ≡ some v)
    unfolding bad_sequence get
    sequence_present = elim (Option-cases (lookup ack "messageSeq")) [
      | inl e ↦ absurd (ground arith)
      | inr found ↦ found
    ]

    positive_sequence :
        (v : Json) (r : Result ℤ)
        → lookup ack "messageSeq" ≡ some v
        → py_int u v ≡ r
        → PositiveSequence ack message
    unfolding bad_sequence get
    positive_sequence v (ok (pos n)) found e = record {
      sequence = v;
      present = found;
      same = ground arith;
      value = n;
      as_int = e;
      above_zero = ground arith;
    }
    positive_sequence v _ found e = absurd (ground arith)

    bad_sequence_sound : PositiveSequence ack message
    bad_sequence_sound =
        let (v, found) = sequence_present in positive_sequence v (py_int u v) found refl

  bad_sequence_complete :
      (ack message : Fields) → PositiveSequence ack message → bad_sequence u ack message ≡ ok false
  unfolding bad_sequence get
  bad_sequence_complete ack message p = ground (arith, p.present, p.same, p.as_int, p.above_zero)

  bad_correlation_sound :
      (ack message : Fields) (n : String)
      → bad_correlation u ack message n ≡ false
      → ((get ack "clientMsgNo" ≡ null) ⊎ (get ack "clientMsgNo" ≡ str n))
        × (get message "clientMsgNo" ≡ str n)
  unfolding bad_correlation
  bad_correlation_sound ack message n h = ground (
    arith,
    py_eq-null (get ack "clientMsgNo"),
    py_eq-str (get ack "clientMsgNo") n,
    py_eq-str (get message "clientMsgNo") n,
  )

  null_self : py_eq null null ≡ true
  unfolding py_eq
  null_self = refl

  bad_correlation_complete :
      (ack message : Fields) (n : String)
      → (get ack "clientMsgNo" ≡ null) ⊎ (get ack "clientMsgNo" ≡ str n)
      → get message "clientMsgNo" ≡ str n
      → bad_correlation u ack message n ≡ false
  unfolding bad_correlation
  bad_correlation_complete ack message n (inl a) m =
      ground
        (arith, ap (λ v. py_eq v null) a, ap (λ v. py_eq v (str n)) m, py_eq-str_self n, null_self)
  bad_correlation_complete ack message n (inr a) m =
      ground (arith, ap (λ v. py_eq v (str n)) a, ap (λ v. py_eq v (str n)) m, py_eq-str_self n)

  -- ---------------------------------------------------------------- the whole comparison

  -- `verify_exchange` returns exactly on the pairs of SENDACK and RECV that `Accepted` describes, and
  -- raises on all others: the identifier is a decimal text that a JavaScript number would round, both
  -- carry it, the reason code is success, the sequence numbers agree and are positive, the client
  -- message number and the sender are those sent, and the payloads are equal up to the order of keys.
  pub verify_exchange_iff :
      (ack message : Fields) (sender : String) (payload : Json) (client_msg_no : String)
      → (verify_exchange u ack message sender payload client_msg_no ≡ ok tt)
        ↔ Accepted ack message sender payload client_msg_no
  unfolding verify_exchange
  verify_exchange_iff ack message sender payload n = (sound, complete)
    where
      sound :
          verify_exchange u ack message sender payload n ≡ ok tt
          → Accepted ack message sender payload n
      sound h = record {
        lossless = rounded_id_sound (get ack "messageId") (ground arith);
        success = ground arith;
        same_id = ground arith;
        sequence = bad_sequence_sound ack message (ground arith);
        ack_correlates = (bad_correlation_sound ack message n (ground arith)).0;
        message_correlates = (bad_correlation_sound ack message n (ground arith)).1;
        from_sender = py_eq-str (get message "fromUid") sender (ground arith);
        same_payload =
            (dumps_iff (get message "payload") payload).0
              (tokens_eq_sound (dumps (get message "payload")) (dumps payload) (ground arith));
      }

      complete :
          Accepted ack message sender payload n
          → verify_exchange u ack message sender payload n ≡ ok tt
      complete a = rw (
        rounded_id_complete (get ack "messageId") a.lossless,
        a.success,
        a.same_id,
        bad_sequence_complete ack message a.sequence,
        bad_correlation_complete ack message n a.ack_correlates a.message_correlates,
        a.from_sender,
        py_eq-str_self sender,
        (dumps_iff (get message "payload") payload).1 a.same_payload,
        tokens_eq_refl (dumps payload),
      )
