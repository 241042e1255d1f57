-- ===== src/Cluster/Login/Bounded.antt =====
-- What the login loop has done when it ends.
use wu_kong_easy_sdk_csharp.Common.{
  ℕ, zero, suc, ◌+◌, String, Bool, true, false, Option, none, some, List, [], ◌∷◌, ◌++◌, ◌≡◌, refl,
  arith, All, map, Option-cases, Bool-cases, inl, inr, ◌⊎◌, ap, length, sym, ◌∙◌,
}
use wu_kong_easy_sdk_csharp.Python.Result.{ok, >>=-eq-ok, ok_injective}
use mathlib.Core.Path.{subst}
use wu_kong_easy_sdk_csharp.Python.Int.{pos}
use wu_kong_easy_sdk_csharp.Python.Text.{Unicode}
use wu_kong_easy_sdk_csharp.Python.Json.{Json, bool, int, str, Fields, lookup, get}
use wu_kong_easy_sdk_csharp.Interop.Exchange.{verify_exchange}
use wu_kong_easy_sdk_csharp.Interop.Exchange.Accepted.{Accepted, verify_exchange_iff}
use wu_kong_easy_sdk_csharp.Cluster.Verify.{
  verify_group_iff, retry_activation, retry_activation_iff,
}
use wu_kong_easy_sdk_csharp.Cluster.Login.{
  truthy, Event, created, connected, closed, client, login, check_group, check_received,
}

-- An activation failure that recovery may retry.
abbrev pub ActivationFailure : Fields → Type 0
ActivationFailure r = (get r "ok" ≡ bool false) × (get r "code" ≡ int (pos 15))

-- The log of `k` failed clients from number `n` on: each is closed before the next is created.
abbrev pub retired : ℕ → ℕ → List Event
retired n zero = []
retired n (suc k) = created n ∷ closed n ∷ retired (suc n) k

pub record LoggedIn (recovery : Bool) (n : ℕ) (results : List Fields) (m : ℕ) (log : List Event)
    : Type 0 where
  pub failures : List Fields
  pub success : Fields
  pub untried : List Fields
  pub spelled : results ≡ failures ++ (success ∷ untried)
  pub only_activation : All ActivationFailure failures
  pub retried_in_recovery : (length failures ≡ 0) ⊎ (recovery ≡ true)
  pub answer : Json
  pub answered : lookup success "ok" ≡ some answer
  pub accepted : truthy answer ≡ true
  pub number : m ≡ n + length failures
  pub logged : log ≡ retired n (length failures) ++ (created m ∷ connected m ∷ [])

module _ (recovery : Bool) where
  retry_more :
      (n : ℕ) (r : Fields) (rs : List Fields) (m : ℕ) (log : List Event)
      → retry_activation r recovery ≡ true
      → LoggedIn recovery (suc n) rs m log
      → LoggedIn recovery n (r ∷ rs) m (created n ∷ closed n ∷ log)
  retry_more n r rs m log e l =
      let (rec, not_ok, code) = (retry_activation_iff r recovery).0 e in
      record {
        failures = r ∷ l.failures;
        success = l.success;
        untried = l.untried;
        spelled = ap (λ t. r ∷ t) l.spelled;
        only_activation = ((not_ok, code), l.only_activation);
        retried_in_recovery = inr rec;
        answer = l.answer;
        answered = l.answered;
        accepted = l.accepted;
        number = omega (arith, l.number);
        logged = ap (λ t. created n ∷ closed n ∷ t) l.logged;
      }

  -- If the login ends with a client, every earlier answer was an activation failure with code 15,
  -- recovery was asked if there was one, each failed client was closed before the next was created, and
  -- the client is the one whose answer was ok.
  pub login_sound :
      (n : ℕ) (results : List Fields) (m : ℕ) (log : List Event)
      → login recovery n results ≡ (client m, log)
      → LoggedIn recovery n results m log
  unfolding login
  login_sound n [] m log h = absurd (ground arith)
  login_sound n (r ∷ rs) m log h = elim (Option-cases (lookup r "ok")) [
    | inl e ↦ absurd (ground arith)
    | inr (v, e) ↦ elim (Bool-cases (truthy v)) [
      | inl t ↦ record {
        failures = [];
        success = r;
        untried = rs;
        spelled = refl;
        only_activation = tt;
        retried_in_recovery = inl refl;
        answer = v;
        answered = e;
        accepted = t;
        number = ground arith;
        logged = ground arith;
      }
      | inr t ↦ elim (Option-cases (lookup r "category")) [
        | inl no_category ↦ absurd (ground arith)
        | inr (category, c) ↦ elim (Bool-cases (retry_activation r recovery)) [
          | inl y ↦
              let rest = login recovery (suc n) rs in
              let ended : rest.0 ≡ client m = ground arith in
              let spelled : created n ∷ closed n ∷ rest.1 ≡ log = ground arith in
              subst (LoggedIn recovery n (r ∷ rs) m) spelled (
                retry_more n r rs m rest.1 y
                  (login_sound (suc n) rs m rest.1 (λ i. (ended i, rest.1))))
          | inr x ↦ absurd (ground arith)
        ]
      ]
    ]
  ]

-- ---------------------------------------------------------------- the exchange

abbrev pub uid_of : String × Fields → String
uid_of (uid, message) = uid

module _ (u : Unicode) (ack : Fields) (sender : String) (payload : Json)
    (correlation : String) where
  -- A receipt: the message matches the acknowledgment, and in a group exchange names the group.
  pub record Receipt (group : Option String) (message : Fields) : Type 0 where
    pub matches : Accepted u ack message sender payload correlation
    pub group_message :
        (channel : String)
        → group ≡ some channel
        → (get message "channelId" ≡ str channel) × (get message "channelType" ≡ int (pos 2))

  abbrev pub ReceiptOf : Option String → String × Fields → Type 0
  ReceiptOf group (uid, message) = Receipt group message

  receipt :
      (group : Option String) (message : Fields)
      → verify_exchange u ack message sender payload correlation ≡ ok tt
      → check_group group message ≡ ok tt
      → Receipt group message
  receipt none message v g = record {
    matches = (verify_exchange_iff u ack message sender payload correlation).0 v;
    group_message = λ c e. absurd (cc);
  }
  receipt (some channel) message v g = record {
    matches = (verify_exchange_iff u ack message sender payload correlation).0 v;
    group_message = λ c e.
        let same : channel ≡ c = cc in
        subst (λ x. (get message "channelId" ≡ str x) × (get message "channelType" ≡ int (pos 2)))
          same ((verify_group_iff message channel).0 g);
  }

  -- An exchange succeeds only if every recipient's message is a receipt, and it then names all
  -- recipients, in order.
  pub check_received_sound :
      (group : Option String) (got : List (String × Fields)) (received : List String)
      → check_received u ack sender payload correlation group got ≡ ok received
      → (received ≡ map uid_of got) × All (ReceiptOf group) got
  unfolding check_received
  check_received_sound group [] received h = (sym (ok_injective h), tt)
  check_received_sound group ((uid, message) ∷ rest) received h =
      let (a, v, h1) = >>=-eq-ok (verify_exchange u ack message sender payload correlation) _ h in
      let (b, g, h2) = >>=-eq-ok (check_group group message) _ h1 in
      let (uids, c, h3) =
        >>=-eq-ok (check_received u ack sender payload correlation group rest) _ h2 in
      let (same, receipts) = check_received_sound group rest uids c in
      (sym (ok_injective h3) ∙ ap (λ t. uid ∷ t) same, (receipt group message v g, receipts))
